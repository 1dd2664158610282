-- ===== src/Editor/Schema/Network.antt =====
-- src/cfg/schema.rs: the sections bbs, network, accounts.
use bbs_rs.Prelude.{true, false, [], ◌∷◌, codes}
use bbs_rs.Editor.Schema.{Section, setting, bool, int, str, path, str_list, fields_kind}

unfoldable pub bbs_section : Section
bbs_section = record {
  name = codes "bbs";
  title = codes "Board identity";
  help = codes "Names and text shown to callers.";
  restart_only = false;
  kind = fields_kind;
  fields =
      setting "name" "Board name" str "Shown in the title bar, startup log, and help."
      ∷ setting "tagline" "Tagline" str "Short subtitle on the main menu and help screen."
      ∷ setting "sysop" "Sysop name" str "Shown in the help footer. Blank hides it."
      ∷ setting "welcome" "Welcome message" str
          "Message-of-the-day banner on the main menu. Blank hides it."
      ∷ [];
}

unfoldable pub network_section : Section
network_section = record {
  name = codes "network";
  title = codes "SSH & database";
  help = codes "Where the BBS listens and what it stores to. CLI flags override these.";
  restart_only = true;
  kind = fields_kind;
  fields =
      setting "host" "Bind address" str
        "0.0.0.0 listens on every interface; 127.0.0.1 is local-only."
      ∷ setting "port" "SSH port" (int 1 65535) "Ports below 1024 need privilege to bind."
      ∷ setting "hostname" "Public hostname" str
          "What callers type to reach you, shown in connect hints. Blank falls back to the bind address."
      ∷ setting "database_url" "Database URL" str
          "SQLite URL, e.g. sqlite://bbs.db?mode=rwc. Changing this points the board at a different database."
      ∷ setting "host_key" "SSH host key path" path
          "Generated on first run if missing. Replacing it makes every client warn about a changed key."
      ∷ setting "inactivity_timeout_secs" "Idle timeout (s)" (int 0 86400)
          "Disconnect idle sessions after this long. 0 disables."
      ∷ setting "auth_rejection_time_secs" "Auth reject delay (s)" (int 0 60)
          "Pause before returning an SSH auth failure; slows brute force."
      ∷ setting "ban_sweep_interval_secs" "Ban sweep interval (s)" (int 1 3600)
          "How often to look for banned users/IPs and kick their live sessions."
      ∷ setting "default_cols" "Fallback columns" (int 20 500)
          "Terminal width used when a client reports 0x0."
      ∷ setting "default_rows" "Fallback rows" (int 10 200)
          "Terminal height used when a client reports 0x0."
      ∷ [];
}

unfoldable pub accounts_section : Section
accounts_section = record {
  name = codes "accounts";
  title = codes "Accounts";
  help = codes "Registration policy.";
  restart_only = false;
  kind = fields_kind;
  fields =
      setting "reserved_usernames" "Reserved usernames" str_list
        "Names nobody may register (case-insensitive). \"guest\" is always reserved. Usernames containing @ are always refused, to stop impersonation of remote actors."
      ∷ setting "require_validation" "Require sysop approval" bool
          "New registrations wait in a pending queue until a sysop approves them."
      ∷ [];
}
