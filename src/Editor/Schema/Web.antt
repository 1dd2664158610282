-- ===== src/Editor/Schema/Web.antt =====
-- src/cfg/schema.rs: the sections web, federation.
use bbs_rs.Prelude.{true, [], ◌∷◌, codes}
use bbs_rs.Editor.Schema.{Section, setting, bool, int, str, path, str_list, fields_kind}

unfoldable pub web_section : Section
web_section = record {
  name = codes "web";
  title = codes "Web frontend";
  help =
      codes
        "A browser terminal over WebSocket that reuses the whole TUI. Required for federation — every ActivityPub endpoint is served here.";
  restart_only = true;
  kind = fields_kind;
  fields =
      setting "enabled" "Enable web frontend" bool "Serve the BBS in a browser alongside SSH."
      ∷ setting "host" "Bind address" str "Use 127.0.0.1 when a reverse proxy sits in front."
      ∷ setting "port" "Port" (int 1 65535)
          "Federation needs the frontend reachable on 443, because acct: URIs have no port component."
      ∷ setting "hostname" "Public hostname" str
          "What browsers type to reach you. Blank falls back to the first ACME domain, then the bind address."
      ∷ setting "tls" "TLS" bool
          "On by default; a self-signed cert is generated if none is configured. Turn off when a proxy terminates TLS."
      ∷ setting "tls_cert" "TLS certificate" path
          "Your own certificate. Leave blank to use the generated self-signed one."
      ∷ setting "tls_key" "TLS key" path "Private key matching the certificate above."
      ∷ setting "acme_domains" "ACME domains" str_list
          "Fetch a trusted Let's Encrypt certificate for these names. Takes precedence over the cert/key above. Needs public DNS and port 443."
      ∷ setting "acme_email" "ACME contact email" str "Where Let's Encrypt sends expiry warnings."
      ∷ setting "acme_cache" "ACME cache directory" path
          "Persists the account key and issued certificates. Losing it means re-issuing."
      ∷ setting "acme_staging" "Use ACME staging" bool
          "Issue untrusted test certificates. Use this first — staging has far higher rate limits."
      ∷ setting "header_file" "Header HTML file" path
          "HTML fragment shown above the browser terminal — a repo link, house rules. Blank for none. Re-read per request."
      ∷ setting "footer_file" "Footer HTML file" path
          "HTML fragment shown below the browser terminal. Remember this is the page where users type their password."
      ∷ setting "feeds" "RSS/Atom feeds" bool
          "Serve /feed/<board> feeds for guest-readable boards. On by default; restricted boards are never exposed."
      ∷ [];
}

unfoldable pub federation_section : Section
federation_section = record {
  name = codes "federation";
  title = codes "Federation (ActivityPub)";
  help =
      codes
        "Syndicate boards to other bbs-rs instances and make users user@host, followable from Mastodon. Requires the web frontend.";
  restart_only = true;
  kind = fields_kind;
  fields =
      setting "enabled" "Enable federation" bool
        "Off by default. See docs/FEDERATION-SETUP.md before turning this on."
      ∷ setting "origin" "Public origin" str
          "PERMANENT. Scheme and host only, e.g. https://bbs.example.com — no port, no path. Actor URIs are built from it and can never be rewritten once delivered; changing it later orphans every remote follow."
      ∷ setting "allowlist_only" "Allowlist only" bool
          "Federate only with domains you name via bbsctl ap-allow. On by default: open federation means volunteering to moderate the entire internet."
      ∷ setting "allow_remote_dms" "Allow remote DMs" bool
          "Off by default. Fediverse DMs are NOT private — they sit in plaintext on every server they touch. The UI labels them accordingly."
      ∷ setting "delivery_interval_secs" "Delivery interval (s)" (int 1 3600)
          "How often the outbound queue drains."
      ∷ setting "delivery_max_attempts" "Delivery attempts" (int 1 100)
          "Give up on an activity after this many failures."
      ∷ setting "debug_insecure" "Insecure mode (testing only)" bool
          "Allows http, localhost and ports in the origin. LOCAL TESTING ONLY — never on a real board."
      ∷ [];
}
