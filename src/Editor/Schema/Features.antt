-- ===== src/Editor/Schema/Features.antt =====
-- src/cfg/schema.rs: the sections features, abuse, oneliners, seed, doors, art.screens.
use bbs_rs.Prelude.{true, false, [], ◌∷◌, codes}
use bbs_rs.Editor.Schema.{
  Section, setting, bool, int, str, fields_kind, doors_kind, art_screens_kind, seed_boards_kind,
}

unfoldable pub features_section : Section
features_section = record {
  name = codes "features";
  title = codes "Features";
  help = codes "Turn whole areas of the BBS on or off.";
  restart_only = false;
  kind = fields_kind;
  fields =
      setting "registration" "Allow registration" bool
        "Let callers create accounts from the guest session."
      ∷ setting "guest" "Allow guest login" bool
          "The shared read-only guest account. Guests never federate."
      ∷ setting "private_mail" "Private mail" bool "User-to-user mail."
      ∷ setting "who_online" "Who's online" bool "The who's-online view."
      ∷ setting "oneliners" "Oneliners" bool
          "The graffiti wall. Also this board's ActivityPub statuses when federation is on."
      ∷ setting "polls" "Polls" bool "The voting booth — users create and vote on polls."
      ∷ setting "chat" "Chat" bool "The live multi-user chat room / teleconference."
      ∷ setting "mail_to_sysop" "Mail the sysop" bool
          "A feedback-to-sysop menu entry, available even when private mail is off."
      ∷ setting "pubkey_auth" "SSH public-key auth" bool
          "Let users register SSH keys and log in with them."
      ∷ setting "file_areas" "File areas" bool "Browsable, downloadable file areas."
      ∷ setting "advertise_transports" "Advertise the other way in" bool
          "SSH users see the web URL and vice versa. Set the hostname fields so the address is reachable."
      ∷ [];
}

unfoldable pub abuse_section : Section
abuse_section = record {
  name = codes "abuse";
  title = codes "Abuse protection";
  help = codes "Automatic IP bans after repeated failed logins.";
  restart_only = false;
  kind = fields_kind;
  fields =
      setting "max_failures" "Failures before ban" (int 0 1000)
        "Auto-ban an IP after this many failed logins in the window. 0 disables auto-banning."
      ∷ setting "window_secs" "Failure window (s)" (int 1 86400)
          "Sliding window over which failures are counted."
      ∷ setting "ban_secs" "Ban duration (s)" (int 0 31536000)
          "How long an auto-ban lasts. 0 is permanent."
      ∷ [];
}

unfoldable pub art_screens_section : Section
art_screens_section = record {
  name = codes "art.screens";
  title = codes "Per-screen art";
  help =
      codes
        "Optional art heading individual screens. Files live under the art directory set in ANSI art. A name that isn't there is flagged when you save — a missing file fails silently at runtime, the screen just renders plain.";
  restart_only = false;
  kind = art_screens_kind;
  fields = [];
}

unfoldable pub oneliners_section : Section
oneliners_section = record {
  name = codes "oneliners";
  title = codes "Oneliners";
  help =
      codes
        "Graffiti-wall policy, separate from the on/off toggle in Features. The wall does not auto-trim: oneliners are federated posts with permanent URIs.";
  restart_only = false;
  kind = fields_kind;
  fields =
      setting "max_length" "Max length" (int 0 10000)
        "Characters per oneliner. 0 removes the cap; 500 matches Mastodon."
      ∷ [];
}

unfoldable pub doors_section : Section
doors_section = record {
  name = codes "doors";
  title = codes "Door games";
  help =
      codes
        "External programs callers can run. Each gets a pseudo-terminal and the caller's details in the environment. A Doors menu appears when at least one is configured.";
  restart_only = false;
  kind = doors_kind;
  fields = [];
}

unfoldable pub seed_section : Section
seed_section = record {
  name = codes "seed";
  title = codes "First-run seeding";
  help =
      codes
        "Applied only to a fresh database. On a board that already has boards these settings change the file but nothing else, since seeding is first-run only.";
  restart_only = true;
  kind = seed_boards_kind;
  fields =
      setting "guest_password" "Guest password" str
        "Password for the shared guest account, used on first run."
      ∷ [];
}
