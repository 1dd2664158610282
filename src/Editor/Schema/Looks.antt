-- ===== src/Editor/Schema/Looks.antt =====
-- src/cfg/schema.rs: the sections theme, art, finger, metrics.
use bbs_rs.Prelude.{true, false, [], ◌∷◌, codes}
use bbs_rs.Editor.Schema.{Section, setting, bool, int, str, path, enum_, presets, fields_kind}

unfoldable pub theme_section : Section
theme_section = record {
  name = codes "theme";
  title = codes "Theme";
  help =
      codes
        "Colors. Pick a preset, then override individual colors if you want. A color is a name (cyan, darkgray, …), a 256-palette index (\"208\"), or hex (\"#ff8800\").";
  restart_only = false;
  kind = fields_kind;
  fields =
      setting "preset" "Preset" (enum_ presets) "The built-in base palette."
      ∷ setting "title_fg" "Title text" str "Title-bar text color."
      ∷ setting "title_bg" "Title background" str "Title-bar background color."
      ∷ setting "accent" "Accent" str "Headings, tags, author names."
      ∷ setting "highlight" "Highlight" str "New/unread markers."
      ∷ setting "warning_fg" "Warning text" str "Status and warning text."
      ∷ setting "warning_bg" "Warning background" str "Status and warning background."
      ∷ setting "dim" "Dim" str "Secondary text, hints, labels."
      ∷ [];
}

unfoldable pub art_section : Section
art_section = record {
  name = codes "art";
  title = codes "ANSI art";
  help =
      codes
        "CP437 .ans art and UTF-8 text with ANSI escapes both work. Per-screen art ([art.screens]) is edited in the file.";
  restart_only = false;
  kind = fields_kind;
  fields =
      setting "dir" "Art directory" path "Where art files live, relative to the working directory."
      ∷ setting "welcome" "Main-menu art" str
          "A file name under the art directory. Blank means none."
      ∷ [];
}

unfoldable pub finger_section : Section
finger_section = record {
  name = codes "finger";
  title = codes "Finger service";
  help =
      codes
        "A read-only finger service (RFC 1288). `finger @host` lists who's online; `finger user@host` shows a public profile. No auth and no writes, but it is a network listener — worth being deliberate about.";
  restart_only = true;
  kind = fields_kind;
  fields =
      setting "enabled" "Enable finger" bool
        "Answer finger queries. Off by default. Users can hide themselves from the Profile screen (press f)."
      ∷ setting "host" "Bind address" str
          "0.0.0.0 answers on every interface; use 127.0.0.1 to keep it local."
      ∷ setting "port" "Port" (int 1 65535)
          "79 is the finger convention, but binding it needs privilege — run behind a redirect, grant the capability, or pick a high port."
      ∷ [];
}

unfoldable pub metrics_section : Section
metrics_section = record {
  name = codes "metrics";
  title = codes "Metrics endpoint";
  help =
      codes
        "A Prometheus-style /metrics endpoint on its own port, for operational visibility. Its own listener rather than a route on the web frontend, so a reverse proxy in front of the BBS can't reach it.";
  restart_only = true;
  kind = fields_kind;
  fields =
      setting "enabled" "Enable metrics" bool "Serve /metrics for Prometheus to scrape."
      ∷ setting "host" "Bind address" str
          "Loopback by default. Widen it only if your scraper runs on another host, and firewall it."
      ∷ setting "port" "Port" (int 1 65535)
          "Where the metrics endpoint listens. 9090 by convention."
      ∷ [];
}
