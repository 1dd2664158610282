-- ===== src/Editor/Schema/Limits.antt =====
-- src/cfg/schema.rs: the sections limits, files.
use bbs_rs.Prelude.{false, [], ◌∷◌, codes}
use bbs_rs.Editor.Schema.{Section, setting, int, path, str_list, fields_kind}

unfoldable pub limits_section : Section
limits_section = record {
  name = codes "limits";
  title = codes "Rate limits";
  help = codes "Per-user caps. Admins are never throttled; 0 disables a cap.";
  restart_only = false;
  kind = fields_kind;
  fields =
      setting "window_secs" "Window (s)" (int 1 86400) "The period the caps below are counted over."
      ∷ setting "max_posts" "Posts per window" (int 0 10000)
          "Board posts. Also applies to remote authors posting into your boards."
      ∷ setting "max_mail" "Mail per window" (int 0 10000) "Messages sent."
      ∷ setting "max_oneliners" "Oneliners per window" (int 0 10000)
          "Matters more now the wall no longer auto-trims."
      ∷ setting "max_reactions" "Reactions per window" (int 0 10000)
          "Post reactions added. 0 disables."
      ∷ setting "max_attachments" "Max attachments" (int 0 100)
          "File-area files that may be attached to one post or mail. 0 removes the cap."
      ∷ setting "daily_minutes" "Daily time budget (min)" (int 0 10000)
          "Connected minutes per user per day. 0 = unlimited; admins are exempt."
      ∷ setting "max_subject_chars" "Max subject length" (int 0 10000)
          "Characters in a post or mail subject. 0 disables."
      ∷ setting "max_body_chars" "Max body length" (int 0 1000000)
          "Characters in a post or mail body. 0 disables."
      ∷ [];
}

unfoldable pub files_section : Section
files_section = record {
  name = codes "files";
  title = codes "File areas";
  help = codes "Storage and limits for uploaded files.";
  restart_only = false;
  kind = fields_kind;
  fields =
      setting "storage_dir" "Storage directory" path
        "Where file blobs are kept, relative to the working directory."
      ∷ setting "max_file_bytes" "Max file size (bytes)" (int 0 107374182400)
          "Largest single file. 0 is unlimited. Default is 10 MiB."
      ∷ setting "user_quota_bytes" "Per-user quota (bytes)" (int 0 1099511627776)
          "Total one user may store. 0 is unlimited. Default is 100 MiB."
      ∷ setting "allowed_extensions" "Allowed extensions" str_list
          "Lowercase, no dot, e.g. txt zip png. Empty allows anything."
      ∷ setting "max_preview_bytes" "Max preview (bytes)" (int 0 104857600)
          "How much is read or decompressed when previewing a file or archive entry."
      ∷ setting "max_archive_entries" "Max archive entries" (int 0 100000)
          "How many entries to list from an archive."
      ∷ [];
}
