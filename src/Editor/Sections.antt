-- ===== src/Editor/Sections.antt =====
-- src/cfg/schema.rs: all sections in order, and the look-ups.
use bbs_rs.Prelude.{List, [], ◌∷◌, Option, find, Text, text_eq}
use bbs_rs.Editor.Schema.{Section, Field}
use bbs_rs.Editor.Schema.Network.{bbs_section, network_section, accounts_section}
use bbs_rs.Editor.Schema.Features.{
  features_section, abuse_section, oneliners_section, seed_section, doors_section,
  art_screens_section,
}
use bbs_rs.Editor.Schema.Limits.{limits_section, files_section}
use bbs_rs.Editor.Schema.Looks.{theme_section, art_section, finger_section, metrics_section}
use bbs_rs.Editor.Schema.Web.{web_section, federation_section}

unfoldable pub sections : List Section
sections =
    bbs_section ∷ network_section ∷ features_section ∷ abuse_section ∷ accounts_section
    ∷ limits_section ∷ files_section ∷ theme_section ∷ art_section ∷ art_screens_section
    ∷ web_section ∷ finger_section ∷ metrics_section ∷ federation_section ∷ oneliners_section
    ∷ doors_section ∷ seed_section ∷ []

abbrev pub section_field : Section → Text → Option Field
section_field s key = find (λ f. text_eq f.key key) s.fields

abbrev pub section_named : Text → Option Section
section_named name = find (λ s. text_eq s.name name) sections
