-- ===== src/Main/Revision.antt =====
-- main.go: the revision that is logged at the start. The build's revision and what
-- debug.ReadBuildInfo gives are arguments.
use spf5000es_server.Prelude.{
  Bool, false, Option, none, some, List, [], ◌∷◌, ◌++◌, Text, codes, eq_text, eq_string, String,
  if◌then◌else◌,
}

-- The values of vcs.revision and vcs.modified so far.
pub record Vcs : Type 0 where
  pub revision : Text
  pub modified : Bool

-- A round of the loop over the settings of the build.
abbrev pub take_setting : String → Text → Vcs → Vcs
take_setting key value vcs =
    if eq_string key "vcs.revision"
    then record vcs { revision = value }
    else if eq_string key "vcs.modified"
    then record vcs { modified = eq_text value (codes "true") }
    else vcs

unfoldable pub take_settings : List (String × Text) → Vcs → Vcs
take_settings [] vcs = vcs
take_settings ((key, value) ∷ settings) vcs = take_settings settings (take_setting key value vcs)

abbrev pub show_vcs : Vcs → Text
show_vcs vcs =
    if eq_text vcs.revision []
    then codes "unknown"
    else if vcs.modified
    then vcs.revision ++ codes "-dirty"
    else vcs.revision

-- revision
unfoldable pub revision_text : Text → Option (List (String × Text)) → Text
unfolding take_settings
revision_text build_revision info =
    if eq_text build_revision []
    then elim info [
      | none ↦ codes "unknown"
      | some settings ↦
          show_vcs (take_settings settings (record { revision = []; modified = false }))
    ]
    else build_revision
