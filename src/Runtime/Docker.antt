-- ===== src/Runtime/Docker.antt =====
-- Docker: the configurator, the reverter and the readiness of internal/runtime/configure.go. The
-- JSON decoder and encoder are a parameter.
pub mod Enable
pub mod Ready
use rbln_container_toolkit.Prelude.{
  String, ◌<>◌, Bool, true, false, not, ◌&&◌, ◌||◌, Option, none, some, ◌==◌, string_eq,
  if◌then◌else◌, List,
}
use rbln_container_toolkit.Prelude.Results.{Result, ok, err}
use rbln_container_toolkit.Runtime.Disk.{
  Disk, stat, Read, absent, failed, content, read, Ended, ended, write, then_on,
}
use rbln_container_toolkit.Runtime.Document.{
  Value, Table, flag, table, empty, entry, get, put, delete, as_table, as_flag, in_table, Codec,
}
use rbln_container_toolkit.Runtime.Backup.{backup_file, restore_backup, or_stripped, write_config}
use rbln_container_toolkit.Runtime.Version.{Version, at_least, detect_version}

-- `enableCDI`: `features.cdi` is set, in a map of features that is made where there is none.
unfoldable pub enable_cdi : Table → Table
unfolding in_table put
enable_cdi = in_table "features" (put "cdi" (flag true))

-- `dockerCDIFeature`; a nil map has no entries.
unfoldable pub docker_cdi_feature : Option Table → Option Bool
unfolding get
docker_cdi_feature none = none
docker_cdi_feature (some config) = elim (as_table (get "features" config)) [
  | none ↦ none
  | some features ↦ as_flag (get "cdi" features)
]

abbrev pub is_empty_table : Table → Bool
is_empty_table empty = true
is_empty_table (entry k v t) = false

-- Removes both keys of the feature, and the features where none is left.
unfoldable pub disable_cdi : Table → Table
unfolding get put delete
disable_cdi config = elim (as_table (get "features" config)) [
  | none ↦ config
  | some features ↦
      let left = delete "cdi-devices" (delete "cdi" features) in
      if is_empty_table left then delete "features" config else put "features" (table left) config
]

abbrev pub on_map : (Table → Table) → Option Table → Option Table
on_map change none = none
on_map change (some t) = some (change t)

-- Go ends the program with this message when an entry of a nil map is set.
abbrev pub nil_map_panic : String
nil_map_panic = "panic: assignment to entry in nil map"

module _ (codec : Codec) where
  open codec use {decode, encode}

  -- The configuration in the text of a file; an empty file has none.
  unfoldable pub docker_config : String → Result (Option Table)
  docker_config text = if text == "" then ok (some empty) else decode text

  -- `Configure` behind the parsing: `enableCDI`, `MarshalIndent` and the write.
  unfoldable pub write_feature : String → Option Table → Disk → Ended
  unfolding enable_cdi write_config
  write_feature path none d = ended d (some nil_map_panic)
  write_feature path (some config) d = elim (encode (some (enable_cdi config))) [
    | err e ↦ ended d (some ("marshal config: " <> e))
    | ok written ↦ write_config path written d
  ]

  -- `Configure` behind the backup.
  unfoldable pub enable_file : String → Disk → Ended
  unfolding read docker_config write_feature
  enable_file path d = elim (read d path) [
    | content text ↦ elim (docker_config text) [
      | err e ↦ ended d (some ("parse config " <> (path <> (": " <> e))))
      | ok config ↦ write_feature path config d
    ]
    | absent ↦ write_feature path (some empty) d
    | failed e ↦ ended d (some ("read config " <> (path <> (": " <> e))))
  ]

  -- `dockerConfigurator.Configure`
  unfoldable pub configure_docker : Disk → String → Ended
  unfolding backup_file enable_file
  configure_docker d path = then_on (backup_file d path) "backup config: " (enable_file path)

  -- `dockerConfigurator.DryRun`; a panic is an error here too.
  unfoldable pub dry_run_docker : Disk → String → Result String
  unfolding read docker_config enable_cdi
  dry_run_docker d path =
      let shown : Option Table → Result String = λ config. elim config [
        | none ↦ err nil_map_panic
        | some t ↦ elim (encode (some (enable_cdi t))) [
          | err e ↦ err ("marshal config: " <> e)
          | ok written ↦ ok ("--- " <> (path <> ("\n\n" <> written)))
        ]
      ] in
      elim (read d path) [
        | content text ↦ elim (docker_config text) [
          | err e ↦ err ("parse config: " <> e)
          | ok config ↦ shown config
        ]
        | absent ↦ shown (some empty)
        | failed e ↦ shown (some empty)
      ]

  -- `dockerReverter.Revert` without a backup.
  unfoldable pub strip_feature : Disk → String → Ended
  unfolding read write disable_cdi
  strip_feature d path = elim (read d path) [
    | absent ↦ ended d none
    | failed e ↦ ended d (some ("read config: " <> e))
    | content text ↦ elim (decode text) [
      | err e ↦ ended d (some ("parse config: " <> e))
      | ok config ↦ elim (encode (on_map disable_cdi config)) [
        | err e ↦ ended d (some ("marshal config: " <> e))
        | ok written ↦ write d path written
      ]
    ]
  ]

  -- `dockerReverter.Revert`
  unfoldable pub revert_docker : Disk → String → Ended
  unfolding stat restore_backup strip_feature
  revert_docker d path =
      or_stripped (stat d (path <> ".backup")) (restore_backup d path) (strip_feature d path)

abbrev has_key : Option Bool → Bool
has_key none = false
has_key (some cdi) = true

abbrev value_of : Option Bool → Bool
value_of none = false
value_of (some cdi) = cdi

-- The version has CDI on by default.
abbrev default_on : Option Version → Bool
default_on none = false
default_on (some v) = at_least v 28 2

-- The answer of `dockerCDIReady`.
unfoldable pub feature_ready : Option Version → Option Bool → Bool
feature_ready version feature =
    if default_on version
    then not (has_key feature) || value_of feature
    else has_key feature && value_of feature

module _ (codec : Codec) where
  -- `dockerCDIReady`
  unfoldable pub docker_cdi_ready :
      (String × List String → Result String) → Disk → String → String → Result Bool
  unfolding read docker_config docker_cdi_feature feature_ready detect_version
  docker_cdi_ready runs d path host_root =
      let judged : String → Result Bool = λ text. elim (docker_config codec text) [
        | err e ↦ err ("parse config " <> (path <> (": " <> e)))
        | ok config ↦
            ok (feature_ready (detect_version runs "docker" host_root) (docker_cdi_feature config))
      ] in
      elim (read d path) [
        | content text ↦ judged text
        | absent ↦ judged ""
        | failed e ↦ err ("read config " <> (path <> (": " <> e)))
      ]
