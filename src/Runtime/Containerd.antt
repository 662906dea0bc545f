-- ===== src/Runtime/Containerd.antt =====
-- containerd: the configurator, the reverter and the readiness of internal/runtime/configure.go, and
-- internal/runtime/containerd_config.go. The TOML decoder and encoder are a parameter.
pub mod Enable
pub mod Untouched
pub mod Configured
pub mod Ready
pub mod Restore
use rbln_container_toolkit.Prelude.{
  String, ◌<>◌, ◌≡◌, refl, Bool, true, false, ◌||◌, Option, none, some, List, [], ◌∷◌, ◌++◌, ◌==◌,
  string_eq, if◌then◌else◌,
}
use rbln_container_toolkit.Prelude.Texts.{split, join, has_prefix, clean, dir}
use rbln_container_toolkit.Prelude.Spaces.{trim_space}
use rbln_container_toolkit.Prelude.Int.{ℤ, pos}
use rbln_container_toolkit.Prelude.Results.{Result, ok, err}
use rbln_container_toolkit.Runtime.Disk.{
  Disk, Found, missing, file, folder, denied, stat, Read, absent, failed, content, read, Ended,
  ended, write, remove, mkdir_all, then_on,
}
use rbln_container_toolkit.Runtime.Document.{
  Value, Table, flag, number, items, empty, get, put, as_table, as_flag, as_texts, or_empty_table,
  in_table, of_texts, texts, Codec,
}
use rbln_container_toolkit.Runtime.SpecDir.{default_cdi_spec_dir, contains_clean_path}
use rbln_container_toolkit.Runtime.Backup.{backup_file, restore_backup, or_stripped, write_config}
use rbln_container_toolkit.Runtime.Version.{Version, at_least, detect_version}

-- `criPluginKey`
abbrev pub cri_plugin_key : String
cri_plugin_key = "io.containerd.grpc.v1.cri"

-- `criSection(false)`
unfoldable pub cri_section : Table → Option Table
unfolding get
cri_section root = elim (as_table (get "plugins" root)) [
  | none ↦ none
  | some plugins ↦ as_table (get cri_plugin_key plugins)
]

-- `criSection(true)` and the writes to the table that it returns.
unfoldable pub in_cri_section : (Table → Table) → Table → Table
unfolding in_table
in_cri_section change = in_table "plugins" (in_table cri_plugin_key change)

-- `enableCDI`
unfoldable pub enable_cdi : Table → Option Bool
unfolding cri_section
enable_cdi root = elim (cri_section root) [
  | none ↦ none
  | some cri ↦ as_flag (get "enable_cdi" cri)
]

-- `specDirs`
unfoldable pub spec_dirs : Table → Option (List String)
unfolding cri_section texts
spec_dirs root = elim (cri_section root) [
  | none ↦ none
  | some cri ↦ as_texts (get "cdi_spec_dirs" cri)
]

-- `scansDefaultSpecDir`
unfoldable pub scans_default_spec_dir : Table → Bool
unfolding spec_dirs contains_clean_path
scans_default_spec_dir root = elim (spec_dirs root) [
  | none ↦ true
  | some dirs ↦ contains_clean_path dirs default_cdi_spec_dir
]

-- The directories that enabling writes, where it writes any.
unfoldable pub new_spec_dirs : Option (List String) → Option (List String)
unfolding contains_clean_path
new_spec_dirs none = some ("/etc/cdi" ∷ default_cdi_spec_dir ∷ [])
new_spec_dirs (some dirs) =
    if contains_clean_path dirs default_cdi_spec_dir
    then none
    else some (dirs ++ (default_cdi_spec_dir ∷ []))

abbrev pub put_dirs : Option (List String) → Table → Table
put_dirs none cri = cri
put_dirs (some dirs) cri = put "cdi_spec_dirs" (items (of_texts dirs)) cri

-- The changes of `enableCDIInContainerdConfig` to the document.
unfoldable pub enabled : Bool → Table → Table
unfolding in_cri_section spec_dirs new_spec_dirs put of_texts
enabled fresh root =
    let switched = in_cri_section (put "enable_cdi" (flag true)) root in
    let covered = in_cri_section (put_dirs (new_spec_dirs (spec_dirs switched))) switched in
    if fresh then put "version" (number (pos 2)) covered else covered

-- Lines that `disableCDIInContainerdConfig` leaves out.
unfoldable pub is_cdi_line : String → Bool
unfolding trim_space has_prefix
is_cdi_line line =
    has_prefix (trim_space line) "enable_cdi" || has_prefix (trim_space line) "cdi_spec_dirs"

unfoldable pub without_cdi : List String → List String
unfolding is_cdi_line
without_cdi [] = []
without_cdi (line ∷ lines) =
    let rest = without_cdi lines in if is_cdi_line line then rest else line ∷ rest

-- `disableCDIInContainerdConfig`
unfoldable pub disable_cdi_in_containerd_config : String → String
unfolding without_cdi split join
disable_cdi_in_containerd_config text = join "\n" (without_cdi (split b'\n' text))

-- `containerdReverter.Revert` without a backup.
unfoldable pub strip_cdi : Disk → String → Ended
unfolding read write disable_cdi_in_containerd_config
strip_cdi d path = elim (read d path) [
  | absent ↦ ended d none
  | failed e ↦ ended d (some ("read config: " <> e))
  | content c ↦
      if disable_cdi_in_containerd_config c == c
      then ended d none
      else write d path (disable_cdi_in_containerd_config c)
]

-- `containerdReverter.Revert`
unfoldable pub revert_containerd : Disk → String → Ended
unfolding stat restore_backup strip_cdi
revert_containerd d path =
    or_stripped (stat d (path <> ".backup")) (restore_backup d path) (strip_cdi d path)

-- What a document says of the readiness; `version` is the runtime's, where it is known.
unfoldable pub document_ready : Option Version → Table → Bool
unfolding scans_default_spec_dir enable_cdi at_least
document_ready version root =
    if scans_default_spec_dir root
    then elim (enable_cdi root) [
      | some answer ↦ answer
      | none ↦ elim version [ none ↦ false | some v ↦ at_least v 2 0 ]
    ]
    else false

module _ (codec : Codec) where
  open codec use {decode, encode}

  -- `parseContainerdConfig`
  unfoldable pub parse_containerd_config : String → Result Table
  unfolding trim_space
  parse_containerd_config text = if trim_space text == "" then ok empty else elim (decode text) [
    | err e ↦ err ("parse containerd config: " <> e)
    | ok m ↦ ok (or_empty_table m)
  ]

  -- `enableCDIInContainerdConfig`, with `render`
  unfoldable pub enable_cdi_in_containerd_config : String → Result String
  unfolding parse_containerd_config enabled trim_space
  enable_cdi_in_containerd_config text = elim (parse_containerd_config text) [
    | err e ↦ err e
    | ok root ↦ elim (encode (some (enabled (trim_space text == "") root))) [
      | err e ↦ err ("render containerd config: " <> e)
      | ok written ↦ ok written
    ]
  ]

  -- `Configure` behind the read of the file.
  unfoldable pub write_enabled : String → String → Disk → Ended
  unfolding enable_cdi_in_containerd_config write_config
  write_enabled path text d = elim (enable_cdi_in_containerd_config text) [
    | err e ↦ ended d (some ("enable CDI in config " <> (path <> (": " <> e))))
    | ok written ↦ write_config path written d
  ]

  -- `Configure` behind the backup.
  unfoldable pub enable_file : String → Disk → Ended
  unfolding read write_enabled
  enable_file path d = elim (read d path) [
    | content text ↦ write_enabled path text d
    | absent ↦ write_enabled path "" d
    | failed e ↦ ended d (some ("read config " <> (path <> (": " <> e))))
  ]

  -- `containerdConfigurator.Configure`
  unfoldable pub configure_containerd : Disk → String → Ended
  unfolding backup_file enable_file
  configure_containerd d path = then_on (backup_file d path) "backup config: " (enable_file path)

  -- `containerdConfigurator.DryRun`
  unfoldable pub dry_run_containerd : Disk → String → Result String
  unfolding read enable_cdi_in_containerd_config
  dry_run_containerd d path =
      let shown : String → Result String = λ text. elim (enable_cdi_in_containerd_config text) [
        | err e ↦ err ("enable CDI in config " <> (path <> (": " <> e)))
        | ok written ↦
            ok (
              "--- " <> (path <> (" (original)\n+++ " <> (path <> (" (modified)\n\n" <> written)))))
      ] in
      elim (read d path) [ content text ↦ shown text | absent ↦ shown "" | failed e ↦ shown "" ]

  -- `containerdCDIReady`
  unfoldable pub containerd_cdi_ready :
      (String × List String → Result String) → Disk → String → String → Result Bool
  unfolding read parse_containerd_config document_ready detect_version
  containerd_cdi_ready runs d path host_root =
      let judged : String → Result Bool = λ text. elim (parse_containerd_config text) [
        | err e ↦ err ("check CDI readiness for " <> (path <> (": " <> e)))
        | ok root ↦ ok (document_ready (detect_version runs "containerd" host_root) root)
      ] in
      elim (read d path) [
        | content text ↦ judged text
        | absent ↦ judged ""
        | failed e ↦ err ("read config " <> (path <> (": " <> e)))
      ]
