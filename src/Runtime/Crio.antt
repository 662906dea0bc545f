-- ===== src/Runtime/Crio.antt =====
-- CRI-O: the configurator and the reverter of internal/runtime/configure.go, which own a drop-in file,
-- and the readiness of internal/runtime/crio_config.go. The TOML decoder is a parameter.
pub mod Precedence
pub mod DropIn
use rbln_container_toolkit.Prelude.{
  String, ◌<>◌, Bool, true, false, Option, none, some, List, [], ◌∷◌, ◌++◌, map, ◌==◌, string_eq,
  if◌then◌else◌, contains,
}
use rbln_container_toolkit.Prelude.Texts.{dir, base, path_join}
use rbln_container_toolkit.Prelude.Names.{sort_names}
use rbln_container_toolkit.Prelude.Dict.{or_else}
use rbln_container_toolkit.Prelude.Results.{Result, ok, err}
use rbln_container_toolkit.Runtime.Disk.{
  Disk, Found, missing, file, folder, denied, stat, Read, absent, failed, content, read, Ended,
  ended, write, remove, then_on, files_in,
}
use rbln_container_toolkit.Runtime.Document.{Table, as_texts, get_in, or_empty_table, texts, Codec}
use rbln_container_toolkit.Runtime.SpecDir.{default_cdi_spec_dir, contains_clean_path}
use rbln_container_toolkit.Runtime.Backup.{write_config}

-- `generateConfig`
unfoldable pub generate_config : String
generate_config =
    "# RBLN Container Toolkit CRI-O configuration drop-in.\n#\n# CRI-O has no enable_cdi toggle: CDI injection is always on and is driven\n# solely by cdi_spec_dirs. This drop-in only ensures /var/run/cdi (where the\n# toolkit writes RBLN CDI specs) is scanned. On a default CRI-O node that dir is\n# already a default spec dir, so this file is written only when the effective\n# configuration does not already cover it.\n\n[crio.runtime]\ncdi_spec_dirs = [\n    \"/etc/cdi\",\n    \"/var/run/cdi\"\n]\n"

-- `crioConfigurator.Configure`: no backup, since the file is the toolkit's own.
unfoldable pub configure_crio : Disk → String → Ended
unfolding generate_config write_config
configure_crio d path = write_config path generate_config d

-- `crioConfigurator.DryRun`
unfoldable pub dry_run_crio : String → Result String
unfolding generate_config
dry_run_crio path = ok ("--- " <> (path <> (" (new file)\n\n" <> generate_config)))

-- `crioReverter.Revert`: the drop-in goes, and a backup of it by an older version.
unfoldable pub revert_crio : Disk → String → Ended
unfolding remove
revert_crio d path =
    then_on (remove d path) ""
      (λ gone. then_on (remove gone (path <> ".backup")) "" (λ clear. ended clear none))

-- The paths of the drop-ins, sorted; a directory that is not there has none.
unfoldable pub drop_ins : Disk → String → Result (List String)
unfolding sort_names path_join base files_in
drop_ins d drop_in_dir = elim (d.read_dir_error drop_in_dir) [
  | some e ↦ err ("read CRI-O drop-in dir " <> (drop_in_dir <> (": " <> e)))
  | none ↦
      ok (
        sort_names
          (map (λ p. path_join (drop_in_dir ∷ base p ∷ [])) (files_in drop_in_dir d.files)))
]

abbrev pub behind : List String → Result (List String) → Result (List String)
behind first (err e) = err e
behind first (ok rest) = ok (first ++ rest)

-- `crioConfigFiles`: the main file, then the drop-ins, in ascending precedence.
unfoldable pub crio_config_files : Disk → String → String → Result (List String)
unfolding stat drop_ins
crio_config_files d main_conf drop_in_dir = elim (stat d main_conf) [
  | denied e ↦ err ("stat " <> (main_conf <> (": " <> e)))
  | file ↦ behind (main_conf ∷ []) (drop_ins d drop_in_dir)
  | folder ↦ behind [] (drop_ins d drop_in_dir)
  | missing ↦ behind [] (drop_ins d drop_in_dir)
]

-- The default of CRI-O has the directory.
unfoldable pub scans : Option (List String) → Bool
unfolding contains_clean_path
scans none = true
scans (some dirs) = contains_clean_path dirs default_cdi_spec_dir

-- The files that `crioScansSpecDir` reads, from the path of the drop-in.
unfoldable pub files_beside : Disk → String → Result (List String)
unfolding crio_config_files dir path_join
files_beside d path = crio_config_files d (path_join (dir (dir path) ∷ "crio.conf" ∷ [])) (dir path)

module _ (codec : Codec) where
  -- `crioSpecDirs`
  unfoldable pub crio_spec_dirs : String → Result (Option (List String))
  unfolding get_in texts
  crio_spec_dirs text = elim (codec.decode text) [
    | err e ↦ err e
    | ok root ↦
        ok (as_texts (get_in ("crio" ∷ "runtime" ∷ []) "cdi_spec_dirs" (or_empty_table root)))
  ]

  -- What one file says; one that cannot be read or parsed says nothing.
  unfoldable pub said_by : Disk → String → Option (List String)
  unfolding read crio_spec_dirs
  said_by d path = elim (read d path) [
    | failed e ↦ none
    | absent ↦ none
    | content text ↦ elim (crio_spec_dirs text) [ err e ↦ none | ok dirs ↦ dirs ]
  ]

  -- The loop of `crioEffectiveSpecDirs`: a later file wins.
  unfoldable pub effective_from : Disk → Option (List String) → List String → Option (List String)
  unfolding said_by
  effective_from d dirs [] = dirs
  effective_from d dirs (f ∷ files) = effective_from d (or_else (said_by d f) dirs) files

  -- `crioEffectiveSpecDirs`
  unfoldable pub crio_effective_spec_dirs : Disk → List String → Option (List String)
  unfolding effective_from
  crio_effective_spec_dirs d files = effective_from d none files

  -- `crioScansSpecDir`, which is all of `crioCDIReady`
  unfoldable pub crio_scans_spec_dir : Disk → String → Result Bool
  unfolding files_beside crio_effective_spec_dirs scans
  crio_scans_spec_dir d path = elim (files_beside d path) [
    | err e ↦ err e
    | ok files ↦ ok (scans (crio_effective_spec_dirs d files))
  ]
