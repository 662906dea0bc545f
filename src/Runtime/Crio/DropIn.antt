-- ===== src/Runtime/Crio/DropIn.antt =====
-- The toolkit's drop-in: CRI-O is ready with it, and its removal undoes it.
use rbln_container_toolkit.Prelude.{
  String, ◌<>◌, ◌≡◌, refl, sym, ap, ◌∙◌, true, none, some, List, [], ◌∷◌, ◌++◌, contains, string_eq,
}
use rbln_container_toolkit.Prelude.Texts.{dir}
use rbln_container_toolkit.Prelude.Dict.{
  lookup, insert, erase, lookup-insert, erase_missing, erase-insert,
}
use rbln_container_toolkit.Prelude.Results.{ok}
use rbln_container_toolkit.Runtime.Disk.{Disk, content, read, remove, then_on, ended}
use rbln_container_toolkit.Runtime.Disk.Calls.{
  read-content_iff, then_on-done, remove-done, mkdir_all-old,
}
use rbln_container_toolkit.Runtime.Document.{Table, as_texts, get_in, Codec}
use rbln_container_toolkit.Runtime.SpecDir.{default_cdi_spec_dir, contains_clean_path-added}
use rbln_container_toolkit.Runtime.Backup.Written.{write_config-done}
use rbln_container_toolkit.Runtime.Crio.{
  generate_config, configure_crio, revert_crio, crio_spec_dirs, said_by, scans, files_beside,
  crio_scans_spec_dir,
}
use rbln_container_toolkit.Runtime.Crio.Precedence.{AllSilent, crio_effective_spec_dirs-last}
use text.Mathlib.TextPositions.{eq_refl}

-- The TOML decoder reads the two directories that the drop-in lists.
abbrev pub ReadsDropIn : Codec → Type 0
ReadsDropIn codec =
    (root : Table) × (codec.decode generate_config ≡ ok (some root))
    × (as_texts (get_in ("crio" ∷ "runtime" ∷ []) "cdi_spec_dirs" root)
        ≡ some ("/etc/cdi" ∷ default_cdi_spec_dir ∷ []))

said_by-drop_in :
    (codec : Codec) (d : Disk) (path : String)
    → ReadsDropIn codec
    → read d path ≡ content generate_config
    → said_by codec d path ≡ some ("/etc/cdi" ∷ default_cdi_spec_dir ∷ [])
unfolding said_by crio_spec_dirs
said_by-drop_in codec d path (root, decoded, lists) found =
    rw (said_by, found, crio_spec_dirs, decoded) lists

-- A drop-in that was written is what is read, where the path can be read.
read-drop_in :
    (d : Disk) (path : String)
    → (configure_crio d path).error ≡ none
    → d.read_error path ≡ none
    → read (configure_crio d path).disk path ≡ content generate_config
unfolding configure_crio
read-drop_in d path fine readable =
    let (writes, left) = write_config-done path generate_config d fine in
    (read-content_iff (configure_crio d path).disk path generate_config).1 (
      ap (λ (m : Disk). m.read_error path) left ∙ readable,
      ap (λ (m : Disk). lookup path m.files) left
          ∙ (lookup-insert path path generate_config d.files ∙ rw (eq_refl path) refl),
    )

-- After a `Configure` that succeeds CRI-O is ready, where the drop-in is among the files that it reads
-- and no file of a higher precedence sets the directories.
pub configure_crio-ready :
    (codec : Codec) (d : Disk) (path : String) (lower higher : List String)
    → ReadsDropIn codec
    → d.read_error path ≡ none
    → (configure_crio d path).error ≡ none
    → files_beside (configure_crio d path).disk path ≡ ok (lower ++ (path ∷ higher))
    → AllSilent codec (configure_crio d path).disk higher
    → crio_scans_spec_dir codec (configure_crio d path).disk path ≡ ok true
unfolding crio_scans_spec_dir scans
configure_crio-ready codec d path lower higher reads_drop_in readable fine listed silent =
    let after : Disk = (configure_crio d path).disk in
    let says = said_by-drop_in codec after path reads_drop_in (read-drop_in d path fine readable) in
    rw
      (
        crio_scans_spec_dir,
        listed,
        crio_effective_spec_dirs-last codec after lower higher path
            ("/etc/cdi" ∷ default_cdi_spec_dir ∷ []) says silent,
        scans,
        contains_clean_path-added ("/etc/cdi" ∷ []),
      )
      refl

-- A `Revert` that succeeds has removed the drop-in and its backup, and no other file.
pub revert_crio-done :
    (d : Disk) (path : String)
    → (revert_crio d path).error ≡ none
    → (revert_crio d path).disk
      ≡ record d { files = erase (path <> ".backup") (erase path d.files) }
unfolding revert_crio
revert_crio-done d path fine =
    let finish = λ (clear : Disk). ended clear none in
    let clear = λ (gone : Disk). then_on (remove gone (path <> ".backup")) "" finish in
    let (first_fine, first) = then_on-done (remove d path) "" clear fine in
    let gone : Disk = (remove d path).disk in
    let (second_fine, second) =
      then_on-done (remove gone (path <> ".backup")) "" finish
        (sym (ap (λ e. e.error) first) ∙ fine) in
    ap (λ e. e.disk) (first ∙ second)
    ∙ (remove-done gone (path <> ".backup") second_fine
        ∙ ap (λ (m : Disk). record m { files = erase (path <> ".backup") m.files })
            (remove-done d path first_fine))

-- On a disk with the directory of drop-ins, and with neither the drop-in nor a backup of it, a
-- `Revert` after a `Configure` leaves the disk exactly as it was.
pub configure_crio-revert :
    (d : Disk) (path : String)
    → lookup path d.files ≡ none
    → lookup (path <> ".backup") d.files ≡ none
    → contains d.folders (dir path) ≡ true
    → (configure_crio d path).error ≡ none
    → (revert_crio (configure_crio d path).disk path).error ≡ none
    → (revert_crio (configure_crio d path).disk path).disk ≡ d
unfolding configure_crio
configure_crio-revert d path fresh no_backup there fine undone =
    let (writes, left) = write_config-done path generate_config d fine in
    let folders = mkdir_all-old d (dir path) there in
    let whole : (configure_crio d path).disk
        ≡ record d { files = insert path generate_config d.files } =
      left
      ∙ ap (λ ps. record d { files = insert path generate_config d.files; folders = ps }) folders in
    revert_crio-done (configure_crio d path).disk path undone
    ∙ (ap (λ (m : Disk). record m { files = erase (path <> ".backup") (erase path m.files) }) whole
        ∙ ap (λ fs. record d { files = fs })
            (ap (erase (path <> ".backup")) (erase-insert path generate_config d.files fresh)
              ∙ erase_missing (path <> ".backup") d.files no_backup))
