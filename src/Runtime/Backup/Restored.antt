-- ===== src/Runtime/Backup/Restored.antt =====
-- The files after a change that kept a backup, and after the backup has come back.
use rbln_container_toolkit.Prelude.{
  String, ◌<>◌, ◌≡◌, refl, ap, ◌∙◌, false, none, some, if◌then◌else◌, ◌==◌, string_eq, arith,
  eq_iff,
}
use rbln_container_toolkit.Prelude.Dict.{lookup, insert, erase, lookup-insert, lookup-erase}
use rbln_container_toolkit.Runtime.Disk.{Disk, stat, content, read, Ended}
use rbln_container_toolkit.Runtime.Disk.Calls.{read-content_iff, stat-file}
use rbln_container_toolkit.Runtime.Backup.{restore_backup, or_stripped}
use rbln_container_toolkit.Runtime.Backup.Copies.{restore_backup-back, path-other-backup}
use rbln_container_toolkit.Runtime.Backup.Written.{IsWritten}
use text.Mathlib.TextPositions.{eq_refl}

module _ (d : Disk) (path c written : String) (after : Disk)
    (is : IsWritten d path (some c) written after) where
  -- What was written is at the path, and a backup of what was there beside it.
  pub lookup-written : lookup path after.files ≡ some written
  lookup-written =
      ap (λ (m : Disk). lookup path m.files) is.left
      ∙ (lookup-insert path path written (insert (path <> ".backup") c d.files)
          ∙ rw (eq_refl path) refl)

  pub lookup-backup : lookup (path <> ".backup") after.files ≡ some c
  lookup-backup =
      ap (λ (m : Disk). lookup (path <> ".backup") m.files) is.left
      ∙ (lookup-insert path (path <> ".backup") written (insert (path <> ".backup") c d.files)
          ∙ rw ((path-other-backup path).0) (
              lookup-insert (path <> ".backup") (path <> ".backup") c d.files
              ∙ rw (eq_refl (path <> ".backup")) refl))

  module _ (readable : d.read_error (path <> ".backup") ≡ none)
      (seen : d.stat_error (path <> ".backup") ≡ none)
      (removable : d.remove_error (path <> ".backup") ≡ none) where
    -- The backup is found.
    pub or_stripped-backup :
        (restored stripped : Ended)
        → or_stripped (stat after (path <> ".backup")) restored stripped ≡ restored
    or_stripped-backup restored stripped =
        ap (λ f. or_stripped f restored stripped)
          (stat-file after (path <> ".backup")
            (ap (λ (m : Disk). m.stat_error (path <> ".backup")) is.left ∙ seen) lookup-backup)

    restored-disk :
        ((restore_backup after path).error ≡ none)
        × ((restore_backup after path).disk
            ≡ record after { files = erase (path <> ".backup") (insert path c after.files) })
    restored-disk =
        restore_backup-back after path c
          ((read-content_iff after (path <> ".backup") c).1
            (ap (λ (m : Disk). m.read_error (path <> ".backup")) is.left ∙ readable, lookup-backup))
          (ap (λ (m : Disk). m.write_error path) is.left ∙ is.writes)
          (ap (λ (m : Disk). m.remove_error (path <> ".backup")) is.left ∙ removable)

    -- The backup comes back: the file has its content of before, the backup is gone, and every
    -- other file is as it was.
    pub restore_backup-undoes :
        (q : String)
        → (q == path <> ".backup") ≡ false
        → ((restore_backup after path).error ≡ none)
          × (lookup path (restore_backup after path).disk.files ≡ some c)
          × (lookup (path <> ".backup") (restore_backup after path).disk.files ≡ none)
          × (lookup q (restore_backup after path).disk.files ≡ lookup q d.files)
    restore_backup-undoes q other =
        let (fine, back) = restored-disk in
        let b : String = path <> ".backup" in
        let look : (k : String)
            → lookup k (restore_backup after path).disk.files
              ≡ (if b == k then none else if path == k then some c else lookup k after.files) =
          λ k.
            ap (λ (m : Disk). lookup k m.files) back
            ∙ (lookup-erase b k (insert path c after.files)
                ∙ ap (λ o. if b == k then none else o) (lookup-insert path k c after.files)) in
        let was : lookup path d.files ≡ some c = ((read-content_iff d path c).0 is.found).1 in
        let unchanged : lookup q after.files
            ≡ (if path == q then some written else if b == q then some c else lookup q d.files) =
          ap (λ (m : Disk). lookup q m.files) is.left
          ∙ (lookup-insert path q written (insert b c d.files)
              ∙ ap (λ o. if path == q then some written else o) (lookup-insert b q c d.files)) in
        (
          fine,
          look path ∙ rw ((path-other-backup path).1, eq_refl path) refl,
          look b ∙ rw (eq_refl b) refl,
          ground (
            arith,
            look q,
            unchanged,
            was,
            eq_iff path q,
            eq_iff b q,
            eq_iff q (path <> ".backup"),
          ),
        )

    -- The content that comes back is what is read then.
    pub restore_backup-reads : read (restore_backup after path).disk path ≡ content c
    restore_backup-reads =
        let (fine, back) = restored-disk in
        let b : String = path <> ".backup" in
        (read-content_iff (restore_backup after path).disk path c).1 (
          ap (λ (m : Disk). m.read_error path) back
              ∙ (ap (λ (m : Disk). m.read_error path) is.left
                  ∙ ((read-content_iff d path c).0 is.found).0),
          ap (λ (m : Disk). lookup path m.files) back
              ∙ (lookup-erase b path (insert path c after.files)
                  ∙ rw ((path-other-backup path).1)
                      (lookup-insert path path c after.files ∙ rw (eq_refl path) refl)),
        )
