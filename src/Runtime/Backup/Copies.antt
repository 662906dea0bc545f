-- ===== src/Runtime/Backup/Copies.antt =====
-- What the backup of a file and its return leave on the disk.
use Prim.Native.String.{count}
use text.Mathlib.TextLemmas.{length-append}
use rbln_container_toolkit.Prelude.{
  String, ◌<>◌, ◌≡◌, ◌≢◌, refl, sym, ap, false, none, ◌==◌, string_eq, arith, beq-false,
}
use rbln_container_toolkit.Prelude.Dict.{insert, erase}
use rbln_container_toolkit.Runtime.Disk.{Disk, absent, content, read, write, remove}
use rbln_container_toolkit.Runtime.Disk.Calls.{read-content_iff, stat-missing, write-done}
use rbln_container_toolkit.Runtime.Backup.{backup_file, restore_backup}

pub path-ne-backup : (p : String) → p ≢ p <> ".backup"
path-ne-backup p same =
    let long : count p ≡ count (p <> ".backup") = ap count same in
    absurd (omega (arith, long, length-append p ".backup", suffix_count))
  where
    suffix_count : count ".backup" ≡ 7
    suffix_count = refl

pub path-other-backup :
    (p : String) → ((p == p <> ".backup") ≡ false) × ((p <> ".backup" == p) ≡ false)
path-other-backup p = (
  beq-false p (p <> ".backup") (path-ne-backup p),
  beq-false (p <> ".backup") p (λ same. path-ne-backup p (sym same)),
)

-- A backup of a file that is read holds its content, and nothing else has changed.
pub backup_file-copy :
    (d : Disk) (path c : String)
    → (backup_file d path).error ≡ none
    → read d path ≡ content c
    → (backup_file d path).disk ≡ record d { files = insert (path <> ".backup") c d.files }
unfolding backup_file
backup_file-copy d path c fine found =
    ground
      (arith, stat-missing d path, read-content_iff d path c, write-done d (path <> ".backup") c)

-- Without a file there is nothing to copy.
pub backup_file-nothing :
    (d : Disk) (path : String)
    → (backup_file d path).error ≡ none
    → read d path ≡ absent
    → (backup_file d path).disk ≡ d
unfolding backup_file
backup_file-nothing d path fine lost = ground (arith)

-- The files after the backup has come back: it is the content of the file, and it is gone.
pub restore_backup-back :
    (d : Disk) (path c : String)
    → read d (path <> ".backup") ≡ content c
    → d.write_error path ≡ none
    → d.remove_error (path <> ".backup") ≡ none
    → ((restore_backup d path).error ≡ none)
      × ((restore_backup d path).disk
          ≡ record d { files = erase (path <> ".backup") (insert path c d.files) })
unfolding restore_backup
restore_backup-back d path c found writes removes =
    rw (restore_backup, found, write, writes, remove, removes) (refl, refl)
