-- ===== src/Runtime/Backup/Written.antt =====
-- What a `Configure` that keeps a backup leaves on the disk, for containerd and for Docker.
use rbln_container_toolkit.Prelude.{
  String, ◌<>◌, ◌≡◌, refl, sym, ap, ◌∙◌, inl, inr, Option, none, some, List, string_eq, arith, ◌⊎◌,
}
use text.Mathlib.TextPositions.{eq_refl}
use rbln_container_toolkit.Prelude.Dict.{Dict, lookup, insert, lookup-insert}
use rbln_container_toolkit.Prelude.Texts.{dir}
use rbln_container_toolkit.Runtime.Disk.{
  Disk, Read, absent, failed, content, read, ended, write, mkdir_all, then_on,
}
use rbln_container_toolkit.Runtime.Disk.Calls.{
  then_on-done, read-content_iff, read-absent, write-done, mkdir_all-done,
}
use rbln_container_toolkit.Runtime.Backup.{backup_file, write_config}
use rbln_container_toolkit.Runtime.Backup.Copies.{
  backup_file-copy, backup_file-nothing, path-other-backup,
}

-- The answer of reading a file that had the content `before`, or was not there.
abbrev pub reads : Option String → Read
reads none = absent
reads (some c) = content c

abbrev pub or_blank : Option String → String
or_blank none = ""
or_blank (some c) = c

-- The files with a backup of what was there.
abbrev pub backed_up : String → Option String → Dict String → Dict String
backed_up path none files = files
backed_up path (some c) files = insert (path <> ".backup") c files

-- A configuration file was read, or was not there, and `written` is in its place; a file that was
-- there has a backup; nothing else has changed but the directories.
pub record IsWritten (d : Disk) (path : String) (before : Option String) (written : String)
    (after : Disk) : Type 0 where
  pub found : read d path ≡ reads before
  pub writes : d.write_error path ≡ none
  pub left : after ≡ record d {
    files = insert path written (backed_up path before d.files);
    folders = after.folders;
  }

pub read-cases :
    (r : Read) → ((before : Option String) × (r ≡ reads before)) ⊎ ((e : String) × (r ≡ failed e))
read-cases absent = inl (none, refl)
read-cases (content c) = inl (some c, refl)
read-cases (failed e) = inr (e, refl)

pub write_config-done :
    (path written : String) (d : Disk)
    → (write_config path written d).error ≡ none
    → (d.write_error path ≡ none)
      × ((write_config path written d).disk ≡ record d {
        files = insert path written d.files;
        folders = (mkdir_all d (dir path)).disk.folders;
      })
unfolding write_config
write_config-done path written d fine =
    let finish = λ (over : Disk). ended over none in
    let writing = λ (made : Disk).
      then_on (write made path written) ("write config " <> (path <> ": ")) finish in
    let (made_fine, made) =
      then_on-done (mkdir_all d (dir path)) ("create config directory " <> (dir path <> ": "))
        writing fine in
    let shape = mkdir_all-done d (dir path) made_fine in
    let at_write : (writing (mkdir_all d (dir path)).disk).error ≡ none =
      sym (ap (λ e. e.error) made) ∙ fine in
    let (write_fine, wrote) =
      then_on-done (write (mkdir_all d (dir path)).disk path written)
        ("write config " <> (path <> ": ")) finish at_write in
    let (writes, contents) = write-done (mkdir_all d (dir path)).disk path written write_fine in
    (
      sym (ap (λ m. m.write_error path) shape) ∙ writes,
      ap (λ e. e.disk) (made ∙ wrote)
          ∙ (contents ∙ ap (λ (m : Disk). record m { files = insert path written m.files }) shape),
    )

-- The backup was made, and reading the file gives what it gave before.
pub backup_file-reads :
    (d : Disk) (path : String) (before : Option String)
    → (backup_file d path).error ≡ none
    → read d path ≡ reads before
    → ((backup_file d path).disk ≡ record d { files = backed_up path before d.files })
      × (read (backup_file d path).disk path ≡ reads before)
backup_file-reads d path none fine found =
    let same = backup_file-nothing d path fine found in (same, ap (λ e. read e path) same ∙ found)
backup_file-reads d path (some c) fine found =
    let same = backup_file-copy d path c fine found in
    let (readable, there) = (read-content_iff d path c).0 found in
    (
      same,
      ap (λ e. read e path) same
          ∙ (read-content_iff (record d { files = insert (path <> ".backup") c d.files }) path c).1
              (
                readable,
                lookup-insert (path <> ".backup") path c d.files
                    ∙ rw ((path-other-backup path).1) there,
              ),
    )

-- A read that fails is no backup that succeeds, or one that found nothing to copy.
pub backup_file-fails :
    (d : Disk) (path e : String)
    → (backup_file d path).error ≡ none
    → read d path ≡ failed e
    → (backup_file d path).disk ≡ d
unfolding backup_file
backup_file-fails d path e fine found = ground arith

-- The directories of a disk, by the disk itself.
own_folders :
    (d after : Disk) (fs : Dict String) (made : List String)
    → after ≡ record d { files = fs; folders = made }
    → after ≡ record d { files = fs; folders = after.folders }
own_folders d after fs made same =
    same
    ∙ ap (λ ps. record d { files = fs; folders = ps }) (sym (ap (λ (m : Disk). m.folders) same))

readable-before :
    (d : Disk) (path : String) (before : Option String)
    → read d path ≡ reads before
    → d.read_error path ≡ none
readable-before d path none found = (read-absent d path found).0
readable-before d path (some c) found = ((read-content_iff d path c).0 found).0

-- What was written is what is read.
pub read-written :
    (d : Disk) (path : String) (before : Option String) (written : String) (after : Disk)
    → IsWritten d path before written after
    → read after path ≡ content written
read-written d path before written after is = (read-content_iff after path written).1 (
  ap (λ (m : Disk). m.read_error path) is.left ∙ readable-before d path before is.found,
  ap (λ (m : Disk). lookup path m.files) is.left
      ∙ (lookup-insert path path written (backed_up path before d.files) ∙ rw (eq_refl path) refl),
)

-- The write behind a backup.
pub write_config-IsWritten :
    (d : Disk) (path : String) (before : Option String) (written : String) (copied after : Disk)
    → read d path ≡ reads before
    → copied ≡ record d { files = backed_up path before d.files }
    → (write_config path written copied).error ≡ none
    → after ≡ (write_config path written copied).disk
    → IsWritten d path before written after
write_config-IsWritten d path before written copied after found copy fine same =
    let (writes, contents) = write_config-done path written copied fine in
    let made = (mkdir_all copied (dir path)).disk.folders in
    let whole : after
        ≡ record d { files = insert path written (backed_up path before d.files); folders = made } =
      same
      ∙ (contents
          ∙ ap (λ (m : Disk). record m { files = insert path written m.files; folders = made })
              copy) in
    record {
      found = found;
      writes = sym (ap (λ (m : Disk). m.write_error path) copy) ∙ writes;
      left = own_folders d after (insert path written (backed_up path before d.files)) made whole;
    }

-- The content that was read is the content before.
pub before-content :
    (r : Read) (before : Option String) (c : String)
    → r ≡ content c
    → r ≡ reads before
    → before ≡ some c
before-content r none c p q = (let bad : absent ≡ content c = sym q ∙ p in ground arith)
before-content r (some b) c p q = (let same : content b ≡ content c = sym q ∙ p in ground arith)

-- A file that was read and is written over has the new content.
pub read-over :
    (d : Disk) (path c written : String) (after : Disk)
    → read d path ≡ content c
    → after ≡ record d { files = insert path written d.files }
    → read after path ≡ content written
read-over d path c written after found same = (read-content_iff after path written).1 (
  ap (λ (m : Disk). m.read_error path) same ∙ ((read-content_iff d path c).0 found).0,
  ap (λ (m : Disk). lookup path m.files) same
      ∙ (lookup-insert path path written d.files ∙ rw (eq_refl path) refl),
)
