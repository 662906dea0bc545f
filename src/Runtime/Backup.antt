-- ===== src/Runtime/Backup.antt =====
-- The copy of a configuration file that is made before it is changed, its return, and the write of
-- the new content: `backupFile`, the first branch of `Revert`, and the end of `Configure`, of internal/runtime/configure.go.
pub mod Copies
pub mod Written
pub mod Restored
use rbln_container_toolkit.Prelude.{String, ◌<>◌, none, some}
use rbln_container_toolkit.Runtime.Disk.{
  Disk, Found, missing, file, folder, denied, stat, absent, failed, content, read, Ended, ended,
  write, remove, mkdir_all, then_on,
}
use rbln_container_toolkit.Prelude.Texts.{dir}

-- `backupFile`
unfoldable pub backup_file : Disk → String → Ended
unfolding stat read write
backup_file d path = elim (stat d path) [
  | missing ↦ ended d none
  | _ ↦ elim (read d path) [
    | content c ↦ write d (path <> ".backup") c
    | failed e ↦ ended d (some e)
    | absent ↦ ended d (some "file does not exist")
  ]
]

-- `restore backup`, the first branch of `Revert` for containerd and for Docker.
unfoldable pub restore_backup : Disk → String → Ended
unfolding read write remove
restore_backup d path = elim (read d (path <> ".backup")) [
  | failed e ↦ ended d (some ("read backup: " <> e))
  | absent ↦ ended d (some "read backup: file does not exist")
  | content c ↦
      then_on (write d path c) "restore backup: "
        (λ restored. ended (remove restored (path <> ".backup")).disk none)
]

-- `os.Stat` without an error: there is a backup.
abbrev pub or_stripped : Found → Ended → Ended → Ended
or_stripped file restored stripped = restored
or_stripped folder restored stripped = restored
or_stripped missing restored stripped = stripped
or_stripped (denied e) restored stripped = stripped

-- The end of every `Configure`: the directory is made, and the new content written.
unfoldable pub write_config : String → String → Disk → Ended
unfolding mkdir_all write dir
write_config path written d =
    then_on (mkdir_all d (dir path)) ("create config directory " <> (dir path <> ": ")) (λ made.
      then_on (write made path written) ("write config " <> (path <> ": "))
        (λ over. ended over none))
