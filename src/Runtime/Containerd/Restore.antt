-- ===== src/Runtime/Containerd/Restore.antt =====
-- `Revert` after `Configure` for containerd.
use rbln_container_toolkit.Prelude.{
  String, ◌<>◌, ◌≡◌, sym, ap, ◌∙◌, true, false, none, some, ◌==◌, string_eq, subst, List,
}
use rbln_container_toolkit.Prelude.Results.{Result, ok}
use rbln_container_toolkit.Prelude.Dict.{lookup}
use rbln_container_toolkit.Runtime.Disk.{Disk, content, read}
use rbln_container_toolkit.Runtime.Document.{Codec, IsToml}
use rbln_container_toolkit.Runtime.Backup.{restore_backup}
use rbln_container_toolkit.Runtime.Backup.Written.{
  IsWritten, or_blank, read-written, before-content,
}
use rbln_container_toolkit.Runtime.Backup.Restored.{
  or_stripped-backup, restore_backup-undoes, restore_backup-reads,
}
use rbln_container_toolkit.Runtime.Containerd.{
  enable_cdi_in_containerd_config, configure_containerd, containerd_cdi_ready, revert_containerd,
  strip_cdi,
}
use rbln_container_toolkit.Runtime.Containerd.Configured.{configure_containerd-IsWritten}
use rbln_container_toolkit.Runtime.Containerd.Ready.{written-ready}

module _ (codec : Codec) (d : Disk) (path c : String) (found : read d path ≡ content c)
    (fine : (configure_containerd codec d path).error ≡ none) where
  -- A file that was there is changed and has a backup.
  pub configured-file :
      (written : String) × (enable_cdi_in_containerd_config codec c ≡ ok written)
      × IsWritten d path (some c) written (configure_containerd codec d path).disk
  configured-file =
      let (before, written, encoded, is) = configure_containerd-IsWritten codec d path fine in
      let same = before-content (read d path) before c found is.found in
      (
        written,
        ap (λ b. enable_cdi_in_containerd_config codec (or_blank b)) (sym same) ∙ encoded,
        subst (λ b. IsWritten d path b written (configure_containerd codec d path).disk) same is,
      )

  module _ (readable : d.read_error (path <> ".backup") ≡ none)
      (seen : d.stat_error (path <> ".backup") ≡ none)
      (removable : d.remove_error (path <> ".backup") ≡ none) where
    reverted-backup :
        revert_containerd (configure_containerd codec d path).disk path
        ≡ restore_backup (configure_containerd codec d path).disk path
    unfolding revert_containerd
    reverted-backup =
        let (written, encoded, is) = configured-file in
        let after : Disk = (configure_containerd codec d path).disk in
        or_stripped-backup d path c written after is readable seen removable
          (restore_backup after path) (strip_cdi after path)

    -- A `Revert` after a `Configure` gives the file its content back, byte for byte, and removes the
    -- backup; any other file is as it was.
    pub configure_containerd-revert :
        (q : String)
        → (q == path <> ".backup") ≡ false
        → ((revert_containerd (configure_containerd codec d path).disk path).error ≡ none)
          × (lookup path
                (revert_containerd (configure_containerd codec d path).disk path).disk.files
              ≡ some c)
          × (lookup
                (path <> ".backup")
                (revert_containerd (configure_containerd codec d path).disk path).disk.files
              ≡ none)
          × (lookup q (revert_containerd (configure_containerd codec d path).disk path).disk.files
              ≡ lookup q d.files)
    configure_containerd-revert q other =
        let (written, encoded, is) = configured-file in
        rw reverted-backup (
          restore_backup-undoes d path c written (configure_containerd codec d path).disk is
            readable seen removable q other)

    reverted-reads :
        read (revert_containerd (configure_containerd codec d path).disk path).disk path ≡ content c
    reverted-reads =
        let (written, encoded, is) = configured-file in
        ap (λ e. read e.disk path) reverted-backup
        ∙ restore_backup-reads d path c written (configure_containerd codec d path).disk is readable
            seen removable

-- After two runs of `Configure` the backup holds what the first had written, so that `Revert` leaves
-- containerd with CDI enabled, whatever the file was at the start.
pub configure_containerd_twice-revert :
    (codec : Codec) (toml : IsToml codec) (runs : String × List String → Result String) (d : Disk)
    (path c host_root : String)
    → read d path ≡ content c
    → (configure_containerd codec d path).error ≡ none
    → (configure_containerd codec (configure_containerd codec d path).disk path).error ≡ none
    → d.read_error (path <> ".backup") ≡ none
    → d.stat_error (path <> ".backup") ≡ none
    → d.remove_error (path <> ".backup") ≡ none
    → containerd_cdi_ready codec runs
        (revert_containerd
          (configure_containerd codec (configure_containerd codec d path).disk path).disk
          path).disk
        path
        host_root
      ≡ ok true
configure_containerd_twice-revert codec toml runs d path c host_root found fine again readable seen
      removable =
    let (written, encoded, is) = configured-file codec d path c found fine in
    let once : Disk = (configure_containerd codec d path).disk in
    let found' = read-written d path (some c) written once is in
    written-ready codec toml runs
      (revert_containerd (configure_containerd codec once path).disk path).disk path host_root c
      written encoded
      (reverted-reads codec once path written found' again
        (ap (λ (m : Disk). m.read_error (path <> ".backup")) is.left ∙ readable)
        (ap (λ (m : Disk). m.stat_error (path <> ".backup")) is.left ∙ seen)
        (ap (λ (m : Disk). m.remove_error (path <> ".backup")) is.left ∙ removable))
