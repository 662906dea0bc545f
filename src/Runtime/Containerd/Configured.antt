-- ===== src/Runtime/Containerd/Configured.antt =====
-- What a successful `Configure` for containerd leaves on the disk.
use rbln_container_toolkit.Prelude.{
  String, ◌<>◌, ◌≡◌, refl, sym, ap, ◌∙◌, inl, inr, Option, none, some, arith,
}
use rbln_container_toolkit.Prelude.Results.{ok, Result-cases}
use rbln_container_toolkit.Runtime.Disk.{Disk, failed, read, ended}
use rbln_container_toolkit.Runtime.Disk.Calls.{then_on-done}
use rbln_container_toolkit.Runtime.Document.{Codec}
use rbln_container_toolkit.Runtime.Backup.{backup_file, write_config}
use rbln_container_toolkit.Runtime.Backup.Written.{
  IsWritten, reads, or_blank, read-cases, write_config-IsWritten, backup_file-reads,
  backup_file-fails,
}
use rbln_container_toolkit.Runtime.Containerd.{
  enable_cdi_in_containerd_config, write_enabled, enable_file, configure_containerd,
}

module _ (codec : Codec) where
  -- Behind the read of a file, success is a text that was written.
  write_enabled-done :
      (path text : String) (d : Disk)
      → (write_enabled codec path text d).error ≡ none
      → (written : String) × (enable_cdi_in_containerd_config codec text ≡ ok written)
        × ((write_config path written d).error ≡ none)
        × (write_enabled codec path text d ≡ write_config path written d)
  unfolding write_enabled
  write_enabled-done path text d fine =
      elim (Result-cases (enable_cdi_in_containerd_config codec text)) [
        | inl (written, encoded) ↦
            let same : write_enabled codec path text d ≡ write_config path written d =
              rw (write_enabled, encoded) refl in
            (written, encoded, sym (ap (λ e. e.error) same) ∙ fine, same)
        | inr (e, bad) ↦
            (let wrong : some ("enable CDI in config " <> (path <> (": " <> e))) ≡ none =
                rw (write_enabled, bad) at fine in
              ground arith)
      ]

  enable_file-reads :
      (path : String) (before : Option String) (d : Disk)
      → read d path ≡ reads before
      → enable_file codec path d ≡ write_enabled codec path (or_blank before) d
  unfolding enable_file
  enable_file-reads path none d found = rw (enable_file, found) refl
  enable_file-reads path (some c) d found = rw (enable_file, found) refl

  enable_file-fails :
      (path e : String) (d : Disk)
      → read d path ≡ failed e
      → enable_file codec path d ≡ ended d (some ("read config " <> (path <> (": " <> e))))
  unfolding enable_file
  enable_file-fails path e d found = rw (enable_file, found) refl

  -- A `Configure` that succeeds has read the file, enabled CDI in what it read, and written that.
  pub configure_containerd-IsWritten :
      (d : Disk) (path : String)
      → (configure_containerd codec d path).error ≡ none
      → (before : Option String) × (written : String) × (enable_cdi_in_containerd_config codec
            (or_blank before)
          ≡ ok written)
        × IsWritten d path before written (configure_containerd codec d path).disk
  unfolding configure_containerd
  configure_containerd-IsWritten d path fine =
      let (backup_fine, rest) =
        then_on-done (backup_file d path) "backup config: " (enable_file codec path) fine in
      elim (read-cases (read d path)) [
        | inl (before, found) ↦
            let (copied, found') = backup_file-reads d path before backup_fine found in
            let d1 : Disk = (backup_file d path).disk in
            let step = rest ∙ enable_file-reads path before d1 found' in
            let (written, encoded, write_fine, wrote) =
              write_enabled-done path (or_blank before) d1 (sym (ap (λ e. e.error) step) ∙ fine) in
            (
              before,
              written,
              encoded,
              write_config-IsWritten d path before written d1
                  (configure_containerd codec d path).disk found copied write_fine
                  (ap (λ e. e.disk) (step ∙ wrote)),
            )
        | inr (e, bad) ↦
            let same = backup_file-fails d path e backup_fine bad in
            let found' = ap (λ m. read m path) same ∙ bad in
            let step = rest ∙ enable_file-fails path e (backup_file d path).disk found' in
            (let wrong : some ("read config " <> (path <> (": " <> e))) ≡ none =
                sym (ap (λ x. x.error) step) ∙ fine in
              ground arith)
      ]
