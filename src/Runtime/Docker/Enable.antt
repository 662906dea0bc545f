-- ===== src/Runtime/Docker/Enable.antt =====
-- The document that enabling writes for Docker, and what a `Configure` leaves on the disk.
use rbln_container_toolkit.Prelude.{
  String, ◌<>◌, ◌≡◌, refl, sym, ap, ◌∙◌, inl, inr, true, Option, none, some, [], ◌∷◌, arith,
}
use rbln_container_toolkit.Prelude.Results.{Result, ok, Result-cases}
use rbln_container_toolkit.Runtime.Disk.{Disk, failed, read, ended}
use rbln_container_toolkit.Runtime.Disk.Calls.{then_on-done}
use rbln_container_toolkit.Runtime.Document.{
  Table, flag, empty, get, put, as_table, as_flag, or_empty_table, get_in, Codec, Agrees, get-put,
  get_in-in_table,
}
use rbln_container_toolkit.Runtime.Backup.{backup_file, write_config}
use rbln_container_toolkit.Runtime.Backup.Written.{
  IsWritten, reads, read-cases, write_config-IsWritten, backup_file-reads, backup_file-fails,
}
use rbln_container_toolkit.Runtime.Version.{Version}
use rbln_container_toolkit.Runtime.Docker.{
  enable_cdi, docker_cdi_feature, feature_ready, docker_config, write_feature, enable_file,
  configure_docker,
}

pub docker_cdi_feature-get_in :
    (t : Table) → docker_cdi_feature (some t) ≡ as_flag (get_in ("features" ∷ []) "cdi" t)
unfolding docker_cdi_feature get_in
docker_cdi_feature-get_in t = ground arith

-- A document with the values of one that was enabled has the feature.
pub docker_cdi_feature-enable_cdi :
    (t u : Table) → Agrees (enable_cdi t) u → docker_cdi_feature (some u) ≡ some true
unfolding enable_cdi get_in
docker_cdi_feature-enable_cdi t u agrees =
    docker_cdi_feature-get_in u
    ∙ (agrees.flags ("features" ∷ []) "cdi"
        ∙ ap as_flag (
            get_in-in_table "features" [] "cdi" (put "cdi" (flag true)) t
            ∙ get-put "cdi" "cdi" (flag true) (or_empty_table (as_table (get "features" t)))))

pub feature_ready-true : (version : Option Version) → feature_ready version (some true) ≡ true
unfolding feature_ready
feature_ready-true version = ground arith

-- The configuration that a file, or its absence, stands for.
abbrev pub config_of : Codec → Option String → Result (Option Table)
config_of codec none = ok (some empty)
config_of codec (some c) = docker_config codec c

module _ (codec : Codec) where
  write_feature-done :
      (path : String) (m : Option Table) (d : Disk)
      → (write_feature codec path m d).error ≡ none
      → (config : Table) × (written : String) × (m ≡ some config)
        × (codec.encode (some (enable_cdi config)) ≡ ok written)
        × ((write_config path written d).error ≡ none)
        × (write_feature codec path m d ≡ write_config path written d)
  unfolding write_feature
  write_feature-done path none d fine = ground arith
  write_feature-done path (some config) d fine =
      elim (Result-cases (codec.encode (some (enable_cdi config)))) [
        | inl (written, encoded) ↦
            let same : write_feature codec path (some config) d ≡ write_config path written d =
              rw (write_feature, encoded) refl in
            (config, written, refl, encoded, sym (ap (λ e. e.error) same) ∙ fine, same)
        | inr (e, bad) ↦
            (let wrong : some ("marshal config: " <> e) ≡ none = rw (write_feature, bad) at fine in
              ground arith)
      ]

  enable_file-reads :
      (path : String) (before : Option String) (d : Disk)
      → read d path ≡ reads before
      → (enable_file codec path d).error ≡ none
      → (m : Option Table) × (config_of codec before ≡ ok m)
        × (enable_file codec path d ≡ write_feature codec path m d)
  unfolding enable_file
  enable_file-reads path none d found fine = (some empty, refl, rw (enable_file, found) refl)
  enable_file-reads path (some c) d found fine = elim (Result-cases (docker_config codec c)) [
    | inl (m, parsed) ↦ (m, parsed, rw (enable_file, found, parsed) refl)
    | inr (e, bad) ↦
        (let wrong : some ("parse config " <> (path <> (": " <> e))) ≡ none =
            rw (enable_file, found, bad) at fine in
          ground arith)
  ]

  enable_file-fails :
      (path e : String) (d : Disk)
      → read d path ≡ failed e
      → enable_file codec path d ≡ ended d (some ("read config " <> (path <> (": " <> e))))
  unfolding enable_file
  enable_file-fails path e d found = rw (enable_file, found) refl

  -- A `Configure` that succeeds has parsed the file, switched the feature on, and written that.
  pub configure_docker-IsWritten :
      (d : Disk) (path : String)
      → (configure_docker codec d path).error ≡ none
      → (before : Option String) × (config : Table) × (written : String) × (config_of codec before
          ≡ ok (some config))
        × (codec.encode (some (enable_cdi config)) ≡ ok written)
        × IsWritten d path before written (configure_docker codec d path).disk
  unfolding configure_docker
  configure_docker-IsWritten d path fine =
      let (backup_fine, rest) =
        then_on-done (backup_file d path) "backup config: " (enable_file codec path) fine in
      let d1 : Disk = (backup_file d path).disk in
      let rest_fine = sym (ap (λ e. e.error) rest) ∙ fine in
      elim (read-cases (read d path)) [
        | inl (before, found) ↦
            let (copied, found') = backup_file-reads d path before backup_fine found in
            let (m, parsed, step) = enable_file-reads path before d1 found' rest_fine in
            let (config, written, is_map, encoded, write_fine, wrote) =
              write_feature-done path m d1 (sym (ap (λ e. e.error) step) ∙ rest_fine) in
            (
              before,
              config,
              written,
              parsed ∙ ap ok is_map,
              encoded,
              write_config-IsWritten d path before written d1 (configure_docker codec d path).disk
                  found copied write_fine (ap (λ e. e.disk) (rest ∙ (step ∙ wrote))),
            )
        | inr (e, bad) ↦
            let same = backup_file-fails d path e backup_fine bad in
            let step = enable_file-fails path e d1 (ap (λ m. read m path) same ∙ bad) in
            (let wrong : some ("read config " <> (path <> (": " <> e))) ≡ none =
                sym (ap (λ x. x.error) step) ∙ rest_fine in
              ground arith)
      ]
