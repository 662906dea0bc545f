-- ===== src/Runtime/Docker/Ready.antt =====
-- Docker is ready after `Configure`, and as it was before after `Revert`.
use rbln_container_toolkit.Prelude.{
  String, ◌<>◌, ◌≡◌, refl, sym, ap, ◌∙◌, inl, inr, true, false, Option, none, some, List, [], ◌∷◌,
  ◌==◌, string_eq, arith, eq_iff, subst, Option-cases, Bool-cases,
}
use rbln_container_toolkit.Prelude.Results.{Result, ok, Result-cases}
use rbln_container_toolkit.Prelude.Dict.{lookup}
use rbln_container_toolkit.Runtime.Disk.{Disk, missing, content, read, stat, write}
use rbln_container_toolkit.Runtime.Disk.Calls.{write-done}
use rbln_container_toolkit.Runtime.Document.{
  Table, table, get, delete, as_table, as_flag, Codec, Agrees, IsJson, get-put, get-delete,
}
use rbln_container_toolkit.Runtime.Version.{detect_version}
use rbln_container_toolkit.Runtime.Backup.{restore_backup}
use rbln_container_toolkit.Runtime.Backup.Written.{
  IsWritten, read-written, read-over, before-content,
}
use rbln_container_toolkit.Runtime.Backup.Restored.{or_stripped-backup, restore_backup-undoes}
use rbln_container_toolkit.Runtime.Docker.{
  enable_cdi, disable_cdi, is_empty_table, docker_cdi_feature, docker_config, feature_ready,
  configure_docker, docker_cdi_ready, revert_docker, strip_feature,
}
use rbln_container_toolkit.Runtime.Docker.Enable.{
  docker_cdi_feature-enable_cdi, docker_cdi_feature-get_in, feature_ready-true,
  configure_docker-IsWritten,
}

get-cdi_left : (f : Table) → as_flag (get "cdi" (delete "cdi-devices" (delete "cdi" f))) ≡ none
get-cdi_left f =
    ap as_flag (get-delete "cdi-devices" "cdi" (delete "cdi" f) ∙ get-delete "cdi" "cdi" f)

docker_cdi_feature-disabled : (t : Table) → docker_cdi_feature (some (disable_cdi t)) ≡ none
unfolding disable_cdi docker_cdi_feature
docker_cdi_feature-disabled t = elim (Option-cases (as_table (get "features" t))) [
  | inl lacking ↦ rw (disable_cdi, lacking) (rw (docker_cdi_feature, lacking) refl)
  | inr (f, found) ↦
      let left = delete "cdi-devices" (delete "cdi" f) in
      elim (Bool-cases (is_empty_table left)) [
        | inl bare ↦
            rw (disable_cdi, found, bare)
              (rw (docker_cdi_feature, get-delete "features" "features" t) refl)
        | inr more ↦
            rw (disable_cdi, found, more)
              (rw (docker_cdi_feature, get-put "features" "features" (table left) t)
                (get-cdi_left f))
      ]
]

docker_cdi_feature-disable_cdi :
    (t u : Table) → Agrees (disable_cdi t) u → docker_cdi_feature (some u) ≡ none
unfolding disable_cdi docker_cdi_feature
docker_cdi_feature-disable_cdi t u agrees =
    docker_cdi_feature-get_in u
    ∙ (agrees.flags ("features" ∷ []) "cdi"
        ∙ (sym (docker_cdi_feature-get_in (disable_cdi t)) ∙ docker_cdi_feature-disabled t))

module _ (codec : Codec) (json : IsJson codec) where
  -- A text that decodes is not empty, so it is decoded.
  docker_config-decode :
      (text : String) (m : Option Table)
      → codec.decode text ≡ ok m
      → docker_config codec text ≡ ok m
  unfolding docker_config
  docker_config-decode text m decoded = elim (Bool-cases (text == "")) [
    | inl nothing ↦
        absurd (json.nothing m (ap codec.decode (sym ((eq_iff text "").0 nothing)) ∙ decoded))
    | inr some_text ↦ rw (docker_config, some_text) decoded
  ]

  docker_cdi_ready-decode :
      (runs : String × List String → Result String) (d : Disk) (path host_root text : String)
      (m : Option Table)
      → read d path ≡ content text
      → codec.decode text ≡ ok m
      → docker_cdi_ready codec runs d path host_root
        ≡ ok (feature_ready (detect_version runs "docker" host_root) (docker_cdi_feature m))
  unfolding docker_cdi_ready
  docker_cdi_ready-decode runs d path host_root text m found decoded =
      rw (docker_cdi_ready, found, docker_config-decode text m decoded) refl

  -- After a `Configure` that succeeds Docker is ready, whatever its version is and whatever the file
  -- was before.
  pub configure_docker-ready :
      (runs : String × List String → Result String) (d : Disk) (path host_root : String)
      → (configure_docker codec d path).error ≡ none
      → docker_cdi_ready codec runs (configure_docker codec d path).disk path host_root ≡ ok true
  configure_docker-ready runs d path host_root fine =
      let (before, config, written, parsed, encoded, is) =
        configure_docker-IsWritten codec d path fine in
      let (u, decoded, agrees) = json.reads_back (enable_cdi config) written encoded in
      docker_cdi_ready-decode runs (configure_docker codec d path).disk path host_root written
        (some u) (read-written d path before written (configure_docker codec d path).disk is)
        decoded
      ∙ (ap (λ f. ok (feature_ready (detect_version runs "docker" host_root) f))
            (docker_cdi_feature-enable_cdi config u agrees)
          ∙ ap ok (feature_ready-true (detect_version runs "docker" host_root)))

  -- A file from which the settings are removed has no setting of CDI: a `Revert` that succeeds with no
  -- backup leaves the answer to the version of Docker alone.
  pub revert_docker-ready :
      (runs : String × List String → Result String) (d : Disk) (path host_root text : String)
      (t : Table)
      → stat d (path <> ".backup") ≡ missing
      → read d path ≡ content text
      → codec.decode text ≡ ok (some t)
      → (revert_docker codec d path).error ≡ none
      → docker_cdi_ready codec runs (revert_docker codec d path).disk path host_root
        ≡ ok (feature_ready (detect_version runs "docker" host_root) none)
  unfolding revert_docker strip_feature
  revert_docker-ready runs d path host_root text t alone found decoded fine =
      elim (Result-cases (codec.encode (some (disable_cdi t)))) [
        | inl (written, encoded) ↦
            let (u, decoded', agrees) = json.reads_back (disable_cdi t) written encoded in
            let step : revert_docker codec d path ≡ write d path written =
              rw (revert_docker, alone, strip_feature, found, decoded, encoded) refl in
            let (writes, contents) =
              write-done d path written (sym (ap (λ e. e.error) step) ∙ fine) in
            docker_cdi_ready-decode runs (revert_docker codec d path).disk path host_root written
              (some u)
              (ap (λ e. read e.disk path) step
                ∙ read-over d path text written (write d path written).disk found contents)
              decoded'
            ∙ ap (λ f. ok (feature_ready (detect_version runs "docker" host_root) f))
                (docker_cdi_feature-disable_cdi t u agrees)
        | inr (e, bad) ↦
            (let wrong : some ("marshal config: " <> e) ≡ none =
                rw (revert_docker, alone, strip_feature, found, decoded, bad) at fine in
              ground arith)
      ]

-- A `Revert` after a `Configure` gives the file of Docker its content back, byte for byte, and removes
-- the backup; any other file is as it was.
pub configure_docker-revert :
    (codec : Codec) (d : Disk) (path c q : String)
    → read d path ≡ content c
    → (configure_docker codec d path).error ≡ none
    → d.read_error (path <> ".backup") ≡ none
    → d.stat_error (path <> ".backup") ≡ none
    → d.remove_error (path <> ".backup") ≡ none
    → (q == path <> ".backup") ≡ false
    → ((revert_docker codec (configure_docker codec d path).disk path).error ≡ none)
      × (lookup path (revert_docker codec (configure_docker codec d path).disk path).disk.files
          ≡ some c)
      × (lookup
            (path <> ".backup")
            (revert_docker codec (configure_docker codec d path).disk path).disk.files
          ≡ none)
      × (lookup q (revert_docker codec (configure_docker codec d path).disk path).disk.files
          ≡ lookup q d.files)
unfolding revert_docker
configure_docker-revert codec d path c q found fine readable seen removable other =
    let (before, config, written, parsed, encoded, is') =
      configure_docker-IsWritten codec d path fine in
    let after : Disk = (configure_docker codec d path).disk in
    let is : IsWritten d path (some c) written after =
      subst (λ b. IsWritten d path b written after)
        (before-content (read d path) before c found is'.found) is' in
    let backup : revert_docker codec after path ≡ restore_backup after path =
      or_stripped-backup d path c written after is readable seen removable
        (restore_backup after path) (strip_feature codec after path) in
    rw backup (restore_backup-undoes d path c written after is readable seen removable q other)
