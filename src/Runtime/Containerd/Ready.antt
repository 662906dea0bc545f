-- ===== src/Runtime/Containerd/Ready.antt =====
-- containerd is ready after `Configure`.
use rbln_container_toolkit.Prelude.{
  String, ◌<>◌, ◌≡◌, refl, sym, ap, ◌∙◌, inl, inr, true, none, some, List, Bool-cases, ◌==◌,
  string_eq, arith, eq_iff,
}
use rbln_container_toolkit.Prelude.Results.{Result, ok, err, Result-cases}
use rbln_container_toolkit.Prelude.Spaces.{trim_space}
use rbln_container_toolkit.Runtime.Disk.{Disk, content, read}
use rbln_container_toolkit.Runtime.Document.{Table, empty, Codec, Agrees, IsToml}
use rbln_container_toolkit.Runtime.Version.{detect_version}
use rbln_container_toolkit.Runtime.Backup.Written.{or_blank, read-written}
use rbln_container_toolkit.Runtime.Containerd.{
  parse_containerd_config, enable_cdi_in_containerd_config, enabled, configure_containerd,
  containerd_cdi_ready,
}
use rbln_container_toolkit.Runtime.Containerd.Enable.{document_ready-Agrees, document_ready-enabled}
use rbln_container_toolkit.Runtime.Containerd.Configured.{configure_containerd-IsWritten}

module _ (codec : Codec) (toml : IsToml codec) where
  -- Parsing is decoding, for a blank text too.
  parse-decode :
      (text : String) (u : Table)
      → codec.decode text ≡ ok (some u)
      → parse_containerd_config codec text ≡ ok u
  unfolding parse_containerd_config
  parse-decode text u decoded = elim (Bool-cases (trim_space text == "")) [
    | inl nothing ↦
        (let same : ok (some empty) ≡ ok (some u) =
            sym (toml.blank text ((eq_iff (trim_space text) "").0 nothing)) ∙ decoded in
          rw (parse_containerd_config, nothing) (ground arith))
    | inr some_text ↦ rw (parse_containerd_config, some_text, decoded) refl
  ]

  -- What enabling writes is parsed to a document with its values.
  written-parsed :
      (text written : String)
      → enable_cdi_in_containerd_config codec text ≡ ok written
      → (root u : Table) × (parse_containerd_config codec written ≡ ok u)
        × Agrees (enabled (trim_space text == "") root) u
  unfolding enable_cdi_in_containerd_config
  written-parsed text written h = elim (Result-cases (parse_containerd_config codec text)) [
    | inl (root, parsed) ↦
        let fresh = trim_space text == "" in
        elim (Result-cases (codec.encode (some (enabled fresh root)))) [
          | inl (out, encoded) ↦
              let same : ok out ≡ ok written =
                rw (enable_cdi_in_containerd_config, parsed, encoded) at h in
              let is : out ≡ written = ground arith in
              let (u, decoded, agrees) = toml.reads_back (enabled fresh root) out encoded in
              (root, u, parse-decode written u (ap codec.decode (sym is) ∙ decoded), agrees)
          | inr (e, bad) ↦
              (let wrong : err ("render containerd config: " <> e) ≡ ok written =
                  rw (enable_cdi_in_containerd_config, parsed, bad) at h in
                ground arith)
        ]
    | inr (e, bad) ↦
        (let wrong : err e ≡ ok written = rw (enable_cdi_in_containerd_config, bad) at h in
          ground arith)
  ]

  -- A file that holds what enabling writes is ready.
  pub written-ready :
      (runs : String × List String → Result String) (d : Disk)
      (path host_root text written : String)
      → enable_cdi_in_containerd_config codec text ≡ ok written
      → read d path ≡ content written
      → containerd_cdi_ready codec runs d path host_root ≡ ok true
  unfolding containerd_cdi_ready
  written-ready runs d path host_root text written encoded found =
      let (root, u, parsed, agrees) = written-parsed text written encoded in
      let version = detect_version runs "containerd" host_root in
      rw
        (
          containerd_cdi_ready,
          found,
          parsed,
          document_ready-Agrees version (enabled (trim_space text == "") root) u agrees,
          document_ready-enabled version (trim_space text == "") root,
        )
        refl

  -- After a `Configure` that succeeds containerd is ready, whatever its version is and whatever the
  -- file was before, so that the daemon does not configure and restart it again.
  pub configure_containerd-ready :
      (runs : String × List String → Result String) (d : Disk) (path host_root : String)
      → (configure_containerd codec d path).error ≡ none
      → containerd_cdi_ready codec runs (configure_containerd codec d path).disk path host_root
        ≡ ok true
  configure_containerd-ready runs d path host_root fine =
      let (before, written, encoded, is) = configure_containerd-IsWritten codec d path fine in
      written-ready runs (configure_containerd codec d path).disk path host_root (or_blank before)
        written encoded (read-written d path before written _ is)
