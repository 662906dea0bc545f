-- ===== src/Cdi/Setup/Published.antt =====
-- What a successful `GenerateCDISpec` leaves at the two paths.
use rbln_container_toolkit.Prelude.{
  String, ◌≡◌, refl, sym, ap, ◌∙◌, inl, inr, false, none, some, ◌==◌, string_eq, arith, subst,
}
use rbln_container_toolkit.Prelude.Dict.{Dict, lookup}
use rbln_container_toolkit.Prelude.Results.{ok, Result-cases}
use rbln_container_toolkit.Config.{Config}
use rbln_container_toolkit.Discover.{DiscoveryResult}
use rbln_container_toolkit.Cdi.Spec.{Spec}
use rbln_container_toolkit.Cdi.Generator.{generate}
use rbln_container_toolkit.Cdi.Validator.Generated.{validate_spec-generate}
use rbln_container_toolkit.Cdi.Setup.{
  Options, Around, format_of, npu_spec, build_rds_spec, discovered, by_mode, resolve_topology,
}
use rbln_container_toolkit.Cdi.Setup.Emission.{
  done_with, write_spec, write_npu_spec, emit_rds_spec, and_then, generate_for, generate_cdi_spec,
}
use rbln_container_toolkit.Cdi.Setup.Parts.{
  IsTarget, HoldsSpec, RdsLeft, RdsLeft-from, and_then-done, write_spec-HoldsSpec,
  emit_rds_spec-RdsLeft,
}

module _ (a : Around) (o : Options) (cfg : Config) (files : Dict String)
    (given : o.config ≡ some cfg) (asked : (o.output_path == "") ≡ false)
    (rds_asked : (o.rds_output_path == "") ≡ false)
    (target : IsTarget a o.output_path o.rds_output_path)
    (rds_target : IsTarget a o.rds_output_path o.output_path)
    (removes : a.remove_error ≡ none) where
  generate_cdi_spec-for : generate_cdi_spec a (some o) files ≡ generate_for a o (some cfg) files
  unfolding generate_cdi_spec
  generate_cdi_spec-for = ap (λ c. generate_for a o c files) given

  -- Success went through the write of the one and the emission of the other.
  generate_for-steps :
      (spec : Spec)
      → npu_spec a o cfg ≡ ok spec
      → (generate_for a o (some cfg) files).error ≡ none
      → ((write_npu_spec a o spec files).error ≡ none)
        × (generate_for a o (some cfg) files
            ≡ emit_rds_spec a o cfg (write_npu_spec a o spec files).files)
  unfolding generate_for
  generate_for-steps spec made fine =
      let step : generate_for a o (some cfg) files
          ≡ and_then (write_npu_spec a o spec files) (emit_rds_spec a o cfg) =
        rw (generate_for, made) refl in
      let (well, rest) =
        and_then-done (write_npu_spec a o spec files) (emit_rds_spec a o cfg)
          (sym (ap (λ d. d.error) step) ∙ fine) in
      (well, step ∙ rest)

  -- `GenerateCDISpec` that succeeds leaves at its path the encoding of the spec that `Generate` makes of
  -- what was found, or of nothing where the discovery failed in lenient mode, and that spec is accepted
  -- by the validator; at the path of the RDS spec it leaves the encoding of an accepted spec, no file
  -- where no RDS device was found, or, after an error in lenient mode, what was there before. A stale
  -- file can be removed, since a removal that fails is only logged.
  pub generate_cdi_spec-HoldsSpec :
      (generate_cdi_spec a (some o) files).error ≡ none
      → (found : DiscoveryResult) × (by_mode o.error_mode (discovered a o cfg) ≡ ok found)
        × HoldsSpec a
            (format_of o)
            o.output_path
            (generate cfg (resolve_topology a o cfg) a.host (some found))
            (generate_cdi_spec a (some o) files).files
        × RdsLeft a o (build_rds_spec a o cfg) files (generate_cdi_spec a (some o) files).files
  unfolding npu_spec write_npu_spec generate_for
  generate_cdi_spec-HoldsSpec fine =
      elim (Result-cases (by_mode o.error_mode (discovered a o cfg))) [
        | inr (e, bad) ↦
            let failed : generate_cdi_spec a (some o) files ≡ done_with files (some e) =
              generate_cdi_spec-for ∙ rw (generate_for, npu_spec, bad) refl in
            (let wrong : some e ≡ none = sym (ap (λ d. d.error) failed) ∙ fine in ground arith)
        | inl (found, known) ↦
            let spec = generate cfg (resolve_topology a o cfg) a.host (some found) in
            let made : npu_spec a o cfg ≡ ok spec = rw (npu_spec, known) refl in
            let (well, rest) =
              generate_for-steps spec made (sym (ap (λ d. d.error) generate_cdi_spec-for) ∙ fine) in
            let whole = generate_cdi_spec-for ∙ rest in
            let wrote : write_npu_spec a o spec files
                ≡ write_spec a "write CDI spec: " spec o.output_path (format_of o) files =
              rw (write_npu_spec, asked) refl in
            let (holds, kept) =
              write_spec-HoldsSpec a "write CDI spec: " o.output_path o.rds_output_path
                (format_of o) spec files target
                (validate_spec-generate cfg (resolve_topology a o cfg) a.host (some found))
                (sym (ap (λ d. d.error) wrote) ∙ well) in
            let middle : Dict String = (write_npu_spec a o spec files).files in
            let (left, untouched) =
              emit_rds_spec-RdsLeft a o cfg o.output_path rds_target removes rds_asked
                (build_rds_spec a o cfg) middle refl (sym (ap (λ d. d.error) whole) ∙ fine) in
            (
              found,
              known,
              record {
                text = holds.text;
                encoded = holds.encoded;
                held =
                    ap (λ d. lookup o.output_path d.files) whole
                    ∙ (untouched ∙ (ap (λ d. lookup o.output_path d.files) wrote ∙ holds.held));
                valid = holds.valid;
              },
              RdsLeft-from a o (build_rds_spec a o cfg) files middle
                  (generate_cdi_spec a (some o) files).files
                  (ap (λ d. lookup o.rds_output_path d.files) wrote ∙ kept)
                  (subst (λ d. RdsLeft a o (build_rds_spec a o cfg) middle d.files) (sym whole)
                    left),
            )
      ]
