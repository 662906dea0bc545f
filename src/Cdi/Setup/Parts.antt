-- ===== src/Cdi/Setup/Parts.antt =====
-- What a successful write of the one or the other spec leaves.
use rbln_container_toolkit.Prelude.{
  String, ◌<>◌, ◌≡◌, refl, sym, ap, ◌∙◌, inl, inr, false, Option, none, some, Option-cases,
  Bool-cases, ◌==◌, string_eq, arith, eq_iff, subst, is_empty,
}
use rbln_container_toolkit.Prelude.Dict.{Dict, lookup, erase, lookup-erase}
use rbln_container_toolkit.Prelude.Results.{Result, ok, err, Result-cases}
use rbln_container_toolkit.Config.{Config}
use rbln_container_toolkit.Discover.{no_result}
use rbln_container_toolkit.Cdi.Spec.{Spec}
use rbln_container_toolkit.Cdi.Generator.{generate_rds}
use rbln_container_toolkit.Cdi.Validator.{validate_spec}
use rbln_container_toolkit.Cdi.Validator.Generated.{validate_spec-generate_rds}
use rbln_container_toolkit.Cdi.Writer.{write, write_text, write_to_writer, after_calls}
use rbln_container_toolkit.Cdi.Writer.Outcome.{write_text-done}
use rbln_container_toolkit.Cdi.Setup.{
  ErrorMode, strict, lenient, Options, Around, format_of, build_rds_spec, discover_rds_devices,
}
use rbln_container_toolkit.Cdi.Setup.Emission.{
  Done, done_with, write_spec, prune, emit_rds_spec, rds_failed, and_then,
}
use text.Mathlib.TextPositions.{eq_refl}

-- A path whose temporary file has another name, which is no name of a target either.
pub record IsTarget (a : Around) (path elsewhere : String) : Type 0 where
  pub own : ((a.calls path).temp_path == path) ≡ false
  pub apart : (elsewhere == (a.calls path).temp_path) ≡ false
  pub different : (elsewhere == path) ≡ false

-- A file holds the encoding of a spec that the validator accepts.
pub record HoldsSpec (a : Around) (format path : String) (spec : Spec) (files : Dict String)
    : Type 0 where
  pub text : String
  pub encoded : write_to_writer a.encoders (some spec) format ≡ ok text
  pub held : lookup path files ≡ some text
  pub valid : validate_spec (some spec) ≡ none

-- A write of a valid spec that succeeds leaves it at its path, and other files as they were.
pub write_spec-HoldsSpec :
    (a : Around) (what path elsewhere format : String) (spec : Spec) (files : Dict String)
    → IsTarget a path elsewhere
    → validate_spec (some spec) ≡ none
    → (write_spec a what spec path format files).error ≡ none
    → HoldsSpec a format path spec (write_spec a what spec path format files).files
      × (lookup elsewhere (write_spec a what spec path format files).files ≡ lookup elsewhere files)
unfolding write_spec write
write_spec-HoldsSpec a what path elsewhere format spec files target valid fine =
    elim (Result-cases (write_to_writer a.encoders (some spec) format)) [
      | inr (e, bad) ↦
          (let wrong : some (what <> e) ≡ none = rw (write_spec, write, bad) at fine in
            ground arith)
      | inl (text, encoded) ↦
          let wrote = write_text (a.calls path) path text in
          let same : write a.encoders (a.calls path) (some spec) path format ≡ wrote =
            rw (write, encoded) refl in
          let done : wrote.error ≡ none = elim (Option-cases wrote.error) [
            | inl well ↦ well
            | inr (e, bad) ↦
                (let wrong : some (what <> e) ≡ none = rw (write_spec, same, bad) at fine in
                  ground arith)
          ] in
          let left : (write_spec a what spec path format files).files
              ≡ after_calls (a.calls path).temp_path path wrote.calls files =
            ap (λ w. after_calls (a.calls path).temp_path path w.calls files) same in
          let (held, gone, kept, calls) =
            write_text-done (a.calls path) path text files elsewhere target.own target.apart
              target.different done in
          (
            record {
              text = text;
              encoded = encoded;
              held = ap (lookup path) left ∙ held;
              valid = valid;
            },
            ap (lookup elsewhere) left ∙ kept,
          )
    ]

-- What is at the path of the RDS spec: the spec that was built; nothing where there is no RDS device;
-- in lenient mode, after an error, what was there before.
abbrev pub RdsLeft : Around → Options → Result (Option Spec) → Dict String → Dict String → Type 0
RdsLeft a o (ok (some spec)) before after = HoldsSpec a (format_of o) o.rds_output_path spec after
RdsLeft a o (ok none) before after = lookup o.rds_output_path after ≡ none
RdsLeft a o (err e) before after =
    (o.error_mode ≡ lenient) × (lookup o.rds_output_path after ≡ lookup o.rds_output_path before)

build_rds_spec-valid :
    (a : Around) (o : Options) (cfg : Config) (spec : Spec)
    → build_rds_spec a o cfg ≡ ok (some spec)
    → validate_spec (some spec) ≡ none
unfolding build_rds_spec
build_rds_spec-valid a o cfg spec built = elim (Bool-cases (is_empty cfg.rds.patterns)) [
  | inl without ↦
      (let wrong : ok none ≡ ok (some spec) = rw (build_rds_spec, without) at built in ground arith)
  | inr patterns ↦ elim (Result-cases (discover_rds_devices a o cfg)) [
    | inr (e, bad) ↦
        (let wrong : err ("discover RDS devices: " <> e) ≡ ok (some spec) =
            rw (build_rds_spec, patterns, bad) at built in
          ground arith)
    | inl (devices, found) ↦
        let made : ok (generate_rds cfg (some (record no_result { devices = devices })))
            ≡ ok (some spec) =
          rw (build_rds_spec, patterns, found) at built in
        validate_spec-generate_rds cfg (some (record no_result { devices = devices })) spec
          (ground arith)
  ]
]

-- Only lenient mode goes on after an error.
rds_failed-done :
    (mode : ErrorMode) (e : String) (files : Dict String)
    → (rds_failed mode e files).error ≡ none
    → (mode ≡ lenient) × (rds_failed mode e files ≡ done_with files none)
rds_failed-done strict e files fine = ground arith
rds_failed-done lenient e files fine = (refl, refl)

module _ (a : Around) (o : Options) (cfg : Config) (elsewhere : String)
    (target : IsTarget a o.rds_output_path elsewhere) (removes : a.remove_error ≡ none)
    (asked : (o.rds_output_path == "") ≡ false) where
  pub emit_rds_spec-RdsLeft :
      (built : Result (Option Spec)) (files : Dict String)
      → build_rds_spec a o cfg ≡ built
      → (emit_rds_spec a o cfg files).error ≡ none
      → RdsLeft a o built files (emit_rds_spec a o cfg files).files
        × (lookup elsewhere (emit_rds_spec a o cfg files).files ≡ lookup elsewhere files)
  unfolding emit_rds_spec prune
  emit_rds_spec-RdsLeft (ok (some spec)) files built fine =
      let same : emit_rds_spec a o cfg files
          ≡ write_spec a "write RDS CDI spec: " spec o.rds_output_path (format_of o) files =
        rw (emit_rds_spec, asked, built) refl in
      subst
        (λ d.
          HoldsSpec a (format_of o) o.rds_output_path spec d.files
          × (lookup elsewhere d.files ≡ lookup elsewhere files))
        (sym same)
        (write_spec-HoldsSpec a "write RDS CDI spec: " o.rds_output_path elsewhere (format_of o)
          spec files target (build_rds_spec-valid a o cfg spec built)
          (sym (ap (λ d. d.error) same) ∙ fine))
  emit_rds_spec-RdsLeft (ok none) files built fine =
      let same : emit_rds_spec a o cfg files ≡ done_with (erase o.rds_output_path files) none =
        rw (emit_rds_spec, asked, built, prune, removes) refl in
      (
        ap (λ d. lookup o.rds_output_path d.files) same
            ∙ (lookup-erase o.rds_output_path o.rds_output_path files
                ∙ rw (eq_refl o.rds_output_path) refl),
        ap (λ d. lookup elsewhere d.files) same
            ∙ (lookup-erase o.rds_output_path elsewhere files
                ∙ ground (
                  arith,
                  eq_iff o.rds_output_path elsewhere,
                  target.different,
                  eq_iff elsewhere o.rds_output_path,
                )),
      )
  emit_rds_spec-RdsLeft (err e) files built fine =
      let same : emit_rds_spec a o cfg files ≡ rds_failed o.error_mode e files =
        rw (emit_rds_spec, asked, built) refl in
      let (mode, left) =
        rds_failed-done o.error_mode e files (sym (ap (λ d. d.error) same) ∙ fine) in
      (
        (mode, ap (λ d. lookup o.rds_output_path d.files) (same ∙ left)),
        ap (λ d. lookup elsewhere d.files) (same ∙ left),
      )

-- What is left is told from any files with the same at the path of the RDS spec.
pub RdsLeft-from :
    (a : Around) (o : Options) (built : Result (Option Spec)) (first before after : Dict String)
    → lookup o.rds_output_path before ≡ lookup o.rds_output_path first
    → RdsLeft a o built before after
    → RdsLeft a o built first after
RdsLeft-from a o (ok (some spec)) first before after same left = left
RdsLeft-from a o (ok none) first before after same left = left
RdsLeft-from a o (err e) first before after same left = (left.0, left.1 ∙ same)

pub and_then-done :
    (d : Done) (next : Dict String → Done)
    → (and_then d next).error ≡ none
    → (d.error ≡ none) × (and_then d next ≡ next d.files)
and_then-done d next fine = elim (Option-cases d.error) [
  | inl well ↦ (well, rw well refl)
  | inr (e, bad) ↦ (let wrong : some e ≡ none = rw bad at fine in ground arith)
]
