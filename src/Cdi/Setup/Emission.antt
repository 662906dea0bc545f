-- ===== src/Cdi/Setup/Emission.antt =====
-- internal/cdi/setup/setup.go: the writing of the specs.
use rbln_container_toolkit.Prelude.{
  String, ◌<>◌, Option, none, some, ◌==◌, string_eq, if◌then◌else◌,
}
use rbln_container_toolkit.Prelude.Dict.{Dict, erase}
use rbln_container_toolkit.Prelude.Results.{ok, err}
use rbln_container_toolkit.Config.{Config}
use rbln_container_toolkit.Cdi.Spec.{Spec}
use rbln_container_toolkit.Cdi.Writer.{write, write_to_writer, after_calls}
use rbln_container_toolkit.Cdi.Setup.{
  ErrorMode, strict, lenient, Options, Around, or_default_options, format_of, npu_spec,
  build_rds_spec,
}

-- The files after a call, and its error.
pub record Done : Type 0 where
  pub files : Dict String
  pub error : Option String

abbrev pub done_with : Dict String → Option String → Done
done_with files error = record { files = files; error = error }

-- A write of a spec, with its error behind a text.
unfoldable pub write_spec : Around → String → Spec → String → String → Dict String → Done
unfolding write after_calls
write_spec a what spec path format files =
    let wrote = write a.encoders (a.calls path) (some spec) path format in
    record {
      files = after_calls (a.calls path).temp_path path wrote.calls files;
      error = elim (wrote.error) [ none ↦ none | some e ↦ some (what <> e) ];
    }

-- Without an RDS device a spec of an earlier run is removed; an error of that is logged.
unfoldable pub prune : Around → String → Dict String → Done
unfolding erase
prune a path files = elim (a.remove_error) [
  | none ↦ done_with (erase path files) none
  | some e ↦ done_with files none
]

-- An error of the RDS spec, which only strict mode returns.
abbrev pub rds_failed : ErrorMode → String → Dict String → Done
rds_failed strict e files = done_with files (some e)
rds_failed lenient e files = done_with files none

-- `emitRDSSpec`
unfoldable pub emit_rds_spec : Around → Options → Config → Dict String → Done
unfolding build_rds_spec write_spec prune
emit_rds_spec a o cfg files =
    if o.rds_output_path == "" then done_with files none else elim (build_rds_spec a o cfg) [
      | err e ↦ rds_failed o.error_mode e files
      | ok none ↦ prune a o.rds_output_path files
      | ok (some spec) ↦
          write_spec a "write RDS CDI spec: " spec o.rds_output_path (format_of o) files
    ]

-- The rest of a function, unless the last call failed.
abbrev pub and_then : Done → (Dict String → Done) → Done
and_then d next = elim (d.error) [ none ↦ next d.files | some e ↦ d ]

-- The NPU spec is written unless there is no path for it.
unfoldable pub write_npu_spec : Around → Options → Spec → Dict String → Done
unfolding write_spec
write_npu_spec a o spec files =
    if o.output_path == ""
    then done_with files none
    else write_spec a "write CDI spec: " spec o.output_path (format_of o) files

-- `GenerateCDISpec` with its configuration.
unfoldable pub generate_for : Around → Options → Option Config → Dict String → Done
unfolding npu_spec write_npu_spec emit_rds_spec
generate_for a o none files = done_with files (some "config is required")
generate_for a o (some cfg) files = elim (npu_spec a o cfg) [
  | err e ↦ done_with files (some e)
  | ok spec ↦ and_then (write_npu_spec a o spec files) (emit_rds_spec a o cfg)
]

-- `GenerateCDISpec`
unfoldable pub generate_cdi_spec : Around → Option Options → Dict String → Done
unfolding generate_for
generate_cdi_spec a opts files =
    generate_for a (or_default_options opts) (or_default_options opts).config files

-- What `GenerateCDISpecToWriter` has written, and its error; a write to it does not fail.
pub record Shown : Type 0 where
  pub output : String
  pub error : Option String

abbrev pub shown : String → Option String → Shown
shown output error = record { output = output; error = error }

abbrev pub preview_failed : ErrorMode → String → String → Shown
preview_failed strict e output = shown output (some ("build RDS CDI spec: " <> e))
preview_failed lenient e output = shown output none

-- The RDS part of the preview, behind a separator of YAML documents.
unfoldable pub preview_rds : Around → Options → Config → String → Shown
unfolding build_rds_spec write_to_writer
preview_rds a o cfg output = elim (build_rds_spec a o cfg) [
  | err e ↦ preview_failed o.error_mode e output
  | ok none ↦ shown output none
  | ok (some spec) ↦ elim (write_to_writer a.encoders (some spec) (format_of o)) [
    | err e ↦ shown (output <> "---\n") (some ("write RDS CDI spec: " <> e))
    | ok text ↦ shown (output <> ("---\n" <> text)) none
  ]
]

-- `GenerateCDISpecToWriter`
unfoldable pub generate_cdi_spec_to_writer : Around → Option Options → Shown
unfolding npu_spec write_to_writer preview_rds
generate_cdi_spec_to_writer a opts =
    let o = or_default_options opts in
    elim (o.config) [
      | none ↦ shown "" (some "config is required")
      | some cfg ↦ elim (npu_spec a o cfg) [
        | err e ↦ shown "" (some e)
        | ok spec ↦ elim (write_to_writer a.encoders (some spec) (format_of o)) [
          | err e ↦ shown "" (some ("write CDI spec: " <> e))
          | ok text ↦ preview_rds a o cfg text
        ]
      ]
    ]
