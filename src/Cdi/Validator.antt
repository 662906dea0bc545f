-- ===== src/Cdi/Validator.antt =====
-- internal/cdi/validator.go. The YAML decoder is a parameter.
pub mod Names
pub mod Generated
use rbln_container_toolkit.Prelude.{
  ℕ, suc, ◌+◌, String, ◌<>◌, Bool, Option, none, some, List, [], ◌∷◌, ◌==◌, string_eq,
  if◌then◌else◌, decimal,
}
use rbln_container_toolkit.Prelude.Texts.{contains_text}
use rbln_container_toolkit.Prelude.Results.{Result, ok, err}
use rbln_container_toolkit.Cdi.Spec.{Entry, Spec}

-- `errors.ErrInvalidCDISpec`, as it is wrapped.
abbrev pub invalid : String → String
invalid what = what <> ": invalid CDI specification"

-- The loop over the devices, from a number.
unfoldable pub check_names : ℕ → List Entry → Option String
unfolding decimal
check_names i [] = none
check_names i (d ∷ devices) =
    let rest = check_names (i + 1) devices in
    if d.name == "" then some (invalid ("device " <> (decimal i <> " has empty name"))) else rest

-- `Validate`
unfoldable pub validate_spec : Option Spec → Option String
unfolding check_names contains_text
validate_spec none = some (invalid "spec is nil")
validate_spec (some spec) =
    if spec.version == ""
    then some (invalid "missing cdiVersion")
    else if contains_text spec.kind "/"
    then check_names 0 spec.devices
    else some (invalid "invalid kind format (expected vendor/class)")

-- The file of a spec, as `os.ReadFile` answers.
pub data SpecFile : Type 0 where
  not_found : SpecFile
  unreadable : String → SpecFile
  holds : String → SpecFile

-- `ValidateFile`; `decode` is `yaml.Unmarshal`.
unfoldable pub validate_file : (String → Result Spec) → (String → SpecFile) → String → Option String
unfolding validate_spec
validate_file decode files path = elim (files path) [
  | not_found ↦ some ("spec file not found: " <> (path <> ": file not found"))
  | unreadable e ↦ some ("read spec file: " <> e)
  | holds text ↦ elim (decode text) [
    | err e ↦ some (invalid "parse spec file")
    | ok spec ↦ validate_spec (some spec)
  ]
]
