-- ===== src/Config/Loader/Priority.antt =====
-- The order of internal/config/loader.go: options, environment, file, defaults.
use rbln_container_toolkit.Prelude.{
  String, ◌≡◌, refl, sym, ap, ◌∙◌, inl, inr, List, [], ◌∷◌, string_eq, arith,
}
use rbln_container_toolkit.Prelude.Results.{ok, err, Result-cases, ok-injective}
use rbln_container_toolkit.Config.{Config}
use rbln_container_toolkit.Config.Loader.{
  Surroundings, Setting, with_driver_root, with_output_path, with_format, or_given, apply,
  apply_all, resolve_config_path, from_file, apply_env_vars, finished, load,
}

or_given_assoc : (a b c : String) → or_given (or_given a b) c ≡ or_given a (or_given b c)
or_given_assoc a b c = ground arith

-- The text that a setting gives for a field; "" is none.
abbrev pub root_given : Setting → String
root_given (with_driver_root root) = root
root_given _ = ""

abbrev pub output_given : Setting → String
output_given (with_output_path path) = path
output_given _ = ""

abbrev pub format_given : Setting → String
format_given (with_format format) = format
format_given _ = ""

-- The last text that the settings give.
abbrev pub last_given : (Setting → String) → List Setting → String
last_given given [] = ""
last_given given (setting ∷ settings) = or_given (last_given given settings) (given setting)

-- A field that a setting sets to what it gives, and leaves alone otherwise.
apply_all-field :
    (field : Config → String) (given : Setting → String)
    → ((setting : Setting) (c : Config)
        → field (apply setting c) ≡ or_given (given setting) (field c))
    → (settings : List Setting) (c : Config)
    → field (apply_all settings c) ≡ or_given (last_given given settings) (field c)
unfolding apply_all
apply_all-field field given sets [] c = refl
apply_all-field field given sets (setting ∷ settings) c =
    apply_all-field field given sets settings (apply setting c)
    ∙ ap (or_given (last_given given settings)) (sets setting c)
    ∙ sym (or_given_assoc (last_given given settings) (given setting) (field c))

apply-root :
    (setting : Setting) (c : Config)
    → (apply setting c).driver_root ≡ or_given (root_given setting) c.driver_root
unfolding apply
apply-root setting c =
    elim setting as (λ s. (apply s c).driver_root ≡ or_given (root_given s) c.driver_root) [
      | with_driver_root given ↦ refl
      | _ ↦ refl
    ]

apply-output :
    (setting : Setting) (c : Config)
    → (apply setting c).cdi.output_path ≡ or_given (output_given setting) c.cdi.output_path
unfolding apply
apply-output setting c =
    elim setting
      as (λ s. (apply s c).cdi.output_path ≡ or_given (output_given s) c.cdi.output_path) [
        | with_output_path given ↦ refl
        | _ ↦ refl
      ]

apply-format :
    (setting : Setting) (c : Config)
    → (apply setting c).cdi.format ≡ or_given (format_given setting) c.cdi.format
unfolding apply
apply-format setting c =
    elim setting as (λ s. (apply s c).cdi.format ≡ or_given (format_given s) c.cdi.format) [
      | with_format given ↦ refl
      | _ ↦ refl
    ]

-- A configuration that is loaded has, for the driver root, the output path and the format, the last text
-- that the options give; where they give none, that of the environment; where it has none, that of the
-- file, or of the defaults where there is no file.
pub load-priority :
    (w : Surroundings) (config_file : String) (settings : List Setting) (c : Config)
    → load w config_file settings ≡ ok c
    → (base : Config) × (from_file w (resolve_config_path w config_file) ≡ ok base)
      × (c.driver_root
          ≡ or_given
              (last_given root_given settings)
              (or_given (w.getenv "RBLN_DRIVER_ROOT") base.driver_root))
      × (c.cdi.output_path
          ≡ or_given
              (last_given output_given settings)
              (or_given (w.getenv "RBLN_CDI_OUTPUT") base.cdi.output_path))
      × (c.cdi.format
          ≡ or_given
              (last_given format_given settings)
              (or_given (w.getenv "RBLN_CDI_FORMAT") base.cdi.format))
unfolding load apply_env_vars
load-priority w config_file settings c h =
    elim (Result-cases (from_file w (resolve_config_path w config_file))) [
      | inr (e, failed) ↦ absurd (
          let bad : err e ≡ ok c = sym (ap (finished w settings) failed) ∙ h in ground (arith, bad))
      | inl (base, read) ↦
          let made : ok (apply_all settings (apply_env_vars w base)) ≡ ok c =
            sym (ap (finished w settings) read) ∙ h in
          let same : apply_all settings (apply_env_vars w base) ≡ c = ok-injective _ _ made in
          let env = apply_env_vars w base in
          (
            base,
            read,
            ap (λ t. t.driver_root) (sym same)
                ∙ apply_all-field (λ t. t.driver_root) root_given apply-root settings env,
            ap (λ t. t.cdi.output_path) (sym same)
                ∙ apply_all-field (λ t. t.cdi.output_path) output_given apply-output settings env,
            ap (λ t. t.cdi.format) (sym same)
                ∙ apply_all-field (λ t. t.cdi.format) format_given apply-format settings env,
          )
    ]
