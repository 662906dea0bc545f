-- ===== src/Command/Configure.antt =====
-- cmd/rbln-ctk/runtime.go: `rbln-ctk runtime configure`.
pub mod Consent
use rbln_container_toolkit.Prelude.{
  String, ◌<>◌, Bool, true, false, not, ◌&&◌, ◌||◌, Option, none, some, List, [], ◌∷◌, ◌++◌,
  if◌then◌else◌, ◌==◌, string_eq,
}
use rbln_container_toolkit.Prelude.Spaces.{trim_space}
use rbln_container_toolkit.Prelude.Results.{Result, ok, err}
use rbln_container_toolkit.Runtime.Disk.{Disk, Ended}
use rbln_container_toolkit.Runtime.Document.{Codec}
use rbln_container_toolkit.Runtime.Detect.{runtime_containerd, runtime_crio, runtime_docker}
use rbln_container_toolkit.Runtime.Configurator.{
  Configurator, new_configurator, default_config_path, configure, dry_run,
}

-- `runtimeConfigureOptions`
pub record Request : Type 0 where
  pub runtime_type : String
  pub config_path : String
  pub cdi_enabled : Bool
  pub dry_run : Bool
  pub skip_confirm : Bool
  pub quiet : Bool

-- What the command reaches: the codecs, the detection of the runtime, the line that is read from the
-- standard input, and `strings.ToLower`.
pub record Terminal : Type 0 where
  pub toml : Codec
  pub json : Codec
  pub detected : Result String
  pub answer : Result String
  pub lower : String → String

-- The disk after the command, what it printed, and its error.
pub record Ran : Type 0 where
  pub disk : Disk
  pub output : String
  pub error : Option String

abbrev pub ran : Disk → String → Option String → Ran
ran disk output error = record { disk = disk; output = output; error = error }

abbrev is_supported : String → Bool
is_supported runtime =
    runtime == runtime_containerd || (runtime == runtime_crio || runtime == runtime_docker)

-- The runtime, and what is printed about it.
unfoldable pub chosen_runtime : Terminal → Request → Result (String × String)
chosen_runtime t r =
    if not (r.runtime_type == "")
    then (if is_supported r.runtime_type
        then ok (r.runtime_type, "")
        else err (
            "unsupported runtime: "
            <> (r.runtime_type <> " (supported: containerd, crio, docker)")))
    else elim (t.detected) [
      | err e ↦ err ("detect runtime: " <> (e <> " (specify --runtime manually)"))
      | ok runtime ↦ ok (runtime, if r.quiet then "" else "Detected runtime: " <> (runtime <> "\n"))
    ]

-- The path of the configuration.
unfoldable pub chosen_path : Request → String → String
unfolding default_config_path
chosen_path r runtime = if r.config_path == "" then default_config_path runtime else r.config_path

-- The line that was read says yes.
unfoldable pub says_yes : Terminal → String → Bool
unfolding trim_space
says_yes t line = let response = trim_space (t.lower line) in response == "y" || response == "yes"

abbrev how_to_restart : String → String
how_to_restart runtime =
    if runtime == runtime_containerd
    then "  sudo systemctl restart containerd\n"
    else if runtime == runtime_crio
    then "  sudo systemctl restart crio\n"
    else if runtime == runtime_docker
    then "  sudo systemctl restart docker\n"
    else ""

abbrev report : Request → String → String → String
report r runtime path =
    if r.quiet
    then ""
    else "Runtime "
      <> (runtime
          <> (" configured for CDI support\nConfig file: "
              <> (path
                  <> ("\nBackup created: "
                      <> (path
                          <> (".backup\n\nRestart the runtime to apply changes:\n"
                              <> how_to_restart runtime))))))

-- The configuration, behind the questions.
abbrev pub configured_as : Request → String → String → String → Disk → Option String → Ran
configured_as r runtime path printed disk (some e) =
    ran disk printed (some ("configure runtime: " <> e))
configured_as r runtime path printed disk none = ran disk (printed <> report r runtime path) none

unfoldable pub configure_now :
    Terminal → Request → String → String → String → Configurator → Disk → Ran
unfolding configure
configure_now t r runtime path printed c d =
    let done = configure t.toml t.json c d in
    configured_as r runtime path printed done.disk done.error

-- What follows the answer.
abbrev pub answered :
    Terminal → Request → String → String → String → Configurator → Disk → Result String → Ran
answered t r runtime path asked c d (err e) = ran d asked (some ("failed to read input: " <> e))
answered t r runtime path asked c d (ok line) =
    if says_yes t line
    then configure_now t r runtime path asked c d
    else ran d (asked <> "Aborted.\n") none

-- The question, unless it is skipped.
unfoldable pub ask_first : Terminal → Request → String → String → String → Configurator → Disk → Ran
unfolding says_yes configure_now
ask_first t r runtime path printed c d =
    let asked = printed <> ("This will modify " <> (path <> ". Continue? [y/N] ")) in
    if r.skip_confirm || r.quiet
    then configure_now t r runtime path printed c d
    else answered t r runtime path asked c d t.answer

abbrev pub preview : Disk → String → Result String → Ran
preview d printed (err e) = ran d printed (some ("dry run: " <> e))
preview d printed (ok diff) =
    ran d (printed <> ("Changes that would be made:\n" <> (diff <> "\n"))) none

abbrev pub with_configurator :
    Terminal → Request → String → String → String → Disk → Result Configurator → Ran
with_configurator t r runtime path printed d (err e) =
    ran d printed (some ("create configurator: " <> e))
with_configurator t r runtime path printed d (ok c) =
    if r.dry_run
    then preview d printed (dry_run t.toml t.json c d)
    else ask_first t r runtime path printed c d

-- With the runtime and what is printed about it.
unfoldable pub configure_chosen : Terminal → Request → Disk → Result (String × String) → Ran
unfolding chosen_path new_configurator dry_run ask_first
configure_chosen t r d (err e) = ran d "" (some e)
configure_chosen t r d (ok (runtime, printed)) =
    let path = chosen_path r runtime in
    with_configurator t r runtime path printed d
      (new_configurator runtime path (some r.cdi_enabled))

-- `executeRuntimeConfigure`
unfoldable pub execute_runtime_configure : Terminal → Request → Disk → Ran
unfolding chosen_runtime configure_chosen
execute_runtime_configure t r d = configure_chosen t r d (chosen_runtime t r)
