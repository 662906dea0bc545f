-- ===== src/Command/Setup.antt =====
-- cmd/rbln-ctk-daemon/root.go: what the daemon sets up before it runs, and what it removes at its end.
-- The specs, the configuration of the runtime and the hook binary are stores of their own.
pub mod Again
use rbln_container_toolkit.Prelude.{
  ℕ, String, ◌<>◌, Bool, true, false, not, ◌&&◌, ◌||◌, Option, none, some, List, [], ◌∷◌, ◌++◌,
  if◌then◌else◌, ◌==◌, string_eq,
}
use rbln_container_toolkit.Prelude.Texts.{path_join}
use rbln_container_toolkit.Prelude.Int.{pos}
use rbln_container_toolkit.Prelude.Dict.{Dict, erase}
use rbln_container_toolkit.Prelude.Results.{Result, ok, err}
use rbln_container_toolkit.Config.{Config}
use rbln_container_toolkit.Cdi.Setup.{Options, Around, lenient, default_setup_options}
use rbln_container_toolkit.Cdi.Setup.Emission.{Done, done_with, generate_cdi_spec}
use rbln_container_toolkit.Restart.{
  Outside, Outcome, Restarter, Options as RestartOptions, seconds, new_restarter,
  get_runtime_defaults, restart,
}
use rbln_container_toolkit.Runtime.Disk.{
  Disk, Ended, ended, Found, stat, Read, read, write, mkdir_all, then_on,
}
use rbln_container_toolkit.Runtime.Document.{Codec}
use rbln_container_toolkit.Runtime.Configurator.{
  Configurator, cdi_ready, new_configurator, configure,
}
use rbln_container_toolkit.Command.Paths.{refresh_config, resolve_config_path}

-- What a daemon is started with.
pub record Arguments : Type 0 where
  pub runtime : String
  pub cdi_dir : String
  pub host_root : String
  pub driver_root : String
  pub container_library_path : String
  pub socket_path : String
  pub config_path : String

-- What the setup reaches outside: the generator's surroundings, `LoadDefault`, the error of making the
-- directory of the specs, the codecs, the commands that tell a version, and the restart. `copied` is how
-- far the copy of the hook comes and its error, where it fails.
pub record World : Type 0 where
  pub around : Around
  pub loaded : Config
  pub mkdir_error : Option String
  pub toml : Codec
  pub json : Codec
  pub runs : String × List String → Result String
  pub outside : Outside
  pub copied : Option (String × String)

-- `restarts` are the restarts of the runtime with their outcomes.
pub record Machine : Type 0 where
  pub specs : Dict String
  pub disk : Disk
  pub binaries : Disk
  pub restarts : List Outcome

-- A machine and the error of a function.
pub record After : Type 0 where
  pub machine : Machine
  pub error : Option String

abbrev pub after : Machine → Option String → After
after machine error = record { machine = machine; error = error }

-- Specs, as the daemon names them.
abbrev pub spec_path : String → String
spec_path cdi_dir = cdi_dir <> "/rbln.yaml"

abbrev pub rds_spec_path : String → String
rds_spec_path cdi_dir = cdi_dir <> "/rbln-rds.yaml"

-- `regenerateCDISpec`
unfoldable pub regenerate_cdi_spec : World → Arguments → Dict String → Done
unfolding refresh_config generate_cdi_spec
regenerate_cdi_spec w a specs =
    let options : Options = record default_setup_options {
      config =
          some
            (refresh_config a.runtime a.host_root a.driver_root a.container_library_path w.loaded);
      output_path = spec_path a.cdi_dir;
      rds_output_path = rds_spec_path a.cdi_dir;
      format = "yaml";
      error_mode = lenient;
    } in
    elim (w.mkdir_error) [
      | some e ↦ done_with specs (some ("create CDI dir: " <> e))
      | none ↦
          let made = generate_cdi_spec w.around (some options) specs in
          elim (made.error) [
            | none ↦ made
            | some e ↦ done_with made.files (some ("generate CDI spec: " <> e))
          ]
    ]

-- The first of the two paths that is there.
abbrev is_there : Found → Bool
is_there Found.missing = false
is_there (Found.denied e) = false
is_there _ = true

unfoldable pub hook_source : Disk → Option String
unfolding stat
hook_source d =
    if is_there (stat d "/usr/local/bin/rbln-cdi-hook")
    then some "/usr/local/bin/rbln-cdi-hook"
    else if is_there (stat d "/usr/bin/rbln-cdi-hook")
    then some "/usr/bin/rbln-cdi-hook"
    else none

-- The copy: the target is opened and cut, and what is read of the source is written.
unfoldable pub copy_to : World → String → String → Disk → Ended
unfolding write
copy_to w text dest d = elim (w.copied) [
  | none ↦ then_on (write d dest text) "create dest: " (λ d. ended d none)
  | some (part, e) ↦
      then_on (write d dest part) "create dest: " (λ d. ended d (some ("copy: " <> e)))
]

abbrev text_of : Read → Result String
text_of Read.absent = err "no such file or directory"
text_of (Read.failed e) = err e
text_of (Read.content c) = ok c

-- `installHookBinary`
unfoldable pub install_hook_binary : World → String → Disk → Ended
unfolding hook_source path_join mkdir_all read copy_to
install_hook_binary w host_root d =
    let folder = path_join (host_root ∷ "usr" ∷ "local" ∷ "bin" ∷ []) in
    elim (hook_source d) [
      | none ↦ ended d (some "hook binary not found")
      | some source ↦ then_on (mkdir_all d folder) "create dest dir: " λ d.
          elim (text_of (read d source)) [
            | err e ↦ ended d (some ("open source: " <> e))
            | ok text ↦ copy_to w text (path_join (folder ∷ "rbln-cdi-hook" ∷ [])) d
          ]
    ]

-- The options of the restart: the socket that is given, or the runtime's own below the host's root.
unfoldable pub restart_options : Arguments → RestartOptions
unfolding get_runtime_defaults path_join
restart_options a =
    let defaults = get_runtime_defaults a.runtime in
    let socket =
      if not (a.socket_path == "")
      then a.socket_path
      else if not (a.host_root == "") && not (a.host_root == "/")
      then path_join (a.host_root ∷ defaults.socket ∷ [])
      else defaults.socket in
    record {
      mode = defaults.mode;
      socket = socket;
      host_root_mount = a.host_root;
      max_retries = pos 3;
      retry_backoff = seconds 5;
      timeout = seconds 30;
    }

-- The restart behind a configuration; its error is only logged.
unfoldable pub restarted : World → Arguments → Machine → Result Restarter → After
unfolding restart
restarted w a m (err e) = after m (some ("create restarter: " <> e))
restarted w a m (ok restarter) =
    after (record m { restarts = m.restarts ++ restart w.outside restarter a.runtime ∷ [] }) none

unfoldable pub restart_runtime : World → Arguments → Machine → After
unfolding restart_options new_restarter restarted
restart_runtime w a m = restarted w a m (new_restarter (restart_options a))

-- The restart, unless the configuration has failed.
abbrev pub restart_if : World → Arguments → Machine → Disk → Option String → After
restart_if w a m disk (some e) =
    after (record m { disk = disk }) (some ("configure runtime: " <> e))
restart_if w a m disk none = restart_runtime w a (record m { disk = disk })

abbrev pub restart_after : World → Arguments → Machine → Ended → After
restart_after w a m done = restart_if w a m done.disk done.error

abbrev pub configured : World → Arguments → Machine → Result Configurator → After
configured w a m (err e) = after m (some ("create configurator: " <> e))
configured w a m (ok c) = restart_after w a m (configure w.toml w.json c m.disk)

-- The configuration of a runtime that is not ready.
unfoldable pub configure_runtime : World → Arguments → String → Machine → After
unfolding new_configurator
configure_runtime w a path m = configured w a m (new_configurator a.runtime path none)

-- The guard: a runtime that is ready is neither configured nor restarted.
abbrev pub unless_ready : World → Arguments → String → Machine → Result Bool → After
unless_ready w a path m (ok true) = after m none
unless_ready w a path m (ok false) = configure_runtime w a path m
unless_ready w a path m (err e) = configure_runtime w a path m

unfoldable pub enable_cdi_for : World → Arguments → Machine → After
unfolding resolve_config_path cdi_ready configure_runtime
enable_cdi_for w a m =
    let path = resolve_config_path a.runtime a.host_root a.config_path in
    unless_ready w a path m (cdi_ready w.toml w.json w.runs a.runtime m.disk path a.host_root)

-- The hook is installed on a host that is mounted; its error is only logged.
unfoldable pub with_hook : World → Arguments → Machine → Machine
unfolding install_hook_binary
with_hook w a m =
    if not (a.host_root == "/") && not (a.host_root == "")
    then record m { binaries = (install_hook_binary w a.host_root m.binaries).disk }
    else m

-- The runtime is configured unless the specs have failed.
abbrev pub enable_if : World → Arguments → Machine → Option String → After
enable_if w a m (some e) = after m (some e)
enable_if w a m none = enable_cdi_for w a m

abbrev pub runtime_after : World → Arguments → Machine → Done → After
runtime_after w a m made = enable_if w a (record m { specs = made.files }) made.error

-- `setup`
unfoldable pub setup : World → Arguments → Machine → After
unfolding with_hook regenerate_cdi_spec enable_cdi_for
setup w a m =
    let hooked = with_hook w a m in runtime_after w a hooked (regenerate_cdi_spec w a hooked.specs)

-- `os.Remove` with an error that is only logged.
unfoldable pub try_remove : Option String → String → Dict String → Dict String
unfolding erase
try_remove none path files = erase path files
try_remove (some e) path files = files

-- `doCleanup`, with the errors of the two removals; it never fails.
unfoldable pub do_cleanup : Option String → Option String → String → Dict String → Done
unfolding try_remove
do_cleanup spec_error rds_error cdi_dir specs =
    done_with
      (try_remove rds_error (rds_spec_path cdi_dir)
        (try_remove spec_error (spec_path cdi_dir) specs))
      none
