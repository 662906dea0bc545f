-- ===== src/Installer.antt =====
-- internal/installer/setup.go and cleanup.go: `Setup` and `Cleanup`.
-- What the steps that touch the host answer is a `Site`; the steps taken are the result, in order,
-- together with the error. The PID lock is the one of Daemon/PidLock. Log lines are left out.
pub mod Steps
pub mod Plans
use rbln_container_toolkit.Prelude.{
  ℕ, String, ◌<>◌, Bool, true, false, ◌&&◌, ◌||◌, not, Option, none, some, List, [], ◌∷◌, ◌++◌,
  ◌==◌, string_eq, if◌then◌else◌,
}
use rbln_container_toolkit.Prelude.Int.{pos}
use rbln_container_toolkit.Prelude.Texts.{path_join, is_abs}
use rbln_container_toolkit.Restart.{
  Mode, Options, Outside, Restarter, Result, ok, err, restart_mode_signal, restart_mode_none,
  seconds, new_restarter, get_runtime_defaults, restart,
}

-- `SetupOptions`, and `CleanupOptions`, which has the same fields.
pub record InstallOptions : Type 0 where
  pub runtime : String
  pub restart_mode : Mode
  pub socket : String
  pub host_root_mount : String
  pub cdi_spec_dir : String
  pub config_path : String
  pub pid_file : String
  pub dry_run : Bool

pub data Step : Type 0 where
  lock unlock : String → Step
  configure : String → String → Step
  generate_specs : String → String → Step
  remove_spec : String → Option String → Step
  revert : String → String → Option String → Step
  restarts : Restarter → String → Step

-- The errors of the steps. `Cleanup` only logs those of removing and of reverting, which its steps carry.
pub record Site : Type 0 where
  pub lock_error : Option String
  pub configure_error : String → String → Option String
  pub generate_error : String → String → Option String
  pub remove_error : String → Option String
  pub revert_error : String → String → Option String
  pub outside : Outside

pub data InstallError : Type 0 where
  text : String → InstallError
  restart_failed : String → String → String → InstallError

-- `validateConfigPathOverride`
unfoldable pub validate_config_path_override : String → Option InstallError
unfolding is_abs
validate_config_path_override path =
    if path == ""
    then none
    else if is_abs path
    then none
    else some (text ("config path override must be absolute: \"" <> (path <> "\"")))

-- `getConfigPath`
unfoldable pub get_config_path : String → String → String → String
unfolding path_join
get_config_path runtime host_root_mount override =
    let config_path =
      if runtime == "docker"
      then "/etc/docker/daemon.json"
      else if runtime == "containerd"
      then "/etc/containerd/config.toml"
      else if runtime == "crio"
      then "/etc/crio/crio.conf.d/99-rbln.conf"
      else "/etc/" <> (runtime <> "/config") in
    if not (override == "")
    then override
    else if not (host_root_mount == "")
    then path_join (host_root_mount ∷ config_path ∷ [])
    else config_path

-- The runtimes that `configureRuntime` and `revertRuntimeConfig` know.
abbrev pub is_supported : String → Bool
is_supported runtime = runtime == "docker" || (runtime == "containerd" || runtime == "crio")

-- What `Setup` and `Cleanup` work out first.
pub record Plan : Type 0 where
  pub mode : Mode
  pub config_path : String
  pub socket_path : String
  pub cdi_spec_dir : String

-- The options with the runtime's defaults filled in.
abbrev pub fill : InstallOptions → InstallOptions
fill o = record o {
  restart_mode =
      if o.restart_mode == "" then (get_runtime_defaults o.runtime).mode else o.restart_mode;
  socket = if o.socket == "" then (get_runtime_defaults o.runtime).socket else o.socket;
}

abbrev pub plan_of : InstallOptions → Plan
plan_of o = record {
  mode = o.restart_mode;
  config_path = get_config_path o.runtime o.host_root_mount o.config_path;
  socket_path =
      if not (o.host_root_mount == "") && o.socket == ""
      then path_join (o.host_root_mount ∷ o.socket ∷ [])
      else o.socket;
  cdi_spec_dir =
      if o.host_root_mount == ""
      then o.cdi_spec_dir
      else path_join (o.host_root_mount ∷ o.cdi_spec_dir ∷ []);
}

pub data Planned : Type 0 where
  refused : InstallError → Planned
  planned : Plan → Planned

-- The start of `Setup` and of `Cleanup`, with the options filled in. `socketUserProvided` looks at
-- the socket that was filled in.
unfoldable pub make_plan : InstallOptions → Planned
make_plan o =
    if o.runtime == "crio" && o.restart_mode == restart_mode_signal
    then refused (text "signal restart mode is not supported for CRI-O, use systemd or none")
    else elim (validate_config_path_override o.config_path) [
      | some e ↦ refused e
      | none ↦ planned (plan_of o)
    ]

-- The steps taken, and the error returned.
pub record Done : Type 0 where
  pub steps : List Step
  pub error : Option InstallError

abbrev pub restart_options : InstallOptions → Plan → Options
restart_options o p = record {
  mode = p.mode;
  socket = p.socket_path;
  host_root_mount = o.host_root_mount;
  max_retries = pos 3;
  retry_backoff = seconds 5;
  timeout = seconds 30;
}

-- A dry run takes no step; `NewRestarter` may refuse the options.
unfoldable pub dry_run_error : InstallOptions → Plan → Option InstallError
dry_run_error o p =
    if p.mode == restart_mode_none
    then none
    else elim (new_restarter (record (restart_options o p) {
      max_retries = pos 0;
      retry_backoff = pos 0;
      timeout = pos 0;
    })) [ ok r ↦ none | err e ↦ some (text e) ]

-- Step 3 of `Setup` and of `Cleanup`.
unfoldable pub restart_step : Site → InstallOptions → Plan → Done
restart_step site o p =
    if p.mode == restart_mode_none
    then record { steps = []; error = none }
    else elim (new_restarter (restart_options o p)) [
      | err e ↦ record { steps = []; error = some (text ("failed to create restarter: " <> e)) }
      | ok r ↦ record {
        steps = restarts r o.runtime ∷ [];
        error = elim (restart site.outside r o.runtime).error [
          | none ↦ none
          | some e ↦ some (restart_failed o.runtime (get_runtime_defaults o.runtime).service e)
        ];
      }
    ]

-- The steps of `configureRuntime`, and its error.
unfoldable pub configure_runtime : Site → String → String → Option String
configure_runtime site runtime path =
    if is_supported runtime
    then site.configure_error runtime path
    else some ("unsupported runtime: " <> runtime)

-- The writes of `configureRuntime` and of `revertRuntimeConfig`, for a runtime that they know.
unfoldable pub configured : String → String → List Step
configured runtime path = if is_supported runtime then configure runtime path ∷ [] else []

unfoldable pub reverted : Site → String → String → List Step
reverted site runtime path =
    if is_supported runtime then revert runtime path (site.revert_error runtime path) ∷ [] else []

-- `removeCDISpec`
abbrev pub removed : Site → String → Step
removed site path = remove_spec path (site.remove_error path)

-- `Setup` from the lock on.
unfoldable pub setup_locked : Site → InstallOptions → Plan → Done
setup_locked site o p = elim (configure_runtime site o.runtime p.config_path) [
  | some e ↦ record {
    steps = configured o.runtime p.config_path;
    error = some (text ("failed to configure " <> (o.runtime <> (": " <> e))));
  }
  | none ↦ elim (site.generate_error p.cdi_spec_dir o.host_root_mount) [
    | some e ↦ record {
      steps =
          configured o.runtime p.config_path
          ++ (generate_specs p.cdi_spec_dir o.host_root_mount ∷ []);
      error = some (text ("failed to generate CDI spec: " <> e));
    }
    | none ↦
        let r = restart_step site o p in
        record r {
          steps =
              configured o.runtime p.config_path
              ++ (generate_specs p.cdi_spec_dir o.host_root_mount ∷ r.steps);
        }
  ]
]

-- `Cleanup` from the lock on: the errors of removing and of reverting are only logged.
unfoldable pub cleanup_locked : Site → InstallOptions → Plan → Done
unfolding path_join
cleanup_locked site o p =
    let r = restart_step site o p in
    record r {
      steps =
          removed site (path_join (p.cdi_spec_dir ∷ "rbln.yaml" ∷ []))
          ∷ removed site (path_join (p.cdi_spec_dir ∷ "rbln-rds.yaml" ∷ []))
          ∷ (reverted site o.runtime p.config_path ++ r.steps);
    }

-- The lock around the steps, and its deferred release.
unfoldable pub with_lock : Site → String → Done → Done
with_lock site pid_file d = elim site.lock_error [
  | some e ↦ record { steps = []; error = some (text e) }
  | none ↦ record d { steps = lock pid_file ∷ (d.steps ++ (unlock pid_file ∷ [])) }
]

-- What `Setup` and `Cleanup` share.
unfoldable pub guarded : Site → InstallOptions → (Plan → Done) → Done
guarded site o body = elim (make_plan o) [
  | refused e ↦ record { steps = []; error = some e }
  | planned p ↦
      if o.dry_run
      then record { steps = []; error = dry_run_error o p }
      else with_lock site o.pid_file (body p)
]

-- `Setup`
unfoldable pub setup : Site → InstallOptions → Done
setup site o = guarded site (fill o) (setup_locked site (fill o))

-- `Cleanup`
unfoldable pub cleanup : Site → InstallOptions → Done
cleanup site o = guarded site (fill o) (cleanup_locked site (fill o))
