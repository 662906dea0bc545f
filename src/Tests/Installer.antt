-- ===== src/Tests/Installer.antt =====
-- The theorems about internal/installer and internal/restart at concrete inputs.
use rbln_container_toolkit.Prelude.{
  ℕ, ◌+◌, ◌≡◌, ◌≢◌, refl, ◌⊎◌, false, none, ◌==◌, nat_eq, if◌then◌else◌,
}
use rbln_container_toolkit.Restart.{
  Outside, ok, err, signal, SignalRestarter, Options, default_options, seconds, succeeded,
  new_restarter, get_runtime_defaults, restart, signal_loop, attempt,
}
use rbln_container_toolkit.Restart.Retries.{IsFirst, Outlasted, restart-retries}
use rbln_container_toolkit.Installer.{
  InstallOptions, Site, Plan, planned, fill, plan_of, make_plan, setup, restart_step,
  validate_config_path_override, guarded, setup_locked, configure_runtime, with_lock,
  get_config_path,
}
use rbln_container_toolkit.Installer.Steps.{IsSetUp, setup-IsSetUp}
use rbln_container_toolkit.Installer.Plans.{make_plan-socket}

-- The process is found at the second attempt.
abbrev pub outside : Outside
outside = record {
  get_pid = λ i. if i == 0 then err "connection refused" else ok 4711;
  kill = λ i pid. none;
  command = λ args. succeeded;
  duration_text = λ d. "30s";
}

abbrev options : Options
options = record default_options { socket = "/run/containerd/containerd.sock" }

abbrev restarter : SignalRestarter
restarter = record {
  socket = "/run/containerd/containerd.sock";
  max_retries = 3;
  backoff = seconds 5;
}

made_restarter : new_restarter options ≡ ok (signal restarter)
unfolding new_restarter
made_restarter = refl

restart-retries_example :
    let o = restart outside (signal restarter) "containerd" in
    ((k : ℕ) × IsFirst outside 0 3 k × (o.error ≡ none) × (o.sleeps ≡ k))
    ⊎ (Outlasted outside 0 3 × (o.error ≢ none) × (o.sleeps + 1 ≡ 3))
restart-retries_example = restart-retries outside options restarter "containerd" made_restarter

abbrev site : Site
site = record {
  lock_error = none;
  configure_error = λ runtime path. none;
  generate_error = λ dir root. none;
  remove_error = λ path. none;
  revert_error = λ runtime path. none;
  outside = outside;
}

abbrev install : InstallOptions
install = record {
  runtime = "containerd";
  restart_mode = "";
  socket = "";
  host_root_mount = "/host";
  cdi_spec_dir = "/var/run/cdi";
  config_path = "";
  pid_file = "/run/rbln/toolkit.pid";
  dry_run = false;
}

setup_fine : (setup site install).error ≡ none
unfolding setup guarded make_plan validate_config_path_override with_lock setup_locked
    configure_runtime restart_step new_restarter restart get_runtime_defaults get_config_path
    signal_loop attempt
setup_fine = refl

setup-IsSetUp_example : (p : Plan) × IsSetUp site install p
setup-IsSetUp_example = setup-IsSetUp site install refl setup_fine

abbrev crio_install : InstallOptions
crio_install = record install { runtime = "crio" }

crio_planned : make_plan (fill crio_install) ≡ planned (plan_of (fill crio_install))
unfolding make_plan validate_config_path_override get_runtime_defaults
crio_planned = refl

make_plan-socket_example :
    (plan_of (fill crio_install)).socket_path ≡ (get_runtime_defaults "crio").socket
make_plan-socket_example =
    make_plan-socket crio_install (plan_of (fill crio_install)) refl refl crio_planned
