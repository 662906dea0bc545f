-- ===== src/Command/Flags.antt =====
-- cmd/rbln-ctk-daemon/runtime.go, docker.go, containerd.go and crio.go: the options of the `runtime`
-- commands, from the flags and the environment.
use rbln_container_toolkit.Prelude.{String, ◌≡◌, refl, Bool, false, if◌then◌else◌, ◌==◌, string_eq}
use rbln_container_toolkit.Prelude.Results.{Result, ok, err}
use rbln_container_toolkit.Restart.{Mode, restart_mode_signal, restart_mode_systemd}
use rbln_container_toolkit.Installer.{InstallOptions}

-- The flags, with the defaults of `newRuntimeCmd` where none is given.
pub record Flags : Type 0 where
  pub restart_mode : String
  pub host_root_mount : String
  pub socket_path : String
  pub cdi_spec_dir : String
  pub runtime_cfg_path : String
  pub pid_file : String
  pub dry_run : Bool

abbrev pub no_flags : Flags
no_flags = record {
  restart_mode = "";
  host_root_mount = "";
  socket_path = "";
  cdi_spec_dir = "/var/run/cdi";
  runtime_cfg_path = "";
  pid_file = "/run/rbln/toolkit.pid";
  dry_run = false;
}

abbrev or_else : String → String → String
or_else given other = if given == "" then other else given

-- `viper` is `viper.GetString`, "" where a key has no value.
module _ (flags : Flags) (viper : String → String) where
  unfoldable pub get_effective_restart_mode : String
  get_effective_restart_mode = or_else flags.restart_mode (viper "restart_mode")

  unfoldable pub get_effective_socket : String
  get_effective_socket = or_else flags.socket_path (viper "socket")

  unfoldable pub get_effective_host_root_mount : String
  get_effective_host_root_mount = or_else flags.host_root_mount (viper "host_root_mount")

  unfoldable pub get_effective_cdi_spec_dir : String
  get_effective_cdi_spec_dir =
      or_else flags.cdi_spec_dir (or_else (viper "cdi_spec_dir") "/var/run/cdi")

  unfoldable pub get_effective_config_path : String
  get_effective_config_path = or_else flags.runtime_cfg_path (viper "config_path")

  unfoldable pub get_effective_pid_file : String
  get_effective_pid_file =
      or_else flags.pid_file (or_else (viper "pid_file") "/run/rbln/toolkit.pid")

  -- The options that the commands hand to `Setup` and to `Cleanup`.
  unfoldable pub install_options : String → Mode → String → InstallOptions
  unfolding get_effective_host_root_mount get_effective_cdi_spec_dir get_effective_config_path
      get_effective_pid_file
  install_options runtime mode socket = record {
    runtime = runtime;
    restart_mode = mode;
    socket = socket;
    host_root_mount = get_effective_host_root_mount;
    cdi_spec_dir = get_effective_cdi_spec_dir;
    config_path = get_effective_config_path;
    pid_file = get_effective_pid_file;
    dry_run = flags.dry_run;
  }

  unfoldable pub containerd_options : InstallOptions
  unfolding get_effective_restart_mode get_effective_socket install_options
  containerd_options =
      install_options "containerd" (or_else get_effective_restart_mode restart_mode_signal)
        (or_else get_effective_socket "/run/containerd/containerd.sock")

  unfoldable pub docker_options : InstallOptions
  unfolding get_effective_restart_mode get_effective_socket install_options
  docker_options =
      install_options "docker" (or_else get_effective_restart_mode restart_mode_signal)
        (or_else get_effective_socket "/var/run/docker.sock")

  abbrev no_signal : String
  no_signal =
      "signal restart mode is not supported for CRI-O\n\nCRI-O does not support SIGHUP reload. Use --restart-mode=systemd or --restart-mode=none"

  -- CRI-O has no restart by signal.
  unfoldable pub crio_options : Result InstallOptions
  unfolding get_effective_restart_mode install_options
  crio_options =
      let mode = or_else get_effective_restart_mode restart_mode_systemd in
      if mode == restart_mode_signal then err no_signal else ok (install_options "crio" mode "")

-- The environment is not asked for the directory of the specs and for the PID file, since these flags are
-- never empty.
no_flags-environment :
    (viper : String → String)
    → (get_effective_cdi_spec_dir no_flags viper ≡ "/var/run/cdi")
      × (get_effective_pid_file no_flags viper ≡ "/run/rbln/toolkit.pid")
unfolding get_effective_cdi_spec_dir get_effective_pid_file
no_flags-environment viper = (refl, refl)
