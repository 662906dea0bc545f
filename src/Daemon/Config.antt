-- ===== src/Daemon/Config.antt =====
-- internal/daemon/config.go: the daemon's configuration, its defaults and its validation.
pub mod Validation
use rbln_container_toolkit.Prelude.{
  ℕ, ◌*◌, String, ◌<>◌, Bool, true, false, ◌||◌, not, Option, none, some, ◌==◌, string_eq,
  if◌then◌else◌,
}
use rbln_container_toolkit.Prelude.Int.{ℤ, pos, ltb_ℤ, leb_ℤ}

-- `RuntimeType` is a Go string.
abbrev pub RuntimeType : Type 0
RuntimeType = String

abbrev pub runtime_containerd : RuntimeType
runtime_containerd = "containerd"

abbrev pub runtime_crio : RuntimeType
runtime_crio = "crio"

abbrev pub runtime_docker : RuntimeType
runtime_docker = "docker"

-- `validRuntimes`: the three runtimes, and "" for auto-detection.
unfoldable pub is_valid_runtime : RuntimeType → Bool
is_valid_runtime r =
    r == runtime_containerd || (r == runtime_crio || (r == runtime_docker || r == ""))

-- `socketPaths`; a missing key reads as "".
unfoldable pub socket_path : RuntimeType → String
socket_path r =
    if r == runtime_containerd
    then "/run/containerd/containerd.sock"
    else if r == runtime_crio
    then "/var/run/crio/crio.sock"
    else if r == runtime_docker
    then "/var/run/docker.sock"
    else ""

pub record Config : Type 0 where
  pub runtime : RuntimeType
  pub shutdown_timeout : ℤ
  pub pid_file : String
  pub health_port : ℤ
  pub no_cleanup_on_exit : Bool
  pub host_root_mount : String
  pub driver_root : String
  pub cdi_spec_dir : String
  pub container_library_path : String
  pub socket : String
  pub debug : Bool
  pub force : Bool
  pub refresh_interval : ℤ

-- A `time.Duration` counts nanoseconds.
abbrev pub second : ℕ
second = 1000000000

abbrev pub new_daemon_config : Config
new_daemon_config = record {
  runtime = "";
  shutdown_timeout = pos (30 * second);
  pid_file = "/run/rbln/toolkit.pid";
  health_port = pos 8080;
  no_cleanup_on_exit = false;
  host_root_mount = "/host";
  driver_root = "/";
  cdi_spec_dir = "/var/run/cdi";
  container_library_path = "";
  socket = "";
  debug = false;
  force = false;
  refresh_interval = pos (60 * second);
}

-- The error's text, or `none`.
unfoldable pub validate : Config → Option String
unfolding is_valid_runtime
validate c =
    if leb_ℤ c.shutdown_timeout (pos 0)
    then some "shutdown timeout must be greater than 0"
    else if ltb_ℤ (pos (300 * second)) c.shutdown_timeout
    then some "shutdown timeout must be <= 300s"
    else if ltb_ℤ c.health_port (pos 1) || ltb_ℤ (pos 65535) c.health_port
    then some "health port must be between 1 and 65535"
    else if not (is_valid_runtime c.runtime)
    then some ("invalid runtime: " <> c.runtime)
    else if c.pid_file == ""
    then some "pid file path is required"
    else if ltb_ℤ c.refresh_interval (pos 0)
    then some "refresh interval must be >= 0 (0 disables the watcher)"
    else none
