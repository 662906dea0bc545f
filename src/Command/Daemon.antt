-- ===== src/Command/Daemon.antt =====
-- cmd/rbln-ctk-daemon/root.go: the daemon from its flags to its end.
pub mod Ended
pub mod Removed
use rbln_container_toolkit.Prelude.{
  ℕ, String, ◌<>◌, Bool, true, false, not, ◌&&◌, Option, none, some, List, [], ◌∷◌, if◌then◌else◌,
  ltb, ◌==◌, string_eq, nat_eq,
}
use rbln_container_toolkit.Prelude.Texts.{is_abs}
use rbln_container_toolkit.Prelude.Int.{ℤ, pos, pos_part, leb_ℤ}
use rbln_container_toolkit.Prelude.Dict.{Dict}
use rbln_container_toolkit.Prelude.Results.{Result, ok, err, wrap}
use rbln_container_toolkit.Daemon.Config.{Config, validate}
use rbln_container_toolkit.Daemon.Lifecycle.{
  Goroutine, absent, alive, gone, leaked, Signal, Host, Daemon, new_daemon, run,
}
use rbln_container_toolkit.Runtime.Disk.{Disk}
use rbln_container_toolkit.Runtime.Detect.{detect_runtime_strict}
use rbln_container_toolkit.Command.Paths.{detect_host_root, build_detect_options}
use rbln_container_toolkit.Command.Setup.{
  World, Arguments, Machine, After, spec_path, rds_spec_path, try_remove, setup,
  regenerate_cdi_spec, do_cleanup,
}

-- The flags of the daemon: its configuration, where the host's root may be "", and the path of the
-- runtime's configuration.
pub record DaemonFlags : Type 0 where
  pub config : Config
  pub config_path : String

-- What may happen to the specs between the start of the cleanup and the end of the process.
pub data Event : Type 0 where
  removes_spec removes_rds : Event
  regenerates : World → Event

-- What the daemon meets: whether /host is there, the sockets, the lock, whether the watcher and the
-- cleanup end before the shutdown timeout, the signal, and the errors of removing the specs. `refreshes`
-- are the worlds in which the watcher regenerates the specs until the shutdown has waited for it, none where
-- there is no watcher.
-- `disorder` is what happens after that where the cleanup does not have the specs for itself until it
-- ends; `quoted` is the verb %q.
pub record Circumstances : Type 0 where
  pub world : World
  pub has_host : Bool
  pub sockets : Disk
  pub lock_error : Option String
  pub refreshes : List World
  pub watcher_stops : Bool
  pub cleanup_ends : Bool
  pub signal : Signal
  pub disorder : List Event
  pub spec_error : Option String
  pub rds_error : Option String
  pub quoted : String → String

-- The machine that is left, the daemon that has run, if one has, and the error.
pub record Ran : Type 0 where
  pub machine : Machine
  pub daemon : Option Daemon
  pub error : Option String

abbrev pub ran : Machine → Option Daemon → Option String → Ran
ran machine daemon error = record { machine = machine; daemon = daemon; error = error }

-- The runtime that is given, or the one that is detected.
unfoldable pub daemon_runtime : Circumstances → Config → Result String
unfolding detect_runtime_strict build_detect_options
daemon_runtime c cfg =
    if not (cfg.runtime == "")
    then ok cfg.runtime
    else wrap "runtime detection failed: "
        (detect_runtime_strict c.sockets (build_detect_options cfg.socket))

abbrev pub valid_or : Option String → Config → Result Config
valid_or none cfg = ok cfg
valid_or (some e) cfg = err ("invalid configuration: " <> e)

-- The configuration for a runtime, checked.
abbrev pub config_for : Circumstances → DaemonFlags → Result String → Result Config
config_for c flags (err e) = err e
config_for c flags (ok runtime) =
    let cfg = record flags.config {
      runtime = runtime;
      host_root_mount = detect_host_root c.has_host flags.config.host_root_mount;
    } in
    valid_or (validate cfg) cfg

-- The configuration of the daemon.
unfoldable pub daemon_config : Circumstances → DaemonFlags → Result Config
unfolding daemon_runtime detect_host_root validate is_abs
daemon_config c flags =
    if not (flags.config_path == "") && not (is_abs flags.config_path)
    then err ("config path override must be absolute: " <> c.quoted flags.config_path)
    else config_for c flags (daemon_runtime c flags.config)

-- What `setup` is called with.
abbrev pub arguments_of : DaemonFlags → Config → Arguments
arguments_of flags cfg = record {
  runtime = cfg.runtime;
  cdi_dir = cfg.cdi_spec_dir;
  host_root = cfg.host_root_mount;
  driver_root = cfg.driver_root;
  container_library_path = cfg.container_library_path;
  socket_path = cfg.socket;
  config_path = flags.config_path;
}

-- The daemon's own environment; without an interval there is no watcher.
abbrev pub host_of : Circumstances → Config → Host
host_of c cfg = record {
  no_cleanup_on_exit = cfg.no_cleanup_on_exit;
  has_cleanup = true;
  has_watcher = not (leb_ℤ cfg.refresh_interval (pos 0));
  watcher_stops = c.watcher_stops;
  cleanup_ends = c.cleanup_ends;
  signal = c.signal;
  lock_error = none;
}

-- The daemon that already has the lock.
abbrev pub locked_daemon : Config → Daemon
locked_daemon cfg = record (new_daemon (pos_part cfg.health_port)) { pid_locked = true }

-- The specs after the watcher's regenerations; their errors are only logged.
unfoldable pub refreshed : Arguments → List World → Dict String → Dict String
unfolding regenerate_cdi_spec
refreshed a [] specs = specs
refreshed a (w ∷ worlds) specs = refreshed a worlds (regenerate_cdi_spec w a specs).files

unfoldable pub happens : Circumstances → Arguments → List Event → Dict String → Dict String
unfolding regenerate_cdi_spec try_remove
happens c a [] specs = specs
happens c a (removes_spec ∷ events) specs =
    happens c a events (try_remove c.spec_error (spec_path a.cdi_dir) specs)
happens c a (removes_rds ∷ events) specs =
    happens c a events (try_remove c.rds_error (rds_spec_path a.cdi_dir) specs)
happens c a (regenerates w ∷ events) specs =
    happens c a events (regenerate_cdi_spec w a specs).files

abbrev pub is_quiet : Goroutine → Bool
is_quiet absent = true
is_quiet gone = true
is_quiet alive = false
is_quiet leaked = false

-- The watcher writes no more, and every cleanup that was called has ended.
abbrev pub is_orderly : Daemon → Bool
is_orderly d = is_quiet d.watcher && d.cleaned == d.cleanups

-- The specs at the end. A watcher that goes on, or a cleanup that is left to itself, may still write
-- or remove them, in any order.
unfoldable pub specs_at_end : Circumstances → Arguments → Daemon → Dict String → Dict String
unfolding do_cleanup happens
specs_at_end c a d specs =
    if is_orderly d
    then (if ltb 0 d.cleaned
        then (do_cleanup c.spec_error c.rds_error a.cdi_dir specs).files
        else specs)
    else happens c a c.disorder specs

-- `Run` behind a setup that has ended well.
unfoldable pub run_to_end : Circumstances → Config → Arguments → Machine → Ran
unfolding run new_daemon refreshed specs_at_end
run_to_end c cfg a m =
    let (daemon, error) = run (host_of c cfg) (locked_daemon cfg) in
    let specs = specs_at_end c a daemon (refreshed a c.refreshes m.specs) in
    ran (record m { specs = specs }) (some daemon) error

abbrev pub run_if : Circumstances → Config → Arguments → Machine → Option String → Ran
run_if c cfg a m (some e) = ran m none (some ("setup failed: " <> e))
run_if c cfg a m none = run_to_end c cfg a m

-- The setup and the run, with the lock.
abbrev pub with_lock : Circumstances → Config → Arguments → Machine → Option String → Ran
with_lock c cfg a m (some e) = ran m none (some ("acquire PID lock: " <> e))
with_lock c cfg a m none = let done = setup c.world a m in run_if c cfg a done.machine done.error

abbrev pub with_config : Circumstances → DaemonFlags → Machine → Result Config → Ran
with_config c flags m (err e) = ran m none (some e)
with_config c flags m (ok cfg) = with_lock c cfg (arguments_of flags cfg) m c.lock_error

-- `runDaemon`
unfoldable pub run_daemon : Circumstances → DaemonFlags → Machine → Ran
unfolding daemon_config setup run_to_end
run_daemon c flags m = with_config c flags m (daemon_config c flags)
