-- ===== src/Restart.antt =====
-- internal/restart: the restart of a container runtime, by a signal, by systemd, or not at all, as
-- it is built for Linux.
-- What the runtime's socket, `kill` and the commands answer is an `Outside`; the attempts of the
-- signal mode are numbered from 0. `DryRun` only makes a text for the log.
pub mod Retries
use rbln_container_toolkit.Prelude.{
  ℕ, zero, suc, ◌+◌, ◌*◌, String, ◌<>◌, decimal, Bool, true, false, ◌||◌, Option, none, some, List,
  [], ◌∷◌, ◌==◌, nat_eq, string_eq, if◌then◌else◌,
}
pub use rbln_container_toolkit.Prelude.Results.{Result, ok, err}
use rbln_container_toolkit.Prelude.Int.{ℤ, pos, pos_part, leb_ℤ}

-- `Mode` is a Go string.
abbrev pub Mode : Type 0
Mode = String

abbrev pub restart_mode_signal : Mode
restart_mode_signal = "signal"

abbrev pub restart_mode_systemd : Mode
restart_mode_systemd = "systemd"

abbrev pub restart_mode_none : Mode
restart_mode_none = "none"

unfoldable pub is_valid : Mode → Bool
is_valid m = m == restart_mode_signal || (m == restart_mode_systemd || m == restart_mode_none)

pub record Options : Type 0 where
  pub mode : Mode
  pub socket : String
  pub host_root_mount : String
  pub max_retries : ℤ
  pub retry_backoff : ℤ
  pub timeout : ℤ

-- A `time.Duration` counts nanoseconds.
abbrev pub seconds : ℕ → ℤ
seconds n = pos (n * 1000000000)

abbrev pub default_options : Options
default_options = record {
  mode = restart_mode_signal;
  socket = "";
  host_root_mount = "";
  max_retries = pos 3;
  retry_backoff = seconds 5;
  timeout = seconds 30;
}

pub record SignalRestarter : Type 0 where
  pub socket : String
  pub max_retries : ℕ
  pub backoff : ℤ

pub record SystemdRestarter : Type 0 where
  pub host_root_mount : String
  pub timeout : ℤ

pub data Restarter : Type 0 where
  signal : SignalRestarter → Restarter
  systemd : SystemdRestarter → Restarter
  skip : Restarter

unfoldable pub new_signal_restarter : Options → Result Restarter
new_signal_restarter o =
    if o.socket == ""
    then err "socket path is required for signal restart mode"
    else ok (
        signal (record {
          socket = o.socket;
          max_retries = if leb_ℤ o.max_retries (pos 0) then 3 else pos_part o.max_retries;
          backoff = if leb_ℤ o.retry_backoff (pos 0) then seconds 5 else o.retry_backoff;
        }))

unfoldable pub new_systemd_restarter : Options → Restarter
new_systemd_restarter o = systemd (record {
  host_root_mount = o.host_root_mount;
  timeout = if leb_ℤ o.timeout (pos 0) then seconds 30 else o.timeout;
})

-- `NewRestarter`
unfoldable pub new_restarter : Options → Result Restarter
unfolding new_signal_restarter new_systemd_restarter
new_restarter o =
    if o.mode == restart_mode_signal
    then new_signal_restarter o
    else if o.mode == restart_mode_systemd
    then ok (new_systemd_restarter o)
    else if o.mode == restart_mode_none
    then ok skip
    else err ("invalid restart mode: " <> o.mode)

pub record RuntimeDefaults : Type 0 where
  pub mode : Mode
  pub socket : String
  pub service : String

-- `GetRuntimeDefaults`
unfoldable pub get_runtime_defaults : String → RuntimeDefaults
get_runtime_defaults runtime =
    if runtime == "containerd"
    then record {
      mode = restart_mode_signal;
      socket = "/run/containerd/containerd.sock";
      service = "containerd";
    }
    else if runtime == "docker"
    then record { mode = restart_mode_signal; socket = "/var/run/docker.sock"; service = "docker" }
    else if runtime == "crio"
    then record {
      mode = restart_mode_systemd;
      socket = "/var/run/crio/crio.sock";
      service = "crio";
    }
    else record { mode = restart_mode_systemd; socket = ""; service = runtime }

-- The end of a command: whether its deadline passed, its error and its output.
pub data CommandEnd : Type 0 where
  succeeded : CommandEnd
  timed_out : CommandEnd
  broke : String → String → CommandEnd

pub record Outside : Type 0 where
  pub get_pid : ℕ → Result ℕ
  pub kill : ℕ → ℕ → Option String
  pub command : List String → CommandEnd
  pub duration_text : ℤ → String

-- How often a restart slept, and its error.
pub record Outcome : Type 0 where
  pub sleeps : ℕ
  pub error : Option String

-- One turn of the loop of `SignalRestarter.Restart`: the error, if there is one.
unfoldable pub attempt : Outside → ℕ → Option String
attempt w i = elim (w.get_pid i) [
  | err e ↦ some ("failed to get PID: " <> e)
  | ok pid ↦ elim (w.kill i pid) [
    | none ↦ none
    | some e ↦ some ("failed to send SIGHUP to PID " <> (decimal pid <> (": " <> e)))
  ]
]

abbrev pub sleep_before : ℕ → ℕ
sleep_before zero = 0
sleep_before (suc i) = 1

-- The loop, with the turns that are left, the number of the next, and `lastErr`.
unfoldable pub signal_loop : Outside → String → ℕ → ℕ → ℕ → String → Outcome
signal_loop w runtime max zero i last = record {
  sleeps = 0;
  error =
      some (
        "failed to restart "
        <> (runtime <> (" after " <> (decimal max <> (" retries: " <> last)))));
}
signal_loop w runtime max (suc left) i last = elim (attempt w i) [
  | none ↦ record { sleeps = sleep_before i; error = none }
  | some e ↦
      let rest = signal_loop w runtime max left (suc i) e in
      record rest { sleeps = sleep_before i + rest.sleeps }
]

-- The command line of `SystemdRestarter.Restart`
abbrev pub systemctl : SystemdRestarter → String → List String
systemctl r runtime =
    if r.host_root_mount == ""
    then "systemctl" ∷ "restart" ∷ runtime ∷ []
    else "chroot" ∷ r.host_root_mount ∷ "systemctl" ∷ "restart" ∷ runtime ∷ []

abbrev pub command_error : Outside → SystemdRestarter → String → CommandEnd → Option String
command_error w r runtime succeeded = none
command_error w r runtime timed_out =
    some ("restart " <> (runtime <> (" timed out after " <> w.duration_text r.timeout)))
command_error w r runtime (broke e output) =
    some ("systemctl restart " <> (runtime <> (" failed: " <> (e <> ("\nOutput: " <> output)))))

-- `Restart` of the three restarters; Go prints `%!w(<nil>)` for an error that was never set.
unfoldable pub restart : Outside → Restarter → String → Outcome
restart w (signal r) runtime = signal_loop w runtime r.max_retries r.max_retries 0 "%!w(<nil>)"
restart w (systemd r) runtime = record {
  sleeps = 0;
  error = command_error w r runtime (w.command (systemctl r runtime));
}
restart w skip runtime = record { sleeps = 0; error = none }
