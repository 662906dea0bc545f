-- ===== src/Daemon/Lifecycle.antt =====
-- internal/daemon/daemon.go: `Run`, its signal handler and its shutdown.
-- The two threads of `Run`, the main one and the signal handler, are lists of actions on the shared
-- daemon; what the environment decides is a `Host`. Logging, and the health server's sockets, are
-- left out.
pub mod Fields
pub mod Shutdown
pub mod EarlySignal
use rbln_container_toolkit.Prelude.{
  ℕ, suc, String, ◌<>◌, Bool, true, false, not, ◌||◌, Option, none, some, List, [], ◌∷◌, ◌++◌,
  if◌then◌else◌,
}
use rbln_container_toolkit.Prelude.Dict.{Dict}
use rbln_container_toolkit.Daemon.State.{
  State, starting, running, shutting_down, stopped, failed, new_state_machine, transition_to,
}
use rbln_container_toolkit.Daemon.Health.{
  HealthServer, CheckResult, new_health_server, set_started, set_ready, add_check,
}

-- The watcher's goroutine: none, alive, gone, or left behind after the shutdown timeout.
pub data Goroutine : Type 0 where
  absent alive gone leaked : Goroutine

-- Whose action comes next.
pub data Turn : Type 0 where
  main handler : Turn

-- When the signal comes, or the end of the context: behind the startup, or so early that the handler
-- finds the main thread not waiting and exits, the two threads taking turns.
pub data Signal : Type 0 where
  late : Signal
  early : List Turn → Signal

-- What is fixed for one run: the configuration and the callbacks that are set, the result of
-- `acquirePIDLock`, whether the watcher and the cleanup end before the shutdown timeout, and the signal.
pub record Host : Type 0 where
  pub no_cleanup_on_exit : Bool
  pub has_cleanup : Bool
  pub has_watcher : Bool
  pub watcher_stops : Bool
  pub cleanup_ends : Bool
  pub signal : Signal
  pub lock_error : Option String

-- `announced` holds the calls of `onStateChange`; `cleanups` counts the calls of the cleanup
-- function, `cleaned` those that have ended before the timeout, and `watcher_at_cleanup` is where the watcher stood at the last of them.
pub record Daemon : Type 0 where
  pub state : State
  pub health : HealthServer
  pub pid_locked : Bool
  pub announced : List State
  pub watcher : Goroutine
  pub cleanups : ℕ
  pub cleaned : ℕ
  pub watcher_at_cleanup : Option Goroutine

unfoldable pub new_daemon : ℕ → Daemon
unfolding new_health_server
new_daemon port = record {
  state = new_state_machine;
  health = new_health_server port;
  pid_locked = false;
  announced = [];
  watcher = absent;
  cleanups = 0;
  cleaned = 0;
  watcher_at_cleanup = none;
}

-- `setState`: a refused transition is logged and not announced.
unfoldable pub set_state : Daemon → State → Daemon
unfolding transition_to
set_state d to =
    let (err, s) = transition_to d.state to in
    elim err [ none ↦ record d { state = s; announced = d.announced ++ (to ∷ []) } | some e ↦ d ]

-- `doCleanup`: the wait ends with the cleanup or with its timeout, and both end the call; after the
-- timeout the cleanup is left to itself.
unfoldable pub do_cleanup : Host → Daemon → Daemon
do_cleanup h d = if h.no_cleanup_on_exit || not h.has_cleanup then d else record d {
  cleanups = suc d.cleanups;
  cleaned = if h.cleanup_ends then suc d.cleaned else d.cleaned;
  watcher_at_cleanup = some d.watcher;
}

pub data Action : Type 0 where
  mark_started become_ready become_unready ready_check launch_watcher : Action
  cancel_watcher cleanup : Action
  go : State → Action

launch : Bool → Goroutine
launch true = alive
launch false = absent

-- Cancelling and then waiting for the goroutine, for at most the shutdown timeout.
await : Bool → Goroutine → Goroutine
await true alive = gone
await false alive = leaked
await stops g = g

unfoldable pub act : Host → Action → Daemon → Daemon
unfolding set_state do_cleanup launch await set_started set_ready add_check
act h mark_started d = record d { health = set_started d.health true }
act h become_ready d = record d { health = set_ready d.health true }
act h become_unready d = record d { health = set_ready d.health false }
act h ready_check d = record d {
  health = add_check d.health "daemon" (record { status = "ready"; message = "Daemon is running" });
}
act h launch_watcher d = record d { watcher = launch h.has_watcher }
act h cancel_watcher d = record d { watcher = await h.watcher_stops d.watcher }
act h cleanup d = do_cleanup h d
act h (go s) d = set_state d s

unfoldable pub perform : Host → List Action → Daemon → Daemon
unfolding act
perform h [] d = d
perform h (a ∷ actions) d = perform h actions (act h a d)

-- The main thread up to the point where it says that it waits for a signal.
abbrev pub startup : List Action
startup = mark_started ∷ go running ∷ become_ready ∷ ready_check ∷ launch_watcher ∷ []

-- The main thread after the signal, or after the context is done.
abbrev pub shutdown : List Action
shutdown = become_unready ∷ go shutting_down ∷ cancel_watcher ∷ cleanup ∷ go stopped ∷ []

-- The signal handler where the main thread does not wait yet; `os.Exit(0)` follows.
abbrev pub early_exit : List Action
early_exit = become_unready ∷ go shutting_down ∷ cleanup ∷ go stopped ∷ []

acquire : Host → Daemon → Daemon × Option String
unfolding set_state
acquire h d = if d.pid_locked then (d, none) else elim h.lock_error [
  | none ↦ (record d { pid_locked = true }, none)
  | some e ↦ (set_state d failed, some ("acquire PID lock: " <> e))
]

-- The main thread's startup and the handler's early exit, interleaved. What is left of each and
-- the daemon; the process has exited where nothing is left of the handler.
unfoldable pub interleave :
    Host → List Turn → List Action → List Action → Daemon → List Action × List Action × Daemon
unfolding act
interleave h [] ms hs d = (ms, hs, d)
interleave h (t ∷ turns) ms [] d = (ms, [], d)
interleave h (main ∷ turns) [] (b ∷ hs) d = interleave h turns [] (b ∷ hs) d
interleave h (main ∷ turns) (a ∷ ms) (b ∷ hs) d = interleave h turns ms (b ∷ hs) (act h a d)
interleave h (handler ∷ turns) ms (b ∷ hs) d = interleave h turns ms hs (act h b d)

-- The handler goes on to its exit when the turns are over; the lock is not released, since `os.Exit`
-- runs no deferred call.
unfoldable pub exit_early : Host → List Turn → Daemon → Daemon
unfolding interleave perform
exit_early h turns d = let (ms, hs, d') = interleave h turns startup early_exit d in perform h hs d'

-- The daemon when the process or `Run` ends; `Run` releases the lock.
unfoldable pub finish : Host → Signal → Daemon → Daemon
unfolding perform exit_early
finish h late d = record (perform h shutdown (perform h startup d)) { pid_locked = false }
finish h (early turns) d = exit_early h turns d

-- `Run`: the daemon that is left, and the error.
unfoldable pub run : Host → Daemon → Daemon × Option String
unfolding acquire finish
run h d =
    let (d', err) = acquire h (record d { announced = d.announced ++ (starting ∷ []) }) in
    elim err [ none ↦ (finish h h.signal d', none) | some e ↦ (d', some e) ]
