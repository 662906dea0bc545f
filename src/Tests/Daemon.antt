-- ===== src/Tests/Daemon.antt =====
-- The theorems about internal/daemon at concrete inputs.
use rbln_container_toolkit.Prelude.{
  ℕ, String, ◌≡◌, ◌≢◌, ◌↔◌, refl, true, false, none, some, List, [], ◌∷◌, nat_eq, string_eq,
  if◌then◌else◌, arith, eq_iff,
}
use rbln_container_toolkit.Prelude.Dict.{Dict, lookup}
use rbln_container_toolkit.Prelude.Int.{pos}
use rbln_container_toolkit.Daemon.State.{starting, running, shutting_down, stopped}
use rbln_container_toolkit.Daemon.Config.{validate, new_daemon_config}
use rbln_container_toolkit.Daemon.Config.Validation.{IsUsable, validate_iff}
use rbln_container_toolkit.Daemon.PidLock.{
  World, Reach, here, acquires, start, opened, holding, update, create, lock,
}
use rbln_container_toolkit.Daemon.PidLock.Exclusion.{two_holders, Acquiring, at_start, step}
use rbln_container_toolkit.Daemon.Lifecycle.{
  Host, late, early, Turn, main, handler, new_daemon, run, interleave, startup, early_exit, go,
  cleanup,
}
use rbln_container_toolkit.Daemon.Lifecycle.Fields.{runs_cleanup, ends_cleanup}
use rbln_container_toolkit.Daemon.Lifecycle.Shutdown.{run_complete}
use rbln_container_toolkit.Daemon.Lifecycle.EarlySignal.{early_exit_state, run_early, IsUp}
use rbln_container_toolkit.Daemon.Watcher.{
  Watcher, Observation, RefreshTrigger, Event, ticked, versions_differ, tick, loop,
}
use rbln_container_toolkit.Daemon.Watcher.Diff.{IsSnapshot, SameMap, versions_differ_iff}
use rbln_container_toolkit.Daemon.Watcher.Applied.{IsLive, last_applied, loop-tracks_applied}

validate_iff_example : (validate new_daemon_config ≡ none) ↔ IsUsable new_daemon_config
validate_iff_example = validate_iff new_daemon_config

abbrev first_opened : World
first_opened = record { path = some 0; fresh = 1; procs = update start.procs 7 (opened 0) }

abbrev first_locked : World
first_locked = record first_opened { procs = update first_opened.procs 7 (holding 0) }

first-Acquiring : Acquiring first_locked
first-Acquiring = step (step at_start (create 7 refl refl)) (lock 7 0 refl (λ q e. ground arith))

first-Reach : Reach first_locked
first-Reach = acquires (acquires here (create 7 refl refl)) (lock 7 0 refl (λ q e. ground arith))

two_differ : ◌≢◌ {A = ℕ} 1 2
two_differ e = omega arith

two_holders_example : (w : World) × Reach w × (w.procs 1 ≡ holding 1) × (w.procs 2 ≡ holding 0)
two_holders_example = two_holders 1 2 two_differ

abbrev plain_host : Host
plain_host = record {
  no_cleanup_on_exit = false;
  has_cleanup = true;
  has_watcher = true;
  watcher_stops = true;
  cleanup_ends = true;
  signal = late;
  lock_error = none;
}

abbrev busy_host : Host
busy_host = record plain_host { lock_error = some "another instance is running" }

run_complete_example :
    let (d, err) = run plain_host (new_daemon 8080) in
    (err ≡ none)
    × (d.state ≡ stopped)
    × (d.health.ready ≡ false)
    × (d.pid_locked ≡ false)
    × (d.announced ≡ starting ∷ running ∷ shutting_down ∷ stopped ∷ [])
    × (d.cleanups ≡ (if runs_cleanup plain_host then 1 else 0))
    × (d.cleaned ≡ (if ends_cleanup plain_host then 1 else 0))
run_complete_example = run_complete plain_host 8080 refl refl

abbrev early_turns : List Turn
early_turns = main ∷ handler ∷ handler ∷ main ∷ handler ∷ handler ∷ []

abbrev early_host : Host
early_host = record plain_host { signal = early early_turns }

run_early_example :
    ((run early_host (new_daemon 8080)).1 ≡ none)
    × ((run early_host (new_daemon 8080)).0.cleanups ≡ (if runs_cleanup early_host then 1 else 0))
run_early_example = run_early early_host 8080 early_turns refl refl

early_exit_done : (interleave plain_host early_turns startup early_exit (new_daemon 8080)).1 ≡ []
unfolding interleave
early_exit_done = refl

is_starting : (new_daemon 8080).state ≡ starting
unfolding new_daemon
is_starting = refl

early_exit_state_example :
    IsUp
      (interleave plain_host
        (handler ∷ early_turns)
        startup
        (go shutting_down ∷ cleanup ∷ go stopped ∷ [])
        (new_daemon 8080)).2.state
early_exit_state_example =
    early_exit_state plain_host early_turns startup (new_daemon 8080) is_starting (refl, tt)

abbrev before : Dict String
before = ("librbln-ml.so.1", "a1") ∷ ("librbln-ccl.so.1", "b1") ∷ []

abbrev after : Dict String
after = ("librbln-ccl.so.1", "b1") ∷ ("librbln-ml.so.1", "a2") ∷ []

before-IsSnapshot : IsSnapshot before
unfolding lookup
before-IsSnapshot = (
  (refl, (refl, tt)),
  (λ e. ground (arith, eq_iff "a1" ""), (λ e. ground (arith, eq_iff "b1" ""), tt)),
)

after-IsSnapshot : IsSnapshot after
unfolding lookup
after-IsSnapshot = (
  (refl, (refl, tt)),
  (λ e. ground (arith, eq_iff "b1" ""), (λ e. ground (arith, eq_iff "a2" ""), tt)),
)

versions_differ_iff_example : (versions_differ before after ≡ false) ↔ SameMap before after
versions_differ_iff_example = versions_differ_iff before after before-IsSnapshot after-IsSnapshot.0

abbrev watcher : Watcher
watcher = record {
  interval = pos 60;
  has_on_change = true;
  has_status_hook = true;
  last = before;
  last_run = 0;
  last_err = none;
  published = [];
}

-- A tick whose callback fails, and one whose callback succeeds.
abbrev failing : Observation
failing = record {
  versions = after;
  errors = [];
  now = 1;
  cancelled = false;
  on_change = λ t. some "write failed";
}

abbrev working : Observation
working = record {
  versions = after;
  errors = [];
  now = 2;
  cancelled = false;
  on_change = λ t. none;
}

abbrev two_ticks : List Event
two_ticks = ticked false failing ∷ ticked false working ∷ []

failing-IsLive : IsLive failing
failing-IsLive = record { in_time = refl; snapshot = after-IsSnapshot }

working-IsLive : IsLive working
working-IsLive = record { in_time = refl; snapshot = after-IsSnapshot }

loop-tracks_applied_example :
    SameMap (loop watcher two_ticks).0.last (last_applied before (loop watcher two_ticks).1)
loop-tracks_applied_example =
    loop-tracks_applied watcher two_ticks before refl before-IsSnapshot (λ k. refl)
      (failing-IsLive, (working-IsLive, tt))

abbrev changed : RefreshTrigger
changed = record { versions = after; prev_versions = before; errors = [] }

failing_call : (tick watcher failing).1 ≡ some (changed, some "write failed")
unfolding tick
failing_call = refl
