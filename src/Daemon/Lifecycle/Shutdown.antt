-- ===== src/Daemon/Lifecycle/Shutdown.antt =====
-- A whole run of the daemon, and where the watcher stands when the cleanup is called.
use rbln_container_toolkit.Prelude.{
  ℕ, String, ◌<>◌, ◌≡◌, refl, ◌∙◌, ap, true, false, none, some, [], ◌∷◌, arith, if◌then◌else◌,
}
use rbln_container_toolkit.Daemon.State.{
  starting, running, shutting_down, stopped, failed, transition_to,
}
use rbln_container_toolkit.Daemon.Lifecycle.{
  Host, Daemon, absent, gone, leaked, late, finish, new_daemon, run, perform, startup, shutdown,
  await, launch, Action, act, cleanup,
}
use rbln_container_toolkit.Daemon.Lifecycle.Fields.{
  perform_field, ends_cleanup, step_cleaned, act_cleaned, fold, Phase, phase, step_phase, phase-act,
  step_ready, act_ready, runs_cleanup, step_cleanups, act_cleanups, Watch, watch, step_watch,
  watch-act,
}

-- The daemon at the start of `Run`, once it has the lock.
abbrev locked : ℕ → Daemon
locked port = record (new_daemon port) { pid_locked = true; announced = starting ∷ [] }

abbrev ended : Host → ℕ → Daemon
ended h port = perform h shutdown (perform h startup (locked port))

module _ {F : Type 0} (h : Host) (field : Daemon → F) (step : Action → F → F)
    (one : (a : Action) (d : Daemon) → field (act h a d) ≡ step a (field d)) (port : ℕ) where
  ended_field :
      field (ended h port)
      ≡ fold h field step shutdown (fold h field step startup (field (locked port)))
  ended_field =
      perform_field h field step one shutdown (perform h startup (locked port))
      ∙ ap (fold h field step shutdown) (perform_field h field step one startup (locked port))

module _ (h : Host) (port : ℕ) where
  phase-ended : phase (ended h port) ≡ (stopped, starting ∷ running ∷ shutting_down ∷ stopped ∷ [])
  unfolding step_phase new_daemon transition_to
  phase-ended = ended_field h phase step_phase (phase-act h) port

  ended_ready : (ended h port).health.ready ≡ false
  unfolding step_ready
  ended_ready = ended_field h (λ d. d.health.ready) step_ready (act_ready h) port

  ended_cleanups : (ended h port).cleanups ≡ (if runs_cleanup h then 1 else 0)
  unfolding step_cleanups new_daemon
  ended_cleanups = ended_field h (λ d. d.cleanups) (step_cleanups h) (act_cleanups h) port

  ended_cleaned : (ended h port).cleaned ≡ (if ends_cleanup h then 1 else 0)
  unfolding step_cleaned new_daemon
  ended_cleaned = ended_field h (λ d. d.cleaned) (step_cleaned h) (act_cleaned h) port

  watch-ended :
      watch (ended h port)
      ≡ step_watch h cleanup (await h.watcher_stops (launch h.has_watcher), none)
  unfolding step_watch new_daemon
  watch-ended = ended_field h watch (step_watch h) (watch-act h) port

  run-ended :
      h.lock_error ≡ none
      → h.signal ≡ late
      → run h (new_daemon port) ≡ (record (ended h port) { pid_locked = false }, none)
  unfolding run new_daemon finish
  run-ended e behind =
      (let locks : run h (new_daemon port) ≡ (finish h h.signal (locked port), none) =
          ground arith in
        locks)
      ∙ ap (λ s. (finish h s (locked port), none)) behind

  run-refused :
      (x : String)
      → h.lock_error ≡ some x
      → run h (new_daemon port) ≡ (
        record (new_daemon port) { state = failed; announced = starting ∷ failed ∷ [] },
        some ("acquire PID lock: " <> x),
      )
  unfolding run new_daemon transition_to
  run-refused x e = ground arith

-- Where the lock is had and the signal, or the end of the context, comes behind the startup, the run
-- ends without error, in state `stopped`, not ready and with the lock released; the states are
-- announced in their order; and the cleanup is called once, or not at all where it is switched off or
-- not set, and has ended where it keeps to the shutdown timeout.
pub run_complete :
    (h : Host) (port : ℕ)
    → h.lock_error ≡ none
    → h.signal ≡ late
    → let (d, err) = run h (new_daemon port) in
      (err ≡ none)
      × (d.state ≡ stopped)
      × (d.health.ready ≡ false)
      × (d.pid_locked ≡ false)
      × (d.announced ≡ starting ∷ running ∷ shutting_down ∷ stopped ∷ [])
      × (d.cleanups ≡ (if runs_cleanup h then 1 else 0))
      × (d.cleaned ≡ (if ends_cleanup h then 1 else 0))
run_complete h port e behind = rw (run-ended h port e behind) (
  refl,
  ap (λ (x : Phase). x.0) (phase-ended h port),
  ended_ready h port,
  refl,
  ap (λ (x : Phase). x.1) (phase-ended h port),
  ended_cleanups h port,
  ended_cleaned h port,
)

-- Where the watcher stands at the end of such a run.
pub run_watcher :
    (h : Host) (port : ℕ)
    → h.lock_error ≡ none
    → h.signal ≡ late
    → (run h (new_daemon port)).0.watcher
      ≡ (if h.has_watcher then (if h.watcher_stops then gone else leaked) else absent)
unfolding step_watch await launch
run_watcher h port e behind =
    rw (run-ended h port e behind) (ap (λ (x : Watch). x.0) (watch-ended h port) ∙ ground arith)

watch_at_cleanup :
    (h : Host)
    → runs_cleanup h ≡ true
    → (step_watch h cleanup (await h.watcher_stops (launch h.has_watcher), none)).1
      ≡ some (if h.has_watcher then (if h.watcher_stops then gone else leaked) else absent)
unfolding step_watch
watch_at_cleanup h on = ground arith

-- When the cleanup is called in such a run, the watcher is not alive: there is none, or it has
-- stopped, or it is the one that did not stop before the shutdown timeout.
pub run_watcher_at_cleanup :
    (h : Host) (port : ℕ)
    → h.lock_error ≡ none
    → h.signal ≡ late
    → runs_cleanup h ≡ true
    → (run h (new_daemon port)).0.watcher_at_cleanup
      ≡ some (if h.has_watcher then (if h.watcher_stops then gone else leaked) else absent)
run_watcher_at_cleanup h port e behind c =
    rw (run-ended h port e behind)
      (ap (λ (x : Watch). x.1) (watch-ended h port) ∙ watch_at_cleanup h c)

-- Where the lock is refused, the run ends in state `failed` with the error, announces just that,
-- and starts nothing: the daemon is never ready and the cleanup is not called.
pub run_refused :
    (h : Host) (port : ℕ) (e : String)
    → h.lock_error ≡ some e
    → let (d, err) = run h (new_daemon port) in
      (err ≡ some ("acquire PID lock: " <> e))
      × (d.state ≡ failed)
      × (d.announced ≡ starting ∷ failed ∷ [])
      × (d.health.ready ≡ false)
      × (d.cleanups ≡ 0)
      × (d.watcher ≡ absent)
      × (d.pid_locked ≡ false)
unfolding new_daemon
run_refused h port e x = rw (run-refused h port e x) (refl, refl, refl, refl, refl, refl, refl)
