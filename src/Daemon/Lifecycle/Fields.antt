-- ===== src/Daemon/Lifecycle/Fields.antt =====
-- What a list of actions does to one field of the daemon, with the other fields left out.
use rbln_container_toolkit.Prelude.{
  ℕ, suc, String, ◌≡◌, refl, ◌∙◌, ap, Bool, true, false, not, ◌&&◌, Option, none, some, List, [],
  ◌∷◌, ◌++◌, arith, if◌then◌else◌,
}
use rbln_container_toolkit.Daemon.State.{State, transition_to}
use rbln_container_toolkit.Daemon.Lifecycle.{
  Host, Daemon, Goroutine, Action, become_ready, become_unready, launch_watcher, cancel_watcher,
  cleanup, go, act, perform, launch, await,
}

module _ {F : Type 0} (h : Host) (field : Daemon → F) (step : Action → F → F) where
  abbrev pub fold : List Action → F → F
  fold [] x = x
  fold (a ∷ actions) x = fold actions (step a x)

  pub perform_field :
      ((a : Action) (d : Daemon) → field (act h a d) ≡ step a (field d))
      → (actions : List Action) (d : Daemon) → field (perform h actions d) ≡ fold actions (field d)
  unfolding perform
  perform_field one [] d = refl
  perform_field one (a ∷ actions) d =
      perform_field one actions (act h a d) ∙ ap (fold actions) (one a d)

-- The state and the states announced so far.
abbrev pub Phase : Type 0
Phase = State × List State

abbrev pub phase : Daemon → Phase
phase d = (d.state, d.announced)

abbrev enter : State → List State → Option String × State → Phase
enter to announced (none, s) = (s, announced ++ (to ∷ []))
enter to announced (some e, s) = (s, announced)

unfoldable pub step_phase : Action → Phase → Phase
step_phase (go to) (s, announced) = enter to announced (transition_to s to)
step_phase _ x = x

pub phase-act : (h : Host) (a : Action) (d : Daemon) → phase (act h a d) ≡ step_phase a (phase d)
unfolding act step_phase
phase-act h (go to) d = ground arith
phase-act h cleanup d = ground arith
phase-act h _ d = refl

unfoldable pub step_ready : Action → Bool → Bool
step_ready become_ready r = true
step_ready become_unready r = false
step_ready _ r = r

pub act_ready :
    (h : Host) (a : Action) (d : Daemon) → (act h a d).health.ready ≡ step_ready a d.health.ready
unfolding act step_ready
act_ready h (go to) d = ground arith
act_ready h cleanup d = ground arith
act_ready h _ d = refl

abbrev pub runs_cleanup : Host → Bool
runs_cleanup h = not h.no_cleanup_on_exit && h.has_cleanup

unfoldable pub step_cleanups : Host → Action → ℕ → ℕ
step_cleanups h cleanup n = if runs_cleanup h then suc n else n
step_cleanups h _ n = n

pub act_cleanups :
    (h : Host) (a : Action) (d : Daemon) → (act h a d).cleanups ≡ step_cleanups h a d.cleanups
unfolding act step_cleanups
act_cleanups h (go to) d = ground arith
act_cleanups h cleanup d = ground arith
act_cleanups h _ d = refl

-- The cleanups that are called and that end in time.
abbrev pub ends_cleanup : Host → Bool
ends_cleanup h = runs_cleanup h && h.cleanup_ends

unfoldable pub step_cleaned : Host → Action → ℕ → ℕ
step_cleaned h cleanup n = if ends_cleanup h then suc n else n
step_cleaned h _ n = n

pub act_cleaned :
    (h : Host) (a : Action) (d : Daemon) → (act h a d).cleaned ≡ step_cleaned h a d.cleaned
unfolding act step_cleaned
act_cleaned h (go to) d = ground arith
act_cleaned h cleanup d = ground arith
act_cleaned h _ d = refl

-- Where the watcher stands, now and at the last cleanup.
abbrev pub Watch : Type 0
Watch = Goroutine × Option Goroutine

abbrev pub watch : Daemon → Watch
watch d = (d.watcher, d.watcher_at_cleanup)

unfoldable pub step_watch : Host → Action → Watch → Watch
unfolding launch await
step_watch h launch_watcher (g, c) = (launch h.has_watcher, c)
step_watch h cancel_watcher (g, c) = (await h.watcher_stops g, c)
step_watch h cleanup (g, c) = if runs_cleanup h then (g, some g) else (g, c)
step_watch h _ x = x

pub watch-act : (h : Host) (a : Action) (d : Daemon) → watch (act h a d) ≡ step_watch h a (watch d)
unfolding act step_watch
watch-act h (go to) d = ground arith
watch-act h cleanup d = ground arith
watch-act h _ d = refl
