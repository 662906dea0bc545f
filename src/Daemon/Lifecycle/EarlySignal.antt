-- ===== src/Daemon/Lifecycle/EarlySignal.antt =====
-- A signal that arrives before the main thread waits for one: the handler's exit and the main
-- thread's startup, in every interleaving.
use rbln_container_toolkit.Prelude.{
  ℕ, ◌+◌, ◌≤◌, ◌≡◌, refl, ap, ◌∙◌, true, none, ◌⊎◌, inl, List, [], ◌∷◌, arith, if◌then◌else◌,
}
use rbln_container_toolkit.Daemon.State.{
  State, starting, running, shutting_down, stopped, transition_to,
}
use rbln_container_toolkit.Daemon.Lifecycle.{
  Host, Daemon, early, new_daemon, perform, exit_early, finish, run, Action, cleanup, go, act, Turn,
  main, handler, interleave, startup, early_exit,
}
use rbln_container_toolkit.Daemon.Lifecycle.Fields.{
  Phase, phase, step_phase, phase-act, runs_cleanup, step_cleanups, act_cleanups,
}

-- How many cleanups a list of actions calls.
pub cleanups_in : Host → List Action → ℕ
unfolding step_cleanups
cleanups_in h [] = 0
cleanups_in h (a ∷ actions) = step_cleanups h a (cleanups_in h actions)

act_adds :
    (h : Host) (a : Action) (rest : List Action) (d : Daemon)
    → (act h a d).cleanups + cleanups_in h rest ≡ d.cleanups + cleanups_in h (a ∷ rest)
unfolding cleanups_in
act_adds h cleanup rest d = rw (act_cleanups h cleanup d) (ground arith)
act_adds h a rest d = rw (act_cleanups h a d)

-- No cleanup is lost or doubled by the order in which the two threads take their turns.
cleanups_kept :
    (h : Host) (turns : List Turn) (ms hs : List Action) (d : Daemon)
    → let (ms', hs', d') = interleave h turns ms hs d in
      d'.cleanups + cleanups_in h ms' + cleanups_in h hs'
      ≡ d.cleanups + cleanups_in h ms + cleanups_in h hs
unfolding interleave
cleanups_kept h [] ms hs d = refl
cleanups_kept h (t ∷ turns) ms [] d = refl
cleanups_kept h (main ∷ turns) [] (b ∷ hs) d = cleanups_kept h turns [] (b ∷ hs) d
cleanups_kept h (main ∷ turns) (a ∷ ms) (b ∷ hs) d =
    omega (arith, cleanups_kept h turns ms (b ∷ hs) (act h a d), act_adds h a ms d)
cleanups_kept h (handler ∷ turns) ms (b ∷ hs) d =
    omega (arith, cleanups_kept h turns ms hs (act h b d), act_adds h b hs d)

-- The states that a list of actions asks for are all `s`.
abbrev pub Asks : State → List Action → Type 0
Asks s [] = Unit
Asks s (go to ∷ actions) = (to ≡ s) × Asks s actions
Asks s (_ ∷ actions) = Asks s actions

abbrev pub IsUp : State → Type 0
IsUp s = (s ≡ starting) ⊎ (s ≡ running)

-- What one action does to the state.
act_state : (h : Host) (a : Action) (d : Daemon) → (act h a d).state ≡ (step_phase a (phase d)).0
act_state h a d = ap (λ (x : Phase). x.0) (phase-act h a d)

-- Asking for `running` or for `stopped` leads from these two states to these two states only.
act-IsUp-main :
    (h : Host) (a : Action) (d : Daemon)
    → Asks running (a ∷ [])
    → IsUp d.state
    → IsUp (act h a d).state
unfolding step_phase transition_to
act-IsUp-main h (go to) d asks up = rw (act_state h (go to) d, asks.0) (ground arith)
act-IsUp-main h a d asks up = rw (act_state h a d) up

act-IsUp-handler :
    (h : Host) (a : Action) (d : Daemon)
    → Asks stopped (a ∷ [])
    → IsUp d.state
    → IsUp (act h a d).state
unfolding step_phase transition_to
act-IsUp-handler h (go to) d asks up = rw (act_state h (go to) d, asks.0) (ground arith)
act-IsUp-handler h a d asks up = rw (act_state h a d) up

Asks-split :
    (s : State) (a : Action) (actions : List Action)
    → Asks s (a ∷ actions)
    → Asks s (a ∷ []) × Asks s actions
Asks-split s (go to) actions h = ((h.0, tt), h.1)
Asks-split s a actions h = (tt, h)

stays-IsUp :
    (h : Host) (turns : List Turn) (ms hs : List Action) (d : Daemon)
    → Asks running ms
    → Asks stopped hs
    → IsUp d.state
    → IsUp (interleave h turns ms hs d).2.state
unfolding interleave
stays-IsUp h [] ms hs d am ah up = up
stays-IsUp h (t ∷ turns) ms [] d am ah up = up
stays-IsUp h (main ∷ turns) [] (b ∷ hs) d am ah up = stays-IsUp h turns [] (b ∷ hs) d am ah up
stays-IsUp h (main ∷ turns) (a ∷ ms) (b ∷ hs) d am ah up =
    let (one, rest) = Asks-split running a ms am in
    stays-IsUp h turns ms (b ∷ hs) (act h a d) rest ah (act-IsUp-main h a d one up)
stays-IsUp h (handler ∷ turns) ms (b ∷ hs) d am ah up =
    let (one, rest) = Asks-split stopped b hs ah in
    stays-IsUp h turns ms hs (act h b d) am rest (act-IsUp-handler h b d one up)

cleanups_in_tail :
    (h : Host) (a : Action) (ms : List Action) → cleanups_in h ms ≤ cleanups_in h (a ∷ ms)
unfolding cleanups_in
cleanups_in_tail h cleanup ms = ground arith
cleanups_in_tail h a ms = omega arith

main_left :
    (h : Host) (turns : List Turn) (ms hs : List Action) (d : Daemon)
    → cleanups_in h (interleave h turns ms hs d).0 ≤ cleanups_in h ms
unfolding interleave
main_left h [] ms hs d = omega arith
main_left h (t ∷ turns) ms [] d = omega arith
main_left h (main ∷ turns) [] (b ∷ hs) d = main_left h turns [] (b ∷ hs) d
main_left h (main ∷ turns) (a ∷ ms) (b ∷ hs) d =
    omega (arith, main_left h turns ms (b ∷ hs) (act h a d), cleanups_in_tail h a ms)
main_left h (handler ∷ turns) ms (b ∷ hs) d = main_left h turns ms hs (act h b d)

-- In every interleaving in which the handler gets to its exit, the cleanup has been called once,
-- or not at all where it is switched off or not set.
pub early_exit_cleanups :
    (h : Host) (turns : List Turn) (d : Daemon)
    → (interleave h turns startup early_exit d).1 ≡ []
    → (interleave h turns startup early_exit d).2.cleanups
      ≡ d.cleanups + (if runs_cleanup h then 1 else 0)
unfolding cleanups_in
early_exit_cleanups h turns d out =
    let kept = cleanups_kept h turns startup early_exit d in
    let left = main_left h turns startup early_exit d in
    let gone : cleanups_in h (interleave h turns startup early_exit d).1 ≡ 0 =
      ap (cleanups_in h) out in
    ground (arith, kept, left, gone)

-- If the handler asks for `shutting_down` before the main thread has set `running`, the request is
-- refused, and so is that for `stopped`: however the two threads go on, the daemon exits in state
-- `starting` or `running`, though it has cleaned up.
pub early_exit_state :
    (h : Host) (turns : List Turn) (ms : List Action) (d : Daemon)
    → d.state ≡ starting
    → Asks running ms
    → IsUp
        (interleave h (handler ∷ turns) ms (go shutting_down ∷ cleanup ∷ go stopped ∷ []) d).2.state
unfolding interleave step_phase transition_to
early_exit_state h turns ms d s asks =
    stays-IsUp h turns ms (cleanup ∷ go stopped ∷ []) (act h (go shutting_down) d) asks (refl, tt)
      (rw (act_state h (go shutting_down) d, s) (inl refl))

perform_adds :
    (h : Host) (actions : List Action) (d : Daemon)
    → (perform h actions d).cleanups ≡ d.cleanups + cleanups_in h actions
unfolding perform cleanups_in
perform_adds h [] d = omega arith
perform_adds h (a ∷ actions) d =
    omega (arith, perform_adds h actions (act h a d), act_adds h a actions d)

exit_early_cleanups :
    (h : Host) (turns : List Turn) (d : Daemon)
    → (exit_early h turns d).cleanups ≡ d.cleanups + (if runs_cleanup h then 1 else 0)
unfolding exit_early cleanups_in
exit_early_cleanups h turns d =
    let (ms, hs, left) = interleave h turns startup early_exit d in
    let kept : left.cleanups + cleanups_in h ms + cleanups_in h hs
        ≡ d.cleanups + cleanups_in h startup + cleanups_in h early_exit =
      cleanups_kept h turns startup early_exit d in
    let none_left : cleanups_in h ms ≤ cleanups_in h startup =
      main_left h turns startup early_exit d in
    let rest = perform_adds h hs left in ground (arith, kept, none_left, rest)

-- Where the lock is had and the signal comes early, the process exits without an error, and the cleanup
-- has been called once, or not at all where it is switched off or not set: in every order in which the
-- two threads take their turns.
pub run_early :
    (h : Host) (port : ℕ) (turns : List Turn)
    → h.lock_error ≡ none
    → h.signal ≡ early turns
    → ((run h (new_daemon port)).1 ≡ none)
      × ((run h (new_daemon port)).0.cleanups ≡ (if runs_cleanup h then 1 else 0))
unfolding run new_daemon finish
run_early h port turns e soon =
    let locked = record (new_daemon port) { pid_locked = true; announced = starting ∷ [] } in
    let same : run h (new_daemon port) ≡ (exit_early h turns locked, none) =
      (let locks : run h (new_daemon port) ≡ (finish h h.signal locked, none) = ground arith in
        locks)
      ∙ ap (λ s. (finish h s locked, none)) soon in
    (
      ap (λ r. r.1) same,
      ap (λ r. r.0.cleanups) same ∙ (exit_early_cleanups h turns locked ∙ omega arith),
    )
