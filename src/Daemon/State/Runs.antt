-- ===== src/Daemon/State/Runs.antt =====
-- Sequences of `TransitionTo` calls on one state machine, accepted or refused.
use rbln_container_toolkit.Prelude.{
  ℕ, ◌+◌, ◌≤◌, ◌≡◌, ◌≢◌, refl, true, false, none, List, [], ◌∷◌, length, ◌⊎◌, ◌↔◌, arith,
  if◌then◌else◌,
}
use rbln_container_toolkit.Daemon.State.{
  State, starting, running, shutting_down, stopped, failed, other, can_transition_to, is_terminal,
  transition_to,
}

abbrev pub accepted : State → State → ℕ
accepted s to = if can_transition_to s to then 1 else 0

-- The state after the calls, and how many of them were accepted.
unfoldable pub run : State → List State → State × ℕ
run s [] = (s, 0)
run s (to ∷ rest) = let (t, n) = run (transition_to s to).1 rest in (t, accepted s to + n)

-- How many transitions a state still allows.
abbrev pub remaining : State → ℕ
remaining starting = 3
remaining running = 2
remaining shutting_down = 1
remaining failed = 1
remaining stopped = 0
remaining (other n) = 0

transition_falls : (s to : State) → remaining (transition_to s to).1 + accepted s to ≤ remaining s
unfolding transition_to
transition_falls starting to = ground arith
transition_falls _ to = ground arith

-- After any calls of `TransitionTo`, accepted or refused, the state left still allows at most the
-- remaining number of transitions less those accepted; so from `starting` at most three are
-- accepted, and none is once the machine has stopped.
pub run_bounded :
    (s : State) (calls : List State) → remaining (run s calls).0 + (run s calls).1 ≤ remaining s
unfolding run
run_bounded s [] = omega arith
run_bounded s (to ∷ rest) =
    omega (arith, run_bounded (transition_to s to).1 rest, transition_falls s to)

-- A call returns an error exactly when the transition is not allowed; then the state is kept, and
-- otherwise it is the state asked for.
pub transition_to-branches :
    (s to : State)
    → ((transition_to s to).0 ≡ none)
        × (can_transition_to s to ≡ true)
        × ((transition_to s to).1 ≡ to)
      ⊎ ((transition_to s to).0 ≢ none)
        × (can_transition_to s to ≡ false)
        × ((transition_to s to).1 ≡ s)
unfolding transition_to
transition_to-branches starting to = ground arith
transition_to-branches _ to = ground arith

abbrev pub IsNamed : State → Type 0
IsNamed (other n) = ⊥
IsNamed _ = Unit

abbrev pub way_out : State → List State
way_out starting = running ∷ shutting_down ∷ stopped ∷ []
way_out running = shutting_down ∷ stopped ∷ []
way_out shutting_down = stopped ∷ []
way_out failed = stopped ∷ []
way_out _ = []

-- From each named state the machine can be brought to `stopped` by calls that are all accepted.
pub run-stopped :
    (s : State) → IsNamed s → (calls : List State) × (run s calls ≡ (stopped, length calls))
unfolding run transition_to
run-stopped starting h = (way_out starting, refl)
run-stopped running h = (way_out running, refl)
run-stopped shutting_down h = (way_out shutting_down, refl)
run-stopped stopped h = ([], refl)
run-stopped failed h = (way_out failed, refl)
run-stopped (other n) h = absurd h

-- Of the named states `IsTerminal` picks exactly those that refuse every transition.
pub is_terminal_iff :
    (s : State)
    → IsNamed s
    → (is_terminal s ≡ true) ↔ ((to : State) → can_transition_to s to ≡ false)
unfolding is_terminal can_transition_to
is_terminal_iff stopped h = (λ e to. refl, λ all. refl)
is_terminal_iff (other n) h = absurd h
is_terminal_iff starting h = (λ e. cc, λ all. cc (all running))
is_terminal_iff running h = (λ e. cc, λ all. cc (all shutting_down))
is_terminal_iff _ h = (λ e. cc, λ all. cc (all stopped))
