-- ===== src/Daemon/State.antt =====
-- internal/daemon/state.go: the states of the daemon and the transitions between them.
pub mod Runs
use rbln_container_toolkit.Prelude.{
  ℕ, ℕ_discrete, String, ◌<>◌, Bool, true, false, ◌≡◌, Option, none, some, List, [], ◌∷◌,
  if◌then◌else◌, ite, decimal,
}

-- `State` is a Go `int`: the five named values, and any other number.
pub data State : Type 0 where
  starting running shutting_down stopped failed : State
  other : ℕ → State

pub State-discrete : Discrete State
State-discrete = hlevel ℕ_discrete

-- `validTransitions`; a state that the map lacks allows nothing.
valid_transitions : State → Option (List State)
valid_transitions starting = some (running ∷ failed ∷ [])
valid_transitions running = some (shutting_down ∷ [])
valid_transitions shutting_down = some (stopped ∷ [])
valid_transitions failed = some (stopped ∷ [])
valid_transitions stopped = some []
valid_transitions (other n) = none

-- `stateNames`, and the fallback of `String`.
unfoldable pub state_name : State → String
state_name starting = "starting"
state_name running = "running"
state_name shutting_down = "shutting_down"
state_name stopped = "stopped"
state_name failed = "failed"
state_name (other n) = "unknown(" <> (decimal n <> ")")

-- The loop of `CanTransitionTo` over the allowed states.
is_allowed : List State → State → Bool
is_allowed [] to = false
is_allowed (s ∷ allowed) to =
    let rest = is_allowed allowed to in ite (State-discrete s to) true rest

unfoldable pub can_transition_to : State → State → Bool
unfolding valid_transitions is_allowed State-discrete
can_transition_to s to = elim (valid_transitions s) [
  | none ↦ false
  | some allowed ↦ is_allowed allowed to
]

unfoldable pub is_terminal : State → Bool
unfolding State-discrete
is_terminal s = ite (State-discrete s stopped) true false

abbrev pub new_state_machine : State
new_state_machine = starting

-- `TransitionTo`: the error text, if there is one, and the state that the machine is left in.
unfoldable pub transition_to : State → State → Option String × State
unfolding can_transition_to state_name
transition_to current to = if can_transition_to current to then (none, to) else (
  some ("invalid state transition: " <> (state_name current <> (" -> " <> state_name to))),
  current,
)
