-- ===== src/Runtime/State.antt =====
-- runtime/state.py: the states of a run and the moves between them.
pub mod Ends
use aihi.Prelude.{
  ℕ, Bool, true, false, List, [], ◌∷◌, Result, ok, err, invalid_run_transition, ◌>>=◌, ◌>>◌,
  raise_if, not, any, nat_eq,
}

pub data RunState : Type 0 where
  created running waiting_tool waiting_approval completed failed interrupted cancelled : RunState

-- the place of a state in the enumeration, by which two states are compared
abbrev pub rank : RunState → ℕ
rank RunState.created = 0
rank RunState.running = 1
rank RunState.waiting_tool = 2
rank RunState.waiting_approval = 3
rank RunState.completed = 4
rank RunState.failed = 5
rank RunState.interrupted = 6
rank RunState.cancelled = 7

unfoldable pub transitions : RunState → List RunState
transitions RunState.created =
    RunState.running ∷ RunState.interrupted ∷ RunState.cancelled ∷ RunState.failed ∷ []
transitions RunState.running =
    RunState.waiting_tool ∷ RunState.completed ∷ RunState.interrupted ∷ RunState.cancelled
    ∷ RunState.failed ∷ []
transitions RunState.waiting_tool =
    RunState.running ∷ RunState.waiting_approval ∷ RunState.completed ∷ RunState.interrupted
    ∷ RunState.cancelled ∷ RunState.failed ∷ []
transitions RunState.waiting_approval =
    RunState.running ∷ RunState.waiting_tool ∷ RunState.completed ∷ RunState.interrupted
    ∷ RunState.cancelled ∷ RunState.failed ∷ []
transitions _ = []

-- `RunStateMachine.transition`, which gives the new state
unfoldable pub transition : RunState → RunState → Result RunState
unfolding transitions
transition state target = do
  raise_if (not (any (λ s. nat_eq (rank s) (rank target)) (transitions state)))
      invalid_run_transition
  ok target

-- A row of calls of `transition` that all succeed.
unfoldable pub transition_all : RunState → List RunState → Result RunState
unfolding transition
transition_all state [] = ok state
transition_all state (target ∷ targets) = do
  next ← transition state target
  transition_all next targets
