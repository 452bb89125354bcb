-- ===== src/Runtime/State/Ends.antt =====
-- A run can always come to an end, and then stays there.
use aihi.Prelude.{◌≡◌, refl, Bool, true, false, List, [], ◌∷◌, ok, arith}
use aihi.Runtime.State.{RunState, transition_all}

-- The states in which a run is over.
abbrev pub is_final : RunState → Bool
is_final RunState.completed = true
is_final RunState.failed = true
is_final RunState.interrupted = true
is_final RunState.cancelled = true
is_final _ = false

-- A way to a final state: through `running`, if the run has not started.
abbrev way : RunState → RunState → List RunState
way RunState.created target = RunState.running ∷ target ∷ []
way _ target = target ∷ []

way-ends :
    (s target : RunState)
    → is_final s ≡ false
    → is_final target ≡ true
    → transition_all s (way s target) ≡ ok target
unfolding transition_all
way-ends RunState.created RunState.created a b = cc
way-ends s target a b = ground arith

-- A run that has not ended can still be brought to each of the four ends.
pub transition_all-ends :
    (s target : RunState)
    → is_final s ≡ false
    → is_final target ≡ true
    → (targets : List RunState) × (transition_all s targets ≡ ok target)
transition_all-ends s target a b = (way s target, way-ends s target a b)

-- A run that has ended takes no further transition.
pub transition_all-final :
    (s t : RunState) (targets : List RunState)
    → is_final s ≡ true
    → transition_all s targets ≡ ok t
    → targets ≡ []
unfolding transition_all
transition_all-final s t [] f h = refl
transition_all-final RunState.created t (x ∷ xs) f h = cc
transition_all-final s t (x ∷ xs) f h = ground arith
