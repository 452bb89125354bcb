-- ===== src/Agents/Sweep/Finite.antt =====
-- The transitions of a task raise no `RecursionError`.
use aihi.Prelude.{
  ℕ, String, ◌≢◌, ap, Bool, true, false, not, Option, none, some, List, [], ◌∷◌, Result, ok, err,
  Error, recursion_error, agent_state_error, agent_validation_error, ◌>>=◌, ◌>>◌, raise_if,
  or_raise, ◌==◌, ok-ne-err, err-injective, if◌then◌else◌, ltb, map_result,
}
use aihi.Text.{strip, size}
use aihi.Dict
use aihi.Dict.{lookup-insert}
use aihi.Agents.Types.{AgentState, terminal, TaskNode, TaskResult, text_of, too_long, new_result}
use aihi.Agents.Graph.{
  TaskGraph, get, transition, can_move, result_of, made_result, default_result, blocked, any_active,
}

-- What raises no `RecursionError`.
abbrev pub IsFinite : {A : Type 0} → Result A → Type 0
IsFinite r = r ≢ err recursion_error

>>=-IsFinite :
    {A B : Type 0} (r : Result A) (f : A → Result B)
    → IsFinite r
    → ((a : A) → IsFinite (f a))
    → IsFinite (r >>= f)
>>=-IsFinite (ok a) f h k = k a
>>=-IsFinite (err x) f h k = λ p. h (ap err (err-injective p))

or_raise-IsFinite :
    {A : Type 0} (o : Option A) (x : Error) → x ≢ recursion_error → IsFinite (or_raise o x)
or_raise-IsFinite none x n = λ p. n (err-injective p)
or_raise-IsFinite (some a) x n = ok-ne-err

invalid : agent_validation_error ≢ recursion_error
invalid p = cc

misplaced : agent_state_error ≢ recursion_error
misplaced p = cc

pub get-IsFinite : (g : TaskGraph) (k : String) → IsFinite (get g k)
unfolding get
get-IsFinite g k = or_raise-IsFinite (Dict.lookup g.nodes k) agent_validation_error invalid

guarded-IsFinite :
    {B : Type 0} (b : Bool) (x : Error) (m : Result B)
    → x ≢ recursion_error
    → IsFinite m
    → IsFinite (raise_if b x >> m)
guarded-IsFinite true x m n h = λ p. n (err-injective p)
guarded-IsFinite false x m n h = h

text_of-IsFinite : (n : ℕ) (s : String) → IsFinite (text_of n s)
unfolding text_of
text_of-IsFinite n s = guarded-IsFinite (strip s == "") agent_validation_error _ invalid (
    guarded-IsFinite (ltb n (size (strip s))) agent_validation_error (ok (strip s)) invalid
      ok-ne-err)

map_result-IsFinite :
    {A B : Type 0} (f : A → Result B) (xs : List A)
    → ((x : A) → IsFinite (f x))
    → IsFinite (map_result f xs)
map_result-IsFinite f [] h = ok-ne-err
map_result-IsFinite f (x ∷ xs) h =
    >>=-IsFinite (f x) _ (h x)
      (λ y. >>=-IsFinite (map_result f xs) _ (map_result-IsFinite f xs h) (λ ys. ok-ne-err))

new_result-IsFinite : (r : TaskResult) → IsFinite (new_result r)
unfolding new_result
new_result-IsFinite r =
    >>=-IsFinite (text_of 256 r.task_id) _ (text_of-IsFinite 256 r.task_id) (λ _.
      guarded-IsFinite (ltb 4096 (size r.summary)) agent_validation_error _ invalid (
        >>=-IsFinite (map_result (text_of 256) r.output_artifact_ids) _
          (map_result-IsFinite (text_of 256) r.output_artifact_ids (text_of-IsFinite 256))
          (λ _.
            guarded-IsFinite (too_long r.error) agent_validation_error (ok _) invalid ok-ne-err)))

default_result-IsFinite :
    (k : String) (s : AgentState) (reason : Option String) → IsFinite (default_result k s reason)
default_result-IsFinite k s reason =
    elim (terminal s) as (λ b. IsFinite (if b then made_result k s reason else ok none)) [
      | true ↦ >>=-IsFinite (new_result _) _ (new_result-IsFinite _) (λ _. ok-ne-err)
      | false ↦ ok-ne-err
    ]

any_active-IsFinite : (g : TaskGraph) (cs : List String) → IsFinite (any_active g cs)
unfolding any_active
any_active-IsFinite g [] = ok-ne-err
any_active-IsFinite g (c ∷ cs) = >>=-IsFinite (get g c) _ (get-IsFinite g c) (λ child.
    elim (terminal child.state) as (λ b. IsFinite (if b then any_active g cs else ok true)) [
      | true ↦ any_active-IsFinite g cs
      | false ↦ ok-ne-err
    ])

blocked-IsFinite : (g : TaskGraph) (s : AgentState) (n : TaskNode) → IsFinite (blocked g s n)
blocked-IsFinite g AgentState.completed n = any_active-IsFinite g n.child_task_ids
blocked-IsFinite g AgentState.pending n = ok-ne-err
blocked-IsFinite g AgentState.running n = ok-ne-err
blocked-IsFinite g AgentState.waiting n = ok-ne-err
blocked-IsFinite g AgentState.failed n = ok-ne-err
blocked-IsFinite g AgentState.cancelled n = ok-ne-err
blocked-IsFinite g AgentState.interrupted n = ok-ne-err

pub transition-IsFinite :
    (now : String) (g : TaskGraph) (k : String) (state : AgentState) (reason : Option String)
    → IsFinite (transition now g k state reason none)
unfolding transition result_of
transition-IsFinite now g k state reason = >>=-IsFinite (get g k) _ (get-IsFinite g k) (λ node.
    guarded-IsFinite (not (can_move node.state state)) agent_state_error _ misplaced (
      >>=-IsFinite (default_result k state reason) _ (default_result-IsFinite k state reason) (λ r.
        >>=-IsFinite (blocked g state node) _ (blocked-IsFinite g state node)
          (λ b. guarded-IsFinite b agent_state_error (ok _) misplaced ok-ne-err))))
