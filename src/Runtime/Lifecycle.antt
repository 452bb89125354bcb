-- ===== src/Runtime/Lifecycle.antt =====
-- runtime/coordinator.py: what `RunCoordinator` reads of the lifecycle of a run in the events of
-- its session.
pub mod Suspended
use aihi.Prelude.{
  String, Bool, true, false, not, ◌&&◌, Option, none, some, List, [], ◌∷◌, ◌++◌, map, filter,
  contains, is_some, ◌==◌, if◌then◌else◌,
}
use aihi.Json.{Json, arr, nil, get_or, list_of}
use aihi.Dict
use aihi.Dict.{Dict}
use aihi.Event.{Event, same_text}
use aihi.Python.{Python, text}
use aihi.Messages.{Message, ToolCallBlock, tool_calls}

abbrev pub run_lifecycle_events : List String
run_lifecycle_events =
    "run.started" ∷ "run.resumed" ∷ "run.suspended" ∷ "run.completed" ∷ "run.failed"
    ∷ "run.interrupted" ∷ "run.cancelled" ∷ []

abbrev pub terminal_run_events : List String
terminal_run_events = "run.completed" ∷ "run.failed" ∷ "run.interrupted" ∷ "run.cancelled" ∷ []

abbrev pub non_resumable_run_events : List String
non_resumable_run_events = "run.completed" ∷ "run.failed" ∷ "run.cancelled" ∷ []

-- The first hit of a loop over `reversed(items)`.
abbrev pub find_last {ℓ} : {A : Type ℓ} → (A → Bool) → List A → Option A
find_last p [] = none
find_last p (x ∷ xs) = elim (find_last p xs) [
  | some y ↦ some y
  | none ↦ if p x then some x else none
]

abbrev pub find_first {ℓ} : {A : Type ℓ} → (A → Bool) → List A → Option A
find_first p [] = none
find_first p (x ∷ xs) = let rest = find_first p xs in if p x then some x else rest

abbrev pub is_lifecycle : String → Event → Bool
is_lifecycle run_id e = same_text e.run_id (some run_id) && contains e.type run_lifecycle_events

unfoldable pub last_lifecycle_event : List Event → String → Option String
last_lifecycle_event events run_id = elim (find_last (is_lifecycle run_id) events) [
  | none ↦ none
  | some e ↦ some e.type
]

unfoldable pub run_started_event : List Event → String → Option Event
run_started_event events run_id =
    find_first (λ e. same_text e.run_id (some run_id) && e.type == "run.started") events

-- The loop of `suspended_runs`: the last lifecycle event of each run, and the runs in the order
-- in which they first have one.
abbrev pub note_run : String → String → Dict String × List String → Dict String × List String
note_run run_id type (last, order) = (
  Dict.insert last run_id type,
  if is_some (Dict.lookup last run_id) then order else order ++ run_id ∷ [],
)

abbrev pub note_event : Event → Dict String × List String → Dict String × List String
note_event e seen = elim e.run_id [
  | none ↦ seen
  | some run_id ↦ if contains e.type run_lifecycle_events then note_run run_id e.type seen else seen
]

unfoldable pub last_events : List Event → Dict String × List String → Dict String × List String
last_events [] seen = seen
last_events (e ∷ es) seen = last_events es (note_event e seen)

unfoldable pub suspended_runs : List Event → List String
unfolding last_events
suspended_runs events =
    let (last, order) = last_events events ([], []) in
    filter (λ run_id. same_text (Dict.lookup last run_id) (some "run.suspended")) order

module _ ⦃py : Python⦄ where
  unfoldable pub suspended_tool_call_ids : List Event → String → List String
  suspended_tool_call_ids events run_id = elim (find_last (is_lifecycle run_id) events) [
    | none ↦ []
    | some e ↦
        if e.type == "run.suspended"
        then elim (get_or e.payload "pending_tool_call_ids" (arr nil)) [
          | arr vs ↦ map text (list_of vs)
          | _ ↦ []
        ]
        else []
  ]

abbrev pub calls_of_all : List Message → List ToolCallBlock
calls_of_all [] = []
calls_of_all (m ∷ ms) = tool_calls m ++ calls_of_all ms

unfoldable pub pending_calls : List Message → List String → List ToolCallBlock
pending_calls messages ids = filter (λ c. contains c.id ids) (calls_of_all messages)
