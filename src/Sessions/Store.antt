-- ===== src/Sessions/Store.antt =====
-- `InMemoryEventStore` of sessions/store.py. A call that raises has changed nothing, since the
-- writes of `append` stand after its checks. The lock makes each call one step.
pub mod Log
pub mod Soundness
pub mod Appends
use aihi.Prelude.{
  ℕ, suc, ◌+◌, String, Bool, true, false, not, Option, none, some, List, [], ◌∷◌, ◌++◌, map, Result,
  ok, err, concurrency_conflict, event_conflict, session_not_found, value_error, ◌>>=◌, ◌>>◌,
  raise_if, or_raise, is_some, ◌==◌, ltb, nat_eq, length, filter, distinct, contains, ◌&&◌,
  if◌then◌else◌,
}
use aihi.Json.{Json, Items, Fields, float, arr, obj, nil, cons, end, field}
use aihi.Dict
use aihi.Dict.{Dict}
use aihi.Event.{Event, persisted}

pub record SessionInfo : Type 0 where
  pub session_id : String
  pub head_seq : ℕ
  pub created_at : String
  pub metadata : Fields
  pub parent_session_id : Option String

pub record Store : Type 0 where
  pub sessions : Dict SessionInfo
  pub events : Dict (List Event)
  pub event_sessions : Dict String

abbrev pub empty : Store
empty = record { sessions = []; events = []; event_sessions = [] }

abbrev pub event_list : Option (List Event) → List Event
event_list none = []
event_list (some es) = es

-- `self._events[session_id]`
abbrev pub events_of : Store → String → List Event
events_of s sid = event_list (Dict.lookup s.events sid)

-- Which values `json.dumps` writes with `allow_nan=False`: a float must not be `nan` or infinite.
abbrev not_finite : List String
not_finite = "nan" ∷ "inf" ∷ "-inf" ∷ []

unfoldable mutual
  pub is_finite : Json → Bool
  is_finite (float s) = not (contains s not_finite)
  is_finite (arr vs) = finite_items vs
  is_finite (obj fs) = finite_fields fs
  is_finite _ = true

  pub finite_items : Items → Bool
  finite_items nil = true
  finite_items (cons v vs) = is_finite v && finite_items vs

  pub finite_fields : Fields → Bool
  finite_fields end = true
  finite_fields (field k v fs) = is_finite v && finite_fields fs

-- `_json_copy`: what was written is read back as it was.
abbrev pub json_copy : Fields → Result Fields
json_copy fs = do raise_if (not (finite_fields fs)) value_error; ok fs

unfoldable pub create_session : Store → String → Fields → Option String → String → Result Store
create_session s sid metadata parent now = do
  raise_if (is_some (Dict.lookup s.sessions sid)) concurrency_conflict
  copied ← json_copy metadata
  ok (record s {
    sessions = Dict.insert s.sessions sid (record {
      session_id = sid;
      head_seq = 0;
      created_at = now;
      metadata = copied;
      parent_session_id = parent;
    });
    events = Dict.insert s.events sid [];
  })

abbrev pub ids : List Event → List String
ids = map (λ e. e.id)

-- The loop that numbers a batch: the next event gets `suc seq`.
unfoldable pub stamp : Store → String → ℕ → List Event → Result (List Event)
stamp s sid seq [] = ok []
stamp s sid seq (e ∷ es) = do
  raise_if (not (e.session_id == sid)) value_error
  raise_if (is_some (Dict.lookup s.event_sessions e.id)) event_conflict
  payload ← json_copy e.payload
  rest ← stamp s sid (suc seq) es
  ok (persisted (record e { payload = payload }) (suc seq) ∷ rest)

unfoldable pub claim_ids : Dict String → String → List Event → Dict String
claim_ids d sid [] = d
claim_ids d sid (e ∷ es) = claim_ids (Dict.insert d e.id sid) sid es

-- The writes that follow the checks.
unfoldable pub commit : Store → String → SessionInfo → ℕ → List Event → Store
unfolding claim_ids
commit s sid info expected_seq saved = record {
  sessions = Dict.insert s.sessions sid (record info { head_seq = expected_seq + length saved });
  events = Dict.insert s.events sid (events_of s sid ++ saved);
  event_sessions = claim_ids s.event_sessions sid saved;
}

unfoldable pub append : Store → String → ℕ → List Event → Result (List Event × Store)
unfolding stamp commit
append s sid expected_seq events = do
  info ← or_raise (Dict.lookup s.sessions sid) session_not_found
  raise_if (not (nat_eq info.head_seq expected_seq)) concurrency_conflict
  raise_if (not (distinct (ids events))) event_conflict
  saved ← stamp s sid expected_seq events
  ok (saved, commit s sid info expected_seq saved)

-- `event.seq or 0`
abbrev pub seq_or_zero : Option ℕ → ℕ
seq_or_zero none = 0
seq_or_zero (some n) = n

unfoldable pub read : Store → String → ℕ → Result (List Event)
read s sid after_seq = do
  raise_if (not (is_some (Dict.lookup s.sessions sid))) session_not_found
  ok (filter (λ e. ltb after_seq (seq_or_zero e.seq)) (events_of s sid))

unfoldable pub get : Store → String → Result SessionInfo
get s sid = or_raise (Dict.lookup s.sessions sid) session_not_found
