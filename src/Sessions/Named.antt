-- ===== src/Sessions/Named.antt =====
-- Events that name their message: what sessions/session.py shows of them in `project_messages` takes
-- no generated id.
use aihi.Prelude.{
  map, contains, String, ◌≡◌, refl, Bool, true, none, some, List, [], ◌∷◌, all, arith, Bool-cases,
  Option-cases, inl, inr, if◌then◌else◌, Result-cases,
}
use aihi.Json.{
  Json, Fields, obj, arr, nil, int, pos, end, field, get, as_dict, as_list, get_or, truthy,
}
use aihi.Event.{Event}
use aihi.Python.{Python, text}
use aihi.Messages.{Message, decode_message, message_from_dict}
use aihi.Sessions.Projection.{
  is_message_event, is_compaction, add_message, place_summary, compact, project_event, project_from,
  first_index,
}

-- What stands there carries an id, if it is a message at all.
abbrev pub names_itself : Json → Bool
names_itself v = elim (as_dict v) [ none ↦ true | some raw ↦ truthy (get raw "id") ]

abbrev pub is_named : Event → Bool
is_named e =
    if is_message_event e
    then names_itself (get e.payload "message")
    else if is_compaction e
    then names_itself (get e.payload "summary")
    else true

module _ ⦃py : Python⦄ where
  message_from_dict_named :
      (i j : String) (raw : Fields)
      → truthy (get raw "id") ≡ true
      → message_from_dict i raw ≡ message_from_dict j raw
  unfolding message_from_dict
  message_from_dict_named i j raw h = rw h refl

  pub decode_message_named :
      (i j : String) (value raw : Fields)
      → as_dict (get value "message") ≡ some raw
      → truthy (get raw "id") ≡ true
      → decode_message i value ≡ decode_message j value
  unfolding decode_message
  decode_message_named i j value raw p h = rw (p, message_from_dict_named i j raw h) refl

  module _ (f g : Event → String) (ms : List Message) (e : Event) where
    add_message_named :
        names_itself (get e.payload "message") ≡ true → add_message f ms e ≡ add_message g ms e
    unfolding add_message
    add_message_named h = elim (Option-cases (as_dict (get e.payload "message"))) [
      | inl p ↦ rw (p, add_message) refl
      | inr (raw, p) ↦
          rw
            (
              p,
              add_message,
              decode_message_named (f e) (g e) e.payload raw p (rw (p, names_itself) at h),
            )
            refl
    ]

    place_summary_named :
        (replaced : List Json) (raw : Fields)
        → truthy (get raw "id") ≡ true
        → place_summary f ms replaced raw e ≡ place_summary g ms replaced raw e
    unfolding place_summary
    place_summary_named replaced raw h =
        let value =
          field "message_schema_version"
            (get_or e.payload "summary_message_schema_version" (int (pos 1)))
            (field "message" (obj raw) end) in
        elim (Option-cases (first_index (λ m. contains m.id (map text replaced)) ms)) [
          | inl p ↦ rw (p, place_summary) refl
          | inr (i, p) ↦
              rw (p, place_summary, decode_message_named (f e) (g e) value raw refl h) refl
        ]

    compact_named : names_itself (get e.payload "summary") ≡ true → compact f ms e ≡ compact g ms e
    unfolding compact
    compact_named h =
        elim (Option-cases (as_list (get_or e.payload "replaced_message_ids" (arr nil)))) [
          | inl p ↦ rw (p, compact) refl
          | inr (replaced, p) ↦ elim (Option-cases (as_dict (get e.payload "summary"))) [
            | inl q ↦ rw (p, compact, q) refl
            | inr (raw, q) ↦
                rw (p, compact, q, place_summary_named replaced raw (rw (q, names_itself) at h))
                  refl
          ]
        ]

    pub project_event_named : is_named e ≡ true → project_event f ms e ≡ project_event g ms e
    unfolding project_event
    project_event_named h = elim (Bool-cases (is_message_event e)) [
      | inl p ↦ rw (p, project_event) (add_message_named (rw p at h))
      | inr p ↦ elim (Bool-cases (is_compaction e)) [
        | inl q ↦ rw (p, project_event, q) (compact_named (rw (p, q) at h))
        | inr q ↦ rw (p, project_event, q) refl
      ]
    ]

  -- Events that name their messages show the same messages whatever ids are generated.
  pub project_from_named :
      (f g : Event → String) (ms : List Message) (es : List Event)
      → all is_named es ≡ true
      → project_from f ms es ≡ project_from g ms es
  unfolding project_from
  project_from_named f g ms [] h = refl
  project_from_named f g ms (e ∷ es) h =
      let step = project_event_named f g ms e (ground arith) in
      elim (Result-cases (project_event g ms e)) [
        | inl (next, p) ↦ rw (step, project_from, p) (project_from_named f g next es (ground arith))
        | inr (x, p) ↦ rw (step, project_from, p) refl
      ]
