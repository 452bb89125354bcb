-- ===== src/Examples/Contexts.antt =====
-- The pressure on a context and its compaction at concrete inputs.
use aihi.Prelude.{
  ℕ, ◌*◌, String, ◌≡◌, refl, false, none, List, [], ◌∷◌, Bool, ok, err, length,
  context_window_exceeded, value_error, ◌==◌,
}
use aihi.Json.{end}
use aihi.Messages.{Message, Role, text_block}
use aihi.Context.Grouping.{group_tool_exchanges, group_from, take_group, opened, carried}
use aihi.Context.Pressure.{
  CompactionPolicy, CountMethod, ContextPressure, DecisionReason, check_policy, evaluate,
  validate_capacity, recent_tail_budget,
}
use aihi.Context.Compaction.{
  AssembledContext, CompiledContext, check_budget, compact, initial_tail_indexes, select_tail,
  shrink, full_tokens, retained_at, omitted_from,
}
use aihi.Context.Compaction.Kept.{IsCompacted, compact-IsCompacted}
use aihi.Context.Eviction.{
  FactField, ContextFact, ContextState, eviction_order, count_facts, tier, fact_recency, is_lower,
  least, evicted_field, drop_first, evict, bound_facts,
}
use aihi.Context.Eviction.Bounded.{Evicts, bound_facts-Evicts}

abbrev policy : CompactionPolicy
policy = record {
  exact_count_ratio = record { num = 7; den = 10 };
  compaction_trigger_ratio = record { num = 8; den = 10 };
  compaction_target_ratio = record { num = 5; den = 10 };
  recent_tail_ratio = record { num = 1; den = 5 };
  recent_tail_max_tokens = 8000;
  summary_max_tokens = 4000;
  summary_fact_max_chars = 500;
}

abbrev calm : ContextPressure
calm = record {
  input_tokens = 500;
  input_capacity = 1000;
  target_tokens = 500;
  count_method = CountMethod.estimate;
  needs_compaction = false;
  reason = DecisionReason.below_threshold;
  count_fallback_reason = none;
}

pressures : Unit {0}
unfolding evaluate check_policy validate_capacity
pressures = tt

calm_at_target : evaluate policy 500 1000 CountMethod.estimate none ≡ ok calm
unfolding pressures
calm_at_target = refl

-- Each message takes 100 tokens, and the first one is a summary.
abbrev message : String → Message
message id = record {
  role = Role.user;
  content = text_block id false ∷ [];
  id = id;
  metadata = end;
}

abbrev hundred_each : List Message → ℕ
hundred_each messages = 100 * length messages

abbrev is_summary : Message → Bool
is_summary m = m.id == "s1"

abbrev summary : List Message → List Message → Message
summary omitted retained = message "s2"

abbrev assembled : ℕ → AssembledContext
assembled window = record {
  messages = message "s1" ∷ message "m1" ∷ message "m2" ∷ message "m3" ∷ message "m4" ∷ [];
  system_tokens = 10;
  budget = record {
    context_window = window;
    reserved_output = 100;
    tool_schema_tokens = 10;
    safety_margin = 0;
  };
}

abbrev small_policy : CompactionPolicy
small_policy = record policy {
  summary_max_tokens = 30;
  recent_tail_ratio = record { num = 1; den = 2 };
}

abbrev smaller : CompiledContext
smaller = record {
  messages = message "s2" ∷ message "m3" ∷ message "m4" ∷ [];
  estimated_tokens = 320;
  replaced_message_ids = "s1" ∷ "m1" ∷ "m2" ∷ [];
  retained_message_ids = "m3" ∷ "m4" ∷ [];
}

compactions : Unit {0}
unfolding compact initial_tail_indexes select_tail shrink full_tokens retained_at omitted_from
    recent_tail_budget validate_capacity group_tool_exchanges group_from take_group opened carried
    check_budget
compactions = tt

compacts : compact hundred_each is_summary summary (assembled 800) small_policy ≡ ok smaller
unfolding compactions
compacts = refl

no_room :
    compact hundred_each is_summary summary (assembled 300) small_policy
    ≡ err context_window_exceeded
unfolding compactions
no_room = refl

no_capacity : check_budget (assembled 100).budget ≡ err value_error
unfolding compactions
no_capacity = refl

compact-IsCompacted_example :
    IsCompacted hundred_each is_summary summary (assembled 800) small_policy smaller
compact-IsCompacted_example =
    compact-IsCompacted hundred_each is_summary summary (assembled 800) small_policy smaller
      compacts

-- A state with an old decision and two newer failures, each of 10 tokens.
abbrev fact : String → ℕ → ContextFact
fact id n = record { id = id; text = id; source_event_seqs = n ∷ []; observed_seq = none }

abbrev noted : ContextState
noted = record {
  objective = "Ship";
  facts = λ f. elim f [
    | FactField.failures ↦ fact "f1" 7 ∷ fact "f2" 8 ∷ []
    | FactField.decisions ↦ fact "d1" 2 ∷ []
    | _ ↦ []
  ];
}

abbrev ten_each : ContextState → ℕ
ten_each s = 10 * count_facts s eviction_order

evictions : Unit {0}
unfolding bound_facts evict evicted_field least is_lower tier fact_recency drop_first
evictions = tt

keeps_failure : (bound_facts ten_each 20 noted).facts FactField.failures ≡ fact "f2" 8 ∷ []
unfolding evictions
keeps_failure = refl

keeps_decision : (bound_facts ten_each 10 noted).facts FactField.decisions ≡ fact "d1" 2 ∷ []
unfolding evictions
keeps_decision = refl

bound_facts-Evicts_example : Evicts ten_each 20 noted (bound_facts ten_each 20 noted)
bound_facts-Evicts_example = bound_facts-Evicts ten_each 20 noted
