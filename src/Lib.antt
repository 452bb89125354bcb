-- ===== src/Lib.antt =====
-- Verification of aihi, a harness for language-model agents.
--
-- The program writes everything that happens to an append-only event log. A session is one such
-- log with its projections: the messages that the model sees, the tool calls that are still open,
-- and the authorization (leases and approvals) under which tools run. A store keeps the logs of
-- all sessions; the policy engine decides on a tool call from the leases and approvals that the
-- log replays to. The coordinator drives a run through its states, opens it on the log, runs the
-- tool calls of each message and closes it; hooks observe what it does. The coding agent is an
-- application with a policy of its own, whose child runs get a part of their parent's authority,
-- and which talks to its user interface in frames. The parts and their files, with paths from the
-- repository's root, where AGENT is packages/aihi/agent/src/aihi/agent, MODELS is
-- packages/aihi/models/src/aihi/models and CODE is
-- packages/aihi/code-agent/src/aihi/code_agent:
--   * Event, Event/Codec: `Event` of AGENT/_core/events.py. Event/Schema: AGENT/_core/schema.py.
--   * Policy/Leases, Policy/Approvals, Policy/Authorization: AGENT/policy/leases.py. Each branch of
--     `AuthorizationState.apply` is a function of its own, and `apply` picks among them.
--   * Policy/Engine: `DefaultPolicyEngine` and `PermissionContext` of AGENT/policy/engine.py.
--   * Messages: the blocks and messages of MODELS/types.py and the codec of
--     MODELS/serialization.py.
--   * Sessions/Store: `InMemoryEventStore` of AGENT/sessions/store.py.
--   * Sessions/Projection, Sessions/Session, Sessions/Grants, Sessions/Repair,
--     Sessions/Refresh: AGENT/sessions/session.py.
--   * Context/Grouping: AGENT/context/grouping.py. Context/Pressure: AGENT/context/policy.py.
--     Context/Compaction, Context/Eviction: AGENT/context/compaction.py, with the budget of
--     AGENT/context/models.py and the facts of AGENT/context/state.py.
--   * Agents/Types: the task types of AGENT/agents/types.py.
--   * Agents/Graph, Agents/Sweep: `TaskGraph` of AGENT/agents/graph.py. Sweep holds `interrupt` and
--     `cancel`, which walk the tree and may raise half-way, over the calls of Agents/Act, and
--     Validate its `_validate_graph`.
--   * Hooks, Hooks/Emit: `HookBus` of AGENT/hooks/bus.py.
--   * Runtime/State: AGENT/runtime/state.py. Runtime/Lifecycle, Runtime/Opening,
--     Runtime/ToolCalls, Runtime/Approvals, Runtime/Coordinator: parts of `RunCoordinator` of
--     AGENT/runtime/coordinator.py: what it reads of the log, how `run` and `resume` begin,
--     `_execute_tool_calls`, `_consume_one_shot`, and how a run is closed, suspended or abandoned.
--   * Coding/Permissions, Coding/Paths: CODE/permissions.py.
--   * Coding/Subagents: CODE/subagents/authority.py. Coding/Framing: CODE/framing.py.
--   * Text: `str.strip` and `len`.
--   * Prelude, Json, Dict and Python: results, JSON values, dictionaries in insertion order, and
--     what the sources use of Python's library.
--   * Examples: runs at concrete inputs, and the witnesses of the theorems.
-- Child modules hold the theorems of the module they stand under.
--
-- State is passed explicitly, and a call that may raise gives a `Result`. A call that raises
-- after it has written gives back the state beside the result. Generated ids, the current time
-- and its text are arguments, and so are the handlers of hooks, the dispatch of tool calls and the
-- resolution of paths. Python's library is the record `Python`, whose laws are those of
-- `isoformat` and `fromisoformat`. An instant is a number of microseconds, and a ratio is an exact
-- fraction. A deep copy of a value is the value, since values are immutable here, and so is the JSON
-- copy that the store takes, which raises where a float is not finite. A message without an id gets
-- a new one at each decoding, so the ids that an append draws are an argument that tells its passes
-- over the events apart, and a theorem about a reload holds for any ids that the reload draws.
--
-- Recursion is on lists and texts, but for these. The walks down the task tree run on fuel: for
-- `interrupt` and `cancel` more fuel than the depth limit is enough, and the walk of
-- `_validate_graph` needs more than the longest path. Reading a frame takes one round more than
-- the stream has bytes, since each round but the last reads one. A row of tool calls takes no more
-- rounds than it has calls, an upgrade as many as there are versions between, a number's decimal
-- text one more than the number, `refresh` the three rounds of the source, and the facts of a
-- summary are given up in no more rounds than there are facts.
--
-- Not modelled: the SQLite store, providers, sandboxes, plugins, MCP, telemetry, file artifacts,
-- evaluations and the user interfaces, which talk to databases, processes, files and networks; the
-- text of error messages; observers, which see copies and whose exceptions are dropped. Of the
-- coordinator, the loop over the model's responses and the approvals that are answered while a run
-- goes on; of the contexts, how the summary of a compaction is made, which is an argument, and the
-- projector.
pub mod Agents
pub mod Coding
pub mod Context
pub mod Dict
pub mod Event
pub mod Examples
pub mod Hooks
pub mod Json
pub mod Messages
pub mod Policy
pub mod Prelude
pub mod Python
pub mod Runtime
pub mod Sessions
pub mod Text
