-- ===== src/Lib.antt =====
-- jan-klod: an agent host that runs turns of a conversation. A turn goes through phases at which
-- interceptors may change, block or ask; a provider completes the request; tools run on the calls of
-- the answer; every event is appended to a session's log, from which the conversation is replayed.
--
-- What models what (paths from the repository's root):
--   Turn.antt               pkgs/host/protocol/src/turn.rs: messages, events, driver, event sink
--   Intercept.antt          pkgs/host/protocol/src/intercept.rs: phases, decisions, `Dispatcher`
--     Intercept/Types         the data types and the interfaces of interceptors, providers, tools
--     Intercept/Dispatch      `Dispatcher::dispatch`
--     Intercept/Passes        the contract of a dispatch as a relation, and that dispatch keeps it
--     Intercept/Halts         when a dispatch comes back
--   Conductor.antt          pkgs/host/agent/src/conductor.rs: one turn
--     Conductor/Effects       limits, the attached parts, and the monad of a turn
--     Conductor/Provider      `complete_with_fallback`, `complete_validated`, `validate`
--     Conductor/Tools         `run_tool_calls`
--     Conductor/Phases        the phases around the loop: `shape`, `post_phase`, the first request
--     Conductor/Turns         the loop and `run_turn`
--     Conductor/Rules         the rules by which a property of a turn is proved step by step
--     Conductor/Answers, Halts, Clearance, Fallback, Cost, Ending
--                             what is proved of a turn
--   Session/EventLog        pkgs/host/session/src/event_log.rs: the encoding of events and records
--   Session/Store           pkgs/host/session/src/store.rs: the table `events`
--     Session/Store/Rows      the rows of a session and their order
--     Session/Store/Chain, Fork, Cuts, Recent
--                             what is proved of appends, forks and the tail of a log
--     Session/Store/Digests, Updates, Relinks, MigratedRows, Migrated
--                             `migrate_digests`, and what it does to the rows of a session
--   Session/Persist         pkgs/host/session/src/event_log.rs: the sink and the driver that log a turn
--   Session/Entries         pkgs/host/session/src/store.rs: the table `entries`
--     Session/Entries/Maps    the table as a map
--   Session/Transcripts     pkgs/host/session/src/event_log.rs: `migrate_transcripts`
--   Session/Projection      pkgs/host/session/src/projection.rs: the log as messages
--   Agent                   pkgs/host/agent/src/lib.rs: `run_and_persist`, a turn with its log
--     Agent/Appends, Returns, Poisoned
--                             what a turn does to the store, that it comes back, and what it does if
--                             the store cannot be locked
--   Permission              pkgs/extensions/interceptor-permission/src: the gate of tool calls
--     Permission/Paths        rules.rs: the paths among a call's arguments
--     Permission/Rules        rules.rs: the policy and the review of a call
--     Permission/Wording      rules.rs: answers, verdicts and what the user is told
--     Permission/Gate         lib.rs: the interceptor and its store of decisions
--   Guardrails              pkgs/extensions/interceptor-guardrails/src: the operator's content rules
--     Guardrails/Rules        rules.rs: the rules and the reviews
--     Guardrails/Component    lib.rs: the interceptor
--     Guardrails/Whole, Fires, Redacts, Context, Closed
--                             what is proved of configurations, reviews and the interceptor
--   Plan                    pkgs/extensions/tool-plan/src: the plan of a task
--     Plan/Steps, Tool        plan.rs and lib.rs: the operations, and the tool over its storage
--     Plan/Ids, Keeps         the numbers of steps, and that the stored plan is the plan
--   Egress                  pkgs/host/wasm/src/egress.rs: the destinations that components may reach
--     Egress/Addresses        addresses, and which are public
--     Egress/Ranges, Grants   the public addresses, and what `check` allows
--   Glob                    pkgs/extensions/guest-fs/src/lib.rs: the patterns of paths
--     Glob/Means, Names, Paths
--                             what a pattern means, and that the matcher agrees
--   Guest                   pkgs/host/wasm/src/guest_storage.rs: the storage that a component is given
--     Guest/Calls             its calls
--     Guest/Placed, Apart, Reads
--                             where a namespace lands, who is kept apart, what is read back
--     Guest/Table             pkgs/host/agent/src/session_entries.rs: the durable store beneath
--   Jobs                    pkgs/host/host/src/session_thread.rs: the queue of the session's thread
--   Json.antt, Common.antt  values of JSON, and the helpers that the parts share
--
-- How the code corresponds. The traits `Interceptor`, `Completer`, `ToolInvoker`, `Driver` and
-- `EventSink` are records of functions on a shared state `W`, which stands for everything that the
-- implementations may change; a theorem about a turn holds for every `W` and every such record.
-- The conductor's definitions run in a state monad with `none` for a computation that has not come
-- back. A loop of the source is a function by recursion: `for` loops on their list, the retry loop
-- on the attempts that are left. Two loops have no bound of their own: the inner loop of
-- `dispatch`, for an interceptor may ask for ever, and the loop of `run_turn`, which the cap
-- bounds; they take fuel (`ask_fuel` and `loop_fuel`), and Intercept/Halts and Conductor/Halts say
-- how much is enough. The loop of `match_name` runs on the fuel `enough`, within which Glob/Names
-- shows that it ends. Numbers are natural; a `seq` and a `ts` are within an `i64`, whose bound is
-- written out where the source clamps to it; the next `seq` of a session is one more than the
-- last, without that bound. The table `events` is the list of its rows in the order of insertion,
-- and each SQL statement is the function on that list that it states.
--
-- Parameters: the JSON library (`Codec`, with the hypothesis that it reads back a given value
-- where a theorem needs it), SHA-256, the clock, the regular expressions of the guardrails,
-- SQLite's LIKE, the parsing of addresses and the resolution of names, lower-casing, and, of the
-- permission gate, lower-casing and the host's storage, of which the theorems on decisions that
-- stand ask that writes are read back.
--
-- Not modelled: failures of SQLite (of the lock, its poisoning is where a turn is logged, not
-- where a component's storage is served), the WebAssembly runtime, the host binary and its
-- transports, the terminal client, the configuration, and the other extensions: they are I/O, or
-- libraries, or parts that stand behind the interfaces above.
pub mod Common
pub mod Json
pub mod Turn
pub mod Intercept
pub mod Conductor
pub mod Session
pub mod Agent
pub mod Permission
pub mod Guardrails
pub mod Plan
pub mod Egress
pub mod Glob
pub mod Guest
pub mod Jobs
