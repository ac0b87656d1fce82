-- ===== src/Lib.antt =====
-- DriveGuard decides which tools an in-car agent may call. A model of the code that stands between
-- a proposed call and its execution:
--
--   * packages/context/src evaluates how fresh a snapshot of the car is and what has changed since
--     it was taken: Context, Context/Time, Context/Freshness (evaluate), Context/Conflict (detect,
--     detectVersionChanges, valueAt, deepEqual). packages/domain/src/schemas.ts gives the records.
--   * packages/policy/src decides from that evidence: Policy (types.ts), Policy/Rules (rules.ts and
--     the loop of PolicyEngine.evaluate), Policy/Registry (registry.ts), Policy/Profiles
--     (profiles.ts), Policy/Provenance (which decisions were issued, for what, and which permits
--     are consumed: isPolicyDecisionIssuedFor, consumePolicyDecisionForExecution,
--     bindIssuedDecision), Policy/Engine (normalize and PolicyEngine.evaluate, from the fields of
--     Policy/Engine/Fields, where validateDefinition is). validFreshness and validConflict of
--     engine.ts stand with the evidence they check. What validateContext makes of a context is part
--     of the input.
--   * packages/tools/src/contracts.ts and packages/capabilities/src give the data of Tools.
--   * packages/action-lifecycle/src lets a side effect wait for its confirmation: Lifecycle
--     (types.ts), Lifecycle/Canonical (canonical.ts, summary.ts), Lifecycle/State
--     (state-machine.ts), Lifecycle/Integrity (integrity.ts), Lifecycle/Repository (repository.ts),
--     Lifecycle/Consumption (authorization-consumption.ts), Lifecycle/Revalidation
--     (revalidator.ts), Lifecycle/Service with its children Create, Confirm and Settle (service.ts).
--     Lifecycle/Evolution is an abstract life of one record, as a step relation, which the
--     repository and the service refine.
--   * packages/executor/src runs the tool: Executor (types.ts), Executor/Circuit
--     (circuit-breaker.ts), Executor/Records (lifecycle.ts), Executor/Recovery (recovery.ts,
--     retry.ts), Executor/Failures (errors.ts), Executor/Idempotency (idempotency.ts),
--     Executor/Concurrency (concurrency.ts), and
--     executor.ts and events.ts in Executor/Run: Attempts is the loop over the attempts, Failure its
--     catch clause, Finish the ways to end, Owner is #executeOwner, Binding and Execute are the
--     rest of execute. Executor/Run/Repeats reads the history of the calls of the tool, and
--     Executor/Run/Settles shows that an execution ends.
--
-- An async method is a function of the state to a result and a state (Exec); what was written
-- before an exception stays written. What the code takes from outside (the clock, the generators of
-- ids and tokens, the event sink, the context provider, the trust in a definition) is the record
-- Env of Lifecycle/Service, each function answering the n-th call; likewise the record Env of
-- Executor/Run, by which other executions may also change the shared state while a call is awaited.
-- What it takes from JavaScript and Node (JSON quoting, string order, SHA-256, structuredClone,
-- isDeepStrictEqual) is the record Js. Nothing is assumed of these but what a theorem names.
-- Timestamps are milliseconds since the epoch. All functions are structural recursions. The only fuel
-- is that of drain_loop of Executor/Concurrency, the length of the queue: each of its rounds takes a
-- waiter out.
--
-- Not modelled: the queue of runExclusive, which makes the operations on one action run one after
-- the other; freezing of objects, and that a clone is another object; the checks that typebox makes
-- of the shapes of inputs; the reasons that events carry; the durable coordinator of
-- packages/executor, whose owner runs what is modelled, and its timer; packages/persistence, memory,
-- urgent-events, agent-runtime and observability, services/vehicle-simulator and apps.
pub mod Prelude
pub mod Js
pub mod Json
pub mod Exec
pub mod Context
pub mod Tools
pub mod Policy
pub mod Lifecycle
pub mod Executor
pub mod Tests
