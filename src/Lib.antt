-- ===== src/Lib.antt =====
-- The core of teob-ts, an event-sourced entity runtime with durable calls.
--
-- The program. An aggregate (src/core/aggregate.ts) decides what a command does, as a declarative
-- effect (src/core/effect.ts), and applies events to its state. The entity runner
-- (src/inmem/entity-runner.ts) gives one entity a mailbox, interprets the effects, writes events
-- and snapshots to the journal (src/inmem/journal.ts) through codecs (src/core/codec.ts), and
-- recovers the state from the journal when an incarnation starts; the runtime
-- (src/inmem/runtime.ts) creates the runners. Durable calls (src/core/call)
-- are state machines inside an aggregate: a slot persists the phases of a call, a gateway limits
-- how many run and for how long behind a circuit breaker, and a policy gives the retry delays. A
-- Petri-net flow (src/petrinet) is an aggregate whose state is places with tokens and transitions, a
-- node flow (src/ai/node-flow) one whose state is the status of each node of a graph. Projections
-- (src/projection) fold the journal into views, sagas (src/saga) react to its events, and a verifier
-- (src/core/journal-replay-verifier.ts) replays them against invariants. Detectors
-- (src/ha/detectors.ts) are state machines over samples.
--
-- The files. Paths are from the repository's root.
-- - Common: names of the libraries, Boolean tests, lists and association lists.
-- - Effect: src/core/effect.ts. Constructors and chaining; Effect/Chain has the laws of chains.
-- - Codec: src/core/codec.ts. A decoder that throws returns `none`; RoundTrips is what a journal
--   relies on. Codec/Upcasts has the laws of upcasting.
-- - Envelope: src/core/envelope.ts and the stamping in the `Persist` case of the runner.
-- - Journal: src/inmem/journal.ts. The maps are association lists, `persistEvents` that throws
--   returns `duplicate_sequence_nr` with the journal. Children: Append (batches), Stream (gap-free
--   streams and reads), Keys (persistence keys), Snapshot.
-- - Entity: src/inmem/entity-runner.ts. Types has the state; Execute the interpreter
--   (`executeEffect`, `processCommand`); Loop has `recover`, the turns of `run`, `terminate`, the
--   callbacks of timers and deferred replies; Mailbox has `createMailbox`. Induction gives one rule
--   for all invariants of a runner; Recovery, Durability and Reach are about recovery, Recent and
--   Snapshots about automatic snapshots, Termination about `Unstash`, Answers about asks.
-- - Call: src/core/call. Types (types.ts, phase.ts, events.ts), Retry (retry.ts), Breaker
--   (circuit-breaker.ts), Gateway (gateway.ts), Slot (slot.ts).
-- - Flow: src/petrinet. Types in Flow, executable-flow.ts in Flow/Net, flow-aggregate.ts up to
--   executeSideEffects in Flow/Commands; Tokens, Ready, Retries and Twice are about them.
-- - Projection: src/projection/index.ts with the in-memory store; Fold has the fold and the passes,
--   and the loop of tailing.ts; Offsets and Passes are about its offsets, Views and Rebuild about the
--   views; Runner is src/projection/runner.ts.
-- - Saga: src/saga/index.ts, and `runTailingSaga` of src/saga/tailing.ts; Tail is
--   `runTailingStatefulSaga`, Order about the order of its steps, Retry about a handler that fails.
-- - NodeFlow: src/ai/node-flow/aggregate.ts; Compile is `compile` of def.ts, Decide is `decide`;
--   Search and Depth are about the search for cycles, Ready, Quiet, Started and Restart about what
--   starts when.
-- - Runtime: src/inmem/runtime.ts; Single and Writers are about the runners of one entity.
-- - Detectors: src/ha/detectors.ts; Sustained, Increments and Alternation are about its detectors.
-- - Replay: src/core/journal-replay-verifier.ts and src/core/invariant.ts; Valid and Agree are about
--   their verifications.
-- - Window: `EventWindow` of src/core/window.ts; Window/Eviction is about its eviction.
--
-- Choices. An awaited handler of the application is an Attempt: the calls that it makes on its
-- context, in order, and whether it resolves or rejects; a closure stands for its Attempt. The
-- runner awaits each step, so a turn of its loop is one function, and what arrives between turns
-- is a step of its own (Entity/Reach); callbacks that run while a handler is awaited touch only
-- the mailbox, the timers and the answers. Crashes are values that carry the runner as it was
-- left. Time is a number in the state or an argument, and `ulid()` a sequence of ids. Codecs,
-- handlers and the event applicator are parameters; `apply`, `encode` and `manifest` are total.
-- Numbers are natural numbers: sequence numbers, milliseconds, delays, and the samples and
-- thresholds of the detectors, whose sums are exact. A view is never `null` or `undefined`.
-- A deferred reply remembers its first completion for as long as the incarnation lives; a fresh one
-- knows no deferreds of earlier ones. The promises of the gateway's semaphore run on an
-- explicit queue of microtasks. Tails that run at the same time are a
-- relation between states: any tail may take the next step. An `evolve` or a saga's handler that
-- throws says so in its result.
--
-- Fuel. `process_command` has fuel because `Unstash` replays commands that may unstash again. A
-- turn gives it one more than the number of stashed entries: a replay takes place on the stash
-- that it has emptied, so its depth is bounded by the entries that were there. The cycle search of
-- `compile` has one more than the number of nodes, since each deeper call has one more gray node.
--
-- Not modelled: the SQL journals and stores, HTTP, the schemas and deferred replies of the flows in
-- src/petrinet, the tiles of src/core/window.ts, the executors of nodes and
-- the tools around the runtime; of the in-memory journal, how a live tail yields its records; of the
-- entity runner, logs and calls to other entities, which leave its state alone; of the in-memory
-- projection store, the timeout of `awaitView`; of the projection runner,
-- an `onError` that throws; of the runtime, the timeout of an ask.

pub mod Common
pub mod Effect
pub mod Codec
pub mod Envelope
pub mod Journal
pub mod Entity
pub mod Call
pub mod Flow
pub mod Window
pub mod Projection
pub mod Saga
pub mod NodeFlow
pub mod Detectors
pub mod Replay
pub mod Runtime
