-- ===== src/Lib.antt =====
-- A verification library for knitting, a pool of workers that exchange tasks over shared memory.
--
-- The program. A host and its workers share one control buffer and one payload buffer for each
-- direction. A task is a header of eight words. The sender writes the header of a lane, one of 32,
-- and toggles the lane's bit in its own word; the receiver takes the lanes where the two words
-- differ, and toggles its own word to acknowledge them. A payload that does not fit in the header
-- goes to a region of the payload buffer, which the sender allocates and the receiver frees by the
-- same kind of toggle. Several workers may share one sender: they claim groups of lanes before they
-- take any. The host picks the worker for each call, and a pool of abort flags goes beside the
-- queue.
--
-- The files, and the code that each is about:
--   Base          names that the others share, words as their lanes, counts, cyclic indices
--   RingQueue     src/ipc/tools/ring-queue.ts: `RingQueue`, every method. The state is the buffer
--                 with its mask, head, tail and size; `push`, `unshift`, `shift`, `shiftNoClear`,
--                 `peek`, `clear`, `reserve`, `toArray` and the iterator are functions of the same
--                 name in lower case. `Holds q xs` says that the ring holds the list `xs`.
--   Header        src/memory/lock.ts: `TaskIndex`, the fields packed in a word, `fillTaskFrom`,
--                 `settleTask`.
--   Lock          src/memory/lock.ts: `lock2` without stealing. Lock holds the sender (`encode`,
--                 `encodeManyFrom` and their like, `publish`, `flushPending`); Lock/Receive the
--                 receiver (`decode`); Lock/Host the receiver that settles promises
--                 (`resolveHost`), and Lock/Host/Resolved what a call does. Lock/Queue has the
--                 atomic steps of the two endpoints as a relation; Lock/Runs, Lock/Batch and Lock/Taken relate the functions to it.
--   Steal         src/memory/lock.ts: `decodeSteal`, the claims as a step relation of any number of
--                 consumers (Steal, with its invariant in Steal/Invariant), and the choice of a
--                 region as a function (Steal/Choice).
--   Region        src/memory/regionRegistry.ts: `allocTask`, `findAndInsert`, `updateTable`, `free`
--                 and `setSlotLength`; `findAndInsert` is in Region/Allocate, and Region/Lifetime has
--                 every order of these as a relation, and says which orders are proper: the
--                 registry does not check the arena's end, nor a length that is set.
--   AbortSignals  src/shared/abortSignal.ts: `signalAbortFactory`.
--   TxQueue       src/runtime/tx-queue.ts: `createHostTxQueue`, the calls in flight on the host, with
--                 `OneShotDeferred` of src/shared/abortSignal.ts (`settle_once`, `abort`).
--                 TxQueue/Runs has every order of its operations as a relation, TxQueue/Enqueue and
--                 TxQueue/Steps what each keeps, TxQueue/Delivery what callers see, and
--                 TxQueue/Capacity whether a slot is left.
--   Dispatcher    src/runtime/dispatcher.ts: `hostDispatcherLoop`, with `dispatchSend` and `laneWake`
--                 of src/runtime/pool.ts. Dispatcher/Wake has the event loop around it as a
--                 relation.
--   Serial        src/api.ts: the serial channel, one macrotask that checks the lanes of a pool in
--                 turn (`markActive`, `runSerialChecks`, `scheduleSerialCheck`); Serial/Watch has its
--                 runs as a relation.
--   PayloadConfig src/memory/payload-config.ts: `resolvePayloadBufferOptions`.
--   RxQueue       src/worker/rx-queue.ts: `createWorkerRxQueue`, the tasks and results of a worker
--                 (`enqueueLock`, `serviceBatchImmediate`, `settleNow`, `sendReturn`, `writeBatch`),
--                 with what `encoderError` of src/error.ts does to a result that cannot be encoded.
--   Runner        src/worker/composable-runners.ts: `composeWorkerRunner`, `readSignal`,
--                 `applyTimeoutBudget` and `raceTimeout`; src/worker/task-loader.ts:
--                 `normalizeTimeout`.
--   Inline        src/runtime/inline-executor.ts: `createInlineExecutor`, the lane on the host's own
--                 thread. Inline/Runs has the event loop around it as a relation.
--   ByteCarpet    src/memory/byte-carpet.ts: how the control buffer is cut into its parts.
--   Balancer      src/runtime/balancer.ts: `managerMethod` and the four strategies.
--
-- How the parts meet: the header of Lock and of Region is Header's task; the sender's backlog in
-- Lock is the list that a RingQueue holds; the words of Lock and of Region are `Word`, whose lanes
-- Base counts and searches. TxQueue publishes on the host's Lock and takes its signals from
-- AbortSignals; Dispatcher drains such a queue; RxQueue decodes from one Lock and encodes into
-- another, and Runner reads the words that TxQueue has written into a task. TxQueue and Inline
-- keep their slots the same way, which Base/Slots states once. RxQueue and Inline share what a
-- runner may do (`Inline.Outcome`).
--
-- Conventions. A word that is used as a mask is the function of its 32 lanes; a word that is used
-- as a number is a native number, with `% 2 ^ 32` where the source wraps. An operation returns the
-- new state beside its result. Codecs, the jobs and what their promises come to, and random
-- numbers are parameters; so are the queue that Dispatcher drains, and `txIdle` in Balancer. Where
-- a component lives in an event loop, its state counts the callbacks that are on their way. Memory
-- is sequentially consistent: the words are accessed by atomics, and a header is written before
-- the toggle that publishes it.
--
-- Fuel. `doubled` has 32 rounds: a capacity of up to 2^30 takes 30 of them. The receivers' loops
-- have one round for each of the 32 lanes, and each round takes one lane of the snapshot away. The
-- search for a region goes once around the regions, as the source does. The loops of `check` in
-- Dispatcher, and the one in Serial, have as much fuel as their caller gives, and nothing says
-- how much is enough: the end of these loops depends on the queue. No other loop needs fuel.
--
-- Not modelled: the codec of payloads (src/memory/payloadCodec.ts, shared-buffer-io.ts), which is a
-- parameter of Lock; in `decodeSteal`, the lanes' decoding and the acknowledgements, whose words are
-- not part of the claims; in the queues, the finalizers of payloads and borrowed buffers, and the
-- draining of several return lanes by one queue; a codec that throws; the rest of src/api.ts and of
-- src/runtime/pool.ts, and the worker's loop in src/worker/loop.ts; permissions, the bindings to
-- shared memory of each runtime, and the build.
pub mod Base
pub mod RingQueue
pub mod Header
pub mod Inline
pub mod TxQueue
pub mod Lock
pub mod Steal
pub mod AbortSignals
pub mod ByteCarpet
pub mod Balancer
pub mod Region
pub mod Dispatcher
pub mod RxQueue
pub mod Runner
pub mod Serial
pub mod PayloadConfig
