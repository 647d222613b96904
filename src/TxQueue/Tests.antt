-- ===== src/TxQueue/Tests.antt =====
-- A queue of two slots, and an empty pool of signals.
use knitting.Base.{
  ℕ, ◌+◌, ◌<◌, ◌≤◌, Bool, true, false, ◌≡◌, ◌≢◌, ◌⊎◌, refl, [], ◌∷◌, none, some, arith, length,
}
use knitting.Base.Count.{count}
use knitting.Base.Lanes.{zeros, bit}
use knitting.Base.Maps.{occurs}
use knitting.Base.Slots.{holding}
use knitting.Header.{Task}
use knitting.Lock.{Lock}
use knitting.AbortSignals.{Store, get_signal}
use knitting.TxQueue.{TxQueue, is_held, Request, new_slot, create, enqueue, complete, grow, admit}
use knitting.TxQueue.Runs.{ids, Reach, start, next, enqueues}
use knitting.TxQueue.Delivery.{settled_once, slots_apart, complete-answers}
use knitting.TxQueue.Capacity.{enqueue-total, enqueue_times, refusals-lose_slots}

abbrev all : Task → ℕ → Bool × Task
all t at = (true, t)

abbrev free_lock : Lock
free_lock = record {
  host_bits = zeros;
  worker_bits = zeros;
  headers = new_slot;
  last_local = zeros;
  worker_shadow = zeros;
  to_be_sent = [];
  deferred = 0;
  pending_promises = 0;
  last_worker = zeros;
  last_take = 32;
  resolved = [];
}

abbrev no_signals : Store
no_signals = record {
  size = 1;
  max = 1;
  aborted = λ i. zeros;
  in_use = λ i. bit 0;
  current = 1;
  cursor = 0;
}

abbrev two_slots : TxQueue ℕ
two_slots = create 0 99 2 free_lock no_signals

abbrev plain : Request
plain = record { function_id = 7; timer = none; use_signal = false }

abbrev abortable : Request
abortable = record { function_id = 7; timer = none; use_signal = true }

-- The first call takes the slot on top of the stack.
abbrev one_call : TxQueue ℕ
one_call = admit 0 99 all two_slots plain 40 1 (0 ∷ []) none no_signals

reach1 : Reach 0 99 all true one_call
unfolding enqueue grow create admit
reach1 = next (start 2 free_lock no_signals) (enqueues plain 40 one_call refl)

settled_once_example :
    (occurs 0 (ids one_call.settled) ≤ 1)
    × (0 < one_call.calls
        → (occurs 0 (ids one_call.settled) ≡ 1) ⊎ (0 < holding one_call.len one_call.deferred 0))
    × (one_call.calls ≤ 0
        → occurs 0 (ids one_call.settled) + holding one_call.len one_call.deferred 0 ≡ 0)
settled_once_example = settled_once 0 99 all reach1 0

slots_apart_example :
    ((i j c : ℕ) → one_call.deferred i ≡ some c → one_call.deferred j ≡ some c → i ≡ j)
    × ((i c : ℕ) → one_call.deferred i ≡ some c → (i < one_call.len) × (occurs i one_call.free ≡ 0))
    × (one_call.in_used ≡ count one_call.len (λ i. is_held (one_call.deferred i)))
slots_apart_example = slots_apart 0 99 all reach1

complete-answers_example :
    let s' = complete 0 99 one_call (new_slot 1) 41 in
    (s'.settled ≡ (0, false, 41) ∷ one_call.settled)
    × (s'.free ≡ 1 ∷ one_call.free)
    × (s'.in_used + 1 ≡ one_call.in_used)
    × (holding s'.len s'.deferred 0 ≡ 0)
    × ((i : ℕ) → i ≢ 1 → s'.deferred i ≡ one_call.deferred i)
complete-answers_example =
    complete-answers 0 99 all reach1 (new_slot 1) 41 0 (unfold admit create in refl)
      (unfold admit create in refl)

enqueue-total_example :
    (one_call.in_used + length one_call.free ≡ one_call.len)
    × ((s' : TxQueue ℕ) × (enqueue 0 99 all one_call abortable 41 ≡ some s'))
enqueue-total_example = enqueue-total 0 99 all reach1 abortable 41

refusals-lose_slots_example :
    (s' : TxQueue ℕ) × (enqueue_times 0 99 all 1 one_call abortable 41 ≡ some s')
    × (s'.in_used ≡ one_call.in_used)
    × (s'.len ≡ one_call.len)
    × ((req' : Request) (args' : ℕ) → enqueue 0 99 all s' req' args' ≡ none)
refusals-lose_slots_example =
    refusals-lose_slots 0 99 all 1 one_call abortable 41 (unfold admit create in refl)
      (unfold admit create in omega arith) refl (unfold admit create get_signal in refl)
