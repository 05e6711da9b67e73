-- ===== src/Util/MpscQueue.antt =====
-- class MPSCQueue (include/util/mpsc_queue.hpp): any number of producers, each between any two of
-- its reads and writes of shared memory, and one consumer. A `size_t` has 64 bits.
pub mod Invariant
pub mod Produce
pub mod Store
pub mod Consume
pub mod Run
pub mod Order
pub mod Alone
use uring_proactor.Base.{
  leb, ◌==◌, if◌then◌else◌, u64_mod, add_word, sub_word, update, ℕ, ◌-◌, ◌^◌, bit_and, Bool, not,
  ◌&&◌, List, [], ◌∷◌, ◌++◌,
}

pub record MpscQueue : Type 0 where
  pub head : ℕ
  pub tail : ℕ
  -- `buffer_[k].sequence` and `buffer_[k].data`
  pub sequence : ℕ → ℕ
  pub data_of : ℕ → ℕ

-- Where a producer is in `enqueue(item)`: it does not call it; before the load of `tail_`; with `pos`
-- loaded; with the sequence found equal to `pos`; after its `compare_exchange`; and with its item in
-- the slot.
pub data Producer : Type 0 where
  resting : Producer
  wanting : ℕ → Producer
  loaded checked claimed stored : ℕ → ℕ → Producer

-- Where the consumer is in `dequeue`: outside, with the sequence found equal to `head_ + 1`, and with
-- the item copied.
pub data Consumer : Type 0 where
  waiting ready : Consumer
  copied : ℕ → Consumer

-- `MPSCQueue()`, where `data` may hold anything; only the first `Capacity` slots are there.
abbrev pub init_queue : (ℕ → ℕ) → MpscQueue
init_queue data_of = record { head = 0; tail = 0; sequence = λ k. k; data_of = data_of }

-- The test of a 64-bit difference: `diff < 0`.
abbrev pub is_negative : ℕ → Bool
is_negative diff = leb (2 ^ 63) diff

-- The threads over one queue; `sent` are the items in the order in which their places were claimed,
-- `got` those that `dequeue` has returned.
pub record Threads : Type 0 where
  pub queue : MpscQueue
  pub producers : ℕ → Producer
  pub consumer : Consumer
  pub sent : List ℕ
  pub got : List ℕ

-- A call of `enqueue` by a producer that rests, the next access of a producer, or of the consumer.
pub data Access : Type 0 where
  call_enqueue : ℕ → ℕ → Access
  produces : ℕ → Bool → Access
  consumes : Access

unfoldable pub called : ℕ → Producer → Producer
called item resting = wanting item
called item p = p

module _ (cap : ℕ) where
  abbrev pub slot_of : ℕ → ℕ
  slot_of pos = bit_and pos (cap - 1)

  -- The next access of a producer to shared memory, and what it has put in a claimed place by it. The
  -- exchange may be `weak`: fail without a reason.
  unfoldable pub produce : Bool → MpscQueue → Producer → MpscQueue × Producer × List ℕ
  produce weak q resting = (q, resting, [])
  produce weak q (wanting item) = (q, loaded q.tail item, [])
  produce weak q (loaded pos item) =
      let diff = sub_word u64_mod (q.sequence (slot_of pos)) pos in
      if diff == 0
      then (q, checked pos item, [])
      else if is_negative diff
      then (q, resting, [])
      else (q, wanting item, [])
  produce weak q (checked pos item) =
      if q.tail == pos && not weak
      then (record q { tail = add_word u64_mod pos 1 }, claimed pos item, item ∷ [])
      else (q, wanting item, [])
  produce weak q (claimed pos item) =
      (record q { data_of = update q.data_of (slot_of pos) item }, stored pos item, [])
  produce weak q (stored pos item) = (
    record q { sequence = update q.sequence (slot_of pos) (add_word u64_mod pos 1) },
    resting,
    [],
  )

  -- The next access of the consumer, and what `dequeue` returns by it.
  unfoldable pub consume_next : MpscQueue → Consumer → MpscQueue × Consumer × List ℕ
  consume_next q waiting =
      if sub_word u64_mod (q.sequence (slot_of q.head)) (add_word u64_mod q.head 1) == 0
      then (q, ready, [])
      else (q, waiting, [])
  consume_next q ready = (q, copied (q.data_of (slot_of q.head)), [])
  consume_next q (copied item) = (
    record q {
      sequence = update q.sequence (slot_of q.head) (add_word u64_mod q.head cap);
      head = add_word u64_mod q.head 1;
    },
    waiting,
    item ∷ [],
  )

  unfoldable pub access : Access → Threads → Threads
  unfolding called produce consume_next
  access (call_enqueue i item) s = record s {
    producers = update s.producers i (called item (s.producers i));
  }
  access (produces i weak) s =
      let (q, p, new) = produce weak s.queue (s.producers i) in
      record s { queue = q; producers = update s.producers i p; sent = s.sent ++ new }
  access consumes s =
      let (q, c, new) = consume_next s.queue s.consumer in
      record s { queue = q; consumer = c; got = s.got ++ new }

  pub data Accesses : Threads → Type 0 where
    at_first :
        (data_of : ℕ → ℕ)
        → Accesses (record {
          queue = init_queue data_of;
          producers = λ i. resting;
          consumer = waiting;
          sent = [];
          got = [];
        })
    then_access : {s : Threads} (a : Access) → Accesses s → Accesses (access a s)
