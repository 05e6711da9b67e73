-- ===== src/Util/Logger/Queue.antt =====
-- `flush_queue_` of class Logger (include/util/log.hpp): the MPSCQueue of
-- include/util/mpsc_queue.hpp, each call of it as one step.
use uring_proactor.Base.{
  if◌then◌else◌, IsCapacity, ℕ, ◌≡◌, refl, sym, subst, ◌⊎◌, inl, inr, Bool, Option, none, some, [],
  ◌∷◌, ◌++◌, arith,
}
use uring_proactor.Util.Logger.{FlushQueue}
use uring_proactor.Util.MpscQueue.{MpscQueue, init_queue}
use uring_proactor.Util.MpscQueue.Alone.{enqueue_alone, dequeue_alone, IsAlone}
use uring_proactor.Util.MpscQueue.Alone.Calls.{waiting_items, calls_lem, init_queue-IsAlone}

module _ (cap : ℕ) where
  -- Sound queues.
  abbrev pub SoundQueue : Type 0
  SoundQueue = (q : MpscQueue) × IsAlone cap q

  module _ (q : MpscQueue) (i : IsAlone cap q) where
    -- What the calls do, of their results.
    abbrev pub Put : ℕ → Bool × MpscQueue → Type 0
    Put item e =
        IsAlone cap e.1
        × (waiting_items cap e.1
            ≡ (if e.0 then waiting_items cap q ++ (item ∷ []) else waiting_items cap q))

    abbrev pub Got : Option ℕ × MpscQueue → Type 0
    Got e =
        IsAlone cap e.1
        × (((e.0 ≡ none) × (waiting_items cap e.1 ≡ waiting_items cap q))
            ⊎ ((a : ℕ) × (e.0 ≡ some a) × (waiting_items cap q ≡ a ∷ waiting_items cap e.1)))

    pub enqueue-Put : (item : ℕ) → Put item (enqueue_alone cap item q)
    enqueue-Put item = elim ((calls_lem cap q i item).0) [
      | inl (_, e) ↦ subst (Put item) (sym e) (i, refl)
      | inr (_, (r, e, sound, put)) ↦ subst (Put item) (sym e) (sound, put)
    ]

    pub dequeue-Got : Got (dequeue_alone cap q)
    dequeue-Got = elim ((calls_lem cap q i 0).1) [
      | inl (_, e) ↦ subst Got (sym e) (i, inl (refl, refl))
      | inr (a, r, e, sound, got) ↦ subst Got (sym e) (sound, inr (a, refl, got))
    ]

  -- The queue of the logger is an MPSCQueue.
  abbrev pub mpsc_queue : FlushQueue SoundQueue
  mpsc_queue = record {
    enqueue =
        λ item w. let e = enqueue_alone cap item w.0 in (e.0, (e.1, (enqueue-Put w.0 w.1 item).0));
    dequeue = λ w. let e = dequeue_alone cap w.0 in (e.0, (e.1, (dequeue-Got w.0 w.1).0));
    entries = λ w. waiting_items cap w.0;
    entries-enqueue = λ item w. (enqueue-Put w.0 w.1 item).1;
    entries-dequeue = λ w. (dequeue-Got w.0 w.1).1;
  }

-- `FLUSH_QUEUE_CAPACITY`
abbrev pub flush_queue_capacity : ℕ
flush_queue_capacity = 128

abbrev pub logger_queue : FlushQueue (SoundQueue flush_queue_capacity)
logger_queue = mpsc_queue flush_queue_capacity

pub flush_queue_capacity-IsCapacity : IsCapacity flush_queue_capacity
flush_queue_capacity-IsCapacity = record { log = 7; small = omega arith; power = refl }

abbrev pub new_queue : (ℕ → ℕ) → SoundQueue flush_queue_capacity
new_queue data_of = (
  init_queue data_of,
  init_queue-IsAlone flush_queue_capacity flush_queue_capacity-IsCapacity (omega arith) data_of,
)
