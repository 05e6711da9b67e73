-- ===== src/Util/MpscQueue/Consume.antt =====
-- The accesses of `dequeue` (include/util/mpsc_queue.hpp), under the invariant: the test, the copy of the
-- oldest item, and the return of its slot.
use uring_proactor.Base.{
  length, length-append, drop-append, drop-length, update, update_apart, update_self, head_of,
  IsCapacity, ℕ, ◌+◌, ◌≤◌, ◌<◌, ◌≡◌, sym, ap, ◌∙◌, inl, inr, List, [], ◌∷◌, ◌++◌, append_assoc,
  arith,
}
use native.Mathlib.Decide.{ℕ_discrete}
use native.Mathlib.Decide.{dec_lt}
use uring_proactor.Util.MpscQueue.{
  MpscQueue, Producer, resting, wanting, loaded, checked, claimed, stored, Consumer, waiting,
  Threads, slot_of,
}
use uring_proactor.Util.MpscQueue.Invariant.{
  entry, seq_at, IsProducer, IsReady, IsConsumer, IsQueue, slot_apart, slot_round,
}

module _ (cap : ℕ) (s : Threads) (c : IsCapacity cap) (q : IsQueue cap s) where
  -- The consumer moves on without a write.
  pub watch-IsQueue :
      (d : Consumer) → IsConsumer cap s.queue s.sent d → IsQueue cap (record s { consumer = d })
  watch-IsQueue d ok = record {
    tail_count = q.tail_count;
    head_count = q.head_count;
    order = q.order;
    within = q.within;
    free = q.free;
    full = q.full;
    each = q.each;
    alone = q.alone;
    reading = ok;
    kept = q.kept;
  }

  -- The slot of the oldest place is free for the next round.
  abbrev pub give_slot_back : ℕ → Threads
  give_slot_back item = record s {
    queue = record s.queue {
      sequence = update s.queue.sequence (slot_of cap s.queue.head) (s.queue.head + cap);
      head = s.queue.head + 1;
    };
    consumer = waiting;
    got = s.got ++ (item ∷ []);
  }

  module _ (item : ℕ) (ready_now : IsReady cap s.queue) (e : item ≡ entry s.sent s.queue.head) where
    abbrev after : MpscQueue
    after = (give_slot_back item).queue

    other_seq :
        (k : ℕ)
        → s.queue.head < k
        → k < s.queue.head + cap
        → seq_at cap after k ≡ seq_at cap s.queue k
    other_seq k lo hi =
        update_apart s.queue.sequence (slot_of cap s.queue.head) (slot_of cap k)
          (s.queue.head + cap)
          (slot_apart cap c k s.queue.head hi (omega arith) (λ t. absurd (omega arith)))

    -- A producer that holds a place holds a later one.
    later : (k : ℕ) → s.queue.head ≤ k → seq_at cap s.queue k ≡ k → s.queue.head < k
    later k lo at = elim (ℕ_discrete k s.queue.head) [
      | yes t ↦ absurd (omega (arith, at, ready_now.1, ap (seq_at cap s.queue) t))
      | no ne ↦ omega (arith, ne)
    ]

    give-IsProducer :
        (p : Producer) → IsProducer cap s.queue s.sent p → IsProducer cap after s.sent p
    unfolding IsProducer
    give-IsProducer resting h = h
    give-IsProducer (wanting x) h = h
    give-IsProducer (loaded k x) h = h
    give-IsProducer (checked k x) (h, room) = (h, λ t. omega (arith, room t))
    give-IsProducer (claimed k x) (lo, hi, at, d) = (
      omega (arith, later k lo at),
      hi,
      other_seq k (later k lo at) (omega (arith, q.within)) ∙ at,
      d,
    )
    give-IsProducer (stored k x) ((lo, hi, at, d), there) = (
      (
        omega (arith, later k lo at),
        hi,
        other_seq k (later k lo at) (omega (arith, q.within)) ∙ at,
        d,
      ),
      there,
    )

    give-waiting : IsConsumer cap after s.sent waiting
    unfolding IsConsumer
    give-waiting = tt

    -- The item is the first of those that wait.
    pub taken_next :
        (wait : List ℕ)
        → s.sent ≡ s.got ++ wait
        → (rest : List ℕ) × (s.sent ≡ (s.got ++ (item ∷ [])) ++ rest)
    taken_next [] h = absurd (
        omega (arith, q.tail_count, q.head_count, ready_now.0, ap length h, length-append s.got []))
    taken_next (x ∷ rest) h = (
      rest,
      h
          ∙ ap (λ t. s.got ++ (t ∷ rest))
              (sym (
                e
                ∙ ap (entry s.sent) q.head_count
                ∙ ap (λ t. entry t (length s.got)) h
                ∙ ap head_of (
                    drop-append (length s.got) s.got (x ∷ rest) (omega arith)
                    ∙ ap (λ t. t ++ (x ∷ rest)) (drop-length s.got))))
          ∙ sym (append_assoc s.got (item ∷ []) rest),
    )

    pub give-IsQueue : IsQueue cap (give_slot_back item)
    give-IsQueue = record {
      tail_count = q.tail_count;
      head_count = omega (arith, q.head_count, length-append s.got (item ∷ []));
      order = omega (arith, ready_now.0);
      within = omega (arith, q.within);
      free = λ k lo hi. elim (dec_lt k (s.queue.head + cap)) [
        | yes lt ↦ other_seq k (omega (arith, ready_now.0)) lt ∙ q.free k lo lt
        | no ge ↦
            ap (seq_at cap after) (omega arith)
            ∙ ap after.sequence (slot_round cap c s.queue.head)
            ∙ update_self s.queue.sequence (slot_of cap s.queue.head) (s.queue.head + cap)
            ∙ omega arith
      ];
      full = λ k lo hi. elim (q.full k (omega arith) hi) [
        | inl (at, h) ↦ inl (other_seq k (omega arith) (omega (arith, q.within)) ∙ at, h)
        | inr (at, d) ↦ inr (other_seq k (omega arith) (omega (arith, q.within)) ∙ at, d)
      ];
      each = λ i. give-IsProducer (s.producers i) (q.each i);
      alone = q.alone;
      reading = give-waiting;
      kept = taken_next q.kept.0 q.kept.1;
    }
