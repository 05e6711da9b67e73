-- ===== src/Util/MpscQueue/Store.antt =====
-- The two writes of `enqueue` (include/util/mpsc_queue.hpp) to a claimed slot, under the invariant: the
-- item, and the sequence that hands the slot to the consumer.
use uring_proactor.Base.{
  update_all, update, update_apart, update_self, IsCapacity, ℕ, ◌+◌, ◌≤◌, ◌<◌, ◌≡◌, refl, sym, ap,
  ◌∙◌, ◌≢◌, inl, inr, none, some, arith,
}
use native.Mathlib.Decide.{ℕ_discrete}
use uring_proactor.Util.MpscQueue.{
  copied, Producer, resting, wanting, loaded, checked, claimed, stored, Consumer, waiting, ready,
  Threads, slot_of,
}
use uring_proactor.Util.MpscQueue.Invariant.{
  entry, place_held, seq_at, data_at, Claims, IsProducer, IsReady, IsConsumer, IsQueue, slot_apart,
}
use uring_proactor.Util.MpscQueue.Produce.{place_quiet}

module _ (cap : ℕ) (s : Threads) (c : IsCapacity cap) (q : IsQueue cap s) (i pos item : ℕ) where
  -- The item goes into the slot.
  abbrev pub put_item : Threads
  put_item = record s {
    queue = record s.queue { data_of = update s.queue.data_of (slot_of cap pos) item };
    producers = update s.producers i (stored pos item);
  }

  -- The sequence goes to the slot.
  abbrev pub hand_over : Threads
  hand_over = record s {
    queue = record s.queue { sequence = update s.queue.sequence (slot_of cap pos) (pos + 1) };
    producers = update s.producers i resting;
  }

  module _ (claim : Claims cap s.queue s.sent pos item)
      (held : place_held (s.producers i) ≡ some pos) where
    -- The slots of the other places of this round are left alone.
    other_slot :
        (k : ℕ)
        → s.queue.head ≤ k
        → k < s.queue.head + cap
        → k ≢ pos
        → slot_of cap k ≢ slot_of cap pos
    other_slot k lo hi =
        slot_apart cap c k pos (omega (arith, q.within, claim.0, claim.1))
          (omega (arith, q.within, claim.0, claim.1))

    other_data :
        (k : ℕ)
        → s.queue.head ≤ k
        → k < s.queue.head + cap
        → k ≢ pos
        → data_at cap put_item.queue k ≡ data_at cap s.queue k
    other_data k lo hi ne =
        update_apart s.queue.data_of (slot_of cap pos) (slot_of cap k) item (other_slot k lo hi ne)

    other_seq :
        (k : ℕ)
        → s.queue.head ≤ k
        → k < s.queue.head + cap
        → k ≢ pos
        → seq_at cap hand_over.queue k ≡ seq_at cap s.queue k
    other_seq k lo hi ne =
        update_apart s.queue.sequence (slot_of cap pos) (slot_of cap k) (pos + 1)
          (other_slot k lo hi ne)

    -- Another producer holds another place.
    other_place : (j : ℕ) → j ≢ i → (k : ℕ) → place_held (s.producers j) ≡ some k → k ≢ pos
    other_place j ne k h e = ne (q.alone j i k h (held ∙ ap some (sym e)))

    claimed_apart :
        (j : ℕ) (p : Producer)
        → ((k : ℕ) → place_held p ≡ some k → k ≢ pos)
        → IsProducer cap s.queue s.sent p
        → IsProducer cap put_item.queue s.sent p × IsProducer cap hand_over.queue s.sent p
    unfolding IsProducer place_held
    claimed_apart j resting ne h = (h, h)
    claimed_apart j (wanting x) ne h = (h, h)
    claimed_apart j (loaded k x) ne h = (h, h)
    claimed_apart j (checked k x) ne h = (h, h)
    claimed_apart j (claimed k x) ne (lo, hi, at, e) =
        ((lo, hi, at, e), (lo, hi, other_seq k lo (omega (arith, q.within)) (ne k refl) ∙ at, e))
    claimed_apart j (stored k x) ne ((lo, hi, at, e), d) = (
      ((lo, hi, at, e), other_data k lo (omega (arith, q.within)) (ne k refl) ∙ d),
      ((lo, hi, other_seq k lo (omega (arith, q.within)) (ne k refl) ∙ at, e), d),
    )

    -- The oldest place is ready only when no producer holds it.
    put-IsConsumer :
        (d : Consumer) → IsConsumer cap s.queue s.sent d → IsConsumer cap put_item.queue s.sent d
    unfolding IsConsumer
    put-IsConsumer waiting h = h
    put-IsConsumer ready h = h
    put-IsConsumer (copied x) h = h

    IsReady-on : IsReady cap s.queue → IsReady cap hand_over.queue
    IsReady-on (h, at) = (
      h,
      other_seq s.queue.head (omega arith) (omega (arith, q.within))
            (λ e. absurd (omega (arith, at, claim.2, ap (seq_at cap s.queue) e)))
          ∙ at,
    )

    over-IsConsumer :
        (d : Consumer) → IsConsumer cap s.queue s.sent d → IsConsumer cap hand_over.queue s.sent d
    unfolding IsConsumer
    over-IsConsumer waiting h = h
    over-IsConsumer ready h = IsReady-on h
    over-IsConsumer (copied x) (h, e) = (IsReady-on h, e)

    new-stored : IsProducer cap put_item.queue s.sent (stored pos item)
    unfolding IsProducer
    new-stored = (claim, update_self s.queue.data_of (slot_of cap pos) item)

    same_place : (j : ℕ) → place_held (put_item.producers j) ≡ place_held (s.producers j)
    unfolding place_held
    same_place = place_quiet cap s i (stored pos item) (sym held)

    pub put-IsQueue : IsQueue cap put_item
    put-IsQueue = record {
      tail_count = q.tail_count;
      head_count = q.head_count;
      order = q.order;
      within = q.within;
      free = q.free;
      full = λ k lo hi. elim (ℕ_discrete k pos) [
        | yes e ↦ inl (
          ap (seq_at cap s.queue) e ∙ claim.2 ∙ sym e,
          (i, same_place i ∙ held ∙ ap some (sym e)),
        )
        | no ne ↦ elim (q.full k lo hi) [
          | inl (at, (j, h)) ↦ inl (at, (j, same_place j ∙ h))
          | inr (at, d) ↦ inr (at, other_data k lo (omega (arith, q.within)) ne ∙ d)
        ]
      ];
      each =
          update_all (IsProducer cap put_item.queue s.sent) s.producers i (stored pos item)
            (λ j ne. (claimed_apart j (s.producers j) (other_place j ne) (q.each j)).0) new-stored;
      alone = λ a b k ha hb. q.alone a b k (sym (same_place a) ∙ ha) (sym (same_place b) ∙ hb);
      reading = put-IsConsumer s.consumer q.reading;
      kept = q.kept;
    }

    new-resting : IsProducer cap hand_over.queue s.sent resting
    unfolding IsProducer
    new-resting = tt

    none_held : place_held (hand_over.producers i) ≡ none
    unfolding place_held
    none_held = ap place_held (update_self s.producers i resting)

    still_held :
        (j k : ℕ)
        → place_held (hand_over.producers j) ≡ some k
        → place_held (s.producers j) ≡ some k
    still_held j k h = elim (ℕ_discrete j i) [
      | yes e ↦
          absurd (ground (arith, h, none_held, ap (λ t. place_held (hand_over.producers t)) e))
      | no ne ↦ sym (ap place_held (update_apart s.producers i j resting ne)) ∙ h
    ]

    held_on :
        (j k : ℕ)
        → k ≢ pos
        → place_held (s.producers j) ≡ some k
        → place_held (hand_over.producers j) ≡ some k
    held_on j k ne h = elim (ℕ_discrete j i) [
      | yes e ↦ absurd (ne (ground (arith, h, held, ap (λ t. place_held (s.producers t)) e)))
      | no ne' ↦ ap place_held (update_apart s.producers i j resting ne') ∙ h
    ]

    pub over-IsQueue : data_at cap s.queue pos ≡ item → IsQueue cap hand_over
    over-IsQueue there = record {
      tail_count = q.tail_count;
      head_count = q.head_count;
      order = q.order;
      within = q.within;
      free = λ k lo hi.
          other_seq k (omega (arith, q.order)) hi (λ e. absurd (omega (arith, claim.1)))
          ∙ q.free k lo hi;
      full = λ k lo hi. elim (ℕ_discrete k pos) [
        | yes e ↦ inr (
          ap (seq_at cap hand_over.queue) e
              ∙ update_self s.queue.sequence (slot_of cap pos) (pos + 1)
              ∙ omega arith,
          ap (data_at cap s.queue) e ∙ there ∙ claim.3 ∙ ap (entry s.sent) (sym e),
        )
        | no ne ↦ elim (q.full k lo hi) [
          | inl (at, (j, h)) ↦
              inl (other_seq k lo (omega (arith, q.within)) ne ∙ at, (j, held_on j k ne h))
          | inr (at, d) ↦ inr (other_seq k lo (omega (arith, q.within)) ne ∙ at, d)
        ]
      ];
      each =
          update_all (IsProducer cap hand_over.queue s.sent) s.producers i resting
            (λ j ne. (claimed_apart j (s.producers j) (other_place j ne) (q.each j)).1) new-resting;
      alone = λ a b k ha hb. q.alone a b k (still_held a k ha) (still_held b k hb);
      reading = over-IsConsumer s.consumer q.reading;
      kept = q.kept;
    }
