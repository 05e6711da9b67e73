-- ===== src/Util/MpscQueue/Order.antt =====
-- MPSCQueue (include/util/mpsc_queue.hpp) as its users see it: the order of the items, the refusals of
-- `enqueue`, and what `dequeue` finds.
use uring_proactor.Base.{
  leb, ◌==◌, Bool-cases, lt→leb, u64_mod, add_word, sub_word, sub_word_cases, length, length-append,
  update_self, IsCapacity, capacity_pos, ℕ, zero, suc, ◌+◌, ◌^◌, ◌≤◌, ◌<◌, ◌≡◌, refl, sym, ap,
  subst, ◌∙◌, ◌⊎◌, inl, inr, Bool, false, some, List, [], ◌∷◌, ◌++◌, append-nil, arith,
}
use native.Mathlib.Decide.{dec_lt}
use uring_proactor.Util.MpscQueue.{
  resting, loaded, waiting, Threads, produces, consumes, slot_of, produce, consume_next, access,
  Accesses,
}
use uring_proactor.Util.MpscQueue.Invariant.{
  place_held, seq_at, data_at, IsProducer, IsQueue, Fits, slot_round,
}
use uring_proactor.Util.MpscQueue.Run.{no_wrap, next-word, reached-IsQueue}
use native.Mathlib.Decide.{ℕ_discrete}
use uring_proactor.Util.MpscQueue.Consume.{taken_next}

module _ (cap : ℕ) where
  -- A queue of at most `Capacity` items, oldest first.
  abbrev pub Holds : List ℕ → Threads → Type 0
  Holds wait s = (s.sent ≡ s.got ++ wait) × (length wait ≤ cap)

  -- A whole call of `dequeue` that no other thread interrupts.
  abbrev pub dequeue : Threads → Threads
  dequeue t = access cap consumes (access cap consumes (access cap consumes t))

  -- From any place up to a round past the oldest one, the same slot in the present round.
  in_round :
      (c : IsCapacity cap) (h n k : ℕ)
      → h ≤ k + n
      → k < h + cap
      → (j : ℕ) × (h ≤ j) × (j < h + cap) × (k ≤ j) × (slot_of cap j ≡ slot_of cap k)
  in_round c h zero k le lt = (k, omega arith, lt, omega arith, refl)
  in_round c h (suc n) k le lt = elim (dec_lt k h) [
    | no ge ↦ (k, omega arith, lt, omega arith, refl)
    | yes low ↦
        let (j, a, b, d, e) =
          in_round c h n (k + cap) (omega (arith, capacity_pos c)) (omega arith) in
        (j, a, b, omega arith, e ∙ slot_round cap c k)
  ]

  module _ {s : Threads} (r : Accesses cap s) (fits : Fits cap s) where
    q : IsQueue cap s
    q = reached-IsQueue cap r fits

    -- With a capacity that is a power of two from 2 to 2 ^ 30, while the capacity and the
    -- number of items sent are together below 2 ^ 63: in every reachable state the items that
    -- `dequeue` has returned and those that wait are the ones sent, in the order in which their
    -- places were claimed, each once; at most `Capacity` wait.
    pub sent-Holds : (wait : List ℕ) × Holds wait s
    sent-Holds = (
      q.kept.0,
      (
        q.kept.1,
        omega (
          arith,
          q.tail_count,
          q.head_count,
          q.within,
          ap length q.kept.1,
          length-append s.got q.kept.0,
        ),
      ),
    )

    -- No sequence is behind its place, but at the tail of a full queue.
    behind :
        (pos : ℕ)
        → pos ≤ s.queue.tail
        → ¬ (s.queue.tail ≡ s.queue.head + cap)
        → (pos ≤ seq_at cap s.queue pos) × (seq_at cap s.queue pos ≤ s.queue.head + cap)
    behind pos le room = on_slot (
        in_round fits.power s.queue.head s.queue.head pos (omega arith)
          (omega (arith, q.within, room)))
      where
        on_slot :
            (j : ℕ) × (s.queue.head ≤ j)
              × (j < s.queue.head + cap)
              × (pos ≤ j)
              × (slot_of cap j ≡ slot_of cap pos)
            → (pos ≤ seq_at cap s.queue pos) × (seq_at cap s.queue pos ≤ s.queue.head + cap)
        on_slot (j, lo, hi, above, e) = elim (dec_lt j s.queue.tail) [
          | yes lt ↦ elim (q.full j lo lt) [
            | inl (at, _) ↦
                (omega (arith, at, ap s.queue.sequence e), omega (arith, at, ap s.queue.sequence e))
            | inr (at, _) ↦
                (omega (arith, at, ap s.queue.sequence e), omega (arith, at, ap s.queue.sequence e))
          ]
          | no ge ↦ (
            omega (arith, q.free j (omega arith) hi, ap s.queue.sequence e),
            omega (arith, q.free j (omega arith) hi, ap s.queue.sequence e),
          )
        ]

    not_negative :
        (m half a pos top : ℕ)
        → pos ≤ a
        → a ≤ top
        → top < half
        → half < m
        → leb half (sub_word m a pos) ≡ false
    not_negative m half a pos top lo hi small big =
        elim (sub_word_cases m a pos (omega arith) (omega arith)) [
          | inl (_, e) ↦ lt→leb (sub_word m a pos) half (omega arith)
          | inr (lt, _) ↦ absurd (omega arith)
        ]

    -- With a capacity that is a power of two from 2 to 2 ^ 30, while the capacity and the
    -- number of items sent are together below 2 ^ 63: `enqueue` refuses an item by its test of
    -- the sequence only at a moment when `Capacity` items have a place and have not been
    -- returned by `dequeue`.
    pub refused-full :
        (i : ℕ) (weak : Bool) (pos item : ℕ)
        → s.producers i ≡ loaded pos item
        → (access cap (produces i weak) s).producers i ≡ resting
        → length s.sent ≡ length s.got + cap
    unfolding access produce IsProducer
    refused-full i weak pos item e gone = elim (ℕ_discrete s.queue.tail (s.queue.head + cap)) [
      | yes full ↦ omega (arith, q.tail_count, q.head_count)
      | no room ↦ absurd (goes_on room (behind pos below room))
    ]
      where
        below : pos ≤ s.queue.tail
        below = subst (IsProducer cap s.queue s.sent) e (q.each i)

        after : (produce cap weak s.queue (loaded pos item)).1 ≡ resting
        after =
            ap (λ p. (produce cap weak s.queue p).1) (sym e)
            ∙ sym (update_self s.producers i (produce cap weak s.queue (s.producers i)).1)
            ∙ gone

        goes_on :
            ¬ (s.queue.tail ≡ s.queue.head + cap)
            → ¬ ((pos ≤ seq_at cap s.queue pos) × (seq_at cap s.queue pos ≤ s.queue.head + cap))
        goes_on room (lo, hi) =
            elim (Bool-cases (sub_word u64_mod (seq_at cap s.queue pos) pos == 0)) [
              | inl t ↦ ground (arith, rw t at after)
              | inr f ↦ ground (
                arith,
                rw
                    (
                      f,
                      not_negative u64_mod (2 ^ 63) (seq_at cap s.queue pos) pos
                          (s.queue.head + cap) lo hi
                          (omega (arith, fits.few, q.tail_count, q.order, below)) (omega arith),
                    )
                    at after,
              )
            ]

    next_test : sub_word u64_mod (s.queue.head + 1) (add_word u64_mod s.queue.head 1) ≡ 0
    next_test =
        elim (sub_word_cases u64_mod (s.queue.head + 1) (s.queue.head + 1)
          (omega (arith, no_wrap cap s fits q, q.order))
          (omega (arith, no_wrap cap s fits q, q.order))) [
            | inl (_, e) ↦
                ap (sub_word u64_mod (s.queue.head + 1))
                  (next-word cap s fits q s.queue.head q.order)
                ∙ omega arith
            | inr (lt, _) ↦ absurd (omega arith)
          ]

    old_test : (sub_word u64_mod s.queue.head (add_word u64_mod s.queue.head 1) == 0) ≡ false
    old_test =
        elim (sub_word_cases u64_mod s.queue.head (s.queue.head + 1)
          (omega (arith, no_wrap cap s fits q, q.order))
          (omega (arith, no_wrap cap s fits q, q.order))) [
            | inl (le, _) ↦ absurd (omega arith)
            | inr (_, e) ↦
                ap (λ t. sub_word u64_mod s.queue.head t == 0)
                  (next-word cap s fits q s.queue.head q.order)
                ∙ ground (arith, e, no_wrap cap s fits q, q.order)
          ]

    finds :
        s.consumer ≡ waiting
        → seq_at cap s.queue s.queue.head ≡ s.queue.head + 1
        → ((dequeue s).got ≡ s.got ++ (data_at cap s.queue s.queue.head ∷ []))
          × ((dequeue s).consumer ≡ waiting)
    unfolding access consume_next
    finds e at =
        (rw (e, at, next_test, append-nil s.got, append-nil s.got) refl, rw (e, at, next_test) refl)

    misses :
        s.consumer ≡ waiting
        → seq_at cap s.queue s.queue.head ≡ s.queue.head
        → ((access cap consumes s).consumer ≡ waiting) × ((access cap consumes s).got ≡ s.got)
    unfolding access consume_next
    misses e at = (rw (e, at, old_test) refl, rw (e, at, old_test, append-nil s.got) refl)

    -- With a capacity that is a power of two from 2 to 2 ^ 30, while the capacity and the
    -- number of items sent are together below 2 ^ 63: the three accesses of a call of
    -- `dequeue`, with no access of a producer between them, take the oldest item, unless
    -- nothing waits or the producer that has claimed the oldest place is not done with it.
    pub dequeue_lem :
        s.consumer ≡ waiting
        → ((x : ℕ) × (rest : List ℕ) × (s.sent ≡ (s.got ++ (x ∷ [])) ++ rest)
            × ((dequeue s).got ≡ s.got ++ (x ∷ []))
            × ((dequeue s).consumer ≡ waiting))
          ⊎ (((access cap consumes s).consumer ≡ waiting)
              × ((access cap consumes s).got ≡ s.got)
              × ((s.sent ≡ s.got) ⊎ ((i : ℕ) × (place_held (s.producers i) ≡ some (length s.got)))))
    dequeue_lem e = elim (dec_lt s.queue.head s.queue.tail) [
      | yes lt ↦ elim (q.full s.queue.head (omega arith) lt) [
        | inl (at, (i, held)) ↦
            inr ((misses e at).0, (misses e at).1, inr (i, held ∙ ap some q.head_count))
        | inr (at, d) ↦ inl (
          data_at cap s.queue s.queue.head,
          (taken_next cap s fits.power q (data_at cap s.queue s.queue.head) (lt, at) d q.kept.0
              q.kept.1).0,
          (taken_next cap s fits.power q (data_at cap s.queue s.queue.head) (lt, at) d q.kept.0
              q.kept.1).1,
          (finds e at).0,
          (finds e at).1,
        )
      ]
      | no ge ↦ inr (
        (misses e (q.free s.queue.head (omega arith) (omega (arith, fits.places)))).0,
        (misses e (q.free s.queue.head (omega arith) (omega (arith, fits.places)))).1,
        inl (none_left q.kept.0 q.kept.1 (omega (arith, q.order))),
      )
    ]
      where
        none_left :
            (wait : List ℕ) → s.sent ≡ s.got ++ wait → s.queue.head ≡ s.queue.tail → s.sent ≡ s.got
        none_left [] h _ = h ∙ append-nil s.got
        none_left (x ∷ rest) h same =
            absurd (
              omega
                (arith, q.tail_count, q.head_count, ap length h, length-append s.got (x ∷ rest)))
