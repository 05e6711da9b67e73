-- ===== src/Util/MpscQueue/Produce.antt =====
-- The accesses of a producer of the MPSCQueue (include/util/mpsc_queue.hpp) before it has a place, and
-- the claim of a place, under the invariant.
use uring_proactor.Base.{
  update_all, length-append, update, update_apart, update_self, ℕ, ◌+◌, ◌<◌, ◌≡◌, sym, ap, ◌∙◌, ◌≢◌,
  ◌⊎◌, inl, inr, none, some, List, [], ◌∷◌, ◌++◌, append_assoc, arith,
}
use native.Mathlib.Decide.{ℕ_discrete}
use native.Mathlib.Decide.{dec_lt}
use uring_proactor.Util.MpscQueue.{
  Producer, resting, wanting, loaded, checked, claimed, stored, Consumer, waiting, ready, copied,
  Threads,
}
use uring_proactor.Util.MpscQueue.Invariant.{
  entry, entry-append, entry-snoc, place_held, IsProducer, IsConsumer, IsQueue, place-between,
}

module _ (cap : ℕ) where
  -- A producer that neither holds a place nor changes the queue.
  abbrev pub moved : ℕ → Producer → Threads → Threads
  moved i p s = record s { producers = update s.producers i p }

  pub place_quiet :
      (s : Threads) (i : ℕ) (p : Producer)
      → (place_held p ≡ place_held (s.producers i))
      → (j : ℕ) → place_held (update s.producers i p j) ≡ place_held (s.producers j)
  place_quiet s i p e j = elim (ℕ_discrete j i) [
    | yes q ↦
        ap place_held (ap (update s.producers i p) q ∙ update_self s.producers i p)
        ∙ e
        ∙ sym (ap (λ k. place_held (s.producers k)) q)
    | no ne ↦ ap place_held (update_apart s.producers i j p ne)
  ]

  pub moved-IsQueue :
      (s : Threads) (i : ℕ) (p : Producer)
      → IsQueue cap s
      → place_held p ≡ place_held (s.producers i)
      → IsProducer cap s.queue s.sent p
      → IsQueue cap (moved i p s)
  moved-IsQueue s i p q e ok = record {
    tail_count = q.tail_count;
    head_count = q.head_count;
    order = q.order;
    within = q.within;
    free = q.free;
    full = λ k lo hi. elim (q.full k lo hi) [
      | inl (at, (j, held)) ↦ inl (at, (j, place_quiet s i p e j ∙ held))
      | inr done ↦ inr done
    ];
    each = update_all (IsProducer cap s.queue s.sent) s.producers i p (λ j ne. q.each j) ok;
    alone = λ a b k ha hb.
        q.alone a b k (sym (place_quiet s i p e a) ∙ ha) (sym (place_quiet s i p e b) ∙ hb);
    reading = q.reading;
    kept = q.kept;
  }

  -- The claim of the place at the tail.
  abbrev pub claim_tail : ℕ → ℕ → Threads → Threads
  claim_tail i item s = record s {
    queue = record s.queue { tail = s.queue.tail + 1 };
    producers = update s.producers i (claimed s.queue.tail item);
    sent = s.sent ++ (item ∷ []);
  }

  module _ (s : Threads) (i item : ℕ) (q : IsQueue cap s)
      (small : s.queue.tail < s.queue.head + cap)
      (none_held : place_held (s.producers i) ≡ none) where
    abbrev longer : List ℕ
    longer = s.sent ++ (item ∷ [])

    longer-entry : (k : ℕ) → k < s.queue.tail → entry longer k ≡ entry s.sent k
    longer-entry k h = entry-append s.sent (item ∷ []) k (omega (arith, q.tail_count))

    claim-IsProducer :
        (p : Producer)
        → IsProducer cap s.queue s.sent p
        → IsProducer cap (claim_tail i item s).queue longer p
    unfolding IsProducer
    claim-IsProducer resting h = h
    claim-IsProducer (wanting x) h = h
    claim-IsProducer (loaded pos x) h = omega arith
    claim-IsProducer (checked pos x) (h, room) = (omega arith, λ e. absurd (omega arith))
    claim-IsProducer (claimed pos x) (lo, hi, at, e) =
        (lo, omega arith, at, e ∙ sym (longer-entry pos hi))
    claim-IsProducer (stored pos x) ((lo, hi, at, e), d) =
        ((lo, omega arith, at, e ∙ sym (longer-entry pos hi)), d)

    claim-IsConsumer :
        (c : Consumer)
        → IsConsumer cap s.queue s.sent c
        → IsConsumer cap (claim_tail i item s).queue longer c
    unfolding IsConsumer
    claim-IsConsumer waiting h = h
    claim-IsConsumer ready (h, at) = (omega arith, at)
    claim-IsConsumer (copied x) ((h, at), e) =
        ((omega arith, at), e ∙ sym (longer-entry s.queue.head h))

    new-IsProducer : IsProducer cap (claim_tail i item s).queue longer (claimed s.queue.tail item)
    unfolding IsProducer
    new-IsProducer = (
      q.order,
      omega arith,
      q.free s.queue.tail (omega arith) small,
      sym (entry-snoc s.sent item s.queue.tail q.tail_count),
    )

    -- Who held a place before still does, and `i` did not.
    held_on :
        (j k : ℕ)
        → place_held (s.producers j) ≡ some k
        → place_held ((claim_tail i item s).producers j) ≡ some k
    held_on j k h = elim (ℕ_discrete j i) [
      | yes e ↦ absurd (ground (arith, h, none_held, ap (λ t. place_held (s.producers t)) e))
      | no ne ↦ ap place_held (update_apart s.producers i j (claimed s.queue.tail item) ne) ∙ h
    ]

    -- The new holder holds the tail, the others a place below it.
    held_now :
        (j k : ℕ)
        → place_held ((claim_tail i item s).producers j) ≡ some k
        → ((j ≡ i) × (k ≡ s.queue.tail))
          ⊎ ((place_held (s.producers j) ≡ some k) × (k < s.queue.tail))
    unfolding place_held
    held_now j k h = elim (ℕ_discrete j i) [
      | yes e ↦ inl (
        e,
        ground (
          arith,
          h,
          ap place_held (
              ap (update s.producers i (claimed s.queue.tail item)) e
              ∙ update_self s.producers i (claimed s.queue.tail item)),
        ),
      )
      | no ne ↦
          inr (
            before ne,
            (place-between cap s.queue s.sent (s.producers j) k (q.each j) (before ne)).1,
          )
    ]
      where
        before : j ≢ i → place_held (s.producers j) ≡ some k
        before ne =
            sym (ap place_held (update_apart s.producers i j (claimed s.queue.tail item) ne)) ∙ h

    pub claim-IsQueue : IsQueue cap (claim_tail i item s)
    unfolding place_held
    claim-IsQueue = record {
      tail_count = omega (arith, q.tail_count, length-append s.sent (item ∷ []));
      head_count = q.head_count;
      order = omega (arith, q.order);
      within = omega arith;
      free = λ k lo hi. q.free k (omega arith) hi;
      full = λ k lo hi. elim (dec_lt k s.queue.tail) [
        | yes lt ↦ elim (q.full k lo lt) [
          | inl (at, (j, h)) ↦ inl (at, (j, held_on j k h))
          | inr (at, d) ↦ inr (at, d ∙ sym (longer-entry k lt))
        ]
        | no ge ↦ inl (
          q.free k (omega arith) (omega arith),
          (
            i,
            ap place_held (update_self s.producers i (claimed s.queue.tail item))
                ∙ ap some (omega arith),
          ),
        )
      ];
      each =
          update_all (IsProducer cap (claim_tail i item s).queue longer) s.producers i
            (claimed s.queue.tail item) (λ j ne. claim-IsProducer (s.producers j) (q.each j))
            new-IsProducer;
      alone = λ a b k ha hb. elim (held_now a k ha) [
        | inl (ea, ka) ↦ elim (held_now b k hb) [
          | inl (eb, _) ↦ ea ∙ sym eb
          | inr (_, lt) ↦ absurd (omega arith)
        ]
        | inr (ha', lt) ↦ elim (held_now b k hb) [
          | inl (_, kb) ↦ absurd (omega arith)
          | inr (hb', _) ↦ q.alone a b k ha' hb'
        ]
      ];
      reading = claim-IsConsumer s.consumer q.reading;
      kept = (
        q.kept.0 ++ (item ∷ []),
        ap (λ t. t ++ (item ∷ [])) q.kept.1 ∙ append_assoc s.got q.kept.0 (item ∷ []),
      );
    }
