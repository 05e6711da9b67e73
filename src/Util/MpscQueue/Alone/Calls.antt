-- ===== src/Util/MpscQueue/Alone/Calls.antt =====
-- Calls of MPSCQueue (include/util/mpsc_queue.hpp) one after the other, on the list of the items
-- that wait.
use native.Mathlib.Nat.{add-mod_right, mod-add-mod, mod-eq_of_lt}
use native.Mathlib.Decide.{dec_lt, ℕ_discrete}
use uring_proactor.Base.{
  u64_mod, length, add_word, update_apart, update_self, IsCapacity, capacity-le, bit_and_mask,
  mod_wrap, ℕ, ◌+◌, ◌-◌, ◌%◌, ◌^◌, ◌≤◌, ◌<◌, ◌≡◌, ◌≢◌, refl, sym, ap, subst, ◌∙◌, ◌⊎◌, inl, inr,
  true, false, none, some, List, [], ◌∷◌, ◌++◌, arith,
}
use uring_proactor.Base.Ring.{size, push, front, advance, items, items-empty, place-ne}
use uring_proactor.Base.Ring.Laws.{
  IsRing, tail-size, tail_place, size-push, size-advance, length-items, push-IsRing, advance-IsRing,
  items-push, items-advance,
}
use uring_proactor.Util.MpscQueue.{MpscQueue, slot_of, init_queue}
use uring_proactor.Util.MpscQueue.Alone.{
  enqueue_alone, dequeue_alone, ring_of, waits, IsAlone, put_last, drop_first, enqueue_alone-room,
  enqueue_alone-full, dequeue_alone-empty, dequeue_alone-some,
}

module _ (cap : ℕ) where
  -- The items that wait, oldest first.
  abbrev pub waiting_items : MpscQueue → List ℕ
  waiting_items q = items u64_mod cap (ring_of cap q)

  module _ (q : MpscQueue) (i : IsAlone cap q) where
    module _ (item : ℕ) (room : waits cap q < cap) where
      pushed : ring_of cap (put_last cap item q) ≡ push u64_mod (cap - 1) (ring_of cap q) item
      unfolding push
      pushed = refl

      more : waits cap (put_last cap item q) ≡ waits cap q + 1
      more =
          ap (size u64_mod) pushed
          ∙ size-push i.power 64 (omega arith) (ring_of cap q) i.ring item room

      tail_slot : slot_of cap q.tail ≡ (q.head + waits cap q) % cap
      tail_slot =
          bit_and_mask i.power q.tail ∙ tail_place i.power 64 (omega arith) (ring_of cap q) i.ring

      apart : (k : ℕ) → k < cap → k ≢ waits cap q → (q.head + k) % cap ≢ slot_of cap q.tail
      apart k lt ne e = elim (dec_lt k (waits cap q)) [
        | yes low ↦
            place-ne cap (q.head + k) (waits cap q - k) (omega arith) (omega arith)
              (ap (λ t. t % cap) (omega arith) ∙ sym tail_slot ∙ sym e)
        | no high ↦
            place-ne cap (q.head + waits cap q) (k - waits cap q) (omega (arith, ne)) (omega arith)
              (ap (λ t. t % cap) (omega arith) ∙ e ∙ tail_slot)
      ]

      other_seq :
          (k : ℕ)
          → k < cap
          → k ≢ waits cap q
          → (put_last cap item q).sequence ((q.head + k) % cap) ≡ q.sequence ((q.head + k) % cap)
      other_seq k lt ne =
          update_apart q.sequence (slot_of cap q.tail) ((q.head + k) % cap)
            (add_word u64_mod q.tail 1) (apart k lt ne)

      put_last-IsAlone : IsAlone cap (put_last cap item q)
      put_last-IsAlone = record {
        power = i.power;
        places = i.places;
        ring =
            subst (IsRing 64 cap) (sym pushed)
              (push-IsRing i.power 64 (omega arith) (ring_of cap q) i.ring item room);
        full = λ k lt. elim (ℕ_discrete k (waits cap q)) [
          | yes e ↦
              ap (put_last cap item q).sequence (ap (λ n. (q.head + n) % cap) e ∙ sym tail_slot)
              ∙ update_self q.sequence (slot_of cap q.tail) (add_word u64_mod q.tail 1)
              ∙ omega (arith, e, tail-size i.power 64 (omega arith) (ring_of cap q) i.ring)
          | no ne ↦ other_seq k (omega (arith, more)) ne ∙ i.full k (omega (arith, more, ne))
        ];
        free = λ k lo hi.
            other_seq k hi (λ e. absurd (omega (arith, more))) ∙ i.free k (omega (arith, more)) hi;
      }

      items-put_last : waiting_items (put_last cap item q) ≡ waiting_items q ++ (item ∷ [])
      items-put_last =
          ap (items u64_mod cap) pushed
          ∙ items-push i.power 64 (omega arith) (ring_of cap q) i.ring item room

    module _ (h : 0 < waits cap q) where
      advanced : ring_of cap (drop_first cap q) ≡ advance u64_mod (ring_of cap q)
      unfolding advance
      advanced = refl

      fewer : waits cap (drop_first cap q) + 1 ≡ waits cap q
      fewer =
          ap (λ r. size u64_mod r + 1) advanced
          ∙ size-advance i.power 64 (omega arith) (ring_of cap q) i.ring h

      -- The place of the next counter.
      next_place : (k : ℕ) → ((q.head + 1) % 2 ^ 64 + k) % cap ≡ (q.head + (k + 1)) % cap
      next_place k =
          sym (mod_wrap i.power 64 ((q.head + 1) % 2 ^ 64 + k) (omega arith))
          ∙ ap (λ t. t % cap) (mod-add-mod (q.head + 1) (2 ^ 64) k)
          ∙ mod_wrap i.power 64 (q.head + 1 + k) (omega arith)
          ∙ ap (λ t. t % cap) (omega arith)

      later_seq :
          (k : ℕ)
          → k + 1 < cap
          → (drop_first cap q).sequence (((q.head + 1) % 2 ^ 64 + k) % cap)
            ≡ q.sequence ((q.head + (k + 1)) % cap)
      later_seq k lt =
          ap (drop_first cap q).sequence (next_place k)
          ∙ update_apart q.sequence (slot_of cap q.head) ((q.head + (k + 1)) % cap)
              (add_word u64_mod q.head cap)
              (λ e. place-ne cap q.head (k + 1) (omega arith) lt (e ∙ bit_and_mask i.power q.head))

      drop_first-IsAlone : IsAlone cap (drop_first cap q)
      drop_first-IsAlone = record {
        power = i.power;
        places = i.places;
        ring =
            subst (IsRing 64 cap) (sym advanced)
              (advance-IsRing i.power 64 (omega arith) (ring_of cap q) i.ring h);
        full = λ k lt.
            later_seq k (omega (arith, fewer, i.ring.fits))
            ∙ i.full (k + 1) (omega (arith, fewer))
            ∙ omega arith;
        free = λ k lo hi. elim (dec_lt (k + 1) cap) [
          | yes lt ↦ later_seq k lt ∙ i.free (k + 1) (omega (arith, fewer)) lt ∙ omega arith
          | no ge ↦
              ap (drop_first cap q).sequence (
                next_place k
                ∙ ap (λ n. (q.head + n) % cap) {y = cap} (omega arith)
                ∙ add-mod_right q.head cap
                ∙ sym (bit_and_mask i.power q.head))
              ∙ update_self q.sequence (slot_of cap q.head) (add_word u64_mod q.head cap)
              ∙ omega arith
        ];
      }

      items-drop_first :
          waiting_items q ≡ q.data_of (slot_of cap q.head) ∷ waiting_items (drop_first cap q)
      unfolding front
      items-drop_first =
          items-advance i.power 64 (omega arith) (ring_of cap q) i.ring h
          ∙ ap (λ r. q.data_of (slot_of cap q.head) ∷ items u64_mod cap r) (sym advanced)

    -- On a sound queue, with a capacity that is a power of two from 2 to 2 ^ 30, and no access
    -- of another thread between those of a call: `enqueue` returns false, without a change,
    -- exactly where `Capacity` items wait, and else puts the item behind the others; `dequeue`
    -- returns false, without a change, exactly where none waits, and else takes the oldest one.
    -- The queue stays sound.
    pub calls_lem :
        (item : ℕ)
        → (((length (waiting_items q) ≡ cap) × (enqueue_alone cap item q ≡ (false, q)))
            ⊎ ((length (waiting_items q) < cap)
                × ((r : MpscQueue) × (enqueue_alone cap item q ≡ (true, r))
                    × IsAlone cap r
                    × (waiting_items r ≡ waiting_items q ++ (item ∷ [])))))
          × (((waiting_items q ≡ []) × (dequeue_alone cap q ≡ (none, q)))
              ⊎ ((oldest : ℕ) × (r : MpscQueue) × (dequeue_alone cap q ≡ (some oldest, r))
                  × IsAlone cap r
                  × (waiting_items q ≡ oldest ∷ waiting_items r)))
    calls_lem item = (
      elim (dec_lt (waits cap q) cap) [
        | yes room ↦ inr (
          omega (arith, counted),
          (
            put_last cap item q,
            enqueue_alone-room cap q i item room,
            put_last-IsAlone item room,
            items-put_last item room,
          ),
        )
        | no full ↦ inl (
          omega (arith, counted, i.ring.fits),
          enqueue_alone-full cap q i item (omega (arith, i.ring.fits)),
        )
      ],
      elim (ℕ_discrete (waits cap q) 0) [
        | yes e ↦ inl (items-empty u64_mod cap (ring_of cap q) e, dequeue_alone-empty cap q i e)
        | no ne ↦ inr (
          q.data_of (slot_of cap q.head),
          drop_first cap q,
          dequeue_alone-some cap q i (omega arith),
          drop_first-IsAlone (omega arith),
          items-drop_first (omega arith),
        )
      ],
    )
      where
        counted : length (waiting_items q) ≡ waits cap q
        counted = length-items i.power 64 (omega arith) (ring_of cap q)

  -- The queue as it is constructed.
  pub init_queue-IsAlone :
      IsCapacity cap → 2 ≤ cap → (data_of : ℕ → ℕ) → IsAlone cap (init_queue data_of)
  unfolding size
  init_queue-IsAlone c two data_of = record {
    power = c;
    places = two;
    ring = record { head_in = omega arith; tail_in = omega arith; fits = omega arith };
    full = λ k lt. absurd (omega arith);
    free = λ k lo hi. small k hi;
  }
    where
      small : (k : ℕ) → k < cap → (0 + k) % cap ≡ (0 + k) % 2 ^ 64
      small k hi =
          mod-eq_of_lt {n = 0 + k} {m = cap} (omega arith)
          ∙ sym (mod-eq_of_lt {n = 0 + k} {m = 2 ^ 64} (omega (arith, capacity-le c)))
