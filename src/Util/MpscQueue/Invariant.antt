-- ===== src/Util/MpscQueue/Invariant.antt =====
-- An MPSCQueue (include/util/mpsc_queue.hpp) between two accesses: which places are free, which are
-- claimed by a producer that has not finished, and which hold an item.
use uring_proactor.Base.{
  length, drop, head_of, IsCapacity, bit_and_mask, ℕ, zero, suc, ◌+◌, ◌-◌, ◌%◌, ◌^◌, ◌≤◌, ◌<◌, ◌≡◌,
  refl, sym, ap, subst, ◌∙◌, ◌≢◌, ◌⊎◌, Option, none, some, List, [], ◌∷◌, ◌++◌, arith,
}
use native.Mathlib.Nat.{add-mod_right}
use native.Mathlib.Decide.{dec_lt}
use uring_proactor.Base.Ring.{place-ne}
use uring_proactor.Util.MpscQueue.{
  MpscQueue, Producer, resting, wanting, loaded, checked, claimed, stored, Consumer, waiting, ready,
  copied, Threads, slot_of,
}

-- The `k`th item of a list, with 0 past its end.
abbrev pub entry : List ℕ → ℕ → ℕ
entry xs k = head_of (drop k xs)

pub entry-append : (xs ys : List ℕ) (k : ℕ) → k < length xs → entry (xs ++ ys) k ≡ entry xs k
entry-append [] ys k h = absurd (omega arith)
entry-append (x ∷ xs) ys zero h = refl
entry-append (x ∷ xs) ys (suc k) h = entry-append xs ys k (omega arith)

pub entry-snoc : (xs : List ℕ) (y k : ℕ) → k ≡ length xs → entry (xs ++ (y ∷ [])) k ≡ y
entry-snoc [] y k h = ap (entry (y ∷ [])) h
entry-snoc (x ∷ xs) y zero h = absurd (omega arith)
entry-snoc (x ∷ xs) y (suc k) h = entry-snoc xs y k (omega arith)

-- The place that a producer has claimed.
unfoldable pub place_held : Producer → Option ℕ
place_held resting = none
place_held (wanting item) = none
place_held (loaded pos item) = none
place_held (checked pos item) = none
place_held (claimed pos item) = some pos
place_held (stored pos item) = some pos

module _ (cap : ℕ) where
  abbrev pub seq_at : MpscQueue → ℕ → ℕ
  seq_at q k = q.sequence (slot_of cap k)

  abbrev pub data_at : MpscQueue → ℕ → ℕ
  data_at q k = q.data_of (slot_of cap k)

  -- A producer's place is claimed, and the item that it puts there is the one counted as sent.
  abbrev pub Claims : MpscQueue → List ℕ → ℕ → ℕ → Type 0
  Claims q sent pos item =
      (q.head ≤ pos) × (pos < q.tail) × (seq_at q pos ≡ pos) × (item ≡ entry sent pos)

  unfoldable pub IsProducer : MpscQueue → List ℕ → Producer → Type 0
  IsProducer q sent resting = Unit
  IsProducer q sent (wanting item) = Unit
  IsProducer q sent (loaded pos item) = pos ≤ q.tail
  IsProducer q sent (checked pos item) = (pos ≤ q.tail) × (pos ≡ q.tail → pos < q.head + cap)
  IsProducer q sent (claimed pos item) = Claims q sent pos item
  IsProducer q sent (stored pos item) = Claims q sent pos item × (data_at q pos ≡ item)

  -- The oldest place holds an item.
  abbrev pub IsReady : MpscQueue → Type 0
  IsReady q = (q.head < q.tail) × (seq_at q q.head ≡ q.head + 1)

  unfoldable pub IsConsumer : MpscQueue → List ℕ → Consumer → Type 0
  IsConsumer q sent waiting = Unit
  IsConsumer q sent ready = IsReady q
  IsConsumer q sent (copied item) = IsReady q × (item ≡ entry sent q.head)

  pub record IsQueue (s : Threads) : Type 0 where
    pub tail_count : s.queue.tail ≡ length s.sent
    pub head_count : s.queue.head ≡ length s.got
    pub order : s.queue.head ≤ s.queue.tail
    pub within : s.queue.tail ≤ s.queue.head + cap
    pub free : (k : ℕ) → s.queue.tail ≤ k → k < s.queue.head + cap → seq_at s.queue k ≡ k
    pub full :
        (k : ℕ)
        → s.queue.head ≤ k
        → k < s.queue.tail
        → ((seq_at s.queue k ≡ k) × ((i : ℕ) × (place_held (s.producers i) ≡ some k)))
          ⊎ ((seq_at s.queue k ≡ k + 1) × (data_at s.queue k ≡ entry s.sent k))
    pub each : (i : ℕ) → IsProducer s.queue s.sent (s.producers i)
    pub alone :
        (i j k : ℕ)
        → place_held (s.producers i) ≡ some k
        → place_held (s.producers j) ≡ some k
        → i ≡ j
    pub reading : IsConsumer s.queue s.sent s.consumer
    pub kept : (wait : List ℕ) × (s.sent ≡ s.got ++ wait)

  -- The queue is small enough for its counters not to wrap, and has more than one place.
  pub record Fits (s : Threads) : Type 0 where
    pub power : IsCapacity cap
    pub places : 2 ≤ cap
    pub few : length s.sent + cap < 2 ^ 63

  module _ (c : IsCapacity cap) where
    slot_mod : (k : ℕ) → slot_of cap k ≡ k % cap
    slot_mod k = bit_and_mask c k

    -- Places less than a round apart have different slots, and a round later it is the same slot.
    pub slot_apart : (j k : ℕ) → j < k + cap → k < j + cap → j ≢ k → slot_of cap j ≢ slot_of cap k
    slot_apart j k above below ne e = elim (dec_lt j k) [
      | yes lt ↦
          place-ne cap j (k - j) (omega arith) (omega arith)
            (ap (λ t. t % cap) (omega arith) ∙ sym (slot_mod k) ∙ sym e ∙ slot_mod j)
      | no ge ↦
          place-ne cap k (j - k) (omega (arith, ne)) (omega arith)
            (ap (λ t. t % cap) (omega arith) ∙ sym (slot_mod j) ∙ e ∙ slot_mod k)
    ]

    pub slot_round : (k : ℕ) → slot_of cap (k + cap) ≡ slot_of cap k
    slot_round k = slot_mod (k + cap) ∙ add-mod_right k cap ∙ sym (slot_mod k)

  -- A claimed place is between the counters.
  pub place-between :
      (q : MpscQueue) (sent : List ℕ) (p : Producer) (k : ℕ)
      → IsProducer q sent p
      → place_held p ≡ some k
      → (q.head ≤ k) × (k < q.tail) × (seq_at q k ≡ k)
  unfolding place_held IsProducer
  place-between q sent resting k h e = absurd (ground (arith, e))
  place-between q sent (wanting item) k h e = absurd (ground (arith, e))
  place-between q sent (loaded pos item) k h e = absurd (ground (arith, e))
  place-between q sent (checked pos item) k h e = absurd (ground (arith, e))
  place-between q sent (claimed pos item) k (lo, hi, at, _) e =
      subst (λ t. (q.head ≤ t) × (t < q.tail) × (seq_at q t ≡ t)) (ground (arith, e)) (lo, hi, at)
  place-between q sent (stored pos item) k ((lo, hi, at, _), _) e =
      subst (λ t. (q.head ≤ t) × (t < q.tail) × (seq_at q t ≡ t)) (ground (arith, e)) (lo, hi, at)
