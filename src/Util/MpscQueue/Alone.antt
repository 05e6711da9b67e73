-- ===== src/Util/MpscQueue/Alone.antt =====
-- Whole calls of `enqueue` and `dequeue` of MPSCQueue (include/util/mpsc_queue.hpp), where no access of
-- another thread comes between those of a call. The counters wrap at 64 bits.
pub mod Calls
use native.Mathlib.Nat.{add-mod_right, mod-add-mod, mod-eq_of_lt}
use native.Mathlib.Decide.{dec_lt, ℕ_discrete}
use uring_proactor.Base.{
  ◌&&◌, not, leb, ◌==◌, lt→leb, le→leb, u64_mod, add_word, sub_word, sub_word_cases, next_cases,
  update, update_apart, update_self, IsCapacity, capacity_pos, capacity-le, bit_and_mask, mod_wrap,
  ℕ, ◌+◌, ◌-◌, ◌%◌, ◌^◌, ◌≤◌, ◌<◌, ◌≡◌, refl, sym, ap, ap₂, subst, ◌∙◌, ◌⊎◌, inl, inr, Bool, true,
  false, Option, none, some, List, [], ◌∷◌, ◌++◌, arith,
}
use uring_proactor.Base.Ring.{Ring, size, push, front, advance, items, place-ne}
use uring_proactor.Base.Ring.Laws.{
  IsRing, size_cases, tail-size, tail_place, size-push, size-advance, push-IsRing, advance-IsRing,
}
use uring_proactor.Util.MpscQueue.{
  MpscQueue, Producer, resting, wanting, loaded, checked, claimed, stored, Consumer, waiting, ready,
  copied, slot_of, produce, consume_next,
}

abbrev pub has_some : List ℕ → Bool
has_some [] = false
has_some (x ∷ rest) = true

abbrev pub first_of : List ℕ → Option ℕ
first_of [] = none
first_of (x ∷ rest) = some x

module _ (cap : ℕ) where
  -- The next access of the call, with the items that it has put in places so far.
  abbrev pub enqueue_on : MpscQueue × Producer × List ℕ → MpscQueue × Producer × List ℕ
  enqueue_on (q, p, put) = let (q', p', new) = produce cap false q p in (q', p', put ++ new)

  abbrev pub dequeue_on : MpscQueue × Consumer × List ℕ → MpscQueue × Consumer × List ℕ
  dequeue_on (q, c, got) = let (q', c', new) = consume_next cap q c in (q', c', got ++ new)

  -- `enqueue(item)`
  unfoldable pub enqueue_alone : ℕ → MpscQueue → Bool × MpscQueue
  unfolding produce
  enqueue_alone item q =
      let r =
        enqueue_on (enqueue_on (enqueue_on (enqueue_on (enqueue_on (q, wanting item, []))))) in
      (has_some r.2, r.0)

  -- `dequeue(item)`
  unfoldable pub dequeue_alone : MpscQueue → Option ℕ × MpscQueue
  unfolding consume_next
  dequeue_alone q =
      let r = dequeue_on (dequeue_on (dequeue_on (q, waiting, []))) in (first_of r.2, r.0)

  -- The items as a circular queue.
  abbrev pub ring_of : MpscQueue → Ring
  ring_of q = record { slots = q.data_of; head = q.head; tail = q.tail }

  abbrev pub waits : MpscQueue → ℕ
  waits q = size u64_mod (ring_of q)

  -- The queue between two calls.
  pub record IsAlone (q : MpscQueue) : Type 0 where
    pub power : IsCapacity cap
    pub places : 2 ≤ cap
    pub ring : IsRing 64 cap (ring_of q)
    pub full : (k : ℕ) → k < waits q → q.sequence ((q.head + k) % cap) ≡ (q.head + k + 1) % 2 ^ 64
    pub free :
        (k : ℕ) → waits q ≤ k → k < cap → q.sequence ((q.head + k) % cap) ≡ (q.head + k) % 2 ^ 64

  -- What `enqueue` makes of a queue with room, and `dequeue` of one that is not empty.
  abbrev pub put_last : ℕ → MpscQueue → MpscQueue
  put_last item q = record q {
    tail = add_word u64_mod q.tail 1;
    sequence = update q.sequence (slot_of cap q.tail) (add_word u64_mod q.tail 1);
    data_of = update q.data_of (slot_of cap q.tail) item;
  }

  abbrev pub drop_first : MpscQueue → MpscQueue
  drop_first q = record q {
    head = add_word u64_mod q.head 1;
    sequence = update q.sequence (slot_of cap q.head) (add_word u64_mod q.head cap);
  }

  module _ (q : MpscQueue) (i : IsAlone q) where
    tail_seq : waits q < cap → q.sequence (slot_of cap q.tail) ≡ q.tail
    tail_seq room =
        ap q.sequence
          (bit_and_mask i.power q.tail ∙ tail_place i.power 64 (omega arith) (ring_of q) i.ring)
        ∙ i.free (waits q) (omega arith) room
        ∙ tail-size i.power 64 (omega arith) (ring_of q) i.ring

    -- The test of the sequence, and the exchange.
    loaded-on :
        (item : ℕ)
        → sub_word u64_mod (q.sequence (slot_of cap q.tail)) q.tail ≡ 0
        → produce cap false q (loaded q.tail item) ≡ (q, checked q.tail item, [])
    unfolding produce
    loaded-on item e = rw e refl

    checked-on :
        (item : ℕ)
        → produce cap false q (checked q.tail item)
          ≡ (record q { tail = add_word u64_mod q.tail 1 }, claimed q.tail item, item ∷ [])
    unfolding produce
    checked-on item = rw own refl
      where
        own : (q.tail == q.tail && not false) ≡ true
        own = ground arith

    refused-on :
        (item : ℕ)
        → (sub_word u64_mod (q.sequence (slot_of cap q.tail)) q.tail == 0) ≡ false
        → 2 ^ 63 ≤ sub_word u64_mod (q.sequence (slot_of cap q.tail)) q.tail
        → produce cap false q (loaded q.tail item) ≡ (q, resting, [])
    unfolding produce
    refused-on item ne neg = rw (ne, le→leb (2 ^ 63) _ neg) refl

    ready-on :
        sub_word u64_mod (q.sequence (slot_of cap q.head)) (add_word u64_mod q.head 1) ≡ 0
        → consume_next cap q waiting ≡ (q, ready, [])
    unfolding consume_next
    ready-on e = rw e refl

    empty-on :
        (sub_word u64_mod (q.sequence (slot_of cap q.head)) (add_word u64_mod q.head 1) == 0)
          ≡ false
        → consume_next cap q waiting ≡ (q, waiting, [])
    unfolding consume_next
    empty-on e = rw e refl

    pub enqueue_alone-room :
        (item : ℕ) → waits q < cap → enqueue_alone item q ≡ (true, put_last item q)
    unfolding enqueue_alone produce
    enqueue_alone-room item room =
        ap
          (λ (r : MpscQueue × Producer × List ℕ).
            let x = enqueue_on (enqueue_on (enqueue_on (r.0, r.1, [] ++ r.2))) in
            (has_some x.2, x.0))
          (loaded-on item equal)
        ∙ ap
            (λ (r : MpscQueue × Producer × List ℕ).
              let x = enqueue_on (enqueue_on (r.0, r.1, [] ++ r.2)) in (has_some x.2, x.0))
            (checked-on item)
      where
        equal : sub_word u64_mod (q.sequence (slot_of cap q.tail)) q.tail ≡ 0
        equal = omega (arith, tail_seq room, i.ring.tail_in)

    pub enqueue_alone-full : (item : ℕ) → waits q ≡ cap → enqueue_alone item q ≡ (false, q)
    unfolding enqueue_alone produce
    enqueue_alone-full item e =
        ap
          (λ (r : MpscQueue × Producer × List ℕ).
            let x = enqueue_on (enqueue_on (enqueue_on (r.0, r.1, [] ++ r.2))) in
            (has_some x.2, x.0))
          (refused-on item (ground (arith, far, capacity-le i.power))
            (omega (arith, far, capacity-le i.power)))
      where
        -- The slot of the tail is that of the head, whose sequence is a round behind.
        place : slot_of cap q.tail ≡ (q.head + 0) % cap
        place =
            bit_and_mask i.power q.tail
            ∙ tail_place i.power 64 (omega arith) (ring_of q) i.ring
            ∙ ap (λ n. (q.head + n) % cap) e
            ∙ add-mod_right q.head cap
            ∙ ap (λ n. n % cap) (omega arith)

        far : sub_word u64_mod (q.sequence (slot_of cap q.tail)) q.tail + cap ≡ 2 ^ 64 + 1
        far = omega (
          arith,
          ap q.sequence place ∙ i.full 0 (omega (arith, capacity_pos i.power)),
          tail-size i.power 64 (omega arith) (ring_of q) i.ring,
          i.ring.head_in,
          i.ring.tail_in,
          i.places,
          capacity-le i.power,
        )

    first_place : slot_of cap q.head ≡ (q.head + 0) % cap
    first_place = bit_and_mask i.power q.head ∙ ap (λ n. n % cap) (omega arith)

    pub dequeue_alone-empty : waits q ≡ 0 → dequeue_alone q ≡ (none, q)
    unfolding dequeue_alone
    dequeue_alone-empty e =
        ap
          (λ (r : MpscQueue × Consumer × List ℕ).
            let x = dequeue_on (dequeue_on (r.0, r.1, [] ++ r.2)) in (first_of x.2, x.0))
          (empty-on behind)
        ∙ ap
            (λ (r : MpscQueue × Consumer × List ℕ).
              let x = dequeue_on (r.0, r.1, [] ++ r.2) in (first_of x.2, x.0))
            (empty-on behind)
        ∙ ap (λ (r : MpscQueue × Consumer × List ℕ). (first_of ([] ++ r.2), r.0)) (empty-on behind)
      where
        at : q.sequence (slot_of cap q.head) ≡ q.head
        at =
            ap q.sequence first_place
            ∙ i.free 0 (omega arith) (capacity_pos i.power)
            ∙ omega (arith, i.ring.head_in)

        behind :
            (sub_word u64_mod (q.sequence (slot_of cap q.head)) (add_word u64_mod q.head 1) == 0)
            ≡ false
        behind = ground (arith, one_off)
          where
            one_off :
                sub_word u64_mod (q.sequence (slot_of cap q.head)) (add_word u64_mod q.head 1)
                ≡ 2 ^ 64 - 1
            one_off = omega (arith, at, i.ring.head_in)

    pub dequeue_alone-some :
        0 < waits q → dequeue_alone q ≡ (some (q.data_of (slot_of cap q.head)), drop_first q)
    unfolding dequeue_alone consume_next
    dequeue_alone-some h =
        ap
          (λ (r : MpscQueue × Consumer × List ℕ).
            let x = dequeue_on (dequeue_on (r.0, r.1, [] ++ r.2)) in (first_of x.2, x.0))
          (ready-on equal)
      where
        equal : sub_word u64_mod (q.sequence (slot_of cap q.head)) (add_word u64_mod q.head 1) ≡ 0
        equal = omega (arith, ap q.sequence first_place ∙ i.full 0 h)
