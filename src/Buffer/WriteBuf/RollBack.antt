-- ===== src/Buffer/WriteBuf/RollBack.antt =====
-- The rollback of a failed `append`: the blocks that it took go back to the pool.
use native.Mathlib.Decide.{ℕ_discrete}
use uring_proactor.Base.{
  ◌==◌, Bool-cases, u32_mod, u64_mod, sub_word, sub_word_cases, rows, count, count-append, last?,
  capacity-le, ℕ, zero, suc, ◌+◌, ◌-◌, ◌*◌, ◌%◌, ◌^◌, ◌≤◌, ◌<◌, bit_and, ◌≡◌, refl, sym, ap, ap₂,
  subst, ◌∙◌, ◌≢◌, inl, inr, some, List, [], ◌∷◌, arith,
}
use uring_proactor.Base.Ring.{Ring, size, back, retreat, window, items}
use uring_proactor.Base.Ring.Laws.{
  size_cases, tail-size, size-retreat, retreat-IsRing, last?-window,
}
use uring_proactor.Buffer.BufPool.{buf_addr, set_data_size, release}
use uring_proactor.Buffer.WriteBuf.{
  Writer, last_block, drop_last, unwind, roll_back, mark_empty, mark_last,
}
use uring_proactor.Buffer.WriteBuf.Invariant.{pending_list, pending_bytes, owners, IsPending}
use uring_proactor.Buffer.WriteBuf.Fill.{pending_list-last, last_owned, size-le}
use uring_proactor.Buffer.BufPool.Invariant.{Gains, release-IsPool, resize-IsPool}
use uring_proactor.Buffer.WriteBuf.Progress.{Progress}
use uring_proactor.Buffer.BufPool.Blocks.{block, contents, contents_cong}

-- What dropping blocks from the end, down to the tail `t`, leaves.
pub record Unwound (others : ℕ → ℕ) (t : ℕ) (s r : Writer) : Type 0 where
  pub live : IsPending others r
  pub reached : r.pending.tail ≡ t
  pub same_head : r.pending.head ≡ s.pending.head
  pub same_slots : r.pending.slots ≡ s.pending.slots
  pub same_send : r.send ≡ s.send
  pub same_capacity : r.capacity ≡ s.capacity
  pub same_bufs : r.pool.bufs ≡ s.pool.bufs
  pub same_size : r.pool.buf_size ≡ s.pool.buf_size
  pub fewer : (a : ℕ) → owners others r a ≤ owners others s a
  pub sizes : (a : ℕ) → 0 < owners others r a → r.pool.data_size a ≡ s.pool.data_size a

module _ {others : ℕ → ℕ} {s : Writer} (i : IsPending others s)
    (some_block : 0 < size u64_mod s.pending) where
  owners-drop_last : Gains (owners others (drop_last s)) (last_block s) (owners others s)
  unfolding drop_last
  owners-drop_last a = omega (
    arith,
    ap (count a) (pending_list-last i some_block),
    count-append a (items u64_mod s.capacity (retreat u64_mod s.pending)) (last_block s ∷ []),
  )

  drop_last-Unwound : Unwound others (sub_word u64_mod s.pending.tail 1) s (drop_last s)
  drop_last-Unwound = record {
    live =
        unfold drop_last in
        record {
          capacity = i.capacity;
          masked = i.masked;
          queue = retreat-IsRing i.capacity 64 (omega arith) s.pending i.queue some_block;
          pool =
              release-IsPool i.pool (last_block s) (owners others (drop_last s)) owners-drop_last;
        };
    reached = unfold drop_last retreat in refl;
    same_head = unfold drop_last retreat in refl;
    same_slots = unfold drop_last retreat in refl;
    same_send = unfold drop_last in refl;
    same_capacity = unfold drop_last in refl;
    same_bufs = unfold drop_last release in refl;
    same_size = unfold drop_last release in refl;
    fewer = λ a. omega (arith, owners-drop_last a);
    sizes = λ a own. untouched a (apart a own);
  }
    where
      apart : (a : ℕ) → 0 < owners others (drop_last s) a → a ≢ last_block s
      apart a own = ground (arith, owners-drop_last a, i.pool.once a)

      untouched : (a : ℕ) → a ≢ last_block s → (drop_last s).pool.data_size a ≡ s.pool.data_size a
      untouched a ne = unfold drop_last release in ground arith

Unwound-trans :
    {others : ℕ → ℕ} {t u : ℕ} {s m r : Writer}
    → Unwound others t s m
    → Unwound others u m r
    → Unwound others u s r
Unwound-trans x y = record {
  live = y.live;
  reached = y.reached;
  same_head = y.same_head ∙ x.same_head;
  same_slots = y.same_slots ∙ x.same_slots;
  same_send = y.same_send ∙ x.same_send;
  same_capacity = y.same_capacity ∙ x.same_capacity;
  same_bufs = y.same_bufs ∙ x.same_bufs;
  same_size = y.same_size ∙ x.same_size;
  fewer = λ a. omega (arith, y.fewer a, x.fewer a);
  sizes = λ a own. y.sizes a own ∙ x.sizes a (omega (arith, y.fewer a));
}

Unwound-refl :
    {others : ℕ → ℕ} {s : Writer} → IsPending others s → Unwound others s.pending.tail s s
Unwound-refl i = record {
  live = i;
  reached = refl;
  same_head = refl;
  same_slots = refl;
  same_send = refl;
  same_capacity = refl;
  same_bufs = refl;
  same_size = refl;
  fewer = λ a. omega arith;
  sizes = λ a own. refl;
}

-- As many rounds as there are blocks past the first `n` bring the tail back to where it was then.
pub unwind-Unwound :
    {others : ℕ → ℕ} (k n t : ℕ) (s : Writer)
    → IsPending others s
    → size u64_mod s.pending ≡ n + k
    → t ≡ (s.pending.head + n) % 2 ^ 64
    → Unwound others t s (unwind k t s)
unfolding unwind
unwind-Unwound {others} zero n t s i e at =
    subst (λ (u : ℕ). Unwound others u s s) arrived (Unwound-refl i)
  where
    arrived : s.pending.tail ≡ t
    arrived = omega (arith, tail-size i.capacity 64 (omega arith) s.pending i.queue)
unwind-Unwound {others} (suc k) n t s i e at = elim (Bool-cases (s.pending.tail == t)) [
  | inl stop ↦ absurd (too_soon (ground arith))
  | inr go ↦ rw go (
      Unwound-trans (drop_last-Unwound i nonempty) (
        unwind-Unwound k n t (drop_last s) dropped.live one_less
          (at ∙ ap (λ h. (h + n) % 2 ^ 64) (sym dropped.same_head))))
]
  where
    nonempty : 0 < size u64_mod s.pending
    nonempty = omega arith

    dropped : Unwound others (sub_word u64_mod s.pending.tail 1) s (drop_last s)
    dropped = drop_last-Unwound i nonempty

    one_less : size u64_mod (drop_last s).pending ≡ n + k
    one_less =
        unfold drop_last in
        omega (arith, size-retreat i.capacity 64 (omega arith) s.pending i.queue nonempty)

    too_soon : s.pending.tail ≡ t → ⊥
    too_soon q = omega (
      arith,
      tail-size i.capacity 64 (omega arith) s.pending i.queue,
      i.queue.fits,
      capacity-le i.capacity,
    )

-- What a failed `append` must come back to: the blocks that had holders, with their bytes.
pub record Restored (others : ℕ → ℕ) (s0 r : Writer) : Type 0 where
  pub live : IsPending others r
  pub same_list : pending_list r ≡ pending_list s0
  pub same_send : r.send ≡ s0.send
  pub same_capacity : r.capacity ≡ s0.capacity
  pub same_block : (a : ℕ) → 0 < owners others s0 a → block r.pool a ≡ block s0.pool a

pub pending_bytes-Restored :
    {others : ℕ → ℕ} {s0 r : Writer} → Restored others s0 r → pending_bytes r ≡ pending_bytes s0
pending_bytes-Restored {others} {s0} {r} x =
    ap (contents r.pool) x.same_list
    ∙ contents_cong s0.pool r.pool (pending_list s0) (λ a c. x.same_block a (omega arith))

module _ {others : ℕ → ℕ} {s0 s : Writer} {done : List ℕ} (i0 : IsPending others s0)
    (g : Progress others s0 s done) where
  abbrev between : ℕ → ℕ → ℕ
  between t h = sub_word u64_mod t h

  abbrev blocks0 : ℕ
  blocks0 = size u64_mod s0.pending

  -- `pending_tail_ - original_tail` counts the blocks taken since.
  rounds : size u64_mod s.pending ≡ blocks0 + sub_word u64_mod s.pending.tail s0.pending.tail
  rounds = omega (
    arith,
    g.grew,
    g.same_head,
    g.live.queue,
    i0.queue,
    capacity-le i0.capacity,
    capacity-le g.live.capacity,
    size_cases g.live.capacity 64 (omega arith) s.pending g.live.queue,
    size_cases i0.capacity 64 (omega arith) s0.pending i0.queue,
    sub_word_cases u64_mod s.pending.tail s0.pending.tail g.live.queue.tail_in i0.queue.tail_in,
  )

  -- From a state with the old sizes back in place.
  module _ (s1 : Writer) (same_pending : s1.pending ≡ s.pending) (i1 : IsPending others s1)
      (same_capacity : s1.capacity ≡ s0.capacity) (same_send : s1.send ≡ s0.send)
      (back_again : (a : ℕ) → 0 < owners others s0 a → block s1.pool a ≡ block s0.pool a) where
    abbrev result : Writer
    result = unwind (sub_word u64_mod s1.pending.tail s0.pending.tail) s0.pending.tail s1

    unwound : Unwound others s0.pending.tail s1 result
    unwound =
        unwind-Unwound (sub_word u64_mod s1.pending.tail s0.pending.tail) blocks0 s0.pending.tail s1
          i1 (rw same_pending rounds)
          (sym (tail-size i0.capacity 64 (omega arith) s0.pending i0.queue)
            ∙ ap (λ h. (h + blocks0) % 2 ^ 64)
                (sym (ap (λ (q : Ring). q.head) same_pending ∙ g.same_head)))

    same_list : pending_list result ≡ pending_list s0
    unfolding items size
    same_list =
        ap
          (λ f.
            window f result.capacity result.pending.head
              (between result.pending.tail result.pending.head))
          (unwound.same_slots ∙ ap (λ (q : Ring). q.slots) same_pending)
        ∙ ap
            (λ c.
              window s.pending.slots c result.pending.head
                (between result.pending.tail result.pending.head))
            (unwound.same_capacity ∙ same_capacity)
        ∙ ap (λ h. window s.pending.slots s0.capacity h (between result.pending.tail h))
            (unwound.same_head ∙ ap (λ (q : Ring). q.head) same_pending ∙ g.same_head)
        ∙ ap (λ t. window s.pending.slots s0.capacity s0.pending.head (between t s0.pending.head))
            unwound.reached
        ∙ g.kept

    unwound-Restored : Restored others s0 result
    unwound-Restored = record {
      live = unwound.live;
      same_list = same_list;
      same_send = unwound.same_send ∙ same_send;
      same_capacity = unwound.same_capacity ∙ same_capacity;
      same_block = λ a own.
          ap (λ f. rows f (buf_addr result.pool a) (result.pool.data_size a)) unwound.same_bufs
          ∙ ap (λ b. rows s1.pool.bufs (a * b % u32_mod) (result.pool.data_size a))
              unwound.same_size
          ∙ ap (rows s1.pool.bufs (buf_addr s1.pool a))
              (unwound.sizes a (omega (arith, ap (count a) same_list)))
          ∙ back_again a own;
    }

  -- With no block at the start there is no size to put back.
  pub roll_back_empty : blocks0 ≡ 0 → Restored others s0 (roll_back (mark_empty s0) s)
  unfolding roll_back
  roll_back_empty none_yet = unwound-Restored s refl g.live g.same_capacity g.same_send λ a own.
      ap₂ (rows s.pool.bufs) (ap (λ t. a * t % u32_mod) g.same_size) (size_of a own) ∙ g.old a own
    where
      size_of : (a : ℕ) → 0 < owners others s0 a → s.pool.data_size a ≡ s0.pool.data_size a
      size_of a own = elim (g.sizes a own) [ inl q ↦ q | inr q ↦ absurd (omega (arith, q.0)) ]

  -- The block that was last at the start is still where it was.
  last_kept :
      0 < blocks0
      → s.pending.slots (bit_and (sub_word u64_mod s0.pending.tail 1) s.mask) ≡ last_block s0
  unfolding back items
  last_kept h = cc (g.kept, now, then_, same_mask)
    where
      same_mask : s.mask ≡ s0.capacity - 1
      same_mask = g.live.masked ∙ ap (λ c. c - 1) g.same_capacity

      now :
          last? (window s.pending.slots s0.capacity s0.pending.head blocks0)
          ≡ some (s.pending.slots (bit_and (sub_word u64_mod s0.pending.tail 1) (s0.capacity - 1)))
      now = last?-window i0.capacity 64 (omega arith) s.pending.slots s0.pending i0.queue h

      then_ : last? (pending_list s0) ≡ some (last_block s0)
      then_ =
          rw i0.masked
            (last?-window i0.capacity 64 (omega arith) s0.pending.slots s0.pending i0.queue h)

  pub roll_back_last : 0 < blocks0 → Restored others s0 (roll_back (mark_last s0) s)
  unfolding roll_back
  roll_back_last h = rw (last_kept h) (
      unwound-Restored s1 refl sound g.same_capacity g.same_send λ a own.
        ap₂ (rows s.pool.bufs) (ap (λ t. a * t % u32_mod) g.same_size) (size_of a own)
        ∙ g.old a own)
    where
      s1 : Writer
      s1 = record s {
        pool = set_data_size s.pool (last_block s0) (s0.pool.data_size (last_block s0));
      }

      size_of : (a : ℕ) → 0 < owners others s0 a → s1.pool.data_size a ≡ s0.pool.data_size a
      size_of a own = elim (ℕ_discrete a (last_block s0)) [
        | yes e ↦ ground arith
        | no ne ↦ elim (g.sizes a own) [ inl q ↦ ground arith | inr q ↦ absurd (ne q.1) ]
      ]

      sound : IsPending others s1
      sound = record {
        capacity = g.live.capacity;
        masked = g.live.masked;
        queue = g.live.queue;
        pool =
            resize-IsPool g.live.pool (last_block s0) (s0.pool.data_size (last_block s0))
              (omega (arith, last_owned i0 h, g.more (last_block s0)))
              (omega (arith, size-le i0 h, g.same_size));
      }
