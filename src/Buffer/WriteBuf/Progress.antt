-- ===== src/Buffer/WriteBuf/Progress.antt =====
-- How far an `append` has got: what it wrote since the state `s0` that it started from, and what
-- it must be able to restore.
use native.Mathlib.Decide.{ℕ_discrete}
use uring_proactor.Base.{
  u32_mod, u64_mod, length, take, rows, count, count-append, ℕ, ◌+◌, ◌*◌, ◌%◌, ◌≤◌, ◌<◌, ◌≡◌, refl,
  sym, ap, ap₂, subst, ◌∙◌, ◌⊎◌, inl, inr, List, [], ◌∷◌, ◌++◌, append-nil, append_assoc, arith,
}
use uring_proactor.Base.Ring.{size, push, front, window, items, head-push}
use uring_proactor.Buffer.BufPool.{BufPool, buf_addr}
use uring_proactor.Buffer.WriteBuf.{Writer, last_block}
use uring_proactor.Buffer.WriteBuf.Invariant.{
  pending_list, pending_bytes, owners, IsPending, taken, pending_list-taken, taken-IsPending,
  size-taken, pending_bytes-taken,
}
use uring_proactor.Buffer.WriteBuf.Fill.{
  extend, rows-extend, size-extend, last-lt, step, filled, take_fits, filled-IsPending,
  pending_bytes-filled,
}
use uring_proactor.Buffer.BufPool.Blocks.{block}
use uring_proactor.Buffer.BufPool.Invariant.{front_unheld, held-lt}
use uring_proactor.Base.Ring.Laws.{window-push, back-push}

pub record Progress (others : ℕ → ℕ) (s0 s : Writer) (done : List ℕ) : Type 0 where
  pub live : IsPending others s
  pub same_head : s.pending.head ≡ s0.pending.head
  pub same_send : s.send ≡ s0.send
  pub same_capacity : s.capacity ≡ s0.capacity
  pub same_size : s.pool.buf_size ≡ s0.pool.buf_size
  pub same_num : s.pool.buf_num ≡ s0.pool.buf_num
  pub grew : size u64_mod s0.pending ≤ size u64_mod s.pending
  pub kept :
      window s.pending.slots s0.capacity s0.pending.head (size u64_mod s0.pending) ≡ pending_list s0
  pub written : pending_bytes s ≡ pending_bytes s0 ++ done
  pub more : (a : ℕ) → owners others s0 a ≤ owners others s a
  pub old :
      (a : ℕ)
      → 0 < owners others s0 a
      → rows s.pool.bufs (buf_addr s0.pool a) (s0.pool.data_size a) ≡ block s0.pool a
  pub sizes :
      (a : ℕ)
      → 0 < owners others s0 a
      → (s.pool.data_size a ≡ s0.pool.data_size a)
        ⊎ ((0 < size u64_mod s0.pending) × (a ≡ last_block s0))
  pub no_less : (a : ℕ) → 0 < owners others s0 a → s0.pool.data_size a ≤ s.pool.data_size a

-- There is a last block to write to: a new one, or the one that was last at the start.
pub record HasTip (others : ℕ → ℕ) (s0 s : Writer) : Type 0 where
  pub nonempty : 0 < size u64_mod s.pending
  pub tip :
      (owners others s0 (last_block s) ≡ 0)
      ⊎ ((0 < size u64_mod s0.pending) × (last_block s ≡ last_block s0))

module _ {others : ℕ → ℕ} {s0 s : Writer} {done : List ℕ} (g : Progress others s0 s done) where
  -- A round of copying.
  pub filled-Progress :
      (h : HasTip others s0 s) (bytes : List ℕ)
      → Progress others s0
          (filled g.live h.nonempty bytes)
          (done ++ take (step g.live h.nonempty bytes) bytes)
  unfolding filled extend
  filled-Progress h bytes = record {
    live = filled-IsPending g.live h.nonempty bytes;
    same_head = g.same_head;
    same_send = g.same_send;
    same_capacity = g.same_capacity;
    same_size = g.same_size;
    same_num = g.same_num;
    grew = g.grew;
    kept = g.kept;
    written =
        pending_bytes-filled g.live h.nonempty bytes
        ∙ ap (λ xs. xs ++ piece) g.written
        ∙ append_assoc (pending_bytes s0) done piece;
    more = g.more;
    old = λ a own.
        ap (λ t. rows p'.bufs t (s0.pool.data_size a)) (addr a)
        ∙ rows-extend g.live.pool (last_block s) lt piece fits a (s0.pool.data_size a)
            (in_pool a own) (g.no_less a own)
        ∙ ap (λ t. rows s.pool.bufs t (s0.pool.data_size a)) (sym (addr a))
        ∙ g.old a own;
    sizes = λ a own. elim (ℕ_discrete a (last_block s)) [
      | yes e ↦ inr (at_tip a own e)
      | no ne ↦ elim (g.sizes a own) [
        | inl q ↦ inl (size-extend g.live.pool (last_block s) lt piece fits a ne ∙ q)
        | inr q ↦ inr q
      ]
    ];
    no_less = λ a own. ground (arith, g.no_less a own);
  }
    where
      piece : List ℕ
      piece = take (step g.live h.nonempty bytes) bytes

      p' : BufPool
      p' = extend s.pool (last_block s) piece

      lt : last_block s < s.pool.buf_num
      lt = last-lt g.live h.nonempty

      fits : s.pool.data_size (last_block s) + length piece ≤ s.pool.buf_size
      fits = take_fits g.live h.nonempty bytes

      addr : (a : ℕ) → buf_addr s0.pool a ≡ buf_addr s.pool a
      addr a = ap (λ t. a * t % u32_mod) (sym g.same_size)

      in_pool : (a : ℕ) → 0 < owners others s0 a → a < s.pool.buf_num
      in_pool a own = held-lt g.live.pool a (omega (arith, g.more a))

      at_tip :
          (a : ℕ)
          → 0 < owners others s0 a
          → a ≡ last_block s
          → (0 < size u64_mod s0.pending) × (a ≡ last_block s0)
      at_tip a own e = elim h.tip [
        | inl z ↦ absurd (omega (arith, subst (λ (t : ℕ). owners others s0 t ≡ 0) (sym e) z))
        | inr q ↦ (q.0, e ∙ q.1)
      ]

  pub filled-HasTip :
      (h : HasTip others s0 s) (bytes : List ℕ) → HasTip others s0 (filled g.live h.nonempty bytes)
  unfolding filled
  filled-HasTip h bytes = record { nonempty = h.nonempty; tip = h.tip }

  -- A new block.
  module _ (free : 0 < size u32_mod s.pool.free) (room : size u64_mod s.pending < s.capacity) where
    abbrev new_block : ℕ
    new_block = front s.pool.mask s.pool.free

    pub taken-Progress : Progress others s0 (taken g.live) done
    unfolding taken
    taken-Progress = record {
      live = taken-IsPending g.live free room;
      same_head = head-push u64_mod s.mask s.pending new_block ∙ g.same_head;
      same_send = g.same_send;
      same_capacity = g.same_capacity;
      same_size = g.same_size;
      same_num = g.same_num;
      grew = omega (arith, g.grew, size-taken g.live free room);
      kept =
          ap₂ (λ c h. window pushed c h n0) (sym g.same_capacity) (sym g.same_head)
          ∙ untouched
          ∙ ap₂ (λ c h. window s.pending.slots c h n0) g.same_capacity g.same_head
          ∙ g.kept;
      written = pending_bytes-taken g.live free room ∙ g.written;
      more = λ a. omega (
        arith,
        g.more a,
        ap (count a) (pending_list-taken g.live free room),
        count-append a (pending_list s) (new_block ∷ []),
      );
      old = g.old;
      sizes = g.sizes;
      no_less = g.no_less;
    }
      where
        n0 : ℕ
        n0 = size u64_mod s0.pending

        pushed : ℕ → ℕ
        pushed = (push u64_mod s.mask s.pending new_block).slots

        untouched :
            window pushed s.capacity s.pending.head n0
            ≡ window s.pending.slots s.capacity s.pending.head n0
        untouched = rw g.live.masked (
            window-push g.live.capacity 64 (omega arith) s.pending new_block n0 g.live.queue g.grew
              room)

    pub taken-HasTip : HasTip others s0 (taken g.live)
    unfolding taken
    taken-HasTip = record {
      nonempty = omega (arith, size-taken g.live free room);
      tip = inl (
          subst (λ (t : ℕ). owners others s0 t ≡ 0) (sym newest)
            (omega (arith, g.more new_block, front_unheld g.live.pool free)));
    }
      where
        newest : last_block (taken g.live) ≡ new_block
        newest =
            rw g.live.masked
              (back-push g.live.capacity 64 (omega arith) s.pending new_block g.live.queue)

-- The start.
pub start-Progress : {others : ℕ → ℕ} {s : Writer} → IsPending others s → Progress others s s []
start-Progress {others} {s} i = record {
  live = i;
  same_head = refl;
  same_send = refl;
  same_capacity = refl;
  same_size = refl;
  same_num = refl;
  grew = omega arith;
  kept = unfold items in refl;
  written = sym (append-nil (pending_bytes s));
  more = λ a. omega arith;
  old = λ a own. refl;
  sizes = λ a own. inl refl;
  no_less = λ a own. omega arith;
}

pub start-HasTip : {others : ℕ → ℕ} {s : Writer} → 0 < size u64_mod s.pending → HasTip others s s
start-HasTip h = record { nonempty = h; tip = inr (h, refl) }
