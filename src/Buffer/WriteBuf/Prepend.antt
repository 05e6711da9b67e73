-- ===== src/Buffer/WriteBuf/Prepend.antt =====
-- The whole of `prepend` (src/buffer/buffer.cpp): the test for room, the loop and the new head.
use native.Mathlib.Nat.{div-add-mod', div-eq_of_lt, mod-lt}
use native.Mathlib.Decide.{dec_lt}
use uring_proactor.Base.{
  u32_mod, u64_mod, sub_word, length, capacity-le, capacity_pos, lt→ltb, le→ltb, ℕ, ◌+◌, ◌-◌, ◌*◌,
  ◌/◌, ◌^◌, ◌≤◌, ◌<◌, ◌≡◌, refl, ap, ◌∙◌, ◌++◌, ◌⊎◌, [], if◌then◌else◌, ltb, subst, sym, inl, inr,
  Bool, true, false, List, arith,
}
use uring_proactor.Base.Ring.{size}
use uring_proactor.Buffer.BufPool.Blocks.{block_in}
use uring_proactor.Buffer.WriteBuf.{
  Writer, blocks_for, release_front, move_head, prepend_from, prepend,
}
use uring_proactor.Buffer.WriteBuf.Invariant.{pending_list, pending_bytes, IsWriter}
use uring_proactor.Buffer.WriteBuf.RollBack.{pending_bytes-Restored}
use uring_proactor.Buffer.WriteBuf.Append.{Framed, framed, Restored-Framed}
use uring_proactor.Buffer.WriteBuf.Front.Loop.{prepend_from-Stops, Stops}
use uring_proactor.Buffer.WriteBuf.Front.Ends.{
  new_head, start, gave_up-Restored, moved, size-moved, moved-Framed, pending_bytes-moved, behind,
}

-- How many blocks of `buf_size` bytes so many bytes take.
abbrev pub blocks_needed : ℕ → ℕ → ℕ
blocks_needed bytes buf_size = (bytes + buf_size - 1) / buf_size

blocks_for-eq :
    (n : ℕ) (s : Writer)
    → 0 < s.pool.buf_size
    → n + s.pool.buf_size ≤ 2 ^ 32
    → blocks_for n s ≡ blocks_needed n s.pool.buf_size
blocks_for-eq n s pos fits = ap (λ t. t / s.pool.buf_size) (omega arith)

le-blocks_needed : (n b : ℕ) → 0 < b → n ≤ blocks_needed n b * b
le-blocks_needed n b pos = omega (arith, div-add-mod' (n + b - 1) b, mod-lt (n + b - 1) {m = b} pos)

module _ {others : ℕ → ℕ} {s0 : Writer} (w : IsWriter others s0) where
  -- `prepend` with its number of blocks given.
  abbrev put_blocks : ℕ → List ℕ → Bool × Writer
  put_blocks n bytes =
      if ltb (sub_word u64_mod s0.capacity (size u64_mod s0.pending)) n
      then (false, s0)
      else move_head (sub_word u64_mod s0.pending.head n) (
          prepend_from (sub_word u64_mod s0.pending.head n) n (sub_word u64_mod s0.pending.head n)
            bytes s0)

  -- What may come of that.
  abbrev Put : ℕ → List ℕ → Bool × Writer → Type 0
  Put n bytes e =
      ((s : Writer) × (e ≡ (true, s))
        × (size u64_mod s.pending ≡ n + size u64_mod s0.pending)
        × (size u64_mod s.pending ≤ s0.capacity)
        × (n ≤ size u32_mod s0.pool.free)
        × Framed others s0 s
        × (pending_bytes s ≡ bytes ++ pending_bytes s0))
      ⊎ ((s : Writer) × (e ≡ (false, s))
          × ((s0.capacity < n + size u64_mod s0.pending) ⊎ (size u32_mod s0.pool.free < n))
          × Framed others s0 s
          × (pending_list s ≡ pending_list s0)
          × (pending_bytes s ≡ pending_bytes s0))

  stopped-Put :
      (n : ℕ) (bytes : List ℕ) (room : size u64_mod s0.pending + n ≤ s0.capacity)
      {e : Bool × Writer}
      → Stops (behind w n room) (new_head w n room) n s0 bytes e
      → Put n bytes (move_head (new_head w n room) e)
  unfolding move_head
  stopped-Put n bytes room (inl (i, s, q, g)) = inl (
    moved w n room g,
    ap (move_head (new_head w n room)) q,
    size-moved w n room g,
    omega (arith, size-moved w n room g),
    omega (arith, g.spent),
    moved-Framed w n room g,
    pending_bytes-moved w n room g,
  )
  stopped-Put n bytes room (inr (k, i, s, done, q, g, few)) =
      let r = gave_up-Restored w n room g in
      inr (
        release_front (sub_word u64_mod i (new_head w n room)) (new_head w n room) s,
        ap (move_head (new_head w n room)) q,
        inr few,
        Restored-Framed w r,
        r.same_list,
        pending_bytes-Restored r,
      )

  abbrev space : ℕ
  space = sub_word u64_mod s0.capacity (size u64_mod s0.pending)

  room_left : space ≡ s0.capacity - size u64_mod s0.pending
  room_left = omega (arith, w.waiting.queue.fits, capacity-le w.waiting.capacity)

  put_blocks-Put :
      (n : ℕ) (bytes : List ℕ)
      → length bytes ≤ n * s0.pool.buf_size
      → Put n bytes (put_blocks n bytes)
  put_blocks-Put n bytes enough = elim (dec_lt s0.capacity (n + size u64_mod s0.pending)) [
    | yes full ↦
        rw (lt→ltb space n (omega (arith, room_left)))
          (inr (s0, refl, inl full, framed w s0 w.waiting refl refl (λ a own. refl), refl, refl))
    | no room ↦ rw (le→ltb space n (omega (arith, room_left))) (
        stopped-Put n bytes (omega arith) (
          prepend_from-Stops bytes (omega arith) n 0 _ bytes [] s0 (start w n (omega arith))
            (omega arith) enough refl))
  ]

  prepend-Put :
      (bytes : List ℕ)
      → length bytes + s0.pool.buf_size ≤ 2 ^ 32
      → Put (blocks_needed (length bytes) s0.pool.buf_size) bytes (prepend bytes s0)
  unfolding prepend
  prepend-Put bytes fits =
      subst (Put (blocks_needed (length bytes) s0.pool.buf_size) bytes)
        (sym (
          ap (λ n. put_blocks n bytes) (blocks_for-eq (length bytes) s0 w.waiting.pool.sized fits)))
        (put_blocks-Put (blocks_needed (length bytes) s0.pool.buf_size) bytes
          (le-blocks_needed (length bytes) s0.pool.buf_size w.waiting.pool.sized))

  -- A sum past 32 bits wraps round, to no block at all.
  prepend-wraps :
      (bytes : List ℕ)
      → length bytes < 2 ^ 32
      → 2 ^ 32 < length bytes + s0.pool.buf_size
      → (0 < length bytes) × (prepend bytes s0 ≡ (true, s0))
  unfolding prepend prepend_from move_head
  prepend-wraps bytes small wraps = (
    omega (arith, block_small),
    ap (λ n. put_blocks n bytes) no_block
        ∙ rw (le→ltb space 0 (omega arith))
            (ap (λ h. (true, record s0 { pending = record s0.pending { head = h } })) unmoved),
  )
    where
      block_small : s0.pool.buf_size ≤ 2 ^ 31
      block_small = omega (
        arith,
        block_in w.waiting.pool 0 (capacity_pos w.waiting.pool.capacity),
        w.waiting.pool.allocated,
      )

      no_block : blocks_for (length bytes) s0 ≡ 0
      no_block = div-eq_of_lt (omega (arith, block_small))

      unmoved : sub_word u64_mod s0.pending.head 0 ≡ s0.pending.head
      unmoved = omega (arith, w.waiting.queue.head_in)

  -- Data of a size below 2 ^ 32, on a sound buffer. First, where the size in bytes and the size of
  -- a block add up to at most 2 ^ 32, `prepend` returns true exactly when the queue has room for
  -- the blocks that the data needs and the pool has as many. Then the data stands before the bytes
  -- that waited, in that many blocks. Where it returns false the same blocks wait, with the same
  -- bytes. Either way the buffer is sound, the send queue is as it was, and so are the blocks of
  -- all other holders. Second, where they add up to more, `prepend` returns true although the data
  -- is not empty, and changes nothing.
  pub prepend_lem :
      (bytes : List ℕ)
      → length bytes < 2 ^ 32
      → ((length bytes + s0.pool.buf_size ≤ 2 ^ 32)
          × (((s : Writer) × (prepend bytes s0 ≡ (true, s))
                × (size u64_mod s.pending
                    ≡ blocks_needed (length bytes) s0.pool.buf_size + size u64_mod s0.pending)
                × (size u64_mod s.pending ≤ s0.capacity)
                × (blocks_needed (length bytes) s0.pool.buf_size ≤ size u32_mod s0.pool.free)
                × Framed others s0 s
                × (pending_bytes s ≡ bytes ++ pending_bytes s0))
              ⊎ ((s : Writer) × (prepend bytes s0 ≡ (false, s))
                  × ((s0.capacity
                        < blocks_needed (length bytes) s0.pool.buf_size + size u64_mod s0.pending)
                      ⊎ (size u32_mod s0.pool.free < blocks_needed (length bytes) s0.pool.buf_size))
                  × Framed others s0 s
                  × (pending_list s ≡ pending_list s0)
                  × (pending_bytes s ≡ pending_bytes s0))))
        ⊎ ((2 ^ 32 < length bytes + s0.pool.buf_size)
            × (0 < length bytes)
            × (prepend bytes s0 ≡ (true, s0)))
  prepend_lem bytes small = elim (dec_lt (2 ^ 32) (length bytes + s0.pool.buf_size)) [
    | yes wraps ↦ let r = prepend-wraps bytes small wraps in inr (wraps, r.0, r.1)
    | no fits ↦ inl (omega arith, prepend-Put bytes (omega arith))
  ]
