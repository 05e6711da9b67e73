-- ===== src/Buffer/WriteBuf/Fill.antt =====
-- One round of the copy in `append`: what it takes, and which bytes it leaves alone.
use native.Mathlib.Decide.{dec_lt}
use uring_proactor.Base.{
  lt→ltb, le→ltb, u32_mod, u64_mod, add_word, sub_word, length, take, drop, length-take, rows,
  count, count-append, ℕ, ◌+◌, ◌-◌, ◌^◌, ◌≤◌, ◌<◌, min, ◌≡◌, sym, ap, ap₂, ◌∙◌, ◌≢◌, ◌⊎◌, inl, inr,
  List, [], ◌∷◌, ◌++◌, append-nil, append_assoc, arith,
}
use uring_proactor.Buffer.BufPool.{BufPool, buf_addr, set_data_size, copy_to}
use uring_proactor.Buffer.BufPool.Blocks.{
  block, contents, contents-append, contents_cong, block_in, copied, rows-copied, rows-copied_self,
}
use uring_proactor.Buffer.BufPool.Invariant.{IsPool, held-lt}
use uring_proactor.Base.Ring.Laws.{items-retreat}
use uring_proactor.Buffer.WriteBuf.{Writer, last_block, fill}
use uring_proactor.Buffer.WriteBuf.Invariant.{pending_list, pending_bytes, owners, IsPending}
use uring_proactor.Base.Ring.{size, retreat, items}

-- A block grown by `bytes`, which fit.
unfoldable pub extend : BufPool → ℕ → List ℕ → BufPool
extend p b bytes =
    set_data_size (copy_to p (buf_addr p b + p.data_size b) bytes) b (p.data_size b + length bytes)

module _ {held : ℕ → ℕ} {p : BufPool} (i : IsPool held p) (b : ℕ) (hb : b < p.buf_num)
    (bytes : List ℕ) (fits : p.data_size b + length bytes ≤ p.buf_size) where
  pub block-extend_self : block (extend p b bytes) b ≡ block p b ++ bytes
  unfolding extend copied
  block-extend_self =
      ap (rows (copied i b (p.data_size b) bytes hb fits).bufs (buf_addr p b)) (ground arith)
      ∙ rows-copied_self i b (p.data_size b) bytes hb fits

  -- The first `n` bytes of a block, up to the size that it had.
  pub rows-extend :
      (a n : ℕ)
      → a < p.buf_num
      → n ≤ p.data_size a
      → rows (extend p b bytes).bufs (buf_addr p a) n ≡ rows p.bufs (buf_addr p a) n
  unfolding extend copied
  rows-extend a n ha hn =
      rows-copied i b (p.data_size b) bytes hb fits a n ha (omega (arith, i.filled a ha))
        (λ e. omega (arith, ap p.data_size e))

  pub size-extend : (a : ℕ) → a ≢ b → (extend p b bytes).data_size a ≡ p.data_size a
  unfolding extend
  size-extend a ne = ground arith

  pub block-extend : (a : ℕ) → a < p.buf_num → a ≢ b → block (extend p b bytes) a ≡ block p a
  unfolding extend
  block-extend a ha ne =
      ap (rows (extend p b bytes).bufs (buf_addr p a)) (size-extend a ne)
      ∙ rows-extend a (p.data_size a) ha (omega arith)

  pub extend-IsPool : 0 < held b → IsPool held (extend p b bytes)
  unfolding extend
  extend-IsPool own = record {
    capacity = i.capacity;
    masked = i.masked;
    sized = i.sized;
    allocated = i.allocated;
    queue = i.queue;
    once = i.once;
    clean = λ a free. ground (arith, i.clean a free, i.once a);
    filled = λ a lt. ground (arith, i.filled a lt);
  }

module _ {others : ℕ → ℕ} {s : Writer} (i : IsPending others s)
    (some_block : 0 < size u64_mod s.pending) where
  -- The blocks before the last one.
  abbrev earlier : List ℕ
  earlier = items u64_mod s.capacity (retreat u64_mod s.pending)

  pub pending_list-last : pending_list s ≡ earlier ++ (last_block s ∷ [])
  pending_list-last =
      rw i.masked (items-retreat i.capacity 64 (omega arith) s.pending i.queue some_block)

  count_last : (a : ℕ) → count a (pending_list s) ≡ count a earlier + count a (last_block s ∷ [])
  count_last a = ap (count a) pending_list-last ∙ count-append a earlier (last_block s ∷ [])

  pub last_pending : 0 < count (last_block s) (pending_list s)
  last_pending = ground (arith, count_last (last_block s))

  pub last_owned : 0 < owners others s (last_block s)
  last_owned = ground (arith, count_last (last_block s))

  pub last-lt : last_block s < s.pool.buf_num
  last-lt = held-lt i.pool (last_block s) last_owned

  earlier-ne : (a : ℕ) → 0 < count a earlier → a ≢ last_block s
  earlier-ne a h e = ground (arith, count_last a, i.pool.once a)

  pub size-le : s.pool.data_size (last_block s) ≤ s.pool.buf_size
  size-le = i.pool.filled (last_block s) last-lt

  pub small_blocks : s.pool.buf_size ≤ 2 ^ 31
  small_blocks = omega (arith, block_in i.pool (last_block s) last-lt, i.pool.allocated)

  -- What one round copies.
  unfoldable pub step : List ℕ → ℕ
  step bytes = min (s.pool.buf_size - s.pool.data_size (last_block s)) (length bytes)

  unfoldable pub filled : List ℕ → Writer
  filled bytes = record s { pool = extend s.pool (last_block s) (take (step bytes) bytes) }

  pub take_fits :
      (bytes : List ℕ)
      → s.pool.data_size (last_block s) + length (take (step bytes) bytes) ≤ s.pool.buf_size
  unfolding step
  take_fits bytes = omega (arith, length-take (step bytes) bytes, size-le)

  pub fill_cases :
      (bytes : List ℕ)
      → ((step bytes ≡ 0) × (fill bytes s ≡ (bytes, s)))
        ⊎ ((0 < step bytes) × (fill bytes s ≡ (drop (step bytes) bytes, filled bytes)))
  unfolding fill filled step extend
  fill_cases bytes = elim (dec_lt 0 (step bytes)) [
    | yes h ↦ inr (h, rw (space, lt→ltb 0 (step bytes) h, new_size))
    | no h ↦ inl (omega arith, rw (space, le→ltb 0 (step bytes) (omega arith)))
  ]
    where
      space :
          sub_word u32_mod s.pool.buf_size (s.pool.data_size (last_block s))
          ≡ s.pool.buf_size - s.pool.data_size (last_block s)
      space = omega (arith, size-le, small_blocks)

      new_size :
          add_word u32_mod (s.pool.data_size (last_block s)) (step bytes)
          ≡ s.pool.data_size (last_block s) + length (take (step bytes) bytes)
      new_size =
          omega (arith, take_fits bytes, length-take (step bytes) bytes, size-le, small_blocks)

  module _ (bytes : List ℕ) where
    own : 0 < owners others s (last_block s)
    own = last_owned

    pub filled-IsPending : IsPending others (filled bytes)
    unfolding filled
    filled-IsPending = record {
      capacity = i.capacity;
      masked = i.masked;
      queue = i.queue;
      pool =
          extend-IsPool i.pool (last_block s) last-lt (take (step bytes) bytes) (take_fits bytes)
            last_owned;
    }

    pub pending_bytes-filled :
        pending_bytes (filled bytes) ≡ pending_bytes s ++ take (step bytes) bytes
    unfolding filled
    pending_bytes-filled =
        ap (contents p') pending_list-last
        ∙ contents-append p' earlier (last_block s ∷ [])
        ∙ ap₂ ◌++◌ same_before grown_last
        ∙ sym (append_assoc (contents s.pool earlier) (block s.pool (last_block s)) piece)
        ∙ ap (λ xs. xs ++ piece) (sym before)
      where
        piece : List ℕ
        piece = take (step bytes) bytes

        p' : BufPool
        p' = extend s.pool (last_block s) piece

        same_before : contents p' earlier ≡ contents s.pool earlier
        same_before = contents_cong s.pool p' earlier λ a c.
            block-extend i.pool (last_block s) last-lt piece (take_fits bytes) a
              (held-lt i.pool a (omega (arith, count_last a))) (earlier-ne a c)

        grown_last : contents p' (last_block s ∷ []) ≡ block s.pool (last_block s) ++ piece
        grown_last =
            append-nil (block p' (last_block s))
            ∙ block-extend_self i.pool (last_block s) last-lt piece (take_fits bytes)

        before : pending_bytes s ≡ contents s.pool earlier ++ block s.pool (last_block s)
        before =
            ap (contents s.pool) pending_list-last
            ∙ contents-append s.pool earlier (last_block s ∷ [])
            ∙ ap (◌++◌ (contents s.pool earlier)) (append-nil (block s.pool (last_block s)))
