-- ===== src/Buffer/Stream/Gather.antt =====
-- `peek_iovec`: the vectors that go to `writev` name exactly the bytes that are still to be written.
use native.Mathlib.Nat.{add-zero, mod-eq_of_lt}
use uring_proactor.Base.{
  leb, ◌==◌, if◌then◌else◌, lt→leb, u32_mod, u64_mod, add_word, sub_word, length, drop,
  length-append, drop-append, drop-length, rows, count, capacity-le, bit_and_mask, mod_wrap, ℕ,
  zero, suc, ◌+◌, ◌-◌, ◌%◌, ◌^◌, ◌≤◌, ◌<◌, bit_and, ◌≡◌, refl, sym, ap, ap₂, subst, ◌∙◌, ◌⊎◌, inl,
  inr, false, Option, none, some, List, [], ◌∷◌, ◌++◌, arith,
}
use uring_proactor.Buffer.Stream.{Stream, Iovec, gather, peek_iovec}
use uring_proactor.Base.Ring.{size, front, window, items}
use uring_proactor.Base.Memory.{rows-add, length-rows}
use uring_proactor.Buffer.BufPool.{buf_addr}
use uring_proactor.Buffer.Stream.Invariant.{send_bytes, IsStream}
use uring_proactor.Buffer.BufPool.Blocks.{block, contents, block_in}
use uring_proactor.Buffer.WriteBuf.Invariant.{send_list}
use uring_proactor.Buffer.BufPool.Invariant.{held-lt}

-- The bytes that a vector names, and those of several in turn.
abbrev pub vec_bytes : (ℕ → ℕ) → List Iovec → List ℕ
vec_bytes mem [] = []
vec_bytes mem ((addr, len) ∷ vecs) = rows mem addr len ++ vec_bytes mem vecs

abbrev Gathers : (ℕ → ℕ) → ℕ → List ℕ → List Iovec × ℕ → Type 0
Gathers mem bytes xs out = (vec_bytes mem out.0 ≡ xs) × (out.1 ≡ (bytes + length xs) % u32_mod)

cons-Gathers :
    (mem : ℕ → ℕ) (bytes addr len addr' len' : ℕ) (xs ys : List ℕ) (out : List Iovec × ℕ)
    → bytes < u32_mod
    → addr' ≡ addr
    → len' ≡ len
    → rows mem addr len ≡ xs
    → Gathers mem (add_word u32_mod bytes len') ys out
    → Gathers mem bytes (xs ++ ys) ((addr', len') ∷ out.0, out.1)
cons-Gathers mem bytes addr len addr' len' xs ys out small ea el e (v, t) = (
  ap₂ ◌++◌ (ap₂ (rows mem) ea el ∙ e) v,
  omega (arith, t, el, length-append xs ys, ap length e, length-rows mem addr len),
)

module _ {others : ℕ → ℕ} (s : Stream) (w : IsStream others s) where
  -- The index of round `i`.
  abbrev nth : ℕ → ℕ
  nth i = s.send.slots (bit_and (add_word u64_mod s.send.head i) s.mask)

  nth-eq : (i : ℕ) → nth i ≡ s.send.slots ((s.send.head + i) % s.capacity)
  nth-eq i = ap s.send.slots (
      subst
        (λ m.
          bit_and (add_word u64_mod s.send.head i) m ≡ add_word u64_mod s.send.head i % s.capacity)
        (sym w.writer.waiting.masked)
        (bit_and_mask w.writer.waiting.capacity (add_word u64_mod s.send.head i))
      ∙ mod_wrap w.writer.waiting.capacity 64 (s.send.head + i) (omega arith))

  -- The rounds past the first.
  gather_rest :
      (n i bytes : ℕ)
      → 0 < i
      → bytes < u32_mod
      → ((a : ℕ)
          → 0 < count a (window s.send.slots s.capacity (s.send.head + i) n)
          → s.pool.data_size a < u32_mod)
      → Gathers s.pool.bufs bytes
          (contents s.pool (window s.send.slots s.capacity (s.send.head + i) n))
          (gather n i s bytes)
  unfolding gather
  gather_rest zero i bytes pos small ok = (refl, omega arith)
  gather_rest (suc n) i bytes pos small ok =
      cons-Gathers s.pool.bufs bytes (buf_addr s.pool here) (s.pool.data_size here) _ _
        (block s.pool here) _ (gather n (i + 1) s _) small at_block whole refl
        (subst
          (λ h.
            Gathers s.pool.bufs bytes' (contents s.pool (window s.send.slots s.capacity h n))
              (gather n (i + 1) s bytes'))
          along
          (gather_rest n (i + 1) bytes' (omega arith) (omega arith) λ a h.
            ok a (
              omega
                (arith, subst (λ k. 0 < count a (window s.send.slots s.capacity k n)) along h))))
    where
      bytes' : ℕ
      bytes' =
          add_word u32_mod bytes
            (sub_word u32_mod (s.pool.data_size (nth i)) (if i == 0 then s.offset else 0))

      along : s.send.head + (i + 1) ≡ s.send.head + i + 1
      along = omega arith

      no_offset : (if i == 0 then s.offset else 0) ≡ 0
      no_offset = ground arith

      at_block :
          buf_addr s.pool (nth i) + (if i == 0 then s.offset else 0)
          ≡ buf_addr s.pool (s.send.slots ((s.send.head + i) % s.capacity))
      at_block = ap₂ ◌+◌ (ap (buf_addr s.pool) (nth-eq i)) no_offset ∙ add-zero _

      whole :
          sub_word u32_mod (s.pool.data_size (nth i)) (if i == 0 then s.offset else 0)
          ≡ s.pool.data_size (s.send.slots ((s.send.head + i) % s.capacity))
      whole =
          ap₂ (sub_word u32_mod) (ap s.pool.data_size (nth-eq i)) no_offset
          ∙ omega (arith, ok (s.send.slots ((s.send.head + i) % s.capacity)) (ground arith))

      here : ℕ
      here = s.send.slots ((s.send.head + i) % s.capacity)

-- The rest of a range, past its first `k` bytes.
pub rows-drop :
    (mem : ℕ → ℕ) (addr k n : ℕ) → k ≤ n → rows mem (addr + k) (n - k) ≡ drop k (rows mem addr n)
rows-drop mem addr k n h =
    ap (λ xs. xs ++ tail) (sym none_left)
    ∙ sym (drop-append k front' tail (omega (arith, length-rows mem addr k)))
    ∙ ap (drop k) (sym (rows-add mem addr k (n - k)) ∙ ap (rows mem addr) (omega arith))
  where
    front' : List ℕ
    front' = rows mem addr k

    tail : List ℕ
    tail = rows mem (addr + k) (n - k)

    none_left : drop k front' ≡ []
    none_left = ap (λ j. drop j front') (sym (length-rows mem addr k)) ∙ drop-length front'

module _ {others : ℕ → ℕ} (s : Stream) (w : IsStream others s) where
  small_block : (a : ℕ) → 0 < count a (send_list s.base) → s.pool.data_size a < u32_mod
  small_block a h = omega (
    arith,
    w.writer.waiting.pool.filled a (in_pool a h),
    block_in w.writer.waiting.pool a (in_pool a h),
    w.writer.waiting.pool.allocated,
  )
    where
      in_pool : (b : ℕ) → 0 < count b (send_list s.base) → b < s.pool.buf_num
      in_pool b own = held-lt w.writer.waiting.pool b (omega arith)

  module _ (n : ℕ) (e : size u64_mod s.send ≡ suc n) where
    some_left : 0 < size u64_mod s.send
    some_left = omega arith

    rest : List ℕ
    rest = window s.send.slots s.capacity (s.send.head + 1) n

    head_block : ℕ
    head_block = s.send.slots (s.send.head % s.capacity)

    send_list-split : send_list s.base ≡ head_block ∷ rest
    unfolding items rest head_block
    send_list-split = ap (window s.send.slots s.capacity s.send.head) e

    first-eq : front s.mask s.send ≡ head_block
    unfolding front head_block
    first-eq = ap s.send.slots (
        subst (λ m. bit_and s.send.head m ≡ s.send.head % s.capacity) (sym w.writer.waiting.masked)
          (bit_and_mask w.writer.waiting.capacity s.send.head))

    at_head : nth s w 0 ≡ head_block
    unfolding head_block
    at_head = nth-eq s w 0 ∙ ap (λ k. s.send.slots (k % s.capacity)) (omega arith)

    offset_in : s.offset ≤ s.pool.data_size head_block
    offset_in = subst (λ a. s.offset ≤ s.pool.data_size a) first-eq (w.within some_left)

    head_small : s.pool.data_size head_block < u32_mod
    head_small = small_block head_block (ground (arith, ap (count head_block) send_list-split))

    split : send_bytes s ≡ drop s.offset (block s.pool head_block) ++ contents s.pool rest
    split =
        ap (λ xs. drop s.offset (contents s.pool xs)) send_list-split
        ∙ drop-append s.offset (block s.pool head_block) (contents s.pool rest) (
            omega (
              arith,
              offset_in,
              length-rows s.pool.bufs (buf_addr s.pool head_block) (s.pool.data_size head_block),
            ))

    pub gather_all : Gathers s.pool.bufs 0 (send_bytes s) (gather (suc n) 0 s 0)
    unfolding gather rest
    gather_all =
        subst (λ xs. Gathers s.pool.bufs 0 xs (gather (suc n) 0 s 0)) (sym split)
          (cons-Gathers s.pool.bufs 0 (buf_addr s.pool head_block + s.offset)
            (s.pool.data_size head_block - s.offset) _ _ (drop s.offset (block s.pool head_block)) _
            (gather n 1 s len) (omega arith) (ap (λ a. buf_addr s.pool a + s.offset) at_head)
            (ap (λ a. sub_word u32_mod (s.pool.data_size a) s.offset) at_head
              ∙ omega (arith, offset_in, head_small))
            (rows-drop s.pool.bufs (buf_addr s.pool head_block) s.offset
              (s.pool.data_size head_block) offset_in)
            (gather_rest s w n 1 len (omega arith) (omega arith)
              λ a h. small_block a (omega (arith, ap (count a) send_list-split, later a h))))
      where
        len : ℕ
        len = add_word u32_mod 0 (sub_word u32_mod (s.pool.data_size (nth s w 0)) s.offset)

        later : (a : ℕ) → 0 < count a rest → 0 < count a (head_block ∷ rest)
        later a h = ground arith

    queued : size u64_mod s.send % u32_mod ≡ suc n
    queued =
        mod-eq_of_lt (omega (arith, w.writer.sending.fits, capacity-le w.writer.waiting.capacity))
        ∙ e

    no_sign : leb (2 ^ 31) (suc n) ≡ false
    no_sign =
        lt→leb _ _ (omega (arith, w.writer.sending.fits, capacity-le w.writer.waiting.capacity))

    not_zero : (suc n == 0) ≡ false
    not_zero = ground arith

    from_none : (0 + length (send_bytes s)) % u32_mod ≡ length (send_bytes s) % u32_mod
    from_none = omega arith

    given : ℕ → Option (List Iovec × ℕ)
    given total = some ((gather (suc n) 0 s 0).0, total)

    pub peeked : peek_iovec s ≡ some ((gather (suc n) 0 s 0).0, length (send_bytes s) % u32_mod)
    unfolding peek_iovec given
    peeked = rw (queued, not_zero, no_sign) (ap given (gather_all.1 ∙ from_none))

  peek_none : size u64_mod s.send ≡ 0 → peek_iovec s ≡ none
  unfolding peek_iovec
  peek_none e = rw e

  -- On a sound stream `peek_iovec` gives nothing exactly where the send queue is empty. Else the vectors it gives name
  -- the bytes that are still to be written, in order, and the byte count is the number of them, as
  -- the 32 bits of its type hold it.
  pub peek_iovec_lem :
      ((size u64_mod s.send ≡ 0) × (peek_iovec s ≡ none))
      ⊎ ((0 < size u64_mod s.send)
          × ((vecs : List Iovec) × (peek_iovec s ≡ some (vecs, length (send_bytes s) % u32_mod))
              × (vec_bytes s.pool.bufs vecs ≡ send_bytes s)))
  peek_iovec_lem = by_size (size u64_mod s.send) refl
    where
      by_size :
          (k : ℕ)
          → size u64_mod s.send ≡ k
          → ((size u64_mod s.send ≡ 0) × (peek_iovec s ≡ none))
            ⊎ ((0 < size u64_mod s.send)
                × ((vecs : List Iovec) × (peek_iovec s
                      ≡ some (vecs, length (send_bytes s) % u32_mod))
                    × (vec_bytes s.pool.bufs vecs ≡ send_bytes s)))
      by_size zero e = inl (e, peek_none e)
      by_size (suc n) e =
          inr (omega arith, ((gather (suc n) 0 s 0).0, peeked n e, (gather_all n e).0))
