-- ===== src/Buffer/ReadBuf/Peek.antt =====
-- `peek`: the pieces it gives name the bytes at the front of what is unread.
use uring_proactor.Base.{
  ltb, ◌==◌, if◌then◌else◌, lt→ltb, le→ltb, u32_mod, add_word, sub_word, length, take, drop,
  drop-append, rows, count, capacity_pos, bit_and_mask, ℕ, zero, suc, ◌+◌, ◌-◌, ◌*◌, ◌%◌, ◌≤◌, ◌<◌,
  bit_and, ◌≡◌, refl, sym, ap, ap₂, subst, ◌∙◌, ◌⊎◌, inl, inr, none, some, List, [], ◌∷◌, ◌++◌,
  append-nil, arith,
}
use native.Mathlib.Decide.{dec_lt}
use uring_proactor.Base.Memory.{length-rows, take-nil, take-append, take-append_ge, rows-take}
use uring_proactor.Buffer.Stream.{Iovec}
use uring_proactor.Buffer.Stream.Gather.{vec_bytes, rows-drop}
use uring_proactor.Base.Ring.{size, front, window, items}
use uring_proactor.Buffer.BufRing.{ring_addr}
use uring_proactor.Buffer.ReadBuf.{ReadBuf, queued_block, peek_from, peek}
use uring_proactor.Buffer.ReadBuf.Consume.{no_bytes, IsReader}
use uring_proactor.Buffer.ReadBuf.Invariant.{read_block, read_contents, read_list, unread}

-- One piece, and what the rest of the loop gives.
piece :
    (mem : ℕ → ℕ) (addr len wanted : ℕ) (ys : List ℕ) (rest : ℕ → List Iovec)
    → wanted < u32_mod
    → ((more : ℕ) → more < u32_mod → vec_bytes mem (rest more) ≡ take more ys)
    → let given = if ltb wanted len then wanted else len in
      vec_bytes mem ((addr, given) ∷ rest (sub_word u32_mod wanted given))
      ≡ take wanted (rows mem addr len ++ ys)
piece mem addr len wanted ys rest small ih = elim (dec_lt wanted len) [
  | yes short ↦ rw (lt→ltb wanted len short) (
      ap₂ ◌++◌ (rows-take mem addr wanted len (omega arith))
        (ap (λ k. vec_bytes mem (rest k)) (omega arith) ∙ ih 0 (omega arith))
      ∙ append-nil (take wanted (rows mem addr len))
      ∙ sym (take-append wanted (rows mem addr len) ys (omega (arith, length-rows mem addr len))))
  | no long ↦ rw (le→ltb wanted len (omega arith)) (
      ap (◌++◌ (rows mem addr len)) (
        ih (sub_word u32_mod wanted len) (omega arith)
        ∙ ap (λ k. take k ys) (omega (arith, length-rows mem addr len)))
      ∙ sym
          (take-append_ge wanted (rows mem addr len) ys (omega (arith, length-rows mem addr len))))
]

module _ {s : ReadBuf} (w : IsReader s) where
  queued_block-eq : (i : ℕ) → queued_block s i ≡ s.queue.slots (i % s.capacity)
  queued_block-eq i = ap s.queue.slots (
      subst (λ m. bit_and i m ≡ i % s.capacity) (sym w.buf.masked)
        (bit_and_mask w.buf.is_capacity i))

  -- One round of the loop, with what the later rounds give.
  round :
      (n i wanted offset : ℕ) (ys : List ℕ)
      → offset ≡ (if i == s.queue.head then s.head_offset else 0)
      → offset ≤ s.ring.data_size (queued_block s i)
      → s.ring.data_size (queued_block s i) < u32_mod
      → wanted < u32_mod
      → ((more : ℕ)
          → more < u32_mod
          → vec_bytes s.ring.bufs (peek_from n (add_word u32_mod i 1) more s) ≡ take more ys)
      → vec_bytes s.ring.bufs (peek_from (suc n) i wanted s)
        ≡ take wanted (drop offset (read_block s.ring (queued_block s i)) ++ ys)
  unfolding peek_from
  round n i zero offset ys eo le small wsmall ih = refl
  round n i (suc wanted) offset ys eo le small wsmall ih =
      rw (sym eo, lt→ltb 0 (suc wanted) (omega arith), exact)
        (piece s.ring.bufs (ring_addr s.ring block + offset) (s.ring.data_size block - offset)
            (suc wanted) ys (λ more. peek_from n (add_word u32_mod i 1) more s) wsmall ih
          ∙ ap (λ xs. take (suc wanted) (xs ++ ys))
              (rows-drop s.ring.bufs (ring_addr s.ring block) offset (s.ring.data_size block) le))
    where
      block : ℕ
      block = queued_block s i

      exact :
          sub_word u32_mod (s.ring.data_size (queued_block s i)) offset
          ≡ s.ring.data_size (queued_block s i) - offset
      exact = omega arith

  later :
      (n i wanted : ℕ)
      → s.queue.head < i
      → i + n < u32_mod
      → wanted < u32_mod
      → ((a : ℕ) → 0 < count a (window s.queue.slots s.capacity i n) → s.ring.data_size a < u32_mod)
      → vec_bytes s.ring.bufs (peek_from n i wanted s)
        ≡ take wanted (read_contents s.ring (window s.queue.slots s.capacity i n))
  unfolding peek_from
  later zero i wanted h fits small ok = sym (take-nil wanted)
  later (suc n) i wanted h fits small ok =
      let rest = λ (more : ℕ) (lt : more < u32_mod).
        ap (λ k. vec_bytes s.ring.bufs (peek_from n k more s)) next
        ∙ later n (i + 1) more (omega arith) (omega arith) lt (λ a c. ok a (ground arith)) in
      round n i wanted 0 (read_contents s.ring (window s.queue.slots s.capacity (i + 1) n))
        no_offset (omega arith) block_small small rest
      ∙ ap
          (λ a. take wanted (
            read_block s.ring a
            ++ read_contents s.ring (window s.queue.slots s.capacity (i + 1) n)))
          (queued_block-eq i)
    where
      next : add_word u32_mod i 1 ≡ i + 1
      next = omega arith

      no_offset : 0 ≡ (if i == s.queue.head then s.head_offset else 0)
      no_offset = ground arith

      block_small : s.ring.data_size (queued_block s i) < u32_mod
      block_small =
          subst (λ a. s.ring.data_size a < u32_mod) (sym (queued_block-eq i))
            (ok (s.queue.slots (i % s.capacity)) (ground arith))

  filled-lt : (a : ℕ) → 0 < count a (read_list s) → s.ring.data_size a < u32_mod
  filled-lt a h = omega (arith, w.buf.filled a h, w.buf.allocated, one_block)
    where
      one_block : s.ring.buf_size ≤ s.capacity * s.ring.buf_size
      one_block = grind (arith, capacity_pos w.buf.is_capacity)

  -- The whole loop, where the counters have not wrapped apart.
  module _ (n wanted : ℕ) (e : size u32_mod s.queue ≡ suc n) (ordered : s.queue.head ≤ s.queue.tail)
      (small : wanted < u32_mod) where
    following : List ℕ
    following = window s.queue.slots s.capacity (s.queue.head + 1) n

    read_list-split : read_list s ≡ s.queue.slots (s.queue.head % s.capacity) ∷ following
    unfolding items following
    read_list-split = ap (window s.queue.slots s.capacity s.queue.head) e

    head_block-eq : queued_block s s.queue.head ≡ front s.mask s.queue
    unfolding front
    head_block-eq = refl

    offset_in : s.head_offset ≤ s.ring.data_size (queued_block s s.queue.head)
    offset_in =
        subst (λ a. s.head_offset ≤ s.ring.data_size a) (sym head_block-eq)
          (w.buf.within (omega arith))

    unread-split :
        unread s
        ≡ drop s.head_offset (read_block s.ring (queued_block s s.queue.head))
          ++ read_contents s.ring following
    unread-split =
        ap (λ xs. drop s.head_offset (read_contents s.ring xs)) read_list-split
        ∙ ap (λ a. drop s.head_offset (read_block s.ring a ++ read_contents s.ring following))
            (sym (queued_block-eq s.queue.head))
        ∙ drop-append s.head_offset (read_block s.ring (queued_block s s.queue.head))
            (read_contents s.ring following)
            (omega (
              arith,
              offset_in,
              length-rows s.ring.bufs (ring_addr s.ring (queued_block s s.queue.head))
                  (s.ring.data_size (queued_block s s.queue.head)),
            ))

    tail_eq : s.queue.tail ≡ s.queue.head + suc n
    unfolding size
    tail_eq = omega (arith, e, w.buf.in_queue.head_in, w.buf.in_queue.tail_in)

    head_small : s.ring.data_size (queued_block s s.queue.head) < u32_mod
    head_small =
        subst (λ a. s.ring.data_size a < u32_mod) (sym (queued_block-eq s.queue.head))
          (filled-lt (s.queue.slots (s.queue.head % s.capacity)) (
            ground (arith, ap (count (s.queue.slots (s.queue.head % s.capacity))) read_list-split)))

    all_rounds :
        vec_bytes s.ring.bufs (peek_from (suc n) s.queue.head wanted s) ≡ take wanted (unread s)
    all_rounds =
        round n s.queue.head wanted s.head_offset (read_contents s.ring following) at_head offset_in
          head_small small rest
        ∙ ap (take wanted) (sym unread-split)
      where
        at_head : s.head_offset ≡ (if s.queue.head == s.queue.head then s.head_offset else 0)
        at_head = ground arith

        next : add_word u32_mod s.queue.head 1 ≡ s.queue.head + 1
        next = omega (arith, tail_eq, w.buf.in_queue.tail_in)

        rest :
            (more : ℕ)
            → more < u32_mod
            → vec_bytes s.ring.bufs (peek_from n (add_word u32_mod s.queue.head 1) more s)
              ≡ take more (read_contents s.ring following)
        rest more lt =
            ap (λ k. vec_bytes s.ring.bufs (peek_from n k more s)) next
            ∙ unfold following in
              later n (s.queue.head + 1) more (omega arith)
                (omega (arith, tail_eq, w.buf.in_queue.tail_in)) lt
                (λ a c. filled-lt a (ground (arith, ap (count a) read_list-split)))

-- On a sound buffer with a right byte count `peek` refuses where more is wanted than is readable. Else, as long as the tail counter is not the
-- smaller one, the pieces it gives name exactly the wanted bytes from the front of what is unread.
-- Where the tail counter has wrapped past 0 and the head counter has not, it gives no piece at all,
-- however much is readable.
pub peek_lem :
    (wanted : ℕ) (s : ReadBuf)
    → IsReader s
    → ((length (unread s) < wanted) × (peek wanted s ≡ none))
      ⊎ ((wanted ≤ length (unread s))
          × ((vecs : List Iovec) × (peek wanted s ≡ some vecs)
              × (((s.queue.head ≤ s.queue.tail)
                    × (vec_bytes s.ring.bufs vecs ≡ take wanted (unread s)))
                  ⊎ ((s.queue.tail < s.queue.head) × (vecs ≡ [])))))
unfolding peek
peek_lem wanted s w = elim (dec_lt s.readable_bytes wanted) [
  | yes short ↦ inl (omega (arith, w.counted), rw (lt→ltb s.readable_bytes wanted short) refl)
  | no enough ↦ inr (
    omega (arith, w.counted),
    (
      peek_from (s.queue.tail - s.queue.head) s.queue.head wanted s,
      rw (le→ltb s.readable_bytes wanted (omega arith)) refl,
      by_order (omega arith),
    ),
  )
]
  where
    pieces : List Iovec
    pieces = peek_from (s.queue.tail - s.queue.head) s.queue.head wanted s

    nothing_wanted : size u32_mod s.queue ≡ 0 → wanted ≤ s.readable_bytes → wanted ≡ 0
    nothing_wanted e h = omega (arith, w.counted, no_bytes s e)

    by_size :
        (k : ℕ)
        → size u32_mod s.queue ≡ k
        → s.queue.head ≤ s.queue.tail
        → s.queue.tail - s.queue.head ≡ k
        → wanted ≤ s.readable_bytes
        → vec_bytes s.ring.bufs (peek_from k s.queue.head wanted s) ≡ take wanted (unread s)
    by_size zero e le d h =
        unfold peek_from in ap (λ k. take k (unread s)) (sym (nothing_wanted e h))
    by_size (suc n) e le d h = all_rounds w n wanted e le (omega (arith, w.small))

    same_size : s.queue.head ≤ s.queue.tail → size u32_mod s.queue ≡ s.queue.tail - s.queue.head
    same_size le = unfold size in omega (arith, w.buf.in_queue.tail_in)

    none_given : s.queue.tail - s.queue.head ≡ 0 → pieces ≡ []
    none_given e = ap (λ k. peek_from k s.queue.head wanted s) e ∙ unfold peek_from in refl

    by_order :
        wanted ≤ s.readable_bytes
        → ((s.queue.head ≤ s.queue.tail) × (vec_bytes s.ring.bufs pieces ≡ take wanted (unread s)))
          ⊎ ((s.queue.tail < s.queue.head) × (pieces ≡ []))
    by_order h = elim (dec_lt s.queue.tail s.queue.head) [
      | yes wrapped ↦ inr (wrapped, none_given (omega arith))
      | no ordered ↦ inl (
        omega arith,
        by_size (s.queue.tail - s.queue.head) (same_size (omega arith)) (omega arith) refl h,
      )
    ]
