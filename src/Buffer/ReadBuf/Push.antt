-- ===== src/Buffer/ReadBuf/Push.antt =====
-- `push_buf`: a filled block goes behind the others. The constructor leaves nothing to read.
use native.Mathlib.Nat.{suc-mul, mul-le-mul_right}
use uring_proactor.Base.{
  le→leb, lt→leb, u32_mod, add_word, length, drop, length-append, length-drop, drop-append, count,
  count-append, ℕ, suc, ◌+◌, ◌*◌, ◌≤◌, ◌<◌, ◌≡◌, refl, sym, ap, subst, ◌∙◌, ◌⊎◌, inl, inr, true,
  false, List, [], ◌∷◌, ◌++◌, append-nil, append_assoc, arith,
}
use uring_proactor.Base.Memory.{length-rows}
use uring_proactor.Base.Ring.{size, push, front, advance, items}
use uring_proactor.Base.Ring.Laws.{
  IsRing, size-push, push-IsRing, items-push, items-advance, length-items,
}
use uring_proactor.Buffer.BufRing.{BufRing, ring_addr}
use uring_proactor.Buffer.ReadBuf.{ReadBuf, push_buf, drop_read}
use uring_proactor.Buffer.ReadBuf.Consume.{IsReader}
use uring_proactor.Buffer.ReadBuf.Invariant.{
  read_block, read_contents, read_list, unread, IsReadBuf, read_list-first,
}
use native.Mathlib.Decide.{ℕ_discrete}
use native.Mathlib.Decide.{dec_lt}

length-read_contents :
    (b : BufRing) (xs : List ℕ)
    → ((a : ℕ) → 0 < count a xs → b.data_size a ≤ b.buf_size)
    → length (read_contents b xs) ≤ length xs * b.buf_size
length-read_contents b [] h = omega arith
length-read_contents b (x ∷ xs) h = omega (
  arith,
  length-append (read_block b x) (read_contents b xs),
  length-rows b.bufs (ring_addr b x) (b.data_size x),
  h x (ground arith),
  length-read_contents b xs (λ a c. h a (omega arith)),
  suc-mul (length xs) b.buf_size,
)

read_contents-append :
    (b : BufRing) (xs ys : List ℕ)
    → read_contents b (xs ++ ys) ≡ read_contents b xs ++ read_contents b ys
read_contents-append b [] ys = refl
read_contents-append b (x ∷ xs) ys =
    ap (◌++◌ (read_block b x)) (read_contents-append b xs ys)
    ∙ sym (append_assoc (read_block b x) (read_contents b xs) (read_contents b ys))

abbrev front_of : List ℕ → ℕ
front_of [] = 0
front_of (x ∷ xs) = x

offset-le :
    {s : ReadBuf} → IsReadBuf s → s.head_offset ≤ length (read_contents s.ring (read_list s))
offset-le {s} w = elim (ℕ_discrete (size u32_mod s.queue) 0) [
  | yes none_left ↦ omega (arith, w.idle none_left)
  | no some_left ↦ omega (
    arith,
    w.within (omega arith),
    ap (λ xs. length (read_contents s.ring xs)) (read_list-first w (omega arith)),
    length-append (read_block s.ring (front s.mask s.queue))
        (read_contents s.ring (read_list (drop_read s))),
    length-rows s.ring.bufs (ring_addr s.ring (front s.mask s.queue))
        (s.ring.data_size (front s.mask s.queue)),
  )
]

module _ {s : ReadBuf} (w : IsReader s) (idx : ℕ) (fresh : count idx (read_list s) ≡ 0)
    (fits : s.ring.data_size idx ≤ s.ring.buf_size) (room : size u32_mod s.queue < s.capacity) where
  pushed : ReadBuf
  pushed = record s {
    queue = push u32_mod s.mask s.queue idx;
    readable_bytes = add_word u32_mod s.readable_bytes (s.ring.data_size idx);
  }

  read_list-pushed : read_list pushed ≡ read_list s ++ (idx ∷ [])
  unfolding pushed
  read_list-pushed =
      rw w.buf.masked
        (items-push w.buf.is_capacity 32 (omega arith) s.queue w.buf.in_queue idx room)

  size-pushed : size u32_mod pushed.queue ≡ size u32_mod s.queue + 1
  unfolding pushed
  size-pushed =
      rw w.buf.masked (size-push w.buf.is_capacity 32 (omega arith) s.queue w.buf.in_queue idx room)

  count-pushed : (a : ℕ) → count a (read_list pushed) ≡ count a (read_list s) + count a (idx ∷ [])
  count-pushed a = ap (count a) read_list-pushed ∙ count-append a (read_list s) (idx ∷ [])

  pushed_in : IsRing 32 s.capacity pushed.queue
  unfolding pushed
  pushed_in =
      rw w.buf.masked
        (push-IsRing w.buf.is_capacity 32 (omega arith) s.queue w.buf.in_queue idx room)

  same_front : 0 < size u32_mod s.queue → front s.mask pushed.queue ≡ front s.mask s.queue
  unfolding pushed
  same_front busy = ap front_of (
      sym pushed_split
      ∙ read_list-pushed
      ∙ ap (λ xs. xs ++ (idx ∷ [])) (read_list-first w.buf busy))
    where
      pushed_split :
          read_list pushed
          ≡ front s.mask pushed.queue ∷ items u32_mod s.capacity (advance u32_mod pushed.queue)
      pushed_split =
          subst
            (λ m.
              read_list pushed
              ≡ front m pushed.queue ∷ items u32_mod s.capacity (advance u32_mod pushed.queue))
            (sym w.buf.masked)
            (items-advance w.buf.is_capacity 32 (omega arith) pushed.queue pushed_in
              (omega (arith, size-pushed)))

  unread-pushed : unread pushed ≡ unread s ++ read_block s.ring idx
  unread-pushed =
      unfold pushed in
      ap (λ xs. drop s.head_offset (read_contents s.ring xs)) read_list-pushed
      ∙ ap (drop s.head_offset) (read_contents-append s.ring (read_list s) (idx ∷ []))
      ∙ drop-append s.head_offset (read_contents s.ring (read_list s)) _ (offset-le w.buf)
      ∙ ap (◌++◌ (unread s)) (append-nil (read_block s.ring idx))

  pushed-IsReadBuf : IsReadBuf pushed
  unfolding pushed
  pushed-IsReadBuf = record {
    is_capacity = w.buf.is_capacity;
    masked = w.buf.masked;
    allocated = w.buf.allocated;
    in_queue = pushed_in;
    once = λ a. ground (arith, count-pushed a, w.buf.once a);
    filled = λ a h. ground (arith, count-pushed a, w.buf.filled a);
    within = λ h. first_fits;
    idle = λ e. absurd (omega (arith, size-pushed));
  }
    where
      first_fits : pushed.head_offset ≤ pushed.ring.data_size (front pushed.mask pushed.queue)
      first_fits = elim (ℕ_discrete (size u32_mod s.queue) 0) [
        | yes none_left ↦ omega (arith, w.buf.idle none_left)
        | no some_left ↦
            omega
              (arith, w.buf.within (omega arith), ap s.ring.data_size (same_front (omega arith)))
      ]

  pushed_small : s.readable_bytes + s.ring.data_size idx < u32_mod
  pushed_small = omega (
    arith,
    w.counted,
    length-drop s.head_offset (read_contents s.ring (read_list s)),
    length-read_contents s.ring (read_list s) w.buf.filled,
    ap (λ n. n * s.ring.buf_size) (length-items w.buf.is_capacity 32 (omega arith) s.queue),
    suc-mul (size u32_mod s.queue) s.ring.buf_size,
    mul-le-mul_right {m = suc (size u32_mod s.queue)} {n = s.capacity} s.ring.buf_size
        (omega arith),
    w.buf.allocated,
    fits,
  )

  pushed-IsReader : IsReader pushed
  pushed-IsReader = record {
    buf = pushed-IsReadBuf;
    counted =
        unfold pushed in
        omega (
          arith,
          ap length unread-pushed,
          length-append (unread s) (read_block s.ring idx),
          length-rows s.ring.bufs (ring_addr s.ring idx) (s.ring.data_size idx),
          w.counted,
          pushed_small,
        );
    small = unfold pushed in omega (arith, pushed_small);
  }

-- On a sound buffer with a right byte count `push_buf` refuses, without a change, where as many blocks wait as there are. Else the block, which
-- does not wait yet and is filled to its size at most, stands behind the others, its bytes behind
-- theirs, and the count of bytes stays right.
pub push_buf_lem :
    (s : ReadBuf) (idx : ℕ)
    → IsReader s
    → count idx (read_list s) ≡ 0
    → s.ring.data_size idx ≤ s.ring.buf_size
    → ((size u32_mod s.queue ≡ s.capacity) × (push_buf idx s ≡ (false, s)))
      ⊎ ((r : ReadBuf) × (push_buf idx s ≡ (true, r))
          × IsReader r
          × (read_list r ≡ read_list s ++ (idx ∷ []))
          × (unread r ≡ unread s ++ read_block s.ring idx))
unfolding push_buf
push_buf_lem s idx w fresh fits = elim (dec_lt (size u32_mod s.queue) s.capacity) [
  | yes room ↦ inr (
    pushed w idx fresh fits room,
    rw (lt→leb (size u32_mod s.queue) s.capacity room) (unfold pushed in refl),
    pushed-IsReader w idx fresh fits room,
    read_list-pushed w idx fresh fits room,
    unread-pushed w idx fresh fits room,
  )
  | no full ↦ inl (
    omega (arith, w.buf.in_queue.fits),
    rw (le→leb s.capacity (size u32_mod s.queue) (omega arith)) refl,
  )
]
