-- ===== src/Buffer/ReadBuf/Invariant.antt =====
-- What holds of a stream read buffer between calls, and what is left of it without its first block.
use uring_proactor.Base.{
  u32_mod, sub_word, length, drop, length-append, length-drop, drop-append, rows, count, IsCapacity,
  capacity_pos, ℕ, ◌+◌, ◌-◌, ◌*◌, ◌^◌, ◌≤◌, ◌<◌, ◌≡◌, refl, sym, ap, ap₂, ◌∙◌, ◌≢◌, List, [], ◌∷◌,
  ◌++◌, arith,
}
use uring_proactor.Base.Ring.{size, front, items}
use uring_proactor.Base.Memory.{length-rows}
use uring_proactor.Base.Ring.Laws.{IsRing, size-advance, advance-IsRing, items-advance}
use uring_proactor.Buffer.BufRing.{BufRing, ring_addr, add_buf, advance_ring, give_back}
use uring_proactor.Buffer.ReadBuf.{ReadBuf, drop_read}

abbrev pub read_block : BufRing → ℕ → List ℕ
read_block b a = rows b.bufs (ring_addr b a) (b.data_size a)

abbrev pub read_contents : BufRing → List ℕ → List ℕ
read_contents b [] = []
read_contents b (a ∷ rest) = read_block b a ++ read_contents b rest

-- The blocks that wait to be read, oldest first, and the bytes in them.
abbrev pub read_list : ReadBuf → List ℕ
read_list s = items u32_mod s.capacity s.queue

abbrev pub unread : ReadBuf → List ℕ
unread s = drop s.head_offset (read_contents s.ring (read_list s))

-- The kernel fills a block only after it was given back, so no block waits twice.
pub record IsReadBuf (s : ReadBuf) : Type 0 where
  pub is_capacity : IsCapacity s.capacity
  pub masked : s.mask ≡ s.capacity - 1
  pub allocated : s.capacity * s.ring.buf_size ≤ 2 ^ 31
  pub in_queue : IsRing 32 s.capacity s.queue
  pub once : (a : ℕ) → count a (read_list s) ≤ 1
  pub filled : (a : ℕ) → 0 < count a (read_list s) → s.ring.data_size a ≤ s.ring.buf_size
  pub within : 0 < size u32_mod s.queue → s.head_offset ≤ s.ring.data_size (front s.mask s.queue)
  pub idle : size u32_mod s.queue ≡ 0 → s.head_offset ≡ 0

pub read_contents_cong :
    (b c : BufRing) (xs : List ℕ)
    → ((a : ℕ) → 0 < count a xs → read_block c a ≡ read_block b a)
    → read_contents c xs ≡ read_contents b xs
read_contents_cong b c [] h = refl
read_contents_cong b c (x ∷ xs) h =
    ap₂ ◌++◌ (h x (ground arith)) (read_contents_cong b c xs (λ a n. h a (omega arith)))

-- Giving a block back leaves the bytes of the others alone.
pub read_block-give_back :
    (b : BufRing) (idx a : ℕ) → a ≢ idx → read_block (give_back b idx) a ≡ read_block b a
unfolding give_back
read_block-give_back b idx a ne = ap (rows b.bufs (ring_addr b a)) (ground arith)

module _ {s : ReadBuf} (w : IsReadBuf s) (busy : 0 < size u32_mod s.queue) where
  abbrev pub first : ℕ
  first = front s.mask s.queue

  pub read_list-first : read_list s ≡ first ∷ read_list (drop_read s)
  unfolding drop_read
  read_list-first =
      rw w.masked (items-advance w.is_capacity 32 (omega arith) s.queue w.in_queue busy)

  pub size-drop_read : size u32_mod (drop_read s).queue + 1 ≡ size u32_mod s.queue
  unfolding drop_read
  size-drop_read = size-advance w.is_capacity 32 (omega arith) s.queue w.in_queue busy

  pub first-ne : (a : ℕ) → 0 < count a (read_list (drop_read s)) → a ≢ first
  first-ne a h e = ground (arith, ap (count a) read_list-first, w.once a)

  pub block-drop_read :
      (a : ℕ)
      → 0 < count a (read_list (drop_read s))
      → read_block (drop_read s).ring a ≡ read_block s.ring a
  block-drop_read a h = unfold drop_read in read_block-give_back s.ring first a (first-ne a h)

  pub drop_read-IsReadBuf : IsReadBuf (drop_read s)
  drop_read-IsReadBuf = record {
    is_capacity = unfold drop_read in w.is_capacity;
    masked = unfold drop_read in w.masked;
    allocated = unfold drop_read give_back add_buf advance_ring in w.allocated;
    in_queue =
        unfold drop_read in advance-IsRing w.is_capacity 32 (omega arith) s.queue w.in_queue busy;
    once = λ a. omega (arith, ap (count a) read_list-first, w.once a);
    filled = λ a h. omega (arith, smaller a, ap (count a) read_list-first, w.filled a);
    within = λ h. unfold drop_read in omega arith;
    idle = λ e. unfold drop_read in refl;
  }
    where
      smaller :
          (a : ℕ)
          → 0 < count a (read_list (drop_read s))
          → (drop_read s).ring.data_size a ≤ (drop_read s).ring.buf_size
      smaller a h =
          unfold drop_read give_back add_buf advance_ring in
          ground (arith, w.filled a, ap (count a) read_list-first)

  pub first-le : s.ring.data_size first ≤ 2 ^ 31
  first-le = omega (
    arith,
    w.filled first (ground (arith, ap (count first) read_list-first)),
    w.allocated,
    mul-ge,
  )
    where
      mul-ge : s.ring.buf_size ≤ s.capacity * s.ring.buf_size
      mul-ge = grind (arith, capacity_pos w.is_capacity)

  pub avail-eq :
      sub_word u32_mod (s.ring.data_size first) s.head_offset
      ≡ s.ring.data_size first - s.head_offset
  avail-eq = omega (arith, w.within busy, first-le)

  pub unread-drop_read :
      unread s ≡ drop s.head_offset (read_block s.ring first) ++ unread (drop_read s)
  unread-drop_read =
      ap (λ xs. drop s.head_offset (read_contents s.ring xs)) read_list-first
      ∙ drop-append s.head_offset (read_block s.ring first)
          (read_contents s.ring (read_list (drop_read s)))
          (omega (
            arith,
            w.within busy,
            length-rows s.ring.bufs (ring_addr s.ring first) (s.ring.data_size first),
          ))
      ∙ ap (◌++◌ (drop s.head_offset (read_block s.ring first))) (sym later)
    where
      no_offset : (drop_read s).head_offset ≡ 0
      no_offset = unfold drop_read in refl

      later : unread (drop_read s) ≡ read_contents s.ring (read_list (drop_read s))
      later =
          ap (λ n. drop n (read_contents (drop_read s).ring (read_list (drop_read s)))) no_offset
          ∙ read_contents_cong s.ring (drop_read s).ring (read_list (drop_read s)) block-drop_read

  pub length-first :
      length (drop s.head_offset (read_block s.ring first)) ≡ s.ring.data_size first - s.head_offset
  length-first = omega (
    arith,
    length-drop s.head_offset (read_block s.ring first),
    length-rows s.ring.bufs (ring_addr s.ring first) (s.ring.data_size first),
  )

  pub length-unread :
      length (unread s) ≡ s.ring.data_size first - s.head_offset + length (unread (drop_read s))
  length-unread = omega (
    arith,
    ap length unread-drop_read,
    length-append (drop s.head_offset (read_block s.ring first)) (unread (drop_read s)),
    length-first,
  )
