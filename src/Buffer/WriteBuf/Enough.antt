-- ===== src/Buffer/WriteBuf/Enough.antt =====
-- When `append` succeeds: the last waiting block and the blocks that it may still take hold the data.
use native.Mathlib.Nat.{suc-mul}
use uring_proactor.Base.{
  ◌==◌, if◌then◌else◌, lt→leb, u32_mod, u64_mod, length, take, drop, length-take, length-drop,
  count, ℕ, zero, suc, ◌+◌, ◌-◌, ◌*◌, ◌≤◌, ◌<◌, min, ◌≡◌, refl, ap, ◌∙◌, inl, inr, true, false,
  some, List, [], ◌∷◌, arith,
}
use uring_proactor.Base.Ring.{size, push, front, back}
use uring_proactor.Buffer.BufPool.Blocks.{copied}
use uring_proactor.Buffer.WriteBuf.{
  Writer, last_block, grow, Mark, after_grow, after_fill, append_loop, mark_empty, mark_last,
  append_fuel, append,
}
use uring_proactor.Buffer.WriteBuf.Fill.{extend, step, filled, fill_cases, filled-IsPending}
use uring_proactor.Buffer.WriteBuf.Invariant.{
  send_list, IsPending, IsWriter, taken, take_block-some, taken-IsPending, size-taken,
}
use uring_proactor.Base.Ring.Laws.{size-zero_iff, size-advance, back-push}
use uring_proactor.Buffer.BufPool.Invariant.{front_clean}
use uring_proactor.Buffer.WriteBuf.Append.{append_loop-nil}
use native.Mathlib.Decide.{ℕ_discrete}

-- What the last waiting block still takes.
abbrev spare : Writer → ℕ
spare s = s.pool.buf_size - s.pool.data_size (last_block s)

-- `k` more blocks can be taken, and with them the data fits.
record Enough (s : Writer) (bytes : List ℕ) (k : ℕ) : Type 0 where
  free : k ≤ size u32_mod s.pool.free
  places : size u64_mod s.pending + k ≤ s.capacity
  fits : length bytes ≤ spare s + k * s.pool.buf_size

module _ {others : ℕ → ℕ} {s : Writer} (i : IsPending others s) where
  -- A round of copying takes from the spare room what it takes from the data.
  module _ (h : 0 < size u64_mod s.pending) (bytes : List ℕ) where
    new_size :
        (filled i h bytes).pool.data_size (last_block s)
        ≡ s.pool.data_size (last_block s) + length (take (step i h bytes) bytes)
    unfolding filled extend copied
    new_size = ground arith

    spare-filled : spare (filled i h bytes) + step i h bytes ≡ spare s
    spare-filled =
        omega (arith, ap (λ n. s.pool.buf_size - n) new_size, step_eq, take_length, same_spare)
      where
        step_eq : step i h bytes ≡ min (spare s) (length bytes)
        step_eq = unfold step in refl

        take_length : length (take (step i h bytes) bytes) ≡ step i h bytes
        take_length = omega (arith, length-take (step i h bytes) bytes, step_eq)

        same_spare :
            spare (filled i h bytes)
            ≡ s.pool.buf_size - (filled i h bytes).pool.data_size (last_block s)
        same_spare = unfold filled extend copied in refl

    filled-Enough :
        (k : ℕ) → Enough s bytes k → Enough (filled i h bytes) (drop (step i h bytes) bytes) k
    filled-Enough k e = record {
      free = unfold filled extend copied in e.free;
      places = unfold filled extend copied in e.places;
      fits = omega (
        arith,
        spare-filled,
        e.fits,
        length-drop (step i h bytes) bytes,
        ap (λ n. k * n) same_size,
      );
    }
      where
        same_size : (filled i h bytes).pool.buf_size ≡ s.pool.buf_size
        same_size = unfold filled extend copied in refl

    -- After a round either nothing is left or the last block is full.
    left-full : 0 < length (drop (step i h bytes) bytes) → spare (filled i h bytes) ≡ 0
    left-full some_left = omega (arith, spare-filled, length-drop (step i h bytes) bytes, step_eq)
      where
        step_eq : step i h bytes ≡ min (spare s) (length bytes)
        step_eq = unfold step in refl

  -- A new block has all of its room.
  taken-Enough :
      (bytes : List ℕ) (k : ℕ)
      → size u64_mod s.pending < s.capacity
      → suc k ≤ size u32_mod s.pool.free
      → size u64_mod s.pending + suc k ≤ s.capacity
      → length bytes ≤ suc k * s.pool.buf_size
      → Enough (taken i) bytes k
  unfolding taken
  taken-Enough bytes k room free places fits = record {
    free = omega (
      arith,
      free,
      size-advance i.pool.capacity 32 (omega arith) s.pool.free i.pool.queue (omega arith),
    );
    places = omega (arith, places, size-taken i (omega arith) room);
    fits = omega (arith, fits, suc-mul k s.pool.buf_size, no_data);
  }
    where
      newest :
          back u64_mod s.mask (push u64_mod s.mask s.pending (front s.pool.mask s.pool.free))
          ≡ front s.pool.mask s.pool.free
      newest =
          rw i.masked (
            back-push i.capacity 64 (omega arith) s.pending (front s.pool.mask s.pool.free) i.queue)

      no_data :
          s.pool.data_size
            (back u64_mod s.mask (push u64_mod s.mask s.pending (front s.pool.mask s.pool.free)))
          ≡ 0
      no_data = ap s.pool.data_size newest ∙ front_clean i.pool (omega arith)

module _ (others : ℕ → ℕ) (m : Mark) where
  -- What the loop does where the data fits.
  abbrev LoopWrites : ℕ → Type 0
  LoopWrites f =
      (bytes : List ℕ) (k : ℕ) (s : Writer)
      → IsPending others s
      → 0 < size u64_mod s.pending
      → Enough s bytes k
      → k + 2 ≤ f
      → (r : Writer) × (append_loop f m bytes s ≡ some (true, r))

  after_fill-writes :
      (f : ℕ)
      → LoopWrites f
      → (bytes : List ℕ) (k : ℕ) (s : Writer) → IsPending others s
      → Enough s bytes k
      → (0 < length bytes → spare s ≡ 0)
      → k + 1 ≤ f
      → (r : Writer) × (after_fill (append_loop f m) m (bytes, s) ≡ some (true, r))
  unfolding after_fill after_grow grow
  after_fill-writes f again [] k s i e full fuel = (s, append_loop-nil f m s (omega arith))
  after_fill-writes f again (x ∷ xs) zero s i e full fuel =
      absurd (omega (arith, e.fits, full (omega arith)))
  after_fill-writes f again (x ∷ xs) (suc k) s i e full fuel =
      let room = below e.places in
      let (r, q) =
        again (x ∷ xs) k (taken i) (taken-IsPending i (omega (arith, e.free)) room)
          (omega (arith, size-taken i (omega (arith, e.free)) room))
          (taken-Enough i (x ∷ xs) k room e.free e.places
            (omega (arith, e.fits, full (omega arith))))
          (omega arith) in
      (
        r,
        rw
            (
              lt→leb (size u64_mod s.pending) s.capacity room,
              take_block-some i (omega (arith, e.free)),
            )
            q,
      )
    where
      below : size u64_mod s.pending + suc k ≤ s.capacity → size u64_mod s.pending < s.capacity
      below h = omega arith

  loop_writes : (f : ℕ) → LoopWrites f
  unfolding append_loop
  loop_writes zero bytes k s i h e fuel = absurd (omega arith)
  loop_writes (suc f) [] k s i h e fuel = (s, refl)
  loop_writes (suc f) (x ∷ xs) k s i h e fuel = elim (fill_cases i h (x ∷ xs)) [
    | inl (none_copied, q) ↦
        let (r, p) =
          after_fill-writes f (loop_writes f) (x ∷ xs) k s i e
            (λ _. full (step i h (x ∷ xs)) refl none_copied) (omega arith) in
        (r, rw q p)
    | inr (_, q) ↦
        let (r, p) =
          after_fill-writes f (loop_writes f) (drop (step i h (x ∷ xs)) (x ∷ xs)) k
            (filled i h (x ∷ xs)) (filled-IsPending i h (x ∷ xs)) (filled-Enough i h (x ∷ xs) k e)
            (left-full i h (x ∷ xs)) (omega arith) in
        (r, rw q p)
  ]
    where
      full : (n : ℕ) → n ≡ step i h (x ∷ xs) → n ≡ 0 → spare s ≡ 0
      full n e' none_copied = unfold step in omega (arith, e')

-- On a sound buffer `append` returns true where `k` blocks are free and have places in the queue, and the data fits
-- in what the last waiting block still takes and `k` more blocks; where no block waits, there is no
-- last block, and `k` is at least 1.
pub append_enough :
    {others : ℕ → ℕ} (s : Writer) (bytes : List ℕ) (k : ℕ)
    → IsWriter others s
    → k ≤ size u32_mod s.pool.free
    → size u64_mod s.pending + k ≤ s.capacity
    → length bytes
      ≤ (if size u64_mod s.pending == 0
          then 0
          else s.pool.buf_size - s.pool.data_size (last_block s))
        + k * s.pool.buf_size
    → 0 < size u64_mod s.pending + k
    → (r : Writer) × (append bytes s ≡ some (true, r))
unfolding append
append_enough {others} s bytes k w free places fits pos =
    elim (ℕ_discrete (size u64_mod s.pending) 0) [
      | yes none_yet ↦ first_block k none_yet free places (ground arith) (omega arith)
      | no some_block ↦
          let (r, q) =
            loop_writes (λ a. count a (send_list s) + others a) (mark_last s) (append_fuel s) bytes
              k s w.waiting (omega arith)
              (record { free = free; places = places; fits = ground arith }) (omega arith) in
          (r, rw (nonempty_test some_block) q)
    ]
  where
    empty_test : size u64_mod s.pending ≡ 0 → (s.pending.head == s.pending.tail) ≡ true
    empty_test e =
        ground
          (arith, (size-zero_iff w.waiting.capacity 64 (omega arith) s.pending w.waiting.queue).0 e)

    nonempty_test : ¬ (size u64_mod s.pending ≡ 0) → (s.pending.head == s.pending.tail) ≡ false
    nonempty_test ne =
        ground (
          arith,
          ne,
          (size-zero_iff w.waiting.capacity 64 (omega arith) s.pending w.waiting.queue).1,
        )

    roomy :
        (j : ℕ) → size u64_mod s.pending + suc j ≤ s.capacity → size u64_mod s.pending < s.capacity
    roomy j h = omega arith

    first_block :
        (j : ℕ)
        → size u64_mod s.pending ≡ 0
        → j ≤ size u32_mod s.pool.free
        → size u64_mod s.pending + j ≤ s.capacity
        → length bytes ≤ j * s.pool.buf_size
        → 0 < j
        → (r : Writer) × (append bytes s ≡ some (true, r))
    first_block zero e free' places' fits' pos' = absurd (omega arith)
    first_block (suc j) e free' places' fits' pos' =
        let room = roomy j places' in
        let (r, q) =
          loop_writes (λ a. count a (send_list s) + others a) (mark_empty s) (append_fuel s) bytes j
            (taken w.waiting) (taken-IsPending w.waiting (omega arith) room)
            (omega (arith, size-taken w.waiting (omega arith) room))
            (taken-Enough w.waiting bytes j room free' places' fits') (omega arith) in
        (r, rw (empty_test e, take_block-some w.waiting (omega arith)) q)
