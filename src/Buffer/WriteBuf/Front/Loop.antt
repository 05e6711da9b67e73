-- ===== src/Buffer/WriteBuf/Front/Loop.antt =====
-- The loop of `prepend` (src/buffer/buffer.cpp): what a round adds, and where it stops.
use native.Mathlib.Decide.{ℕ_discrete}
use uring_proactor.Base.{
  ◌==◌, u32_mod, u64_mod, add_word, sub_word, length, length-drop, take, drop, take-append-drop,
  capacity-le, bit_and, bit_and_mask, update, ℕ, zero, suc, ◌+◌, ◌*◌, ◌%◌, ◌≤◌, ◌<◌, min, ◌≡◌, refl,
  sym, ap, ap₂, subst, ◌∙◌, ◌⊎◌, inl, inr, Bool, true, false, List, [], ◌∷◌, ◌++◌, append-nil,
  append_assoc, arith,
}
use uring_proactor.Base.Ring.{size, front, window}
use uring_proactor.Base.Ring.Laws.{tail_place, size-advance}
use uring_proactor.Buffer.BufPool.{invalid_idx}
use uring_proactor.Buffer.BufPool.Invariant.{acquire-empty, acquire-some, front-lt}
use uring_proactor.Buffer.WriteBuf.{Writer, put_front, prepend_from, release_front}
use uring_proactor.Buffer.WriteBuf.Invariant.{pending_list, taken, size-taken}
use uring_proactor.Buffer.WriteBuf.Fill.{step, filled}
use uring_proactor.Buffer.WriteBuf.Progress.{
  Progress, HasTip, filled-Progress, taken-Progress, taken-HasTip,
}
use uring_proactor.Buffer.WriteBuf.Front.{view, window_before, rounded, step-eq, round-view}

-- The state `s` after `k` rounds, which reached place `i` and put `done` into their blocks. The
-- queue that waited at the start, `blocks` places after `new_head`, is where it was.
pub record Going (behind : ℕ → ℕ) (new_head blocks : ℕ) (s0 : Writer) (k i : ℕ) (s : Writer)
    (done : List ℕ) : Type 0 where
  pub front_part : Progress behind (view new_head new_head s0) (view new_head i s) done
  pub counted : size u64_mod (view new_head i s).pending ≡ k
  pub waits :
      window s.pending.slots s0.capacity (new_head + blocks) (size u64_mod s0.pending)
      ≡ pending_list s0
  pub same_head : s.pending.head ≡ s0.pending.head
  pub same_tail : s.pending.tail ≡ s0.pending.tail
  pub spent : size u32_mod s.pool.free + k ≡ size u32_mod s0.pool.free

module _ {behind : ℕ → ℕ} {new_head blocks : ℕ} {s0 : Writer} {k i : ℕ} {s : Writer} {done : List ℕ}
    (room : size u64_mod s0.pending + blocks ≤ s0.capacity)
    (g : Going behind new_head blocks s0 k i s done) (left : k < blocks)
    (free : 0 < size u32_mod s.pool.free) where
  abbrev pub vacant : size u64_mod (view new_head i s).pending < s.capacity
  vacant = omega (arith, g.counted, g.front_part.same_capacity)

  abbrev pub piece : List ℕ → List ℕ
  piece bytes = take (min (length bytes) s.pool.buf_size) bytes

  fresh : Progress behind (view new_head new_head s0) (taken g.front_part.live) done
  fresh = taken-Progress g.front_part free vacant

  tip : HasTip behind (view new_head new_head s0) (taken g.front_part.live)
  tip = taken-HasTip g.front_part free vacant

  next_part :
      (bytes : List ℕ)
      → Progress behind
          (view new_head new_head s0)
          (view new_head
            (add_word u64_mod i 1)
            (rounded new_head i s g.front_part.live free vacant bytes))
          (done ++ piece bytes)
  unfolding filled step
  next_part bytes =
      subst (λ (n : ℕ). Progress behind start state (done ++ take n bytes))
        (step-eq new_head i s g.front_part.live free vacant bytes)
        (subst (λ (r : Writer). Progress behind start r (done ++ take there bytes))
          (round-view new_head i s g.front_part.live free vacant bytes)
          (filled-Progress fresh tip bytes))
    where
      start : Writer
      start = view new_head new_head s0

      state : Writer
      state =
          view new_head (add_word u64_mod i 1)
            (rounded new_head i s g.front_part.live free vacant bytes)

      there : ℕ
      there = step fresh.live tip.nonempty bytes

  place : bit_and i s.mask ≡ (new_head + k) % s0.capacity
  place =
      ap (bit_and i) g.front_part.live.masked
      ∙ bit_and_mask g.front_part.live.capacity i
      ∙ tail_place g.front_part.live.capacity 64 (omega arith) (view new_head i s).pending
          g.front_part.live.queue
      ∙ ap₂ (λ n c. (new_head + n) % c) g.counted g.front_part.same_capacity

  pub round-Going :
      (bytes : List ℕ)
      → Going behind new_head blocks s0
          (k + 1)
          (add_word u64_mod i 1)
          (rounded new_head i s g.front_part.live free vacant bytes)
          (done ++ piece bytes)
  unfolding put_front filled
  round-Going bytes = record {
    front_part = next_part bytes;
    counted =
        ap (λ (r : Writer). size u64_mod r.pending)
          (sym (round-view new_head i s g.front_part.live free vacant bytes))
        ∙ size-taken g.front_part.live free vacant
        ∙ ap (λ n. n + 1) g.counted;
    waits =
        ap
          (λ t.
            window (update s.pending.slots t (front s.pool.mask s.pool.free)) s0.capacity
              (new_head + blocks) (size u64_mod s0.pending))
          place
        ∙ window_before s.pending.slots s0.capacity (new_head + blocks) (size u64_mod s0.pending)
            (new_head + k) (front s.pool.mask s.pool.free) (omega arith) (omega arith)
        ∙ g.waits;
    same_head = g.same_head;
    same_tail = g.same_tail;
    spent = omega (
      arith,
      g.spent,
      size-advance g.front_part.live.pool.capacity 32 (omega arith) s.pool.free
          g.front_part.live.pool.queue free,
    );
  }

-- How the loop ends: after all rounds, with all of the data in the new blocks, or on an empty pool,
-- with the blocks of the rounds before given back.
abbrev pub Stops : (ℕ → ℕ) → ℕ → ℕ → Writer → List ℕ → Bool × Writer → Type 0
Stops behind new_head blocks s0 all e =
    ((i : ℕ) × (r : Writer) × (e ≡ (true, r)) × Going behind new_head blocks s0 blocks i r all)
    ⊎ ((k : ℕ) × (i : ℕ) × (s : Writer) × (done : List ℕ) × (e
          ≡ (false, release_front (sub_word u64_mod i new_head) new_head s))
        × Going behind new_head blocks s0 k i s done
        × (size u32_mod s0.pool.free < blocks))

module _ {behind : ℕ → ℕ} {new_head blocks : ℕ} {s0 : Writer} (all : List ℕ)
    (room : size u64_mod s0.pending + blocks ≤ s0.capacity) where
  pub prepend_from-Stops :
      (n k i : ℕ) (bytes done : List ℕ) (s : Writer)
      → Going behind new_head blocks s0 k i s done
      → k + n ≡ blocks
      → length bytes ≤ n * s0.pool.buf_size
      → done ++ bytes ≡ all
      → Stops behind new_head blocks s0 all (prepend_from new_head n i bytes s)
  unfolding prepend_from
  prepend_from-Stops zero k i [] done s g rounds fits e = inl (
    i,
    s,
    refl,
    subst (λ (n : ℕ). Going behind new_head blocks s0 n i s all) (omega arith)
        (subst (Going behind new_head blocks s0 k i s) (sym (append-nil done) ∙ e) g),
  )
  prepend_from-Stops zero k i (x ∷ xs) done s g rounds fits e = absurd (omega arith)
  prepend_from-Stops (suc n) k i bytes done s g rounds fits e =
      elim (ℕ_discrete (size u32_mod s.pool.free) 0) [
        | yes none_free ↦ inr (
          k,
          i,
          s,
          done,
          rw (acquire-empty g.front_part.live.pool none_free),
          g,
          omega (arith, g.spent),
        )
        | no free ↦
            rw (acquire-some g.front_part.live.pool (omega arith), valid (omega arith))
              (prepend_from-Stops n (k + 1) (add_word u64_mod i 1)
                (drop (min (length bytes) s.pool.buf_size) bytes)
                (done ++ take (min (length bytes) s.pool.buf_size) bytes) _
                (round-Going room g (omega arith) (omega arith) bytes) (omega arith) shorter
                (append_assoc done _ _ ∙ ap (◌++◌ done) (take-append-drop _ bytes) ∙ e))
      ]
    where
      valid : 0 < size u32_mod s.pool.free → (front s.pool.mask s.pool.free == invalid_idx) ≡ false
      valid free =
          ground (
            arith,
            front-lt g.front_part.live.pool free,
            capacity-le g.front_part.live.pool.capacity,
          )

      shorter : length (drop (min (length bytes) s.pool.buf_size) bytes) ≤ n * s0.pool.buf_size
      shorter =
          omega
            (arith, length-drop (min (length bytes) s.pool.buf_size) bytes, g.front_part.same_size)
