-- ===== src/Buffer/WriteBuf/Front.antt =====
-- The blocks that `prepend` (src/buffer/buffer.cpp) has put before the head of the pending queue, as a
-- queue of their own, and a round of its loop on that queue.
pub mod GiveBack
pub mod Loop
pub mod Ends
use uring_proactor.Base.{
  u32_mod, u64_mod, add_word, sub_word, sub_word_cases, sub_word-lt, length, take, length-take,
  drop, update, rows, count, IsCapacity, capacity_pos, capacity-le, bit_and_mask, mod_wrap, ℕ, zero,
  suc, ◌+◌, ◌-◌, ◌*◌, ◌%◌, ◌^◌, ◌≤◌, ◌<◌, min, bit_and, ◌≡◌, refl, sym, ap, ap₂, subst, ◌∙◌, ◌≢◌,
  ◌⊎◌, inl, inr, List, [], ◌∷◌, ◌++◌, arith, update_apart,
}
use uring_proactor.Base.Ring.{
  size, push, front, advance, window, items, items-empty, place-ne, window_place,
}
use uring_proactor.Base.Ring.Laws.{IsRing, tail_place, back-push, size-push, size-advance}
use uring_proactor.Buffer.BufPool.{BufPool, buf_addr, set_data_size, copy_to}
use uring_proactor.Buffer.BufPool.Invariant.{IsPool-ext, front_clean}
use uring_proactor.Buffer.WriteBuf.{Writer, last_block, put_front}
use uring_proactor.Buffer.WriteBuf.Invariant.{
  pending_list, send_list, owners, IsPending, IsWriter, taken, taken-IsPending, size-taken,
}
use uring_proactor.Buffer.WriteBuf.Fill.{extend, step, filled, filled-IsPending}
use uring_proactor.Buffer.WriteBuf.Progress.{
  Progress, filled-Progress, taken-Progress, taken-HasTip, start-Progress,
}

-- A write to a place before a window, less than a round away, leaves the window alone.
pub window_before :
    (f : ℕ → ℕ) (cap h n b v : ℕ)
    → b < h
    → h + n ≤ b + cap
    → window (update f (b % cap) v) cap h n ≡ window f cap h n
window_before f cap h zero b v lt fits = refl
window_before f cap h (suc n) b v lt fits =
    ap₂ ◌∷◌ (update_apart f (b % cap) (h % cap) v differs)
      (window_before f cap (h + 1) n b v (omega arith) (omega arith))
  where
    differs : h % cap ≢ b % cap
    differs e =
        place-ne cap b (h - b) (omega arith) (omega arith) (ap (λ t. t % cap) (omega arith) ∙ e)

pub window-add :
    (f : ℕ → ℕ) (cap h n m : ℕ)
    → window f cap h (n + m) ≡ window f cap h n ++ window f cap (h + n) m
window-add f cap h zero m = ap₂ (window f cap) (omega arith) (omega arith)
window-add f cap h (suc n) m =
    ap (window f cap h) {y = suc (n + m)} (omega arith)
    ∙ ap (◌∷◌ (f (h % cap))) (
        window-add f cap (h + 1) n m
        ∙ ap (λ t. window f cap (h + 1) n ++ window f cap t m) (omega arith))

abbrev pub view : ℕ → ℕ → Writer → Writer
view new_head i s = record s {
  pending = record { slots = s.pending.slots; head = new_head; tail = i };
}

-- The bytes of an empty block are the ones copied to it.
extend-clean :
    (p : BufPool) (b n : ℕ) (bytes : List ℕ)
    → p.data_size b ≡ 0
    → n ≤ length bytes
    → extend p b (take n bytes) ≡ set_data_size (copy_to p (buf_addr p b) (take n bytes)) b n
unfolding extend
extend-clean p b n bytes empty le =
    ap₂ (λ off m. set_data_size (copy_to p off (take n bytes)) b m) (omega arith)
      (omega (arith, length-take n bytes))

-- A round: a new block, and the bytes that it takes.
module _ {others : ℕ → ℕ} (new_head i : ℕ) (s : Writer)
    (live : IsPending others (view new_head i s)) (free : 0 < size u32_mod s.pool.free)
    (room : size u64_mod (view new_head i s).pending < s.capacity) where
  abbrev pub next_block : ℕ
  next_block = front s.pool.mask s.pool.free

  newest : last_block (taken live) ≡ next_block
  unfolding taken
  newest =
      rw live.masked
        (back-push live.capacity 64 (omega arith) (view new_head i s).pending next_block live.queue)

  abbrev pub rounded : List ℕ → Writer
  rounded bytes =
      put_front i next_block bytes
        (record s { pool = record s.pool { free = advance u32_mod s.pool.free } })

  pub nonempty : 0 < size u64_mod (taken live).pending
  nonempty = omega (arith, size-taken live free room)

  clean : (taken live).pool.data_size (last_block (taken live)) ≡ 0
  unfolding taken
  clean = ap s.pool.data_size newest ∙ front_clean live.pool free

  pub step-eq :
      (bytes : List ℕ)
      → step (taken-IsPending live free room) nonempty bytes ≡ min (length bytes) s.pool.buf_size
  unfolding step taken
  step-eq bytes = omega (arith, clean)

  pub round-view :
      (bytes : List ℕ)
      → filled (taken-IsPending live free room) nonempty bytes
        ≡ view new_head (add_word u64_mod i 1) (rounded bytes)
  unfolding filled taken put_front push
  round-view bytes =
      ap₂ (λ b n. record (taken live) { pool = extend (taken live).pool b (take n bytes) }) newest
        (step-eq bytes)
      ∙ ap (λ p. record (taken live) { pool = p })
          (extend-clean (taken live).pool next_block (min (length bytes) s.pool.buf_size) bytes
            (front_clean live.pool free) (omega arith))
