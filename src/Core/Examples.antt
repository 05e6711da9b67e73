-- ===== src/Core/Examples.antt =====
-- A batch of completions for two channels, with an application that records what it reads.
use uring_proactor.Base.{count, ℕ, min, ◌≡◌, refl, false, List, [], ◌∷◌}
use uring_proactor.Core.PendingReads.{
  mark_pending_read, on_batch_done, mark_all, none_pending, reads, on_batch_done_lem,
}

abbrev record_read : ℕ → List ℕ → List ℕ
record_read ch seen = ch ∷ seen

batch_run : (on_batch_done record_read (mark_all (7 ∷ 3 ∷ 7 ∷ []) none_pending) []).1 ≡ 3 ∷ 7 ∷ []
unfolding on_batch_done mark_pending_read
batch_run = refl

on_batch_done_example :
    ((order : List ℕ) × ((on_batch_done record_read (mark_all (7 ∷ 3 ∷ 7 ∷ []) none_pending) []).1
        ≡ reads record_read order [])
      × ((ch : ℕ) → count ch order ≡ min 1 (count ch (7 ∷ 3 ∷ 7 ∷ []))))
    × ((ch : ℕ)
        → (on_batch_done record_read (mark_all (7 ∷ 3 ∷ 7 ∷ []) none_pending) []).0.in_pending_reads
            ch
          ≡ false)
    × ((on_batch_done record_read (mark_all (7 ∷ 3 ∷ 7 ∷ []) none_pending) []).0.pending_reads ≡ [])
on_batch_done_example = on_batch_done_lem record_read (7 ∷ 3 ∷ 7 ∷ []) []
