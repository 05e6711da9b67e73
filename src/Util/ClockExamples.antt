-- ===== src/Util/ClockExamples.antt =====
-- A clock whose text repeats the second: runs of the timestamp cache, and a use of the theorem.
use uring_proactor.Base.{
  update_apart, ℕ, zero, suc, ◌<◌, ◌≡◌, refl, sym, ap, subst, ◌∙◌, ◌≢◌, ◌⊎◌, true, false, arith,
}
use native.Mathlib.Decide.{ℕ_discrete}
use uring_proactor.Util.TimestampCache.{
  datetime, Place, outside, clocked, won, writing, waiting, reading, returned, Threads, is_writing,
  has_won, next_access, noted, thread_step, Steps, at_first, then_step,
}
use uring_proactor.Util.TimestampCache.Read.{returned_whole}

abbrev plain_text : ℕ → ℕ → ℕ
plain_text second k = second

abbrev no_text : Threads plain_text
no_text = record {
  cache = record { cached_second = 0; seq = 0; bytes = λ k. 0 };
  places = λ i. outside;
  begun = 0;
  versions = λ v k. 0;
}

-- Thread `i` makes `n` steps while the clock shows `now`.
abbrev go : ℕ → ℕ → ℕ → Threads plain_text → Threads plain_text
go zero i now s = s
go (suc n) i now s = go n i now (thread_step plain_text i datetime now s)

-- A whole call of `get_datetime` by thread 0 in the first second.
abbrev one_call : Threads plain_text
one_call = go 66 0 1 no_text

abbrev out_of : Place → ℕ → ℕ
out_of (returned f out) = out
out_of _ = λ m. 0

not_both : (p : Place) → has_won plain_text p ≡ true → is_writing plain_text p ≡ false
not_both (won f a) e = refl
not_both outside e = refl
not_both (clocked f a x) e = refl
not_both (writing f a k) e = absurd (ground (arith, e))
not_both (waiting f) e = refl
not_both (reading f a k out) e = refl
not_both (returned f out) e = refl

-- The steps of one thread alone.
alone_Steps :
    (n now : ℕ) {s : Threads plain_text}
    → ((j : ℕ) → j ≢ 0 → s.places j ≡ outside)
    → Steps plain_text s
    → Steps plain_text (go n 0 now s)
unfolding thread_step noted
alone_Steps zero now others r = r
alone_Steps (suc n) now {s} others r = alone_Steps n now still (then_step 0 datetime now r calm)
  where
    still : (j : ℕ) → j ≢ 0 → (thread_step plain_text 0 datetime now s).places j ≡ outside
    still j ne =
        update_apart s.places 0 j (next_access plain_text datetime now s.cache (s.places 0)).1 ne
        ∙ others j ne

    calm :
        has_won plain_text (s.places 0) ≡ true
        → (j : ℕ) → is_writing plain_text (s.places j) ≡ false
    calm h j = elim (ℕ_discrete j 0) [
      | yes e ↦
          subst (λ k. is_writing plain_text (s.places k) ≡ false) (sym e) (not_both (s.places 0) h)
      | no ne ↦ ap (is_writing plain_text) (others j ne)
    ]

one_call-Steps : Steps plain_text one_call
one_call-Steps = alone_Steps 66 1 (λ j ne. refl) at_first

returned_whole_example :
    ((m : ℕ) → m < 24 → out_of (one_call.places 0) m ≡ 0)
    ⊎ ((second : ℕ) × ((m : ℕ) → m < 24 → out_of (one_call.places 0) m ≡ second))
unfolding thread_step next_access noted
returned_whole_example =
    returned_whole plain_text 0 datetime (out_of (one_call.places 0)) one_call-Steps (omega arith)
      refl

one_call_text : out_of (one_call.places 0) 23 ≡ 1
unfolding thread_step next_access noted
one_call_text = refl

-- Thread 0 is stopped in its update for more than a second, and thread 1 begins the next: the sequence is
-- even while both write, and thread 2 returns the bytes of three texts.
abbrev torn : Threads plain_text
torn = go 27 2 2 (go 5 1 2 (go 8 0 1 no_text))

torn_read :
    (out_of (torn.places 2) 0 ≡ 2) × (out_of (torn.places 2) 2 ≡ 1) × (out_of (torn.places 2) 9 ≡ 0)
unfolding thread_step next_access noted
torn_read = (refl, refl, refl)

-- A thread that loses the exchange at the start may return the empty text.
abbrev early : Threads plain_text
early = go 27 1 1 (go 2 0 1 no_text)

early_is_empty : out_of (early.places 1) 0 ≡ 0
unfolding thread_step next_access noted
early_is_empty = refl
