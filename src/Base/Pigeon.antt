-- ===== src/Base/Pigeon.antt =====
-- Distinct numbers below a bound: there are no more of them than the bound.
use native.Mathlib.Decide.{dec_lt}
use uring_proactor.Base.{
  ltb, if◌then◌else◌, length, count, ℕ, zero, suc, ◌+◌, ◌≤◌, ◌<◌, ◌≡◌, refl, subst, List, [], ◌∷◌,
  arith,
}

abbrev occurrences : ℕ → List ℕ → ℕ
occurrences zero xs = 0
occurrences (suc n) xs = count n xs + occurrences n xs

occurrences-cons :
    (n x : ℕ) (xs : List ℕ) → occurrences n (x ∷ xs) ≡ (if ltb x n then 1 else 0) + occurrences n xs
occurrences-cons zero x xs = ground arith
occurrences-cons (suc n) x xs = ground (arith, occurrences-cons n x xs)

-- Each entry lies below the bound and occurs at most once.
pub length-occurrences :
    (n : ℕ) (xs : List ℕ) → ((a : ℕ) → n ≤ a → count a xs ≡ 0) → length xs ≡ occurrences n xs
length-occurrences n [] h = none_left n
  where
    none_left : (k : ℕ) → 0 ≡ occurrences k []
    none_left zero = refl
    none_left (suc k) = omega (arith, none_left k)
length-occurrences n (x ∷ xs) h =
    ground (
      arith,
      occurrences-cons n x xs,
      h x,
      length-occurrences n xs (λ a le. ground (arith, h a le)),
    )

occurrences-le : (n : ℕ) (xs : List ℕ) → ((a : ℕ) → count a xs ≤ 1) → occurrences n xs ≤ n
occurrences-le zero xs h = omega arith
occurrences-le (suc n) xs h = omega (arith, h n, occurrences-le n xs h)

occurrences-lt :
    (n : ℕ) (xs : List ℕ) (b : ℕ)
    → ((a : ℕ) → count a xs ≤ 1)
    → b < n
    → count b xs ≡ 0
    → occurrences n xs < n
occurrences-lt zero xs b h lt e = absurd (omega arith)
occurrences-lt (suc n) xs b h lt e = elim (dec_lt b n) [
  | yes low ↦ omega (arith, h n, occurrences-lt n xs b h low e)
  | no last ↦ omega (arith, occurrences-le n xs h, subst (λ (t : ℕ). count t xs ≡ 0) (same last) e)
]
  where
    same : ¬ (b < n) → b ≡ n
    same last = omega arith

-- With one number missing there are fewer.
pub length-lt :
    (n : ℕ) (xs : List ℕ) (b : ℕ)
    → ((a : ℕ) → n ≤ a → count a xs ≡ 0)
    → ((a : ℕ) → count a xs ≤ 1)
    → b < n
    → count b xs ≡ 0
    → length xs < n
length-lt n xs b above once lt e =
    omega (arith, length-occurrences n xs above, occurrences-lt n xs b once lt e)
