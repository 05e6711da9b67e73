-- ===== src/Buffer/BufPool/Init.antt =====
-- The constructor of `BufPool`: what its two loops leave behind.
use uring_proactor.Base.{
  ltb, leb, ◌==◌, if◌then◌else◌, Bool-cases, update, rows, count, IsCapacity, ℕ, zero, suc, ◌+◌,
  ◌-◌, ◌*◌, ◌^◌, ◌≤◌, ◌<◌, ◌≡◌, refl, sym, ap, ap₂, ◌∙◌, inl, inr, ◌&&◌, [], ◌∷◌, ◌++◌, append-nil,
  append_assoc, arith,
}
use native.Mathlib.Numerals.{add-one}
use uring_proactor.Base.Ring.{size, items}
use uring_proactor.Buffer.BufPool.{BufPool, set_data_size, release, release_from, clear_from, init}
use uring_proactor.Base.Ring.Laws.{IsRing}
use uring_proactor.Buffer.BufPool.Invariant.{
  free_list, IsPool, free_list-release, release-IsPool, IsPool-ext,
}

-- The indices from `i` up to `n` are not released yet.
abbrev unreleased : ℕ → ℕ → ℕ → ℕ
unreleased i n a = if leb i a && ltb a n then 1 else 0

cleared : ℕ → ℕ → (ℕ → ℕ) → ℕ → ℕ
cleared zero i f = f
cleared (suc k) i f = cleared k (i + 1) (update f i 0)

clear_from-eq-cleared :
    (k i : ℕ) (p : BufPool) → clear_from k i p ≡ record p { data_size = cleared k i p.data_size }
unfolding clear_from cleared
clear_from-eq-cleared zero i p = refl
clear_from-eq-cleared (suc k) i p = clear_from-eq-cleared k (i + 1) (set_data_size p i 0)

cleared_else : (k i : ℕ) (f : ℕ → ℕ) (a : ℕ) → a < i → cleared k i f a ≡ f a
unfolding cleared
cleared_else zero i f a h = refl
cleared_else (suc k) i f a h = cleared_else k (i + 1) (update f i 0) a (omega arith) ∙ ground arith

cleared_zero : (k i : ℕ) (f : ℕ → ℕ) (a : ℕ) → i ≤ a → a < i + k → cleared k i f a ≡ 0
unfolding cleared
cleared_zero zero i f a h lt = absurd (omega arith)
cleared_zero (suc k) i f a h lt = elim (Bool-cases (a == i)) [
  | inl e ↦ cleared_else k (i + 1) (update f i 0) a (ground arith) ∙ ground arith
  | inr e ↦ cleared_zero k (i + 1) (update f i 0) a (ground arith) (omega arith)
]

release_from-IsPool :
    (k i n : ℕ) (p : BufPool)
    → i + k ≡ n
    → IsPool (unreleased i n) p
    → IsPool (λ _. 0) (release_from k i p)
unfolding release_from
release_from-IsPool zero i n p e v = IsPool-ext v (λ a. ground arith)
release_from-IsPool (suc k) i n p e v =
    release_from-IsPool k (i + 1) n (release p i) (omega arith)
      (release-IsPool v i (unreleased (i + 1) n) (λ a. ground arith))

free_list-release_from :
    (k i n : ℕ) (p : BufPool)
    → i + k ≡ n
    → IsPool (unreleased i n) p
    → free_list (release_from k i p) ≡ free_list p ++ rows (λ a. a) i k
unfolding release_from
free_list-release_from zero i n p e v = sym (append-nil (free_list p))
free_list-release_from (suc k) i n p e v =
    free_list-release_from k (i + 1) n (release p i) (omega arith)
      (release-IsPool v i (unreleased (i + 1) n) (λ a. ground arith))
    ∙ ap₂ (λ xs j. xs ++ rows (λ a. a) j k) (free_list-release v i (ground arith)) (add-one i)
    ∙ append_assoc (free_list p) (i ∷ []) (rows (λ a. a) (suc i) k)

module _ (n bs : ℕ) (bytes sizes queue : ℕ → ℕ) (c : IsCapacity n) (pos : 0 < bs)
    (fits : n * bs ≤ 2 ^ 31) where
  blank : BufPool
  blank = record {
    buf_num = n;
    mask = n - 1;
    buf_size = bs;
    bufs = bytes;
    data_size = cleared n 0 sizes;
    free = record { slots = queue; head = 0; tail = 0 };
  }

  items-blank : free_list blank ≡ []
  unfolding blank items
  items-blank = refl

  blank-IsPool : IsPool (unreleased 0 n) blank
  unfolding blank
  blank-IsPool = record {
    capacity = c;
    masked = refl;
    sized = pos;
    allocated = fits;
    queue = ring;
    once = λ a. ground (arith, ap (count a) items-blank);
    clean = λ a free. absurd (ground (arith, ap (count a) items-blank));
    filled = λ a lt. omega (arith, cleared_zero n 0 sizes a (omega arith) (omega arith));
  }
    where
      ring : IsRing 32 n (record { slots = queue; head = 0; tail = 0 })
      ring = unfold size in omega arith

  init-eq : init n bs bytes sizes queue ≡ release_from n 0 blank
  unfolding init blank
  init-eq = ap (release_from n 0) (clear_from-eq-cleared n 0 _)

  -- For a number of blocks that is a power of two up to 2 ^ 30, a positive block size and at most
  -- 2 ^ 31 bytes in all, the constructor leaves a sound pool that nobody holds a block of, whatever
  -- the memory held before.
  init-IsPool : IsPool (λ _. 0) (init n bs bytes sizes queue)
  init-IsPool = rw init-eq (release_from-IsPool n 0 n blank (omega arith) blank-IsPool)

  -- Under the same conditions the constructor leaves every block free, in the order of the indices.
  free_list-init : free_list (init n bs bytes sizes queue) ≡ rows (λ a. a) 0 n
  free_list-init = rw init-eq (
      free_list-release_from n 0 n blank (omega arith) blank-IsPool
      ∙ ap (λ xs. xs ++ rows (λ a. a) 0 n) items-blank)
