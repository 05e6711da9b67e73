-- ===== src/Util/TimestampCache/Invariant.antt =====
-- The cache of src/util/timestamp.cpp between two accesses: the text in memory, a writer that has copied
-- some bytes, and the bytes that readers have.
use uring_proactor.Base.{
  Bool-cases, ℕ, ◌+◌, ◌-◌, ◌*◌, ◌<◌, ◌≤◌, ◌≡◌, ◌⊎◌, inl, inr, sym, ap, ◌∙◌, true, false, arith,
}
use uring_proactor.Util.TimestampCache.{
  start_of, length_of, Place, outside, clocked, won, writing, waiting, reading, returned, Threads,
  is_writing,
}

module _ (format : ℕ → ℕ → ℕ) where
  -- A writer has copied the first `k` bytes of its text over the text before.
  pub record Written (s : Threads format) (second k : ℕ) : Type 0 where
    pub odd : s.cache.seq + 1 ≡ s.begun * 2
    pub some_begun : 0 < s.begun
    pub bounded : k ≤ 36
    pub mine : (m : ℕ) → s.versions s.begun m ≡ format second m
    pub fresh : (m : ℕ) → m < k → s.cache.bytes m ≡ s.versions s.begun m
    pub old : (m : ℕ) → k ≤ m → m < 36 → s.cache.bytes m ≡ s.versions (s.begun - 1) m

  -- The bytes that a reader has, if no update has begun since its `s1`.
  unfoldable pub IsPlace : Threads format → Place → Type 0
  IsPlace s (writing f second k) = Written s second k
  IsPlace s (reading f s1 k out) =
      (v : ℕ) × (s1 ≡ v * 2)
      × (v ≤ s.begun)
      × (s1 ≤ s.cache.seq)
      × (s.cache.seq ≡ s1 → (m : ℕ) → m < k → out m ≡ s.versions v (start_of f + m))
      × (k ≤ length_of f)
  IsPlace s (returned f out) =
      (v : ℕ) × (v ≤ s.begun) × ((m : ℕ) → m < length_of f → out m ≡ s.versions v (start_of f + m))
  IsPlace s _ = Unit {0}

  pub record IsCache (s : Threads format) : Type 0 where
    pub genuine :
        (v : ℕ)
        → ((k : ℕ) → s.versions v k ≡ 0)
          ⊎ ((second : ℕ) × ((k : ℕ) → s.versions v k ≡ format second k))
    pub quiet :
        ((j : ℕ) → is_writing format (s.places j) ≡ false)
        → (s.cache.seq ≡ s.begun * 2) × ((k : ℕ) → k < 36 → s.cache.bytes k ≡ s.versions s.begun k)
    pub alone :
        (i j : ℕ)
        → is_writing format (s.places i) ≡ true
        → is_writing format (s.places j) ≡ true
        → i ≡ j
    pub each : (j : ℕ) → IsPlace s (s.places j)

  writing_place :
      (s : Threads format) (p : Place)
      → is_writing format p ≡ true
      → IsPlace s p
      → (second : ℕ) × (k : ℕ) × Written s second k
  unfolding IsPlace
  writing_place s (writing f second k) e w = (second, k, w)
  writing_place s outside e w = absurd (ground (arith, e))
  writing_place s (clocked f a b) e w = absurd (ground (arith, e))
  writing_place s (won f a) e w = absurd (ground (arith, e))
  writing_place s (waiting f) e w = absurd (ground (arith, e))
  writing_place s (reading f a b c) e w = absurd (ground (arith, e))
  writing_place s (returned f a) e w = absurd (ground (arith, e))

  -- While the sequence is even nobody writes.
  pub even_quiet :
      (s : Threads format) (v : ℕ)
      → IsCache s
      → s.cache.seq ≡ v * 2
      → (v ≡ s.begun) × ((k : ℕ) → k < 36 → s.cache.bytes k ≡ s.versions s.begun k)
  even_quiet s v i e = (omega (arith, (i.quiet none_writes).0), (i.quiet none_writes).1)
    where
      none_writes : (j : ℕ) → is_writing format (s.places j) ≡ false
      none_writes j = elim (Bool-cases (is_writing format (s.places j))) [
        | inr f ↦ f
        | inl t ↦ absurd (omega (arith, e, (writing_place s (s.places j) t (i.each j)).2.odd))
      ]

  -- A reader's bytes stay right when updates begin or end.
  pub IsPlace-on :
      (s r : Threads format) (p : Place)
      → is_writing format p ≡ false
      → s.begun ≤ r.begun
      → s.cache.seq ≤ r.cache.seq
      → ((v : ℕ) → v ≤ s.begun → r.versions v ≡ s.versions v)
      → IsPlace s p
      → IsPlace r p
  unfolding IsPlace
  IsPlace-on s r outside e b q same h = h
  IsPlace-on s r (clocked f a x) e b q same h = h
  IsPlace-on s r (won f a) e b q same h = h
  IsPlace-on s r (waiting f) e b q same h = h
  IsPlace-on s r (writing f a k) e b q same h = absurd (ground (arith, e))
  IsPlace-on s r (reading f s1 k out) e b q same (v, ev, le, before, right, bound) = (
    v,
    ev,
    omega arith,
    omega arith,
    λ now m lt.
        right (omega (arith, now, before)) m lt ∙ ap (λ t. t (start_of f + m)) (sym (same v le)),
    bound,
  )
  IsPlace-on s r (returned f out) e b q same (v, le, right) =
      (v, omega arith, λ m lt. right m lt ∙ ap (λ t. t (start_of f + m)) (sym (same v le)))
