-- ===== src/Util/TimestampCache/Read.antt =====
-- The steps of the threads over the cache (src/util/timestamp.cpp), and what their calls return.
use uring_proactor.Base.{
  ◌==◌, Bool-cases, u32_mod, update, update_self, ℕ, ◌+◌, ◌*◌, ◌%◌, ◌/◌, ◌<◌, ◌≤◌, ◌≡◌, ◌≢◌, ◌⊎◌,
  inl, inr, refl, sym, ap, subst, ◌∙◌, true, false, arith, update_apart,
}
use native.Mathlib.Decide.{ℕ_discrete}
use native.Mathlib.Nat.{mod-eq_of_lt}
use uring_proactor.Util.TimestampCache.{
  Field, datetime, date, start_of, length_of, Place, outside, clocked, won, writing, waiting,
  reading, returned, Threads, is_writing, has_won, next_access, noted, thread_step, Steps, at_first,
  then_step,
}
use uring_proactor.Util.TimestampCache.Invariant.{Written, IsPlace, IsCache, even_quiet}
use uring_proactor.Util.TimestampCache.Moves.{
  moved-IsCache, begins-IsCache, copies-IsCache, finishes-IsCache,
}

-- Both fields end within the 36 bytes.
field_fits : (f : Field) (m : ℕ) → m < length_of f → start_of f + m < 36
field_fits datetime m h = omega arith
field_fits date m h = omega arith

module _ (format : ℕ → ℕ → ℕ) where
  -- The sequence does not wrap.
  abbrev pub Few : Threads format → Type 0
  Few s = s.begun * 2 < u32_mod

  abbrev pub put_back : Threads format → ℕ → Field → ℕ → Place → Threads format
  put_back s i field now p = record (noted format p s) {
    cache = (next_access format field now s.cache p).0;
    places = update s.places i (next_access format field now s.cache p).1;
  }

  module _ (s : Threads format) (i : ℕ) (c : IsCache format s) where
    -- A thread that only reads, and where it goes.
    reads_on :
        (p p' : Place) (second : ℕ)
        → s.places i ≡ p
        → is_writing format p ≡ false
        → is_writing format p' ≡ false
        → IsPlace format s p'
        → IsCache format (record s {
          cache = record s.cache { cached_second = second };
          places = update s.places i p';
        })
    reads_on p p' second e w w' ok =
        moved-IsCache format s i second p' c w' (ap (is_writing format) e ∙ w) ok

    at_writing :
        (field : Field) (now : ℕ) (f : Field) (second k : ℕ)
        → s.places i ≡ writing f second k
        → Written format s second k
        → Few s
        → IsCache format (put_back s i field now (writing f second k))
    unfolding next_access noted
    at_writing field now f second k e w few = elim (ℕ_discrete k 36) [
      | no ne ↦ simp (neq ne) (copies-IsCache format s i f second k c e w ne)
      | yes q ↦
          simp (eq q, mod-eq_of_lt {n = s.cache.seq + 1} {m = u32_mod} (omega (arith, w.odd)))
            (finishes-IsCache format s i f second c (e ∙ ap (writing f second) q)
              (subst (Written format s second) q w))
    ]
      where
        neq : k ≢ 36 → (k == 36) ≡ false
        neq ne = ground (arith, ne)

        eq : k ≡ 36 → (k == 36) ≡ true
        eq q = ground (arith, q)

    new_reading :
        (f : Field)
        → (s.cache.seq % 2 == 1) ≡ false
        → IsPlace format s (reading f s.cache.seq 0 (λ m. 0))
    unfolding IsPlace
    new_reading f even =
        (s.begun, now_even, omega arith, omega arith, λ q m lt. absurd (omega arith), omega arith)
      where
        now_even : s.cache.seq ≡ s.begun * 2
        now_even = half (s.cache.seq / 2) (ground (arith, even))
          where
            half : (v : ℕ) → s.cache.seq ≡ v * 2 → s.cache.seq ≡ s.begun * 2
            half v q = omega (arith, q, (even_quiet format s v c q).0)

    next_byte :
        (f : Field) (s1 k : ℕ) (out : ℕ → ℕ)
        → k ≢ length_of f
        → IsPlace format s (reading f s1 k out)
        → IsPlace format s (reading f s1 (k + 1) (update out k (s.cache.bytes (start_of f + k))))
    unfolding IsPlace
    next_byte f s1 k out ne (v, ev, le, before, right, bound) = (
      v,
      ev,
      le,
      before,
      λ now m lt. elim (ℕ_discrete m k) [
        | yes t ↦
            ap (update out k (s.cache.bytes (start_of f + k))) t
            ∙ update_self out k (s.cache.bytes (start_of f + k))
            ∙ (even_quiet format s v c (now ∙ ev)).1 (start_of f + k)
                (field_fits f k (omega (arith, bound, ne)))
            ∙ ap (λ u. s.versions u (start_of f + k)) (sym (even_quiet format s v c (now ∙ ev)).0)
            ∙ ap (λ u. s.versions v (start_of f + u)) (sym t)
        | no t ↦
            update_apart out k m (s.cache.bytes (start_of f + k)) t ∙ right now m (omega (arith, t))
      ],
      omega (arith, bound, ne),
    )

    whole :
        (f : Field) (s1 : ℕ) (out : ℕ → ℕ)
        → s1 ≡ s.cache.seq
        → IsPlace format s (reading f s1 (length_of f) out)
        → IsPlace format s (returned f out)
    unfolding IsPlace
    whole f s1 out e (v, ev, le, before, right, bound) = (v, le, λ m lt. right (sym e) m lt)

    at_reading :
        (field : Field) (now : ℕ) (f : Field) (s1 k : ℕ) (out : ℕ → ℕ)
        → s.places i ≡ reading f s1 k out
        → IsPlace format s (reading f s1 k out)
        → IsCache format (put_back s i field now (reading f s1 k out))
    unfolding next_access noted IsPlace
    at_reading field now f s1 k out e h = elim (Bool-cases (k == length_of f)) [
      | inr t ↦ simp t (
          reads_on (reading f s1 k out)
            (reading f s1 (k + 1) (update out k (s.cache.bytes (start_of f + k))))
            s.cache.cached_second e refl refl (next_byte f s1 k out (ground (arith, t)) h))
      | inl t ↦ elim (Bool-cases (s1 == s.cache.seq)) [
        | inr q ↦
            simp (t, q)
              (reads_on (reading f s1 k out) (waiting f) s.cache.cached_second e refl refl tt)
        | inl q ↦
            simp (t, q)
              (reads_on (reading f s1 k out) (returned f out) s.cache.cached_second e refl refl (
                whole f s1 out (ground (arith, q))
                  (subst (λ u. IsPlace format s (reading f s1 u out)) (ground (arith, t)) h)))
      ]
    ]

    by_place :
        (field : Field) (now : ℕ) (p : Place)
        → s.places i ≡ p
        → IsPlace format s p
        → (has_won format p ≡ true → (j : ℕ) → is_writing format (s.places j) ≡ false)
        → (noted format p s).begun * 2 < u32_mod
        → IsCache format (put_back s i field now p)
    unfolding next_access noted IsPlace
    by_place field now outside e h calm few = elim (Bool-cases (now == s.cache.cached_second)) [
      | inl t ↦ simp t (reads_on outside (waiting field) s.cache.cached_second e refl refl tt)
      | inr t ↦ simp t (
          reads_on outside (clocked field now s.cache.cached_second) s.cache.cached_second e refl
            refl tt)
    ]
    by_place field now (clocked f a x) e h calm few =
        elim (Bool-cases (s.cache.cached_second == x)) [
          | inl t ↦ simp t (reads_on (clocked f a x) (won f a) a e refl refl tt)
          | inr t ↦
              simp t (reads_on (clocked f a x) (waiting f) s.cache.cached_second e refl refl tt)
        ]
    by_place field now (won f second) e h calm few =
        simp
          (mod-eq_of_lt {n = s.cache.seq + 1} {m = u32_mod}
            (omega (arith, few, (c.quiet (calm refl)).0)))
          (begins-IsCache format s i f second c (calm refl))
    by_place field now (writing f second k) e h calm few = at_writing field now f second k e h few
    by_place field now (waiting f) e h calm few = elim (Bool-cases (s.cache.seq % 2 == 1)) [
      | inl t ↦ simp t (reads_on (waiting f) (waiting f) s.cache.cached_second e refl refl tt)
      | inr t ↦ simp t (
          reads_on (waiting f) (reading f s.cache.seq 0 (λ m. 0)) s.cache.cached_second e refl refl
            (new_reading f t))
    ]
    by_place field now (reading f s1 k out) e h calm few = at_reading field now f s1 k out e h
    by_place field now (returned f out) e h calm few =
        reads_on (returned f out) outside s.cache.cached_second e refl refl tt

  begun_on : (p : Place) (s : Threads format) → s.begun ≤ (noted format p s).begun
  unfolding noted
  begun_on outside s = omega arith
  begun_on (clocked f a x) s = omega arith
  begun_on (won f a) s = omega arith
  begun_on (writing f a k) s = omega arith
  begun_on (waiting f) s = omega arith
  begun_on (reading f a k out) s = omega arith
  begun_on (returned f out) s = omega arith

  first-IsCache : IsCache format (record {
    cache = record { cached_second = 0; seq = 0; bytes = λ k. 0 };
    places = λ i. outside;
    begun = 0;
    versions = λ v k. 0;
  })
  unfolding IsPlace
  first-IsCache = record {
    genuine = λ v. inl (λ k. refl);
    quiet = λ h. (refl, λ k lt. refl);
    alone = λ i j h _. absurd (ground (arith, h));
    each = λ j. tt;
  }

  Steps-IsCache : {s : Threads format} → Steps format s → Few s → IsCache format s
  unfolding thread_step
  Steps-IsCache at_first few = first-IsCache
  Steps-IsCache (then_step {s = s} i field now r calm) few =
      let c = Steps-IsCache r (omega (arith, begun_on (s.places i) s)) in
      by_place s i c field now (s.places i) refl (c.each i) calm few

  -- What `get_datetime` or `get_date` returns is, as a whole, the text of one second, or the empty one
  -- from before the first update, where no two updates overlap and there are fewer than 2 ^ 31.
  pub returned_whole :
      {s : Threads format} (i : ℕ) (f : Field) (out : ℕ → ℕ)
      → Steps format s
      → Few s
      → s.places i ≡ returned f out
      → ((m : ℕ) → m < length_of f → out m ≡ 0)
        ⊎ ((second : ℕ) × ((m : ℕ) → m < length_of f → out m ≡ format second (start_of f + m)))
  unfolding IsPlace
  returned_whole {s = s} i f out r few e =
      by_version (subst (IsPlace format s) e ((Steps-IsCache r few).each i))
    where
      by_version :
          (v : ℕ) × (v ≤ s.begun)
            × ((m : ℕ) → m < length_of f → out m ≡ s.versions v (start_of f + m))
          → ((m : ℕ) → m < length_of f → out m ≡ 0)
            ⊎ ((second : ℕ) × ((m : ℕ) → m < length_of f → out m ≡ format second (start_of f + m)))
      by_version (v, le, right) = elim ((Steps-IsCache r few).genuine v) [
        | inl zero_text ↦ inl (λ m lt. right m lt ∙ zero_text (start_of f + m))
        | inr (second, text) ↦ inr (second, λ m lt. right m lt ∙ text (start_of f + m))
      ]
