-- ===== src/Util/TimestampCache/Moves.antt =====
-- The accesses of maybe_update (src/util/timestamp.cpp) and the invariant of the cache: the begin of an
-- update, the copy of a byte, its end, and what only reads.
use uring_proactor.Base.{
  Bool-cases, update, update_self, update_apart, update_all, ℕ, ◌+◌, ◌≡◌, ◌≢◌, ◌⊎◌, inl, inr, refl,
  sym, ap, subst, ◌∙◌, true, false, arith,
}
use native.Mathlib.Decide.{ℕ_discrete}
use uring_proactor.Util.TimestampCache.{
  Field, Place, outside, clocked, won, writing, waiting, reading, returned, Threads, is_writing,
}
use uring_proactor.Util.TimestampCache.Invariant.{Written, IsPlace, IsCache, IsPlace-on}

module _ (format : ℕ → ℕ → ℕ) where
  same_writing :
      (s : Threads format) (i : ℕ) (p : Place)
      → is_writing format p ≡ is_writing format (s.places i)
      → (j : ℕ) → is_writing format (update s.places i p j) ≡ is_writing format (s.places j)
  same_writing s i p e j = elim (ℕ_discrete j i) [
    | yes q ↦
        ap (is_writing format) (ap (update s.places i p) q ∙ update_self s.places i p)
        ∙ e
        ∙ sym (ap (λ k. is_writing format (s.places k)) q)
    | no ne ↦ ap (is_writing format) (update_apart s.places i j p ne)
  ]

  -- The other threads do not write while thread `i` does.
  others_read :
      (s : Threads format) (i : ℕ)
      → IsCache format s
      → is_writing format (s.places i) ≡ true
      → (j : ℕ) → j ≢ i
      → is_writing format (s.places j) ≡ false
  others_read s i c w j ne = elim (Bool-cases (is_writing format (s.places j))) [
    | inl t ↦ absurd (ne (c.alone j i t w))
    | inr f ↦ f
  ]

  -- Neither the sequence nor the text is written.
  abbrev pub moved : Threads format → ℕ → ℕ → Place → Threads format
  moved s i second p = record s {
    cache = record s.cache { cached_second = second };
    places = update s.places i p;
  }

  moved_place :
      (s : Threads format) (i second : ℕ) (p q : Place)
      → IsPlace format s q
      → IsPlace format (moved s i second p) q
  unfolding IsPlace
  moved_place s i second p outside h = h
  moved_place s i second p (clocked f a x) h = h
  moved_place s i second p (won f a) h = h
  moved_place s i second p (waiting f) h = h
  moved_place s i second p (writing f a k) h = record {
    odd = h.odd;
    some_begun = h.some_begun;
    bounded = h.bounded;
    mine = h.mine;
    fresh = h.fresh;
    old = h.old;
  }
  moved_place s i second p (reading f a k out) h = h
  moved_place s i second p (returned f out) h = h

  pub moved-IsCache :
      (s : Threads format) (i second : ℕ) (p : Place)
      → IsCache format s
      → is_writing format p ≡ false
      → is_writing format (s.places i) ≡ false
      → IsPlace format s p
      → IsCache format (moved s i second p)
  moved-IsCache s i second p c e e' ok = record {
    genuine = c.genuine;
    quiet = λ h. c.quiet (λ j. sym (same j) ∙ h j);
    alone = λ a b ha hb. c.alone a b (sym (same a) ∙ ha) (sym (same b) ∙ hb);
    each =
        update_all (IsPlace format (moved s i second p)) s.places i p
          (λ j ne. moved_place s i second p (s.places j) (c.each j))
          (moved_place s i second p p ok);
  }
    where
      same : (j : ℕ) → is_writing format (update s.places i p j) ≡ is_writing format (s.places j)
      same = same_writing s i p (e ∙ sym e')

  -- An update begins.
  abbrev pub begins : Threads format → ℕ → Field → ℕ → Threads format
  begins s i f second = record {
    cache = record s.cache { seq = s.cache.seq + 1 };
    places = update s.places i (writing f second 0);
    begun = s.begun + 1;
    versions = update s.versions (s.begun + 1) (format second);
  }

  pub begins-IsCache :
      (s : Threads format) (i : ℕ) (f : Field) (second : ℕ)
      → IsCache format s
      → ((j : ℕ) → is_writing format (s.places j) ≡ false)
      → IsCache format (begins s i f second)
  unfolding IsPlace
  begins-IsCache s i f second c calm = record {
    genuine = λ v. elim (ℕ_discrete v (s.begun + 1)) [
      | yes e ↦ inr (
        second,
        λ k.
            ap (λ t. t k)
              (ap (update s.versions (s.begun + 1) (format second)) e
                ∙ update_self s.versions (s.begun + 1) (format second)),
      )
      | no ne ↦
          subst (λ t. ((k : ℕ) → t k ≡ 0) ⊎ ((sec : ℕ) × ((k : ℕ) → t k ≡ format sec k)))
            (sym (update_apart s.versions (s.begun + 1) v (format second) ne)) (c.genuine v)
    ];
    quiet = λ h. absurd (ground (arith, h i, mine));
    alone = λ a b ha hb. only a ha ∙ sym (only b hb);
    each =
        update_all (IsPlace format (begins s i f second)) s.places i (writing f second 0)
          (λ j ne.
            IsPlace-on format s (begins s i f second) (s.places j) (calm j) (omega arith)
              (omega arith)
              (λ v le.
                update_apart s.versions (s.begun + 1) v (format second)
                  (λ e. absurd (omega (arith, e))))
              (c.each j))
          (record {
            odd = omega (arith, (c.quiet calm).0);
            some_begun = omega arith;
            bounded = omega arith;
            mine = λ m. ap (λ t. t m) (update_self s.versions (s.begun + 1) (format second));
            fresh = λ m lt. absurd (omega arith);
            old = λ m lo hi.
                (c.quiet calm).1 m hi
                ∙ sym (
                    ap (λ t. t m)
                      (ap (update s.versions (s.begun + 1) (format second)) {y = s.begun}
                          (omega arith)
                        ∙ update_apart s.versions (s.begun + 1) s.begun (format second)
                            (λ e. absurd (omega (arith, e)))));
          });
  }
    where
      mine : is_writing format (update s.places i (writing f second 0) i) ≡ true
      mine = ap (is_writing format) (update_self s.places i (writing f second 0))

      only : (a : ℕ) → is_writing format (update s.places i (writing f second 0) a) ≡ true → a ≡ i
      only a h = elim (ℕ_discrete a i) [
        | yes e ↦ e
        | no ne ↦ absurd (
            ground (
              arith,
              h,
              calm a,
              ap (is_writing format) (update_apart s.places i a (writing f second 0) ne),
            ))
      ]

  -- A byte is copied into the cache.
  abbrev pub copies : Threads format → ℕ → Field → ℕ → ℕ → Threads format
  copies s i f second k = record s {
    cache = record s.cache { bytes = update s.cache.bytes k (format second k) };
    places = update s.places i (writing f second (k + 1));
  }

  pub copies-IsCache :
      (s : Threads format) (i : ℕ) (f : Field) (second k : ℕ)
      → IsCache format s
      → s.places i ≡ writing f second k
      → Written format s second k
      → k ≢ 36
      → IsCache format (copies s i f second k)
  unfolding IsPlace
  copies-IsCache s i f second k c e w ne = record {
    genuine = c.genuine;
    quiet = λ h. absurd (ground (arith, same i, h i, here));
    alone = λ a b ha hb. c.alone a b (sym (same a) ∙ ha) (sym (same b) ∙ hb);
    each =
        update_all (IsPlace format (copies s i f second k)) s.places i (writing f second (k + 1))
          (λ j apart.
            IsPlace-on format s (copies s i f second k) (s.places j)
              (others_read s i c here j apart) (omega arith) (omega arith) (λ v le. refl)
              (c.each j))
          (record {
            odd = w.odd;
            some_begun = w.some_begun;
            bounded = omega (arith, w.bounded, ne);
            mine = w.mine;
            fresh = λ m lt. elim (ℕ_discrete m k) [
              | yes t ↦
                  ap (update s.cache.bytes k (format second k)) t
                  ∙ update_self s.cache.bytes k (format second k)
                  ∙ sym (w.mine k)
                  ∙ ap (s.versions s.begun) (sym t)
              | no t ↦
                  update_apart s.cache.bytes k m (format second k) t ∙ w.fresh m (omega (arith, t))
            ];
            old = λ m lo hi.
                update_apart s.cache.bytes k m (format second k) (λ t. absurd (omega (arith, t)))
                ∙ w.old m (omega arith) hi;
          });
  }
    where
      here : is_writing format (s.places i) ≡ true
      here = ap (is_writing format) e

      same :
          (j : ℕ)
          → is_writing format (update s.places i (writing f second (k + 1)) j)
            ≡ is_writing format (s.places j)
      same = same_writing s i (writing f second (k + 1)) (sym here)

  -- An update ends.
  abbrev pub finishes : Threads format → ℕ → Field → Threads format
  finishes s i f = record s {
    cache = record s.cache { seq = s.cache.seq + 1 };
    places = update s.places i (waiting f);
  }

  pub finishes-IsCache :
      (s : Threads format) (i : ℕ) (f : Field) (second : ℕ)
      → IsCache format s
      → s.places i ≡ writing f second 36
      → Written format s second 36
      → IsCache format (finishes s i f)
  unfolding IsPlace
  finishes-IsCache s i f second c e w = record {
    genuine = c.genuine;
    quiet = λ h. (w.odd, λ k lt. w.fresh k lt);
    alone = λ a b ha hb. absurd (ground (arith, ha, none_writes a));
    each =
        update_all (IsPlace format (finishes s i f)) s.places i (waiting f)
          (λ j apart.
            IsPlace-on format s (finishes s i f) (s.places j) (others_read s i c here j apart)
              (omega arith) (omega arith) (λ v le. refl) (c.each j))
          tt;
  }
    where
      here : is_writing format (s.places i) ≡ true
      here = ap (is_writing format) e

      none_writes : (a : ℕ) → is_writing format (update s.places i (waiting f) a) ≡ false
      none_writes a = elim (ℕ_discrete a i) [
        | yes q ↦
            ap (is_writing format)
              (ap (update s.places i (waiting f)) q ∙ update_self s.places i (waiting f))
        | no ne ↦
            ap (is_writing format) (update_apart s.places i a (waiting f) ne)
            ∙ others_read s i c here a ne
      ]
