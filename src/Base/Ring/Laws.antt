-- ===== src/Base/Ring/Laws.antt =====
-- The circular queue's operations on the list that it holds, counters wrapping included.
use native.Mathlib.Nat.{pow-le-pow_right}
use native.Mathlib.Numerals.{add-one}
use uring_proactor.Base.{
  add_word, sub_word, mod-cases, sub_word_cases, next_cases, sub_word-lt, length, update, last?,
  last?-snoc, IsCapacity, capacity_pos, capacity-le, bit_and_mask, mod_wrap, ℕ, ◌+◌, ◌-◌, ◌%◌, ◌^◌,
  ◌≤◌, ◌<◌, bit_and, ◌≡◌, sym, ap, ap₂, ◌∙◌, ◌↔◌, ◌⊎◌, inl, inr, some, [], ◌∷◌, ◌++◌, arith,
}
use uring_proactor.Base.Ring.{
  Ring, size, push, front, advance, back, retreat, window, items, length-window, window_place,
  window-snoc, window-update,
}

-- Counters within their type, and no more entries than the array has places.
pub record IsRing (w cap : ℕ) (r : Ring) : Type 0 where
  pub head_in : r.head < 2 ^ w
  pub tail_in : r.tail < 2 ^ w
  pub fits : size (2 ^ w) r ≤ cap

module _ {cap : ℕ} (c : IsCapacity cap) (w : ℕ) (wide : 31 ≤ w) where
  room : cap + cap ≤ 2 ^ w
  room = omega (arith, capacity-le c, pow-le-pow_right {n = 2} (omega arith) wide)

  -- What the counters and the number of entries have to do with one another.
  pub size_cases :
      (r : Ring)
      → IsRing w cap r
      → ((r.head ≤ r.tail) × (size (2 ^ w) r + r.head ≡ r.tail))
        ⊎ ((r.tail < r.head) × (size (2 ^ w) r + r.head ≡ r.tail + 2 ^ w))
  unfolding size
  size_cases r i = sub_word_cases (2 ^ w) r.tail r.head i.tail_in i.head_in

  pub tail-size : (r : Ring) → IsRing w cap r → (r.head + size (2 ^ w) r) % 2 ^ w ≡ r.tail
  tail-size r i = elim (mod-cases (r.head + size (2 ^ w) r) (2 ^ w) (omega (arith, i, room))) [
    | inl (_, q) ↦ omega (arith, size_cases r i, i)
    | inr (_, q) ↦ omega (arith, size_cases r i, i)
  ]

  pub tail_place : (r : Ring) → IsRing w cap r → r.tail % cap ≡ (r.head + size (2 ^ w) r) % cap
  tail_place r i =
      ap (λ t. t % cap) (sym (tail-size r i)) ∙ mod_wrap c w (r.head + size (2 ^ w) r) (omega arith)

  -- Empty is `head_ == tail_`.
  pub size-zero_iff : (r : Ring) → IsRing w cap r → (size (2 ^ w) r ≡ 0) ↔ (r.head ≡ r.tail)
  unfolding size
  size-zero_iff r i = (λ e. omega (arith, size_cases r i), λ e. omega (arith, size_cases r i, i))

  module _ (r : Ring) (i : IsRing w cap r) where
    next_in : (x : ℕ) → x < 2 ^ w → add_word (2 ^ w) x 1 < 2 ^ w
    next_in x h = omega (arith, next_cases (2 ^ w) x h)

    -- `tail_++`
    pub size-push :
        (v : ℕ)
        → size (2 ^ w) r < cap
        → size (2 ^ w) (push (2 ^ w) (cap - 1) r v) ≡ size (2 ^ w) r + 1
    unfolding size push
    size-push v free = omega (
      arith,
      room,
      size_cases r i,
      next_cases (2 ^ w) r.tail i.tail_in,
      sub_word_cases (2 ^ w) (add_word (2 ^ w) r.tail 1) r.head (next_in r.tail i.tail_in)
          i.head_in,
    )

    -- `head_++`
    pub size-advance : 0 < size (2 ^ w) r → size (2 ^ w) (advance (2 ^ w) r) + 1 ≡ size (2 ^ w) r
    unfolding size advance
    size-advance some_left = omega (
      arith,
      room,
      i.fits,
      size_cases r i,
      next_cases (2 ^ w) r.head i.head_in,
      sub_word_cases (2 ^ w) r.tail (add_word (2 ^ w) r.head 1) i.tail_in
          (next_in r.head i.head_in),
    )

    pub push-IsRing : (v : ℕ) → size (2 ^ w) r < cap → IsRing w cap (push (2 ^ w) (cap - 1) r v)
    unfolding push
    push-IsRing v free = record {
      head_in = i.head_in;
      tail_in = next_in r.tail i.tail_in;
      fits = omega (arith, size-push v free);
    }

    pub advance-IsRing : 0 < size (2 ^ w) r → IsRing w cap (advance (2 ^ w) r)
    unfolding advance
    advance-IsRing some_left = record {
      head_in = next_in r.head i.head_in;
      tail_in = i.tail_in;
      fits = omega (arith, size-advance some_left, i.fits);
    }

    -- A push appends.
    pub items-push :
        (v : ℕ)
        → size (2 ^ w) r < cap
        → items (2 ^ w) cap (push (2 ^ w) (cap - 1) r v) ≡ items (2 ^ w) cap r ++ (v ∷ [])
    unfolding items push
    items-push v free =
        ap (window slots' cap r.head) (size-push v free ∙ add-one n)
        ∙ window-snoc slots' cap r.head n
        ∙ ap₂ (λ xs y. xs ++ (y ∷ [])) before last
      where
        n : ℕ
        n = size (2 ^ w) r

        slots' : ℕ → ℕ
        slots' = update r.slots (bit_and r.tail (cap - 1)) v

        place : bit_and r.tail (cap - 1) ≡ (r.head + n) % cap
        place = bit_and_mask c r.tail ∙ tail_place r i

        before : window slots' cap r.head n ≡ window r.slots cap r.head n
        before = rw place (window-update r.slots cap r.head n n v (omega arith) free)

        last : slots' ((r.head + n) % cap) ≡ v
        last = ground (arith, place)

    -- The front is the oldest entry, and `head_++` drops it.
    pub items-advance :
        0 < size (2 ^ w) r
        → items (2 ^ w) cap r ≡ front (cap - 1) r ∷ items (2 ^ w) cap (advance (2 ^ w) r)
    unfolding items advance front
    items-advance some_left =
        ap (window r.slots cap r.head) (sym (size-advance some_left) ∙ add-one rest)
        ∙ ap₂ ◌∷◌ (ap r.slots (sym (bit_and_mask c r.head))) (
            window_place r.slots cap (r.head + 1) (add_word (2 ^ w) r.head 1) rest
              (sym (mod_wrap c w (r.head + 1) (omega arith))))
      where
        rest : ℕ
        rest = size (2 ^ w) (advance (2 ^ w) r)

    pub size-retreat : 0 < size (2 ^ w) r → size (2 ^ w) (retreat (2 ^ w) r) + 1 ≡ size (2 ^ w) r
    unfolding size retreat
    size-retreat some_left = omega (
      arith,
      room,
      i.fits,
      i.head_in,
      i.tail_in,
      size_cases r i,
      sub_word_cases (2 ^ w) r.tail 1 i.tail_in (omega (arith, room, capacity_pos c)),
      sub_word_cases (2 ^ w) (sub_word (2 ^ w) r.tail 1) r.head prev_in i.head_in,
    )
      where
        prev_in : sub_word (2 ^ w) r.tail 1 < 2 ^ w
        prev_in = sub_word-lt (2 ^ w) r.tail 1 (omega (arith, room, capacity_pos c))

    pub retreat-IsRing : 0 < size (2 ^ w) r → IsRing w cap (retreat (2 ^ w) r)
    unfolding retreat
    retreat-IsRing some_left = record {
      head_in = i.head_in;
      tail_in = sub_word-lt (2 ^ w) r.tail 1 (omega (arith, room, capacity_pos c));
      fits = omega (arith, size-retreat some_left, i.fits);
    }

  -- The back is the newest entry, and `--tail_` drops it.
  pub items-retreat :
      (r : Ring) (i : IsRing w cap r)
      → 0 < size (2 ^ w) r
      → items (2 ^ w) cap r
        ≡ items (2 ^ w) cap (retreat (2 ^ w) r) ++ (back (2 ^ w) (cap - 1) r ∷ [])
  unfolding items retreat back
  items-retreat r i some_left =
      ap (window r.slots cap r.head) (sym (size-retreat r i some_left) ∙ add-one rest)
      ∙ window-snoc r.slots cap r.head rest
      ∙ ap (λ t. window r.slots cap r.head rest ++ (r.slots t ∷ [])) (sym place)
    where
      rest : ℕ
      rest = size (2 ^ w) (retreat (2 ^ w) r)

      place : bit_and (sub_word (2 ^ w) r.tail 1) (cap - 1) ≡ (r.head + rest) % cap
      place =
          bit_and_mask c (sub_word (2 ^ w) r.tail 1)
          ∙ tail_place (retreat (2 ^ w) r) (retreat-IsRing r i some_left)

  -- In any array, the place of the back is the last one of the window.
  pub last?-window :
      (f : ℕ → ℕ) (r : Ring) (i : IsRing w cap r)
      → 0 < size (2 ^ w) r
      → last? (window f cap r.head (size (2 ^ w) r))
        ≡ some (f (bit_and (sub_word (2 ^ w) r.tail 1) (cap - 1)))
  unfolding items size back retreat
  last?-window f r i some_left =
      ap last? (items-retreat (record r { slots = f }) there some_left)
      ∙ last?-snoc (items (2 ^ w) cap (retreat (2 ^ w) (record r { slots = f })))
          (f (bit_and (sub_word (2 ^ w) r.tail 1) (cap - 1)))
    where
      there : IsRing w cap (record r { slots = f })
      there = record { head_in = i.head_in; tail_in = i.tail_in; fits = i.fits }

  pub length-items : (r : Ring) → length (items (2 ^ w) cap r) ≡ size (2 ^ w) r
  unfolding items
  length-items r = length-window r.slots cap r.head (size (2 ^ w) r)

  -- A push leaves the entries from the head on, as many as there were.
  pub window-push :
      (r : Ring) (v n : ℕ) (i : IsRing w cap r)
      → n ≤ size (2 ^ w) r
      → size (2 ^ w) r < cap
      → window (push (2 ^ w) (cap - 1) r v).slots cap r.head n ≡ window r.slots cap r.head n
  unfolding push
  window-push r v n i le free =
      rw (bit_and_mask c r.tail ∙ tail_place r i)
        (window-update r.slots cap r.head n (size (2 ^ w) r) v le free)

  -- What was pushed is at the back.
  pub back-push :
      (r : Ring) (v : ℕ) → IsRing w cap r → back (2 ^ w) (cap - 1) (push (2 ^ w) (cap - 1) r v) ≡ v
  unfolding back push
  back-push r v i = ground (arith, again)
    where
      next_in' : add_word (2 ^ w) r.tail 1 < 2 ^ w
      next_in' = omega (arith, next_cases (2 ^ w) r.tail i.tail_in, room)

      again : sub_word (2 ^ w) (add_word (2 ^ w) r.tail 1) 1 ≡ r.tail
      again = omega (
        arith,
        i.tail_in,
        room,
        capacity_pos c,
        next_cases (2 ^ w) r.tail i.tail_in,
        sub_word_cases (2 ^ w) (add_word (2 ^ w) r.tail 1) 1 next_in'
            (omega (arith, room, capacity_pos c)),
      )
