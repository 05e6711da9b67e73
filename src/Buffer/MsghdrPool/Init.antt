-- ===== src/Buffer/MsghdrPool/Init.antt =====
-- The constructor of MsghdrPool: what its loop leaves behind.
use uring_proactor.Base.{
  ltb, leb, if◌then◌else◌, u32_mod, sub_word, sub_word_cases, update, rows, count, update_apart,
  update_self, IsCapacity, capacity-le, ℕ, zero, suc, ◌+◌, ◌-◌, ◌≤◌, ◌<◌, ◌≡◌, refl, sym, ap, ap₂,
  subst, ◌∙◌, ◌&&◌, ◌∷◌, arith,
}
use native.Mathlib.Nat.{mod-eq_of_lt}
use native.Mathlib.Decide.{ℕ_discrete}
use native.Mathlib.Numerals.{add-one}
use uring_proactor.Base.Ring.{size, window, items}
use uring_proactor.Buffer.MsghdrPool.{
  MsghdrSlot, MsghdrPool, clear_hdr, clear_slot, init_slots, init_msghdrs,
}
use uring_proactor.Buffer.MsghdrPool.Fifo.{free_slots, IsMsghdrPool}

-- What the loop has done from slot `i` on.
record Filled (n i : ℕ) (p r : MsghdrPool) : Type 0 where
  entered : (a : ℕ) → i ≤ a → a < i + n → r.free.slots a ≡ a
  cleared : (a : ℕ) → i ≤ a → a < i + n → (r.slots a).hdr ≡ clear_hdr p.storage_size
  kept : (a : ℕ) → a < i → (r.free.slots a ≡ p.free.slots a) × (r.slots a ≡ p.slots a)
  same_capacity : r.capacity ≡ p.capacity
  same_mask : r.mask ≡ p.mask
  same_head : r.free.head ≡ p.free.head

init_slots-Filled : (n i : ℕ) (p : MsghdrPool) → Filled n i p (init_slots n i p)
unfolding init_slots
init_slots-Filled zero i p = record {
  entered = λ a h lt. absurd (omega arith);
  cleared = λ a h lt. absurd (omega arith);
  kept = λ a h. (refl, refl);
  same_capacity = refl;
  same_mask = refl;
  same_head = refl;
}
init_slots-Filled (suc n) i p =
    let p' : MsghdrPool = record p {
      slots = update p.slots i (clear_slot p (p.slots i));
      free = record p.free { slots = update p.free.slots i i };
    } in
    let rest = init_slots-Filled n (i + 1) p' in
    record {
      entered = λ a h lt. elim (ℕ_discrete a i) [
        | yes e ↦
            (rest.kept a (omega arith)).0
            ∙ ap p'.free.slots e
            ∙ update_self p.free.slots i i
            ∙ sym e
        | no ne ↦ rest.entered a (omega arith) (omega arith)
      ];
      cleared = λ a h lt. elim (ℕ_discrete a i) [
        | yes e ↦
            ap (λ s. s.hdr)
              ((rest.kept a (omega arith)).1
                ∙ ap p'.slots e
                ∙ update_self p.slots i (clear_slot p (p.slots i)))
        | no ne ↦ rest.cleared a (omega arith) (omega arith)
      ];
      kept = λ a h. (
        (rest.kept a (omega arith)).0
            ∙ update_apart p.free.slots i a i (λ e. absurd (omega (arith, e))),
        (rest.kept a (omega arith)).1
            ∙ update_apart p.slots i a (clear_slot p (p.slots i)) (λ e. absurd (omega (arith, e))),
      );
      same_capacity = rest.same_capacity;
      same_mask = rest.same_mask;
      same_head = rest.same_head;
    }

window-rows :
    (f : ℕ → ℕ) (cap h n : ℕ)
    → h + n ≤ cap
    → ((a : ℕ) → h ≤ a → a < h + n → f a ≡ a)
    → window f cap h n ≡ rows (λ a. a) h n
window-rows f c h zero le e = refl
window-rows f c h (suc n) le e =
    ap₂ ◌∷◌ (ap f (mod-eq_of_lt {n = h} {m = c} (omega arith)) ∙ e h (omega arith) (omega arith)) (
      window-rows f c (h + 1) n (omega arith) (λ a ge lt. e a (omega arith) (omega arith))
      ∙ ap (λ k. rows (λ a. a) k n) (add-one h))

count-rows : (a i n : ℕ) → count a (rows (λ k. k) i n) ≡ (if leb i a && ltb a (i + n) then 1 else 0)
count-rows a i zero = ground arith
count-rows a i (suc n) = ground (arith, count-rows a (suc i) n)

module _ (n max_iov storage : ℕ) (slots : ℕ → MsghdrSlot) (queue : ℕ → ℕ) (c : IsCapacity n) where
  abbrev blank : MsghdrPool
  blank = record {
    capacity = n;
    mask = n - 1;
    max_iov = max_iov;
    storage_size = storage;
    slots = slots;
    free = record { slots = queue; head = 0; tail = 0 };
  }

  filled : Filled n 0 blank (init_slots n 0 blank)
  filled = init_slots-Filled n 0 blank

  size-init : size u32_mod (init_msghdrs n max_iov storage slots queue).free ≡ n
  unfolding init_msghdrs size
  size-init =
      ap (λ h. sub_word u32_mod n h) filled.same_head
      ∙ omega (
        arith,
        capacity-le c,
        sub_word_cases u32_mod n 0 (omega (arith, capacity-le c)) (omega arith),
      )

  free_slots-init : free_slots (init_msghdrs n max_iov storage slots queue) ≡ rows (λ a. a) 0 n
  unfolding init_msghdrs items
  free_slots-init =
      ap (window r.free.slots r.capacity r.free.head) size-init
      ∙ ap₂ (λ cap h. window r.free.slots cap h n) filled.same_capacity filled.same_head
      ∙ window-rows r.free.slots n 0 n (omega arith)
          (λ a h lt. filled.entered a (omega arith) (omega arith))
    where
      r : MsghdrPool
      r = init_msghdrs n max_iov storage slots queue

  -- For a number of slots that is a power of two up to 2 ^ 30 the constructor leaves a sound pool that
  -- nobody holds a slot of: every slot is free, in the order of the indices, with a cleared header.
  init_msghdrs-IsMsghdrPool :
      (free_slots (init_msghdrs n max_iov storage slots queue) ≡ rows (λ a. a) 0 n)
      × IsMsghdrPool (λ _. 0) (init_msghdrs n max_iov storage slots queue)
      × ((a : ℕ)
          → a < n
          → ((init_msghdrs n max_iov storage slots queue).slots a).hdr ≡ clear_hdr storage)
  unfolding init_msghdrs
  init_msghdrs-IsMsghdrPool = (
    free_slots-init,
    record {
      is_capacity = subst IsCapacity (sym filled.same_capacity) c;
      masked = filled.same_mask ∙ ap (λ k. k - 1) (sym filled.same_capacity);
      queue = record {
        head_in = omega (arith, filled.same_head);
        tail_in = omega (arith, capacity-le c);
        fits = omega (arith, size-init, filled.same_capacity);
      };
      once =
          λ a. ground (arith, ap (count a) free_slots-init, count-rows a 0 n, filled.same_capacity);
    },
    λ a lt. filled.cleared a (omega arith) (omega arith),
  )
