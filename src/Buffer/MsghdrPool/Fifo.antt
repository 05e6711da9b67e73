-- ===== src/Buffer/MsghdrPool/Fifo.antt =====
-- Who has each slot: it is free, or somebody holds it, and never both. Free slots are handed out in
-- the order in which they came back.
use uring_proactor.Base.{
  ltb, ◌==◌, if◌then◌else◌, lt→ltb, u32_mod, count, count-append, IsCapacity, ℕ, ◌+◌, ◌-◌, ◌<◌, ◌≡◌,
  refl, ap, ◌≢◌, ◌⊎◌, inl, inr, true, none, some, List, [], ◌∷◌, ◌++◌, arith,
}
use native.Mathlib.Decide.{ℕ_discrete}
use uring_proactor.Base.Pigeon.{length-lt}
use uring_proactor.Base.Ring.{size, front, advance, items, items-empty}
use uring_proactor.Base.Ring.Laws.{
  IsRing, size-zero_iff, push-IsRing, advance-IsRing, items-push, items-advance, length-items,
}
use uring_proactor.Buffer.MsghdrPool.{
  MsghdrPool, acquire_msghdr, clear_hdr, release_msghdr, release_msghdr_asserts,
}

abbrev pub free_slots : MsghdrPool → List ℕ
free_slots p = items u32_mod p.capacity p.free

-- `held a` says how many holders slot `a` has.
pub record IsMsghdrPool (held : ℕ → ℕ) (p : MsghdrPool) : Type 0 where
  pub is_capacity : IsCapacity p.capacity
  pub masked : p.mask ≡ p.capacity - 1
  pub queue : IsRing 32 p.capacity p.free
  pub once : (a : ℕ) → count a (free_slots p) + held a ≡ (if ltb a p.capacity then 1 else 0)

module _ {held : ℕ → ℕ} {p : MsghdrPool} (i : IsMsghdrPool held p) where
  first_free :
      0 < size u32_mod p.free
      → free_slots p ≡ front p.mask p.free ∷ items u32_mod p.capacity (advance u32_mod p.free)
  first_free h = rw i.masked (items-advance i.is_capacity 32 (omega arith) p.free i.queue h)

  slot_room : (slot : ℕ) → 0 < held slot → size u32_mod p.free < p.capacity
  slot_room slot own = omega (
    arith,
    length-items i.is_capacity 32 (omega arith) p.free,
    length-lt p.capacity (free_slots p) slot (λ a le. ground (arith, i.once a))
        (λ a. ground (arith, i.once a)) (ground (arith, i.once slot)) (ground (arith, i.once slot)),
  )

  free_slots-release :
      (slot : ℕ) → 0 < held slot → free_slots (release_msghdr p slot) ≡ free_slots p ++ (slot ∷ [])
  unfolding release_msghdr
  free_slots-release slot own =
      rw i.masked
        (items-push i.is_capacity 32 (omega arith) p.free i.queue slot (slot_room slot own))

  -- On a sound pool `acquire` gives null exactly where no slot is free, and then changes nothing. Else it hands out
  -- the oldest free slot, in range and held by nobody else, and changes no slot.
  pub acquire_msghdr_lem :
      ((free_slots p ≡ []) × (acquire_msghdr p ≡ (none, p)))
      ⊎ ((slot : ℕ) × (r : MsghdrPool) × (acquire_msghdr p ≡ (some slot, r))
          × (free_slots p ≡ slot ∷ free_slots r)
          × (slot < p.capacity)
          × (held slot ≡ 0)
          × (r.slots ≡ p.slots)
          × IsMsghdrPool (λ a. (if a == slot then 1 else 0) + held a) r)
  unfolding acquire_msghdr
  acquire_msghdr_lem = elim (ℕ_discrete (size u32_mod p.free) 0) [
    | yes none_free ↦ inl (
      items-empty u32_mod p.capacity p.free none_free,
      ground (arith, (size-zero_iff i.is_capacity 32 (omega arith) p.free i.queue).0 none_free),
    )
    | no ne ↦ inr (
      slot,
      record p { free = advance u32_mod p.free },
      ground (arith, ne, (size-zero_iff i.is_capacity 32 (omega arith) p.free i.queue).1),
      first_free (omega arith),
      ground (arith, split slot (omega arith), i.once slot),
      ground (arith, split slot (omega arith), i.once slot),
      refl,
      record {
        is_capacity = i.is_capacity;
        masked = i.masked;
        queue = advance-IsRing i.is_capacity 32 (omega arith) p.free i.queue (omega arith);
        once = λ a. omega (arith, split a (omega arith), i.once a);
      },
    )
  ]
    where
      slot : ℕ
      slot = front p.mask p.free

      split :
          (a : ℕ)
          → 0 < size u32_mod p.free
          → count a (free_slots p)
            ≡ (if a == front p.mask p.free then 1 else 0)
              + count a (items u32_mod p.capacity (advance u32_mod p.free))
      split a h = ap (count a) (first_free h)

  -- On a sound pool `release` of a held slot meets its assertion; the slot comes back behind the other free slots,
  -- with a header that names the slot's own address and no data, and its holder no longer has it.
  -- No other slot changes.
  pub release_msghdr_lem :
      (slot : ℕ)
      → 0 < held slot
      → (release_msghdr_asserts p ≡ true)
        × (free_slots (release_msghdr p slot) ≡ free_slots p ++ (slot ∷ []))
        × (((release_msghdr p slot).slots slot).hdr ≡ clear_hdr p.storage_size)
        × ((a : ℕ) → a ≢ slot → (release_msghdr p slot).slots a ≡ p.slots a)
        × IsMsghdrPool (λ a. held a - (if a == slot then 1 else 0)) (release_msghdr p slot)
  release_msghdr_lem slot own = (
    lt→ltb (size u32_mod p.free) p.capacity (slot_room slot own),
    free_slots-release slot own,
    cleared,
    λ a ne. others a ne,
    record {
      is_capacity = unfold release_msghdr in i.is_capacity;
      masked = unfold release_msghdr in i.masked;
      queue =
          unfold release_msghdr in
          rw i.masked
            (push-IsRing i.is_capacity 32 (omega arith) p.free i.queue slot (slot_room slot own));
      once = λ a. unfold release_msghdr in ground (arith, i.once a, i.once slot, now_free a);
    },
  )
    where
      cleared : ((release_msghdr p slot).slots slot).hdr ≡ clear_hdr p.storage_size
      cleared = unfold release_msghdr in ground arith

      others : (a : ℕ) → a ≢ slot → (release_msghdr p slot).slots a ≡ p.slots a
      others a ne = unfold release_msghdr in ground arith

      now_free :
          (a : ℕ)
          → count a (free_slots (release_msghdr p slot))
            ≡ count a (free_slots p) + (if a == slot then 1 else 0)
      now_free a = omega (
        arith,
        ap (count a) (free_slots-release slot own),
        count-append a (free_slots p) (slot ∷ []),
      )
