-- ===== src/Buffer/BufPool/Fifo.antt =====
-- `acquire`, `release` and the release by an address, as their callers see them: free blocks are
-- handed out in the order in which they came back.
use native.Mathlib.Nat.{mod-eq_of_lt, le-div_iff_mul-le, div-lt_iff_lt-mul}
use uring_proactor.Base.{
  ◌==◌, if◌then◌else◌, lt→ltb, u32_mod, capacity-le, ℕ, ◌+◌, ◌-◌, ◌*◌, ◌/◌, ◌%◌, ◌<◌, ◌≡◌, refl, ap,
  ◌∙◌, ◌⊎◌, inl, inr, true, [], ◌∷◌, ◌++◌, arith,
}
use native.Mathlib.Decide.{ℕ_discrete}
use uring_proactor.Base.Ring.{size, front, advance, items-empty}
use uring_proactor.Buffer.BufPool.{
  BufPool, invalid_idx, buf_addr, acquire, release, release_asserts, release_addr,
}
use uring_proactor.Buffer.BufPool.Blocks.{block_in}
use uring_proactor.Buffer.BufPool.Invariant.{
  free_list, IsPool, acquire-empty, acquire-some, free_list-advance, front-lt, front_unheld,
  front_clean, acquire-IsPool, release_room, free_list-release, release-IsPool,
}

quotient : (idx k n : ℕ) → k < n → (idx * n + k) / n ≡ idx
quotient idx k n h = omega (
  arith,
  (le-div_iff_mul-le {k = n} {x = idx} {y = idx * n + k} (omega arith)).1 (omega arith),
  (div-lt_iff_lt-mul {k = n} {x = idx * n + k} {y = idx + 1} (omega arith)).1 below,
)
  where
    below : idx * n + k < (idx + 1) * n
    below = grind arith

module _ {held : ℕ → ℕ} {p : BufPool} (i : IsPool held p) where
  -- On a sound pool `acquire` refuses exactly where no block is free, and then changes nothing. Else it hands out
  -- the oldest free block, which is in range, empty and held by nobody else.
  pub acquire_lem :
      ((free_list p ≡ []) × (acquire p ≡ (invalid_idx, p)))
      ⊎ ((idx : ℕ) × (r : BufPool) × (acquire p ≡ (idx, r))
          × (free_list p ≡ idx ∷ free_list r)
          × (idx < p.buf_num)
          × (held idx ≡ 0)
          × (r.data_size idx ≡ 0)
          × IsPool (λ a. (if a == idx then 1 else 0) + held a) r)
  acquire_lem = elim (ℕ_discrete (size u32_mod p.free) 0) [
    | yes none_free ↦
        inl (items-empty u32_mod p.buf_num p.free none_free, acquire-empty i none_free)
    | no ne ↦ inr (
      front p.mask p.free,
      record p { free = advance u32_mod p.free },
      acquire-some i (omega arith),
      free_list-advance i (omega arith),
      front-lt i (omega arith),
      front_unheld i (omega arith),
      front_clean i (omega arith),
      acquire-IsPool i _ (omega arith) (λ a. refl),
    )
  ]

  -- On a sound pool `release` of a held block meets its assertion; the block comes back empty, behind the other
  -- free blocks, and its holder no longer has it.
  pub release_lem :
      (idx : ℕ)
      → 0 < held idx
      → (release_asserts p ≡ true)
        × (free_list (release p idx) ≡ free_list p ++ (idx ∷ []))
        × ((release p idx).data_size idx ≡ 0)
        × IsPool (λ a. held a - (if a == idx then 1 else 0)) (release p idx)
  release_lem idx own = (
    lt→ltb _ _ (release_room i idx own),
    free_list-release i idx own,
    unfold release in ground arith,
    release-IsPool i idx _ (λ a. ground arith),
  )

  -- On a sound pool an address inside a block in range gives that block back, so the release by an address is the
  -- release of the block.
  pub release_addr_lem :
      (idx k : ℕ)
      → idx < p.buf_num
      → k < p.buf_size
      → release_addr p (buf_addr p idx + k) ≡ release p idx
  unfolding release_addr
  release_addr_lem idx k lt small = ap (release p) (
      ap (λ a. (a + k) / p.buf_size % u32_mod)
        (mod-eq_of_lt (omega (arith, block_in i idx lt, i.allocated)))
      ∙ ap (λ q. q % u32_mod) (quotient idx k p.buf_size small)
      ∙ mod-eq_of_lt (omega (arith, lt, capacity-le i.capacity)))
