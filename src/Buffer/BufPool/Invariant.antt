-- ===== src/Buffer/BufPool/Invariant.antt =====
-- Who has each block of a pool: it is free, or somebody holds it, and never both.
use uring_proactor.Base.{
  ltb, ◌==◌, if◌then◌else◌, u32_mod, count, count-append, IsCapacity, ℕ, ◌+◌, ◌-◌, ◌*◌, ◌^◌, ◌≤◌,
  ◌<◌, ◌≡◌, ap, List, [], ◌∷◌, ◌++◌, arith,
}
use uring_proactor.Base.Ring.{size, front, advance, items}
use uring_proactor.Base.Ring.Laws.{
  IsRing, size-zero_iff, push-IsRing, advance-IsRing, items-push, items-advance, length-items,
}
use uring_proactor.Buffer.BufPool.{BufPool, invalid_idx, set_data_size, acquire, release}
use uring_proactor.Base.Pigeon.{length-lt}

abbrev pub free_list : BufPool → List ℕ
free_list p = items u32_mod p.buf_num p.free

-- `held a` says how many holders block `a` has outside the free queue.
pub record IsPool (held : ℕ → ℕ) (p : BufPool) : Type 0 where
  pub capacity : IsCapacity p.buf_num
  pub masked : p.mask ≡ p.buf_num - 1
  pub sized : 0 < p.buf_size
  pub allocated : p.buf_num * p.buf_size ≤ 2 ^ 31
  pub queue : IsRing 32 p.buf_num p.free
  pub once : (a : ℕ) → count a (free_list p) + held a ≡ (if ltb a p.buf_num then 1 else 0)
  pub clean : (a : ℕ) → 0 < count a (free_list p) → p.data_size a ≡ 0
  pub filled : (a : ℕ) → a < p.buf_num → p.data_size a ≤ p.buf_size

-- `held'` is `held` with one more holder of `idx`.
abbrev pub Gains : (ℕ → ℕ) → ℕ → (ℕ → ℕ) → Type 0
Gains held idx held' = (a : ℕ) → held' a ≡ (if a == idx then 1 else 0) + held a

module _ {held : ℕ → ℕ} {p : BufPool} (i : IsPool held p) where
  pub acquire-empty : size u32_mod p.free ≡ 0 → acquire p ≡ (invalid_idx, p)
  unfolding acquire
  acquire-empty e = ground (arith, (size-zero_iff i.capacity 32 (omega arith) p.free i.queue).0 e)

  pub acquire-some :
      0 < size u32_mod p.free
      → acquire p ≡ (front p.mask p.free, record p { free = advance u32_mod p.free })
  unfolding acquire
  acquire-some h = ground (arith, (size-zero_iff i.capacity 32 (omega arith) p.free i.queue).1)

  pub free_list-advance :
      0 < size u32_mod p.free
      → free_list p ≡ front p.mask p.free ∷ items u32_mod p.buf_num (advance u32_mod p.free)
  free_list-advance h = rw i.masked (items-advance i.capacity 32 (omega arith) p.free i.queue h)

  -- The block handed out, and what is left free.
  count-advance :
      (a : ℕ)
      → 0 < size u32_mod p.free
      → count a (free_list p)
        ≡ (if a == front p.mask p.free then 1 else 0)
          + count a (items u32_mod p.buf_num (advance u32_mod p.free))
  count-advance a h = ap (count a) (free_list-advance h)

  pub front-lt : 0 < size u32_mod p.free → front p.mask p.free < p.buf_num
  front-lt h = ground (arith, count-advance (front p.mask p.free) h, i.once (front p.mask p.free))

  pub front_unheld : 0 < size u32_mod p.free → held (front p.mask p.free) ≡ 0
  front_unheld h =
      ground (arith, count-advance (front p.mask p.free) h, i.once (front p.mask p.free))

  pub front_clean : 0 < size u32_mod p.free → p.data_size (front p.mask p.free) ≡ 0
  front_clean h =
      i.clean (front p.mask p.free) (ground (arith, count-advance (front p.mask p.free) h))

  -- `acquire` moves the oldest free block to its caller.
  pub acquire-IsPool :
      (held' : ℕ → ℕ)
      → 0 < size u32_mod p.free
      → Gains held (front p.mask p.free) held'
      → IsPool held' (record p { free = advance u32_mod p.free })
  acquire-IsPool held' h gain = record {
    capacity = i.capacity;
    masked = i.masked;
    sized = i.sized;
    allocated = i.allocated;
    queue = advance-IsRing i.capacity 32 (omega arith) p.free i.queue h;
    once = λ a. omega (arith, count-advance a h, i.once a, gain a);
    clean = λ a free. i.clean a (omega (arith, count-advance a h));
    filled = i.filled;
  }

  -- A held block is missing from the free queue, so that has room: `release` asserts it.
  pub release_room : (idx : ℕ) → 0 < held idx → size u32_mod p.free < p.buf_num
  release_room idx h = omega (
    arith,
    length-items i.capacity 32 (omega arith) p.free,
    length-lt p.buf_num (free_list p) idx (λ a le. ground (arith, i.once a))
        (λ a. ground (arith, i.once a)) (ground (arith, i.once idx)) (ground (arith, i.once idx)),
  )

  pub held-lt : (idx : ℕ) → 0 < held idx → idx < p.buf_num
  held-lt idx h = ground (arith, i.once idx)

  pub free_list-release :
      (idx : ℕ) → 0 < held idx → free_list (release p idx) ≡ free_list p ++ (idx ∷ [])
  unfolding release
  free_list-release idx h =
      rw i.masked (items-push i.capacity 32 (omega arith) p.free i.queue idx (release_room idx h))

  -- `release` takes a held block back, empty, behind all the others.
  pub release-IsPool :
      (idx : ℕ) (held' : ℕ → ℕ) → Gains held' idx held → IsPool held' (release p idx)
  unfolding release
  release-IsPool idx held' gain = record {
    capacity = i.capacity;
    masked = i.masked;
    sized = i.sized;
    allocated = i.allocated;
    queue =
        rw i.masked
          (push-IsRing i.capacity 32 (omega arith) p.free i.queue idx (release_room idx one));
    once = λ a. ground (arith, i.once a, gain a, now_free a);
    clean = λ a free. ground (arith, i.clean a, now_free a);
    filled = λ a lt. ground (arith, i.filled a lt);
  }
    where
      one : 0 < held idx
      one = ground (arith, gain idx)

      now_free :
          (a : ℕ)
          → count a (free_list (release p idx))
            ≡ count a (free_list p) + (if a == idx then 1 else 0)
      now_free a =
          omega (
            arith,
            ap (count a) (free_list-release idx one),
            count-append a (free_list p) (idx ∷ []),
          )

  -- Who holds what matters only block by block.
  pub IsPool-ext : {held' : ℕ → ℕ} → ((a : ℕ) → held' a ≡ held a) → IsPool held' p
  IsPool-ext same = record {
    capacity = i.capacity;
    masked = i.masked;
    sized = i.sized;
    allocated = i.allocated;
    queue = i.queue;
    once = λ a. omega (arith, i.once a, same a);
    clean = i.clean;
    filled = i.filled;
  }

  -- `set_data_size` of a held block.
  pub resize-IsPool :
      (idx n : ℕ) → 0 < held idx → n ≤ p.buf_size → IsPool held (set_data_size p idx n)
  resize-IsPool idx n own fits = record {
    capacity = i.capacity;
    masked = i.masked;
    sized = i.sized;
    allocated = i.allocated;
    queue = i.queue;
    once = i.once;
    clean = λ a free. ground (arith, i.clean a free, i.once a);
    filled = λ a lt. ground (arith, i.filled a lt);
  }
