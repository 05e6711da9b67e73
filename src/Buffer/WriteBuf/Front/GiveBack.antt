-- ===== src/Buffer/WriteBuf/Front/GiveBack.antt =====
-- The inner loop of `prepend` (src/buffer/buffer.cpp), which gives its blocks back where it fails.
use uring_proactor.Base.{
  ◌%◌, u64_mod, add_word, bit_and, sym, count, IsCapacity, capacity-le, bit_and_mask, mod_wrap, ℕ,
  zero, suc, ◌+◌, ◌-◌, ◌<◌, ◌≡◌, refl, ap, ◌∙◌, ◌≢◌, arith,
}
use uring_proactor.Base.Ring.{window, window_place}
use uring_proactor.Buffer.BufPool.{release}
use uring_proactor.Buffer.BufPool.Invariant.{IsPool, IsPool-ext, Gains, release-IsPool}
use uring_proactor.Buffer.WriteBuf.{Writer, release_front}

-- What a loop that gives blocks back leaves. `behind` are the holders of all other blocks.
pub record GivenBack (behind : ℕ → ℕ) (s r : Writer) : Type 0 where
  pub pool : IsPool behind r.pool
  pub same_pending : r.pending ≡ s.pending
  pub same_send : r.send ≡ s.send
  pub same_capacity : r.capacity ≡ s.capacity
  pub same_mask : r.mask ≡ s.mask
  pub same_bufs : r.pool.bufs ≡ s.pool.bufs
  pub same_size : r.pool.buf_size ≡ s.pool.buf_size
  pub sizes : (a : ℕ) → 0 < behind a → r.pool.data_size a ≡ s.pool.data_size a

-- The holders of blocks, those in `n` places from `j` on among them.
abbrev from_place : (ℕ → ℕ) → ℕ → ℕ → Writer → ℕ → ℕ
from_place behind n j s a = count a (window s.pending.slots s.capacity j n) + behind a

-- One round: the block at place `j` goes back.
abbrev one_back : ℕ → Writer → Writer
one_back j s = record s { pool = release s.pool (s.pending.slots (bit_and j s.mask)) }

module _ (behind : ℕ → ℕ) (n j : ℕ) (s : Writer) (c : IsCapacity s.capacity)
    (masked : s.mask ≡ s.capacity - 1) (i : IsPool (from_place behind (suc n) j s) s.pool) where
  gains :
      Gains
        (from_place behind n (add_word u64_mod j 1) s)
        (s.pending.slots (bit_and j s.mask))
        (from_place behind (suc n) j s)
  gains a = ground (arith, ap (count a) moved, place)
    where
      place : s.pending.slots (bit_and j s.mask) ≡ s.pending.slots (j % s.capacity)
      place = ap s.pending.slots (ap (bit_and j) masked ∙ bit_and_mask c j)

      moved :
          window s.pending.slots s.capacity (j + 1) n
          ≡ window s.pending.slots s.capacity (add_word u64_mod j 1) n
      moved =
          window_place s.pending.slots s.capacity (j + 1) (add_word u64_mod j 1) n
            (sym (mod_wrap c 64 (j + 1) (omega (arith, capacity-le c))))

  next-IsPool : IsPool (from_place behind n (add_word u64_mod j 1) s) (one_back j s).pool
  next-IsPool =
      release-IsPool i (s.pending.slots (bit_and j s.mask))
        (from_place behind n (add_word u64_mod j 1) s) gains

  untouched : (a : ℕ) → 0 < behind a → (one_back j s).pool.data_size a ≡ s.pool.data_size a
  unfolding release
  untouched a own = ground (arith, apart)
    where
      apart : a ≢ s.pending.slots (bit_and j s.mask)
      apart e = ground (arith, gains a, i.once a)

  next-GivenBack : {r : Writer} → GivenBack behind (one_back j s) r → GivenBack behind s r
  next-GivenBack rest = record {
    pool = rest.pool;
    same_pending = rest.same_pending;
    same_send = rest.same_send;
    same_capacity = rest.same_capacity;
    same_mask = rest.same_mask;
    same_bufs = rest.same_bufs ∙ unfold release in refl;
    same_size = rest.same_size ∙ unfold release in refl;
    sizes = λ a own. rest.sizes a own ∙ untouched a own;
  }

pub release_front_lem :
    {behind : ℕ → ℕ} (n j : ℕ) (s : Writer)
    → IsCapacity s.capacity
    → s.mask ≡ s.capacity - 1
    → IsPool (from_place behind n j s) s.pool
    → GivenBack behind s (release_front n j s)
unfolding release_front
release_front_lem zero j s c masked i = record {
  pool = IsPool-ext i (λ a. omega arith);
  same_pending = refl;
  same_send = refl;
  same_capacity = refl;
  same_mask = refl;
  same_bufs = refl;
  same_size = refl;
  sizes = λ a own. refl;
}
release_front_lem {behind} (suc n) j s c masked i = next-GivenBack behind n j s c masked i (
    release_front_lem n (add_word u64_mod j 1) (one_back j s) c masked
      (next-IsPool behind n j s c masked i))
