-- ===== src/Buffer/BufPool.antt =====
-- include/buffer/buf_pool.hpp and src/buffer/buf_pool.cpp: fixed blocks in one allocation, with
-- the indices of the free ones in a circular queue. An address is an offset into `bufs_`.
pub mod Invariant
pub mod Init
pub mod Blocks
pub mod Fifo
use uring_proactor.Base.{
  ltb, ◌==◌, if◌then◌else◌, u32_mod, update, ℕ, zero, suc, ◌+◌, ◌-◌, ◌*◌, ◌/◌, ◌%◌, Bool, List,
}
use uring_proactor.Base.Memory.{store}
use uring_proactor.Base.Ring.{Ring, size, push, front, advance}

pub record BufPool : Type 0 where
  pub buf_num : ℕ
  pub mask : ℕ
  pub buf_size : ℕ
  pub bufs : ℕ → ℕ
  pub data_size : ℕ → ℕ
  -- `free_idx_queue_`, `head_` and `tail_`
  pub free : Ring

-- `~0u`
abbrev pub invalid_idx : ℕ
invalid_idx = u32_mod - 1

-- `buf_addr(idx)`: the product is `unsigned`.
abbrev pub buf_addr : BufPool → ℕ → ℕ
buf_addr p idx = idx * p.buf_size % u32_mod

-- `buf_index(buf)`, and the same of a pointer into a block
abbrev pub buf_index : BufPool → ℕ → ℕ
buf_index p addr = addr / p.buf_size % u32_mod

abbrev pub set_data_size : BufPool → ℕ → ℕ → BufPool
set_data_size p idx n = record p { data_size = update p.data_size idx n }

-- `std::copy` to an address in the pool.
abbrev pub copy_to : BufPool → ℕ → List ℕ → BufPool
copy_to p addr bytes = record p { bufs = store p.bufs addr bytes }

unfoldable pub acquire : BufPool → ℕ × BufPool
acquire p =
    if p.free.head == p.free.tail
    then (invalid_idx, p)
    else (front p.mask p.free, record p { free = advance u32_mod p.free })

unfoldable pub release : BufPool → ℕ → BufPool
release p idx = record p {
  free = push u32_mod p.mask p.free idx;
  data_size = update p.data_size idx 0;
}

-- The condition that `release` asserts.
abbrev pub release_asserts : BufPool → Bool
release_asserts p = ltb (size u32_mod p.free) p.buf_num

-- `release(const char *buf)`
unfoldable pub release_addr : BufPool → ℕ → BufPool
unfolding release
release_addr p addr = release p (buf_index p addr)

-- The constructor's loops: every size is 0, and every index is released, from `i` on.
unfoldable pub release_from : ℕ → ℕ → BufPool → BufPool
unfolding release
release_from zero i p = p
release_from (suc n) i p = release_from n (i + 1) (release p i)

unfoldable pub clear_from : ℕ → ℕ → BufPool → BufPool
clear_from zero i p = p
clear_from (suc n) i p = clear_from n (i + 1) (set_data_size p i 0)

-- `new` hands out memory with any contents: the bytes, the sizes and the queue.
unfoldable pub init : ℕ → ℕ → (ℕ → ℕ) → (ℕ → ℕ) → (ℕ → ℕ) → BufPool
unfolding release_from clear_from
init buf_num buf_size bytes sizes queue = release_from buf_num 0 (
    clear_from buf_num 0 (record {
      buf_num = buf_num;
      mask = buf_num - 1;
      buf_size = buf_size;
      bufs = bytes;
      data_size = sizes;
      free = record { slots = queue; head = 0; tail = 0 };
    }))
