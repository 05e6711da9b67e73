-- ===== src/Buffer/BufRing.antt =====
-- class BufRing (include/core/buf_ring.hpp, src/core/buf_ring.cpp): the registered ring of blocks
-- that the kernel fills. The two calls of liburing that hand blocks to the kernel are recorded in
-- the order in which they are made.
use uring_proactor.Base.{
  u32_mod, update, ℕ, zero, suc, ◌+◌, ◌-◌, ◌*◌, ◌/◌, ◌%◌, List, [], ◌∷◌, ◌++◌,
}

-- `io_uring_buf_ring_add` with the address, length, block number, mask and offset that it is given,
-- and `io_uring_buf_ring_advance`.
pub data RingCall : Type 0 where
  ring_add : ℕ → ℕ → ℕ → ℕ → ℕ → RingCall
  ring_advance : ℕ → RingCall

-- `bufs` holds the bytes of the blocks, which the kernel writes.
pub record BufRing : Type 0 where
  pub buf_size : ℕ
  pub buf_num : ℕ
  pub mask : ℕ
  pub bufs : ℕ → ℕ
  pub data_size : ℕ → ℕ
  pub calls : List RingCall

abbrev pub ring_addr : BufRing → ℕ → ℕ
ring_addr b idx = idx * b.buf_size % u32_mod

abbrev pub ring_index : BufRing → ℕ → ℕ
ring_index b addr = addr / b.buf_size % u32_mod

abbrev pub set_ring_size : BufRing → ℕ → ℕ → BufRing
set_ring_size b idx n = record b { data_size = update b.data_size idx n }

unfoldable pub add_buf : BufRing → ℕ → ℕ → BufRing
add_buf b addr offset = record b {
  calls = b.calls ++ (ring_add addr b.buf_size (ring_index b addr) b.mask offset ∷ []);
}

unfoldable pub advance_ring : BufRing → ℕ → BufRing
advance_ring b nr = record b { calls = b.calls ++ (ring_advance nr ∷ []) }

-- `release(idx)`
unfoldable pub give_back : BufRing → ℕ → BufRing
unfolding add_buf advance_ring
give_back b idx =
    let b1 = advance_ring (add_buf b (ring_addr b idx) 0) 1 in
    record b1 { data_size = update b1.data_size idx 0 }

-- The loop of the constructor, from block `i` on.
unfoldable pub add_from : ℕ → ℕ → BufRing → BufRing
add_from zero i b = b
add_from (suc n) i b = add_from n (i + 1) (add_buf b (i * b.buf_size) i)

-- The constructor, after the ring is set up.
unfoldable pub init_ring : ℕ → ℕ → (ℕ → ℕ) → BufRing
unfolding add_from advance_ring
init_ring buf_num buf_size bytes =
    advance_ring
      (add_from buf_num 0 (record {
        buf_size = buf_size;
        buf_num = buf_num;
        mask = buf_num - 1;
        bufs = bytes;
        data_size = λ a. 0;
        calls = [];
      }))
      buf_num
