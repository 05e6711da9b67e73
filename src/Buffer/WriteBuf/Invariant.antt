-- ===== src/Buffer/WriteBuf/Invariant.antt =====
-- What holds of a write buffer between calls: its blocks are its own.
use uring_proactor.Base.{
  u32_mod, u64_mod, rows, count, count-append, IsCapacity, capacity-le, ℕ, ◌+◌, ◌-◌, ◌<◌, ◌≡◌, ap,
  ◌∙◌, true, false, List, [], ◌∷◌, ◌++◌, append-nil, arith,
}
use uring_proactor.Buffer.BufPool.Blocks.{contents, contents-append}
use uring_proactor.Base.Ring.{size, push, front, advance, items}
use uring_proactor.Buffer.WriteBuf.{Writer, take_block}
use uring_proactor.Base.Ring.Laws.{IsRing, size-push, push-IsRing, items-push}
use uring_proactor.Buffer.BufPool.Blocks.{contents, contents-append}
use uring_proactor.Buffer.BufPool.Invariant.{
  IsPool, acquire-empty, acquire-some, front-lt, front_clean, acquire-IsPool, IsPool-ext,
}
use uring_proactor.Buffer.BufPool.{buf_addr}

abbrev pub pending_list : Writer → List ℕ
pending_list s = items u64_mod s.capacity s.pending

abbrev pub send_list : Writer → List ℕ
send_list s = items u64_mod s.capacity s.send

-- The bytes that wait to be submitted, in order.
abbrev pub pending_bytes : Writer → List ℕ
pending_bytes s = contents s.pool (pending_list s)

abbrev pub owners : (ℕ → ℕ) → Writer → ℕ → ℕ
owners others s a = count a (pending_list s) + others a

-- The pending queue and the pool. `others` are the holders of blocks outside both.
pub record IsPending (others : ℕ → ℕ) (s : Writer) : Type 0 where
  pub capacity : IsCapacity s.capacity
  pub masked : s.mask ≡ s.capacity - 1
  pub queue : IsRing 64 s.capacity s.pending
  pub pool : IsPool (owners others s) s.pool

-- The whole buffer: the blocks of the send queue are further holders.
pub record IsWriter (others : ℕ → ℕ) (s : Writer) : Type 0 where
  pub waiting : IsPending (λ a. count a (send_list s) + others a) s
  pub sending : IsRing 64 s.capacity s.send

pub IsPending-ext :
    {others others' : ℕ → ℕ} {s : Writer}
    → IsPending others s
    → ((a : ℕ) → others' a ≡ others a)
    → IsPending others' s
IsPending-ext i same = record {
  capacity = i.capacity;
  masked = i.masked;
  queue = i.queue;
  pool = IsPool-ext i.pool (λ a. omega (arith, same a));
}

module _ {others : ℕ → ℕ} {s : Writer} (i : IsPending others s) where
  -- The state after `take_block`, where the pool has a block.
  unfoldable pub taken : Writer
  taken = record s {
    pool = record s.pool { free = advance u32_mod s.pool.free };
    pending = push u64_mod s.mask s.pending (front s.pool.mask s.pool.free);
  }

  pub take_block-none : size u32_mod s.pool.free ≡ 0 → take_block s ≡ (false, s)
  unfolding take_block
  take_block-none e = rw (acquire-empty i.pool e, take_block)

  pub take_block-some : 0 < size u32_mod s.pool.free → take_block s ≡ (true, taken)
  unfolding take_block taken
  take_block-some h =
      rw (acquire-some i.pool h, take_block)
        (ground (arith, front-lt i.pool h, capacity-le i.pool.capacity))

  module _ (h : 0 < size u32_mod s.pool.free) (room : size u64_mod s.pending < s.capacity) where
    pub pending_list-taken :
        pending_list taken ≡ pending_list s ++ (front s.pool.mask s.pool.free ∷ [])
    unfolding taken
    pending_list-taken = rw i.masked (
        items-push i.capacity 64 (omega arith) s.pending i.queue (front s.pool.mask s.pool.free)
          room)

    pub taken-IsPending : IsPending others taken
    unfolding taken
    taken-IsPending = record {
      capacity = i.capacity;
      masked = i.masked;
      queue = rw i.masked (
          push-IsRing i.capacity 64 (omega arith) s.pending i.queue (front s.pool.mask s.pool.free)
            room);
      pool = acquire-IsPool i.pool _ h (λ a. omega (
        arith,
        ap (count a) pending_list-taken,
        count-append a (pending_list s) (front s.pool.mask s.pool.free ∷ []),
      ));
    }

    pub size-taken : size u64_mod taken.pending ≡ size u64_mod s.pending + 1
    unfolding taken
    size-taken = rw i.masked (
        size-push i.capacity 64 (omega arith) s.pending i.queue (front s.pool.mask s.pool.free)
          room)

    -- The new block is empty: the bytes that wait are the same.
    pub pending_bytes-taken : pending_bytes taken ≡ pending_bytes s
    unfolding taken
    pending_bytes-taken =
        ap (contents s.pool) pending_list-taken
        ∙ contents-append s.pool (pending_list s) (front s.pool.mask s.pool.free ∷ [])
        ∙ ap
            (λ n.
              pending_bytes s
              ++ (rows s.pool.bufs (buf_addr s.pool (front s.pool.mask s.pool.free)) n ++ []))
            (front_clean i.pool h)
        ∙ append-nil (pending_bytes s)
