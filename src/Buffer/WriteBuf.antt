-- ===== src/Buffer/WriteBuf.antt =====
-- WriteBufBase and WriteBufStream of include/buffer/buffer.hpp and src/buffer/buffer.cpp: blocks
-- that wait to be submitted and blocks that wait to be sent, each in a queue of indices.
pub mod Invariant
pub mod Fill
pub mod Progress
pub mod RollBack
pub mod Append
pub mod Enough
pub mod Front
pub mod Prepend
use uring_proactor.Base.{
  ltb, leb, ◌==◌, if◌then◌else◌, u32_mod, u64_mod, add_word, sub_word, update, length, take, drop,
  ℕ, zero, suc, ◌+◌, ◌-◌, ◌/◌, min, bit_and, Bool, true, false, Option, none, some, List, [], ◌∷◌,
}
use uring_proactor.Base.Ring.{Ring, size, push, back, retreat}
use uring_proactor.Buffer.BufPool.{
  BufPool, invalid_idx, buf_addr, set_data_size, copy_to, acquire, release,
}

-- The members of `WriteBufBase`, with the pool that `buf_pool_` points to.
pub record Writer : Type 0 where
  pub pool : BufPool
  -- `pending_bufs_`, `pending_head_`, `pending_tail_`
  pub pending : Ring
  -- `send_queue_`, `send_head_`, `send_tail_`
  pub send : Ring
  pub capacity : ℕ
  pub mask : ℕ

unfoldable pub init_writer : BufPool → ℕ → (ℕ → ℕ) → (ℕ → ℕ) → Writer
init_writer pool capacity pending_bufs send_queue = record {
  pool = pool;
  pending = record { slots = pending_bufs; head = 0; tail = 0 };
  send = record { slots = send_queue; head = 0; tail = 0 };
  capacity = capacity;
  mask = capacity - 1;
}

-- `pending_bufs_[(pending_tail_ - 1) & mask_]`
abbrev pub last_block : Writer → ℕ
last_block s = back u64_mod s.mask s.pending

-- The copy of one round: as much as the last block takes. What is left of the data, and the state.
unfoldable pub fill : List ℕ → Writer → List ℕ × Writer
fill bytes s =
    let idx = last_block s in
    let current = s.pool.data_size idx in
    let to_copy = min (sub_word u32_mod s.pool.buf_size current) (length bytes) in
    if ltb 0 to_copy
    then (
      drop to_copy bytes,
      record s {
        pool =
            set_data_size (copy_to s.pool (buf_addr s.pool idx + current) (take to_copy bytes)) idx
              (add_word u32_mod current to_copy);
      },
    )
    else (bytes, s)

-- `pending_bufs_[pending_tail_++ & mask_] = idx` after `acquire`; false where that fails.
unfoldable pub take_block : Writer → Bool × Writer
take_block s =
    let (idx, pool) = acquire s.pool in
    if idx == invalid_idx
    then (false, record s { pool = pool })
    else (true, record s { pool = pool; pending = push u64_mod s.mask s.pending idx })

-- One more block for the rest of the data, if the queue and the pool have room.
unfoldable pub grow : Writer → Bool × Writer
unfolding take_block
grow s = if leb s.capacity (size u64_mod s.pending) then (false, s) else take_block s

-- `buf_pool_->release(pending_bufs_[--pending_tail_ & mask_])`
unfoldable pub drop_last : Writer → Writer
drop_last s = record s { pool = release s.pool (last_block s); pending = retreat u64_mod s.pending }

-- `while (pending_tail_ != original_tail)`, in at most `n` rounds.
unfoldable pub unwind : ℕ → ℕ → Writer → Writer
unfolding drop_last
unwind zero original s = s
unwind (suc n) original s =
    if s.pending.tail == original then s else unwind n original (drop_last s)

-- What `append` remembers from before it changes anything.
pub record Mark : Type 0 where
  pub original_tail : ℕ
  pub was_empty : Bool
  pub original_tail_size : ℕ

-- The rollback of a failed `append`.
unfoldable pub roll_back : Mark → Writer → Writer
unfolding unwind
roll_back m s =
    let s' = if m.was_empty then s else record s {
      pool =
          set_data_size s.pool
            (s.pending.slots (bit_and (sub_word u64_mod m.original_tail 1) s.mask))
            m.original_tail_size;
    } in
    unwind (sub_word u64_mod s'.pending.tail m.original_tail) m.original_tail s'

-- `while (size > 0)` with fuel; `none` when that runs out.
unfoldable pub after_grow :
    (Writer → Option (Bool × Writer)) → Mark → Bool × Writer → Option (Bool × Writer)
unfolding roll_back
after_grow again m (true, s) = again s
after_grow again m (false, s) = some (false, roll_back m s)

unfoldable pub after_fill :
    (List ℕ → Writer → Option (Bool × Writer)) → Mark → List ℕ × Writer → Option (Bool × Writer)
unfolding after_grow grow
after_fill again m ([], s) = again [] s
after_fill again m (x ∷ rest, s) = after_grow (again (x ∷ rest)) m (grow s)

unfoldable pub append_loop : ℕ → Mark → List ℕ → Writer → Option (Bool × Writer)
unfolding after_fill fill
append_loop zero m bytes s = none
append_loop (suc f) m [] s = some (true, s)
append_loop (suc f) m (x ∷ xs) s = after_fill (append_loop f m) m (fill (x ∷ xs) s)

abbrev pub mark_empty : Writer → Mark
mark_empty s = record { original_tail = s.pending.tail; was_empty = true; original_tail_size = 0 }

abbrev pub mark_last : Writer → Mark
mark_last s = record {
  original_tail = s.pending.tail;
  was_empty = false;
  original_tail_size = s.pool.data_size (last_block s);
}

abbrev pub append_fuel : Writer → ℕ
append_fuel s = s.capacity + 2

-- `append(data, size)`, the data as a list of bytes: an empty queue takes its first block at once.
unfoldable pub append_first : Mark → List ℕ → ℕ → Bool × Writer → Option (Bool × Writer)
unfolding append_loop
append_first m bytes fuel (true, s) = append_loop fuel m bytes s
append_first m bytes fuel (false, s) = some (false, s)

unfoldable pub append : List ℕ → Writer → Option (Bool × Writer)
unfolding append_first take_block
append bytes s =
    if s.pending.head == s.pending.tail
    then append_first (mark_empty s) bytes (append_fuel s) (take_block s)
    else append_loop (append_fuel s) (mark_last s) bytes s

-- `block_to_write` of `prepend`, for so many bytes.
abbrev pub blocks_for : ℕ → Writer → ℕ
blocks_for size s = sub_word u32_mod (add_word u32_mod size s.pool.buf_size) 1 / s.pool.buf_size

-- The round of `prepend` for place `i` and the block `idx`: the block with as much of the data as it takes.
unfoldable pub put_front : ℕ → ℕ → List ℕ → Writer → Writer
put_front i idx bytes s =
    let to_copy = min (length bytes) s.pool.buf_size in
    record s {
      pending = record s.pending { slots = update s.pending.slots (bit_and i s.mask) idx };
      pool = set_data_size (copy_to s.pool (buf_addr s.pool idx) (take to_copy bytes)) idx to_copy;
    }

-- `for (j = new_head; j != i; ++j)`, in `n` rounds.
unfoldable pub release_front : ℕ → ℕ → Writer → Writer
release_front zero j s = s
release_front (suc n) j s =
    release_front n (add_word u64_mod j 1)
      (record s { pool = release s.pool (s.pending.slots (bit_and j s.mask)) })

-- The loop from place `i` on, with `n` rounds left; false where the pool has no block.
unfoldable pub prepend_from : ℕ → ℕ → ℕ → List ℕ → Writer → Bool × Writer
unfolding put_front release_front
prepend_from new_head zero i bytes s = (true, s)
prepend_from new_head (suc n) i bytes s =
    let (idx, pool) = acquire s.pool in
    let s' = record s { pool = pool } in
    let rest =
      prepend_from new_head n (add_word u64_mod i 1)
        (drop (min (length bytes) s.pool.buf_size) bytes) (put_front i idx bytes s') in
    if idx == invalid_idx
    then (false, release_front (sub_word u64_mod i new_head) new_head s')
    else rest

-- `pending_head_ = new_head`, where the loop came to its end.
unfoldable pub move_head : ℕ → Bool × Writer → Bool × Writer
move_head new_head (false, s) = (false, s)
move_head new_head (true, s) = (true, record s { pending = record s.pending { head = new_head } })

-- `prepend(data, size)`
unfoldable pub prepend : List ℕ → Writer → Bool × Writer
unfolding prepend_from move_head
prepend bytes s =
    let blocks = blocks_for (length bytes) s in
    let new_head = sub_word u64_mod s.pending.head blocks in
    if ltb (sub_word u64_mod s.capacity (size u64_mod s.pending)) blocks
    then (false, s)
    else move_head new_head (prepend_from new_head blocks new_head bytes s)
