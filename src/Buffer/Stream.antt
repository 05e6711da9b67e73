-- ===== src/Buffer/Stream.antt =====
-- WriteBufStream of include/buffer/buffer.hpp and src/buffer/buffer.cpp: the write side of a TCP
-- connection. Submitted blocks wait in the send queue, the first one partly written.
pub mod Submit
pub mod Invariant
pub mod Consume
pub mod Gather
pub mod Reset
use uring_proactor.Base.{
  ltb, leb, ◌==◌, if◌then◌else◌, u32_mod, u64_mod, add_word, sub_word, ℕ, zero, suc, ◌+◌, ◌-◌, ◌*◌,
  ◌%◌, ◌^◌, bit_and, Bool, true, false, not, ◌||◌, Option, none, some, List, [], ◌∷◌,
}
use uring_proactor.Base.Ring.{Ring, size, push, front, advance}
use uring_proactor.Buffer.BufPool.{buf_addr, release}
use uring_proactor.Buffer.WriteBuf.{Writer}

-- A writer, and `send_head_offset_`.
pub record Stream : Type 0 where
  pub base : Writer
  pub open base use *
  pub offset : ℕ

-- `send_queue_[send_tail_++ & mask_] = pending_bufs_[pending_head_++ & mask_]`
unfoldable pub move_block : Writer → Writer
move_block s = record s {
  send = push u64_mod s.mask s.send (front s.mask s.pending);
  pending = advance u64_mod s.pending;
}

-- `while (pending_head_ != pending_tail_)`, in at most `n` rounds.
unfoldable pub move_all : ℕ → Writer → Writer
unfolding move_block
move_all zero s = s
move_all (suc n) s = if s.pending.head == s.pending.tail then s else move_all n (move_block s)

-- `submit()`
unfoldable pub submit_blocks : Writer → Bool × Writer
unfolding move_all
submit_blocks s =
    let pending_count = size u64_mod s.pending in
    if pending_count == 0
    then (false, s)
    else if ltb (sub_word u64_mod s.capacity (size u64_mod s.send)) pending_count
    then (false, s)
    else (true, move_all pending_count s)

unfoldable pub submit : Stream → Bool × Stream
unfolding submit_blocks
submit s = let (done, base) = submit_blocks s.base in (done, record s { base = base })

-- `has_send_data()`
abbrev pub has_send_data : Stream → Bool
has_send_data s = not (s.send.head == s.send.tail)

-- An `iovec`: an address and a length.
abbrev pub Iovec : Type 0
Iovec = ℕ × ℕ

-- The loop of `peek_iovec` from round `i` on, `n` rounds left: the vectors and the sum of lengths.
unfoldable pub gather : ℕ → ℕ → Stream → ℕ → List Iovec × ℕ
gather zero i s bytes = ([], bytes)
gather (suc n) i s bytes =
    let idx = s.send.slots (bit_and (add_word u64_mod s.send.head i) s.mask) in
    let offset = if i == 0 then s.offset else 0 in
    let len = sub_word u32_mod (s.pool.data_size idx) offset in
    let (vecs, total) = gather n (i + 1) s (add_word u32_mod bytes len) in
    ((buf_addr s.pool idx + offset, len) ∷ vecs, total)

-- `peek_iovec(count, bytes)`: none is the null pointer that goes with a count of 0. The count is
-- cut to an `int`, of which the upper half stands for the negative numbers.
unfoldable pub peek_iovec : Stream → Option (List Iovec × ℕ)
unfolding gather
peek_iovec s =
    let queued = size u64_mod s.send % u32_mod in
    if queued == 0 || leb (2 ^ 31) queued then none else some (gather queued 0 s 0)

-- `buf_pool_->release(idx); ++send_head_; send_head_offset_ = 0`
unfoldable pub drop_sent : Stream → Stream
drop_sent s = record {
  base = record s.base {
    pool = release s.pool (front s.mask s.send);
    send = advance u64_mod s.send;
  };
  offset = 0;
}

-- The loop of `consume_written`, with `n` blocks in the send queue. `none` is a failed assertion:
-- more bytes are reported written than were queued.
unfoldable pub consume_from : ℕ → ℕ → Stream → Option Stream
unfolding drop_sent
consume_from zero bytes s = if bytes == 0 then some s else none
consume_from (suc n) bytes s =
    let remaining = sub_word u32_mod (s.pool.data_size (front s.mask s.send)) s.offset in
    let rest = consume_from n (bytes - remaining) (drop_sent s) in
    if bytes == 0
    then some s
    else if ltb bytes remaining
    then some (record s { offset = add_word u32_mod s.offset bytes })
    else rest

unfoldable pub consume_written : ℕ → Stream → Option Stream
unfolding consume_from
consume_written bytes s = consume_from (size u64_mod s.send) bytes s

-- The loops of `reset()`: every block of a queue goes back to the pool.
unfoldable pub release_sends : ℕ → Writer → Writer
release_sends zero s = s
release_sends (suc n) s =
    if s.send.head == s.send.tail
    then s
    else release_sends n
        (record s { pool = release s.pool (front s.mask s.send); send = advance u64_mod s.send })

unfoldable pub release_pendings : ℕ → Writer → Writer
release_pendings zero s = s
release_pendings (suc n) s =
    if s.pending.head == s.pending.tail
    then s
    else release_pendings n (record s {
      pool = release s.pool (front s.mask s.pending);
      pending = advance u64_mod s.pending;
    })

abbrev pub restart : Ring → Ring
restart r = record r { head = 0; tail = 0 }

-- `reset()`
unfoldable pub reset : Stream → Stream
unfolding release_sends release_pendings
reset s =
    let s1 = release_sends (size u64_mod s.send) s.base in
    let s2 = release_pendings (size u64_mod s1.pending) s1 in
    record { base = record s2 { pending = restart s2.pending; send = restart s2.send }; offset = 0 }

-- `discard_pending()` of the base class
unfoldable pub discard_pending : Writer → Writer
unfolding release_pendings
discard_pending s =
    let s1 = release_pendings (size u64_mod s.pending) s in
    record s1 { pending = restart s1.pending }
