-- ===== src/Buffer/Dgram.antt =====
-- WriteBufDgram of include/buffer/buffer.hpp and src/buffer/buffer.cpp: the write side of a UDP
-- channel. A submitted datagram is a message slot that names its blocks.
pub mod Submit
pub mod Release
use uring_proactor.Base.{
  ltb, leb, ◌==◌, if◌then◌else◌, u64_mod, add_word, update, ℕ, zero, suc, ◌+◌, ◌*◌, bit_and, Bool,
  true, false, Option, none, some,
}
use uring_proactor.Base.Ring.{Ring, size, push, front, advance}
use uring_proactor.Buffer.BufPool.{BufPool, buf_addr, release_addr}
use uring_proactor.Buffer.MsghdrPool.{MsghdrPool, release_msghdr}
use uring_proactor.Buffer.Stream.{Iovec}
use uring_proactor.Buffer.WriteBuf.{Writer, init_writer}

-- A writer, with the pool that `msghdr_pool_` points to; `slot_queue` is `slot_queue_`,
-- `msghdr_head_` and `msghdr_tail_`.
pub record Dgram : Type 0 where
  pub base : Writer
  pub open base use *
  pub msghdrs : MsghdrPool
  pub slot_queue : Ring
  pub max_iov : ℕ

unfoldable pub init_dgram : BufPool → MsghdrPool → ℕ → (ℕ → ℕ) → (ℕ → ℕ) → (ℕ → ℕ) → Dgram
unfolding init_writer
init_dgram pool msghdrs capacity pending_bufs send_queue slot_queue = record {
  base = init_writer pool capacity pending_bufs send_queue;
  msghdrs = msghdrs;
  slot_queue = record { slots = slot_queue; head = 0; tail = 0 };
  max_iov = msghdrs.max_iov;
}

-- `while (pending_head_ != pending_tail_)` from `iov_count` on, in at most `n` rounds: the iovecs,
-- their number and the writer.
unfoldable pub name_blocks : ℕ → ℕ → (ℕ → Iovec) → Writer → (ℕ → Iovec) × ℕ × Writer
name_blocks zero iov_count iov s = (iov, iov_count, s)
name_blocks (suc n) iov_count iov s =
    let idx = front s.mask s.pending in
    if s.pending.head == s.pending.tail
    then (iov, iov_count, s)
    else name_blocks n (iov_count + 1)
        (update iov iov_count (buf_addr s.pool idx, s.pool.data_size idx))
        (record s { pending = advance u64_mod s.pending })

-- The slot with its iovecs, at the end of the queue.
abbrev pub enter_slot : ℕ → (ℕ → Iovec) × ℕ × Writer → Dgram → Dgram
enter_slot slot (iov, iov_count, s) d = record d {
  base = s;
  msghdrs = record d.msghdrs {
    slots = update d.msghdrs.slots slot (record (d.msghdrs.slots slot) {
      hdr = record (d.msghdrs.slots slot).hdr { has_iov = true; msg_iovlen = iov_count };
      iov = iov;
    });
  };
  slot_queue = push u64_mod d.mask d.slot_queue slot;
}

-- `submit(slot)`, where none is the null pointer.
unfoldable pub submit_slot : Option ℕ → Dgram → Bool × Dgram
unfolding name_blocks
submit_slot slot d =
    let pending_count = size u64_mod d.pending in
    if pending_count == 0
    then (false, d)
    else if leb d.capacity (size u64_mod d.slot_queue)
    then (false, d)
    else elim slot [
      | none ↦ (false, d)
      | some k ↦
          (if ltb d.max_iov pending_count then (false, d) else (
            true,
            enter_slot k (name_blocks pending_count 0 (d.msghdrs.slots k).iov d.base) d,
          ))
    ]

-- `peek_slot(offset)`
unfoldable pub peek_slot : ℕ → Dgram → Option ℕ
peek_slot offset d =
    if leb (size u64_mod d.slot_queue) offset
    then none
    else some (d.slot_queue.slots (bit_and (add_word u64_mod d.slot_queue.head offset) d.mask))

-- The loop of `release_slot`: the blocks go back by the addresses that the iovecs name.
unfoldable pub release_named : ℕ → ℕ → (ℕ → Iovec) → BufPool → BufPool
release_named zero i iov p = p
release_named (suc n) i iov p = release_named n (i + 1) iov (release_addr p (iov i).0)

-- `release_slot(slot)`
unfoldable pub release_slot : ℕ → Dgram → Dgram
unfolding release_named
release_slot slot d = record d {
  base = record d.base {
    pool = release_named (d.msghdrs.slots slot).hdr.msg_iovlen 0 (d.msghdrs.slots slot).iov d.pool;
  };
  msghdrs = release_msghdr d.msghdrs slot;
}

-- `clear_slot_queue()` and `slot_queue_size()`
unfoldable pub clear_slot_queue : Dgram → Dgram
clear_slot_queue d = record d { slot_queue = record d.slot_queue { head = d.slot_queue.tail } }

abbrev pub slot_queue_size : Dgram → ℕ
slot_queue_size d = size u64_mod d.slot_queue
