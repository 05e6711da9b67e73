-- ===== src/Buffer/ReadDgram.antt =====
-- ReadBufDgram of include/buffer/buffer.hpp and src/buffer/buffer.cpp: the read side of a UDP channel.
-- A filled block is one datagram, so the offset of a stream stays at 0. The message header that
-- liburing lays into the block is not read here.
use native.Mathlib.Decide.{ℕ_discrete}
use uring_proactor.Base.{
  ◌==◌, if◌then◌else◌, u32_mod, sub_word, drop, rows, ℕ, ◌<◌, ◌≡◌, refl, ap, ◌∙◌, ◌⊎◌, inl, inr,
  Bool, true, false, Option, none, some, [], ◌∷◌, ◌++◌, arith,
}
use uring_proactor.Base.Ring.{size, front, advance}
use uring_proactor.Base.Ring.Laws.{size-zero_iff}
use uring_proactor.Buffer.BufRing.{ring_addr, give_back}
use uring_proactor.Buffer.ReadBuf.{ReadBuf, drop_read}
use uring_proactor.Buffer.ReadBuf.Consume.{gives, calls-give_back, IsReader, recount-IsReadBuf}
use uring_proactor.Buffer.ReadBuf.Invariant.{
  unread, read_block, read_list, read_list-first, drop_read-IsReadBuf, unread-drop_read,
  length-unread,
}

-- `peek()`: the address and the size that go to DgramMsg, none for a null pointer.
unfoldable pub peek_msg : ReadBuf → Option (ℕ × ℕ)
peek_msg s =
    if s.queue.head == s.queue.tail
    then none
    else some (ring_addr s.ring (front s.mask s.queue), s.ring.data_size (front s.mask s.queue))

-- `consume()`
unfoldable pub consume_msg : ReadBuf → Bool × ReadBuf
consume_msg s = if s.queue.head == s.queue.tail then (false, s) else (
  true,
  record s {
    readable_bytes = sub_word u32_mod s.readable_bytes (s.ring.data_size (front s.mask s.queue));
    ring = give_back s.ring (front s.mask s.queue);
    queue = advance u32_mod s.queue;
  },
)

module _ {s : ReadBuf} (w : IsReader s) (whole : s.head_offset ≡ 0) where
  module _ (busy : 0 < size u32_mod s.queue) where
    abbrev oldest : ℕ
    oldest = front s.mask s.queue

    abbrev consumed : ReadBuf
    consumed = record (drop_read s) {
      readable_bytes = sub_word u32_mod s.readable_bytes (s.ring.data_size oldest);
    }

    not_empty : (s.queue.head == s.queue.tail) ≡ false
    not_empty =
        ground (arith, (size-zero_iff w.buf.is_capacity 32 (omega arith) s.queue w.buf.in_queue).1)

    consume_msg-some : consume_msg s ≡ (true, consumed)
    unfolding consume_msg drop_read
    consume_msg-some = rw not_empty (
        ap
          (λ n. (
            true,
            record s {
              readable_bytes = sub_word u32_mod s.readable_bytes (s.ring.data_size oldest);
              ring = give_back s.ring oldest;
              queue = advance u32_mod s.queue;
              head_offset = n;
            },
          ))
          whole)

    front_bytes : unread s ≡ read_block s.ring oldest ++ unread (drop_read s)
    front_bytes =
        unread-drop_read w.buf busy
        ∙ ap (λ n. drop n (read_block s.ring oldest) ++ unread (drop_read s)) whole

    consumed-IsReader : IsReader consumed
    consumed-IsReader = record {
      buf = recount-IsReadBuf (drop_read-IsReadBuf w.buf busy);
      counted = omega (arith, length-unread w.buf busy, w.counted, w.small, whole);
      small = omega arith;
    }

  -- On a sound read buffer with a right byte count that holds whole datagrams, `peek` and `consume` refuse
  -- exactly where none waits. Else `peek` names the bytes of the oldest one, which are the first that
  -- are readable, and `consume` takes just these: its block leaves the queue and goes back to the
  -- kernel, and the count of bytes stays right.
  pub consume_msg_lem :
      ((size u32_mod s.queue ≡ 0) × (peek_msg s ≡ none) × (consume_msg s ≡ (false, s)))
      ⊎ ((addr len a : ℕ) × (r : ReadBuf) × (peek_msg s ≡ some (addr, len))
          × (consume_msg s ≡ (true, r))
          × IsReader r
          × (r.head_offset ≡ 0)
          × (unread s ≡ rows s.ring.bufs addr len ++ unread r)
          × (read_list s ≡ a ∷ read_list r)
          × (r.ring.calls ≡ s.ring.calls ++ gives s.ring (a ∷ [])))
  unfolding peek_msg consume_msg
  consume_msg_lem = elim (ℕ_discrete (size u32_mod s.queue) 0) [
    | yes e ↦ inl (e, rw (empty e) refl, rw (empty e) refl)
    | no ne ↦ inr (
      ring_addr s.ring (front s.mask s.queue),
      s.ring.data_size (front s.mask s.queue),
      front s.mask s.queue,
      consumed (omega arith),
      rw (not_empty (omega arith)) refl,
      consume_msg-some (omega arith),
      consumed-IsReader (omega arith),
      unfold drop_read in refl,
      front_bytes (omega arith),
      read_list-first w.buf (omega arith),
      unfold drop_read in calls-give_back s.ring (front s.mask s.queue),
    )
  ]
    where
      empty : size u32_mod s.queue ≡ 0 → (s.queue.head == s.queue.tail) ≡ true
      empty e =
          ground
            (arith, (size-zero_iff w.buf.is_capacity 32 (omega arith) s.queue w.buf.in_queue).0 e)
