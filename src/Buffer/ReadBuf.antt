-- ===== src/Buffer/ReadBuf.antt =====
-- ReadBufBase and ReadBufStream of include/buffer/buffer.hpp and src/buffer/buffer.cpp: the read
-- side of a TCP connection. Filled blocks wait in a queue, the first one partly consumed.
pub mod Invariant
pub mod Consume
pub mod Push
pub mod Peek
use uring_proactor.Base.{
  ltb, leb, ◌==◌, if◌then◌else◌, u32_mod, add_word, sub_word, ℕ, zero, suc, ◌+◌, ◌-◌, bit_and, Bool,
  true, false, Option, none, some, List, [], ◌∷◌,
}
use uring_proactor.Base.Ring.{Ring, size, push, front, advance}
use uring_proactor.Buffer.BufRing.{BufRing, ring_addr, give_back}

pub record ReadBuf : Type 0 where
  pub ring : BufRing
  pub queue : Ring
  pub readable_bytes : ℕ
  pub capacity : ℕ
  pub mask : ℕ
  pub head_offset : ℕ

unfoldable pub init_reader : BufRing → (ℕ → ℕ) → ReadBuf
init_reader ring buf_queue = record {
  ring = ring;
  queue = record { slots = buf_queue; head = 0; tail = 0 };
  readable_bytes = 0;
  capacity = ring.buf_num;
  mask = ring.buf_num - 1;
  head_offset = 0;
}

-- `push_buf(idx)`
unfoldable pub push_buf : ℕ → ReadBuf → Bool × ReadBuf
push_buf idx s = if leb s.capacity (size u32_mod s.queue) then (false, s) else (
  true,
  record s {
    queue = push u32_mod s.mask s.queue idx;
    readable_bytes = add_word u32_mod s.readable_bytes (s.ring.data_size idx);
  },
)

-- The block that the counter `i` stands for.
abbrev pub queued_block : ReadBuf → ℕ → ℕ
queued_block s i = s.queue.slots (bit_and i s.mask)

-- The loop of `peek`, `n` counters from `i` to the tail: addresses and lengths of what is readable.
unfoldable pub peek_from : ℕ → ℕ → ℕ → ReadBuf → List (ℕ × ℕ)
peek_from zero i wanted s = []
peek_from (suc n) i wanted s =
    let offset = if i == s.queue.head then s.head_offset else 0 in
    let readable = sub_word u32_mod (s.ring.data_size (queued_block s i)) offset in
    let given = if ltb wanted readable then wanted else readable in
    let rest = peek_from n (add_word u32_mod i 1) (sub_word u32_mod wanted given) s in
    if ltb 0 wanted then (ring_addr s.ring (queued_block s i) + offset, given) ∷ rest else []

-- `peek(size)`: the loop runs while `i < tail_`, so not at all where the tail is the smaller one.
unfoldable pub peek : ℕ → ReadBuf → Option (List (ℕ × ℕ))
unfolding peek_from
peek wanted s =
    if ltb s.readable_bytes wanted
    then none
    else some (peek_from (s.queue.tail - s.queue.head) s.queue.head wanted s)

-- `release(buf_queue_[head_ & mask_]); head_offset_ = 0; ++head_`
unfoldable pub drop_read : ReadBuf → ReadBuf
drop_read s = record s {
  ring = give_back s.ring (front s.mask s.queue);
  head_offset = 0;
  queue = advance u32_mod s.queue;
}

-- The loop of `consume`, in at most `n` rounds; `none` where more would be needed.
unfoldable pub take_from : ℕ → ℕ → ReadBuf → Option ReadBuf
unfolding drop_read
take_from zero wanted s = if wanted == 0 then some s else none
take_from (suc n) wanted s =
    let avail = sub_word u32_mod (s.ring.data_size (front s.mask s.queue)) s.head_offset in
    let rest = take_from n (sub_word u32_mod wanted avail) (drop_read s) in
    if wanted == 0
    then some s
    else if ltb wanted avail
    then some (record s { head_offset = add_word u32_mod s.head_offset wanted })
    else rest

abbrev pub with_true : Option ReadBuf → Option (Bool × ReadBuf)
with_true none = none
with_true (some r) = some (true, r)

-- `consume(size)`
unfoldable pub consume : ℕ → ReadBuf → Option (Bool × ReadBuf)
unfolding take_from
consume wanted s =
    if ltb s.readable_bytes wanted
    then some (false, s)
    else with_true (
        take_from (size u32_mod s.queue) wanted
          (record s { readable_bytes = sub_word u32_mod s.readable_bytes wanted }))

-- `reset()`: `none` only where `consume` gives none.
unfoldable pub reset_reader : ReadBuf → Option ReadBuf
unfolding consume
reset_reader s = restarted (consume s.readable_bytes s)
  where
    restarted : Option (Bool × ReadBuf) → Option ReadBuf
    restarted none = none
    restarted (some (ok, r)) =
        some (record r { head_offset = 0; queue = record r.queue { head = 0; tail = 0 } })
