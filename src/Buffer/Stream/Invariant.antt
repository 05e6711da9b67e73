-- ===== src/Buffer/Stream/Invariant.antt =====
-- What holds of a stream buffer between calls, and what is left of it without its first block.
use uring_proactor.Base.{
  u32_mod, u64_mod, sub_word, length, drop, length-append, length-drop, drop-append, drop-add,
  count, ℕ, ◌+◌, ◌-◌, ◌^◌, ◌≤◌, ◌<◌, ◌≡◌, refl, sym, ap, ◌∙◌, ◌≢◌, List, ◌∷◌, ◌++◌, arith,
}
use uring_proactor.Base.Ring.{size, front}
use uring_proactor.Base.Memory.{length-rows}
use uring_proactor.Base.Ring.Laws.{size-advance, advance-IsRing, items-advance}
use uring_proactor.Buffer.BufPool.{buf_addr}
use uring_proactor.Buffer.Stream.{Stream, drop_sent}
use uring_proactor.Buffer.WriteBuf.Invariant.{pending_list, send_list, owners, IsWriter}
use uring_proactor.Buffer.BufPool.Blocks.{block, contents, contents_cong, block-release, block_in}
use uring_proactor.Buffer.BufPool.Invariant.{Gains, held-lt, release-IsPool}

-- The bytes that are still to be written, oldest first.
abbrev pub send_bytes : Stream → List ℕ
send_bytes s = drop s.offset (contents s.pool (send_list s.base))

-- A sound writer, with the offset inside the first block of the send queue.
pub record IsStream (others : ℕ → ℕ) (s : Stream) : Type 0 where
  pub writer : IsWriter others s.base
  pub within : 0 < size u64_mod s.send → s.offset ≤ s.pool.data_size (front s.mask s.send)
  pub idle : size u64_mod s.send ≡ 0 → s.offset ≡ 0

-- How many holders a block has outside the pool.
abbrev pub owned : (ℕ → ℕ) → Stream → ℕ → ℕ
owned others r a = count a (pending_list r.base) + (count a (send_list r.base) + others a)

module _ {others : ℕ → ℕ} {s : Stream} (w : IsStream others s)
    (some_left : 0 < size u64_mod s.send) where
  abbrev pub first : ℕ
  first = front s.mask s.send

  pub send_list-first : send_list s.base ≡ first ∷ send_list (drop_sent s).base
  unfolding drop_sent
  send_list-first =
      rw w.writer.waiting.masked
        (items-advance w.writer.waiting.capacity 64 (omega arith) s.send w.writer.sending some_left)

  pub first_held : 0 < owners (λ a. count a (send_list s.base) + others a) s.base first
  first_held = ground (arith, ap (count first) send_list-first)

  pub owned-drop_sent : Gains (owned others (drop_sent s)) first (owned others s)
  owned-drop_sent a = omega (arith, ap (count a) send_list-first, ap (count a) same_pending)
    where
      same_pending : pending_list (drop_sent s).base ≡ pending_list s.base
      same_pending = unfold drop_sent in refl

  pub drop_sent-IsStream : IsStream others (drop_sent s)
  unfolding drop_sent
  drop_sent-IsStream = record {
    writer = record {
      waiting = record {
        capacity = w.writer.waiting.capacity;
        masked = w.writer.waiting.masked;
        queue = w.writer.waiting.queue;
        pool =
            release-IsPool w.writer.waiting.pool first (owned others (drop_sent s)) owned-drop_sent;
      };
      sending =
          advance-IsRing w.writer.waiting.capacity 64 (omega arith) s.send w.writer.sending
            some_left;
    };
    within = λ h. omega arith;
    idle = λ h. refl;
  }

  others-ne : (a : ℕ) → 0 < owned others (drop_sent s) a → a ≢ first
  others-ne a h e = ground (arith, owned-drop_sent a, w.writer.waiting.pool.once a)

  -- No block that is still held loses its bytes.
  pub block-drop_sent :
      (a : ℕ) → 0 < owned others (drop_sent s) a → block (drop_sent s).pool a ≡ block s.pool a
  block-drop_sent a h = unfold drop_sent in block-release s.pool first a (others-ne a h)

  pub size-drop_sent : size u64_mod (drop_sent s).send + 1 ≡ size u64_mod s.send
  unfolding drop_sent
  size-drop_sent =
      size-advance w.writer.waiting.capacity 64 (omega arith) s.send w.writer.sending some_left

  -- Without its first block the queue holds what followed that block.
  pub send_bytes-drop_sent :
      send_bytes s ≡ drop s.offset (block s.pool first) ++ send_bytes (drop_sent s)
  send_bytes-drop_sent =
      ap (λ xs. drop s.offset (contents s.pool xs)) send_list-first
      ∙ drop-append s.offset (block s.pool first) (contents s.pool (send_list (drop_sent s).base)) (
          omega (
            arith,
            w.within some_left,
            length-rows s.pool.bufs (buf_addr s.pool first) (s.pool.data_size first),
          ))
      ∙ ap (◌++◌ (drop s.offset (block s.pool first))) (sym later)
    where
      no_offset : (drop_sent s).offset ≡ 0
      no_offset = unfold drop_sent in refl

      later : send_bytes (drop_sent s) ≡ contents s.pool (send_list (drop_sent s).base)
      later =
          ap (λ n. drop n (contents (drop_sent s).pool (send_list (drop_sent s).base))) no_offset
          ∙ contents_cong s.pool (drop_sent s).pool (send_list (drop_sent s).base)
              (λ a c. block-drop_sent a (omega arith))

  pub length-first : length (drop s.offset (block s.pool first)) ≡ s.pool.data_size first - s.offset
  length-first = omega (
    arith,
    length-drop s.offset (block s.pool first),
    length-rows s.pool.bufs (buf_addr s.pool first) (s.pool.data_size first),
  )

  -- The first block is within the pool, and small.
  pub first-le : s.pool.data_size first ≤ 2 ^ 31
  first-le = omega (
    arith,
    w.writer.waiting.pool.filled first in_pool,
    block_in w.writer.waiting.pool first in_pool,
    w.writer.waiting.pool.allocated,
  )
    where
      in_pool : first < s.pool.buf_num
      in_pool = held-lt w.writer.waiting.pool first first_held

  pub remaining-eq :
      sub_word u32_mod (s.pool.data_size first) s.offset ≡ s.pool.data_size first - s.offset
  remaining-eq = omega (arith, w.within some_left, first-le)

  pub length-send_bytes :
      length (send_bytes s) ≡ s.pool.data_size first - s.offset + length (send_bytes (drop_sent s))
  length-send_bytes = omega (
    arith,
    ap length send_bytes-drop_sent,
    length-append (drop s.offset (block s.pool first)) (send_bytes (drop_sent s)),
    length-first,
  )

  -- A short write ends inside the first block.
  unfoldable pub partly : ℕ → Stream
  partly bytes = record s { offset = s.offset + bytes }

  pub partly-IsStream :
      (bytes : ℕ) → s.offset + bytes ≤ s.pool.data_size first → IsStream others (partly bytes)
  unfolding partly
  partly-IsStream bytes h = record {
    writer = w.writer;
    within = λ _. h;
    idle = λ e. absurd (omega arith);
  }

  pub send_bytes-partly : (bytes : ℕ) → send_bytes (partly bytes) ≡ drop bytes (send_bytes s)
  unfolding partly
  send_bytes-partly bytes = drop-add s.offset bytes (contents s.pool (send_list s.base))
