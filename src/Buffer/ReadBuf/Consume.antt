-- ===== src/Buffer/ReadBuf/Consume.antt =====
-- `consume`: the bytes that are consumed go, and the blocks that are finished go back to the kernel.
use uring_proactor.Base.{
  u32_mod, length, drop, drop-nil, ℕ, ◌+◌, ◌<◌, ◌≡◌, ap, ◌∙◌, ◌⊎◌, List, [], ◌∷◌, ◌++◌,
  append_assoc,
}
use uring_proactor.Base.Ring.{size, front, items-empty}
use uring_proactor.Buffer.BufRing.{
  RingCall, ring_add, ring_advance, BufRing, ring_addr, ring_index, add_buf, advance_ring,
  give_back,
}
use uring_proactor.Buffer.ReadBuf.{ReadBuf}
use uring_proactor.Buffer.ReadBuf.Invariant.{read_contents, read_list, unread, IsReadBuf}

-- The calls that give blocks back, in order.
abbrev pub gives : BufRing → List ℕ → List RingCall
gives b [] = []
gives b (a ∷ rest) =
    ring_add (ring_addr b a) b.buf_size (ring_index b (ring_addr b a)) b.mask 0
    ∷ ring_advance 1
    ∷ gives b rest

pub calls-give_back :
    (b : BufRing) (idx : ℕ) → (give_back b idx).calls ≡ b.calls ++ gives b (idx ∷ [])
unfolding give_back add_buf advance_ring
calls-give_back b idx = append_assoc b.calls _ _

-- Nothing was wanted, or the block in front is not read to its end, or not begun.
abbrev pub Unfinished : ReadBuf → ℕ → ReadBuf → Type 0
Unfinished s wanted r =
    ((wanted ≡ 0) × (r.head_offset ≡ s.head_offset))
    ⊎ ((r.head_offset ≡ 0) ⊎ (r.head_offset < r.ring.data_size (front r.mask r.queue)))

-- What the loop of `consume` may change: `gone` are the blocks that went back.
pub record Taken (s : ReadBuf) (wanted : ℕ) (r : ReadBuf) : Type 0 where
  pub sound : IsReadBuf r
  pub left : unread r ≡ drop wanted (unread s)
  pub same_count : r.readable_bytes ≡ s.readable_bytes
  pub gone : List ℕ
  pub gone_first : read_list s ≡ gone ++ read_list r
  pub returned : r.ring.calls ≡ s.ring.calls ++ gives s.ring gone
  -- No finished block is left in front.
  pub unfinished : Unfinished s wanted r

pub no_bytes : (s : ReadBuf) → size u32_mod s.queue ≡ 0 → length (unread s) ≡ 0
no_bytes s e =
    ap (λ xs. length (drop s.head_offset (read_contents s.ring xs)))
      (items-empty u32_mod s.capacity s.queue e)
    ∙ ap length (drop-nil s.head_offset)

-- A read that ends inside the first block.
unfoldable pub inside : ℕ → ReadBuf → ReadBuf
inside wanted s = record s { head_offset = s.head_offset + wanted }

-- A sound buffer that has counted its bytes, in 32 bits.
pub record IsReader (s : ReadBuf) : Type 0 where
  pub buf : IsReadBuf s
  pub counted : s.readable_bytes ≡ length (unread s)
  pub small : s.readable_bytes < u32_mod

pub recount-IsReadBuf :
    {s : ReadBuf} {n : ℕ} → IsReadBuf s → IsReadBuf (record s { readable_bytes = n })
recount-IsReadBuf w = record {
  is_capacity = w.is_capacity;
  masked = w.masked;
  allocated = w.allocated;
  in_queue = w.in_queue;
  once = w.once;
  filled = w.filled;
  within = w.within;
  idle = w.idle;
}
