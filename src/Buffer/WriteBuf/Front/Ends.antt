-- ===== src/Buffer/WriteBuf/Front/Ends.antt =====
-- How the loop of `prepend` (src/buffer/buffer.cpp) leaves the buffer: given up, or at its end.
use uring_proactor.Base.{
  u32_mod, u64_mod, sub_word, sub_word_cases, sub_word-lt, rows, count, count-append, IsCapacity,
  capacity-le, mod_wrap, ℕ, ◌+◌, ◌*◌, ◌%◌, ◌^◌, ◌≤◌, ◌<◌, ◌≡◌, refl, sym, ap, ap₂, subst, ◌∙◌, inl,
  inr, List, [], ◌++◌, arith,
}
use uring_proactor.Base.Ring.{Ring, size, window, items, items-empty, window_place}
use uring_proactor.Base.Ring.Laws.{IsRing}
use uring_proactor.Buffer.BufPool.Blocks.{block, contents, contents-append, contents_cong}
use uring_proactor.Buffer.BufPool.Invariant.{IsPool-ext}
use uring_proactor.Buffer.WriteBuf.{Writer, release_front}
use uring_proactor.Buffer.WriteBuf.Invariant.{
  pending_list, pending_bytes, owners, IsPending, IsWriter,
}
use uring_proactor.Buffer.WriteBuf.Progress.{start-Progress}
use uring_proactor.Buffer.WriteBuf.RollBack.{Restored}
use uring_proactor.Buffer.WriteBuf.Append.{Framed, outside, framed}
use uring_proactor.Buffer.WriteBuf.Front.{view, window-add}
use uring_proactor.Buffer.WriteBuf.Front.GiveBack.{GivenBack, release_front_lem}
use uring_proactor.Buffer.WriteBuf.Front.Loop.{Going}

-- A queue with the counters of a sound one is sound.
same_counters :
    {r0 r : Ring} {cap0 cap : ℕ}
    → IsRing 64 cap0 r0
    → r.head ≡ r0.head
    → r.tail ≡ r0.tail
    → cap ≡ cap0
    → IsRing 64 cap r
unfolding size
same_counters i h t c = record {
  head_in = omega arith;
  tail_in = omega arith;
  fits = omega (arith, i.fits, ap₂ (sub_word u64_mod) t h);
}

module _ {others : ℕ → ℕ} {s0 : Writer} (w : IsWriter others s0) (blocks : ℕ)
    (room : size u64_mod s0.pending + blocks ≤ s0.capacity) where
  abbrev pub behind : ℕ → ℕ
  behind = owners (outside w) s0

  abbrev pub new_head : ℕ
  new_head = sub_word u64_mod s0.pending.head blocks

  small : blocks < 2 ^ 64
  small = omega (arith, capacity-le w.waiting.capacity)

  old_place : (new_head + blocks) % s0.capacity ≡ s0.pending.head % s0.capacity
  old_place =
      sym (
        mod_wrap w.waiting.capacity 64 (new_head + blocks)
          (omega (arith, capacity-le w.waiting.capacity)))
      ∙ ap (λ t. t % s0.capacity) back
    where
      back : (new_head + blocks) % 2 ^ 64 ≡ s0.pending.head
      back =
          omega (arith, sub_word_cases u64_mod s0.pending.head blocks w.waiting.queue.head_in small)

  no_blocks : size u64_mod (view new_head new_head s0).pending ≡ 0
  unfolding size
  no_blocks = omega arith

  start_sound : IsPending behind (view new_head new_head s0)
  start_sound = record {
    capacity = w.waiting.capacity;
    masked = w.waiting.masked;
    queue = record {
      head_in = sub_word-lt u64_mod s0.pending.head blocks (omega arith);
      tail_in = sub_word-lt u64_mod s0.pending.head blocks (omega arith);
      fits = omega (arith, no_blocks);
    };
    pool =
        IsPool-ext w.waiting.pool
          λ a. omega (arith, ap (count a) (items-empty u64_mod s0.capacity _ no_blocks));
  }

  pub start : Going behind new_head blocks s0 0 new_head s0 []
  unfolding items
  start = record {
    front_part = start-Progress start_sound;
    counted = no_blocks;
    waits =
        window_place s0.pending.slots s0.capacity (new_head + blocks) s0.pending.head
          (size u64_mod s0.pending) old_place;
    same_head = refl;
    same_tail = refl;
    spent = omega arith;
  }

  module _ {k i : ℕ} {s : Writer} {done : List ℕ}
      (g : Going behind new_head blocks s0 k i s done) where
    old_block : (a : ℕ) → 0 < behind a → block s.pool a ≡ block s0.pool a
    old_block a own =
        ap₂ (rows s.pool.bufs) (ap (λ t. a * t % u32_mod) g.front_part.same_size) same_size_of
        ∙ g.front_part.old a (omega arith)
      where
        same_size_of : s.pool.data_size a ≡ s0.pool.data_size a
        same_size_of = elim (g.front_part.sizes a (omega arith)) [
          | inl q ↦ q
          | inr q ↦ absurd (omega (arith, q.0, no_blocks))
        ]

    waiting_list : items u64_mod s0.capacity s.pending ≡ pending_list s0
    unfolding items size
    waiting_list =
        ap₂ (λ h t. window s.pending.slots s0.capacity h (sub_word u64_mod t h)) g.same_head
          g.same_tail
        ∙ window_place s.pending.slots s0.capacity s0.pending.head (new_head + blocks) _
            (sym old_place)
        ∙ g.waits

    -- The loop gave up: the blocks of its rounds go back.
    given_back : GivenBack behind s (release_front (sub_word u64_mod i new_head) new_head s)
    unfolding items size
    given_back =
        release_front_lem (sub_word u64_mod i new_head) new_head s g.front_part.live.capacity
          g.front_part.live.masked g.front_part.live.pool

    pub gave_up-Restored :
        Restored (outside w) s0 (release_front (sub_word u64_mod i new_head) new_head s)
    gave_up-Restored = record {
      live = record {
        capacity = subst IsCapacity (sym same_cap) w.waiting.capacity;
        masked =
            omega (arith, given_back.same_mask, g.front_part.live.masked, given_back.same_capacity);
        queue =
            same_counters w.waiting.queue (ap (λ (q : Ring). q.head) same_ring ∙ g.same_head)
              (ap (λ (q : Ring). q.tail) same_ring ∙ g.same_tail) same_cap;
        pool = IsPool-ext given_back.pool (λ a. omega (arith, ap (count a) same));
      };
      same_list = same;
      same_send = given_back.same_send ∙ g.front_part.same_send;
      same_capacity = same_cap;
      same_block = λ a own.
          ap (λ f. rows f (a * r.pool.buf_size % u32_mod) (r.pool.data_size a)) given_back.same_bufs
          ∙ ap₂ (λ b n. rows s.pool.bufs (a * b % u32_mod) n) given_back.same_size
              (given_back.sizes a own)
          ∙ old_block a own;
    }
      where
        r : Writer
        r = release_front (sub_word u64_mod i new_head) new_head s

        same_ring : r.pending ≡ s.pending
        same_ring = given_back.same_pending

        same_cap : r.capacity ≡ s0.capacity
        same_cap = given_back.same_capacity ∙ g.front_part.same_capacity

        same : pending_list r ≡ pending_list s0
        same = ap₂ (items u64_mod) same_cap same_ring ∙ waiting_list

  -- The loop came to its end: the new blocks stand before the old ones.
  module _ {i : ℕ} {s : Writer} {all : List ℕ}
      (g : Going behind new_head blocks s0 blocks i s all) where
    abbrev pub moved : Writer
    moved = record s { pending = record s.pending { head = new_head } }

    pub size-moved : size u64_mod moved.pending ≡ blocks + size u64_mod s0.pending
    unfolding size
    size-moved = omega (
      arith,
      g.same_tail,
      room,
      capacity-le w.waiting.capacity,
      sub_word_cases u64_mod s0.pending.head blocks w.waiting.queue.head_in small,
      sub_word_cases u64_mod s0.pending.tail s0.pending.head w.waiting.queue.tail_in
          w.waiting.queue.head_in,
      sub_word_cases u64_mod s0.pending.tail new_head w.waiting.queue.tail_in
          start_sound.queue.head_in,
    )

    joined : pending_list moved ≡ pending_list (view new_head i s) ++ pending_list s0
    unfolding items
    joined =
        ap (window s.pending.slots s.capacity new_head) size-moved
        ∙ window-add s.pending.slots s.capacity new_head blocks (size u64_mod s0.pending)
        ∙ ap₂ ◌++◌ (ap (window s.pending.slots s.capacity new_head) (sym g.counted)) (
            ap (λ c. window s.pending.slots c (new_head + blocks) (size u64_mod s0.pending))
              g.front_part.same_capacity
            ∙ g.waits)

    moved_sound : IsPending (outside w) moved
    moved_sound = record {
      capacity = g.front_part.live.capacity;
      masked = g.front_part.live.masked;
      queue = record {
        head_in = start_sound.queue.head_in;
        tail_in = omega (arith, g.same_tail, w.waiting.queue.tail_in);
        fits = omega (arith, size-moved, g.front_part.same_capacity);
      };
      pool = IsPool-ext g.front_part.live.pool λ a. omega (
        arith,
        ap (count a) joined,
        count-append a (pending_list (view new_head i s)) (pending_list s0),
      );
    }

    pub moved-Framed : Framed others s0 moved
    moved-Framed =
        framed w moved moved_sound g.front_part.same_send g.front_part.same_capacity
          (λ a own. old_block g a (omega arith))

    pub pending_bytes-moved : pending_bytes moved ≡ all ++ pending_bytes s0
    pending_bytes-moved =
        ap (contents s.pool) joined
        ∙ contents-append s.pool (pending_list (view new_head i s)) (pending_list s0)
        ∙ ap₂ ◌++◌
            (g.front_part.written
              ∙ ap (λ xs. contents s0.pool xs ++ all) (items-empty u64_mod s0.capacity _ no_blocks))
            (contents_cong s0.pool s.pool (pending_list s0) (λ a c. old_block g a (omega arith)))
