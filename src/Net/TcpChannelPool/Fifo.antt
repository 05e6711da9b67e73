-- ===== src/Net/TcpChannelPool/Fifo.antt =====
-- The channels of TcpChannelPool (src/net/tcp_channel_pool.cpp), free or in use, and the order of the
-- free ones.
use uring_proactor.Base.{
  ltb, ◌==◌, if◌then◌else◌, u32_mod, count, count-append, update, update_self, update_apart,
  IsCapacity, ℕ, ◌+◌, ◌-◌, ◌<◌, ◌≡◌, refl, sym, ap, subst, ◌∙◌, ◌≢◌, ◌⊎◌, inl, inr, false, none,
  some, List, [], ◌∷◌, ◌++◌, arith,
}
use native.Mathlib.Decide.{ℕ_discrete}
use uring_proactor.Base.Pigeon.{length-lt}
use uring_proactor.Base.Results.{Ends-value}
use uring_proactor.Base.Ring.{size, push, front, advance, items, items-empty}
use uring_proactor.Base.Ring.Laws.{
  IsRing, size-zero_iff, push-IsRing, advance-IsRing, items-push, items-advance, length-items,
}
use uring_proactor.Net.Channel.{Call, Channel, assign}
use uring_proactor.Net.Channel.Complete.{IsSettled}
use uring_proactor.Net.Channel.Run.{assign-IsSettled}
use uring_proactor.Net.SendBuffer.{SendBuffer}
use uring_proactor.Net.TcpChannelPool.{TcpChannelPool, acquire_channel, return_channel}

module _ {W : Type 0} (b : SendBuffer W) where
  abbrev pub free_channels : TcpChannelPool b → List ℕ
  free_channels p = items u32_mod p.pool_size p.free

  -- The kernel has no request of the channel.
  abbrev pub IsIdle : Channel W → Type 0
  IsIdle c = (c.recvs ≡ 0) × (c.writevs ≡ 0)

  -- `held a` says how often channel `a` is in use.
  pub record IsChannelPool (held : ℕ → ℕ) (p : TcpChannelPool b) : Type 0 where
    pub is_capacity : IsCapacity p.pool_size
    pub masked : p.mask ≡ p.pool_size - 1
    pub queue : IsRing 32 p.pool_size p.free
    pub once : (a : ℕ) → count a (free_channels p) + held a ≡ (if ltb a p.pool_size then 1 else 0)
    pub idle : (a : ℕ) → a < p.pool_size → held a ≡ 0 → IsIdle (p.channels a)

  -- What `acquire` has done where a channel was free.
  pub record Taken (held : ℕ → ℕ) (fd : ℕ) (calls : List Call) (p : TcpChannelPool b) (idx : ℕ)
      (r : TcpChannelPool b) : Type 0 where
    pub oldest : free_channels p ≡ idx ∷ free_channels r
    pub in_range : idx < p.pool_size
    pub alone : held idx ≡ 0
    pub connected : assign b fd calls (p.channels idx) ≡ some (r.channels idx)
    pub settled : IsSettled b (r.channels idx)
    pub others : (a : ℕ) → a ≢ idx → r.channels a ≡ p.channels a
    pub sound : IsChannelPool (λ a. (if a == idx then 1 else 0) + held a) r

  module _ {held : ℕ → ℕ} {p : TcpChannelPool b} (i : IsChannelPool held p) where
    first_free :
        0 < size u32_mod p.free
        → free_channels p ≡ front p.mask p.free ∷ items u32_mod p.pool_size (advance u32_mod p.free)
    first_free h = rw i.masked (items-advance i.is_capacity 32 (omega arith) p.free i.queue h)

    split :
        (a : ℕ)
        → 0 < size u32_mod p.free
        → count a (free_channels p)
          ≡ (if a == front p.mask p.free then 1 else 0)
            + count a (items u32_mod p.pool_size (advance u32_mod p.free))
    split a h = ap (count a) (first_free h)

    front_free :
        0 < size u32_mod p.free
        → (front p.mask p.free < p.pool_size) × (held (front p.mask p.free) ≡ 0)
    front_free h = (
      ground (arith, split (front p.mask p.free) h, i.once (front p.mask p.free)),
      ground (arith, split (front p.mask p.free) h, i.once (front p.mask p.free)),
    )

    abbrev pub taken_pool : Channel W → TcpChannelPool b
    taken_pool c = record p {
      channels = update p.channels (front p.mask p.free) c;
      free = advance u32_mod p.free;
    }

    taken_pool-Taken :
        (fd : ℕ) (calls : List Call) (c : Channel W)
        → 0 < size u32_mod p.free
        → assign b fd calls (p.channels (front p.mask p.free)) ≡ some c
        → IsSettled b c
        → Taken held fd calls p (front p.mask p.free) (taken_pool c)
    taken_pool-Taken fd calls c some_free e settled = record {
      oldest = first_free some_free;
      in_range = (front_free some_free).0;
      alone = (front_free some_free).1;
      connected = e ∙ ap some (sym (update_self p.channels (front p.mask p.free) c));
      settled = subst (IsSettled b) (sym (update_self p.channels (front p.mask p.free) c)) settled;
      others = λ a ne. update_apart p.channels (front p.mask p.free) a c ne;
      sound = record {
        is_capacity = i.is_capacity;
        masked = i.masked;
        queue = advance-IsRing i.is_capacity 32 (omega arith) p.free i.queue some_free;
        once = λ a. omega (arith, split a some_free, i.once a);
        idle = λ a lt none_held.
            subst IsIdle
              (sym (
                update_apart p.channels (front p.mask p.free) a c
                  (λ e. ground (arith, e, none_held))))
              (i.idle a lt (ground (arith, none_held)));
      };
    }

    -- `acquire` gives null exactly where no channel is free; else it hands out the oldest free one,
    -- which is connected to the descriptor.
    pub acquire_channel_lem :
        (fd : ℕ) (calls : List Call)
        → ((free_channels p ≡ []) × (acquire_channel b fd calls p ≡ some (none, p)))
          ⊎ ((idx : ℕ) × (r : TcpChannelPool b) × (acquire_channel b fd calls p
                ≡ some (some idx, r))
              × Taken held fd calls p idx r)
    unfolding acquire_channel
    acquire_channel_lem fd calls = elim (ℕ_discrete (size u32_mod p.free) 0) [
      | yes none_free ↦ inl (
        items-empty u32_mod p.pool_size p.free none_free,
        ground (arith, (size-zero_iff i.is_capacity 32 (omega arith) p.free i.queue).0 none_free),
      )
      | no ne ↦ on_front (omega arith)
    ]
      where
        on_front :
            0 < size u32_mod p.free
            → ((free_channels p ≡ []) × (acquire_channel b fd calls p ≡ some (none, p)))
              ⊎ ((idx : ℕ) × (r : TcpChannelPool b) × (acquire_channel b fd calls p
                    ≡ some (some idx, r))
                  × Taken held fd calls p idx r)
        on_front some_free =
            let (c, e, settled) = Ends-value (
              assign-IsSettled b fd calls (p.channels (front p.mask p.free))
                (i.idle (front p.mask p.free) (front_free some_free).0 (front_free some_free).1).0
                (i.idle (front p.mask p.free) (front_free some_free).0
                  (front_free some_free).1).1) in
            inr (
              front p.mask p.free,
              taken_pool c,
              taken e,
              taken_pool-Taken fd calls c some_free e settled,
            )
          where
            not_empty : (p.free.head == p.free.tail) ≡ false
            not_empty =
                ground (
                  arith,
                  some_free,
                  (size-zero_iff i.is_capacity 32 (omega arith) p.free i.queue).1,
                )

            taken :
                {c : Channel W}
                → assign b fd calls (p.channels (front p.mask p.free)) ≡ some c
                → acquire_channel b fd calls p ≡ some (some (front p.mask p.free), taken_pool c)
            taken e = rw (not_empty, e) refl

    room : (idx : ℕ) → 0 < held idx → size u32_mod p.free < p.pool_size
    room idx own = omega (
      arith,
      length-items i.is_capacity 32 (omega arith) p.free,
      length-lt p.pool_size (free_channels p) idx (λ a le. ground (arith, i.once a))
          (λ a. ground (arith, i.once a)) (ground (arith, i.once idx)) (ground (arith, i.once idx)),
    )

    -- `release` of a closed channel in use, of which the kernel has no request, puts it behind the
    -- other free ones.
    pub return_channel_lem :
        (idx : ℕ)
        → 0 < held idx
        → (p.channels idx).fd ≡ none
        → IsIdle (p.channels idx)
        → (r : TcpChannelPool b) × (return_channel b idx p ≡ some r)
          × (free_channels r ≡ free_channels p ++ (idx ∷ []))
          × IsChannelPool (λ a. held a - (if a == idx then 1 else 0)) r
    unfolding return_channel
    return_channel_lem idx own closed quiet = (
      record p { free = push u32_mod p.mask p.free idx },
      rw (closed, return_channel) refl,
      behind,
      record {
        is_capacity = i.is_capacity;
        masked = i.masked;
        queue =
            rw i.masked
              (push-IsRing i.is_capacity 32 (omega arith) p.free i.queue idx (room idx own));
        once = λ a. ground (
          arith,
          i.once a,
          i.once idx,
          ap (count a) behind,
          count-append a (free_channels p) (idx ∷ []),
        );
        idle = λ a lt h. elim (ℕ_discrete a idx) [
          | yes e ↦ subst (λ k. IsIdle (p.channels k)) (sym e) quiet
          | no ne ↦ i.idle a lt (ground (arith, h, ne))
        ];
      },
    )
      where
        behind :
            free_channels (record p { free = push u32_mod p.mask p.free idx })
            ≡ free_channels p ++ (idx ∷ [])
        behind =
            rw i.masked
              (items-push i.is_capacity 32 (omega arith) p.free i.queue idx (room idx own))
