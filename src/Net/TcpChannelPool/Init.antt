-- ===== src/Net/TcpChannelPool/Init.antt =====
-- The constructor of TcpChannelPool (src/net/tcp_channel_pool.cpp).
use uring_proactor.Base.{
  ltb, leb, if◌then◌else◌, u32_mod, count, rows, update, update_self, update_apart, IsCapacity, ℕ,
  zero, suc, ◌+◌, ◌-◌, ◌<◌, ◌≤◌, ◌≡◌, refl, sym, ap, subst, ◌∙◌, ◌&&◌, [], ◌∷◌, ◌++◌, append-nil,
  append_assoc, arith,
}
use native.Mathlib.Decide.{ℕ_discrete}
use uring_proactor.Base.Ring.{size, push, items, items-empty}
use uring_proactor.Base.Ring.Laws.{IsRing, size-push, push-IsRing, items-push}
use uring_proactor.Net.Channel.{Channel}
use uring_proactor.Net.SendBuffer.{SendBuffer}
use uring_proactor.Net.TcpChannelPool.{TcpChannelPool, new_channel, new_channels, init_channels}
use uring_proactor.Net.TcpChannelPool.Fifo.{free_channels, IsIdle, IsChannelPool}

count-rows_from :
    (a i n : ℕ) → count a (rows (λ k. k) i n) ≡ (if leb i a && ltb a (i + n) then 1 else 0)
count-rows_from a i zero = ground arith
count-rows_from a i (suc n) = ground (arith, count-rows_from a (suc i) n)

module _ {W : Type 0} (b : SendBuffer W) (cap : ℕ) (c : IsCapacity cap) (bufs : ℕ → W) where
  new_channel-IsIdle : (w : W) → IsIdle b (new_channel b w)
  unfolding new_channel
  new_channel-IsIdle w = (refl, refl)

  -- What the loop leaves behind, from channel `i` on.
  record Entered (n i : ℕ) (p r : TcpChannelPool b) : Type 0 where
    same_size : r.pool_size ≡ p.pool_size
    same_mask : r.mask ≡ p.mask
    queue : IsRing 32 cap r.free
    behind : items u32_mod cap r.free ≡ items u32_mod cap p.free ++ rows (λ a. a) i n
    idle : (a : ℕ) → i ≤ a → a < i + n → IsIdle b (r.channels a)
    kept : (a : ℕ) → a < i → r.channels a ≡ p.channels a

  new_channels-Entered :
      (n i : ℕ) (p : TcpChannelPool b)
      → p.mask ≡ cap - 1
      → IsRing 32 cap p.free
      → size u32_mod p.free + n ≤ cap
      → Entered n i p (new_channels b n i bufs p)
  unfolding new_channels
  new_channels-Entered zero i p m q le = record {
    same_size = refl;
    same_mask = refl;
    queue = q;
    behind = sym (append-nil (items u32_mod cap p.free));
    idle = λ a lo hi. absurd (omega arith);
    kept = λ a h. refl;
  }
  new_channels-Entered (suc n) i p m q le =
      let p' : TcpChannelPool b = record p {
        channels = update p.channels i (new_channel b (bufs i));
        free = push u32_mod p.mask p.free i;
      } in
      let room : size u32_mod p.free < cap = omega arith in
      let rest =
        new_channels-Entered n (i + 1) p' m (rw m (push-IsRing c 32 (omega arith) p.free q i room))
          (omega (arith, m, pushed_size p m q i room)) in
      record {
        same_size = rest.same_size;
        same_mask = rest.same_mask;
        queue = rest.queue;
        behind =
            rest.behind
            ∙ ap (λ t. t ++ rows (λ a. a) (i + 1) n) (pushed_items p m q i room)
            ∙ append_assoc (items u32_mod cap p.free) (i ∷ []) (rows (λ a. a) (i + 1) n)
            ∙ ap (λ k. items u32_mod cap p.free ++ (i ∷ rows (λ a. a) k n)) (omega arith);
        idle = λ a lo hi. elim (ℕ_discrete a i) [
          | yes e ↦
              subst (IsIdle b)
                (sym (
                  rest.kept a (omega arith)
                  ∙ ap p'.channels e
                  ∙ update_self p.channels i (new_channel b (bufs i))))
                (new_channel-IsIdle (bufs i))
          | no ne ↦ rest.idle a (omega arith) (omega arith)
        ];
        kept = λ a h.
            rest.kept a (omega arith)
            ∙ update_apart p.channels i a (new_channel b (bufs i)) (λ e. absurd (omega (arith, e)));
      }
    where
      pushed_size :
          (p : TcpChannelPool b)
          → p.mask ≡ cap - 1
          → IsRing 32 cap p.free
          → (v : ℕ) → size u32_mod p.free < cap
          → size u32_mod (push u32_mod p.mask p.free v) ≡ size u32_mod p.free + 1
      pushed_size p m q v room = rw m (size-push c 32 (omega arith) p.free q v room)

      pushed_items :
          (p : TcpChannelPool b)
          → p.mask ≡ cap - 1
          → IsRing 32 cap p.free
          → (v : ℕ) → size u32_mod p.free < cap
          → items u32_mod cap (push u32_mod p.mask p.free v) ≡ items u32_mod cap p.free ++ (v ∷ [])
      pushed_items p m q v room = rw m (items-push c 32 (omega arith) p.free q v room)

  -- For a number of channels that is a power of two up to 2 ^ 30, every channel of a new pool is free,
  -- in the order of the indices, and the pool is sound.
  pub init_channels-IsChannelPool :
      (memory : ℕ → Channel W) (queue : ℕ → ℕ)
      → (free_channels b (init_channels b cap bufs memory queue) ≡ rows (λ a. a) 0 cap)
        × IsChannelPool b (λ a. 0) (init_channels b cap bufs memory queue)
  unfolding init_channels size
  init_channels-IsChannelPool memory queue = (
    all_free,
    record {
      is_capacity = subst IsCapacity (sym done.same_size) c;
      masked = done.same_mask ∙ ap (λ t. t - 1) (sym done.same_size);
      queue =
          subst (λ t. IsRing 32 t (init_channels b cap bufs memory queue).free) (sym done.same_size)
            done.queue;
      once = λ a. ground (arith, ap (count a) all_free, count-rows_from a 0 cap, done.same_size);
      idle = λ a lt h. done.idle a (omega arith) (omega (arith, done.same_size));
    },
  )
    where
      blank : TcpChannelPool b
      blank = record {
        pool_size = cap;
        mask = cap - 1;
        channels = memory;
        free = record { slots = queue; head = 0; tail = 0 };
      }

      empty : size u32_mod blank.free ≡ 0
      empty = refl

      done : Entered cap 0 blank (new_channels b cap 0 bufs blank)
      done =
          new_channels-Entered cap 0 blank refl
            (record { head_in = omega arith; tail_in = omega arith; fits = omega arith })
            (omega arith)

      all_free : free_channels b (init_channels b cap bufs memory queue) ≡ rows (λ a. a) 0 cap
      all_free =
          ap (λ t. items u32_mod t (new_channels b cap 0 bufs blank).free) done.same_size
          ∙ done.behind
          ∙ ap (λ t. t ++ rows (λ a. a) 0 cap) (items-empty u32_mod cap blank.free empty)
