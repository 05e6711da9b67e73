-- ===== src/Net/TcpChannelPool.antt =====
-- class TcpChannelPool (include/net/tcp_channel_pool.hpp, src/net/tcp_channel_pool.cpp): the channels
-- of a thread, of which the free ones stand in a circular queue. A channel is its index. The counters
-- are `int`s, with the 32 bits that a machine keeps of them.
pub mod Fifo
pub mod Init
use uring_proactor.Base.{
  ◌==◌, if◌then◌else◌, u32_mod, update, ℕ, zero, suc, ◌+◌, ◌-◌, false, Option, none, some, List, [],
}
use uring_proactor.Base.Results.{◌>>=◌}
use uring_proactor.Base.Ring.{Ring, push, front, advance}
use uring_proactor.Net.Channel.{no_reader, no_writer, Call, Channel, assign}
use uring_proactor.Net.SendBuffer.{SendBuffer}

module _ {W : Type 0} (b : SendBuffer W) where
  pub record TcpChannelPool : Type 0 where
    pub pool_size : ℕ
    pub mask : ℕ
    pub channels : ℕ → Channel W
    -- `free_queue_`, `head_` and `tail_`
    pub free : Ring

  -- `acquire(fd)`, where `calls` is what the application does in `on_accept`; the outer none is a
  -- failed assertion, the inner one the null pointer.
  unfoldable pub acquire_channel :
      ℕ → List Call → TcpChannelPool → Option (Option ℕ × TcpChannelPool)
  acquire_channel fd calls p =
      let idx = front p.mask p.free in
      let assigned = assign b fd calls (p.channels idx) in
      if p.free.head == p.free.tail
      then some (none, p)
      else assigned >>= λ c.
          some (
            some idx,
            record p { channels = update p.channels idx c; free = advance u32_mod p.free },
          )

  -- `release(ch)`, which asserts that the channel is closed.
  unfoldable pub return_channel : ℕ → TcpChannelPool → Option TcpChannelPool
  return_channel idx p = elim (p.channels idx).fd [
    | none ↦ some (record p { free = push u32_mod p.mask p.free idx })
    | some fd ↦ none
  ]

  -- `TcpChannel(-1, pool)`, with its write buffer.
  unfoldable pub new_channel : W → Channel W
  new_channel w = record {
    fd = none;
    token = record { pending = false; closed = false };
    in_flight = 0;
    reader = no_reader;
    writer = no_writer;
    write_buf = w;
    recvs = 0;
    writevs = 0;
    released = 0;
    requests = [];
  }

  -- The loop of the constructor from channel `i` on, and the constructor.
  unfoldable pub new_channels : ℕ → ℕ → (ℕ → W) → TcpChannelPool → TcpChannelPool
  new_channels zero i bufs p = p
  new_channels (suc n) i bufs p = new_channels n (i + 1) bufs (record p {
    channels = update p.channels i (new_channel (bufs i));
    free = push u32_mod p.mask p.free i;
  })

  unfoldable pub init_channels : ℕ → (ℕ → W) → (ℕ → Channel W) → (ℕ → ℕ) → TcpChannelPool
  unfolding new_channels
  init_channels pool_size bufs memory queue = new_channels pool_size 0 bufs (record {
    pool_size = pool_size;
    mask = pool_size - 1;
    channels = memory;
    free = record { slots = queue; head = 0; tail = 0 };
  })
