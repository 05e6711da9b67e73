-- ===== src/Net/Acceptor.antt =====
-- The coroutine accept_loop (src/net/acceptor.cpp) over the channel pool of its thread. A completion of
-- the multishot accept has a result, the flag that more will come, and what the application does in
-- `on_accept`.
pub mod Serve
use uring_proactor.Base.{
  leb, if◌then◌else◌, ℕ, ◌+◌, ◌-◌, ◌^◌, Bool, true, false, Option, none, some, List, [], ◌∷◌, ◌++◌,
}
use uring_proactor.Base.Results.{◌>>=◌}
use uring_proactor.Net.Channel.{Call}
use uring_proactor.Net.SendBuffer.{SendBuffer}
use uring_proactor.Net.TcpChannelPool.{TcpChannelPool, acquire_channel}

abbrev pub Accepted : Type 0
Accepted = ℕ × Bool × List Call

pub data LogLine : Type 0 where
  accept_error : ℕ → LogLine
  pool_exhausted : LogLine

-- `fd < 0` of an `int` in two's complement.
abbrev pub is_error : ℕ → Bool
is_error res = leb (2 ^ 31) res

module _ {W : Type 0} (b : SendBuffer W) where
  -- `waits` while the coroutine is suspended at its token; `accepts` counts the requests for a
  -- multishot accept, and `closed_fds` are the descriptors that it closed.
  pub record Acceptor : Type 0 where
    pub pool : TcpChannelPool b
    pub waits : Bool
    pub accepts : ℕ
    pub closed_fds : List ℕ
    pub logged : List LogLine

  -- From the start to the first suspension.
  abbrev pub start_accept : TcpChannelPool b → Acceptor
  start_accept pool = record {
    pool = pool;
    waits = true;
    accepts = 1;
    closed_fds = [];
    logged = [];
  }

  unfoldable pub rearm : Bool → Acceptor → Acceptor
  rearm more s = if more then s else record s { accepts = s.accepts + 1 }

  unfoldable pub drop_if_null : ℕ → Option ℕ × TcpChannelPool b → Acceptor → Acceptor
  drop_if_null fd (some idx, pool) s = record s { pool = pool }
  drop_if_null fd (none, pool) s = record s {
    pool = pool;
    closed_fds = s.closed_fds ++ (fd ∷ []);
    logged = s.logged ++ (pool_exhausted ∷ []);
  }

  -- The body of the loop, from a completion to the next suspension or the end of the coroutine.
  unfoldable pub accept_done : Accepted → Acceptor → Option Acceptor
  unfolding rearm drop_if_null
  accept_done (fd, more, calls) s =
      let served = acquire_channel b fd calls (rearm more s).pool >>= λ r.
      some (drop_if_null fd r (rearm more s)) in
      if is_error fd
      then some (record s { waits = false; logged = s.logged ++ (accept_error (2 ^ 32 - fd) ∷ []) })
      else served

  -- The completions in turn; once the coroutine has ended, nothing takes them.
  unfoldable pub accept_all : List Accepted → Acceptor → Option Acceptor
  unfolding accept_done
  accept_all [] s = some s
  accept_all (c ∷ rest) s =
      accept_done c s >>= λ r. let later = accept_all rest r in if r.waits then later else some r
