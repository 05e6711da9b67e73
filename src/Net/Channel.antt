-- ===== src/Net/Channel.antt =====
-- TcpChannel with its two coroutines (include/net/channel.hpp, src/net/channel.cpp,
-- src/net/handler.cpp) and NotifyToken (include/core/awaiter.hpp, src/core/awaiter.cpp). A
-- coroutine is the place where it is suspended; a function of this file runs a coroutine, and what
-- it calls, until the next suspension. `none` is a failed assertion.
pub mod Invariant
pub mod Serve
pub mod Settled
pub mod Complete
pub mod Run
pub mod Release
use uring_proactor.Base.{
  ltb, leb, ◌==◌, if◌then◌else◌, u32_mod, add_word, sub_word, ℕ, zero, suc, ◌+◌, ◌-◌, ◌^◌, Bool,
  true, false, not, ◌&&◌, Option, none, some, List, [], ◌∷◌, ◌++◌,
}
use uring_proactor.Buffer.Stream.{submit, has_send_data, Iovec, peek_iovec, consume_written, reset}
use uring_proactor.Net.SendBuffer.{SendBuffer}
use uring_proactor.Base.Results.{◌>>=◌}

-- `res > 0` of an `int` in two's complement, of which the upper half stands for the negatives.
abbrev pub is_positive : ℕ → Bool
is_positive n = ltb 0 n && ltb n (2 ^ 31)

-- Where the coroutine of `read_handle_` stands.
pub data ReadAt : Type 0 where
  no_reader reading read_done : ReadAt

-- Where the coroutine of `write_handle_` stands: `parked` in `notify_token_`, of which `handle_` is
-- set exactly then; `writing` in its own token, for the completion of `writev`, with the number of
-- `submitted_bytes`.
pub data WriteAt : Type 0 where
  no_writer parked running write_done : WriteAt
  writing : ℕ → WriteAt

pub record NotifyToken : Type 0 where
  pub pending : Bool
  pub closed : Bool

-- What the channel asks of others, in the order of the calls: the kernel, the read buffer, the
-- thread and the pool. A descriptor of -1 is `none`.
pub data Request : Type 0 where
  multishot_recv : Option ℕ → Request
  writev : Option ℕ → List Iovec → Request
  shutdown close_fd : Option ℕ → Request
  set_buf_data_size : ℕ → ℕ → Request
  push_buf : ℕ → Request
  mark_pending : Request
  reset_reads : Request
  release_channel : Request

-- What an application may call of the channel in a callback or between completions.
pub data Call : Type 0 where
  call_append call_prepend : List ℕ → Call
  call_submit call_close : Call

-- `recvs` and `writevs` are the requests that the kernel has and has not yet completed for good.
pub record Channel (W : Type 0) : Type 0 where
  pub fd : Option ℕ
  pub token : NotifyToken
  pub in_flight : ℕ
  pub reader : ReadAt
  pub writer : WriteAt
  pub write_buf : W
  pub recvs : ℕ
  pub writevs : ℕ
  pub released : ℕ
  pub requests : List Request

module _ {W : Type 0} (b : SendBuffer W) where
  open b use {append, prepend, submit, has_send_data, peek_iovec, consume_written, reset}

  abbrev pub ask : Request → Channel W → Channel W
  ask r c = record c { requests = c.requests ++ (r ∷ []) }

  -- `in_flight_inc()` and `has_in_flight()`
  abbrev pub in_flight_inc : Channel W → Channel W
  in_flight_inc c = record c { in_flight = add_word u32_mod c.in_flight 1 }

  abbrev pub has_in_flight : Channel W → Bool
  has_in_flight c = is_positive c.in_flight

  -- The end of `tcp_write_loop`.
  abbrev pub end_writer : Channel W → Channel W
  end_writer c = record c { write_buf = reset c.write_buf; writer = write_done }

  -- `prep_writev` and what follows it, up to the suspension.
  abbrev pub start_write : List Iovec → ℕ → Channel W → Channel W
  start_write vecs bytes c =
      in_flight_inc
        (record (ask (writev c.fd vecs) c) { writer = writing bytes; writevs = c.writevs + 1 })

  -- The write loop after its first `co_await`; `again` is the head of the loop.
  unfoldable pub write_turn : (Channel W → Option (Channel W)) → Channel W → Option (Channel W)
  write_turn again c =
      if c.token.closed && not (has_in_flight c)
      then some (end_writer c)
      else elim (peek_iovec c.write_buf) [
        | none ↦ again c
        | some (vecs, bytes) ↦ some (start_write vecs bytes c)
      ]

  -- The head of the write loop, in at most `n` rounds.
  unfoldable pub write_loop : ℕ → Channel W → Option (Channel W)
  unfolding write_turn
  write_loop zero c = none
  write_loop (suc n) c =
      let turn =
        write_turn (write_loop n) (record c { token = record c.token { pending = false } }) in
      let go = write_turn (write_loop n) c in
      if has_send_data c.write_buf
      then go
      else if c.token.pending
      then turn
      else some (record c { writer = parked })

  -- `resume()` of the write loop, from inside `notify_token_`. The head of the loop is reached at
  -- most twice: the first time it may find `pending_` set.
  unfoldable pub wake : Channel W → Option (Channel W)
  unfolding write_loop write_turn
  wake c = write_turn (write_loop 2) (record c { writer = running })

  -- `notify()`
  unfoldable pub notify : Channel W → Option (Channel W)
  unfolding wake
  notify c = elim c.writer [
    | parked ↦ wake c
    | _ ↦ some (record c { token = record c.token { pending = true } })
  ]

  -- `close()`
  unfoldable pub close : Channel W → Option (Channel W)
  unfolding notify
  close c = do
    c1 ← notify (record c { token = record c.token { closed = true } })
    some (record (ask (close_fd c1.fd) (ask (shutdown c1.fd) c1)) { fd = none })

  -- `release(this)` of the pool asserts that the channel is closed.
  unfoldable pub release_to_pool : Channel W → Option (Channel W)
  release_to_pool c = elim c.fd [
    | none ↦ some (record (ask release_channel c) { released = c.released + 1 })
    | some _ ↦ none
  ]

  unfoldable pub on_drained : Channel W → Option (Channel W)
  unfolding notify release_to_pool
  on_drained c = if c.token.closed then notify c >>= release_to_pool else some c

  -- `in_flight_dec()`
  unfoldable pub in_flight_dec : Channel W → Option (Channel W)
  unfolding on_drained
  in_flight_dec c =
      let c1 = record c { in_flight = sub_word u32_mod c.in_flight 1 } in
      if c1.in_flight == 0 then on_drained c1 else some c1

  -- `append`, `prepend` and `submit` of the channel, and the calls of a callback in turn.
  unfoldable pub run_call : Call → Channel W → Option (Channel W)
  unfolding close notify
  run_call (call_append bytes) c = some (record c { write_buf = (append bytes c.write_buf).1 })
  run_call (call_prepend bytes) c = some (record c { write_buf = (prepend bytes c.write_buf).1 })
  run_call call_submit c =
      if (submit c.write_buf).0
      then notify (record c { write_buf = (submit c.write_buf).1 })
      else some (record c { write_buf = (submit c.write_buf).1 })
  run_call call_close c = close c

  unfoldable pub run_calls : List Call → Channel W → Option (Channel W)
  unfolding run_call
  run_calls [] c = some c
  run_calls (x ∷ rest) c = run_call x c >>= run_calls rest

  -- The start of `tcp_read_loop`, and its next request.
  abbrev pub start_recv : Channel W → Channel W
  start_recv c =
      in_flight_inc (record (ask (multishot_recv c.fd) c) { recvs = c.recvs + 1; reader = reading })

  abbrev pub close_if_open : Channel W → Option (Channel W)
  close_if_open c = if c.token.closed then some c else close c

  -- The read loop with a completion of `res` bytes in buffer `idx`, where `more` is the flag
  -- IORING_CQE_F_MORE; `calls` is what the application does in `on_close`.
  unfoldable pub read_turn : ℕ → Bool → ℕ → List Call → Channel W → Option (Channel W)
  unfolding in_flight_dec run_calls close
  read_turn res more idx calls c = do
    c1 ← in_flight_dec (record c { recvs = if more then c.recvs else c.recvs - 1 })
    if is_positive res
        then (let c2 = if more then c1 else start_recv c1 in
            some (ask mark_pending (ask (push_buf idx) (ask (set_buf_data_size idx res) c2))))
        else (do
          c2 ← run_calls calls c1
          c3 ← close_if_open c2
          some (record (ask reset_reads c3) { reader = read_done }))

  -- `complete()` of the token of the read loop.
  unfoldable pub recv_done : ℕ → Bool → ℕ → List Call → Channel W → Option (Channel W)
  unfolding read_turn
  recv_done res more idx calls c = elim c.reader [
    | reading ↦ read_turn res more idx calls c
    | _ ↦ some c
  ]

  -- The write loop with the completion of a `writev` of `submitted` bytes; `calls` is what the
  -- application does in `on_write`.
  unfoldable pub written_turn : ℕ → ℕ → List Call → Channel W → Option (Channel W)
  unfolding in_flight_dec run_calls close write_loop
  written_turn submitted res calls c = do
    c1 ← in_flight_dec (record c { writer = running; writevs = c.writevs - 1 })
    if is_positive res
        then (if leb res submitted
            then (do
              w ← consume_written res c1.write_buf
              c2 ← run_calls calls (record c1 { write_buf = w })
              write_loop 2 c2)
            else none)
        else (do c2 ← close_if_open c1; some (end_writer c2))

  -- `complete()` of the token of the write loop.
  unfoldable pub writev_done : ℕ → List Call → Channel W → Option (Channel W)
  unfolding written_turn
  writev_done res calls c = elim c.writer [
    | writing submitted ↦ written_turn submitted res calls c
    | _ ↦ some c
  ]

  -- `assign(fd)`, where `calls` is what the application does in `on_accept`.
  unfoldable pub assign : ℕ → List Call → Channel W → Option (Channel W)
  unfolding run_calls write_loop
  assign fd calls c = do
    let c1 =
        start_recv (record c { fd = some fd; token = record { pending = false; closed = false } })
    c2 ← write_loop 2 (record c1 { writer = running })
    run_calls calls c2
