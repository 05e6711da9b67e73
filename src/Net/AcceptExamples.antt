-- ===== src/Net/AcceptExamples.antt =====
-- A pool of two channels and the completions of an accept: runs of the code, and uses of the theorems.
use uring_proactor.Base.{IsCapacity, ◌-◌, ◌^◌, ◌≡◌, refl, true, false, List, [], ◌∷◌, ◌++◌, arith}
use uring_proactor.Base.Results.{Ends}
use uring_proactor.Net.Channel.{call_submit, call_append}
use uring_proactor.Net.TcpChannelPool.{TcpChannelPool, init_channels, new_channel}
use uring_proactor.Net.TcpChannelPool.Fifo.{IsChannelPool}
use uring_proactor.Net.TcpChannelPool.Init.{init_channels-IsChannelPool}
use uring_proactor.Net.Acceptor.{Accepted, Acceptor, start_accept, accept_all}
use uring_proactor.Net.Acceptor.Serve.{Served, stopped_by, accept_all_lem, accept_all-stops}
use uring_proactor.Net.Examples.{counts_buffer}

two-IsCapacity : IsCapacity 2
two-IsCapacity = record { log = 1; small = omega arith; power = refl }

abbrev two_channels : TcpChannelPool counts_buffer
two_channels =
    init_channels counts_buffer 2 (λ k. (0, 0)) (λ k. new_channel counts_buffer (9, 9)) (λ k. 77)

two_channels-IsChannelPool : IsChannelPool counts_buffer (λ a. 0) two_channels
two_channels-IsChannelPool =
    (init_channels-IsChannelPool counts_buffer 2 two-IsCapacity (λ k. (0, 0))
      (λ k. new_channel counts_buffer (9, 9)) (λ k. 77)).1

-- Three connections, the second of which ends the request; its application sends a greeting.
abbrev three_fds : List Accepted
three_fds =
    (5, true, []) ∷ (6, false, call_append (1 ∷ 2 ∷ []) ∷ call_submit ∷ []) ∷ (7, true, []) ∷ []

-- The third finds no channel.
accept_all_lem_example :
    Ends
      (Served counts_buffer (λ a. 0) three_fds (start_accept counts_buffer two_channels))
      (accept_all counts_buffer three_fds (start_accept counts_buffer two_channels))
accept_all_lem_example =
    accept_all_lem counts_buffer three_fds (start_accept counts_buffer two_channels)
      two_channels-IsChannelPool refl (refl, (refl, (refl, tt)))

-- The error 24 is that of a process with too many descriptors.
accept_all-stops_example :
    Ends
      (λ r.
        (r.waits ≡ false)
        × ((t : Acceptor counts_buffer) × Served counts_buffer
              (λ a. 0)
              three_fds
              (start_accept counts_buffer two_channels)
              t
            × (r ≡ stopped_by counts_buffer (2 ^ 32 - 24) t)))
      (accept_all counts_buffer
        (three_fds ++ ((2 ^ 32 - 24, false, []) ∷ (8, true, []) ∷ []))
        (start_accept counts_buffer two_channels))
accept_all-stops_example =
    accept_all-stops counts_buffer three_fds (start_accept counts_buffer two_channels) (2 ^ 32 - 24)
      false [] ((8, true, []) ∷ []) two_channels-IsChannelPool refl (refl, (refl, (refl, tt))) refl
