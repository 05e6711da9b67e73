-- ===== src/Net/Examples.antt =====
-- A connection in small: a write buffer that only counts bytes, runs of the code, and uses of the
-- theorems.
use uring_proactor.Base.{
  ltb, leb, ◌==◌, if◌then◌else◌, length, ℕ, ◌+◌, ◌-◌, ◌≡◌, refl, Bool, true, false, none, some,
  List, [], ◌∷◌, arith,
}
use uring_proactor.Net.Channel.{
  no_reader, reading, no_writer, parked, writing, multishot_recv, writev, shutdown, close_fd,
  set_buf_data_size, push_buf, mark_pending, Call, call_append, call_submit, call_close, Channel,
  write_turn, write_loop, wake, notify, run_call, run_calls, recv_done, writev_done, assign, close,
  read_turn, in_flight_dec, on_drained,
}
use uring_proactor.Net.SendBuffer.{SendBuffer}
use uring_proactor.Base.Results.{Ends}
use uring_proactor.Net.Channel.Complete.{IsSettled}
use uring_proactor.Net.Channel.Release.{
  Lost, peer_close_lem, closing, Twice, second_release_lem, early_release_lem,
}
use uring_proactor.Net.Channel.Run.{
  received, sent, called, step, Reach, assigned, later, assign-IsSettled, Reach-IsSettled,
  step_served, sends_on,
}

-- How many bytes wait, and how many are submitted.
abbrev pub Counts : Type 0
Counts = ℕ × ℕ

abbrev counts_submit : Counts → Bool × Counts
counts_submit w = if w.0 == 0 then (false, w) else (true, (0, w.1 + w.0))

abbrev pub counts_buffer : SendBuffer Counts
counts_buffer = record {
  append = λ bytes w. (true, (w.0 + length bytes, w.1));
  prepend = λ bytes w. (true, (w.0 + length bytes, w.1));
  submit = counts_submit;
  has_send_data = λ w. ltb 0 w.1;
  peek_iovec = λ w. if w.1 == 0 then none else some ([], w.1);
  consume_written = λ n w. if leb n w.1 then some (w.0, w.1 - n) else none;
  reset = λ w. (0, 0);
  queued = λ w. w.1;
  has-append = λ bytes w. refl;
  queued-append = λ bytes w. refl;
  has-prepend = λ bytes w. refl;
  queued-prepend = λ bytes w. refl;
  has-submit = λ w e. ground arith;
  queued-submit = λ w. ground arith;
  refused-submit = λ w e. ground arith;
  peek-none = λ w e. ground arith;
  peek-some = λ w e. ([], w.1, (ground arith), omega arith);
  written = λ w n h. ((w.0, w.1 - n), ground arith);
  has-reset = λ w. refl;
}

abbrev unused : Channel Counts
unused = record {
  fd = none;
  token = record { pending = false; closed = false };
  in_flight = 0;
  reader = no_reader;
  writer = no_writer;
  write_buf = (0, 0);
  recvs = 0;
  writevs = 0;
  released = 0;
  requests = [];
}

-- The connection after `assign`, and after the application has submitted three bytes.
abbrev opened : Channel Counts
opened = record {
  fd = some 5;
  token = record { pending = false; closed = false };
  in_flight = 1;
  reader = reading;
  writer = parked;
  write_buf = (0, 0);
  recvs = 1;
  writevs = 0;
  released = 0;
  requests = multishot_recv (some 5) ∷ [];
}

abbrev three_bytes : List Call
three_bytes = call_append (1 ∷ 2 ∷ 3 ∷ []) ∷ call_submit ∷ []

abbrev busy : Channel Counts
busy = record opened {
  in_flight = 2;
  writer = writing 3;
  write_buf = (0, 3);
  writevs = 1;
  requests = multishot_recv (some 5) ∷ writev (some 5) [] ∷ [];
}

assign_run : assign counts_buffer 5 [] unused ≡ some opened
unfolding assign write_loop run_calls
assign_run = refl

submit_run : step counts_buffer (called three_bytes) opened ≡ some busy
unfolding step run_calls run_call notify wake write_turn
submit_run = refl

opened-Reach : Reach counts_buffer opened
opened-Reach = assigned 5 [] unused refl refl assign_run

busy-Reach : Reach counts_buffer busy
busy-Reach = later (called three_bytes) opened-Reach tt submit_run

step_served_example :
    (r : Channel Counts) × (step counts_buffer (sent 2 (call_close ∷ [])) busy ≡ some r)
    × Reach counts_buffer r
step_served_example =
    step_served counts_buffer (sent 2 (call_close ∷ [])) busy-Reach (λ p. omega arith)

sends_on_example :
    (busy.recvs ≡ 1)
    × (busy.reader ≡ reading)
    × (counts_buffer.has_send_data busy.write_buf ≡ true
        → (bytes : ℕ) × (busy.writer ≡ writing bytes) × (busy.writevs ≡ 1))
sends_on_example = sends_on counts_buffer busy-Reach refl

Reach-IsSettled_example : IsSettled counts_buffer busy
Reach-IsSettled_example = Reach-IsSettled counts_buffer busy-Reach

assign-IsSettled_example :
    Ends (IsSettled counts_buffer) (assign counts_buffer 5 three_bytes unused)
assign-IsSettled_example = assign-IsSettled counts_buffer 5 three_bytes unused refl refl

peer_close_example : Ends (Lost counts_buffer 0) (recv_done counts_buffer 0 false 0 [] opened)
peer_close_example = peer_close_lem counts_buffer opened 0 0 opened-Reach refl refl refl refl

-- The application has closed the connection: its write loop waits on, for a count of 0.
abbrev closed_idle : Channel Counts
closed_idle =
    closing counts_buffer parked 0 (0, 0) false 0
      (multishot_recv (some 5) ∷ shutdown (some 5) ∷ close_fd (some 5) ∷ [])

close_run : step counts_buffer (called (call_close ∷ [])) opened ≡ some closed_idle
unfolding step run_calls run_call close notify wake write_turn
close_run = refl

closed_idle-Reach : Reach counts_buffer closed_idle
closed_idle-Reach = later (called (call_close ∷ [])) opened-Reach tt close_run

second_release_example :
    Ends (Twice counts_buffer 0 1 0) (recv_done counts_buffer 7 false 0 [] closed_idle)
second_release_example =
    second_release_lem counts_buffer 7 0 0 1 refl refl closed_idle closed_idle-Reach refl refl refl
      refl

-- Data that leaves the receive request running, an answer, and a close.
abbrev read_once : Channel Counts
read_once = record opened {
  in_flight = 0;
  requests = multishot_recv (some 5) ∷ set_buf_data_size 0 7 ∷ push_buf 0 ∷ mark_pending ∷ [];
}

read_run : step counts_buffer (received 7 true 0 []) opened ≡ some read_once
unfolding step recv_done read_turn in_flight_dec on_drained
read_run = refl

abbrev answer : List Call
answer = call_append (1 ∷ 2 ∷ 3 ∷ []) ∷ call_submit ∷ call_close ∷ []

abbrev closed_busy : Channel Counts
closed_busy =
    closing counts_buffer (writing 3) 1 (0, 3) true 0
      (multishot_recv (some 5)
        ∷ set_buf_data_size 0 7
        ∷ push_buf 0
        ∷ mark_pending
        ∷ writev (some 5) []
        ∷ shutdown (some 5)
        ∷ close_fd (some 5)
        ∷ [])

answer_run : step counts_buffer (called answer) read_once ≡ some closed_busy
unfolding step run_calls run_call close notify wake write_turn
answer_run = refl

closed_busy-Reach : Reach counts_buffer closed_busy
closed_busy-Reach =
    later (called answer) (later (received 7 true 0 []) opened-Reach (λ e. refl) read_run) tt
      answer_run

early_release_example :
    Ends
      (λ r. (r.released ≡ 1) × (r.recvs ≡ 1) × (r.reader ≡ reading))
      (writev_done counts_buffer 0 [] closed_busy)
early_release_example = early_release_lem counts_buffer 3 0 (0, 3) true 0 closed_busy.requests refl
