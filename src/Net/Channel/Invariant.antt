-- ===== src/Net/Channel/Invariant.antt =====
-- What holds of a channel, also while its write loop runs, and what a run of the loop keeps.
use uring_proactor.Base.{
  Bool-cases, ℕ, suc, ◌≤◌, ◌≡◌, refl, ◌∙◌, ◌≢◌, inl, inr, true, false, not, ◌&&◌, Option, arith,
}
use uring_proactor.Net.Channel.{
  ReadAt, reading, WriteAt, no_writer, parked, running, write_done, writing, Channel, has_in_flight,
  end_writer, write_turn, write_loop, wake,
}
use uring_proactor.Net.SendBuffer.{SendBuffer}
use uring_proactor.Base.Results.{Ends, ends, Ends-map}

-- How many `writev` the write loop waits for, and how many bytes it submitted.
abbrev pub write_count : WriteAt → ℕ
write_count (writing n) = 1
write_count _ = 0

abbrev pub write_bytes : WriteAt → ℕ
write_bytes (writing n) = n
write_bytes _ = 0

abbrev pub read_count : ReadAt → ℕ
read_count reading = 1
read_count _ = 0

module _ {W : Type 0} (b : SendBuffer W) where
  -- The write loop waits for `notify` only with nothing to send and no notification pending, and it
  -- ends only after `close`.
  pub record IsLive (c : Channel W) : Type 0 where
    pub idle : c.writer ≡ parked → (c.token.pending ≡ false) × (b.has_send_data c.write_buf ≡ false)
    pub started : c.writer ≢ no_writer
    pub alive : c.token.closed ≡ false → c.writer ≢ write_done
    pub counted : c.writevs ≡ write_count c.writer
    pub submitted : write_bytes c.writer ≤ b.queued c.write_buf

  -- What a run of the write loop leaves alone.
  pub record Frame (c r : Channel W) : Type 0 where
    pub same_fd : r.fd ≡ c.fd
    pub same_closed : r.token.closed ≡ c.token.closed
    pub same_reader : r.reader ≡ c.reader
    pub same_recvs : r.recvs ≡ c.recvs
    pub same_released : r.released ≡ c.released

  pub Frame-trans : {c r s : Channel W} → Frame c r → Frame r s → Frame c s
  Frame-trans f g = record {
    same_fd = g.same_fd ∙ f.same_fd;
    same_closed = g.same_closed ∙ f.same_closed;
    same_reader = g.same_reader ∙ f.same_reader;
    same_recvs = g.same_recvs ∙ f.same_recvs;
    same_released = g.same_released ∙ f.same_released;
  }

  -- The write loop has run to a suspension, or to its end.
  pub record Ran (c r : Channel W) : Type 0 where
    pub live : IsLive r
    pub frame : Frame c r
    pub stopped : r.writer ≢ running

  end_writer-Ran : (c : Channel W) → c.writevs ≡ 0 → c.token.closed ≡ true → Ran c (end_writer b c)
  end_writer-Ran c none_out closed = record {
    live = record {
      idle = λ e. ground arith;
      started = λ e. ground arith;
      alive = λ e. ground arith;
      counted = none_out;
      submitted = omega arith;
    };
    frame = record {
      same_fd = refl;
      same_closed = refl;
      same_reader = refl;
      same_recvs = refl;
      same_released = refl;
    };
    stopped = λ e. ground arith;
  }

  -- The loop with something to send comes to its next `writev`, or to its end.
  write_turn-busy :
      (again : Channel W → Option (Channel W)) (c : Channel W)
      → c.writevs ≡ 0
      → b.has_send_data c.write_buf ≡ true
      → Ends (Ran c) (write_turn b again c)
  unfolding write_turn
  write_turn-busy again c none_out some_data =
      let (vecs, bytes, e, le) = b.peek-some c.write_buf some_data in
      elim (Bool-cases (c.token.closed && not (has_in_flight b c))) [
        | inl over ↦ rw over (ends (end_writer-Ran c none_out (ground arith)))
        | inr on ↦
            rw (on, e)
              (ends (record {
                live = record {
                  idle = λ p. ground arith;
                  started = λ p. ground arith;
                  alive = λ p q. ground arith;
                  counted = omega arith;
                  submitted = le;
                };
                frame = record {
                  same_fd = refl;
                  same_closed = refl;
                  same_reader = refl;
                  same_recvs = refl;
                  same_released = refl;
                };
                stopped = λ p. ground arith;
              }))
      ]

  -- With nothing to send it comes to its head again, or to its end.
  write_turn-idle :
      (again : Channel W → Option (Channel W)) (c : Channel W)
      → c.writevs ≡ 0
      → b.has_send_data c.write_buf ≡ false
      → Ends (Ran c) (again c)
      → Ends (Ran c) (write_turn b again c)
  unfolding write_turn
  write_turn-idle again c none_out no_data h =
      elim (Bool-cases (c.token.closed && not (has_in_flight b c))) [
        | inl over ↦ rw over (ends (end_writer-Ran c none_out (ground arith)))
        | inr on ↦ rw (on, b.peek-none c.write_buf no_data) h
      ]

  parked-Ran :
      (c : Channel W)
      → c.writevs ≡ 0
      → c.token.pending ≡ false
      → b.has_send_data c.write_buf ≡ false
      → Ran c (record c { writer = parked })
  parked-Ran c none_out quiet no_data = record {
    live = record {
      idle = λ e. (quiet, no_data);
      started = λ e. ground arith;
      alive = λ p q. ground arith;
      counted = none_out;
      submitted = omega arith;
    };
    frame = record {
      same_fd = refl;
      same_closed = refl;
      same_reader = refl;
      same_recvs = refl;
      same_released = refl;
    };
    stopped = λ e. ground arith;
  }

  -- One round is enough where no notification is pending.
  write_loop-quiet :
      (n : ℕ) (c : Channel W)
      → c.writevs ≡ 0
      → c.token.pending ≡ false
      → Ends (Ran c) (write_loop b (suc n) c)
  unfolding write_loop
  write_loop-quiet n c none_out quiet = elim (Bool-cases (b.has_send_data c.write_buf)) [
    | inl some_data ↦ rw some_data (write_turn-busy (write_loop b n) c none_out some_data)
    | inr no_data ↦ simp (no_data, quiet) (ends (parked-Ran c none_out quiet no_data))
  ]

  quiet-Ran :
      (c r : Channel W) → Ran (record c { token = record c.token { pending = false } }) r → Ran c r
  quiet-Ran c r h = record {
    live = h.live;
    stopped = h.stopped;
    frame = record {
      same_fd = h.frame.same_fd;
      same_closed = h.frame.same_closed;
      same_reader = h.frame.same_reader;
      same_recvs = h.frame.same_recvs;
      same_released = h.frame.same_released;
    };
  }

  -- Two rounds are always enough.
  pub write_loop-Ran : (c : Channel W) → c.writevs ≡ 0 → Ends (Ran c) (write_loop b 2 c)
  unfolding write_loop
  write_loop-Ran c none_out = elim (Bool-cases (b.has_send_data c.write_buf)) [
    | inl some_data ↦ rw some_data (write_turn-busy (write_loop b 1) c none_out some_data)
    | inr no_data ↦ elim (Bool-cases c.token.pending) [
      | inr quiet ↦ simp (no_data, quiet) (ends (parked-Ran c none_out quiet no_data))
      | inl told ↦
          simp (no_data, told)
            (Ends-map
              (write_turn-idle (write_loop b 1) (quieted) none_out no_data
                (write_loop-quiet 0 quieted none_out refl))
              (quiet-Ran c))
    ]
  ]
    where
      quieted : Channel W
      quieted = record c { token = record c.token { pending = false } }

  pub wake-Ran : (c : Channel W) → c.writevs ≡ 0 → Ends (Ran c) (wake b c)
  unfolding wake
  wake-Ran c none_out = elim (Bool-cases (b.has_send_data c.write_buf)) [
    | inl some_data ↦ Ends-map (write_turn-busy (write_loop b 2) awake none_out some_data) same
    | inr no_data ↦
        Ends-map
          (write_turn-idle (write_loop b 2) awake none_out no_data (write_loop-Ran awake none_out))
          same
  ]
    where
      awake : Channel W
      awake = record c { writer = running }

      same : (r : Channel W) → Ran awake r → Ran c r
      same r h = record {
        live = h.live;
        stopped = h.stopped;
        frame = record {
          same_fd = h.frame.same_fd;
          same_closed = h.frame.same_closed;
          same_reader = h.frame.same_reader;
          same_recvs = h.frame.same_recvs;
          same_released = h.frame.same_released;
        };
      }
