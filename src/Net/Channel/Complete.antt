-- ===== src/Net/Channel/Complete.antt =====
-- Every completion, and every call of the application between completions, keeps what holds of a
-- channel, and no assertion fails.
use uring_proactor.Base.{
  leb, if◌then◌else◌, Bool-cases, le→leb, ℕ, ◌-◌, ◌≤◌, ◌≡◌, refl, sym, ap, ◌∙◌, ◌≢◌, ◌⊎◌, inl, inr,
  Bool, true, false, none, some, List, arith,
}
use uring_proactor.Base.Results.{◌>>=◌, Ends, ends, Ends-bind, Ends-map}
use uring_proactor.Net.Channel.{
  is_positive, ReadAt, no_reader, reading, read_done, WriteAt, no_writer, parked, running,
  write_done, writing, set_buf_data_size, push_buf, mark_pending, reset_reads, Call, Channel, ask,
  end_writer, write_loop, run_calls, start_recv, close_if_open, read_turn, recv_done, written_turn,
  writev_done,
}
use uring_proactor.Net.Channel.Invariant.{
  write_count, write_bytes, read_count, IsLive, write_loop-Ran,
}
use uring_proactor.Net.Channel.Serve.{Served, Served-refl, Served-trans, close-Served}
use uring_proactor.Net.Channel.Settled.{in_flight_dec-Served, run_calls-Served}
use uring_proactor.Net.SendBuffer.{SendBuffer}

module _ {W : Type 0} (b : SendBuffer W) where
  pub record IsSettled (c : Channel W) : Type 0 where
    pub live : IsLive b c
    pub shut : c.token.closed ≡ true → c.fd ≡ none
    pub suspended : c.writer ≢ running
    pub receives : c.recvs ≡ read_count c.reader
    pub reads : c.token.closed ≡ false → c.reader ≡ reading

  -- What settles a channel again, where its read loop is as it was.
  again-IsSettled :
      {c r : Channel W}
      → IsSettled c
      → IsLive b r
      → (r.token.closed ≡ true → r.fd ≡ none)
      → r.writer ≢ running
      → r.recvs ≡ c.recvs
      → r.reader ≡ c.reader
      → (c.token.closed ≡ true → r.token.closed ≡ true)
      → IsSettled r
  again-IsSettled {c} {r} i live shut stops recvs reader closes = record {
    live = live;
    shut = shut;
    suspended = stops;
    receives = recvs ∙ i.receives ∙ ap read_count (sym reader);
    reads = λ e. reader ∙ i.reads (opened e);
  }
    where
      opened : r.token.closed ≡ false → c.token.closed ≡ false
      opened e = elim (Bool-cases c.token.closed) [
        | inl q ↦ absurd (ground (arith, closes q))
        | inr q ↦ q
      ]

  Served-IsSettled : {c r : Channel W} → IsSettled c → Served b c r → IsSettled r
  Served-IsSettled i h =
      again-IsSettled i h.live (h.closed_fd i.shut) (h.still_waits i.suspended) h.same_recvs
        h.same_reader h.still_closed

  -- The calls of an application between completions, as in `on_read`.
  pub run_calls-IsSettled :
      (calls : List Call) (c : Channel W) → IsSettled c → Ends IsSettled (run_calls b calls c)
  run_calls-IsSettled calls c i =
      Ends-map (run_calls-Served b calls c i.live) (λ r h. Served-IsSettled i h)

  close_if_open-Served :
      (c : Channel W)
      → IsLive b c
      → (c.token.closed ≡ true → c.fd ≡ none)
      → Ends (λ r. Served b c r × (r.token.closed ≡ true) × (r.fd ≡ none)) (close_if_open b c)
  close_if_open-Served c l shut = elim (Bool-cases c.token.closed) [
    | inl closing ↦ simp closing (ends (Served-refl b l, closing, shut closing))
    | inr still_open ↦ simp still_open (close-Served b c l)
  ]

  -- After data the read loop waits again, with one request in the kernel.
  read_on :
      (more : Bool) (idx res : ℕ) (c : Channel W)
      → IsLive b c
      → (c.token.closed ≡ true → c.fd ≡ none)
      → c.writer ≢ running
      → c.reader ≡ reading
      → c.recvs ≡ (if more then 1 else 0)
      → IsSettled (
          ask b mark_pending (
            ask b
              (push_buf idx)
              (ask b (set_buf_data_size idx res) (if more then c else start_recv b c))))
  read_on true idx res c l shut stops at_read one = record {
    live = record {
      idle = l.idle;
      started = l.started;
      alive = l.alive;
      counted = l.counted;
      submitted = l.submitted;
    };
    shut = shut;
    suspended = stops;
    receives = one ∙ ap read_count (sym at_read);
    reads = λ e. at_read;
  }
  read_on false idx res c l shut stops at_read none_left = record {
    live = record {
      idle = l.idle;
      started = l.started;
      alive = l.alive;
      counted = l.counted;
      submitted = l.submitted;
    };
    shut = shut;
    suspended = stops;
    receives = omega arith;
    reads = λ e. refl;
  }

  -- A request that the kernel has not ended yet is counted down with the others.
  read_turn-IsSettled :
      (res : ℕ) (more : Bool) (idx : ℕ) (calls : List Call) (c : Channel W)
      → IsSettled c
      → c.reader ≡ reading
      → (more ≡ true → is_positive res ≡ true)
      → Ends IsSettled (read_turn b res more idx calls c)
  unfolding read_turn
  read_turn-IsSettled res more idx calls c i at_read goes_on =
      Ends-bind (in_flight_dec-Served b ended live i.shut)
        λ c1 h. by_result c1 h (Bool-cases (is_positive res))
    where
      ended : Channel W
      ended = record c { recvs = if more then c.recvs else c.recvs - 1 }

      live : IsLive b ended
      live = record {
        idle = i.live.idle;
        started = i.live.started;
        alive = i.live.alive;
        counted = i.live.counted;
        submitted = i.live.submitted;
      }

      one_left : (if more then c.recvs else c.recvs - 1) ≡ (if more then 1 else 0)
      one_left = ground (arith, i.receives, at_read)

      none_left : is_positive res ≡ false → (if more then c.recvs else c.recvs - 1) ≡ 0
      none_left failed = elim (Bool-cases more) [
        | inl goes ↦ absurd (ground (arith, goes_on goes))
        | inr stops ↦ ground (arith, i.receives, at_read)
      ]

      over :
          {c3 : Channel W}
          → Served b ended c3
          → c3.token.closed ≡ true
          → c3.fd ≡ none
          → is_positive res ≡ false
          → IsSettled (record (ask b reset_reads c3) { reader = read_done })
      over h closing no_fd failed = record {
        live = record {
          idle = h.live.idle;
          started = h.live.started;
          alive = h.live.alive;
          counted = h.live.counted;
          submitted = h.live.submitted;
        };
        shut = λ e. no_fd;
        suspended = h.still_waits i.suspended;
        receives = h.same_recvs ∙ none_left failed;
        reads = λ e. absurd (ground arith);
      }

      by_result :
          (c1 : Channel W)
          → Served b ended c1
          → (is_positive res ≡ true) ⊎ (is_positive res ≡ false)
          → Ends IsSettled (
              if is_positive res
              then some (
                  ask b mark_pending (
                    ask b
                      (push_buf idx)
                      (ask b (set_buf_data_size idx res) (if more then c1 else start_recv b c1))))
              else run_calls b calls c1 >>= λ c2. close_if_open b c2 >>= λ c3.
                  some (record (ask b reset_reads c3) { reader = read_done }))
      by_result c1 h (inl data_read) = rw data_read (
          ends (
            read_on more idx res c1 h.live (h.closed_fd i.shut) (h.still_waits i.suspended)
              (h.same_reader ∙ at_read) (h.same_recvs ∙ one_left)))
      by_result c1 h (inr failed) = rw failed (
          Ends-bind (run_calls-Served b calls c1 h.live) λ c2 k.
            Ends-bind (close_if_open-Served c2 k.live (k.closed_fd (h.closed_fd i.shut)))
              λ c3 q. ends (over (Served-trans b h (Served-trans b k q.0)) q.1 q.2 failed))

  -- A completion for the read loop, of `res` bytes or an error, keeps a channel settled, whatever
  -- the application calls in `on_close`; no assertion fails. The kernel marks a completion that is
  -- not of data as the last one of its request.
  pub recv_done-IsSettled :
      (res : ℕ) (more : Bool) (idx : ℕ) (calls : List Call) (c : Channel W)
      → IsSettled c
      → (more ≡ true → is_positive res ≡ true)
      → Ends IsSettled (recv_done b res more idx calls c)
  unfolding recv_done
  recv_done-IsSettled res more idx calls c i goes_on = by_place c.reader refl
    where
      by_place :
          (r : ReadAt)
          → c.reader ≡ r
          → Ends IsSettled (elim r [ reading ↦ read_turn b res more idx calls c | _ ↦ some c ])
      by_place reading e = read_turn-IsSettled res more idx calls c i e goes_on
      by_place no_reader e = ends i
      by_place read_done e = ends i

  written_turn-IsSettled :
      (submitted res : ℕ) (calls : List Call) (c : Channel W)
      → IsSettled c
      → c.writer ≡ writing submitted
      → (is_positive res ≡ true → res ≤ submitted)
      → Ends IsSettled (written_turn b submitted res calls c)
  unfolding written_turn
  written_turn-IsSettled submitted res calls c i at_write no_more =
      Ends-bind (in_flight_dec-Served b ended live i.shut)
        λ c1 h. by_result c1 h (Bool-cases (is_positive res))
    where
      ended : Channel W
      ended = record c { writer = running; writevs = c.writevs - 1 }

      live : IsLive b ended
      live = record {
        idle = λ e. absurd (ground arith);
        started = λ e. ground arith;
        alive = λ p e. ground arith;
        counted = omega (arith, i.live.counted, ap write_count at_write);
        submitted = omega arith;
      }

      bytes_left : submitted ≤ b.queued c.write_buf
      bytes_left = omega (arith, i.live.submitted, ap write_bytes at_write)

      drained :
          {c1 : Channel W} {w : W}
          → IsLive b c1
          → c1.writer ≡ running
          → IsLive b (record c1 { write_buf = w })
      drained l runs = record {
        idle = λ e. absurd (ground arith);
        started = l.started;
        alive = l.alive;
        counted = l.counted;
        submitted = omega (arith, ap write_bytes runs);
      }

      by_result :
          (c1 : Channel W)
          → Served b ended c1
          → (is_positive res ≡ true) ⊎ (is_positive res ≡ false)
          → Ends IsSettled (
              if is_positive res
              then (if leb res submitted
                  then (b.consume_written res c1.write_buf >>= λ w.
                      run_calls b calls (record c1 { write_buf = w }) >>= λ c2. write_loop b 2 c2)
                  else none)
              else (close_if_open b c1 >>= λ c2. some (end_writer b c2)))
      by_result c1 h (inl data_sent) =
          let (w, e) =
            b.written c1.write_buf res
              (omega (arith, no_more data_sent, bytes_left, h.queued_le refl)) in
          rw (data_sent, le→leb res submitted (no_more data_sent), e)
            (Ends-bind
              (run_calls-Served b calls (record c1 { write_buf = w })
                (drained h.live (h.still_runs refl)))
              λ c2 k.
                Ends-map
                  (write_loop-Ran b c2
                    (k.live.counted ∙ ap write_count (k.still_runs (h.still_runs refl))))
                  (λ r q.
                    again-IsSettled i q.live
                      (λ z.
                        q.frame.same_fd
                        ∙ k.closed_fd (h.closed_fd i.shut) (sym q.frame.same_closed ∙ z))
                      q.stopped (q.frame.same_recvs ∙ k.same_recvs ∙ h.same_recvs)
                      (q.frame.same_reader ∙ k.same_reader ∙ h.same_reader)
                      (λ z. q.frame.same_closed ∙ k.still_closed (h.still_closed z))))
      by_result c1 h (inr failed) = rw failed (
          Ends-bind (close_if_open-Served c1 h.live (h.closed_fd i.shut)) λ c2 q. ends (record {
            live = record {
              idle = λ e. absurd (ground arith);
              started = λ e. ground arith;
              alive = λ e z. absurd (ground (arith, q.1));
              counted = q.0.live.counted ∙ ap write_count (q.0.still_runs (h.still_runs refl));
              submitted = omega arith;
            };
            shut = λ e. q.2;
            suspended = λ e. ground arith;
            receives =
                q.0.same_recvs
                ∙ h.same_recvs
                ∙ i.receives
                ∙ ap read_count (sym (q.0.same_reader ∙ h.same_reader));
            reads = λ e. absurd (ground (arith, q.1));
          }))

  -- A completion of `writev`, of no more bytes than were submitted or of an error, keeps a channel
  -- settled, whatever the application calls in `on_write`; no assertion fails.
  pub writev_done-IsSettled :
      (res : ℕ) (calls : List Call) (c : Channel W)
      → IsSettled c
      → (is_positive res ≡ true → res ≤ write_bytes c.writer)
      → Ends IsSettled (writev_done b res calls c)
  unfolding writev_done
  writev_done-IsSettled res calls c i no_more = by_place c.writer refl
    where
      by_place :
          (w : WriteAt)
          → c.writer ≡ w
          → Ends IsSettled
              (elim w [ writing submitted ↦ written_turn b submitted res calls c | _ ↦ some c ])
      by_place (writing n) e =
          written_turn-IsSettled n res calls c i e (λ p. omega (arith, no_more p, ap write_bytes e))
      by_place no_writer e = ends i
      by_place parked e = ends i
      by_place running e = ends i
      by_place write_done e = ends i
