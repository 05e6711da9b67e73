-- ===== src/Net/Channel/Settled.antt =====
-- What holds of a channel between completions, and that every completion keeps it without a failed
-- assertion.
use uring_proactor.Base.{
  ◌==◌, if◌then◌else◌, Bool-cases, u32_mod, sub_word, ℕ, ◌+◌, ◌≡◌, refl, ap, ◌∙◌, ◌⊎◌, inl, inr,
  true, false, Option, none, some, List, [], ◌∷◌, arith,
}
use uring_proactor.Base.Results.{◌>>=◌, Ends, ends, Ends-bind, Ends-map}
use uring_proactor.Net.Channel.{
  release_channel, Call, call_append, call_prepend, call_submit, call_close, Channel, ask, notify,
  release_to_pool, on_drained, in_flight_dec, run_call, run_calls,
}
use uring_proactor.Net.Channel.Invariant.{IsLive}
use uring_proactor.Net.Channel.Serve.{
  Served, Served-refl, Served-trans, IsAwake, IsLive-IsAwake, notify-Served, close-Served,
}
use uring_proactor.Net.SendBuffer.{SendBuffer}

module _ {W : Type 0} (b : SendBuffer W) where
  release-Served :
      (c : Channel W) → IsLive b c → c.fd ≡ none → Ends (Served b c) (release_to_pool b c)
  unfolding release_to_pool
  release-Served c l e = by_fd c.fd e
    where
      by_fd :
          (f : Option ℕ)
          → f ≡ none
          → Ends (Served b c) (elim f [
            | none ↦ some (record (ask b release_channel c) { released = c.released + 1 })
            | some _ ↦ none
          ])
      by_fd (some x) q = absurd (ground arith)
      by_fd none q = ends (record {
        live = record {
          idle = l.idle;
          started = l.started;
          alive = l.alive;
          counted = l.counted;
          submitted = l.submitted;
        };
        same_reader = refl;
        same_recvs = refl;
        released_le = omega arith;
        still_closed = λ h. h;
        closed_fd = λ h. h;
        still_runs = λ h. h;
        still_waits = λ h. h;
        queued_le = λ h. omega arith;
      })

  -- The pool's assertion holds: the channel is closed when its operations have come to an end.
  pub in_flight_dec-Served :
      (c : Channel W)
      → IsLive b c
      → (c.token.closed ≡ true → c.fd ≡ none)
      → Ends (Served b c) (in_flight_dec b c)
  unfolding in_flight_dec on_drained
  in_flight_dec-Served c l shut = elim (Bool-cases (sub_word u32_mod c.in_flight 1 == 0)) [
    | inr not_zero ↦ simp not_zero (ends counted_down)
    | inl zero_left ↦ simp zero_left (drained (Bool-cases c.token.closed))
  ]
    where
      fewer : Channel W
      fewer = record c { in_flight = sub_word u32_mod c.in_flight 1 }

      live : IsLive b fewer
      live = record {
        idle = l.idle;
        started = l.started;
        alive = l.alive;
        counted = l.counted;
        submitted = l.submitted;
      }

      same : {r : Channel W} → Served b fewer r → Served b c r
      same h = record {
        live = h.live;
        same_reader = h.same_reader;
        same_recvs = h.same_recvs;
        released_le = h.released_le;
        still_closed = h.still_closed;
        closed_fd = h.closed_fd;
        still_runs = h.still_runs;
        still_waits = h.still_waits;
        queued_le = h.queued_le;
      }

      counted_down : Served b c fewer
      counted_down = same (Served-refl b live)

      drained :
          (c.token.closed ≡ true) ⊎ (c.token.closed ≡ false)
          → Ends
              (Served b c)
              (if c.token.closed then notify b fewer >>= release_to_pool b else some fewer)
      drained (inr still_open) = simp still_open (ends counted_down)
      drained (inl closing) = simp closing (
          Ends-bind (notify-Served b fewer (IsLive-IsAwake b live)) λ r h.
            Ends-map (release-Served r h.live (h.closed_fd shut (h.still_closed closing)))
              (λ t k. same (Served-trans b h k)))

  -- A call that leaves what is to be sent alone.
  rebuffered :
      (w : W) (c : Channel W)
      → IsLive b c
      → b.has_send_data w ≡ b.has_send_data c.write_buf
      → b.queued w ≡ b.queued c.write_buf
      → Served b c (record c { write_buf = w })
  rebuffered w c l same_has same_queued = record {
    live = record {
      idle = λ e. ((l.idle e).0, same_has ∙ (l.idle e).1);
      started = l.started;
      alive = l.alive;
      counted = l.counted;
      submitted = omega (arith, l.submitted, same_queued);
    };
    same_reader = refl;
    same_recvs = refl;
    released_le = omega arith;
    still_closed = λ h. h;
    closed_fd = λ h. h;
    still_runs = λ h. h;
    still_waits = λ h. h;
    queued_le = λ h. omega (arith, same_queued);
  }

  pub run_call-Served : (x : Call) (c : Channel W) → IsLive b c → Ends (Served b c) (run_call b x c)
  unfolding run_call
  run_call-Served (call_append bytes) c l = ends (
      rebuffered (b.append bytes c.write_buf).1 c l (b.has-append bytes c.write_buf)
        (b.queued-append bytes c.write_buf))
  run_call-Served (call_prepend bytes) c l = ends (
      rebuffered (b.prepend bytes c.write_buf).1 c l (b.has-prepend bytes c.write_buf)
        (b.queued-prepend bytes c.write_buf))
  run_call-Served call_close c l = Ends-map (close-Served b c l) (λ r h. h.0)
  run_call-Served call_submit c l = elim (Bool-cases (b.submit c.write_buf).0) [
    | inr refused ↦ rw refused (ends (unchanged refused))
    | inl done ↦ rw done (Ends-map (notify-Served b after (awake done)) (later done))
  ]
    where
      after : Channel W
      after = record c { write_buf = (b.submit c.write_buf).1 }

      unchanged : (b.submit c.write_buf).0 ≡ false → Served b c after
      unchanged refused = record {
        live = record {
          idle = λ e. (
            (l.idle e).0,
            ap b.has_send_data (b.refused-submit c.write_buf refused) ∙ (l.idle e).1,
          );
          started = l.started;
          alive = l.alive;
          counted = l.counted;
          submitted = omega (arith, l.submitted, b.queued-submit c.write_buf);
        };
        same_reader = refl;
        same_recvs = refl;
        released_le = omega arith;
        still_closed = λ h. h;
        closed_fd = λ h. h;
        still_runs = λ h. h;
        still_waits = λ h. h;
        queued_le = λ h. b.queued-submit c.write_buf;
      }

      awake : (b.submit c.write_buf).0 ≡ true → IsAwake b after
      awake done = record {
        started = l.started;
        alive = l.alive;
        counted = l.counted;
        submitted = omega (arith, l.submitted, b.queued-submit c.write_buf);
      }

      later : (b.submit c.write_buf).0 ≡ true → (r : Channel W) → Served b after r → Served b c r
      later done r h = record {
        live = h.live;
        same_reader = h.same_reader;
        same_recvs = h.same_recvs;
        released_le = h.released_le;
        still_closed = h.still_closed;
        closed_fd = h.closed_fd;
        still_runs = h.still_runs;
        still_waits = h.still_waits;
        queued_le = λ e. omega (arith, h.queued_le e, b.queued-submit c.write_buf);
      }

  pub run_calls-Served :
      (xs : List Call) (c : Channel W) → IsLive b c → Ends (Served b c) (run_calls b xs c)
  unfolding run_calls
  run_calls-Served [] c l = ends (Served-refl b l)
  run_calls-Served (x ∷ rest) c l =
      Ends-bind (run_call-Served x c l)
        λ r h. Ends-map (run_calls-Served rest r h.live) (λ t k. Served-trans b h k)
