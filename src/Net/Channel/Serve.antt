-- ===== src/Net/Channel/Serve.antt =====
-- What the operations of a channel keep, whether the write loop is suspended or runs.
use uring_proactor.Base.{◌≤◌, ◌≡◌, refl, sym, ap, ◌∙◌, ◌≢◌, true, false, none, some, arith}
use uring_proactor.Base.Results.{Ends, ends, Ends-bind, Ends-map}
use uring_proactor.Net.Channel.{
  WriteAt, no_writer, parked, running, write_done, writing, shutdown, close_fd, Channel, ask, wake,
  notify, close,
}
use uring_proactor.Net.Channel.Invariant.{write_count, write_bytes, IsLive, Frame, Ran, wake-Ran}
use uring_proactor.Net.SendBuffer.{SendBuffer}

module _ {W : Type 0} (b : SendBuffer W) where
  -- From `c` to `r`, inside one completion or between two.
  pub record Served (c r : Channel W) : Type 0 where
    pub live : IsLive b r
    pub same_reader : r.reader ≡ c.reader
    pub same_recvs : r.recvs ≡ c.recvs
    pub released_le : c.released ≤ r.released
    pub still_closed : c.token.closed ≡ true → r.token.closed ≡ true
    pub closed_fd : (c.token.closed ≡ true → c.fd ≡ none) → r.token.closed ≡ true → r.fd ≡ none
    pub still_runs : c.writer ≡ running → r.writer ≡ running
    pub still_waits : c.writer ≢ running → r.writer ≢ running
    pub queued_le : c.writer ≡ running → b.queued c.write_buf ≤ b.queued r.write_buf

  pub Served-refl : {c : Channel W} → IsLive b c → Served c c
  Served-refl l = record {
    live = l;
    same_reader = refl;
    same_recvs = refl;
    released_le = omega arith;
    still_closed = λ h. h;
    closed_fd = λ h. h;
    still_runs = λ h. h;
    still_waits = λ h. h;
    queued_le = λ h. omega arith;
  }

  pub Served-trans : {c r s : Channel W} → Served c r → Served r s → Served c s
  Served-trans f g = record {
    live = g.live;
    same_reader = g.same_reader ∙ f.same_reader;
    same_recvs = g.same_recvs ∙ f.same_recvs;
    released_le = omega (arith, f.released_le, g.released_le);
    still_closed = λ h. g.still_closed (f.still_closed h);
    closed_fd = λ h. g.closed_fd (f.closed_fd h);
    still_runs = λ h. g.still_runs (f.still_runs h);
    still_waits = λ h. g.still_waits (f.still_waits h);
    queued_le = λ h. omega (arith, f.queued_le h, g.queued_le (f.still_runs h));
  }

  -- What a channel needs for a notification: it may have got something to send.
  pub record IsAwake (c : Channel W) : Type 0 where
    pub started : c.writer ≢ no_writer
    pub alive : c.token.closed ≡ false → c.writer ≢ write_done
    pub counted : c.writevs ≡ write_count c.writer
    pub submitted : write_bytes c.writer ≤ b.queued c.write_buf

  pub IsLive-IsAwake : {c : Channel W} → IsLive b c → IsAwake c
  IsLive-IsAwake l = record {
    started = l.started;
    alive = l.alive;
    counted = l.counted;
    submitted = l.submitted;
  }

  -- A notification: what it changes of the channel's own members is in `Frame`.
  record Told (c r : Channel W) : Type 0 where
    served : Served c r
    frame : Frame b c r

  woken : {c r : Channel W} → c.writer ≡ parked → Ran b c r → Told c r
  woken {c} {r} e h = record {
    served = record {
      live = h.live;
      same_reader = h.frame.same_reader;
      same_recvs = h.frame.same_recvs;
      released_le = omega (arith, h.frame.same_released);
      still_closed = λ k. h.frame.same_closed ∙ k;
      closed_fd = λ k q. h.frame.same_fd ∙ k (sym h.frame.same_closed ∙ q);
      still_runs = λ k. absurd (ground arith);
      still_waits = λ k. h.stopped;
      queued_le = λ k. absurd (ground arith);
    };
    frame = h.frame;
  }

  noted :
      {c : Channel W}
      → IsAwake c
      → c.writer ≢ parked
      → Told c (record c { token = record c.token { pending = true } })
  noted {c} l ne = record {
    served = record {
      live = record {
        idle = λ e. absurd (ne e);
        started = l.started;
        alive = l.alive;
        counted = l.counted;
        submitted = l.submitted;
      };
      same_reader = refl;
      same_recvs = refl;
      released_le = omega arith;
      still_closed = λ h. h;
      closed_fd = λ h. h;
      still_runs = λ h. h;
      still_waits = λ h. h;
      queued_le = λ h. omega arith;
    };
    frame = record {
      same_fd = refl;
      same_closed = refl;
      same_reader = refl;
      same_recvs = refl;
      same_released = refl;
    };
  }

  notify-Told : (c : Channel W) → IsAwake c → Ends (Told c) (notify b c)
  unfolding notify
  notify-Told c l = by_place c.writer refl
    where
      by_place :
          (w : WriteAt)
          → c.writer ≡ w
          → Ends (Told c) (elim w [
            | parked ↦ wake b c
            | _ ↦ some (record c { token = record c.token { pending = true } })
          ])
      by_place no_writer e = ends (noted l (λ q. ground arith))
      by_place parked e = Ends-map (wake-Ran b c (l.counted ∙ ap write_count e)) (λ r h. woken e h)
      by_place running e = ends (noted l (λ q. ground arith))
      by_place write_done e = ends (noted l (λ q. ground arith))
      by_place (writing n) e = ends (noted l (λ q. ground arith))

  pub notify-Served : (c : Channel W) → IsAwake c → Ends (Served c) (notify b c)
  notify-Served c l = Ends-map (notify-Told c l) (λ r h. h.served)

  pub close-Served :
      (c : Channel W)
      → IsLive b c
      → Ends (λ r. Served c r × (r.token.closed ≡ true) × (r.fd ≡ none)) (close b c)
  unfolding close
  close-Served c l = Ends-bind (notify-Told closing (IsLive-IsAwake still_live)) λ r h. ends (
    record {
      live = relabel h.served.live;
      same_reader = h.served.same_reader;
      same_recvs = h.served.same_recvs;
      released_le = h.served.released_le;
      still_closed = λ k. h.served.still_closed refl;
      closed_fd = λ k q. refl;
      still_runs = h.served.still_runs;
      still_waits = h.served.still_waits;
      queued_le = h.served.queued_le;
    },
    h.served.still_closed refl,
    refl,
  )
    where
      closing : Channel W
      closing = record c { token = record c.token { closed = true } }

      still_live : IsLive b closing
      still_live = record {
        idle = l.idle;
        started = l.started;
        alive = λ e. absurd (ground arith);
        counted = l.counted;
        submitted = l.submitted;
      }

      relabel :
          {r : Channel W}
          → IsLive b r
          → IsLive b (record (ask b (close_fd r.fd) (ask b (shutdown r.fd) r)) { fd = none })
      relabel k = record {
        idle = k.idle;
        started = k.started;
        alive = k.alive;
        counted = k.counted;
        submitted = k.submitted;
      }
