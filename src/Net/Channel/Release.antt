-- ===== src/Net/Channel/Release.antt =====
-- When a channel goes back to its pool. The count of operations is taken down for each completion,
-- also for one that leaves its request in the kernel.
use uring_proactor.Base.{
  Option, sym, ap, subst, ◌∙◌, ℕ, ◌+◌, ◌≡◌, refl, Bool, true, false, none, List, [], arith,
}
use uring_proactor.Net.Channel.{
  is_positive, ReadAt, no_reader, reading, read_done, WriteAt, no_writer, parked, running,
  write_done, writing, Request, Channel, write_turn, wake, notify, close, release_to_pool,
  on_drained, in_flight_dec, run_calls, read_turn, recv_done, written_turn, writev_done,
}
use uring_proactor.Net.SendBuffer.{SendBuffer}
use uring_proactor.Net.Channel.Invariant.{write_count, read_count}
use uring_proactor.Net.Channel.Complete.{IsSettled}
use uring_proactor.Net.Channel.Run.{Reach, Reach-IsSettled}
use uring_proactor.Base.Results.{Ends, ends}

module _ {W : Type 0} (b : SendBuffer W) where
  -- A connection that waits for data and has nothing to send.
  abbrev connected : Option ℕ → W → ℕ → List Request → Channel W
  connected fd w released requests = record {
    fd = fd;
    token = record { pending = false; closed = false };
    in_flight = 1;
    reader = reading;
    writer = parked;
    write_buf = w;
    recvs = 1;
    writevs = 0;
    released = released;
    requests = requests;
  }

  -- What is left of a connection that has ended and is not given back.
  abbrev pub Lost : ℕ → Channel W → Type 0
  Lost released r =
      (r.fd ≡ none)
      × (r.reader ≡ read_done)
      × (r.writer ≡ write_done)
      × (r.recvs ≡ 0)
      × (r.writevs ≡ 0)
      × (r.released ≡ released)

  connected-Lost :
      (fd : Option ℕ) (res idx : ℕ) (w : W) (released : ℕ) (requests : List Request)
      → is_positive res ≡ false
      → Ends (Lost released) (recv_done b res false idx [] (connected fd w released requests))
  unfolding recv_done read_turn in_flight_dec on_drained run_calls close notify wake write_turn
  connected-Lost fd res idx w released requests failed =
      rw failed (ends (refl, refl, refl, refl, refl, refl))

  -- In every state of a connection from an `assign` on, where the kernel had no older request of the
  -- channel, that is open, whose write loop waits for a notification and that counts one operation:
  -- where its receive request ends with no data, as when the peer closes, and `on_close` calls
  -- nothing of the channel, both loops end and the kernel has no request of the channel left, but
  -- the channel does not go back to its pool.
  pub peer_close_lem :
      (c : Channel W) (res idx : ℕ)
      → Reach b c
      → c.token.closed ≡ false
      → c.writer ≡ parked
      → c.in_flight ≡ 1
      → is_positive res ≡ false
      → Ends (Lost c.released) (recv_done b res false idx [] c)
  peer_close_lem c res idx reached is_open waits one failed =
      subst (λ (d : Channel W). Ends (Lost c.released) (recv_done b res false idx [] d)) (sym same)
        (connected-Lost c.fd res idx c.write_buf c.released c.requests failed)
    where
      i : IsSettled b c
      i = Reach-IsSettled b reached

      no_writev : c.writevs ≡ 0
      no_writev = i.live.counted ∙ ap write_count waits

      one_recv : c.recvs ≡ 1
      one_recv = i.receives ∙ ap read_count (i.reads is_open)

      not_pending : c.token.pending ≡ false
      not_pending = (i.live.idle waits).0

      reads : c.reader ≡ reading
      reads = i.reads is_open

      same : c ≡ connected c.fd c.write_buf c.released c.requests
      same = λ k. record {
        fd = c.fd;
        token = record { pending = not_pending k; closed = is_open k };
        in_flight = one k;
        reader = reads k;
        writer = waits k;
        write_buf = c.write_buf;
        recvs = one_recv k;
        writevs = no_writev k;
        released = c.released;
        requests = c.requests;
      }

  -- A channel that the application has closed, with a receive request still in the kernel.
  abbrev pub closing : WriteAt → ℕ → W → Bool → ℕ → List Request → Channel W
  closing writer writevs w pending released requests = record {
    fd = none;
    token = record { pending = pending; closed = true };
    in_flight = 1;
    reader = reading;
    writer = writer;
    write_buf = w;
    recvs = 1;
    writevs = writevs;
    released = released;
    requests = requests;
  }

  -- The channel goes back to its pool and receives again; where the new request ends with no data,
  -- and `on_close` calls nothing of the channel, it goes back a second time.
  abbrev pub Twice : (res idx released : ℕ) → Channel W → Type 0
  Twice res idx released r =
      (r.released ≡ released + 1)
      × (r.recvs ≡ 1)
      × Ends (λ s. s.released ≡ released + 2) (recv_done b res false idx [] r)

  module _ (res res' idx idx' : ℕ) (data_read : is_positive res ≡ true)
      (failed : is_positive res' ≡ false) where
    ended-Twice :
        (w : W) (pending : Bool) (released : ℕ) (requests : List Request)
        → Ends
            (Twice res' idx' released)
            (recv_done b res false idx [] (closing write_done 0 w pending released requests))
    unfolding recv_done read_turn in_flight_dec on_drained run_calls close notify release_to_pool
    ended-Twice w pending released requests =
        rw data_read (ends (refl, refl, rw failed (ends (omega arith))))

    parked-Twice :
        (w : W) (pending : Bool) (released : ℕ) (requests : List Request)
        → Ends
            (Twice res' idx' released)
            (recv_done b res false idx [] (closing parked 0 w pending released requests))
    unfolding recv_done read_turn in_flight_dec on_drained run_calls close notify wake write_turn
        release_to_pool
    parked-Twice w pending released requests =
        rw data_read (ends (refl, refl, rw failed (ends (omega arith))))

    -- In every state of a connection from an `assign` on, where the kernel had no older request of the
    -- channel, that is closed and counts one operation, with a receive request and no `writev` in
    -- the kernel: where data is the last completion of the receive request, the channel goes back
    -- to its pool and receives again; where the new request ends with no data, and `on_close` calls
    -- nothing of the channel, it goes back a second time.
    pub second_release_lem :
        (c : Channel W)
        → Reach b c
        → c.token.closed ≡ true
        → c.in_flight ≡ 1
        → c.recvs ≡ 1
        → c.writevs ≡ 0
        → Ends (Twice res' idx' c.released) (recv_done b res false idx [] c)
    second_release_lem c reached is_closed one one_recv no_writev = by_place c.writer refl
      where
        i : IsSettled b c
        i = Reach-IsSettled b reached

        reads : (at : ReadAt) → c.reader ≡ at → c.reader ≡ reading
        reads reading e = e
        reads no_reader e = absurd (omega (arith, one_recv, i.receives, ap read_count e))
        reads read_done e = absurd (omega (arith, one_recv, i.receives, ap read_count e))

        same :
            (at : WriteAt)
            → c.writer ≡ at
            → c ≡ closing at 0 c.write_buf c.token.pending c.released c.requests
        same at e = λ k. record {
          fd = i.shut is_closed k;
          token = record { pending = c.token.pending; closed = is_closed k };
          in_flight = one k;
          reader = reads c.reader refl k;
          writer = e k;
          write_buf = c.write_buf;
          recvs = one_recv k;
          writevs = no_writev k;
          released = c.released;
          requests = c.requests;
        }

        Goal : Channel W → Type 0
        Goal d = Ends (Twice res' idx' c.released) (recv_done b res false idx [] d)

        by_place : (at : WriteAt) → c.writer ≡ at → Goal c
        by_place no_writer e = absurd (i.live.started e)
        by_place parked e =
            subst Goal (sym (same parked e))
              (parked-Twice c.write_buf c.token.pending c.released c.requests)
        by_place running e = absurd (i.suspended e)
        by_place write_done e =
            subst Goal (sym (same write_done e))
              (ended-Twice c.write_buf c.token.pending c.released c.requests)
        by_place (writing n) e = absurd (omega (arith, no_writev, i.live.counted, ap write_count e))

  -- Where earlier data was counted down though its request stayed in the kernel, the count after
  -- `close` reaches 0 with the `writev` alone: the channel goes back to its pool while the kernel has
  -- a receive request of it and its read loop waits.
  pub early_release_lem :
      (bytes res : ℕ) (w : W) (pending : Bool) (released : ℕ) (requests : List Request)
      → is_positive res ≡ false
      → Ends
          (λ r. (r.released ≡ released + 1) × (r.recvs ≡ 1) × (r.reader ≡ reading))
          (writev_done b res [] (closing (writing bytes) 1 w pending released requests))
  unfolding writev_done written_turn in_flight_dec on_drained run_calls close notify release_to_pool
  early_release_lem bytes res w pending released requests failed =
      rw failed (ends (refl, refl, refl))
