-- ===== src/Net/Channel/Run.antt =====
-- The life of a connection as a sequence of completions and calls, in any order.
use uring_proactor.Base.{
  ℕ, ◌≤◌, ◌≡◌, refl, ap, subst, ◌∙◌, Bool, true, false, Option, some, List, arith,
}
use uring_proactor.Base.Results.{Ends, Ends-bind, Ends-map, Ends-value, Ends-some}
use uring_proactor.Net.Channel.{
  is_positive, reading, WriteAt, no_writer, parked, running, write_done, writing, Call, Channel,
  run_calls, start_recv, recv_done, writev_done, assign,
}
use uring_proactor.Net.Channel.Complete.{
  IsSettled, run_calls-IsSettled, recv_done-IsSettled, writev_done-IsSettled,
}
use uring_proactor.Net.Channel.Invariant.{write_count, write_bytes, read_count, write_loop-Ran}
use uring_proactor.Net.SendBuffer.{SendBuffer}

-- A completion for the read loop, one for the write loop, or calls of the application in between.
pub data Event : Type 0 where
  received : ℕ → Bool → ℕ → List Call → Event
  sent : ℕ → List Call → Event
  called : List Call → Event

module _ {W : Type 0} (b : SendBuffer W) where
  unfoldable pub step : Event → Channel W → Option (Channel W)
  unfolding recv_done writev_done run_calls
  step (received res more idx calls) c = recv_done b res more idx calls c
  step (sent res calls) c = writev_done b res calls c
  step (called calls) c = run_calls b calls c

  -- What the kernel keeps to: only data leaves a multishot request running, and no more bytes are
  -- reported written than were submitted.
  abbrev pub Allowed : Event → Channel W → Type 0
  Allowed (received res more idx calls) c = more ≡ true → is_positive res ≡ true
  Allowed (sent res calls) c = is_positive res ≡ true → res ≤ write_bytes c.writer
  Allowed (called calls) c = Unit {0}

  -- The states of a channel from its `assign` on, where the kernel has no older request of it.
  pub data Reach : Channel W → Type 0 where
    assigned :
        (fd : ℕ) (calls : List Call) (c : Channel W) {r : Channel W}
        → c.recvs ≡ 0
        → c.writevs ≡ 0
        → assign b fd calls c ≡ some r
        → Reach r
    later : {c r : Channel W} (e : Event) → Reach c → Allowed e c → step e c ≡ some r → Reach r

  -- `assign` of a channel that the kernel has no request of: no assertion fails.
  pub assign-IsSettled :
      (fd : ℕ) (calls : List Call) (c : Channel W)
      → c.recvs ≡ 0
      → c.writevs ≡ 0
      → Ends (IsSettled b) (assign b fd calls c)
  unfolding assign
  assign-IsSettled fd calls c no_recv no_write = Ends-bind (write_loop-Ran b begun no_write) λ r h.
      Ends-map
        (run_calls-IsSettled b calls r (record {
          live = h.live;
          shut = λ e. absurd (ground (arith, h.frame.same_closed));
          suspended = h.stopped;
          receives = omega (arith, h.frame.same_recvs, ap read_count h.frame.same_reader);
          reads = λ e. h.frame.same_reader;
        }))
        (λ s k. k)
    where
      begun : Channel W
      begun =
          record (start_recv b
            (record c { fd = some fd; token = record { pending = false; closed = false } })) {
              writer = running;
            }

  step-IsSettled :
      (e : Event) (c : Channel W) → IsSettled b c → Allowed e c → Ends (IsSettled b) (step e c)
  unfolding step
  step-IsSettled (received res more idx calls) c i ok =
      recv_done-IsSettled b res more idx calls c i ok
  step-IsSettled (sent res calls) c i ok = writev_done-IsSettled b res calls c i ok
  step-IsSettled (called calls) c i ok = run_calls-IsSettled b calls c i

  Ends-IsSettled :
      {m : Option (Channel W)} {r : Channel W} → Ends (IsSettled b) m → m ≡ some r → IsSettled b r
  Ends-IsSettled h e = Ends-some (subst (Ends (IsSettled b)) e h)

  -- In every state of a connection, from an `assign` on, at which the kernel had no older
  -- request of the channel, up to any later `assign`, each loop waits for exactly the requests
  -- that the kernel has of it, the write loop waits for `notify` only with nothing to send and
  -- no notification pending, it has submitted no more bytes than are queued, only the loops of
  -- a closed channel have ended, and a closed channel has no descriptor.
  pub Reach-IsSettled : {c : Channel W} → Reach c → IsSettled b c
  Reach-IsSettled (assigned fd calls c no_recv no_write e) =
      Ends-IsSettled (assign-IsSettled fd calls c no_recv no_write) e
  Reach-IsSettled (later {c} e r ok q) =
      Ends-IsSettled (step-IsSettled e c (Reach-IsSettled r) ok) q

  -- In every state of a connection, from an `assign` on, at which the kernel had no older
  -- request of the channel, up to any later `assign`, every completion that the kernel may
  -- report, and every call of the application, is served without a failed assertion: `release`
  -- of the pool finds the channel closed, and `consume_written` finds the bytes that were
  -- written.
  pub step_served :
      {c : Channel W} (e : Event)
      → Reach c
      → Allowed e c
      → (r : Channel W) × (step e c ≡ some r) × Reach r
  step_served {c} e reached ok =
      let (r, q, i) = Ends-value (step-IsSettled e c (Reach-IsSettled reached) ok) in
      (r, q, later e reached ok q)

  -- No submitted byte is forgotten: in every state of an open connection, from an `assign` on,
  -- at which the kernel had no older request of the channel, up to any later `assign`, the
  -- kernel has exactly one receive request of the channel, for which the read loop waits; and
  -- where there is something to send, it has exactly one `writev` of the channel, and the write
  -- loop waits for it.
  pub sends_on :
      {c : Channel W}
      → Reach c
      → c.token.closed ≡ false
      → (c.recvs ≡ 1)
        × (c.reader ≡ reading)
        × (b.has_send_data c.write_buf ≡ true
            → (bytes : ℕ) × (c.writer ≡ writing bytes) × (c.writevs ≡ 1))
  sends_on {c} reached is_open = (
    i.receives ∙ ap read_count (i.reads is_open),
    i.reads is_open,
    λ some_data. by_place some_data c.writer refl,
  )
    where
      i : IsSettled b c
      i = Reach-IsSettled reached

      by_place :
          b.has_send_data c.write_buf ≡ true
          → (w : WriteAt) → c.writer ≡ w
          → (bytes : ℕ) × (c.writer ≡ writing bytes) × (c.writevs ≡ 1)
      by_place some_data (writing n) e = (n, e, i.live.counted ∙ ap write_count e)
      by_place some_data no_writer e = absurd (i.live.started e)
      by_place some_data running e = absurd (i.suspended e)
      by_place some_data write_done e = absurd (i.live.alive is_open e)
      by_place some_data parked e = absurd (ground (arith, i.live.idle e))
