-- ===== src/Buffer/Stream/Reset.antt =====
-- `reset` and `discard_pending`: the blocks go back to the pool, and no others do.
use uring_proactor.Base.{
  ◌==◌, u64_mod, count, ℕ, zero, suc, ◌+◌, ◌<◌, ◌≡◌, refl, ap, subst, ◌∙◌, ◌≢◌, false, [], ◌∷◌,
  arith,
}
use uring_proactor.Base.Ring.{Ring, size, front, advance, items, items-empty}
use uring_proactor.Base.Ring.Laws.{
  IsRing, size-zero_iff, size-advance, advance-IsRing, items-advance,
}
use uring_proactor.Buffer.WriteBuf.{Writer}
use uring_proactor.Buffer.Stream.{
  Stream, drop_sent, release_sends, release_pendings, restart, reset, discard_pending,
}
use uring_proactor.Buffer.Stream.Invariant.{IsStream, drop_sent-IsStream, block-drop_sent}
use uring_proactor.Buffer.WriteBuf.Invariant.{pending_list, send_list, owners, IsWriter}
use uring_proactor.Buffer.BufPool.Blocks.{block, block-release}
use uring_proactor.Buffer.BufPool.{release}
use uring_proactor.Buffer.BufPool.Invariant.{IsPool, Gains, release-IsPool, IsPool-ext}

-- What a release of queued blocks leaves: a sound buffer, and the blocks of others as they were.
pub record Emptied (others : ℕ → ℕ) (s r : Writer) : Type 0 where
  pub sound : IsWriter others r
  pub untouched : (a : ℕ) → 0 < others a → block r.pool a ≡ block s.pool a

Emptied-trans :
    {others : ℕ → ℕ} {s r t : Writer} → Emptied others s r → Emptied others r t → Emptied others s t
Emptied-trans f g = record {
  sound = g.sound;
  untouched = λ a own. g.untouched a own ∙ f.untouched a own;
}

abbrev as_stream : Writer → Stream
as_stream s = record { base = s; offset = 0 }

-- The front block to be sent goes back.
abbrev drop_sending : Writer → Writer
drop_sending s = record s {
  pool = release s.pool (front s.mask s.send);
  send = advance u64_mod s.send;
}

module _ {others : ℕ → ℕ} {s : Writer} (w : IsWriter others s)
    (busy : 0 < size u64_mod s.send) where
  stream : IsStream others (as_stream s)
  stream = record { writer = w; within = λ h. omega arith; idle = λ h. refl }

  drop_sending-eq : (drop_sent (as_stream s)).base ≡ drop_sending s
  unfolding drop_sent
  drop_sending-eq = refl

  drop_sending-Emptied : Emptied others s (drop_sending s)
  drop_sending-Emptied = subst (Emptied others s) drop_sending-eq (record {
    sound = (drop_sent-IsStream stream busy).writer;
    untouched = λ a own. block-drop_sent stream busy a (omega arith);
  })

release_sends-Emptied :
    {others : ℕ → ℕ} (n : ℕ) (s : Writer)
    → IsWriter others s
    → size u64_mod s.send ≡ n
    → Emptied others s (release_sends n s)
      × (size u64_mod (release_sends n s).send ≡ 0)
      × ((release_sends n s).pending ≡ s.pending)
unfolding release_sends
release_sends-Emptied zero s w e = (record { sound = w; untouched = λ a own. refl }, e, refl)
release_sends-Emptied {others} (suc n) s w e =
    let rest = release_sends-Emptied n (drop_sending s) (first_step (omega arith)).sound fewer in
    rw not_yet (Emptied-trans (first_step (omega arith)) rest.0, rest.1, rest.2)
  where
    not_yet : (s.send.head == s.send.tail) ≡ false
    not_yet =
        ground (arith, e, (size-zero_iff w.waiting.capacity 64 (omega arith) s.send w.sending).1)

    first_step : 0 < size u64_mod s.send → Emptied others s (drop_sending s)
    first_step busy = drop_sending-Emptied w busy

    fewer : size u64_mod (drop_sending s).send ≡ n
    fewer =
        omega
          (arith, size-advance w.waiting.capacity 64 (omega arith) s.send w.sending (omega arith))

-- The front waiting block goes back.
abbrev drop_waiting : Writer → Writer
drop_waiting s = record s {
  pool = release s.pool (front s.mask s.pending);
  pending = advance u64_mod s.pending;
}

module _ {others : ℕ → ℕ} {s : Writer} (w : IsWriter others s)
    (busy : 0 < size u64_mod s.pending) where
  abbrev first : ℕ
  first = front s.mask s.pending

  pending_list-first : pending_list s ≡ first ∷ pending_list (drop_waiting s)
  pending_list-first =
      rw w.waiting.masked
        (items-advance w.waiting.capacity 64 (omega arith) s.pending w.waiting.queue busy)

  gain :
      Gains
        (owners (λ a. count a (send_list s) + others a) (drop_waiting s))
        first
        (owners (λ a. count a (send_list s) + others a) s)
  gain a = omega (arith, ap (count a) pending_list-first)

  drop_waiting-Emptied : Emptied others s (drop_waiting s)
  drop_waiting-Emptied = record {
    sound = record {
      waiting = record {
        capacity = w.waiting.capacity;
        masked = w.waiting.masked;
        queue = advance-IsRing w.waiting.capacity 64 (omega arith) s.pending w.waiting.queue busy;
        pool = release-IsPool w.waiting.pool first _ gain;
      };
      sending = w.sending;
    };
    untouched = λ a own. block-release s.pool first a (apart a own);
  }
    where
      apart : (a : ℕ) → 0 < others a → a ≢ first
      apart a own e = ground (arith, gain a, w.waiting.pool.once a)

release_pendings-Emptied :
    {others : ℕ → ℕ} (n : ℕ) (s : Writer)
    → IsWriter others s
    → size u64_mod s.pending ≡ n
    → Emptied others s (release_pendings n s)
      × (size u64_mod (release_pendings n s).pending ≡ 0)
      × ((release_pendings n s).send ≡ s.send)
unfolding release_pendings
release_pendings-Emptied zero s w e = (record { sound = w; untouched = λ a own. refl }, e, refl)
release_pendings-Emptied {others} (suc n) s w e =
    let rest = release_pendings-Emptied n (drop_waiting s) (first_step (omega arith)).sound fewer in
    rw not_yet (Emptied-trans (first_step (omega arith)) rest.0, rest.1, rest.2)
  where
    not_yet : (s.pending.head == s.pending.tail) ≡ false
    not_yet =
        ground (
          arith,
          e,
          (size-zero_iff w.waiting.capacity 64 (omega arith) s.pending w.waiting.queue).1,
        )

    first_step : 0 < size u64_mod s.pending → Emptied others s (drop_waiting s)
    first_step busy = drop_waiting-Emptied w busy

    fewer : size u64_mod (drop_waiting s).pending ≡ n
    fewer = omega (
      arith,
      size-advance w.waiting.capacity 64 (omega arith) s.pending w.waiting.queue (omega arith),
    )

-- Both counters of an empty queue go back to 0.
restart-empty : (cap : ℕ) (r : Ring) → items u64_mod cap (restart r) ≡ []
restart-empty cap r = items-empty u64_mod cap (restart r) (unfold size in omega arith)

restart-IsRing : (cap : ℕ) (r : Ring) → IsRing 64 cap (restart r)
restart-IsRing cap r = record {
  head_in = omega arith;
  tail_in = omega arith;
  fits = unfold size in omega arith;
}

-- A sound buffer whose queues are both empty stays sound when their counters restart.
restarted-IsWriter :
    {others : ℕ → ℕ} {s : Writer}
    → IsWriter others s
    → size u64_mod s.pending ≡ 0
    → IsWriter others (record s { pending = restart s.pending })
restarted-IsWriter {others} {s} w e = record {
  waiting = record {
    capacity = w.waiting.capacity;
    masked = w.waiting.masked;
    queue = restart-IsRing s.capacity s.pending;
    pool = IsPool-ext w.waiting.pool λ a. omega (
      arith,
      ap (count a) (restart-empty s.capacity s.pending),
      ap (count a) (items-empty u64_mod s.capacity s.pending e),
    );
  };
  sending = w.sending;
}

resent-IsWriter :
    {others : ℕ → ℕ} {s : Writer}
    → IsWriter others s
    → size u64_mod s.send ≡ 0
    → IsWriter others (record s { send = restart s.send })
resent-IsWriter {others} {s} w e = record {
  waiting = record {
    capacity = w.waiting.capacity;
    masked = w.waiting.masked;
    queue = w.waiting.queue;
    pool = IsPool-ext w.waiting.pool λ a. omega (
      arith,
      ap (count a) (restart-empty s.capacity s.send),
      ap (count a) (items-empty u64_mod s.capacity s.send e),
    );
  };
  sending = restart-IsRing s.capacity s.send;
}

-- After `discard_pending` on a sound buffer it is sound, nothing waits, what is being sent is as it was, and
-- the blocks of all other holders are unchanged.
pub discard_pending_lem :
    {others : ℕ → ℕ} (s : Writer)
    → IsWriter others s
    → Emptied others s (discard_pending s)
      × (pending_list (discard_pending s) ≡ [])
      × ((discard_pending s).send ≡ s.send)
unfolding discard_pending
discard_pending_lem s w =
    let s1 = release_pendings (size u64_mod s.pending) s in
    let r = release_pendings-Emptied (size u64_mod s.pending) s w refl in
    (
      record { sound = restarted-IsWriter r.0.sound r.1; untouched = r.0.untouched },
      restart-empty s1.capacity s1.pending,
      r.2,
    )

-- After `reset` on a sound stream it is sound and holds no block: all it had went back to the pool. The
-- blocks of all other holders are unchanged.
pub reset_lem :
    {others : ℕ → ℕ} (s : Stream)
    → IsStream others s
    → IsStream others (reset s)
      × (pending_list (reset s).base ≡ [])
      × (send_list (reset s).base ≡ [])
      × IsPool others (reset s).pool
      × ((a : ℕ) → 0 < others a → block (reset s).pool a ≡ block s.pool a)
unfolding reset
reset_lem {others} s w =
    let s1 = release_sends (size u64_mod s.send) s.base in
    let s2 = release_pendings (size u64_mod s1.pending) s1 in
    let sent = release_sends-Emptied (size u64_mod s.send) s.base w.writer refl in
    let waited = release_pendings-Emptied (size u64_mod s1.pending) s1 sent.0.sound refl in
    let sound =
      resent-IsWriter (restarted-IsWriter waited.0.sound waited.1)
        (ap (size u64_mod) waited.2 ∙ sent.1) in
    (
      record { writer = sound; within = λ h. omega arith; idle = λ h. refl },
      restart-empty s2.capacity s2.pending,
      restart-empty s2.capacity s2.send,
      IsPool-ext sound.waiting.pool λ a. omega (
        arith,
        ap (count a) (restart-empty s2.capacity s2.pending),
        ap (count a) (restart-empty s2.capacity s2.send),
      ),
      (Emptied-trans sent.0 waited.0).untouched,
    )
