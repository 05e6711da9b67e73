-- ===== src/Util/MpscQueue/Run.antt =====
-- The accesses of all threads to the MPSCQueue (include/util/mpsc_queue.hpp) and its invariant.
use uring_proactor.Base.{
  ◌==◌, Bool-cases, u64_mod, add_word, sub_word, sub_word_cases, length, length-append, update,
  IsCapacity, bit_and_mask, ℕ, ◌+◌, ◌≤◌, ◌<◌, ◌≡◌, refl, sym, ap, subst, ◌∙◌, ◌≢◌, inl, inr, Bool,
  true, not, ◌&&◌, List, [], ◌++◌, append-nil, arith,
}
use native.Mathlib.Nat.{mod-eq_of_lt}
use native.Mathlib.Decide.{dec_lt}
use uring_proactor.Util.MpscQueue.{
  MpscQueue, Producer, resting, wanting, loaded, checked, claimed, stored, Consumer, waiting, ready,
  copied, init_queue, is_negative, Threads, Access, call_enqueue, produces, consumes, called,
  slot_of, produce, consume_next, access, Accesses, at_first, then_access,
}
use uring_proactor.Util.MpscQueue.Consume.{watch-IsQueue, give-IsQueue}
use uring_proactor.Util.MpscQueue.Invariant.{
  entry, place_held, seq_at, data_at, IsProducer, IsReady, IsConsumer, IsQueue, Fits, slot_round,
}
use uring_proactor.Util.MpscQueue.Produce.{moved-IsQueue, claim-IsQueue}
use uring_proactor.Util.MpscQueue.Store.{put_item, put-IsQueue, over-IsQueue}

-- A difference is zero for equal counters only.
eq_of_diff : (m a b : ℕ) → a < m → b < m → (sub_word m a b == 0) ≡ true → a ≡ b
eq_of_diff m a b ha hb t = elim (sub_word_cases m a b ha hb) [
  | inl (_, e) ↦ ground (arith, e, t)
  | inr (_, e) ↦ ground (arith, e, t)
]

module _ (cap : ℕ) where
  -- The state after an access of producer `i`, or of the consumer.
  abbrev put_back : Threads → ℕ → MpscQueue × Producer × List ℕ → Threads
  put_back s i (q, p, new) = record s {
    queue = q;
    producers = update s.producers i p;
    sent = s.sent ++ new;
  }

  module _ (s : Threads) (fits : Fits cap s) (q : IsQueue cap s) where
    pub no_wrap : s.queue.tail + cap + 1 < u64_mod
    no_wrap = omega (arith, q.tail_count, fits.few)

    pub next-word : (k : ℕ) → k ≤ s.queue.tail → add_word u64_mod k 1 ≡ k + 1
    next-word k h = mod-eq_of_lt (omega (arith, no_wrap))

    -- In a full queue the sequence at the tail is an older one.
    not_full :
        sub_word u64_mod (seq_at cap s.queue s.queue.tail) s.queue.tail ≡ 0
        → s.queue.tail < s.queue.head + cap
    not_full t = elim (dec_lt s.queue.tail (s.queue.head + cap)) [
      | yes lt ↦ lt
      | no ge ↦ absurd (old (omega (arith, q.within)))
    ]
      where
        old : s.queue.tail ≢ s.queue.head + cap
        old e = elim (q.full s.queue.head (omega arith) (omega (arith, fits.places))) [
          | inl (at, _) ↦ omega (
            arith,
            fits.places,
            eq_of_diff u64_mod (seq_at cap s.queue s.queue.tail) s.queue.tail
                (omega (arith, no_wrap, same, at)) (omega (arith, no_wrap)) (ground (arith, t)),
            same,
            at,
          )
          | inr (at, _) ↦ omega (
            arith,
            fits.places,
            eq_of_diff u64_mod (seq_at cap s.queue s.queue.tail) s.queue.tail
                (omega (arith, no_wrap, same, at)) (omega (arith, no_wrap)) (ground (arith, t)),
            same,
            at,
          )
        ]
          where
            same : seq_at cap s.queue s.queue.tail ≡ seq_at cap s.queue s.queue.head
            same = ap s.queue.sequence (ap (slot_of cap) e ∙ slot_round cap fits.power s.queue.head)

    -- A producer that only moves on has sent nothing new.
    quiet :
        (i : ℕ) (p p' : Producer)
        → s.producers i ≡ p
        → place_held p' ≡ place_held p
        → IsProducer cap s.queue s.sent p'
        → IsQueue cap (put_back s i (s.queue, p', []))
    quiet i p p' e same ok =
        subst (λ t. IsQueue cap (record s { producers = update s.producers i p'; sent = t }))
          (sym (append-nil s.sent)) (moved-IsQueue cap s i p' q (same ∙ sym (ap place_held e)) ok)

    at_loaded :
        (i : ℕ) (weak : Bool) (pos item : ℕ)
        → s.producers i ≡ loaded pos item
        → IsProducer cap s.queue s.sent (loaded pos item)
        → IsQueue cap (put_back s i (produce cap weak s.queue (loaded pos item)))
    unfolding produce IsProducer place_held
    at_loaded i weak pos item e ok =
        elim (Bool-cases (sub_word u64_mod (seq_at cap s.queue pos) pos == 0)) [
          | inl t ↦ rw t (
              quiet i (loaded pos item) (checked pos item) e refl (
                ok,
                λ k.
                    subst (λ x. x < s.queue.head + cap) (sym k)
                      (not_full (
                        subst (λ x. sub_word u64_mod (seq_at cap s.queue x) x ≡ 0) k
                          (ground (arith, t)))),
              ))
          | inr f ↦
              elim (Bool-cases (is_negative (sub_word u64_mod (seq_at cap s.queue pos) pos))) [
                | inl t ↦ rw (f, t) (quiet i (loaded pos item) resting e refl tt)
                | inr t ↦ rw (f, t) (quiet i (loaded pos item) (wanting item) e refl tt)
              ]
        ]

    at_checked :
        (i : ℕ) (weak : Bool) (pos item : ℕ)
        → s.producers i ≡ checked pos item
        → IsProducer cap s.queue s.sent (checked pos item)
        → IsQueue cap (put_back s i (produce cap weak s.queue (checked pos item)))
    unfolding produce IsProducer place_held
    at_checked i weak pos item e (ok, room) = elim (Bool-cases (s.queue.tail == pos && not weak)) [
      | inr f ↦ rw f (quiet i (checked pos item) (wanting item) e refl tt)
      | inl t ↦
          rw (t, at_tail t, next-word s.queue.tail (omega arith))
            (claim-IsQueue cap s i item q
              (subst (λ x. x < s.queue.head + cap) (at_tail t) (room (at_tail t)))
              (ap place_held e))
    ]
      where
        at_tail : (s.queue.tail == pos && not weak) ≡ true → pos ≡ s.queue.tail
        at_tail t = ground (arith, t)

    producer-IsQueue :
        (i : ℕ) (weak : Bool) (p : Producer)
        → s.producers i ≡ p
        → IsProducer cap s.queue s.sent p
        → IsQueue cap (put_back s i (produce cap weak s.queue p))
    unfolding produce IsProducer place_held
    producer-IsQueue i weak resting e ok = quiet i resting resting e refl tt
    producer-IsQueue i weak (wanting item) e ok =
        quiet i (wanting item) (loaded s.queue.tail item) e refl (omega arith)
    producer-IsQueue i weak (loaded pos item) e ok = at_loaded i weak pos item e ok
    producer-IsQueue i weak (checked pos item) e ok = at_checked i weak pos item e ok
    producer-IsQueue i weak (claimed pos item) e ok =
        subst (λ t. IsQueue cap (record (put_item cap s fits.power q i pos item) { sent = t }))
          (sym (append-nil s.sent)) (put-IsQueue cap s fits.power q i pos item ok (ap place_held e))
    producer-IsQueue i weak (stored pos item) e (ok, there) =
        rw (next-word pos (omega (arith, ok.1)), append-nil s.sent)
          (over-IsQueue cap s fits.power q i pos item ok (ap place_held e) there)

    consumer-IsQueue :
        (d : Consumer)
        → s.consumer ≡ d
        → IsConsumer cap s.queue s.sent d
        → IsQueue cap (record s {
          queue = (consume_next cap s.queue d).0;
          consumer = (consume_next cap s.queue d).1;
          got = s.got ++ (consume_next cap s.queue d).2;
        })
    unfolding consume_next IsConsumer
    consumer-IsQueue waiting e ok =
        elim (Bool-cases (
          sub_word u64_mod (seq_at cap s.queue s.queue.head) (add_word u64_mod s.queue.head 1)
          == 0)) [
            | inl t ↦ rw (t, append-nil s.got) (watch-IsQueue cap s fits.power q ready (test t))
            | inr f ↦ rw (f, append-nil s.got) (watch-IsQueue cap s fits.power q waiting tt)
          ]
      where
        test :
            (sub_word u64_mod (seq_at cap s.queue s.queue.head) (add_word u64_mod s.queue.head 1)
                == 0)
              ≡ true
            → IsReady cap s.queue
        test t = elim (dec_lt s.queue.head s.queue.tail) [
          | yes lt ↦ elim (q.full s.queue.head (omega arith) lt) [
            | inl (at, _) ↦ absurd (omega (arith, at, same t (omega (arith, at, no_wrap)), q.order))
            | inr (at, _) ↦ (lt, at)
          ]
          | no ge ↦ absurd (
              omega (
                arith,
                q.order,
                empty_seq ge,
                same t (omega (arith, empty_seq ge, no_wrap, q.order)),
              ))
        ]
          where
            empty_seq :
                ¬ (s.queue.head < s.queue.tail) → seq_at cap s.queue s.queue.head ≡ s.queue.head
            empty_seq ge = q.free s.queue.head (omega arith) (omega (arith, fits.places))

            same :
                (sub_word u64_mod
                      (seq_at cap s.queue s.queue.head)
                      (add_word u64_mod s.queue.head 1)
                    == 0)
                  ≡ true
                → seq_at cap s.queue s.queue.head < u64_mod
                → seq_at cap s.queue s.queue.head ≡ s.queue.head + 1
            same t small =
                eq_of_diff u64_mod (seq_at cap s.queue s.queue.head) (s.queue.head + 1) small
                  (omega (arith, no_wrap, q.order))
                  (subst (λ x. (sub_word u64_mod (seq_at cap s.queue s.queue.head) x == 0) ≡ true)
                    (next-word s.queue.head q.order) t)
    consumer-IsQueue ready e ok =
        rw (append-nil s.got)
          (watch-IsQueue cap s fits.power q (copied (data_at cap s.queue s.queue.head)) (ok, holds))
      where
        holds : data_at cap s.queue s.queue.head ≡ entry s.sent s.queue.head
        holds = elim (q.full s.queue.head (omega arith) ok.0) [
          | inl (at, _) ↦ absurd (omega (arith, at, ok.1))
          | inr (_, d) ↦ d
        ]
    consumer-IsQueue (copied item) e (ok, d) =
        rw
          (
            mod-eq_of_lt {n = s.queue.head + cap} {m = u64_mod} (omega (arith, no_wrap, q.order)),
            next-word s.queue.head q.order,
          )
          (give-IsQueue cap s fits.power q item ok d)

  called-IsQueue :
      (s : Threads) (i item : ℕ) (p : Producer)
      → IsQueue cap s
      → s.producers i ≡ p
      → IsProducer cap s.queue s.sent p
      → IsQueue cap (record s { producers = update s.producers i (called item p) })
  unfolding called IsProducer place_held
  called-IsQueue s i item resting q e ok =
      moved-IsQueue cap s i (wanting item) q (sym (ap place_held e)) tt
  called-IsQueue s i item (wanting x) q e ok =
      moved-IsQueue cap s i (wanting x) q (sym (ap place_held e)) tt
  called-IsQueue s i item (loaded k x) q e ok =
      moved-IsQueue cap s i (loaded k x) q (sym (ap place_held e)) ok
  called-IsQueue s i item (checked k x) q e ok =
      moved-IsQueue cap s i (checked k x) q (sym (ap place_held e)) ok
  called-IsQueue s i item (claimed k x) q e ok =
      moved-IsQueue cap s i (claimed k x) q (sym (ap place_held e)) ok
  called-IsQueue s i item (stored k x) q e ok =
      moved-IsQueue cap s i (stored k x) q (sym (ap place_held e)) ok

  access-IsQueue :
      (s : Threads) (a : Access) → Fits cap s → IsQueue cap s → IsQueue cap (access cap a s)
  unfolding access
  access-IsQueue s (call_enqueue i item) fits q =
      called-IsQueue s i item (s.producers i) q refl (q.each i)
  access-IsQueue s (produces i weak) fits q =
      producer-IsQueue s fits q i weak (s.producers i) refl (q.each i)
  access-IsQueue s consumes fits q = consumer-IsQueue s fits q s.consumer refl q.reading

  -- Nothing that was sent is forgotten.
  sent_grows : (s : Threads) (a : Access) → length s.sent ≤ length (access cap a s).sent
  unfolding access
  sent_grows s (call_enqueue i item) = omega arith
  sent_grows s (produces i weak) =
      omega (arith, length-append s.sent (produce cap weak s.queue (s.producers i)).2)
  sent_grows s consumes = omega arith

  first-IsQueue :
      IsCapacity cap
      → (data_of : ℕ → ℕ)
      → IsQueue cap (record {
        queue = init_queue data_of;
        producers = λ i. resting;
        consumer = waiting;
        sent = [];
        got = [];
      })
  unfolding IsProducer IsConsumer place_held
  first-IsQueue c data_of = record {
    tail_count = refl;
    head_count = refl;
    order = omega arith;
    within = omega arith;
    free = λ k lo hi. bit_and_mask c k ∙ mod-eq_of_lt {n = k} {m = cap} (omega arith);
    full = λ k lo hi. absurd (omega arith);
    each = λ i. tt;
    alone = λ i j k h _. absurd (ground (arith, h));
    reading = tt;
    kept = ([], refl);
  }

  pub reached-IsQueue : {s : Threads} → Accesses cap s → Fits cap s → IsQueue cap s
  reached-IsQueue (at_first data_of) fits = first-IsQueue fits.power data_of
  reached-IsQueue (then_access {s = s} a r) fits =
      access-IsQueue s a before (reached-IsQueue r before)
    where
      before : Fits cap s
      before = record {
        power = fits.power;
        places = fits.places;
        few = omega (arith, fits.few, sent_grows s a);
      }
