-- ===== src/Util/QueueExamples.antt =====
-- A queue with two places and three producers: runs of the code, and uses of the theorems.
use uring_proactor.Base.{
  length, IsCapacity, ℕ, ◌+◌, ◌<◌, ◌≡◌, refl, sym, subst, ◌⊎◌, inl, inr, true, false, none, some,
  List, [], ◌∷◌, ◌++◌, arith,
}
use uring_proactor.Util.MpscQueue.{
  MpscQueue, resting, wanting, waiting, init_queue, Threads, Access, call_enqueue, produces,
  consumes, called, produce, consume_next, access, Accesses, at_first, then_access,
}
use uring_proactor.Util.MpscQueue.Invariant.{place_held, Fits}
use uring_proactor.Util.MpscQueue.Alone.{enqueue_alone, dequeue_alone, IsAlone}
use uring_proactor.Util.MpscQueue.Alone.Calls.{waiting_items, calls_lem, init_queue-IsAlone}
use uring_proactor.Util.MpscQueue.Order.{Holds, dequeue, sent-Holds, refused-full, dequeue_lem}

abbrev start : Threads
start = record {
  queue = init_queue (λ k. 0);
  producers = λ i. resting;
  consumer = waiting;
  sent = [];
  got = [];
}

-- The accesses from the first to the last.
abbrev run_all : List Access → Threads → Threads
run_all [] s = s
run_all (a ∷ rest) s = run_all rest (access 2 a s)

run_all-Accesses : (accs : List Access) {s : Threads} → Accesses 2 s → Accesses 2 (run_all accs s)
run_all-Accesses [] r = r
run_all-Accesses (a ∷ rest) r = run_all-Accesses rest (then_access a r)

-- `enqueue(item)` by producer `i`, whose exchange succeeds.
abbrev enqueue : ℕ → ℕ → List Access
enqueue i item =
    call_enqueue i item
    ∷ produces i false
    ∷ produces i false
    ∷ produces i false
    ∷ produces i false
    ∷ produces i false
    ∷ []

-- Two items are in the queue, and a third producer has read the tail.
abbrev full_accesses : List Access
full_accesses = enqueue 0 7 ++ enqueue 1 8 ++ (call_enqueue 2 9 ∷ produces 2 false ∷ [])

abbrev full_queue : Threads
full_queue = run_all full_accesses start

-- Producer 0 has claimed the first place and stopped; producer 1 is done with the second.
abbrev stalled : Threads
stalled =
    run_all
      ((call_enqueue 0 7 ∷ produces 0 false ∷ produces 0 false ∷ produces 0 false ∷ [])
        ++ enqueue 1 8)
      start

small_sent : (s : Threads) → length s.sent ≡ 2 → Fits 2 s
small_sent s e = record {
  power = record { log = 1; small = omega arith; power = refl };
  places = omega arith;
  few = omega (arith, e);
}

full-Fits : Fits 2 full_queue
unfolding access called produce
full-Fits = small_sent full_queue refl

full_queue_sent : full_queue.sent ≡ 7 ∷ 8 ∷ []
unfolding access called produce
full_queue_sent = refl

-- The item behind a claim that is not done waits.
stalled_finds_none : (dequeue 2 stalled).got ≡ []
unfolding access called produce consume_next
stalled_finds_none = refl

-- The exchange may fail without a reason, and the producer tries again.
weak_retries :
    ((access 2
        (produces 0 true)
        (run_all (call_enqueue 0 7 ∷ produces 0 false ∷ produces 0 false ∷ []) start)).producers
      0)
    ≡ wanting 7
unfolding access called produce
weak_retries = refl

sent-Holds_example : (wait : List ℕ) × Holds 2 wait full_queue
sent-Holds_example = sent-Holds 2 (run_all-Accesses full_accesses (at_first (λ k. 0))) full-Fits

refused-full_example : length full_queue.sent ≡ length full_queue.got + 2
unfolding access called produce
refused-full_example =
    refused-full 2 (run_all-Accesses full_accesses (at_first (λ k. 0))) full-Fits 2 false 2 9 refl
      refl

dequeue_lem_example :
    ((x : ℕ) × (rest : List ℕ) × (full_queue.sent ≡ (full_queue.got ++ (x ∷ [])) ++ rest)
      × ((dequeue 2 full_queue).got ≡ full_queue.got ++ (x ∷ []))
      × ((dequeue 2 full_queue).consumer ≡ waiting))
    ⊎ (((access 2 consumes full_queue).consumer ≡ waiting)
        × ((access 2 consumes full_queue).got ≡ full_queue.got)
        × ((full_queue.sent ≡ full_queue.got)
            ⊎ ((i : ℕ) × (place_held (full_queue.producers i) ≡ some (length full_queue.got)))))
unfolding access called produce
dequeue_lem_example =
    dequeue_lem 2 (run_all-Accesses full_accesses (at_first (λ k. 0))) full-Fits refl

-- With one place, which the source accepts, a claim that has been handed over looks like a free place:
-- the second item goes over the first.
one_place : List Access → Threads → Threads
one_place [] s = s
one_place (a ∷ rest) s = one_place rest (access 1 a s)

one_place_overwrites :
    ((one_place (enqueue 0 7 ++ enqueue 1 8) start).queue.data_of 0 ≡ 8)
    × ((one_place (enqueue 0 7 ++ enqueue 1 8) start).got ≡ [])
unfolding one_place access called produce
one_place_overwrites = (refl, refl)

two_places : IsCapacity 2
two_places = record { log = 1; small = omega arith; power = refl }

-- The queue that holds 5 after a call of `enqueue`.
abbrev one_item : MpscQueue
one_item = (enqueue_alone 2 5 (init_queue (λ k. 0))).1

one_item-IsAlone : IsAlone 2 one_item
one_item-IsAlone =
    elim ((calls_lem 2 (init_queue (λ k. 0))
      (init_queue-IsAlone 2 two_places (omega arith) (λ k. 0)) 5).0) [
        | inl (_, e) ↦
            subst (λ r. IsAlone 2 r.1) (sym e)
              (init_queue-IsAlone 2 two_places (omega arith) (λ k. 0))
        | inr (_, (r, e, sound, _)) ↦ subst (λ r. IsAlone 2 r.1) (sym e) sound
      ]

calls_lem_example :
    (((length (waiting_items 2 one_item) ≡ 2) × (enqueue_alone 2 7 one_item ≡ (false, one_item)))
      ⊎ ((length (waiting_items 2 one_item) < 2)
          × ((r : MpscQueue) × (enqueue_alone 2 7 one_item ≡ (true, r))
              × IsAlone 2 r
              × (waiting_items 2 r ≡ waiting_items 2 one_item ++ (7 ∷ [])))))
    × (((waiting_items 2 one_item ≡ []) × (dequeue_alone 2 one_item ≡ (none, one_item)))
        ⊎ ((oldest : ℕ) × (r : MpscQueue) × (dequeue_alone 2 one_item ≡ (some oldest, r))
            × IsAlone 2 r
            × (waiting_items 2 one_item ≡ oldest ∷ waiting_items 2 r)))
calls_lem_example = calls_lem 2 one_item one_item-IsAlone 7
