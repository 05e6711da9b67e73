-- ===== src/Core/EventLoop/Run.antt =====
-- A whole run of the loop of a TCP thread (src/core/io_thread.cpp, src/core/tcp_thread.cpp), from its
-- start over the request to stop to its end.
use uring_proactor.Base.{
  ℕ, zero, suc, ◌+◌, ◌≤◌, ◌<◌, ◌≡◌, refl, ap, ◌∙◌, Bool, true, false, none, some, List, arith,
}
use uring_proactor.Core.EventLoop.{
  Cqe, Sqe, read_wakeup, cancel_all, get_sqe, stop_submit, stopped, running, Loop, dispatch_all,
  found, advanced, stop_round, stop_loop, on_stop, finish_batch, round, run_rounds, run_loop,
}
use uring_proactor.Core.EventLoop.Stop.{
  has_cancel, has_wakeup, batch_keeps, stop_batch_lem, Answers, IsHonest, serve, Answered,
  serve_looks, on_stop_lem,
}

module _ {A : Type 0} (complete : ℕ → ℕ → ℕ → A → A × List Sqe)
    (arrivals : ℕ → List Sqe → List Cqe) where
  module _ (batch_done : A → A × List Sqe) where
    abbrev pub rounds : ℕ → Loop A → Loop A
    rounds zero s = s
    rounds (suc n) s = rounds n (round complete arrivals batch_done s)

    round-looks : (s : Loop A) → (round complete arrivals batch_done s).looks ≡ suc s.looks
    unfolding round finish_batch
    round-looks s = serve_looks complete arrivals s

    run_rounds_lem :
        (stop_requested : ℕ → Bool) (n : ℕ) (s : Loop A)
        → ((k : ℕ) → s.looks ≤ k → k < s.looks + n → stop_requested k ≡ false)
        → stop_requested (s.looks + n) ≡ true
        → run_rounds complete arrivals batch_done stop_requested (suc n) s ≡ stopped (rounds n s)
    unfolding run_rounds
    run_rounds_lem stop_requested zero s runs h =
        rw (ap stop_requested {x = s.looks} (omega arith) ∙ h) refl
    run_rounds_lem stop_requested (suc n) s runs h = rw (runs s.looks (omega arith) (omega arith)) (
        run_rounds_lem stop_requested n (round complete arrivals batch_done s)
          (λ k lo hi. runs k (omega (arith, round-looks s)) (omega (arith, round-looks s)))
          (ap stop_requested (omega (arith, round-looks s)) ∙ h))

    -- The loop with its two first requests prepared.
    abbrev pub started : Sqe → Loop A → Loop A
    started accept s = record s { ring = get_sqe read_wakeup (get_sqe accept s.ring) }

    -- The loop when the test of its stop token succeeds, with the cancel prepared.
    abbrev pub told_to_stop : Sqe → ℕ → Loop A → Loop A
    told_to_stop accept n s =
        let t = rounds n (started accept s) in record t { ring = get_sqe cancel_all t.ring }

    -- A thread without an affinity whose stop token is set before test `n` makes `n` rounds; then, where
    -- the kernel answers the cancel within `m` looks more and no wakeup is left, it ends, after it has
    -- served, in order, the batches up to the first with the cancel's null.
    pub run_loop_lem :
        (stop_requested : ℕ → Bool) (accept : Sqe) (n m : ℕ) (s : Loop A)
        → ((k : ℕ) → s.looks ≤ k → k < s.looks + n → stop_requested k ≡ false)
        → stop_requested (s.looks + n) ≡ true
        → Answers arrivals (told_to_stop accept n s).looks ((told_to_stop accept n s).looks + m)
        → (j : ℕ) × (j ≤ m)
          × Answered complete arrivals j (told_to_stop accept n s)
          × (run_loop complete arrivals batch_done none stop_requested accept (suc n) (suc m) s
              ≡ stopped (serve complete arrivals (suc j) (told_to_stop accept n s)))
    unfolding run_loop
    run_loop_lem stop_requested accept n m s runs h a =
        rw (run_rounds_lem stop_requested n (started accept s) runs h, run_loop)
          (on_stop_lem complete arrivals m (rounds n (started accept s)) a)

  bound_runs :
      IsHonest arrivals
      → (cpu fuel : ℕ) (s : Loop A) → has_cancel s.ring.submitted ≡ false
      → ((k : ℕ) (subs : List Sqe) → s.looks ≤ k → has_wakeup (arrivals k subs) ≡ false)
      → (t : Loop A) × (stop_loop complete arrivals (some cpu) fuel s ≡ running t)
        × (t.looks ≡ s.looks + fuel)
  unfolding stop_loop stop_round stop_submit
  bound_runs honest cpu zero s h quiet = (s, refl, omega arith)
  bound_runs honest cpu (suc fuel) s h quiet =
      let kept = batch_keeps complete (found arrivals s) (advanced s) in
      let (t, e, looked) =
        bound_runs honest cpu fuel (dispatch_all complete (found arrivals s) (advanced s))
          (ap has_cancel kept.0 ∙ h) (λ k subs le. quiet k subs (omega (arith, kept.1))) in
      (
        t,
        rw
            (
              stop_batch_lem complete (found arrivals s) false (advanced s)
                  (quiet s.looks s.ring.submitted (omega arith)),
              stop_loop,
              honest s.looks s.ring.submitted h,
            )
            e,
        omega (arith, kept.1),
      )

  -- `on_stop` of a thread with an affinity never ends: after any number of rounds it still runs, and
  -- has looked at the completion queue that many times, where no cancel was submitted before, the
  -- kernel answers none that was not submitted, and no wakeup is found.
  pub on_stop-bound :
      (cpu fuel : ℕ) (s : Loop A)
      → IsHonest arrivals
      → has_cancel s.ring.submitted ≡ false
      → ((k : ℕ) (subs : List Sqe) → s.looks ≤ k → has_wakeup (arrivals k subs) ≡ false)
      → (t : Loop A) × (on_stop complete arrivals (some cpu) fuel s ≡ running t)
        × (t.looks ≡ s.looks + fuel)
  unfolding on_stop
  on_stop-bound cpu fuel s honest h quiet =
      bound_runs honest cpu fuel (record s { ring = get_sqe cancel_all s.ring }) h quiet
