-- ===== src/Core/EventLoop/Stop.antt =====
-- The rounds of `on_stop` of a TCP thread (src/core/tcp_thread.cpp) against those of `run_loop`.
use uring_proactor.Base.{
  if◌then◌else◌, Bool-cases, ℕ, zero, suc, ◌+◌, ◌≤◌, ◌<◌, ◌≡◌, refl, sym, ap, ◌∙◌, inl, inr, Bool,
  true, false, ◌||◌, none, List, [], ◌∷◌, ◌++◌, arith,
}
use uring_proactor.Core.EventLoop.{
  null_data, wakeup, token_at, Cqe, Sqe, read_wakeup, cancel_all, request, IoRing, get_sqe, submit,
  stop_submit, stopped, Loop, call_token, dispatch_all, stop_batch, found, advanced, stop_round,
  stop_loop, on_stop,
}

abbrev pub has_cancel : List Sqe → Bool
has_cancel [] = false
has_cancel (cancel_all ∷ rest) = true
has_cancel (read_wakeup ∷ rest) = has_cancel rest
has_cancel (request k ∷ rest) = has_cancel rest

abbrev pub has_null : List Cqe → Bool
has_null [] = false
has_null ((null_data, r, f) ∷ rest) = true
has_null ((wakeup, r, f) ∷ rest) = has_null rest
has_null ((token_at k, r, f) ∷ rest) = has_null rest

abbrev pub has_wakeup : List Cqe → Bool
has_wakeup [] = false
has_wakeup ((null_data, r, f) ∷ rest) = has_wakeup rest
has_wakeup ((wakeup, r, f) ∷ rest) = true
has_wakeup ((token_at k, r, f) ∷ rest) = has_wakeup rest

has_cancel-append : (xs ys : List Sqe) → has_cancel (xs ++ ys) ≡ (has_cancel xs || has_cancel ys)
has_cancel-append [] ys = refl
has_cancel-append (cancel_all ∷ rest) ys = refl
has_cancel-append (read_wakeup ∷ rest) ys = has_cancel-append rest ys
has_cancel-append (request k ∷ rest) ys = has_cancel-append rest ys

or_true : (b : Bool) → (b || true) ≡ true
or_true true = refl
or_true false = refl

module _ {A : Type 0} (complete : ℕ → ℕ → ℕ → A → A × List Sqe) where
  -- A batch neither submits nor looks.
  pub batch_keeps :
      (cs : List Cqe) (s : Loop A)
      → ((dispatch_all complete cs s).ring.submitted ≡ s.ring.submitted)
        × ((dispatch_all complete cs s).looks ≡ s.looks)
  unfolding dispatch_all call_token
  batch_keeps [] s = (refl, refl)
  batch_keeps ((null_data, r, f) ∷ rest) s = batch_keeps rest s
  batch_keeps ((wakeup, r, f) ∷ rest) s = batch_keeps rest s
  batch_keeps ((token_at k, r, f) ∷ rest) s = batch_keeps rest (call_token complete k r f s)

  -- Without a wakeup the batch of `on_stop` is that of `run_loop`, and `done` tells of a null.
  pub stop_batch_lem :
      (cs : List Cqe) (done : Bool) (s : Loop A)
      → has_wakeup cs ≡ false
      → stop_batch complete cs done s ≡ stopped (done || has_null cs, dispatch_all complete cs s)
  unfolding stop_batch dispatch_all
  stop_batch_lem [] true s h = refl
  stop_batch_lem [] false s h = refl
  stop_batch_lem ((null_data, r, f) ∷ rest) done s h =
      stop_batch_lem rest true s h
      ∙ ap (λ b. stopped (b, dispatch_all complete rest s)) (sym (or_true done))
  stop_batch_lem ((wakeup, r, f) ∷ rest) done s h = absurd (ground (arith, h))
  stop_batch_lem ((token_at k, r, f) ∷ rest) done s h =
      stop_batch_lem rest done (call_token complete k r f s) h

-- By look `last_look`, a cancel that was submitted has been answered, and no wakeup comes any more.
pub record Answers (arrivals : ℕ → List Sqe → List Cqe) (first_look last_look : ℕ) : Type 0 where
  pub order : first_look ≤ last_look
  pub answers :
      (subs : List Sqe) → has_cancel subs ≡ true → has_null (arrivals last_look subs) ≡ true
  pub quiet : (k : ℕ) (subs : List Sqe) → first_look ≤ k → has_wakeup (arrivals k subs) ≡ false

-- The kernel answers no cancel that was not submitted.
abbrev pub IsHonest : (ℕ → List Sqe → List Cqe) → Type 0
IsHonest arrivals =
    (k : ℕ) (subs : List Sqe) → has_cancel subs ≡ false → has_null (arrivals k subs) ≡ false

module _ {A : Type 0} (complete : ℕ → ℕ → ℕ → A → A × List Sqe)
    (arrivals : ℕ → List Sqe → List Cqe) where
  -- A round without the tests of the loops: submit, look, and call every token that is found.
  abbrev pub serve_round : Loop A → Loop A
  serve_round s =
      let s1 = record s { ring = submit s.ring } in
      dispatch_all complete (found arrivals s1) (advanced s1)

  abbrev pub serve : ℕ → Loop A → Loop A
  serve zero s = s
  serve (suc n) s = serve n (serve_round s)

  -- What the next round finds.
  abbrev pub next_batch : Loop A → List Cqe
  next_batch s = found arrivals (record s { ring = submit s.ring })

  -- The first batch with a null is the `n`th from here.
  pub record Answered (n : ℕ) (s : Loop A) : Type 0 where
    pub last : has_null (next_batch (serve n s)) ≡ true
    pub before : (k : ℕ) → k < n → has_null (next_batch (serve k s)) ≡ false

  stop_round_lem :
      (s : Loop A)
      → has_wakeup (next_batch s) ≡ false
      → stop_round complete arrivals none s ≡ stopped (has_null (next_batch s), serve_round s)
  unfolding stop_round stop_submit
  stop_round_lem s h =
      stop_batch_lem complete (next_batch s) false (advanced (record s { ring = submit s.ring })) h

  pub serve_looks : (s : Loop A) → (serve_round s).looks ≡ suc s.looks
  serve_looks s =
      (batch_keeps complete (next_batch s) (advanced (record s { ring = submit s.ring }))).1

  -- What is submitted stays so.
  cancel_on :
      (s : Loop A)
      → has_cancel (submit s.ring).submitted ≡ true
      → has_cancel (submit (serve_round s).ring).submitted ≡ true
  unfolding submit
  cancel_on s h = ground (
    arith,
    has_cancel-append (serve_round s).ring.submitted (serve_round s).ring.prepared,
    ap has_cancel
        ((batch_keeps complete (next_batch s) (advanced (record s { ring = submit s.ring }))).0),
    h,
  )

  Answers-on :
      (s : Loop A) (last_look : ℕ)
      → s.looks < last_look
      → Answers arrivals s.looks last_look
      → Answers arrivals (serve_round s).looks last_look
  Answers-on s last_look lt a = record {
    order = omega (arith, serve_looks s);
    answers = a.answers;
    quiet = λ k subs h. a.quiet k subs (omega (arith, serve_looks s));
  }

  Answered-on :
      (s : Loop A) (n : ℕ)
      → has_null (next_batch s) ≡ false
      → Answered n (serve_round s)
      → Answered (suc n) s
  Answered-on s n none_here a = record { last = a.last; before = earlier }
    where
      earlier : (k : ℕ) → k < suc n → has_null (next_batch (serve k s)) ≡ false
      earlier zero lt = none_here
      earlier (suc k) lt = a.before k (omega arith)

  cancel_in : (ring : IoRing) → has_cancel (submit (get_sqe cancel_all ring)).submitted ≡ true
  unfolding submit
  cancel_in ring = ground (
    arith,
    has_cancel-append ring.submitted (ring.prepared ++ (cancel_all ∷ [])),
    has_cancel-append ring.prepared (cancel_all ∷ []),
    or_true (has_cancel ring.prepared),
    or_true (has_cancel ring.submitted),
  )

  -- A round in `on_stop` that finds no wakeup.
  pub one_round :
      (n : ℕ) (s : Loop A)
      → has_wakeup (next_batch s) ≡ false
      → stop_loop complete arrivals none (suc n) s ≡ (
          if has_null (next_batch s)
          then stopped (serve_round s)
          else stop_loop complete arrivals none n (serve_round s))
  unfolding stop_loop
  one_round n s h = rw (stop_round_lem s h, stop_loop) refl

  stop_loop_lem :
      (n last_look : ℕ) (s : Loop A)
      → s.looks + n ≡ last_look
      → Answers arrivals s.looks last_look
      → has_cancel (submit s.ring).submitted ≡ true
      → (j : ℕ) × (j ≤ n)
        × Answered j s
        × (stop_loop complete arrivals none (suc n) s ≡ stopped (serve (suc j) s))
  stop_loop_lem zero last_look s e a h = (
    0,
    omega arith,
    record { last = now; before = λ k lt. absurd (omega arith) },
    one_round 0 s (a.quiet s.looks (submit s.ring).submitted (omega arith)) ∙ rw now refl,
  )
    where
      now : has_null (next_batch s) ≡ true
      now =
          ap (λ k. has_null (arrivals k (submit s.ring).submitted)) (omega arith)
          ∙ a.answers (submit s.ring).submitted h
  stop_loop_lem (suc n) last_look s e a h = elim (Bool-cases (has_null (next_batch s))) [
    | inl t ↦ (
      0,
      omega arith,
      record { last = t; before = λ k lt. absurd (omega arith) },
      one_round (suc n) s (a.quiet s.looks (submit s.ring).submitted (omega arith)) ∙ rw t refl,
    )
    | inr f ↦
        let (j, le, ans, r) =
          stop_loop_lem n last_look (serve_round s) (omega (arith, serve_looks s))
            (Answers-on s last_look (omega arith) a) (cancel_on s h) in
        (
          suc j,
          omega arith,
          Answered-on s j f ans,
          one_round (suc n) s (a.quiet s.looks (submit s.ring).submitted (omega arith)) ∙ rw f r,
        )
  ]

  -- `on_stop` of a thread without an affinity ends: where the kernel answers the cancel by a look,
  -- and no wakeup is left, it has served the batches up to the first with the cancel's null, in order,
  -- and no batch after it.
  pub on_stop_lem :
      (n : ℕ) (s : Loop A)
      → Answers arrivals s.looks (s.looks + n)
      → (j : ℕ) × (j ≤ n)
        × Answered j (record s { ring = get_sqe cancel_all s.ring })
        × (on_stop complete arrivals none (suc n) s
            ≡ stopped (serve (suc j) (record s { ring = get_sqe cancel_all s.ring })))
  unfolding on_stop
  on_stop_lem n s a =
      stop_loop_lem n (s.looks + n) (record s { ring = get_sqe cancel_all s.ring }) refl a prepared
    where
      prepared : has_cancel (submit (get_sqe cancel_all s.ring)).submitted ≡ true
      prepared = cancel_in s.ring
