-- ===== src/Core/EventLoop.antt =====
-- The event loop of a thread: `run_loop` of class IoThread (src/core/io_thread.cpp), and `on_stop` of
-- class TcpThread (src/core/tcp_thread.cpp). The kernel is a function from the number of a look at the
-- completion queue, and from what has been submitted by then, to the completions that are found.
pub mod Stop
pub mod Run
use uring_proactor.Base.{
  if◌then◌else◌, ℕ, zero, suc, Bool, true, false, Option, none, some, List, [], ◌∷◌, ◌++◌,
}

-- `user_data` of a request: null, -1, or the address of a `Token`.
pub data UserData : Type 0 where
  null_data wakeup : UserData
  token_at : ℕ → UserData

-- A completion: its `user_data`, and the 32 bits of `res` and of `flags`.
abbrev pub Cqe : Type 0
Cqe = UserData × ℕ × ℕ

-- A request in the submission queue: the read of the event descriptor, the cancel of all requests, or
-- one that a channel or the application prepares.
pub data Sqe : Type 0 where
  read_wakeup cancel_all : Sqe
  request : ℕ → Sqe

-- Requests that `get_sqe` has handed out since the last submission, and those submitted.
pub record IoRing : Type 0 where
  pub prepared : List Sqe
  pub submitted : List Sqe

-- `get_sqe()`, in a submission queue with room.
abbrev pub get_sqe : Sqe → IoRing → IoRing
get_sqe e ring = record ring { prepared = ring.prepared ++ (e ∷ []) }

abbrev pub prepare_all : List Sqe → IoRing → IoRing
prepare_all es ring = record ring { prepared = ring.prepared ++ es }

-- `submit()`, and `submit_and_wait(1)`.
unfoldable pub submit : IoRing → IoRing
submit ring = record { prepared = []; submitted = ring.submitted ++ ring.prepared }

-- `if (cpu_id_ == -1) ring.submit_and_wait(1);` of `on_stop`
unfoldable pub stop_submit : Option ℕ → IoRing → IoRing
unfolding submit
stop_submit none ring = submit ring
stop_submit (some cpu) ring = ring

-- What a loop does: its test tells it to stop, it still runs when the rounds that are looked at are
-- over, or it calls through a pointer that is no `Token`.
pub data Outcome {ℓ} (A : Type ℓ) : Type ℓ where
  stopped running : A → Outcome A
  wild_call : Outcome A

pub record Loop (A : Type 0) : Type 0 where
  pub ring : IoRing
  pub app : A
  -- Looks at the completion queue so far.
  pub looks : ℕ

-- `token->complete(res, flags)`, with the requests that it prepares, is a parameter.
module _ {A : Type 0} (complete : ℕ → ℕ → ℕ → A → A × List Sqe) where
  unfoldable pub call_token : ℕ → ℕ → ℕ → Loop A → Loop A
  call_token k res flags s =
      let (app, es) = complete k res flags s.app in
      record s { ring = prepare_all es s.ring; app = app }

  -- The loop over a batch in `run_loop`.
  unfoldable pub dispatch_all : List Cqe → Loop A → Loop A
  unfolding call_token
  dispatch_all [] s = s
  dispatch_all ((null_data, res, flags) ∷ rest) s = dispatch_all rest s
  dispatch_all ((wakeup, res, flags) ∷ rest) s = dispatch_all rest s
  dispatch_all ((token_at k, res, flags) ∷ rest) s = dispatch_all rest (call_token k res flags s)

  -- The loop over a batch in `on_stop`, with `done`.
  unfoldable pub stop_batch : List Cqe → Bool → Loop A → Outcome (Bool × Loop A)
  unfolding call_token
  stop_batch [] done s = stopped (done, s)
  stop_batch ((null_data, res, flags) ∷ rest) done s = stop_batch rest true s
  stop_batch ((wakeup, res, flags) ∷ rest) done s = wild_call
  stop_batch ((token_at k, res, flags) ∷ rest) done s =
      stop_batch rest done (call_token k res flags s)

-- `peek_batch_cqe`, and `cqe_advance`; what a look finds is a parameter.
abbrev pub found : {A : Type 0} → (ℕ → List Sqe → List Cqe) → Loop A → List Cqe
found arrivals s = arrivals s.looks s.ring.submitted

abbrev pub advanced : {A : Type 0} → Loop A → Loop A
advanced s = record s { looks = suc s.looks }

module _ {A : Type 0} (complete : ℕ → ℕ → ℕ → A → A × List Sqe)
    (arrivals : ℕ → List Sqe → List Cqe) where
  -- A round of the loop of `on_stop`: with an affinity it does not submit.
  unfoldable pub stop_round : Option ℕ → Loop A → Outcome (Bool × Loop A)
  unfolding stop_batch stop_submit
  stop_round cpu_id s =
      let s1 = record s { ring = stop_submit cpu_id s.ring } in
      stop_batch complete (found arrivals s1) false (advanced s1)

  unfoldable pub stop_loop : Option ℕ → ℕ → Loop A → Outcome (Loop A)
  unfolding stop_round
  stop_loop cpu_id zero s = running s
  stop_loop cpu_id (suc fuel) s = elim (stop_round cpu_id s) [
    | stopped r ↦ let rest = stop_loop cpu_id fuel r.1 in if r.0 then stopped r.1 else rest
    | running r ↦ running r.1
    | wild_call ↦ wild_call
  ]

  -- `on_stop()` of TcpThread.
  unfoldable pub on_stop : Option ℕ → ℕ → Loop A → Outcome (Loop A)
  unfolding stop_loop
  on_stop cpu_id fuel s = stop_loop cpu_id fuel (record s { ring = get_sqe cancel_all s.ring })

  -- `on_batch_done()`, with the requests that it prepares, is a parameter too.
  module _ (batch_done : A → A × List Sqe) where
    unfoldable pub finish_batch : Loop A → Loop A
    finish_batch s =
        let (app, es) = batch_done s.app in record s { ring = prepare_all es s.ring; app = app }

    -- The body of the loop of `run_loop`: both branches submit.
    unfoldable pub round : Loop A → Loop A
    unfolding finish_batch dispatch_all submit
    round s =
        let s1 = record s { ring = submit s.ring } in
        finish_batch (dispatch_all complete (found arrivals s1) (advanced s1))

    -- The loop of `run_loop`, which looks at the stop token before each round.
    unfoldable pub run_rounds : (ℕ → Bool) → ℕ → Loop A → Outcome (Loop A)
    unfolding round
    run_rounds stop_requested zero s = running s
    run_rounds stop_requested (suc fuel) s =
        let rest = run_rounds stop_requested fuel (round s) in
        if stop_requested s.looks then stopped s else rest

    -- `run_loop(st)`, from `on_loop_start` on, which prepares the request of the accept loop.
    unfoldable pub run_loop : Option ℕ → (ℕ → Bool) → Sqe → ℕ → ℕ → Loop A → Outcome (Loop A)
    unfolding run_rounds on_stop
    run_loop cpu_id stop_requested accept fuel stop_fuel s =
        elim (run_rounds stop_requested fuel
          (record s { ring = get_sqe read_wakeup (get_sqe accept s.ring) })) [
            | stopped t ↦ on_stop cpu_id stop_fuel t
            | running t ↦ running t
            | wild_call ↦ wild_call
          ]
