-- ===== src/Core/LoopExamples.antt =====
-- An event loop over small batches: runs of the code, and uses of the theorems.
use uring_proactor.Base.{
  leb, if◌then◌else◌, Bool-cases, ℕ, zero, suc, ◌≤◌, ◌≡◌, refl, inl, inr, Bool, true, false, none,
  some, List, [], ◌∷◌, ◌++◌, arith,
}
use uring_proactor.Core.EventLoop.{
  null_data, wakeup, token_at, Cqe, Sqe, read_wakeup, cancel_all, request, submit, stop_submit,
  stopped, running, wild_call, Loop, call_token, dispatch_all, stop_batch, stop_round, stop_loop,
  on_stop, finish_batch, round, run_rounds, run_loop,
}
use uring_proactor.Core.EventLoop.Run.{told_to_stop, run_loop_lem, on_stop-bound}
use uring_proactor.Core.EventLoop.Stop.{has_cancel, has_null, has_wakeup, IsHonest, serve, Answered}

-- The application notes the tokens that are called, and asks for nothing.
abbrev note_token : ℕ → ℕ → ℕ → List ℕ → List ℕ × List Sqe
note_token k res flags app = (app ++ (k ∷ []), [])

abbrev note_batch : List ℕ → List ℕ × List Sqe
note_batch app = (app ++ (0 ∷ []), [])

-- Two batches before the stop, the second with the wakeup; then the cancel is answered at once, with the
-- completions of what it cancels.
abbrev small_kernel : ℕ → List Sqe → List Cqe
small_kernel zero subs = (token_at 3, 5, 0) ∷ []
small_kernel (suc zero) subs = (wakeup, 8, 0) ∷ (token_at 4, 1, 0) ∷ []
small_kernel (suc (suc k)) subs =
    if has_cancel subs then (token_at 3, 0, 0) ∷ (null_data, 0, 0) ∷ (token_at 4, 0, 0) ∷ [] else []

abbrev first_loop : Loop (List ℕ)
first_loop = record { ring = record { prepared = []; submitted = [] }; app = []; looks = 0 }

abbrev stop_at_2 : ℕ → Bool
stop_at_2 k = leb 2 k

small_kernel_null :
    (k : ℕ) (subs : List Sqe)
    → has_cancel subs ≡ true
    → has_null (small_kernel (suc (suc k)) subs) ≡ true
small_kernel_null k subs h = rw h refl

small_kernel_quiet : (k : ℕ) (subs : List Sqe) → 2 ≤ k → has_wakeup (small_kernel k subs) ≡ false
small_kernel_quiet zero subs h = absurd (omega arith)
small_kernel_quiet (suc zero) subs h = absurd (omega arith)
small_kernel_quiet (suc (suc k)) subs h = elim (Bool-cases (has_cancel subs)) [
  | inl t ↦ rw t refl
  | inr f ↦ rw f refl
]

-- The tokens are called in the order of the batches, and those behind the null too.
small_run :
    run_loop note_token small_kernel note_batch none stop_at_2 (request 9) 3 1 first_loop
    ≡ stopped (record {
      ring = record { prepared = []; submitted = request 9 ∷ read_wakeup ∷ cancel_all ∷ [] };
      app = 3 ∷ 0 ∷ 4 ∷ 0 ∷ 3 ∷ 4 ∷ [];
      looks = 3;
    })
unfolding run_loop run_rounds round finish_batch dispatch_all call_token submit on_stop stop_loop
    stop_round stop_batch stop_submit
small_run = refl

abbrev stopping : Loop (List ℕ)
stopping = told_to_stop note_token small_kernel note_batch (request 9) 2 first_loop

run_loop_lem_example :
    (j : ℕ) × (j ≤ 0)
    × Answered note_token small_kernel j stopping
    × (run_loop note_token small_kernel note_batch none stop_at_2 (request 9) 3 1 first_loop
        ≡ stopped (serve note_token small_kernel (suc j) stopping))
unfolding round finish_batch dispatch_all call_token submit
run_loop_lem_example =
    run_loop_lem note_token small_kernel note_batch stop_at_2 (request 9) 2 0 first_loop
      (λ k lo hi. ground arith) refl
      (record { order = omega arith; answers = small_kernel_null 0; quiet = small_kernel_quiet })

-- A kernel whose second look finds the cancelled read of the wakeup descriptor.
abbrev waking_kernel : ℕ → List Sqe → List Cqe
waking_kernel zero subs = (token_at 3, 5, 0) ∷ []
waking_kernel (suc k) subs = (wakeup, 8, 0) ∷ (null_data, 0, 0) ∷ []

-- Then `on_stop` calls `complete` through -1.
waking_run : on_stop note_token waking_kernel none 2 first_loop ≡ wild_call
unfolding on_stop stop_loop stop_round stop_batch stop_submit call_token submit
waking_run = refl

-- A kernel that answers a cancel, and has a completion of a token at its first look.
abbrev patient_kernel : ℕ → List Sqe → List Cqe
patient_kernel zero subs = (token_at 3, 5, 0) ∷ []
patient_kernel (suc k) subs = if has_cancel subs then (null_data, 0, 0) ∷ [] else []

patient_kernel-IsHonest : IsHonest patient_kernel
patient_kernel-IsHonest zero subs h = refl
patient_kernel-IsHonest (suc k) subs h = rw h refl

patient_kernel_quiet :
    (k : ℕ) (subs : List Sqe) → 0 ≤ k → has_wakeup (patient_kernel k subs) ≡ false
patient_kernel_quiet zero subs le = refl
patient_kernel_quiet (suc k) subs le = elim (Bool-cases (has_cancel subs)) [
  | inl t ↦ rw t refl
  | inr f ↦ rw f refl
]

on_stop-bound_example :
    (t : Loop (List ℕ)) × (on_stop note_token patient_kernel (some 2) 100 first_loop ≡ running t)
    × (t.looks ≡ 100)
on_stop-bound_example =
    on_stop-bound note_token patient_kernel 2 100 first_loop patient_kernel-IsHonest refl
      patient_kernel_quiet
