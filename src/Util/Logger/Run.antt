-- ===== src/Util/Logger/Run.antt =====
-- The logger as a sequence of steps of its threads and of the backend, in any order.
use uring_proactor.Base.{
  if◌then◌else◌, count, ℕ, ◌<◌, ◌≡◌, sym, ap, ap₂, subst, ◌∙◌, ◌≢◌, inl, inr, Bool, true, false,
  Option, List, [], ◌++◌, arith,
}
use uring_proactor.Util.Logger.{
  FlushQueue, LogLevel, absent, active, leaving, Logger, buf_of, log, take_one, handle_cqe,
  switch_log_file_date, leave_thread, delete_thread,
}
use uring_proactor.Util.Logger.Append.{Appended, log_lem}
use uring_proactor.Util.Logger.Backend.{handle_cqe-Took, take_one_lem}
use uring_proactor.Util.Logger.Invariant.{IsLogger}
use uring_proactor.Util.Logger.Leave.{leave_thread_lem, delete_thread-IsLogger, switch-IsLogger}

-- A message of a thread at a time; a round of the loop that empties the queue; a completion of the
-- write of a buffer; the two halves of `~ThreadFlushGuard`; and a new day, with the results of `open`
-- and `fstat`.
pub data LogEvent : Type 0 where
  logged : ℕ → ℕ → List ℕ → LogLevel → List ℕ → LogEvent
  taken : LogEvent
  completed : ℕ → LogEvent
  left forgotten : ℕ → LogEvent
  new_day : Option ℕ → Option ℕ → LogEvent

module _ {Q : Type 0} (queue : FlushQueue Q) (printf : List ℕ → List ℕ → List ℕ → List ℕ) where
  unfoldable pub log_step : LogEvent → Logger Q → Logger Q
  unfolding log take_one handle_cqe leave_thread delete_thread switch_log_file_date
  log_step (logged t now date level message) s = log queue printf t now date level message s
  log_step taken s = take_one queue s
  log_step (completed a) s = handle_cqe queue a s
  log_step (left t) s = leave_thread queue t s
  log_step (forgotten t) s = delete_thread queue t s
  log_step (new_day opened st_size) s = (switch_log_file_date queue opened st_size s).1

  -- A thread logs until `~ThreadFlushGuard`, which it runs once; the kernel completes what it has; and
  -- the backend changes the file when no write is left.
  abbrev pub May : LogEvent → Logger Q → Type 0
  May (logged t now date level message) s = (s.threads t).phase ≢ leaving
  May (completed a) s = 0 < count a s.writes
  May (left t) s = (s.threads t).phase ≡ active
  May (new_day opened st_size) s = s.writes ≡ []
  May _ s = Unit {0}

  pub record IsInitial (s : Logger Q) : Type 0 where
    pub no_thread : (t : ℕ) → (s.threads t).phase ≡ absent
    pub none_flies : (a : ℕ) → (s.bufs a).in_flight ≡ false
    pub no_entry : queue.entries s.flush_queue ≡ []
    pub no_write : s.writes ≡ []

  pub data LogReach : Logger Q → Type 0 where
    from_start : {s : Logger Q} → IsInitial s → LogReach s
    then_log : {s : Logger Q} (e : LogEvent) → LogReach s → May e s → LogReach (log_step e s)

  Appended-IsLogger :
      (t now : ℕ) (bytes : List ℕ) (s : Logger Q) (o : Bool × Logger Q)
      → Appended queue t now bytes s o
      → IsLogger queue o.1
  Appended-IsLogger t now bytes s (true, r) f = f.sound
  Appended-IsLogger t now bytes s (false, r) f = f.0.sound

  log_step-IsLogger :
      (e : LogEvent) (s : Logger Q) → IsLogger queue s → May e s → IsLogger queue (log_step e s)
  unfolding log_step
  log_step-IsLogger (logged t now date level message) s i ok =
      elim (log_lem queue printf t now date level message s i ok) [
        | inl (e, _) ↦ subst (IsLogger queue) (sym e) i
        | inr (kept, _, f) ↦ Appended-IsLogger t now _ s _ f
      ]
  log_step-IsLogger taken s i ok = elim (take_one_lem queue s i) [
    | inl (_, f, _) ↦ f.sound
    | inr (a, _, f, _) ↦ f.sound
  ]
  log_step-IsLogger (completed a) s i ok = (handle_cqe-Took queue s a i ok).sound
  log_step-IsLogger (left t) s i ok = elim (leave_thread_lem queue t s i ok) [
    | inl f ↦ f.sound
    | inr (f, _, _) ↦ f.sound
  ]
  log_step-IsLogger (forgotten t) s i ok = delete_thread-IsLogger queue t s i
  log_step-IsLogger (new_day opened st_size) s i ok = switch-IsLogger queue opened st_size s i

  -- In every state that threads and backend reach, in any order of their steps, where each call
  -- of the queue is one step: a buffer is in flight exactly where it is in the queue or its
  -- write is not completed, and then it is there once; a thread fills a buffer that is not in
  -- flight and within its size; its other buffer is empty unless it is in flight; and no buffer
  -- of a forgotten thread is in flight.
  pub LogReach-IsLogger : {s : Logger Q} → LogReach s → IsLogger queue s
  LogReach-IsLogger (from_start {s} h) = record {
    once = λ a.
        ap₂ (λ xs ys. count a (xs ++ ys)) h.no_write h.no_entry
        ∙ ap (λ x. if x then 1 else 0) (sym (h.none_flies a));
    fills = λ t on. absurd (ground (arith, on, h.no_thread t));
    gone = λ t q. (h.none_flies (buf_of t 0), h.none_flies (buf_of t 1));
  }
  LogReach-IsLogger (then_log {s} e r ok) = log_step-IsLogger e s (LogReach-IsLogger r) ok
