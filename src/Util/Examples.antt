-- ===== src/Util/Examples.antt =====
-- The logger on a small queue: runs of the code, and uses of the theorems.
use uring_proactor.Base.{◌==◌, if◌then◌else◌, ℕ, ◌≡◌, refl, false, some, List, [], ◌∷◌, ◌++◌, arith}
use uring_proactor.Util.Logger.Append.{Appended, append-Appended}
use uring_proactor.Util.Logger.{
  info, error, absent, leaving, Logger, start_thread, flush_front, append, leave_thread,
}
use uring_proactor.Util.Logger.Backend.{Rounds, take_one_lem}
use uring_proactor.Util.Logger.Invariant.{IsLogger, to_write}
use uring_proactor.Util.Logger.Queue.{SoundQueue, flush_queue_capacity, logger_queue, new_queue}
use uring_proactor.Util.MpscQueue.Alone.{enqueue_alone}
use uring_proactor.Base.Ring.{items, size}
use uring_proactor.Util.Logger.Run.{
  logged, log_step, LogReach, from_start, then_log, LogReach-IsLogger,
}

abbrev Queue : Type 0
Queue = SoundQueue flush_queue_capacity

abbrev line_of : List ℕ → List ℕ → List ℕ → List ℕ
line_of date level message = date ++ level ++ message ++ (10 ∷ [])

-- A log file of 100 bytes is open, and no thread has logged.
abbrev quiet : Logger Queue
quiet = record {
  threads = λ t. record { phase = absent; write_idx = 0; last_flush_time = 0 };
  bufs = λ a. record { buffer = λ k. 0; current_size = 0; in_flight = false };
  flush_queue = new_queue (λ k. 0);
  semaphore = 0;
  fd = some 7;
  offset = 100;
  in_flight = 0;
  writes = [];
  calls = [];
  log_level = info;
}

quiet-LogReach : LogReach logger_queue line_of quiet
unfolding items size
quiet-LogReach =
    from_start
      (record { no_thread = λ t. refl; none_flies = λ a. refl; no_entry = refl; no_write = refl })

-- Thread 3 has logged two bytes.
abbrev busy : Logger Queue
busy = (append logger_queue 3 5 (8 ∷ 9 ∷ []) quiet).1

append_run : to_write logger_queue (leave_thread logger_queue 3 busy) ≡ 8 ∷ 9 ∷ []
unfolding append start_thread leave_thread flush_front enqueue_alone items size
append_run = refl

append-Appended_example :
    Appended logger_queue 3 5 (8 ∷ 9 ∷ []) quiet (append logger_queue 3 5 (8 ∷ 9 ∷ []) quiet)
append-Appended_example =
    append-Appended logger_queue 3 5 (8 ∷ 9 ∷ []) quiet
      (LogReach-IsLogger logger_queue line_of quiet-LogReach) (λ e. ground arith) (omega arith)

LogReach-IsLogger_example :
    IsLogger logger_queue (log_step logger_queue line_of (logged 3 5 [] error (8 ∷ 9 ∷ [])) quiet)
LogReach-IsLogger_example =
    LogReach-IsLogger logger_queue line_of
      (then_log (logged 3 5 [] error (8 ∷ 9 ∷ [])) quiet-LogReach (λ e. ground arith))

-- Buffer 6 holds five bytes and waits.
abbrev waiting : Logger Queue
waiting = record quiet {
  bufs =
      λ a. record { buffer = λ k. k; current_size = if a == 6 then 5 else 0; in_flight = a == 6 };
  threads = λ t. record {
    phase = if t == 3 then leaving else absent;
    write_idx = 0;
    last_flush_time = 0;
  };
  flush_queue = (logger_queue.enqueue 6 (new_queue (λ k. 0))).1;
}

take_one_example : Rounds logger_queue waiting
unfolding enqueue_alone items size
take_one_example = take_one_lem logger_queue waiting (record {
  once = λ a. ground arith;
  fills = λ t on. absurd (ground (arith, on));
  gone = λ t h. (ground (arith, h), ground (arith, h));
})
