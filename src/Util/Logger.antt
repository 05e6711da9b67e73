-- ===== src/Util/Logger.antt =====
-- class Logger (include/util/log.hpp, src/util/log.cpp): each thread has two buffers, of which it
-- fills one; a full buffer goes through a queue to the backend, which writes it to the log file.
-- A buffer is its address: `bufs[i]` of thread `t` is `t + t + i`. A call of `append` is one step,
-- as the backend changes only buffers that are in flight, and of their flags `append` reads one.
pub mod Invariant
pub mod Front
pub mod Swap
pub mod Flush
pub mod Threads
pub mod Append
pub mod Backend
pub mod Leave
pub mod Run
pub mod Queue
use uring_proactor.Base.{
  ltb, leb, ◌==◌, if◌then◌else◌, u32_mod, u64_mod, add_word, sub_word, length, take, update, rows,
  ℕ, ◌+◌, ◌-◌, ◌*◌, ◌≡◌, ◌⊎◌, Bool, true, false, not, ◌&&◌, ◌||◌, Option, none, some, List, [], ◌∷◌,
  ◌++◌,
}
use uring_proactor.Base.Memory.{store}

-- `flush_queue_`, with what the logger relies on: where `enqueue` returns true the entry stands
-- behind the others, and `dequeue` gives the first one, where it gives one. Logger.Queue makes one of
-- the MPSCQueue.
pub record FlushQueue (Q : Type 0) : Type 0 where
  pub enqueue : ℕ → Q → Bool × Q
  pub dequeue : Q → Option ℕ × Q
  pub entries : Q → List ℕ
  pub entries-enqueue :
      (a : ℕ) (q : Q)
      → entries (enqueue a q).1 ≡ (if (enqueue a q).0 then entries q ++ (a ∷ []) else entries q)
  pub entries-dequeue :
      (q : Q)
      → (((dequeue q).0 ≡ none) × (entries (dequeue q).1 ≡ entries q))
        ⊎ ((a : ℕ) × ((dequeue q).0 ≡ some a) × (entries q ≡ a ∷ entries (dequeue q).1))

pub data LogLevel : Type 0 where
  debug info warning error : LogLevel

abbrev pub rank : LogLevel → ℕ
rank debug = 0
rank info = 1
rank warning = 2
rank error = 3

-- `BUFFER_SIZE`, and a second in the unit of the steady clock.
abbrev pub buffer_size : ℕ
buffer_size = 1024 * 1024 * 32

abbrev pub second : ℕ
second = 1000000000

pub record LoggerBuffer : Type 0 where
  pub buffer : ℕ → ℕ
  pub current_size : ℕ
  pub in_flight : Bool

-- Whether `thread_state()` is null, points to a state, or points to one that `ThreadFlushGuard`
-- waits to delete.
pub data Phase : Type 0 where
  absent active leaving : Phase

pub record ThreadState : Type 0 where
  pub phase : Phase
  pub write_idx : ℕ
  pub last_flush_time : ℕ

-- The calls for the log file, in order.
pub data FileCall : Type 0 where
  prep_write : ℕ → List ℕ → ℕ → FileCall
  close_file : ℕ → FileCall

-- `writes` are the buffers whose write is submitted and not completed.
pub record Logger (Q : Type 0) : Type 0 where
  pub threads : ℕ → ThreadState
  pub bufs : ℕ → LoggerBuffer
  pub flush_queue : Q
  pub semaphore : ℕ
  pub fd : Option ℕ
  pub offset : ℕ
  pub in_flight : ℕ
  pub writes : List ℕ
  pub calls : List FileCall
  pub log_level : LogLevel

abbrev pub new_buffer : LoggerBuffer
new_buffer = record { buffer = λ k. 0; current_size = 0; in_flight = false }

abbrev pub buf_of : ℕ → ℕ → ℕ
buf_of t i = t + t + i

-- `LoggerBuffer::append` and `clear`
abbrev pub put_bytes : List ℕ → LoggerBuffer → LoggerBuffer
put_bytes bytes b = record b {
  buffer = store b.buffer b.current_size bytes;
  current_size = add_word u64_mod b.current_size (length bytes);
}

abbrev pub set_in_flight : Bool → LoggerBuffer → LoggerBuffer
set_in_flight x b = record b { in_flight = x }

-- `buf->clear()` and the store to `in_flight_`
abbrev pub free_buffer : LoggerBuffer → LoggerBuffer
free_buffer b = record b { current_size = 0; in_flight = false }

module _ {Q : Type 0} (queue : FlushQueue Q) where
  open queue use {enqueue, dequeue}

  abbrev pub edit : ℕ → (LoggerBuffer → LoggerBuffer) → Logger Q → Logger Q
  edit a f s = record s { bufs = update s.bufs a (f (s.bufs a)) }

  -- The buffer that thread `t` fills, and the other one.
  abbrev pub front_buf : ℕ → Logger Q → ℕ
  front_buf t s = buf_of t (s.threads t).write_idx

  abbrev pub back_buf : ℕ → Logger Q → ℕ
  back_buf t s = buf_of t (1 - (s.threads t).write_idx)

  -- `if (!ts) ts = new ThreadState()`
  unfoldable pub start_thread : ℕ → ℕ → Logger Q → Logger Q
  start_thread t now s = elim (s.threads t).phase [
    | absent ↦ record s {
      threads =
          update s.threads t (record { phase = active; write_idx = 0; last_flush_time = now });
      bufs = update (update s.bufs (buf_of t 0) new_buffer) (buf_of t 1) new_buffer;
    }
    | _ ↦ s
  ]

  -- `enqueue(&front)` with the flag set before it and taken back where it fails; `done` tells.
  unfoldable pub flush_front : ℕ → Logger Q → Bool × Logger Q
  flush_front t s =
      let (done, q) = enqueue (front_buf t s) s.flush_queue in
      if done
      then (
        true,
        record (edit (front_buf t s) (set_in_flight true) s) {
          flush_queue = q;
          semaphore = s.semaphore + 1;
        },
      )
      else (false, record (edit (front_buf t s) (set_in_flight false) s) { flush_queue = q })

  -- The change of buffers in `append`: false is a return without the data.
  unfoldable pub swap : ℕ → ℕ → Bool → Logger Q → Bool × Logger Q
  unfolding flush_front
  swap t now is_full s =
      if (s.bufs (back_buf t s)).in_flight
      then (not is_full, s)
      else let (done, r) = flush_front t s in
        if done
        then (
          true,
          record r {
            threads = update r.threads t (record (r.threads t) {
              write_idx = 1 - (s.threads t).write_idx;
              last_flush_time = now;
            });
          },
        )
        else (not is_full, r)

  abbrev pub is_full : List ℕ → LoggerBuffer → Bool
  is_full bytes b = ltb buffer_size (add_word u64_mod b.current_size (length bytes))

  abbrev pub timed_out : ℕ → ℕ → List ℕ → LoggerBuffer → Bool
  timed_out now last bytes b =
      not (is_full bytes b) && not (b.current_size == 0) && leb (last + second) now

  abbrev pub put_front : ℕ → List ℕ → Bool × Logger Q → Bool × Logger Q
  put_front t bytes (keep, s) =
      if keep then (true, edit (front_buf t s) (put_bytes bytes) s) else (false, s)

  -- `append(data, size)` of thread `t` at the time `now`, and whether the data was kept.
  unfoldable pub append : ℕ → ℕ → List ℕ → Logger Q → Bool × Logger Q
  unfolding start_thread swap
  append t now bytes s0 =
      let s = start_thread t now s0 in
      let front = s.bufs (front_buf t s) in
      let full = is_full bytes front in
      put_front t bytes (
        if full || timed_out now (s.threads t).last_flush_time bytes front
        then swap t now full s
        else (true, s))

  -- `log(level, message)`, where `printf` gives the text that the call of `snprintf` would write
  -- to a large enough array, from the date, the level and the message. `line` has 320 bytes.
  abbrev pub level_str : LogLevel → List ℕ
  level_str debug = 91 ∷ 68 ∷ 69 ∷ 66 ∷ 85 ∷ 71 ∷ 93 ∷ []
  level_str info = 91 ∷ 73 ∷ 78 ∷ 70 ∷ 79 ∷ 93 ∷ []
  level_str warning = 91 ∷ 87 ∷ 65 ∷ 82 ∷ 78 ∷ 73 ∷ 78 ∷ 71 ∷ 93 ∷ []
  level_str error = 91 ∷ 69 ∷ 82 ∷ 82 ∷ 79 ∷ 82 ∷ 93 ∷ []

  unfoldable pub log :
      (List ℕ → List ℕ → List ℕ → List ℕ) → ℕ → ℕ → List ℕ → LogLevel → List ℕ → Logger Q → Logger Q
  unfolding append
  log printf t now date level message s =
      let line = printf date (level_str level) message in
      let n = length line in
      if ltb (rank level) (rank s.log_level)
      then s
      else if ltb 0 n
      then (append t now (take (if ltb n 320 then n else 319) line) s).1
      else s

  -- `submit_buf` of `backend_loop`
  unfoldable pub submit_buf : ℕ → Logger Q → Logger Q
  submit_buf a s = elim s.fd [
    | none ↦ edit a free_buffer s
    | some f ↦ record s {
      writes = s.writes ++ (a ∷ []);
      calls =
          s.calls
          ++ (prep_write f (rows (s.bufs a).buffer 0 (s.bufs a).current_size) s.offset ∷ []);
      offset = add_word u64_mod s.offset (s.bufs a).current_size;
      in_flight = add_word u32_mod s.in_flight 1;
    }
  ]

  -- One round of the loop that empties `flush_queue_`.
  unfoldable pub take_one : Logger Q → Logger Q
  unfolding submit_buf
  take_one s = elim (dequeue s.flush_queue).0 [
    | none ↦ record s { flush_queue = (dequeue s.flush_queue).1 }
    | some a ↦ submit_buf a (record s { flush_queue = (dequeue s.flush_queue).1 })
  ]

  abbrev pub remove : ℕ → List ℕ → List ℕ
  remove a [] = []
  remove a (x ∷ xs) = if a == x then xs else x ∷ remove a xs

  -- `handle_cqe` of the write of buffer `a`
  unfoldable pub handle_cqe : ℕ → Logger Q → Logger Q
  handle_cqe a s = record (edit a free_buffer s) {
    writes = remove a s.writes;
    in_flight = sub_word u32_mod s.in_flight 1;
  }

  unfoldable pub close_log : Logger Q → Logger Q
  close_log s = elim s.fd [
    | none ↦ s
    | some f ↦ record s { calls = s.calls ++ (close_file f ∷ []) }
  ]

  -- `switch_log_file_date()`, where `opened` and `st_size` are the results of `open` and `fstat`.
  unfoldable pub switch_log_file_date : Option ℕ → Option ℕ → Logger Q → Bool × Logger Q
  unfolding close_log
  switch_log_file_date none st_size s = (false, record (close_log s) { fd = none })
  switch_log_file_date (some f) none s = (true, record (close_log s) { fd = some f })
  switch_log_file_date (some f) (some n) s =
      (true, record (close_log s) { fd = some f; offset = n })

  abbrev pub set_phase : ℕ → Phase → Logger Q → Logger Q
  set_phase t p s = record s { threads = update s.threads t (record (s.threads t) { phase = p }) }

  -- `~ThreadFlushGuard` up to the wait, and after it.
  unfoldable pub leave_thread : ℕ → Logger Q → Logger Q
  unfolding flush_front
  leave_thread t s = elim (s.threads t).phase [
    | active ↦
        (if (s.bufs (front_buf t s)).current_size == 0 || (s.bufs (back_buf t s)).in_flight
          then set_phase t leaving s
          else set_phase t leaving (flush_front t s).1)
    | _ ↦ s
  ]

  unfoldable pub delete_thread : ℕ → Logger Q → Logger Q
  delete_thread t s = elim (s.threads t).phase [
    | leaving ↦
        (if (s.bufs (buf_of t 0)).in_flight || (s.bufs (buf_of t 1)).in_flight
          then s
          else set_phase t absent s)
    | _ ↦ s
  ]
