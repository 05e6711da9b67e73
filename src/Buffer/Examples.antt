-- ===== src/Buffer/Examples.antt =====
-- The buffers on small inputs: runs of the code, and the theorems applied to a stream of blocks.
use uring_proactor.Base.{
  ◌==◌, if◌then◌else◌, u32_mod, u64_mod, length, rows, IsCapacity, ℕ, ◌+◌, ◌-◌, ◌^◌, ◌≤◌, ◌%◌, ◌<◌,
  ◌≡◌, refl, ◌⊎◌, Bool, true, false, Option, none, some, List, [], ◌∷◌, ◌++◌, arith,
}
use uring_proactor.Base.Ring.{size, push, front, advance, back, retreat, items}
use uring_proactor.Buffer.BufPool.{BufPool, invalid_idx, acquire, release, release_asserts}
use uring_proactor.Buffer.Stream.{Stream, submit_blocks, Iovec, peek_iovec, consume_written, reset}
use uring_proactor.Buffer.Stream.Invariant.{send_bytes, IsStream, owned}
use uring_proactor.Buffer.BufPool.Invariant.{free_list, IsPool}
use uring_proactor.Buffer.WriteBuf.{Writer, append, prepend}
use uring_proactor.Buffer.WriteBuf.Prepend.{blocks_needed, prepend_lem}
use uring_proactor.Buffer.Stream.Consume.{Consumed, consume_written_lem}
use uring_proactor.Buffer.Stream.Reset.{reset_lem}
use uring_proactor.Buffer.Stream.Gather.{vec_bytes, peek_iovec_lem}
use uring_proactor.Buffer.WriteBuf.Append.{Framed, append_lem}
use uring_proactor.Buffer.WriteBuf.Invariant.{pending_list, send_list, pending_bytes}
use uring_proactor.Buffer.BufPool.Blocks.{block}
use uring_proactor.Buffer.BufPool.Fifo.{acquire_lem, release_lem}
use uring_proactor.Buffer.WriteBuf.Enough.{append_enough}
use uring_proactor.Buffer.MsghdrPool.{MsghdrPool, clear_hdr}
use uring_proactor.Buffer.MsghdrPool.Fifo.{IsMsghdrPool}

-- Four blocks of four bytes, where byte `k` of the allocation is `k`. Block 3 is free.
abbrev pub four_blocks : BufPool
four_blocks = record {
  buf_num = 4;
  mask = 3;
  buf_size = 4;
  bufs = λ k. k;
  data_size = λ a. if a == 0 then 4 else if a == 1 then 2 else if a == 2 then 3 else 0;
  free = record { slots = λ k. k; head = 3; tail = 4 };
}

-- Blocks 0 and 1 are being sent, one byte of block 0 is written, and block 2 waits.
abbrev pub stream : Stream
stream = record {
  base = record {
    pool = four_blocks;
    pending = record { slots = λ k. k; head = 2; tail = 3 };
    send = record { slots = λ k. k; head = 0; tail = 2 };
    capacity = 4;
    mask = 3;
  };
  offset = 1;
}

abbrev pub nobody : ℕ → ℕ
nobody a = 0

pub four : IsCapacity 4
four = record { log = 2; small = omega arith; power = refl }

pub four_blocks-IsPool : IsPool (owned nobody stream) four_blocks
unfolding items size
four_blocks-IsPool = record {
  capacity = four;
  masked = refl;
  sized = omega arith;
  allocated = omega arith;
  queue = record { head_in = omega arith; tail_in = omega arith; fits = omega arith };
  once = λ a. ground arith;
  clean = λ a free. ground arith;
  filled = λ a lt. ground arith;
}

pub stream-IsStream : IsStream nobody stream
unfolding items size front
stream-IsStream = record {
  writer = record {
    waiting = record {
      capacity = four;
      masked = refl;
      queue = record { head_in = omega arith; tail_in = omega arith; fits = omega arith };
      pool = four_blocks-IsPool;
    };
    sending = record { head_in = omega arith; tail_in = omega arith; fits = omega arith };
  };
  within = λ h. omega arith;
  idle = λ e. absurd (omega arith);
}

pub send_bytes-stream : send_bytes stream ≡ 1 ∷ 2 ∷ 3 ∷ 4 ∷ 5 ∷ []
unfolding items size
send_bytes-stream = refl

abbrev appended : Option (Bool × Writer) → Bool × List ℕ
appended none = (false, [])
appended (some (ok, s)) = (ok, pending_bytes s)

abbrev left_after : Option Stream → List ℕ
left_after none = []
left_after (some s) = send_bytes s

-- Runs of the code.
append_run :
    appended (append (50 ∷ 51 ∷ 52 ∷ []) stream.base) ≡ (true, 8 ∷ 9 ∷ 10 ∷ 50 ∷ 51 ∷ 52 ∷ [])
unfolding append items size back acquire front push
append_run = refl

append_full : appended (append (rows (λ k. k) 0 6) stream.base) ≡ (false, 8 ∷ 9 ∷ 10 ∷ [])
unfolding append items size back acquire front push advance retreat release
append_full = refl

prepend_run :
    appended (some (prepend (50 ∷ 51 ∷ []) stream.base)) ≡ (true, 50 ∷ 51 ∷ 8 ∷ 9 ∷ 10 ∷ [])
unfolding prepend items size acquire front advance
prepend_run = refl

-- One block is free, and two are needed: it goes back to the pool.
prepend_short : appended (some (prepend (rows (λ k. k) 0 5) stream.base)) ≡ (false, 8 ∷ 9 ∷ 10 ∷ [])
unfolding prepend items size acquire front push advance release
prepend_short = refl

prepend_gives_back : free_list (prepend (rows (λ k. k) 0 5) stream.base).1.pool ≡ 3 ∷ []
unfolding prepend items size acquire front push advance release
prepend_gives_back = refl

consume_run : left_after (consume_written 4 stream) ≡ 5 ∷ []
unfolding consume_written items size front release advance
consume_run = refl

peek_run : peek_iovec stream ≡ some ((1, 3) ∷ (4, 2) ∷ [], 5)
unfolding peek_iovec size
peek_run = refl

submit_run : send_list (submit_blocks stream.base).1 ≡ 0 ∷ 1 ∷ 2 ∷ []
unfolding submit_blocks items size push front
submit_run = refl

reset_run : free_list (reset stream).pool ≡ 3 ∷ 0 ∷ 1 ∷ 2 ∷ []
unfolding reset items size advance release push front
reset_run = refl

-- The theorems, applied to the stream above.
append_example :
    ((s : Writer) × (append (50 ∷ []) stream.base ≡ some (true, s))
      × Framed nobody stream.base s
      × (pending_bytes s ≡ pending_bytes stream.base ++ (50 ∷ [])))
    ⊎ ((s : Writer) × (append (50 ∷ []) stream.base ≡ some (false, s))
        × Framed nobody stream.base s
        × (pending_list s ≡ pending_list stream.base)
        × (pending_bytes s ≡ pending_bytes stream.base))
append_example = append_lem stream-IsStream.writer (50 ∷ [])

prepend_example :
    ((2 + 4 ≤ 2 ^ 32)
      × (((s : Writer) × (prepend (50 ∷ 51 ∷ []) stream.base ≡ (true, s))
            × (size u64_mod s.pending ≡ blocks_needed 2 4 + size u64_mod stream.pending)
            × (size u64_mod s.pending ≤ 4)
            × (blocks_needed 2 4 ≤ size u32_mod four_blocks.free)
            × Framed nobody stream.base s
            × (pending_bytes s ≡ 50 ∷ 51 ∷ pending_bytes stream.base))
          ⊎ ((s : Writer) × (prepend (50 ∷ 51 ∷ []) stream.base ≡ (false, s))
              × ((4 < blocks_needed 2 4 + size u64_mod stream.pending)
                  ⊎ (size u32_mod four_blocks.free < blocks_needed 2 4))
              × Framed nobody stream.base s
              × (pending_list s ≡ pending_list stream.base)
              × (pending_bytes s ≡ pending_bytes stream.base))))
    ⊎ ((2 ^ 32 < 2 + 4) × (0 < 2) × (prepend (50 ∷ 51 ∷ []) stream.base ≡ (true, stream.base)))
prepend_example = prepend_lem stream-IsStream.writer (50 ∷ 51 ∷ []) (omega arith)

consume_written_example :
    (r : Stream) × (consume_written 4 stream ≡ some r) × Consumed nobody stream 4 r
unfolding items size
consume_written_example = consume_written_lem 4 stream stream-IsStream (omega arith)

peek_iovec_example :
    ((size u64_mod stream.send ≡ 0) × (peek_iovec stream ≡ none))
    ⊎ ((0 < size u64_mod stream.send)
        × ((vecs : List Iovec) × (peek_iovec stream
              ≡ some (vecs, length (send_bytes stream) % u32_mod))
            × (vec_bytes stream.pool.bufs vecs ≡ send_bytes stream)))
peek_iovec_example = peek_iovec_lem stream stream-IsStream

reset_example :
    IsStream nobody (reset stream)
    × (pending_list (reset stream).base ≡ [])
    × (send_list (reset stream).base ≡ [])
    × IsPool nobody (reset stream).pool
    × ((a : ℕ) → 0 < nobody a → block (reset stream).pool a ≡ block stream.pool a)
reset_example = reset_lem stream stream-IsStream

acquire_example :
    ((free_list four_blocks ≡ []) × (acquire four_blocks ≡ (invalid_idx, four_blocks)))
    ⊎ ((idx : ℕ) × (r : BufPool) × (acquire four_blocks ≡ (idx, r))
        × (free_list four_blocks ≡ idx ∷ free_list r)
        × (idx < 4)
        × (owned nobody stream idx ≡ 0)
        × (r.data_size idx ≡ 0)
        × IsPool (λ a. (if a == idx then 1 else 0) + owned nobody stream a) r)
acquire_example = acquire_lem four_blocks-IsPool

release_example :
    (release_asserts four_blocks ≡ true)
    × (free_list (release four_blocks 1) ≡ free_list four_blocks ++ (1 ∷ []))
    × ((release four_blocks 1).data_size 1 ≡ 0)
    × IsPool (λ a. owned nobody stream a - (if a == 1 then 1 else 0)) (release four_blocks 1)
unfolding items size
release_example = release_lem four_blocks-IsPool 1 (omega arith)

append_enough_example : (r : Writer) × (append (50 ∷ 51 ∷ []) stream.base ≡ some (true, r))
unfolding size back
append_enough_example =
    append_enough stream.base (50 ∷ 51 ∷ []) 1 stream-IsStream.writer (omega arith) (omega arith)
      (omega arith) (omega arith)

-- Two message slots; slot 0 is held.
abbrev pub two_slots : MsghdrPool
two_slots = record {
  capacity = 2;
  mask = 1;
  max_iov = 3;
  storage_size = 128;
  slots = λ a. record { hdr = clear_hdr 16; addr = λ k. 5; iov = λ k. (a, k) };
  free = record { slots = λ k. k; head = 1; tail = 2 };
}

abbrev pub slot_held : ℕ → ℕ
slot_held a = if a == 0 then 1 else 0

pub two_slots-IsMsghdrPool : IsMsghdrPool slot_held two_slots
unfolding items size
two_slots-IsMsghdrPool = record {
  is_capacity = record { log = 1; small = omega arith; power = refl };
  masked = refl;
  queue = record { head_in = omega arith; tail_in = omega arith; fits = omega arith };
  once = λ a. ground arith;
}
