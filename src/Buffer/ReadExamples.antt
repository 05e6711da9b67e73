-- ===== src/Buffer/ReadExamples.antt =====
-- The stream read buffer on small inputs: runs of the code, and the theorems applied to a buffer
-- with two filled blocks.
use uring_proactor.Buffer.ReadDgram.{peek_msg, consume_msg, consume_msg_lem}
use uring_proactor.Base.{
  rows, ◌==◌, if◌then◌else◌, u32_mod, length, take, ℕ, ◌≤◌, ◌<◌, ◌≡◌, refl, ◌⊎◌, Bool, true, false,
  Option, none, some, List, [], ◌∷◌, ◌++◌, arith,
}
use uring_proactor.Base.Ring.{size, front, advance, items}
use uring_proactor.Buffer.BufRing.{RingCall, ring_add, ring_advance, give_back}
use uring_proactor.Buffer.ReadBuf.{ReadBuf, push_buf, peek, consume}
use uring_proactor.Buffer.ReadBuf.Consume.{gives, IsReader}
use uring_proactor.Buffer.ReadBuf.Invariant.{read_block, read_list, unread}
use uring_proactor.Buffer.ReadBuf.Peek.{peek_lem}
use uring_proactor.Buffer.ReadBuf.Push.{push_buf_lem}
use uring_proactor.Buffer.Stream.{Iovec}
use uring_proactor.Buffer.Stream.Gather.{vec_bytes}

abbrev two_filled : ReadBuf
two_filled = record {
  ring = record {
    buf_size = 4;
    buf_num = 4;
    mask = 3;
    bufs = λ k. k;
    data_size = λ a. if a == 2 then 4 else if a == 0 then 3 else if a == 1 then 2 else 0;
    calls = [];
  };
  queue = record { slots = λ k. if k == 0 then 2 else 0; head = 0; tail = 2 };
  readable_bytes = 6;
  capacity = 4;
  mask = 3;
  head_offset = 1;
}

-- The same blocks, with a tail counter that has wrapped.
abbrev wrapped : ReadBuf
wrapped = record two_filled {
  queue = record { slots = λ k. if k == 3 then 2 else 0; head = 4294967295; tail = 1 };
}

two_filled-IsReader : IsReader two_filled
unfolding items size front
two_filled-IsReader = record {
  buf = record {
    is_capacity = record { log = 2; small = omega arith; power = refl };
    masked = refl;
    allocated = omega arith;
    in_queue = record { head_in = omega arith; tail_in = omega arith; fits = omega arith };
    once = λ a. ground arith;
    filled = λ a h. ground arith;
    within = λ h. omega arith;
    idle = λ e. absurd (omega arith);
  };
  counted = refl;
  small = omega arith;
}

peek_run : peek 5 two_filled ≡ some ((9, 3) ∷ (0, 2) ∷ [])
unfolding peek
peek_run = refl

peek_run_past : peek 5 wrapped ≡ some []
unfolding peek
peek_run_past = refl

abbrev calls_after : Option (Bool × ReadBuf) → List RingCall
calls_after none = []
calls_after (some (ok, r)) = r.ring.calls

consume_run : calls_after (consume 5 two_filled) ≡ ring_add 8 4 2 3 0 ∷ ring_advance 1 ∷ []
unfolding consume size front give_back advance
consume_run = refl

peek_example :
    ((length (unread two_filled) < 5) × (peek 5 two_filled ≡ none))
    ⊎ ((5 ≤ length (unread two_filled))
        × ((vecs : List Iovec) × (peek 5 two_filled ≡ some vecs)
            × (((0 ≤ 2) × (vec_bytes two_filled.ring.bufs vecs ≡ take 5 (unread two_filled)))
                ⊎ ((2 < 0) × (vecs ≡ [])))))
peek_example = peek_lem 5 two_filled two_filled-IsReader

push_buf_example :
    ((size u32_mod two_filled.queue ≡ 4) × (push_buf 1 two_filled ≡ (false, two_filled)))
    ⊎ ((r : ReadBuf) × (push_buf 1 two_filled ≡ (true, r))
        × IsReader r
        × (read_list r ≡ read_list two_filled ++ (1 ∷ []))
        × (unread r ≡ unread two_filled ++ read_block two_filled.ring 1))
unfolding items size
push_buf_example = push_buf_lem two_filled 1 two_filled-IsReader refl (omega arith)

-- The same blocks as datagrams.
abbrev datagrams : ReadBuf
datagrams = record two_filled { head_offset = 0; readable_bytes = 7 }

datagrams-IsReader : IsReader datagrams
unfolding items size front
datagrams-IsReader = record {
  buf = record {
    is_capacity = record { log = 2; small = omega arith; power = refl };
    masked = refl;
    allocated = omega arith;
    in_queue = record { head_in = omega arith; tail_in = omega arith; fits = omega arith };
    once = λ a. ground arith;
    filled = λ a h. ground arith;
    within = λ h. omega arith;
    idle = λ e. refl;
  };
  counted = refl;
  small = omega arith;
}

consume_msg_example :
    ((size u32_mod datagrams.queue ≡ 0)
      × (peek_msg datagrams ≡ none)
      × (consume_msg datagrams ≡ (false, datagrams)))
    ⊎ ((addr len a : ℕ) × (r : ReadBuf) × (peek_msg datagrams ≡ some (addr, len))
        × (consume_msg datagrams ≡ (true, r))
        × IsReader r
        × (r.head_offset ≡ 0)
        × (unread datagrams ≡ rows (λ k. k) addr len ++ unread r)
        × (read_list datagrams ≡ a ∷ read_list r)
        × (r.ring.calls ≡ gives datagrams.ring (a ∷ [])))
consume_msg_example = consume_msg_lem datagrams-IsReader refl
