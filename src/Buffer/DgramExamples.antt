-- ===== src/Buffer/DgramExamples.antt =====
-- Datagrams on the blocks of Buffer.Examples: block 2 waits, and slot 0 is held.
use uring_proactor.Buffer.Examples.{
  four_blocks, stream, nobody, four_blocks-IsPool, two_slots, slot_held, two_slots-IsMsghdrPool,
}
use uring_proactor.Base.{
  ◌==◌, if◌then◌else◌, count, ℕ, ◌+◌, ◌-◌, ◌≡◌, refl, some, [], ◌∷◌, ◌++◌, arith,
}
use uring_proactor.Base.Ring.{size, front, items}
use uring_proactor.Buffer.BufPool.Invariant.{free_list, IsPool}
use uring_proactor.Buffer.Dgram.{Dgram, name_blocks, submit_slot, release_slot}
use uring_proactor.Buffer.Dgram.Release.{release_slot_lem}
use uring_proactor.Buffer.Dgram.Submit.{slot_vecs}
use uring_proactor.Buffer.MsghdrPool.Fifo.{free_slots, IsMsghdrPool}
use uring_proactor.Buffer.WriteBuf.Invariant.{send_list}

abbrev others : ℕ → ℕ
others a = count a (send_list stream.base) + nobody a

abbrev dgram : Dgram
dgram = record {
  base = stream.base;
  msghdrs = two_slots;
  slot_queue = record { slots = λ k. k; head = 0; tail = 0 };
  max_iov = 3;
}

submit_run : slot_vecs (submit_slot (some 0) dgram).1 0 ≡ (8, 3) ∷ []
unfolding submit_slot size name_blocks front
submit_run = refl

-- Slot 0 names block 2.
abbrev named : Dgram
named = record dgram {
  msghdrs = record two_slots {
    slots = λ a. record {
      hdr = record (two_slots.slots a).hdr { msg_iovlen = 1 };
      addr = λ k. 0;
      iov = λ k. (8, 3);
    };
  };
}

named-IsMsghdrPool : IsMsghdrPool slot_held named.msghdrs
named-IsMsghdrPool = record {
  is_capacity = two_slots-IsMsghdrPool.is_capacity;
  masked = refl;
  queue = two_slots-IsMsghdrPool.queue;
  once = two_slots-IsMsghdrPool.once;
}

release_slot_example :
    (free_list (release_slot 0 named).pool ≡ free_list four_blocks ++ (2 ∷ []))
    × IsPool others (release_slot 0 named).pool
    × (free_slots (release_slot 0 named).msghdrs ≡ free_slots named.msghdrs ++ (0 ∷ []))
    × IsMsghdrPool (λ a. slot_held a - (if a == 0 then 1 else 0)) (release_slot 0 named).msghdrs
unfolding items size
release_slot_example =
    release_slot_lem 0 named (2 ∷ []) four_blocks-IsPool named-IsMsghdrPool (omega arith) refl
