-- ===== src/Net/UdpExamples.antt =====
-- A datagram on the blocks of Buffer.Examples: block 2 waits, and slot 0 is held.
use uring_proactor.Buffer.Examples.{
  stream, nobody, stream-IsStream, two_slots, slot_held, two_slots-IsMsghdrPool,
}
use uring_proactor.Buffer.WriteBuf.Invariant.{send_list}
use uring_proactor.Base.{
  ◌==◌, if◌then◌else◌, count, ℕ, ◌+◌, ◌≡◌, refl, ◌⊎◌, Bool, true, false, Option, none, some, List,
  [], ◌∷◌, arith,
}
use uring_proactor.Base.Ring.{size, push, front, advance}
use uring_proactor.Base.Ring.Laws.{IsRing}
use uring_proactor.Buffer.Dgram.{Dgram, name_blocks, submit_slot, peek_slot, clear_slot_queue}
use uring_proactor.Buffer.Dgram.Submit.{Submitted}
use uring_proactor.Buffer.MsghdrPool.{acquire_msghdr}
use uring_proactor.Buffer.MsghdrPool.Fifo.{IsMsghdrPool}
use uring_proactor.Net.UdpChannel.{
  UdpChannel, send_from, udp_turn, udp_head, udp_notify, set_addr, give_slot, put_datagram,
  udp_submit,
}
use uring_proactor.Net.UdpChannel.Submit.{GaveUp, put_datagram_lem}

abbrev dgram : Dgram
dgram = record {
  base = stream.base;
  msghdrs = two_slots;
  slot_queue = record { slots = λ k. k; head = 0; tail = 0 };
  max_iov = 3;
}

abbrev waits : UdpChannel
waits = record { write_buf = dgram; pending = false; parked = true; sendmsgs = [] }

abbrev sent_after : Option (Bool × UdpChannel) → List ℕ
sent_after none = []
sent_after (some (ok, c)) = c.sendmsgs

-- A submission wakes the write loop, which gives the new slot to the kernel.
submit_run : sent_after (udp_submit (127 ∷ 0 ∷ []) waits) ≡ 1 ∷ []
unfolding udp_submit put_datagram give_slot acquire_msghdr submit_slot size name_blocks front
    advance push udp_notify udp_head udp_turn send_from peek_slot clear_slot_queue
submit_run = refl

slot_queue-IsRing : IsRing 64 4 dgram.slot_queue
unfolding size
slot_queue-IsRing = record { head_in = omega arith; tail_in = omega arith; fits = omega arith }

put_datagram_example :
    ((r : Dgram) × (put_datagram (127 ∷ 0 ∷ []) dgram ≡ (false, r))
      × GaveUp nobody slot_held dgram r)
    ⊎ ((k : ℕ) × (r : Dgram) × (put_datagram (127 ∷ 0 ∷ []) dgram ≡ (true, r))
        × (slot_held k ≡ 0)
        × Submitted
            (λ a. count a (send_list stream.base) + nobody a)
            (set_addr k (127 ∷ 0 ∷ []) (record dgram { msghdrs = (acquire_msghdr two_slots).1 }))
            k
            r
        × IsMsghdrPool (λ a. (if a == k then 1 else 0) + slot_held a) r.msghdrs)
put_datagram_example =
    put_datagram_lem dgram stream-IsStream.writer two_slots-IsMsghdrPool (127 ∷ 0 ∷ [])
      slot_queue-IsRing (λ a h. refl)
