-- ===== src/Net/UdpChannel.antt =====
-- UdpChannel with its write loop (include/net/channel.hpp, src/net/channel.cpp,
-- src/net/handler.cpp), NotifyToken and MsgToken (src/core/awaiter.cpp). A datagram is a message
-- slot; the write loop asks for a `sendmsg` of each one.
pub mod Submit
use uring_proactor.Base.Memory.{store}
use uring_proactor.Buffer.Stream.{discard_pending}
use uring_proactor.Base.{
  if◌then◌else◌, length, update, ℕ, zero, suc, ◌+◌, Bool, true, false, Option, none, some, List, [],
  ◌∷◌, ◌++◌,
}
use uring_proactor.Buffer.Dgram.{
  Dgram, submit_slot, peek_slot, release_slot, clear_slot_queue, slot_queue_size,
}
use uring_proactor.Buffer.MsghdrPool.{acquire_msghdr}
use uring_proactor.Base.Results.{◌>>=◌}

-- `parked` says that the write loop is suspended in `notify_token_`; `sendmsgs` are the slots that
-- were given to the kernel, in order.
pub record UdpChannel : Type 0 where
  pub write_buf : Dgram
  pub pending : Bool
  pub parked : Bool
  pub sendmsgs : List ℕ

-- The loop over the slot queue in `udp_write_loop` from slot `i` on.
unfoldable pub send_from : ℕ → ℕ → Dgram → List ℕ
send_from zero i d = []
send_from (suc n) i d =
    let rest = send_from n (i + 1) d in
    elim (peek_slot i d) [ none ↦ rest | some slot ↦ slot ∷ rest ]

-- One round of `udp_write_loop` after its `co_await`.
unfoldable pub udp_turn : UdpChannel → UdpChannel
unfolding send_from clear_slot_queue
udp_turn c = record c {
  sendmsgs = c.sendmsgs ++ send_from (slot_queue_size c.write_buf) 0 c.write_buf;
  write_buf = clear_slot_queue c.write_buf;
}

-- The head of `udp_write_loop`, in at most `n` rounds.
unfoldable pub udp_head : ℕ → UdpChannel → Option UdpChannel
unfolding udp_turn
udp_head zero c = none
udp_head (suc n) c =
    let rest = udp_head n (udp_turn (record c { pending = false })) in
    if c.pending then rest else some (record c { parked = true })

-- `notify()`
unfoldable pub udp_notify : UdpChannel → Option UdpChannel
unfolding udp_head
udp_notify c =
    if c.parked
    then udp_head 2 (udp_turn (record c { parked = false }))
    else some (record c { pending = true })

-- `memcpy(&slot->addr, addr, namelen)` and the length, where `addr` has `namelen` bytes.
abbrev pub set_addr : ℕ → List ℕ → Dgram → Dgram
set_addr slot addr d = record d {
  msghdrs = record d.msghdrs {
    slots = update d.msghdrs.slots slot (record (d.msghdrs.slots slot) {
      addr = store (d.msghdrs.slots slot).addr 0 addr;
      hdr = record (d.msghdrs.slots slot).hdr { msg_namelen = length addr };
    });
  };
}

abbrev pub discard : Dgram → Dgram
discard d = record d { base = discard_pending d.base }

-- `submit(addr, namelen)` up to `notify()`: a slot for what waits, or what waits is discarded.
unfoldable pub give_slot : Option ℕ → List ℕ → Dgram → Bool × Dgram
unfolding submit_slot release_slot
give_slot none addr d = (false, discard d)
give_slot (some slot) addr d =
    let (done, r) = submit_slot (some slot) (set_addr slot addr d) in
    if done then (true, r) else (false, discard (release_slot slot r))

unfoldable pub put_datagram : List ℕ → Dgram → Bool × Dgram
unfolding give_slot acquire_msghdr
put_datagram addr d =
    let (slot, m) = acquire_msghdr d.msghdrs in give_slot slot addr (record d { msghdrs = m })

unfoldable pub udp_submit : List ℕ → UdpChannel → Option (Bool × UdpChannel)
unfolding put_datagram udp_notify
udp_submit addr c =
    let (done, d) = put_datagram addr c.write_buf in
    if done
    then (do r ← udp_notify (record c { write_buf = d }); some (true, r))
    else some (false, record c { write_buf = d })

-- `complete` of the token of a slot, before `on_write` of the application.
abbrev pub msg_complete : ℕ → UdpChannel → UdpChannel
msg_complete slot c = record c { write_buf = release_slot slot c.write_buf }
