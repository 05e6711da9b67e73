-- ===== src/Buffer/MsghdrPool.antt =====
-- class MsghdrPool (include/buffer/msghdr_pool.hpp, src/buffer/msghdr_pool.cpp): slots for the
-- headers of outgoing datagrams, with the free ones in a circular queue. A slot is its index, and
-- its iovecs are the part of `iovecs_` that its `iov` points to.
pub mod Fifo
pub mod Init
use uring_proactor.Base.{
  ltb, ◌==◌, if◌then◌else◌, u32_mod, update, ℕ, zero, suc, ◌+◌, ◌-◌, Bool, true, false, Option,
  none, some,
}
use uring_proactor.Base.Ring.{Ring, size, push, front, advance}
use uring_proactor.Buffer.Stream.{Iovec}

-- A `msghdr`. `msg_name` and `msg_iov` point to the slot's own address and iovecs, or are null.
pub record Msghdr : Type 0 where
  pub has_name : Bool
  pub msg_namelen : ℕ
  pub has_iov : Bool
  pub msg_iovlen : ℕ
  pub msg_controllen : ℕ
  pub msg_flags : ℕ

pub record MsghdrSlot : Type 0 where
  pub hdr : Msghdr
  pub addr : ℕ → ℕ
  pub iov : ℕ → Iovec

-- `storage_size` is `sizeof(sockaddr_storage)`, which the platform gives.
pub record MsghdrPool : Type 0 where
  pub capacity : ℕ
  pub mask : ℕ
  pub max_iov : ℕ
  pub storage_size : ℕ
  pub slots : ℕ → MsghdrSlot
  -- `pool_`, `head_` and `tail_`
  pub free : Ring

-- `acquire()`: none is the null pointer.
unfoldable pub acquire_msghdr : MsghdrPool → Option ℕ × MsghdrPool
acquire_msghdr p =
    if p.free.head == p.free.tail
    then (none, p)
    else (some (front p.mask p.free), record p { free = advance u32_mod p.free })

-- The header after `memset` and the two assignments that follow it.
abbrev pub clear_hdr : ℕ → Msghdr
clear_hdr storage_size = record {
  has_name = true;
  msg_namelen = storage_size;
  has_iov = false;
  msg_iovlen = 0;
  msg_controllen = 0;
  msg_flags = 0;
}

-- `memset` of the first `n` entries.
abbrev pub zero_to : {A : Type 0} → A → ℕ → (ℕ → A) → ℕ → A
zero_to z n f k = if ltb k n then z else f k

abbrev pub clear_slot : MsghdrPool → MsghdrSlot → MsghdrSlot
clear_slot p slot = record {
  hdr = clear_hdr p.storage_size;
  addr = zero_to 0 p.storage_size slot.addr;
  iov = zero_to (0, 0) p.max_iov slot.iov;
}

-- `release(slot)`
unfoldable pub release_msghdr : MsghdrPool → ℕ → MsghdrPool
release_msghdr p slot = record p {
  slots = update p.slots slot (clear_slot p (p.slots slot));
  free = push u32_mod p.mask p.free slot;
}

-- The condition that `release` asserts.
abbrev pub release_msghdr_asserts : MsghdrPool → Bool
release_msghdr_asserts p = ltb (size u32_mod p.free) p.capacity

-- The loop of the constructor from slot `i` on, and the constructor; the memory that `new` hands out
-- may hold anything.
unfoldable pub init_slots : ℕ → ℕ → MsghdrPool → MsghdrPool
init_slots zero i p = p
init_slots (suc n) i p = init_slots n (i + 1) (record p {
  slots = update p.slots i (clear_slot p (p.slots i));
  free = record p.free { slots = update p.free.slots i i };
})

unfoldable pub init_msghdrs : ℕ → ℕ → ℕ → (ℕ → MsghdrSlot) → (ℕ → ℕ) → MsghdrPool
unfolding init_slots
init_msghdrs capacity max_iov storage_size slots pool =
    let p = init_slots capacity 0 (record {
      capacity = capacity;
      mask = capacity - 1;
      max_iov = max_iov;
      storage_size = storage_size;
      slots = slots;
      free = record { slots = pool; head = 0; tail = 0 };
    }) in
    record p { free = record p.free { tail = capacity } }
