-- ===== src/Net/UdpChannel/Submit.antt =====
-- `submit` of a UDP channel: what waits becomes a datagram, or is given up with nothing lost of the
-- pools.
use uring_proactor.Buffer.Stream.{discard_pending}
use uring_proactor.Base.Ring.{items}
use uring_proactor.Buffer.WriteBuf.Invariant.{pending_list, send_list, IsWriter}
use uring_proactor.Base.{
  ltb, ◌==◌, if◌then◌else◌, u32_mod, count, update_self, IsCapacity, ℕ, ◌+◌, ◌-◌, ◌≡◌, refl, sym,
  ap, ap₂, subst, ◌∙◌, ◌⊎◌, inl, inr, Bool, true, false, Option, none, some, List, [], arith,
}
use uring_proactor.Base.Ring.Laws.{IsRing}
use uring_proactor.Buffer.Dgram.{Dgram, release_named, release_slot}
use uring_proactor.Buffer.MsghdrPool.{MsghdrPool, acquire_msghdr}
use uring_proactor.Buffer.MsghdrPool.Fifo.{IsMsghdrPool, acquire_msghdr_lem, release_msghdr_lem}
use uring_proactor.Buffer.Stream.Reset.{Emptied, discard_pending_lem}
use uring_proactor.Net.UdpChannel.{set_addr, discard, give_slot, put_datagram}
use uring_proactor.Buffer.Dgram.Submit.{Submitted, submit_slot_lem}

IsMsghdrPool-ext :
    {held held' : ℕ → ℕ} {p r : MsghdrPool}
    → IsMsghdrPool held p
    → r.capacity ≡ p.capacity
    → r.mask ≡ p.mask
    → r.free ≡ p.free
    → ((a : ℕ) → held' a ≡ held a)
    → IsMsghdrPool held' r
IsMsghdrPool-ext {held} {held'} {p} {r} i capacity mask free same = record {
  is_capacity = subst IsCapacity (sym capacity) i.is_capacity;
  masked = mask ∙ i.masked ∙ ap (λ c. c - 1) (sym capacity);
  queue =
      subst (λ c. IsRing 32 c r.free) (sym capacity)
        (subst (IsRing 32 p.capacity) (sym free) i.queue);
  once = λ a. omega (
    arith,
    i.once a,
    same a,
    ap₂ (λ c f. count a (items u32_mod c f)) capacity free,
    ap {B = ℕ} (λ c. if ltb a c then 1 else 0) capacity,
  );
}

-- What is left where no datagram was submitted.
pub record GaveUp (others held : ℕ → ℕ) (d r : Dgram) : Type 0 where
  pub emptied : Emptied others d.base r.base
  pub none_wait : pending_list r.base ≡ []
  pub pool : IsMsghdrPool held r.msghdrs
  pub same_queue : r.slot_queue ≡ d.slot_queue

module _ {others held : ℕ → ℕ} (d : Dgram) (w : IsWriter others d.base)
    (m : IsMsghdrPool held d.msghdrs) where
  discard-GaveUp :
      (r : Dgram)
      → r.base ≡ d.base
      → r.slot_queue ≡ d.slot_queue
      → IsMsghdrPool held r.msghdrs
      → GaveUp others held d (discard r)
  discard-GaveUp r base queue i = record {
    emptied =
        subst (Emptied others d.base) (ap discard_pending (sym base))
          (discard_pending_lem d.base w).0;
    none_wait = ap (λ b. pending_list (discard_pending b)) base ∙ (discard_pending_lem d.base w).1;
    pool = i;
    same_queue = queue;
  }

  module _ (addr : List ℕ) (k : ℕ) (p : MsghdrPool) (q : IsRing 64 d.capacity d.slot_queue)
      (i : IsMsghdrPool (λ a. (if a == k then 1 else 0) + held a) p)
      (fresh : (p.slots k).hdr.msg_iovlen ≡ 0) where
    abbrev addressed : Dgram
    addressed = set_addr k addr (record d { msghdrs = p })

    addressed-IsMsghdrPool :
        IsMsghdrPool (λ a. (if a == k then 1 else 0) + held a) addressed.msghdrs
    addressed-IsMsghdrPool = IsMsghdrPool-ext i refl refl refl (λ a. refl)

    no_iovecs : (addressed.msghdrs.slots k).hdr.msg_iovlen ≡ 0
    no_iovecs = ap (λ slot. slot.hdr.msg_iovlen) (update_self p.slots k _) ∙ fresh

    -- The slot goes back with no block.
    slot_back : GaveUp others held d (discard (release_slot k addressed))
    unfolding release_slot
    slot_back =
        discard-GaveUp (release_slot k addressed)
          (ap
              (λ n. record d.base {
                pool = release_named n 0 (addressed.msghdrs.slots k).iov d.pool;
              })
              no_iovecs
            ∙ none_named)
          refl
          (IsMsghdrPool-ext (release_msghdr_lem addressed-IsMsghdrPool k (ground arith)).4 refl refl
            refl (λ a. ground arith))
      where
        none_named :
            record d.base { pool = release_named 0 0 (addressed.msghdrs.slots k).iov d.pool }
            ≡ d.base
        none_named = refl

    -- What a submission with this slot leaves.
    abbrev Gave : Bool × Dgram → Type 0
    Gave o =
        ((r : Dgram) × (o ≡ (false, r)) × GaveUp others held d r)
        ⊎ ((r : Dgram) × (o ≡ (true, r))
            × Submitted (λ a. count a (send_list d.base) + others a) addressed k r
            × IsMsghdrPool (λ a. (if a == k then 1 else 0) + held a) r.msghdrs)

    given :
        (r : Dgram)
        → Submitted (λ a. count a (send_list d.base) + others a) addressed k r
        → IsMsghdrPool (λ a. (if a == k then 1 else 0) + held a) r.msghdrs
    given r f = IsMsghdrPool-ext i f.same_capacity f.same_mask f.same_free (λ a. refl)

    give_slot-Gave : Gave (give_slot (some k) addr (record d { msghdrs = p }))
    unfolding give_slot
    give_slot-Gave = elim (submit_slot_lem (some k) addressed w.waiting q) [
      | inl (e, _) ↦ inl (discard (release_slot k addressed), rw e refl, slot_back)
      | inr (k', r, same, e, f) ↦ inr (r, rw e refl, as_k k' same r f, given r (as_k k' same r f))
    ]
      where
        the_slot : Option ℕ → ℕ
        the_slot none = k
        the_slot (some j) = j

        as_k :
            (k' : ℕ)
            → some k ≡ some k'
            → (r : Dgram) → Submitted (λ a. count a (send_list d.base) + others a) addressed k' r
            → Submitted (λ a. count a (send_list d.base) + others a) addressed k r
        as_k k' same r f =
            subst (λ j. Submitted (λ a. count a (send_list d.base) + others a) addressed j r)
              (sym (ap the_slot same)) f

  -- On a channel with a sound writer, a sound slot pool whose free slots name no block, and a slot queue
  -- within its bounds: where `submit` returns false nothing waits any more, what other holders have is
  -- unchanged and the slot pool has the holders it had; where it returns true a slot that nobody held
  -- stands behind the others in the slot queue and names exactly the bytes that waited, in order.
  pub put_datagram_lem :
      (addr : List ℕ)
      → IsRing 64 d.capacity d.slot_queue
      → ((a : ℕ) → held a ≡ 0 → (d.msghdrs.slots a).hdr.msg_iovlen ≡ 0)
      → ((r : Dgram) × (put_datagram addr d ≡ (false, r)) × GaveUp others held d r)
        ⊎ ((k : ℕ) × (r : Dgram) × (put_datagram addr d ≡ (true, r))
            × (held k ≡ 0)
            × Submitted
                (λ a. count a (send_list d.base) + others a)
                (set_addr k addr (record d { msghdrs = (acquire_msghdr d.msghdrs).1 }))
                k
                r
            × IsMsghdrPool (λ a. (if a == k then 1 else 0) + held a) r.msghdrs)
  unfolding put_datagram
  put_datagram_lem addr q clean = elim (acquire_msghdr_lem m) [
    | inl (_, e) ↦ inl (discard d, rw e refl, discard-GaveUp d refl refl m)
    | inr (k, p, e, _, _, unheld, same, i) ↦
        elim (give_slot-Gave addr k p q i (ap (λ f. (f k).hdr.msg_iovlen) same ∙ clean k unheld)) [
          | inl (r, e', f) ↦ inl (r, rw e e', f)
          | inr (r, e', f, j) ↦ inr (
            k,
            r,
            rw e e',
            unheld,
            subst
                (λ x.
                  Submitted (λ a. count a (send_list d.base) + others a)
                    (set_addr k addr (record d { msghdrs = x })) k r)
                (sym (ap (λ (o : Option ℕ × MsghdrPool). o.1) e)) f,
            j,
          )
        ]
  ]
