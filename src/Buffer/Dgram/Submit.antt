-- ===== src/Buffer/Dgram/Submit.antt =====
-- `submit` of a datagram: the slot names the waiting blocks, in order, and none waits any more.
use native.Mathlib.Numerals.{add-one}
use uring_proactor.Base.{
  ◌==◌, lt→ltb, le→ltb, le→leb, lt→leb, u64_mod, update, rows, count, update_self, IsCapacity, ℕ,
  zero, suc, ◌+◌, ◌-◌, ◌≤◌, ◌<◌, ◌≡◌, refl, sym, ap, ap₂, subst, ◌∙◌, ◌⊎◌, inl, inr, true, false,
  Option, none, some, List, [], ◌∷◌, ◌++◌, append-nil, append_assoc, arith,
}
use uring_proactor.Base.Ring.{size, push, front, advance, items, items-empty}
use uring_proactor.Base.Ring.Laws.{
  IsRing, size-zero_iff, size-advance, push-IsRing, advance-IsRing, items-push, items-advance,
}
use uring_proactor.Buffer.BufPool.{BufPool, buf_addr}
use uring_proactor.Buffer.BufPool.Blocks.{block, contents}
use uring_proactor.Buffer.Dgram.{Dgram, name_blocks, enter_slot, submit_slot}
use uring_proactor.Buffer.Stream.{Iovec}
use uring_proactor.Buffer.Stream.Gather.{vec_bytes}
use uring_proactor.Buffer.WriteBuf.{Writer}
use uring_proactor.Buffer.WriteBuf.Invariant.{pending_list, pending_bytes, owners, IsPending}
use uring_proactor.Buffer.BufPool.Invariant.{IsPool, IsPool-ext}
use native.Mathlib.Decide.{dec_lt, dec_le, ℕ_discrete}

-- The iovecs of several blocks.
abbrev pub vecs_of : BufPool → List ℕ → List Iovec
vecs_of p [] = []
vecs_of p (a ∷ rest) = (buf_addr p a, p.data_size a) ∷ vecs_of p rest

vec_bytes-vecs_of : (p : BufPool) (xs : List ℕ) → vec_bytes p.bufs (vecs_of p xs) ≡ contents p xs
vec_bytes-vecs_of p [] = refl
vec_bytes-vecs_of p (a ∷ rest) = ap (◌++◌ (block p a)) (vec_bytes-vecs_of p rest)

-- One more row.
rows-update :
    {A : Type 0} (f : ℕ → A) (i n : ℕ) (v : A)
    → rows (update f (i + n) v) i (suc n) ≡ rows f i n ++ (v ∷ [])
rows-update f i zero v = ap (λ x. x ∷ []) (ground arith)
rows-update f i (suc n) v =
    ap₂ ◌∷◌ (ground arith)
      (ap (λ k. rows (update f k v) (suc i) (suc n)) (omega arith) ∙ rows-update f (suc i) n v)

-- What the loop leaves.
record Named (k : ℕ) (iov : ℕ → Iovec) (s : Writer) (o : (ℕ → Iovec) × ℕ × Writer) : Type 0 where
  counted : o.1 ≡ k + size u64_mod s.pending
  named : rows o.0 0 o.1 ≡ rows iov 0 k ++ vecs_of s.pool (pending_list s)
  taken : size u64_mod o.2.pending ≡ 0
  ring : IsRing 64 s.capacity o.2.pending
  same_pool : o.2.pool ≡ s.pool
  same_send : o.2.send ≡ s.send
  same_capacity : o.2.capacity ≡ s.capacity
  same_mask : o.2.mask ≡ s.mask

-- One round and the others.
module _ (k : ℕ) (iov : ℕ → Iovec) (s : Writer) (c : IsCapacity s.capacity)
    (m : s.mask ≡ s.capacity - 1) (i : IsRing 64 s.capacity s.pending)
    (some_left : 0 < size u64_mod s.pending) where
  abbrev first_vec : Iovec
  first_vec = (buf_addr s.pool (front s.mask s.pending), s.pool.data_size (front s.mask s.pending))

  abbrev later : Writer
  later = record s { pending = advance u64_mod s.pending }

  shorter : size u64_mod later.pending + 1 ≡ size u64_mod s.pending
  shorter = size-advance c 64 (omega arith) s.pending i some_left

  first_row : rows (update iov k first_vec) 0 (k + 1) ≡ rows iov 0 k ++ (first_vec ∷ [])
  first_row =
      ap (rows (update iov k first_vec) 0) (add-one k)
      ∙ ap (λ j. rows (update iov j first_vec) 0 (suc k)) (omega arith)
      ∙ rows-update iov 0 k first_vec

  first_item : pending_list s ≡ front s.mask s.pending ∷ pending_list later
  first_item =
      subst (λ m. pending_list s ≡ front m s.pending ∷ pending_list later) (sym m)
        (items-advance c 64 (omega arith) s.pending i some_left)

  Named-step :
      {o : (ℕ → Iovec) × ℕ × Writer}
      → Named (k + 1) (update iov k first_vec) later o
      → Named k iov s o
  Named-step rest = record {
    counted = omega (arith, rest.counted, shorter);
    named =
        rest.named
        ∙ ap (λ xs. xs ++ vecs_of s.pool (pending_list later)) first_row
        ∙ append_assoc (rows iov 0 k) (first_vec ∷ []) (vecs_of s.pool (pending_list later))
        ∙ ap (λ xs. rows iov 0 k ++ vecs_of s.pool xs) (sym first_item);
    taken = rest.taken;
    ring = rest.ring;
    same_pool = rest.same_pool;
    same_send = rest.same_send;
    same_capacity = rest.same_capacity;
    same_mask = rest.same_mask;
  }

  not_yet : (s.pending.head == s.pending.tail) ≡ false
  not_yet = ground (arith, (size-zero_iff c 64 (omega arith) s.pending i).1)

name_blocks-Named :
    (n k : ℕ) (iov : ℕ → Iovec) (s : Writer)
    → IsCapacity s.capacity
    → s.mask ≡ s.capacity - 1
    → IsRing 64 s.capacity s.pending
    → size u64_mod s.pending ≡ n
    → Named k iov s (name_blocks n k iov s)
unfolding name_blocks
name_blocks-Named zero k iov s c m i e = record {
  counted = omega arith;
  named =
      sym (append-nil (rows iov 0 k))
      ∙ ap (λ xs. rows iov 0 k ++ vecs_of s.pool xs)
          (sym (items-empty u64_mod s.capacity s.pending e));
  taken = e;
  ring = i;
  same_pool = refl;
  same_send = refl;
  same_capacity = refl;
  same_mask = refl;
}
name_blocks-Named (suc n) k iov s c m i e =
    let rest =
      name_blocks-Named n (k + 1) (update iov k (first_vec k iov s c m i (omega arith)))
        (later k iov s c m i (omega arith)) c m
        (advance-IsRing c 64 (omega arith) s.pending i (omega arith))
        (omega (arith, shorter k iov s c m i (omega arith))) in
    rw (not_yet k iov s c m i (omega arith)) (Named-step k iov s c m i (omega arith) rest)

-- The iovecs of a slot that a datagram uses.
abbrev pub slot_vecs : Dgram → ℕ → List Iovec
slot_vecs d k = rows (d.msghdrs.slots k).iov 0 (d.msghdrs.slots k).hdr.msg_iovlen

-- What a submitted datagram leaves.
pub record Submitted (others : ℕ → ℕ) (d : Dgram) (k : ℕ) (r : Dgram) : Type 0 where
  pub sound : IsPending (λ a. count a (pending_list d.base) + others a) r.base
  pub none_wait : pending_list r.base ≡ []
  pub slots : IsRing 64 r.capacity r.slot_queue
  pub entered :
      items u64_mod r.capacity r.slot_queue ≡ items u64_mod d.capacity d.slot_queue ++ (k ∷ [])
  pub bytes : vec_bytes r.pool.bufs (slot_vecs r k) ≡ pending_bytes d.base
  pub length_fits : (r.msghdrs.slots k).hdr.msg_iovlen ≤ d.max_iov
  pub same_pool : r.pool ≡ d.pool
  pub same_free : r.msghdrs.free ≡ d.msghdrs.free
  pub same_capacity : r.msghdrs.capacity ≡ d.msghdrs.capacity
  pub same_mask : r.msghdrs.mask ≡ d.msghdrs.mask

module _ {others : ℕ → ℕ} (d : Dgram) (w : IsPending others d.base)
    (q : IsRing 64 d.capacity d.slot_queue) where
  module _ (k : ℕ) (room : size u64_mod d.slot_queue < d.capacity)
      (few : size u64_mod d.pending ≤ d.max_iov) where
    abbrev looped : (ℕ → Iovec) × ℕ × Writer
    looped = name_blocks (size u64_mod d.pending) 0 (d.msghdrs.slots k).iov d.base

    named : Named 0 (d.msghdrs.slots k).iov d.base looped
    named =
        name_blocks-Named (size u64_mod d.pending) 0 (d.msghdrs.slots k).iov d.base w.capacity
          w.masked w.queue refl

    abbrev submitted : Dgram
    submitted = enter_slot k looped d

    none_left : pending_list submitted.base ≡ []
    none_left = items-empty u64_mod submitted.base.capacity submitted.base.pending named.taken

    submitted-IsPending : IsPending (λ a. count a (pending_list d.base) + others a) submitted.base
    submitted-IsPending = record {
      capacity = subst IsCapacity (sym named.same_capacity) w.capacity;
      masked = named.same_mask ∙ w.masked ∙ ap (λ c. c - 1) (sym named.same_capacity);
      queue = subst (λ c. IsRing 64 c submitted.base.pending) (sym named.same_capacity) named.ring;
      pool =
          subst
            (λ p. IsPool (owners (λ a. count a (pending_list d.base) + others a) submitted.base) p)
            (sym named.same_pool) (IsPool-ext w.pool (λ a. omega (arith, ap (count a) none_left)));
    }

    own_slot : submitted.msghdrs.slots k ≡ record (d.msghdrs.slots k) {
      hdr = record (d.msghdrs.slots k).hdr { has_iov = true; msg_iovlen = looped.1 };
      iov = looped.0;
    }
    own_slot = update_self d.msghdrs.slots k _

    submitted-Submitted : Submitted others d k submitted
    submitted-Submitted = record {
      sound = submitted-IsPending;
      none_wait = none_left;
      slots =
          subst (λ c. IsRing 64 c submitted.slot_queue) (sym named.same_capacity)
            (subst (λ m. IsRing 64 d.capacity (push u64_mod m d.slot_queue k)) (sym w.masked)
              (push-IsRing w.capacity 64 (omega arith) d.slot_queue q k room));
      entered =
          ap (λ c. items u64_mod c submitted.slot_queue) named.same_capacity
          ∙ ap (λ m. items u64_mod d.capacity (push u64_mod m d.slot_queue k)) w.masked
          ∙ items-push w.capacity 64 (omega arith) d.slot_queue q k room;
      bytes =
          ap₂ (λ p slot. vec_bytes p.bufs (rows slot.iov 0 slot.hdr.msg_iovlen)) named.same_pool
            own_slot
          ∙ ap (vec_bytes d.pool.bufs) named.named
          ∙ vec_bytes-vecs_of d.pool (pending_list d.base);
      length_fits = omega (arith, ap (λ slot. slot.hdr.msg_iovlen) own_slot, named.counted);
      same_pool = named.same_pool;
      same_free = refl;
      same_capacity = refl;
      same_mask = refl;
    }

pub submit_slot_lem :
    {others : ℕ → ℕ} (slot : Option ℕ) (d : Dgram)
    → IsPending others d.base
    → IsRing 64 d.capacity d.slot_queue
    → ((submit_slot slot d ≡ (false, d))
        × ((size u64_mod d.pending ≡ 0)
            ⊎ (d.capacity ≤ size u64_mod d.slot_queue)
            ⊎ (slot ≡ none)
            ⊎ (d.max_iov < size u64_mod d.pending)))
      ⊎ ((k : ℕ) × (r : Dgram) × (slot ≡ some k)
          × (submit_slot slot d ≡ (true, r))
          × Submitted others d k r)
unfolding submit_slot
submit_slot_lem {others} slot d w q = elim (ℕ_discrete (size u64_mod d.pending) 0) [
  | yes none_waits ↦ inl (rw none_waits, inl none_waits)
  | no some_wait ↦ elim (dec_le d.capacity (size u64_mod d.slot_queue)) [
    | yes crowded ↦ inl (rw (ne_test some_wait, le→leb _ _ crowded), inr (inl crowded))
    | no room ↦ by_slot slot some_wait room
  ]
]
  where
    ne_test : ¬ (size u64_mod d.pending ≡ 0) → (size u64_mod d.pending == 0) ≡ false
    ne_test ne = ground arith

    by_slot :
        (slot : Option ℕ)
        → ¬ (size u64_mod d.pending ≡ 0)
        → ¬ (d.capacity ≤ size u64_mod d.slot_queue)
        → ((submit_slot slot d ≡ (false, d))
            × ((size u64_mod d.pending ≡ 0)
                ⊎ (d.capacity ≤ size u64_mod d.slot_queue)
                ⊎ (slot ≡ none)
                ⊎ (d.max_iov < size u64_mod d.pending)))
          ⊎ ((k : ℕ) × (r : Dgram) × (slot ≡ some k)
              × (submit_slot slot d ≡ (true, r))
              × Submitted others d k r)
    by_slot none waits room = inl (
      rw (ne_test waits, lt→leb (size u64_mod d.slot_queue) d.capacity (omega arith)),
      inr (inr (inl refl)),
    )
    by_slot (some k) waits room = elim (dec_lt d.max_iov (size u64_mod d.pending)) [
      | yes many ↦ inl (
        rw
            (
              ne_test waits,
              lt→leb (size u64_mod d.slot_queue) d.capacity (omega arith),
              lt→ltb _ _ many,
            )
            refl,
        inr (inr (inr many)),
      )
      | no few ↦ inr (
        k,
        submitted d w q k (omega arith) (omega arith),
        refl,
        rw
            (
              ne_test waits,
              lt→leb (size u64_mod d.slot_queue) d.capacity (omega arith),
              le→ltb d.max_iov (size u64_mod d.pending) (omega arith),
            )
            refl,
        submitted-Submitted d w q k (omega arith) (omega arith),
      )
    ]
