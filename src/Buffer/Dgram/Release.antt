-- ===== src/Buffer/Dgram/Release.antt =====
-- `release_slot`: the blocks that a slot names go back to the pool in their order, then the slot.
use native.Mathlib.Numerals.{add-one}
use uring_proactor.Base.{
  ◌==◌, if◌then◌else◌, length, rows, count, head_of, tail_of, ℕ, zero, suc, ◌+◌, ◌-◌, ◌<◌, ◌≡◌,
  refl, sym, ap, ap₂, subst, ◌∙◌, List, [], ◌∷◌, ◌++◌, map, append-nil, append_assoc, arith,
}
use uring_proactor.Buffer.BufPool.{BufPool, buf_addr, release, release_addr}
use uring_proactor.Buffer.BufPool.Fifo.{release_addr_lem}
use uring_proactor.Buffer.BufPool.Invariant.{
  free_list, IsPool, free_list-release, release-IsPool, IsPool-ext,
}
use uring_proactor.Buffer.Dgram.{Dgram, release_named, release_slot}
use uring_proactor.Buffer.MsghdrPool.Fifo.{free_slots, IsMsghdrPool, release_msghdr_lem}
use uring_proactor.Buffer.Stream.{Iovec}

-- The addresses that the first iovecs name.
abbrev pub addresses : (ℕ → Iovec) → ℕ → ℕ → List ℕ
addresses iov i n = rows (λ j. (iov j).0) i n

-- The blocks are back behind the others, and their holder has none of them.
record Returned (held : ℕ → ℕ) (xs : List ℕ) (p r : BufPool) : Type 0 where
  returned : free_list r ≡ free_list p ++ xs
  sound : IsPool held r

buf_addr-release : (p : BufPool) (a b : ℕ) → buf_addr (release p a) b ≡ buf_addr p b
unfolding release
buf_addr-release p a b = refl

map-buf_addr :
    (p : BufPool) (a : ℕ) (xs : List ℕ) → map (buf_addr (release p a)) xs ≡ map (buf_addr p) xs
map-buf_addr p a [] = refl
map-buf_addr p a (x ∷ xs) = ap₂ ◌∷◌ (buf_addr-release p a x) (map-buf_addr p a xs)

-- The release by the address that an iovec names.
module _ (held : ℕ → ℕ) {p : BufPool} (a : ℕ) (xs : List ℕ)
    (i : IsPool (λ k. count k (a ∷ xs) + held k) p) where
  first_in : a < p.buf_num
  first_in = ground (arith, i.once a)

  release_first : release_addr p (buf_addr p a) ≡ release p a
  release_first =
      ap (release_addr p) (omega arith) ∙ release_addr_lem i a 0 first_in (omega (arith, i.sized))

  rest-IsPool : IsPool (λ k. count k xs + held k) (release p a)
  rest-IsPool = release-IsPool i a _ (λ k. omega arith)

  Returned-step : {r : BufPool} → Returned held xs (release p a) r → Returned held (a ∷ xs) p r
  Returned-step f = record {
    returned =
        f.returned
        ∙ ap (λ ys. ys ++ xs) (free_list-release i a (ground arith))
        ∙ append_assoc (free_list p) (a ∷ []) xs;
    sound = f.sound;
  }

release_named-Returned :
    {held : ℕ → ℕ} (n i : ℕ) (iov : ℕ → Iovec) (p : BufPool) (xs : List ℕ)
    → addresses iov i n ≡ map (buf_addr p) xs
    → IsPool (λ k. count k xs + held k) p
    → Returned held xs p (release_named n i iov p)
unfolding release_named
release_named-Returned zero i iov p [] e w = record {
  returned = sym (append-nil (free_list p));
  sound = IsPool-ext w (λ a. omega arith);
}
release_named-Returned zero i iov p (a ∷ xs) e w = absurd (omega (arith, ap length e))
release_named-Returned (suc n) i iov p [] e w = absurd (omega (arith, ap length e))
release_named-Returned {held} (suc n) i iov p (a ∷ xs) e w =
    subst (λ q. Returned held (a ∷ xs) p (release_named n (i + 1) iov q))
      (sym (ap (release_addr p) (ap head_of e) ∙ release_first held a xs w))
      (Returned-step held a xs w (
        release_named-Returned n (i + 1) iov (release p a) xs
          (ap (λ k. addresses iov k n) (add-one i) ∙ ap tail_of e ∙ sym (map-buf_addr p a xs))
          (rest-IsPool held a xs w)))

-- Where a slot names blocks that nobody else holds, `release_slot` gives them back behind the free
-- blocks, in the order in which the slot names them, and the slot behind the free slots; both pools are
-- sound, and their holder has neither the blocks nor the slot.
pub release_slot_lem :
    {held slots_held : ℕ → ℕ} (slot : ℕ) (d : Dgram) (xs : List ℕ)
    → IsPool (λ a. count a xs + held a) d.pool
    → IsMsghdrPool slots_held d.msghdrs
    → 0 < slots_held slot
    → addresses (d.msghdrs.slots slot).iov 0 (d.msghdrs.slots slot).hdr.msg_iovlen
      ≡ map (buf_addr d.pool) xs
    → (free_list (release_slot slot d).pool ≡ free_list d.pool ++ xs)
      × IsPool held (release_slot slot d).pool
      × (free_slots (release_slot slot d).msghdrs ≡ free_slots d.msghdrs ++ (slot ∷ []))
      × IsMsghdrPool
          (λ a. slots_held a - (if a == slot then 1 else 0))
          (release_slot slot d).msghdrs
unfolding release_slot
release_slot_lem slot d xs w m own e =
    let f =
      release_named-Returned (d.msghdrs.slots slot).hdr.msg_iovlen 0 (d.msghdrs.slots slot).iov
        d.pool xs e w in
    let g = release_msghdr_lem m slot own in (f.returned, f.sound, g.1, g.4)
