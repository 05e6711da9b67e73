-- ===== src/Buffer/Stream/Submit.antt =====
-- `submit`: all waiting blocks move behind those that are being sent, or nothing moves.
use uring_proactor.Base.{
  ◌==◌, lt→ltb, le→ltb, u64_mod, sub_word, count, count-append, capacity-le, ℕ, zero, suc, ◌+◌, ◌-◌,
  ◌≤◌, ◌<◌, ◌≡◌, refl, sym, ap, subst, ◌∙◌, ◌⊎◌, inl, inr, true, false, [], ◌∷◌, ◌++◌, append-nil,
  append_assoc, arith,
}
use uring_proactor.Base.Ring.{size, push, front, items, items-empty}
use uring_proactor.Base.Ring.Laws.{
  IsRing, size-zero_iff, size-push, size-advance, push-IsRing, advance-IsRing, items-push,
  items-advance,
}
use uring_proactor.Buffer.WriteBuf.{Writer}
use uring_proactor.Buffer.Stream.{move_block, move_all, submit_blocks}
use uring_proactor.Buffer.WriteBuf.Invariant.{pending_list, send_list, IsWriter}
use uring_proactor.Buffer.BufPool.Invariant.{IsPool-ext}
use native.Mathlib.Decide.{dec_lt, ℕ_discrete}

-- What the moves change: only who is in which queue.
pub record Moved (others : ℕ → ℕ) (s r : Writer) : Type 0 where
  pub sound : IsWriter others r
  pub same_pool : r.pool ≡ s.pool
  pub same_all : send_list r ++ pending_list r ≡ send_list s ++ pending_list s

module _ {others : ℕ → ℕ} {s : Writer} (w : IsWriter others s)
    (some_block : 0 < size u64_mod s.pending) (room : size u64_mod s.send < s.capacity) where
  abbrev first : ℕ
  first = front s.mask s.pending

  pending_list-first : pending_list s ≡ first ∷ pending_list (move_block s)
  unfolding move_block
  pending_list-first =
      rw w.waiting.masked
        (items-advance w.waiting.capacity 64 (omega arith) s.pending w.waiting.queue some_block)

  send_list-first : send_list (move_block s) ≡ send_list s ++ (first ∷ [])
  unfolding move_block
  send_list-first =
      subst
        (λ m. items u64_mod s.capacity (push u64_mod m s.send first) ≡ send_list s ++ (first ∷ []))
        (sym w.waiting.masked)
        (items-push w.waiting.capacity 64 (omega arith) s.send w.sending first room)

  move_block-Moved : Moved others s (move_block s)
  move_block-Moved = record {
    sound = record {
      waiting =
          unfold move_block in
          record {
            capacity = w.waiting.capacity;
            masked = w.waiting.masked;
            queue =
                advance-IsRing w.waiting.capacity 64 (omega arith) s.pending w.waiting.queue
                  some_block;
            pool = IsPool-ext w.waiting.pool (λ a. same_owners a);
          };
      sending =
          unfold move_block in
          subst (λ m. IsRing 64 s.capacity (push u64_mod m s.send first)) (sym w.waiting.masked)
            (push-IsRing w.waiting.capacity 64 (omega arith) s.send w.sending first room);
    };
    same_pool = unfold move_block in refl;
    same_all =
        ap (λ xs. xs ++ pending_list (move_block s)) send_list-first
        ∙ append_assoc (send_list s) (first ∷ []) (pending_list (move_block s))
        ∙ ap (◌++◌ (send_list s)) (sym pending_list-first);
  }
    where
      same_owners :
          (a : ℕ)
          → count a (pending_list (move_block s)) + (count a (send_list (move_block s)) + others a)
            ≡ count a (pending_list s) + (count a (send_list s) + others a)
      same_owners a = omega (
        arith,
        ap (count a) pending_list-first,
        ap (count a) send_list-first,
        count-append a (send_list s) (first ∷ []),
      )

  size-move_block :
      (size u64_mod (move_block s).pending + 1 ≡ size u64_mod s.pending)
      × (size u64_mod (move_block s).send ≡ size u64_mod s.send + 1)
  unfolding move_block
  size-move_block = (
    size-advance w.waiting.capacity 64 (omega arith) s.pending w.waiting.queue some_block,
    subst (λ m. size u64_mod (push u64_mod m s.send first) ≡ size u64_mod s.send + 1)
        (sym w.waiting.masked)
        (size-push w.waiting.capacity 64 (omega arith) s.send w.sending first room),
  )

Moved-trans :
    {others : ℕ → ℕ} {s m r : Writer} → Moved others s m → Moved others m r → Moved others s r
Moved-trans x y = record {
  sound = y.sound;
  same_pool = y.same_pool ∙ x.same_pool;
  same_all = y.same_all ∙ x.same_all;
}

-- As many rounds as there are waiting blocks.
move_all-Moved :
    {others : ℕ → ℕ} (n : ℕ) (s : Writer)
    → IsWriter others s
    → size u64_mod s.pending ≡ n
    → size u64_mod s.send + n ≤ s.capacity
    → Moved others s (move_all n s) × (size u64_mod (move_all n s).pending ≡ 0)
unfolding move_all
move_all-Moved zero s w e room = (record { sound = w; same_pool = refl; same_all = refl }, e)
move_all-Moved {others} (suc n) s w e room =
    let rest =
      move_all-Moved n (move_block s) moved.sound
        (omega (arith, size-move_block w (omega arith) (omega arith)))
        (unfold move_block in omega (arith, size-move_block w (omega arith) (omega arith))) in
    rw not_yet (Moved-trans moved rest.0, rest.1)
  where
    moved : Moved others s (move_block s)
    moved = move_block-Moved w (omega arith) (omega arith)

    not_yet : (s.pending.head == s.pending.tail) ≡ false
    not_yet =
        ground (
          arith,
          e,
          (size-zero_iff w.waiting.capacity 64 (omega arith) s.pending w.waiting.queue).1,
        )

pub submit_lem :
    {others : ℕ → ℕ} (s : Writer)
    → IsWriter others s
    → let n = size u64_mod s.pending in
      (((n ≡ 0) ⊎ (s.capacity < size u64_mod s.send + n)) × (submit_blocks s ≡ (false, s)))
      ⊎ ((r : Writer) × (submit_blocks s ≡ (true, r))
          × IsWriter others r
          × (send_list r ≡ send_list s ++ pending_list s)
          × (pending_list r ≡ [])
          × (r.pool ≡ s.pool))
unfolding submit_blocks
submit_lem {others} s w = elim (ℕ_discrete (size u64_mod s.pending) 0) [
  | yes none_waits ↦ inl (inl none_waits, rw none_waits)
  | no some_wait ↦ elim (dec_lt s.capacity (size u64_mod s.send + size u64_mod s.pending)) [
    | yes crowded ↦ inl (inr crowded, rw (ne→== some_wait, lt→ltb _ _ (too_many crowded)))
    | no room ↦ inr (
      move_all (size u64_mod s.pending) s,
      rw (ne→== some_wait, le→ltb _ _ (enough room)),
      (all_moved room).0.sound,
      appended room,
      none_left room,
      (all_moved room).0.same_pool,
    )
  ]
]
  where
    all_moved :
        ¬ (s.capacity < size u64_mod s.send + size u64_mod s.pending)
        → Moved others s (move_all (size u64_mod s.pending) s)
          × (size u64_mod (move_all (size u64_mod s.pending) s).pending ≡ 0)
    all_moved room = move_all-Moved (size u64_mod s.pending) s w refl (omega arith)

    space : sub_word u64_mod s.capacity (size u64_mod s.send) ≡ s.capacity - size u64_mod s.send
    space = omega (arith, w.sending.fits, capacity-le w.waiting.capacity)

    ne→== : ¬ (size u64_mod s.pending ≡ 0) → (size u64_mod s.pending == 0) ≡ false
    ne→== ne = ground arith

    too_many :
        s.capacity < size u64_mod s.send + size u64_mod s.pending
        → sub_word u64_mod s.capacity (size u64_mod s.send) < size u64_mod s.pending
    too_many crowded = omega (arith, space, w.sending.fits)

    enough :
        ¬ (s.capacity < size u64_mod s.send + size u64_mod s.pending)
        → size u64_mod s.pending ≤ sub_word u64_mod s.capacity (size u64_mod s.send)
    enough room = omega (arith, space)

    none_left :
        ¬ (s.capacity < size u64_mod s.send + size u64_mod s.pending)
        → pending_list (move_all (size u64_mod s.pending) s) ≡ []
    none_left room =
        items-empty u64_mod (move_all (size u64_mod s.pending) s).capacity
          (move_all (size u64_mod s.pending) s).pending (all_moved room).1

    appended :
        ¬ (s.capacity < size u64_mod s.send + size u64_mod s.pending)
        → send_list (move_all (size u64_mod s.pending) s) ≡ send_list s ++ pending_list s
    appended room =
        sym (append-nil (send_list (move_all (size u64_mod s.pending) s)))
        ∙ ap (◌++◌ (send_list (move_all (size u64_mod s.pending) s))) (sym (none_left room))
        ∙ (all_moved room).0.same_all
