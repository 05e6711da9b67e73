-- ===== src/Buffer/WriteBuf/Append.antt =====
-- `append`: all of the data, or nothing at all.
use native.Mathlib.Decide.{dec_lt, ℕ_discrete}
use uring_proactor.Base.{
  ◌==◌, le→leb, lt→leb, u32_mod, u64_mod, take, drop, take-append-drop, rows, count, capacity_pos,
  ℕ, zero, suc, ◌+◌, ◌*◌, ◌%◌, ◌≤◌, ◌<◌, ◌≡◌, refl, sym, ap, ap₂, subst, ◌∙◌, ◌⊎◌, inl, inr, Bool,
  true, false, Option, some, List, [], ◌∷◌, ◌++◌, append-nil, append_assoc, arith,
}
use uring_proactor.Base.Ring.{size, items}
use uring_proactor.Buffer.WriteBuf.{
  Writer, last_block, grow, Mark, roll_back, after_grow, after_fill, append_loop, mark_empty,
  mark_last, append_fuel, append,
}
use uring_proactor.Buffer.WriteBuf.Invariant.{
  pending_list, send_list, pending_bytes, IsPending, IsWriter, IsPending-ext, taken,
  take_block-none, take_block-some, size-taken,
}
use uring_proactor.Buffer.WriteBuf.Progress.{
  Progress, HasTip, filled-Progress, taken-Progress, taken-HasTip, start-Progress, start-HasTip,
}
use uring_proactor.Buffer.WriteBuf.Fill.{last_pending, step, filled, fill_cases}
use uring_proactor.Buffer.WriteBuf.RollBack.{
  Restored, pending_bytes-Restored, roll_back_empty, roll_back_last,
}
use uring_proactor.Base.Ring.Laws.{IsRing, size-zero_iff}
use uring_proactor.Buffer.BufPool.Blocks.{block}

-- How the copy ends: with all bytes written, or with everything put back.
abbrev Ends : (ℕ → ℕ) → Writer → List ℕ → Option (Bool × Writer) → Type 0
Ends others s0 all e =
    ((s : Writer) × (e ≡ some (true, s)) × Progress others s0 s all)
    ⊎ ((s : Writer) × (e ≡ some (false, s)) × Restored others s0 s)

pub append_loop-nil :
    (f : ℕ) (m : Mark) (s : Writer) → 0 < f → append_loop f m [] s ≡ some (true, s)
unfolding append_loop
append_loop-nil zero m s h = absurd (omega arith)
append_loop-nil (suc f) m s h = refl

module _ {others : ℕ → ℕ} {s0 : Writer} (m : Mark) (all : List ℕ)
    (restore : (s : Writer) (done : List ℕ)
      → Progress others s0 s done
      → Restored others s0 (roll_back m s)) where
  -- What the loop does from a state with some of the data written.
  abbrev LoopEnds : ℕ → Type 0
  LoopEnds f =
      (bytes done : List ℕ) (s : Writer)
      → Progress others s0 s done
      → HasTip others s0 s
      → s.capacity + 2 ≤ size u64_mod s.pending + f
      → done ++ bytes ≡ all
      → Ends others s0 all (append_loop f m bytes s)

  grow-Ends :
      (f : ℕ)
      → LoopEnds f
      → (bytes done : List ℕ) (s : Writer) → Progress others s0 s done
      → s.capacity + 1 ≤ size u64_mod s.pending + f
      → done ++ bytes ≡ all
      → Ends others s0 all (after_grow (append_loop f m bytes) m (grow s))
  unfolding after_grow grow
  grow-Ends f again bytes done s g fuel e = elim (dec_lt (size u64_mod s.pending) s.capacity) [
    | no full ↦ inr (
      roll_back m s,
      rw (le→leb s.capacity (size u64_mod s.pending) (omega arith)),
      restore s done g,
    )
    | yes room ↦ elim (ℕ_discrete (size u32_mod s.pool.free) 0) [
      | yes none_free ↦ inr (
        roll_back m s,
        rw (lt→leb (size u64_mod s.pending) s.capacity room, take_block-none g.live none_free),
        restore s done g,
      )
      | no free ↦
          rw (lt→leb (size u64_mod s.pending) s.capacity room, take_block-some g.live (omega arith))
            (again bytes done (taken g.live) (taken-Progress g (omega arith) room)
              (taken-HasTip g (omega arith) room) (omega (arith, fewer_left g.live free room)) e)
    ]
  ]
    where
      fewer_left :
          (i : IsPending others s)
          → ¬ (size u32_mod s.pool.free ≡ 0)
          → size u64_mod s.pending < s.capacity
          → (taken i).capacity + 2 ≤ size u64_mod (taken i).pending + f
      fewer_left i free room = unfold taken in omega (arith, fuel, size-taken i (omega arith) room)

  fill-Ends :
      (f : ℕ)
      → LoopEnds f
      → (bytes done : List ℕ) (s : Writer) → Progress others s0 s done
      → s.capacity + 1 ≤ size u64_mod s.pending + f
      → 0 < f
      → done ++ bytes ≡ all
      → Ends others s0 all (after_fill (append_loop f m) m (bytes, s))
  unfolding after_fill
  fill-Ends f again [] done s g fuel pos e =
      inl (s, append_loop-nil f m s pos, subst (Progress others s0 s) (sym (append-nil done) ∙ e) g)
  fill-Ends f again (x ∷ xs) done s g fuel pos e = grow-Ends f again (x ∷ xs) done s g fuel e

  loop_ends : (f : ℕ) → LoopEnds f
  unfolding append_loop
  loop_ends zero bytes done s g t fuel e = absurd (omega (arith, g.live.queue.fits))
  loop_ends (suc f) [] done s g t fuel e =
      inl (s, refl, subst (Progress others s0 s) (sym (append-nil done) ∙ e) g)
  loop_ends (suc f) (x ∷ xs) done s g t fuel e = elim (fill_cases g.live t.nonempty (x ∷ xs)) [
    | inl (_, q) ↦ rw q (
        fill-Ends f (loop_ends f) (x ∷ xs) done s g (omega arith) (omega (arith, g.live.queue.fits))
          e)
    | inr (_, q) ↦ rw q (
        fill-Ends f (loop_ends f) (drop n (x ∷ xs)) (done ++ take n (x ∷ xs))
          (filled g.live t.nonempty (x ∷ xs)) (filled-Progress g t (x ∷ xs)) same_room
          (omega (arith, g.live.queue.fits)) joined)
  ]
    where
      n : ℕ
      n = step g.live t.nonempty (x ∷ xs)

      same_room :
          (filled g.live t.nonempty (x ∷ xs)).capacity + 1
          ≤ size u64_mod (filled g.live t.nonempty (x ∷ xs)).pending + f
      same_room = unfold filled in omega arith

      joined : (done ++ take n (x ∷ xs)) ++ drop n (x ∷ xs) ≡ all
      joined =
          append_assoc done (take n (x ∷ xs)) (drop n (x ∷ xs))
          ∙ ap (◌++◌ done) (take-append-drop n (x ∷ xs))
          ∙ e

-- What a caller may know of the state `s` after a call on `s0`, whatever the call returned: the
-- buffer is sound, and neither the send queue nor anybody else's block has changed.
pub record Framed (others : ℕ → ℕ) (s0 s : Writer) : Type 0 where
  pub sound : IsWriter others s
  pub same_send : s.send ≡ s0.send
  pub same_capacity : s.capacity ≡ s0.capacity
  pub same_sends : send_list s ≡ send_list s0
  pub untouched : (a : ℕ) → 0 < count a (send_list s0) + others a → block s.pool a ≡ block s0.pool a

module _ {others : ℕ → ℕ} {s0 : Writer} (w : IsWriter others s0) where
  abbrev pub outside : ℕ → ℕ
  outside a = count a (send_list s0) + others a

  pub framed :
      (s : Writer)
      → IsPending outside s
      → s.send ≡ s0.send
      → s.capacity ≡ s0.capacity
      → ((a : ℕ) → 0 < outside a → block s.pool a ≡ block s0.pool a)
      → Framed others s0 s
  framed s i same_send same_capacity untouched = record {
    sound = record {
      waiting = IsPending-ext i (λ a. omega (arith, ap (count a) same));
      sending =
          subst (IsRing 64 s.capacity) (sym same_send)
            (subst (λ c. IsRing 64 c s0.send) (sym same_capacity) w.sending);
    };
    same_send = same_send;
    same_capacity = same_capacity;
    same_sends = same;
    untouched = untouched;
  }
    where
      same : send_list s ≡ send_list s0
      same = ap₂ (items u64_mod) same_capacity same_send

  Progress-Framed : {s : Writer} {done : List ℕ} → Progress outside s0 s done → Framed others s0 s
  Progress-Framed {s} g = framed s g.live g.same_send g.same_capacity λ a own.
      ap₂ (rows s.pool.bufs) (ap (λ t. a * t % u32_mod) g.same_size) (size_of a own)
      ∙ g.old a (omega arith)
    where
      size_of : (a : ℕ) → 0 < outside a → s.pool.data_size a ≡ s0.pool.data_size a
      size_of a own = elim (g.sizes a (omega arith)) [
        | inl q ↦ q
        | inr q ↦ absurd (both a own q.0 q.1)
      ]
        where
          both : (a : ℕ) → 0 < outside a → 0 < size u64_mod s0.pending → a ≡ last_block s0 → ⊥
          both a own h e = ground (
            arith,
            w.waiting.pool.once a,
            subst (λ (t : ℕ). 0 < count t (pending_list s0)) (sym e) (last_pending w.waiting h),
          )

  pub Restored-Framed : {s : Writer} → Restored outside s0 s → Framed others s0 s
  Restored-Framed {s} x =
      framed s x.live x.same_send x.same_capacity (λ a own. x.same_block a (omega arith))

  pub append-Ends : (bytes : List ℕ) → Ends outside s0 bytes (append bytes s0)
  unfolding append taken
  append-Ends bytes = elim (ℕ_discrete (size u64_mod s0.pending) 0) [
    | yes none_yet ↦ elim (ℕ_discrete (size u32_mod s0.pool.free) 0) [
      | yes none_free ↦
          rw (empty_test none_yet, take_block-none w.waiting none_free) (inr (s0, refl, unchanged))
      | no free ↦
          rw (empty_test none_yet, take_block-some w.waiting (omega arith))
            (loop_ends (mark_empty s0) bytes (λ s done g. roll_back_empty w.waiting g none_yet)
              (append_fuel s0) bytes [] (taken w.waiting)
              (taken-Progress (start-Progress w.waiting) (omega arith) (roomy none_yet))
              (taken-HasTip (start-Progress w.waiting) (omega arith) (roomy none_yet)) (omega arith)
              refl)
    ]
    | no some_block ↦ rw (nonempty_test some_block) (
        loop_ends (mark_last s0) bytes (λ s done g. roll_back_last w.waiting g (omega arith))
          (append_fuel s0) bytes [] s0 (start-Progress w.waiting) (start-HasTip (omega arith))
          (omega arith) refl)
  ]
    where
      unchanged : Restored outside s0 s0
      unchanged = record {
        live = w.waiting;
        same_list = refl;
        same_send = refl;
        same_capacity = refl;
        same_block = λ a own. refl;
      }

      roomy : size u64_mod s0.pending ≡ 0 → size u64_mod s0.pending < s0.capacity
      roomy e = omega (arith, capacity_pos w.waiting.capacity)

      empty_test : size u64_mod s0.pending ≡ 0 → (s0.pending.head == s0.pending.tail) ≡ true
      empty_test e = ground (
        arith,
        (size-zero_iff w.waiting.capacity 64 (omega arith) s0.pending w.waiting.queue).0 e,
      )

      nonempty_test : ¬ (size u64_mod s0.pending ≡ 0) → (s0.pending.head == s0.pending.tail) ≡ false
      nonempty_test ne = ground (
        arith,
        ne,
        (size-zero_iff w.waiting.capacity 64 (omega arith) s0.pending w.waiting.queue).1,
      )

  -- On a sound buffer `append` always comes to an end. Where it returns true the data stands behind the bytes that
  -- waited; where it returns false the same blocks wait, with the same bytes. Either way the buffer
  -- is sound, the send queue is as it was, and so are the blocks of all other holders.
  pub append_lem :
      (bytes : List ℕ)
      → ((s : Writer) × (append bytes s0 ≡ some (true, s))
          × Framed others s0 s
          × (pending_bytes s ≡ pending_bytes s0 ++ bytes))
        ⊎ ((s : Writer) × (append bytes s0 ≡ some (false, s))
            × Framed others s0 s
            × (pending_list s ≡ pending_list s0)
            × (pending_bytes s ≡ pending_bytes s0))
  append_lem bytes = elim (append-Ends bytes) [
    | inl (s, e, g) ↦ inl (s, e, Progress-Framed g, g.written)
    | inr (s, e, x) ↦ inr (s, e, Restored-Framed x, x.same_list, pending_bytes-Restored x)
  ]
