-- ===== src/Buffer/Stream/Consume.antt =====
-- `consume_written`: the acknowledged prefix goes, and only that.
use uring_proactor.Base.{
  ◌==◌, lt→ltb, le→ltb, u32_mod, u64_mod, add_word, sub_word, length, drop, drop-nil,
  drop-append_ge, append-nil, append_assoc, List, [], ◌∷◌, ◌++◌, ◌⊎◌, inl, inr, ℕ, zero, suc, ◌-◌,
  ◌≤◌, ◌<◌, ◌≡◌, refl, sym, ap, ◌∙◌, false, some, arith,
}
use uring_proactor.Base.Ring.{size, front, items-empty}
use uring_proactor.Buffer.Stream.{Stream, drop_sent, consume_from, consume_written}
use uring_proactor.Buffer.WriteBuf.Invariant.{pending_list, send_list}
use uring_proactor.Buffer.BufPool.Invariant.{free_list, free_list-release}
use uring_proactor.Buffer.BufPool.Blocks.{block, contents}
use native.Mathlib.Decide.{dec_lt}
use uring_proactor.Buffer.Stream.Invariant.{
  send_bytes, IsStream, owned, send_list-first, first_held, owned-drop_sent, drop_sent-IsStream,
  block-drop_sent, size-drop_sent, send_bytes-drop_sent, length-first, first-le, remaining-eq,
  length-send_bytes, partly, partly-IsStream, send_bytes-partly,
}

-- What `consume_written(bytes)` may change.
pub record Consumed (others : ℕ → ℕ) (s : Stream) (bytes : ℕ) (r : Stream) : Type 0 where
  pub sound : IsStream others r
  pub left : send_bytes r ≡ drop bytes (send_bytes s)
  pub same_pending : pending_list r.base ≡ pending_list s.base
  pub untouched : (a : ℕ) → 0 < owned others r a → block r.pool a ≡ block s.pool a
  pub released : (a : ℕ) → owned others r a ≤ owned others s a
  -- The blocks that went back to the pool, and no written block is left in front.
  pub gone : List ℕ
  pub gone_first : send_list s.base ≡ gone ++ send_list r.base
  pub freed : free_list r.pool ≡ free_list s.pool ++ gone
  pub unfinished :
      ((bytes ≡ 0) × (r.offset ≡ s.offset))
      ⊎ ((r.offset ≡ 0) ⊎ (r.offset < r.pool.data_size (front r.mask r.send)))

no_bytes : (s : Stream) → size u64_mod s.send ≡ 0 → length (send_bytes s) ≡ 0
no_bytes s e =
    ap (λ xs. length (drop s.offset (contents s.pool xs))) (items-empty u64_mod s.capacity s.send e)
    ∙ ap length (drop-nil s.offset)

same-Consumed : {others : ℕ → ℕ} {s : Stream} → IsStream others s → Consumed others s 0 s
same-Consumed {s = s} w = record {
  sound = w;
  left = refl;
  same_pending = refl;
  untouched = λ a h. refl;
  released = λ a. omega arith;
  gone = [];
  gone_first = refl;
  freed = sym (append-nil (free_list s.pool));
  unfinished = inl (refl, refl);
}

consume_from_lem :
    {others : ℕ → ℕ} (n bytes : ℕ) (s : Stream)
    → IsStream others s
    → size u64_mod s.send ≡ n
    → bytes ≤ length (send_bytes s)
    → (r : Stream) × (consume_from n bytes s ≡ some r) × Consumed others s bytes r
unfolding consume_from
consume_from_lem zero zero s w e h = (s, refl, same-Consumed w)
consume_from_lem zero (suc bytes) s w e h = absurd (omega (arith, no_bytes s e))
consume_from_lem (suc n) zero s w e h = (s, refl, same-Consumed w)
consume_from_lem {others} (suc n) (suc bytes) s w e h = elim (dec_lt (suc bytes) rem) [
  | yes short ↦ (
    partly w some_left (suc bytes),
    rw (rem-eq, busy, lt→ltb (suc bytes) rem short) (ap some (short_state short)),
    short_write short,
  )
  | no long ↦
      let (r, q, c) =
        consume_from_lem n (suc bytes - rem) (drop_sent s) (drop_sent-IsStream w some_left)
          (omega (arith, size-drop_sent w some_left))
          (omega (arith, length-send_bytes w some_left)) in
      (r, rw (rem-eq, busy, le→ltb (suc bytes) rem (omega arith)) q, dropped (omega arith) c)
]
  where
    some_left : 0 < size u64_mod s.send
    some_left = omega arith

    rem : ℕ
    rem = s.pool.data_size (front s.mask s.send) - s.offset

    rem-eq : sub_word u32_mod (s.pool.data_size (front s.mask s.send)) s.offset ≡ rem
    rem-eq = remaining-eq w some_left

    busy : (suc bytes == 0) ≡ false
    busy = ground arith

    short_state :
        suc bytes < rem
        → record s { offset = add_word u32_mod s.offset (suc bytes) }
          ≡ partly w some_left (suc bytes)
    short_state short =
        unfold partly in ap (λ n. record s { offset = n }) (omega (arith, first-le w some_left))

    short_write : suc bytes < rem → Consumed others s (suc bytes) (partly w some_left (suc bytes))
    short_write short = record {
      sound = partly-IsStream w some_left (suc bytes) (omega arith);
      left = send_bytes-partly w some_left (suc bytes);
      same_pending = unfold partly in refl;
      untouched = unfold partly in λ a own. refl;
      released = unfold partly in λ a. omega arith;
      gone = [];
      gone_first = unfold partly in refl;
      freed = unfold partly in sym (append-nil (free_list s.pool));
      unfinished = inr (inr (unfold partly in omega arith));
    }

    same_waiting : pending_list (drop_sent s).base ≡ pending_list s.base
    same_waiting = unfold drop_sent in refl

    restarted : (drop_sent s).offset ≡ 0
    restarted = unfold drop_sent in refl

    freed_first : free_list (drop_sent s).pool ≡ free_list s.pool ++ (front s.mask s.send ∷ [])
    freed_first =
        unfold drop_sent in
        free_list-release w.writer.waiting.pool (front s.mask s.send) (first_held w some_left)

    dropped :
        {r : Stream}
        → rem ≤ suc bytes
        → Consumed others (drop_sent s) (suc bytes - rem) r
        → Consumed others s (suc bytes) r
    dropped {r} le c = record {
      sound = c.sound;
      left =
          c.left
          ∙ ap (λ k. drop (suc bytes - k) (send_bytes (drop_sent s)))
              (sym (length-first w some_left))
          ∙ sym (
              drop-append_ge (suc bytes) _ (send_bytes (drop_sent s))
                (omega (arith, length-first w some_left)))
          ∙ ap (drop (suc bytes)) (sym (send_bytes-drop_sent w some_left));
      same_pending = c.same_pending ∙ same_waiting;
      untouched =
          λ a own. c.untouched a own ∙ block-drop_sent w some_left a (omega (arith, c.released a));
      released = λ a. omega (arith, c.released a, owned-drop_sent w some_left a);
      gone = front s.mask s.send ∷ c.gone;
      gone_first = send_list-first w some_left ∙ ap (◌∷◌ (front s.mask s.send)) c.gone_first;
      freed =
          c.freed
          ∙ ap (λ xs. xs ++ c.gone) freed_first
          ∙ append_assoc (free_list s.pool) (front s.mask s.send ∷ []) c.gone;
      unfinished = elim c.unfinished [ inl (_, e) ↦ inr (inl (e ∙ restarted)) | inr q ↦ inr q ];
    }

-- On a sound stream, when the kernel reports no more bytes than were queued, exactly those bytes leave
-- the front of what is to be written, and the assertion of the source holds in every round. Blocks
-- leave the front of the send queue and stand behind the free ones of the pool, in their order;
-- where any byte was written, the block that is then in front is not written to its end, or none of
-- it is written. Nothing else that is held changes.
pub consume_written_lem :
    {others : ℕ → ℕ} (bytes : ℕ) (s : Stream)
    → IsStream others s
    → bytes ≤ length (send_bytes s)
    → (r : Stream) × (consume_written bytes s ≡ some r) × Consumed others s bytes r
unfolding consume_written
consume_written_lem bytes s w h = consume_from_lem (size u64_mod s.send) bytes s w refl h
