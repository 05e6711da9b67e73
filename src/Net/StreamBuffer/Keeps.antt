-- ===== src/Net/StreamBuffer/Keeps.antt =====
-- What `append` and `submit` of WriteBufStream (src/buffer/buffer.cpp) keep of a sound stream.
use uring_proactor.Base.{
  u64_mod, length, drop, length-append, length-drop, count, head_of, ℕ, ◌+◌, ◌^◌, ◌≤◌, ◌<◌, ◌≡◌,
  refl, sym, ap, ap₂, subst, ◌∙◌, ◌⊎◌, inl, inr, Bool, true, false, some, List, [], ◌∷◌, ◌++◌,
  arith,
}
use native.Mathlib.Decide.{ℕ_discrete}
use uring_proactor.Base.Memory.{length-rows}
use uring_proactor.Base.Ring.Laws.{size-zero_iff, items-advance, length-items}
use uring_proactor.Buffer.Stream.{Stream, submit_blocks, submit, has_send_data}
use uring_proactor.Buffer.Stream.Invariant.{send_bytes, IsStream, send_list-first}
use uring_proactor.Buffer.WriteBuf.{Writer, append, prepend}
use uring_proactor.Buffer.WriteBuf.Prepend.{prepend_lem}
use uring_proactor.Buffer.WriteBuf.Append.{Framed, framed, append_lem}
use uring_proactor.Buffer.WriteBuf.Invariant.{pending_list, send_list, IsWriter}
use uring_proactor.Base.Ring.{size, front, advance, items}
use uring_proactor.Buffer.BufPool.Blocks.{contents, contents-append, contents_cong}
use uring_proactor.Buffer.Stream.Submit.{submit_lem}

head_of-append : (xs ys : List ℕ) → 0 < length xs → head_of (xs ++ ys) ≡ head_of xs
head_of-append [] ys h = absurd (omega arith)
head_of-append (x ∷ xs) ys h = refl

none_pending-submit : (s : Writer) → size u64_mod s.pending ≡ 0 → submit_blocks s ≡ (false, s)
unfolding submit_blocks
none_pending-submit s e = rw e

module _ {others : ℕ → ℕ} {s : Stream} (i : IsStream others s) where
  pub some_data : has_send_data s ≡ true → 0 < size u64_mod s.send
  some_data e =
      ground (
        arith,
        (size-zero_iff i.writer.waiting.capacity 64 (omega arith) s.send i.writer.sending).0,
      )

  pub no_data : has_send_data s ≡ false → size u64_mod s.send ≡ 0
  no_data e =
      ground (
        arith,
        (size-zero_iff i.writer.waiting.capacity 64 (omega arith) s.send i.writer.sending).1,
      )

  has_data : 0 < size u64_mod s.send → has_send_data s ≡ true
  has_data h =
      ground (
        arith,
        (size-zero_iff i.writer.waiting.capacity 64 (omega arith) s.send i.writer.sending).1,
      )

  pub has_none : size u64_mod s.send ≡ 0 → has_send_data s ≡ false
  has_none h = ground (
    arith,
    (size-zero_iff i.writer.waiting.capacity 64 (omega arith) s.send i.writer.sending).0 h,
  )

  first-send_list : 0 < size u64_mod s.send → head_of (send_list s.base) ≡ front s.mask s.send
  first-send_list h = ap head_of (send_list-first i h)

  -- A writer that sends the same blocks from the same pool of sizes.
  rebase :
      {r : Writer}
      → IsWriter others r
      → size u64_mod s.send ≤ size u64_mod r.send
      → (0 < size u64_mod s.send → head_of (send_list r) ≡ head_of (send_list s.base))
      → (0 < size u64_mod s.send
          → r.pool.data_size (front s.mask s.send) ≡ s.pool.data_size (front s.mask s.send))
      → IsStream others (record s { base = r })
  rebase {r} w more same_first same_size = record {
    writer = w;
    within = λ h. elim (ℕ_discrete (size u64_mod s.send) 0) [
      | yes none_sent ↦ omega (arith, i.idle none_sent)
      | no ne ↦ omega (
        arith,
        i.within (omega arith),
        same_size (omega arith),
        ap r.pool.data_size
            (sym (front_r h) ∙ same_first (omega arith) ∙ first-send_list (omega arith)),
      )
    ];
    idle = λ e. i.idle (omega arith);
  }
    where
      front_r : 0 < size u64_mod r.send → head_of (send_list r) ≡ front r.mask r.send
      front_r h = ap head_of (
          subst
            (λ m. send_list r ≡ front m r.send ∷ items u64_mod r.capacity (advance u64_mod r.send))
            (sym w.waiting.masked)
            (items-advance w.waiting.capacity 64 (omega arith) r.send w.sending h))

  pub appended : {r : Writer} → Framed others s.base r → IsStream others (record s { base = r })
  appended {r} f =
      rebase f.sound (omega (arith, ap (size u64_mod) f.same_send)) (λ h. ap head_of f.same_sends)
        (λ h. same_size h)
    where
      same_size :
          0 < size u64_mod s.send
          → r.pool.data_size (front s.mask s.send) ≡ s.pool.data_size (front s.mask s.send)
      same_size h =
          sym (length-rows r.pool.bufs _ (r.pool.data_size (front s.mask s.send)))
          ∙ ap length (
              f.untouched (front s.mask s.send)
                (ground (arith, ap (count (front s.mask s.send)) (send_list-first i h))))
          ∙ length-rows s.pool.bufs _ (s.pool.data_size (front s.mask s.send))

-- What `submit` does on a sound stream.
abbrev pub Submits : (ℕ → ℕ) → Stream → Type 0
Submits others s =
    (((submit s).0 ≡ false) × ((submit s).1 ≡ s))
    ⊎ (((submit s).0 ≡ true)
        × (has_send_data (submit s).1 ≡ true)
        × (length (send_bytes s) ≤ length (send_bytes (submit s).1))
        × IsStream others (submit s).1)

-- Sound streams.
abbrev pub Sound : (ℕ → ℕ) → Type 0
Sound others = (s : Stream) × IsStream others s

module _ {others : ℕ → ℕ} where
  -- `append` on a sound stream.
  pub append_sound :
      (bytes : List ℕ) (s : Stream)
      → IsStream others s
      → (ok : Bool) × (r : Writer) × (append bytes s.base ≡ some (ok, r)) × Framed others s.base r
  append_sound bytes s i = elim (append_lem i.writer bytes) [
    | inl (r, e, f, _) ↦ (true, r, e, f)
    | inr (r, e, f, _, _) ↦ (false, r, e, f)
  ]

  -- `prepend` on a sound stream, of data whose size is an `unsigned int`.
  pub prepend_sound :
      (bytes : List ℕ) (s : Stream)
      → IsStream others s
      → length bytes < 2 ^ 32
      → (ok : Bool) × (r : Writer) × (prepend bytes s.base ≡ (ok, r)) × Framed others s.base r
  prepend_sound bytes s i h = elim (prepend_lem i.writer bytes h) [
    | inl (_, inl (r, e, _, _, _, f, _)) ↦ (true, r, e, f)
    | inl (_, inr (r, e, _, f, _, _)) ↦ (false, r, e, f)
    | inr (_, _, e) ↦
        (true, s.base, e, framed i.writer s.base i.writer.waiting refl refl (λ a own. refl))
  ]

  pub queued_appended :
      {s : Stream} {r : Writer}
      → IsStream others s
      → Framed others s.base r
      → send_bytes (record s { base = r }) ≡ send_bytes s
  queued_appended {s} {r} i f = ap (drop s.offset) (
      ap (contents r.pool) f.same_sends
      ∙ contents_cong s.pool r.pool (send_list s.base) (λ a h. f.untouched a (omega arith)))

  -- A `submit` that moves blocks.
  module _ {s : Stream} {r : Writer} (i : IsStream others s)
      (done : submit_blocks s.base ≡ (true, r)) (w : IsWriter others r)
      (sends : send_list r ≡ send_list s.base ++ pending_list s.base) (pool : r.pool ≡ s.pool) where
    some_pending : 0 < size u64_mod s.pending
    some_pending = elim (ℕ_discrete (size u64_mod s.pending) 0) [
      | yes none_left ↦ absurd (
          ground (
            arith,
            ap (λ (o : Bool × Writer). o.0) done,
            ap (λ (o : Bool × Writer). o.0) (none_pending-submit s.base none_left),
          ))
      | no ne ↦ omega arith
    ]

    length-sends : size u64_mod r.send ≡ size u64_mod s.send + size u64_mod s.pending
    length-sends = omega (
      arith,
      ap length sends,
      length-append (send_list s.base) (pending_list s.base),
      length-items w.waiting.capacity 64 (omega arith) r.send,
      length-items i.writer.waiting.capacity 64 (omega arith) s.send,
      length-items i.writer.waiting.capacity 64 (omega arith) s.pending,
    )

    pub submitted-IsStream : IsStream others (record s { base = r })
    submitted-IsStream =
        rebase i w (omega (arith, length-sends))
          (λ h.
            ap head_of sends
            ∙ head_of-append (send_list s.base) (pending_list s.base)
                (omega (arith, length-items i.writer.waiting.capacity 64 (omega arith) s.send)))
          (λ h. ap (λ p. p.data_size (front s.mask s.send)) pool)

    submitted-queued : length (send_bytes s) ≤ length (send_bytes (record s { base = r }))
    submitted-queued = omega (
      arith,
      length-drop s.offset (contents s.pool (send_list s.base)),
      length-drop s.offset (contents r.pool (send_list r)),
      ap length (ap₂ contents pool sends),
      ap length (contents-append s.pool (send_list s.base) (pending_list s.base)),
      length-append (contents s.pool (send_list s.base)) (contents s.pool (pending_list s.base)),
    )

  -- `submit` on a sound stream.
  pub submit_sound : (s : Stream) → IsStream others s → Submits others s
  unfolding submit
  submit_sound s i = elim (submit_lem s.base i.writer) [
    | inl (_, e) ↦
        inl
          (ap (λ (o : Bool × Writer). o.0) e, ap (λ (o : Bool × Writer). record s { base = o.1 }) e)
    | inr (r, e, w, sends, waits, pool) ↦ inr (
      ap (λ (o : Bool × Writer). o.0) e,
      subst Has (sym (state e)) (has_data (moved e w sends pool) (some_left e w sends pool)),
      subst Keeps (sym (state e)) (submitted-queued i e w sends pool),
      subst (IsStream others) (sym (state e)) (moved e w sends pool),
    )
  ]
    where
      Has : Stream → Type 0
      Has t = has_send_data t ≡ true

      Keeps : Stream → Type 0
      Keeps t = length (send_bytes s) ≤ length (send_bytes t)

      state :
          {r : Writer}
          → submit_blocks s.base ≡ (true, r)
          → record s { base = (submit_blocks s.base).1 } ≡ record s { base = r }
      state e = ap (λ (o : Bool × Writer). record s { base = o.1 }) e

      moved :
          {r : Writer}
          → submit_blocks s.base ≡ (true, r)
          → IsWriter others r
          → send_list r ≡ send_list s.base ++ pending_list s.base
          → r.pool ≡ s.pool
          → IsStream others (record s { base = r })
      moved e w sends pool = submitted-IsStream i e w sends pool

      some_left :
          {r : Writer}
          → submit_blocks s.base ≡ (true, r)
          → IsWriter others r
          → send_list r ≡ send_list s.base ++ pending_list s.base
          → r.pool ≡ s.pool
          → 0 < size u64_mod r.send
      some_left e w sends pool =
          omega (arith, length-sends i e w sends pool, some_pending i e w sends pool)
