-- ===== src/Net/StreamBuffer/Message.antt =====
-- A message on a sound stream: `append`, `prepend` and `submit` of WriteBufStream
-- (src/buffer/buffer.cpp), and the report of the kernel.
use native.Mathlib.Decide.{ℕ_discrete}
use uring_proactor.Base.{
  u64_mod, length, drop, drop-append, length-append, capacity_pos, ℕ, ◌^◌, ◌≤◌, ◌≡◌, sym, ap, ap₂,
  subst, ◌∙◌, inl, inr, Bool, true, some, List, [], ◌++◌, arith,
}
use uring_proactor.Base.Memory.{length-rows}
use uring_proactor.Base.Ring.{size}
use uring_proactor.Buffer.BufPool.Blocks.{contents, contents-append, block_in}
use uring_proactor.Buffer.Stream.{Stream, submit_blocks, submit, consume_written}
use uring_proactor.Buffer.Stream.Consume.{consume_written_lem}
use uring_proactor.Buffer.Stream.Invariant.{send_bytes, IsStream, send_list-first}
use uring_proactor.Buffer.Stream.Submit.{submit_lem}
use uring_proactor.Buffer.WriteBuf.{Writer, append, prepend}
use uring_proactor.Buffer.WriteBuf.Append.{Framed, append_lem}
use uring_proactor.Buffer.WriteBuf.Invariant.{pending_list, send_list, pending_bytes, IsWriter}
use uring_proactor.Buffer.WriteBuf.Prepend.{prepend_lem}
use uring_proactor.Net.StreamBuffer.Keeps.{appended, queued_appended, submitted-IsStream}

-- What a call that returns true leaves.
abbrev Puts : (ℕ → ℕ) → Writer → Writer → List ℕ → Type 0
Puts others s r bytes = Framed others s r × (pending_bytes r ≡ bytes)

module _ {others : ℕ → ℕ} {s r : Writer} (w : IsWriter others s) where
  append_true :
      (bytes : List ℕ)
      → append bytes s ≡ some (true, r)
      → Puts others s r (pending_bytes s ++ bytes)
  append_true bytes e = elim (append_lem w bytes) [
    | inl (r', q, f, b) ↦
        subst (λ (x : Writer). Puts others s x (pending_bytes s ++ bytes)) (cc (e, q)) (f, b)
    | inr (r', q, _, _, _) ↦ cc (e, q)
  ]

  prepend_true :
      (bytes : List ℕ)
      → length bytes ≤ 2 ^ 31
      → prepend bytes s ≡ (true, r)
      → Puts others s r (bytes ++ pending_bytes s)
  prepend_true bytes short e = elim (prepend_lem w bytes (omega arith)) [
    | inl (_, inl (r', q, _, _, _, f, b)) ↦
        subst (λ (x : Writer). Puts others s x (bytes ++ pending_bytes s)) (cc (e, q)) (f, b)
    | inl (_, inr (r', q, _, _, _, _)) ↦ cc (e, q)
    | inr (wraps, _, _) ↦ absurd (omega (arith, block_small))
  ]
    where
      block_small : s.pool.buf_size ≤ 2 ^ 31
      block_small = omega (
        arith,
        block_in w.waiting.pool 0 (capacity_pos w.waiting.pool.capacity),
        w.waiting.pool.allocated,
      )

module _ {others : ℕ → ℕ} {s : Stream} (i : IsStream others s) where
  offset-le : s.offset ≤ length (contents s.pool (send_list s.base))
  offset-le = elim (ℕ_discrete (size u64_mod s.send) 0) [
    | yes none_sent ↦ omega (arith, i.idle none_sent)
    | no ne ↦ omega (
      arith,
      i.within (omega arith),
      ap (λ xs. length (contents s.pool xs)) (send_list-first i (omega arith)),
      length-append {0},
      length-rows,
    )
  ]

  abbrev Submitted : Stream → Type 0
  Submitted t =
      IsStream others t
      × (pending_list t.base ≡ [])
      × (send_bytes t ≡ send_bytes s ++ pending_bytes s.base)

  -- Where `submit` returns true, what waited is behind what was to be written.
  submit_true : {t : Stream} → submit s ≡ (true, t) → Submitted t
  unfolding submit
  submit_true {t} h = elim (submit_lem s.base i.writer) [
    | inl (_, e) ↦ absurd (ground (arith, ap (λ (o : Bool × Stream). o.0) (sym (state e) ∙ h)))
    | inr (r, e, w, sends, waits, pool) ↦
        subst Submitted (ap (λ (o : Bool × Stream). o.1) (sym (state e) ∙ h)) (
          submitted-IsStream i e w sends pool,
          waits,
          ap (drop s.offset) (
                ap₂ contents pool sends
                ∙ contents-append s.pool (send_list s.base) (pending_list s.base))
              ∙ drop-append s.offset (contents s.pool (send_list s.base)) (pending_bytes s.base)
                  offset-le,
        )
  ]
    where
      state :
          {b : Bool} {r : Writer}
          → submit_blocks s.base ≡ (b, r)
          → submit s ≡ (b, record s { base = r })
      state e = ap (λ (o : Bool × Writer). (o.0, record s { base = o.1 })) e

-- Where `append` of a body, `prepend` of a header and `submit` return true on a sound stream, and
-- the header has at most 2 ^ 31 bytes, what is to be written is what was to be written before, then
-- the header, the bytes that waited before, and the body, and nothing waits. When the kernel has
-- written any number of these bytes the stream is sound and the rest is to be written.
pub message_lem :
    {others : ℕ → ℕ} (s : Stream) (header body : List ℕ) (a p : Writer) (t : Stream) (n : ℕ)
    → IsStream others s
    → length header ≤ 2 ^ 31
    → append body s.base ≡ some (true, a)
    → prepend header a ≡ (true, p)
    → submit (record s { base = p }) ≡ (true, t)
    → n ≤ length (send_bytes t)
    → (send_bytes t ≡ send_bytes s ++ (header ++ (pending_bytes s.base ++ body)))
      × (pending_list t.base ≡ [])
      × ((r : Stream) × (consume_written n t ≡ some r)
          × IsStream others r
          × (send_bytes r ≡ drop n (send_bytes s ++ (header ++ (pending_bytes s.base ++ body)))))
message_lem s header body a p t n i short appends prepends submits written =
    let (f, behind) = append_true i.writer body appends in
    let j = appended i f in
    let (g, before) = prepend_true j.writer header short prepends in
    let k = appended j g in
    let (sound, none_waits, sent) = submit_true k submits in
    let all =
      sent
      ∙ ap₂ ◌++◌ (queued_appended j g ∙ queued_appended i f) (before ∙ ap (◌++◌ header) behind) in
    let (r, e, c) = consume_written_lem n t sound written in
    (all, none_waits, (r, e, c.sound, c.left ∙ ap (drop n) all))
