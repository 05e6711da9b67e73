-- ===== src/Net/StreamBuffer.antt =====
-- WriteBufStream keeps what the write loop relies on, on sound streams whose pool has the other
-- holders `others`.
pub mod Keeps
pub mod Message
use uring_proactor.Base.{
  ◌==◌, u32_mod, u64_mod, length, ℕ, ◌%◌, ◌^◌, ◌≤◌, ◌<◌, ◌≡◌, refl, sym, ap, ◌⊎◌, inl, inr, Bool,
  true, false, not, Option, none, some, List, arith,
}
use uring_proactor.Base.Ring.Laws.{length-items}
use uring_proactor.Buffer.Stream.{
  Stream, submit, has_send_data, Iovec, peek_iovec, consume_written, reset,
}
use uring_proactor.Buffer.Stream.Invariant.{send_bytes, IsStream}
use uring_proactor.Buffer.WriteBuf.{append, prepend}
use uring_proactor.Base.Ring.{size}
use native.Mathlib.Decide.{dec_le, dec_lt}
use uring_proactor.Buffer.Stream.Consume.{Consumed, consume_written_lem}
use uring_proactor.Buffer.Stream.Reset.{reset_lem}
use uring_proactor.Buffer.Stream.Gather.{vec_bytes, peek_iovec_lem}
use uring_proactor.Net.SendBuffer.{SendBuffer}
use uring_proactor.Net.StreamBuffer.Keeps.{
  Sound, Submits, append_sound, prepend_sound, appended, has_none, no_data, queued_appended,
  some_data, submit_sound,
}

-- The write buffer of a channel. A value is a sound stream; its operations are those of the stream.
module _ (others : ℕ → ℕ) where
  stream_append : List ℕ → Sound others → Bool × Sound others
  stream_append bytes (s, i) =
      let (ok, r, e, f) = append_sound bytes s i in (ok, (record s { base = r }, appended i f))

  prepend_as :
      (bytes : List ℕ) (w : Sound others) → Dec (length bytes < 2 ^ 32) → Bool × Sound others
  prepend_as bytes (s, i) (yes h) =
      let (ok, r, e, f) = prepend_sound bytes s i h in (ok, (record s { base = r }, appended i f))
  prepend_as bytes w (no _) = (false, w)

  -- `size` of `prepend` is an `unsigned int`: there is no call with more bytes.
  stream_prepend : List ℕ → Sound others → Bool × Sound others
  stream_prepend bytes w = prepend_as bytes w (dec_lt (length bytes) (2 ^ 32))

  submit_as : {s : Stream} → IsStream others s → Submits others s → Bool × Sound others
  submit_as {s} i (inl _) = (false, (s, i))
  submit_as {s} i (inr (_, _, _, j)) = (true, ((submit s).1, j))

  stream_submit : Sound others → Bool × Sound others
  stream_submit (s, i) = submit_as i (submit_sound s i)

  abbrev Writes : ℕ → Stream → Type 0
  Writes n s = (r : Stream) × (consume_written n s ≡ some r) × Consumed others s n r

  written_as :
      {n : ℕ} {s : Stream}
      → Dec (n ≤ length (send_bytes s))
      → (n ≤ length (send_bytes s) → Writes n s)
      → Option (Sound others)
  written_as (no _) f = none
  written_as (yes h) f = some ((f h).0, (f h).2.sound)

  stream_written : ℕ → Sound others → Option (Sound others)
  stream_written n (s, i) =
      written_as (dec_le n (length (send_bytes s))) (consume_written_lem n s i)

  abbrev stream_reset : Sound others → Sound others
  stream_reset (s, i) = (reset s, (reset_lem s i).0)

  -- The operations are those of the stream, and keep what the write loop relies on.
  pub stream_buffer : SendBuffer (Sound others)
  unfolding stream_append stream_prepend prepend_as stream_submit submit_as stream_written
      written_as
  stream_buffer = record {
    append = stream_append;
    prepend = stream_prepend;
    submit = stream_submit;
    has_send_data = λ w. has_send_data w.0;
    peek_iovec = λ w. peek_iovec w.0;
    consume_written = stream_written;
    reset = stream_reset;
    queued = λ w. length (send_bytes w.0);
    has-append = λ bytes w. has-append bytes w.0 w.1;
    queued-append = λ bytes w. ap length (queued_appended w.1 (append_sound bytes w.0 w.1).3);
    has-prepend = λ bytes w. has-prepend bytes w.0 w.1 (dec_lt (length bytes) (2 ^ 32));
    queued-prepend = λ bytes w. queued-prepend bytes w.0 w.1 (dec_lt (length bytes) (2 ^ 32));
    has-submit = λ w. has-submit w.0 w.1 (submit_sound w.0 w.1);
    queued-submit = λ w. queued-submit w.0 w.1 (submit_sound w.0 w.1);
    refused-submit = λ w. refused-submit w.0 w.1 (submit_sound w.0 w.1);
    peek-none = λ w e. peek-none w.0 w.1 e (peek_iovec_lem w.0 w.1);
    peek-some = λ w e. peek-some w.0 w.1 e (peek_iovec_lem w.0 w.1);
    written = λ w n h. written w.0 w.1 n h (dec_le n (length (send_bytes w.0)));
    has-reset = λ w. has-reset w.0 w.1;
  }
    where
      has-append :
          (bytes : List ℕ) (s : Stream) (i : IsStream others s)
          → has_send_data (stream_append bytes (s, i)).1.0 ≡ has_send_data s
      has-append bytes s i = ap (λ r. not (r.head == r.tail)) (append_sound bytes s i).3.same_send

      has-prepend :
          (bytes : List ℕ) (s : Stream) (i : IsStream others s) (d : Dec (length bytes < 2 ^ 32))
          → has_send_data (prepend_as bytes (s, i) d).1.0 ≡ has_send_data s
      has-prepend bytes s i (yes h) =
          ap (λ r. not (r.head == r.tail)) (prepend_sound bytes s i h).3.same_send
      has-prepend bytes s i (no _) = refl

      queued-prepend :
          (bytes : List ℕ) (s : Stream) (i : IsStream others s) (d : Dec (length bytes < 2 ^ 32))
          → length (send_bytes (prepend_as bytes (s, i) d).1.0) ≡ length (send_bytes s)
      queued-prepend bytes s i (yes h) = ap length (queued_appended i (prepend_sound bytes s i h).3)
      queued-prepend bytes s i (no _) = refl

      has-submit :
          (s : Stream) (i : IsStream others s) (o : Submits others s)
          → (submit_as i o).0 ≡ true
          → has_send_data (submit_as i o).1.0 ≡ true
      has-submit s i (inl _) e = absurd (ground arith)
      has-submit s i (inr (_, h, _, _)) e = h

      queued-submit :
          (s : Stream) (i : IsStream others s) (o : Submits others s)
          → length (send_bytes s) ≤ length (send_bytes (submit_as i o).1.0)
      queued-submit s i (inl _) = omega arith
      queued-submit s i (inr (_, _, h, _)) = h

      refused-submit :
          (s : Stream) (i : IsStream others s) (o : Submits others s)
          → (submit_as i o).0 ≡ false
          → (submit_as i o).1 ≡ (s, i)
      refused-submit s i (inl _) e = refl
      refused-submit s i (inr _) e = absurd (ground arith)

      peek-none :
          (s : Stream) (i : IsStream others s)
          → has_send_data s ≡ false
          → ((size u64_mod s.send ≡ 0) × (peek_iovec s ≡ none))
            ⊎ ((0 < size u64_mod s.send)
                × ((vecs : List Iovec) × (peek_iovec s
                      ≡ some (vecs, length (send_bytes s) % u32_mod))
                    × (vec_bytes s.pool.bufs vecs ≡ send_bytes s)))
          → peek_iovec s ≡ none
      peek-none s i e (inl (_, q)) = q
      peek-none s i e (inr (h, _)) = absurd (omega (arith, no_data i e))

      peek-some :
          (s : Stream) (i : IsStream others s)
          → has_send_data s ≡ true
          → ((size u64_mod s.send ≡ 0) × (peek_iovec s ≡ none))
            ⊎ ((0 < size u64_mod s.send)
                × ((vecs : List Iovec) × (peek_iovec s
                      ≡ some (vecs, length (send_bytes s) % u32_mod))
                    × (vec_bytes s.pool.bufs vecs ≡ send_bytes s)))
          → (vecs : List Iovec) × (bytes : ℕ) × (peek_iovec s ≡ some (vecs, bytes))
            × (bytes ≤ length (send_bytes s))
      peek-some s i e (inl (h, _)) = absurd (omega (arith, some_data i e))
      peek-some s i e (inr (_, (vecs, q, _))) =
          (vecs, length (send_bytes s) % u32_mod, q, omega arith)

      written :
          (s : Stream) (i : IsStream others s) (n : ℕ)
          → n ≤ length (send_bytes s)
          → (d : Dec (n ≤ length (send_bytes s)))
          → (r : Sound others) × (written_as d (consume_written_lem n s i) ≡ some r)
      written s i n h (yes le) = (_, refl)
      written s i n h (no more) = absurd (more h)

      has-reset : (s : Stream) (i : IsStream others s) → has_send_data (reset s) ≡ false
      has-reset s i = has_none (reset_lem s i).0 (
          omega (
            arith,
            ap length (reset_lem s i).2,
            length-items (reset_lem s i).0.writer.waiting.capacity 64 (omega arith) (reset s).send,
          ))

  submit_as-submit :
      {s : Stream} (i : IsStream others s) (o : Submits others s)
      → ((submit_as i o).0 ≡ (submit s).0) × ((submit_as i o).1.0 ≡ (submit s).1)
  unfolding submit_as
  submit_as-submit i (inl (a, b)) = (sym a, sym b)
  submit_as-submit i (inr (a, _, _, _)) = (sym a, refl)

  written_as-written :
      {n : ℕ} {s : Stream} (d : Dec (n ≤ length (send_bytes s)))
      (f : n ≤ length (send_bytes s) → Writes n s)
      → n ≤ length (send_bytes s)
      → (r : Sound others) × (written_as d f ≡ some r) × (consume_written n s ≡ some r.0)
  unfolding written_as
  written_as-written (yes h) f le = (_, refl, (f h).1)
  written_as-written (no more) f le = absurd (more le)

  prepend_as-prepend :
      (bytes : List ℕ) (w : Sound others) (d : Dec (length bytes < 2 ^ 32))
      → length bytes < 2 ^ 32
      → prepend bytes w.0.base ≡ ((prepend_as bytes w d).0, (prepend_as bytes w d).1.0.base)
  unfolding prepend_as
  prepend_as-prepend bytes (s, i) (yes h) le = (prepend_sound bytes s i h).2
  prepend_as-prepend bytes w (no more) le = absurd (more le)

  -- What the write buffer of a channel does is what the code of the stream does: the same results,
  -- and the same states, where `prepend` gets fewer than 2 ^ 32 bytes and no more bytes are reported
  -- written than are queued.
  stream_buffer_lem :
      (bytes front_bytes : List ℕ) (n : ℕ) (w : Sound others)
      → length front_bytes < 2 ^ 32
      → n ≤ length (send_bytes w.0)
      → (append bytes w.0.base
          ≡ some ((stream_buffer.append bytes w).0, (stream_buffer.append bytes w).1.0.base))
        × (prepend front_bytes w.0.base ≡ (
          (stream_buffer.prepend front_bytes w).0,
          (stream_buffer.prepend front_bytes w).1.0.base,
        ))
        × ((stream_buffer.submit w).0 ≡ (submit w.0).0)
        × ((stream_buffer.submit w).1.0 ≡ (submit w.0).1)
        × ((stream_buffer.reset w).0 ≡ reset w.0)
        × ((r : Sound others) × (stream_buffer.consume_written n w ≡ some r)
            × (consume_written n w.0 ≡ some r.0))
  unfolding stream_buffer stream_append stream_prepend stream_submit stream_written
  stream_buffer_lem bytes front_bytes n w short le = (
    (append_sound bytes w.0 w.1).2,
    prepend_as-prepend front_bytes w (dec_lt (length front_bytes) (2 ^ 32)) short,
    (submit_as-submit w.1 (submit_sound w.0 w.1)).0,
    (submit_as-submit w.1 (submit_sound w.0 w.1)).1,
    refl,
    written_as-written (dec_le n (length (send_bytes w.0))) (consume_written_lem n w.0 w.1) le,
  )
