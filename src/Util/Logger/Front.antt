-- ===== src/Util/Logger/Front.antt =====
-- The buffer that a thread fills: what a change of it leaves alone, and the bytes of a call put
-- behind the others.
use uring_proactor.Base.{
  if◌then◌else◌, length, update, ℕ, ◌+◌, ◌-◌, ◌≤◌, ◌≡◌, refl, sym, ap, ap₂, subst, ◌∙◌, ◌≢◌, false,
  List, ◌++◌, append_assoc, arith, update_apart, update_self,
}
use native.Mathlib.Decide.{ℕ_discrete}
use uring_proactor.Util.Logger.{
  FlushQueue, buffer_size, LoggerBuffer, absent, active, Logger, buf_of, put_bytes, edit, front_buf,
  back_buf,
}
use uring_proactor.Util.Logger.Invariant.{
  text, text-put_bytes, IsActive, IsLogger, to_write, front_text, Logged, front_text-active,
  to_write-edit, IsActive-ext, front_text-ext,
}

module _ {Q : Type 0} (queue : FlushQueue Q) where
  abbrev pub front_of : ℕ → Logger Q → LoggerBuffer
  front_of t s = s.bufs (front_buf queue t s)

  -- The front buffer of a thread is none of another thread's.
  pub apart : (t u i j : ℕ) → u ≢ t → i ≤ 1 → j ≤ 1 → buf_of u i ≢ buf_of t j
  apart t u i j ne hi hj e = ne (omega arith)

  module _ {t : ℕ} {s : Logger Q} (i : IsLogger queue s) (on : (s.threads t).phase ≡ active) where
    pub index_t : (s.threads t).write_idx ≤ 1
    index_t = (i.fills t on).index

    pub ne_phase : (u : ℕ) → (s.threads u).phase ≡ absent → u ≢ t
    ne_phase u gone e = absurd (ground (arith, on, gone, ap (λ k. (s.threads k).phase) e))

    -- A change of the front buffer that leaves it fit to be front_text.
    pub edit-IsLogger :
        (f : LoggerBuffer → LoggerBuffer)
        → (f (front_of t s)).in_flight ≡ false
        → (f (front_of t s)).current_size ≤ buffer_size
        → IsLogger queue (edit queue (front_buf queue t s) f s)
    edit-IsLogger f still small = record {
      once = λ a. i.once a ∙ ap (λ x. if x then 1 else 0) (same_flag a);
      fills = λ u h. elim (ℕ_discrete u t) [
        | yes e ↦ subst (λ k. IsActive queue k (edit queue (front_buf queue t s) f s)) (sym e) own
        | no ne ↦
            IsActive-ext queue u refl (kept_buf u (s.threads u).write_idx ne (i.fills u h).index)
              (kept_buf u (1 - (s.threads u).write_idx) ne (omega arith)) (i.fills u h)
      ];
      gone = λ u h. (
        ap (λ b. b.in_flight) (kept_buf u 0 (ne_phase u h) (omega arith)) ∙ (i.gone u h).0,
        ap (λ b. b.in_flight) (kept_buf u 1 (ne_phase u h) (omega arith)) ∙ (i.gone u h).1,
      );
    }
      where
        bufs' : ℕ → LoggerBuffer
        bufs' = update s.bufs (front_buf queue t s) (f (front_of t s))

        kept_buf : (u j : ℕ) → u ≢ t → j ≤ 1 → bufs' (buf_of u j) ≡ s.bufs (buf_of u j)
        kept_buf u j ne h =
            update_apart s.bufs (front_buf queue t s) (buf_of u j) (f (front_of t s))
              (apart t u j (s.threads t).write_idx ne h index_t)

        now : bufs' (front_buf queue t s) ≡ f (front_of t s)
        now = update_self s.bufs (front_buf queue t s) (f (front_of t s))

        back : bufs' (back_buf queue t s) ≡ s.bufs (back_buf queue t s)
        back =
            update_apart s.bufs (front_buf queue t s) (back_buf queue t s) (f (front_of t s))
              (λ e. absurd (omega (arith, index_t, e)))

        same_flag : (a : ℕ) → (s.bufs a).in_flight ≡ (bufs' a).in_flight
        same_flag a = elim (ℕ_discrete a (front_buf queue t s)) [
          | yes e ↦
              ap (λ k. (s.bufs k).in_flight) e
              ∙ (i.fills t on).filling
              ∙ sym still
              ∙ sym (ap (λ b. b.in_flight) (ap bufs' e ∙ now))
          | no ne ↦
              ap (λ b. b.in_flight)
                (sym (update_apart s.bufs (front_buf queue t s) a (f (front_of t s)) ne))
        ]

        own : IsActive queue t (edit queue (front_buf queue t s) f s)
        own = record {
          index = index_t;
          filling = ap (λ b. b.in_flight) now ∙ still;
          within = omega (arith, ap (λ b. b.current_size) now);
          clean = λ h.
              ap (λ b. b.current_size) back
              ∙ (i.fills t on).clean (sym (ap (λ b. b.in_flight) back) ∙ h);
        }

    pub edit-front_text :
        (f : LoggerBuffer → LoggerBuffer) (u : ℕ)
        → u ≢ t
        → front_text queue u (edit queue (front_buf queue t s) f s) ≡ front_text queue u s
    edit-front_text f u ne =
        front_text-ext queue s (edit queue (front_buf queue t s) f s) u refl (λ h.
          update_apart s.bufs (front_buf queue t s) (front_buf queue u s) (f (front_of t s)) (
            apart t u (s.threads u).write_idx (s.threads t).write_idx ne (i.fills u h).index
              index_t))

    -- The bytes of a call where they have room.
    pub put_front-Logged :
        (bytes : List ℕ)
        → (front_of t s).current_size + length bytes ≤ buffer_size
        → Logged queue t bytes s (edit queue (front_buf queue t s) (put_bytes bytes) s)
    put_front-Logged bytes fits = record {
      sound = edit-IsLogger (put_bytes bytes) (i.fills t on).filling (omega arith);
      kept =
          ap₂ ◌++◌
            (to_write-edit queue i (front_buf queue t s) (put_bytes bytes) (i.fills t on).filling)
            (front_text-active queue t (edit queue (front_buf queue t s) (put_bytes bytes) s) on
              ∙ ap text (update_self s.bufs (front_buf queue t s) (put_bytes bytes (front_of t s)))
              ∙ text-put_bytes bytes (front_of t s) fits
              ∙ ap (λ xs. xs ++ bytes) (sym (front_text-active queue t s on)))
          ∙ sym (append_assoc (to_write queue s) (front_text queue t s) bytes);
      others = λ u ne. edit-front_text (put_bytes bytes) u ne;
    }
