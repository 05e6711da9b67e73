-- ===== src/Util/Logger/Threads.antt =====
-- `append` and `log`: the bytes of a thread reach the queue and its buffers in order, and what is
-- refused takes nothing away.
use uring_proactor.Base.{
  if◌then◌else◌, update, ℕ, ◌-◌, ◌≤◌, ◌≡◌, refl, sym, ap, ap₂, subst, ◌∙◌, ◌≢◌, [], ◌++◌,
  append-nil, arith, update_apart, update_self,
}
use native.Mathlib.Decide.{ℕ_discrete}
use uring_proactor.Util.Logger.{
  FlushQueue, Phase, absent, active, ThreadState, Logger, new_buffer, buf_of, front_buf, back_buf,
  start_thread,
}
use uring_proactor.Util.Logger.Front.{front_of, apart}
use uring_proactor.Util.Logger.Invariant.{
  text, text_in, texts_cong, IsActive, IsLogger, to_write, front_text, Logged, front_text-active,
  not_queued, IsActive-ext, front_text-ext,
}

module _ {Q : Type 0} (queue : FlushQueue Q) where
  -- The first call of a thread.
  module _ {t : ℕ} {s : Logger Q} (i : IsLogger queue s) (now : ℕ)
      (fresh : (s.threads t).phase ≡ absent) where
    abbrev first_state : ThreadState
    first_state = record { phase = active; write_idx = 0; last_flush_time = now }

    abbrev pub started : Logger Q
    started = record s {
      threads = update s.threads t first_state;
      bufs = update (update s.bufs (buf_of t 0) new_buffer) (buf_of t 1) new_buffer;
    }

    pub start_thread-fresh : start_thread queue t now s ≡ started
    unfolding start_thread
    start_thread-fresh = rw (fresh, start_thread) refl

    pub thread_t : started.threads t ≡ first_state
    thread_t = update_self s.threads t first_state

    front_t : started.bufs (front_buf queue t started) ≡ new_buffer
    front_t = ap (λ th. started.bufs (buf_of t th.write_idx)) thread_t ∙ ground arith

    back_t : started.bufs (back_buf queue t started) ≡ new_buffer
    back_t = ap (λ th. started.bufs (buf_of t (1 - th.write_idx))) thread_t ∙ ground arith

    bufs_apart' : (a : ℕ) → a ≢ buf_of t 0 → a ≢ buf_of t 1 → started.bufs a ≡ s.bufs a
    bufs_apart' a ne0 ne1 =
        update_apart (update s.bufs (buf_of t 0) new_buffer) (buf_of t 1) a new_buffer ne1
        ∙ update_apart s.bufs (buf_of t 0) a new_buffer ne0

    bufs_u' : (u j : ℕ) → u ≢ t → j ≤ 1 → started.bufs (buf_of u j) ≡ s.bufs (buf_of u j)
    bufs_u' u j ne h =
        bufs_apart' (buf_of u j) (apart queue t u j 0 ne h (omega arith))
          (apart queue t u j 1 ne h (omega arith))

    same_flag : (a : ℕ) → (started.bufs a).in_flight ≡ (s.bufs a).in_flight
    same_flag a = elim (ℕ_discrete a (buf_of t 0)) [
      | yes e ↦ ground (arith, (i.gone t fresh).0, ap (λ k. (s.bufs k).in_flight) e)
      | no ne0 ↦ elim (ℕ_discrete a (buf_of t 1)) [
        | yes e ↦ ground (arith, (i.gone t fresh).1, ap (λ k. (s.bufs k).in_flight) e)
        | no ne1 ↦ ap (λ b. b.in_flight) (bufs_apart' a ne0 ne1)
      ]
    ]

    started-IsActive : IsActive queue t started
    started-IsActive = record {
      index = omega (arith, ap (λ th. th.write_idx) thread_t);
      filling = ap (λ b. b.in_flight) front_t;
      within = omega (arith, ap (λ b. b.current_size) front_t);
      clean = λ h. ap (λ b. b.current_size) back_t;
    }

    phase_u : {p : Phase} (u : ℕ) → u ≢ t → (started.threads u).phase ≡ p → (s.threads u).phase ≡ p
    phase_u u ne h = sym (ap (λ x. x.phase) (update_apart s.threads t u first_state ne)) ∙ h

    started-IsLogger : IsLogger queue started
    started-IsLogger = record {
      once = λ a. i.once a ∙ ap (λ x. if x then 1 else 0) (sym (same_flag a));
      fills = λ u h. elim (ℕ_discrete u t) [
        | yes e ↦ subst (λ k. IsActive queue k started) (sym e) started-IsActive
        | no ne ↦
            IsActive-ext queue u (update_apart s.threads t u first_state ne)
              (bufs_u' u (s.threads u).write_idx ne (i.fills u (phase_u u ne h)).index)
              (bufs_u' u (1 - (s.threads u).write_idx) ne (omega arith))
              (i.fills u (phase_u u ne h))
      ];
      gone = λ u h. elim (ℕ_discrete u t) [
        | yes e ↦
            absurd
              (ground (arith, ap (λ x. x.phase) thread_t, ap (λ k. (started.threads k).phase) e, h))
        | no ne ↦ (
          same_flag (buf_of u 0) ∙ (i.gone u (phase_u u ne h)).0,
          same_flag (buf_of u 1) ∙ (i.gone u (phase_u u ne h)).1,
        )
      ];
    }

    pub started-Logged : Logged queue t [] s started
    started-Logged = record {
      sound = started-IsLogger;
      kept =
          ap₂ ◌++◌
            (texts_cong s.bufs started.bufs (queue.entries s.flush_queue) (λ a h. ap text (
              bufs_apart' a (not_queued queue i (buf_of t 0) a (i.gone t fresh).0 h)
                (not_queued queue i (buf_of t 1) a (i.gone t fresh).1 h))))
            (front_text-active queue t started (ap (λ x. x.phase) thread_t)
              ∙ ap text front_t
              ∙ sym (ap (λ p. text_in p (front_of queue t s)) fresh))
          ∙ sym (append-nil (to_write queue s ++ front_text queue t s));
      others = λ u ne.
          front_text-ext queue s started u (update_apart s.threads t u first_state ne)
            (λ h. bufs_u' u (s.threads u).write_idx ne (i.fills u h).index);
    }
