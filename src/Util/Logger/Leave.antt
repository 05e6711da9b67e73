-- ===== src/Util/Logger/Leave.antt =====
-- The end of a thread's use of the logger (`~ThreadFlushGuard`), and a change of the log file.
use uring_proactor.Base.{
  ◌==◌, if◌then◌else◌, Bool-cases, rows, count, ℕ, ◌≡◌, refl, sym, ap, ap₂, subst, ◌∙◌, ◌≢◌, ◌⊎◌,
  inl, inr, Bool, true, false, ◌||◌, Option, none, some, List, [], ◌++◌, append-nil, arith,
  update_apart, update_self,
}
use native.Mathlib.Decide.{ℕ_discrete}
use uring_proactor.Util.Logger.{
  FlushQueue, Phase, absent, active, leaving, ThreadState, Logger, buf_of, set_in_flight, front_buf,
  back_buf, flush_front, close_log, switch_log_file_date, set_phase, leave_thread, delete_thread,
}
use uring_proactor.Util.Logger.Flush.{
  entered, entries-done, entries-refused, flush_front-done, refused_state, flush_front-refused,
  refused-Logged,
}
use uring_proactor.Util.Logger.Invariant.{
  texts, IsLogger, to_write, front_text, front_text-active, to_write-edit, IsActive-ext,
  front_text-ext,
}
use uring_proactor.Util.Logger.Swap.{handed-IsLogger, to_write-handed, handed-front_text}

module _ {Q : Type 0} (queue : FlushQueue Q) where
  module _ (t : ℕ) {s : Logger Q} (i : IsLogger queue s) where
    phase_of :
        (p : Phase) (u : ℕ)
        → u ≢ t
        → {p' : Phase} → ((set_phase queue t p s).threads u).phase ≡ p'
        → (s.threads u).phase ≡ p'
    phase_of p u ne h =
        sym (ap (λ x. x.phase) (update_apart s.threads t u (record (s.threads t) { phase = p }) ne))
        ∙ h

    phase_t : (p : Phase) → ((set_phase queue t p s).threads t).phase ≡ p
    phase_t p = ap (λ x. x.phase) (update_self s.threads t (record (s.threads t) { phase = p }))

    -- A thread that stops to log, and may be forgotten where its buffers are not in flight.
    set_phase-IsLogger :
        (p : Phase)
        → p ≢ active
        → (p ≡ absent
            → ((s.bufs (buf_of t 0)).in_flight ≡ false) × ((s.bufs (buf_of t 1)).in_flight ≡ false))
        → IsLogger queue (set_phase queue t p s)
    set_phase-IsLogger p stops free = record {
      once = i.once;
      fills = λ u h. elim (ℕ_discrete u t) [
        | yes e ↦ absurd (
            stops
              (sym (phase_t p) ∙ ap (λ k. ((set_phase queue t p s).threads k).phase) (sym e) ∙ h))
        | no ne ↦
            IsActive-ext queue u
              (update_apart s.threads t u (record (s.threads t) { phase = p }) ne) refl refl
              (i.fills u (phase_of p u ne h))
      ];
      gone = λ u h. elim (ℕ_discrete u t) [
        | yes e ↦
            subst
              (λ k.
                ((s.bufs (buf_of k 0)).in_flight ≡ false)
                × ((s.bufs (buf_of k 1)).in_flight ≡ false))
              (sym e)
              (free
                (sym (phase_t p) ∙ ap (λ k. ((set_phase queue t p s).threads k).phase) (sym e) ∙ h))
        | no ne ↦ i.gone u (phase_of p u ne h)
      ];
    }

    set_phase-front_text :
        (p : Phase) (u : ℕ)
        → u ≢ t
        → front_text queue u (set_phase queue t p s) ≡ front_text queue u s
    set_phase-front_text p u ne =
        front_text-ext queue s (set_phase queue t p s) u
          (update_apart s.threads t u (record (s.threads t) { phase = p }) ne) (λ h. refl)

  -- The thread has left with `passed` bytes in the queue; it keeps none.
  pub record Left (t : ℕ) (passed : List ℕ) (s r : Logger Q) : Type 0 where
    pub sound : IsLogger queue r
    pub order : to_write queue r ≡ to_write queue s ++ passed
    pub ended : (r.threads t).phase ≡ leaving
    pub others : (u : ℕ) → u ≢ t → front_text queue u r ≡ front_text queue u s

  module _ {t : ℕ} {s : Logger Q} (i : IsLogger queue s) (on : (s.threads t).phase ≡ active) where
    -- Without a hand over.
    kept_back :
        {r : Logger Q}
        → IsLogger queue r
        → to_write queue r ≡ to_write queue s
        → ((u : ℕ) → u ≢ t → front_text queue u r ≡ front_text queue u s)
        → Left t [] s (set_phase queue t leaving r)
    kept_back j same others = record {
      sound = set_phase-IsLogger t j leaving (λ e. ground arith) (λ e. absurd (ground arith));
      order = same ∙ sym (append-nil (to_write queue s));
      ended = phase_t t j leaving;
      others = λ u ne. set_phase-front_text t j leaving u ne ∙ others u ne;
    }

    given :
        (queue.enqueue (front_buf queue t s) s.flush_queue).0 ≡ true
        → Left t (front_text queue t s) s (set_phase queue t leaving (flush_front queue t s).1)
    given done = rw (flush_front-done queue t s done) (record {
      sound =
          handed-IsLogger queue i on (entered queue t s) gone_thread (entries-done queue t s done)
            (λ e. ground (arith, e)) (λ e. absurd (ground (arith, e)));
      order =
          to_write-handed queue i on (entered queue t s) gone_thread (entries-done queue t s done);
      ended = ap (λ x. x.phase) (update_self s.threads t gone_thread);
      others = λ u ne.
          handed-front_text queue i on (entered queue t s) gone_thread (entries-done queue t s done)
            u ne;
    })
      where
        gone_thread : ThreadState
        gone_thread = record (s.threads t) { phase = leaving }

    not_given :
        (queue.enqueue (front_buf queue t s) s.flush_queue).0 ≡ false
        → Left t [] s (set_phase queue t leaving (flush_front queue t s).1)
    not_given refused = rw (flush_front-refused queue t s refused) (
        kept_back (refused-Logged queue i on refused).sound
          (ap (texts (refused_state queue t s).bufs) (entries-refused queue t s refused)
            ∙ to_write-edit queue i (front_buf queue t s) (set_in_flight false)
                (i.fills t on).filling)
          (refused-Logged queue i on refused).others)

  leave_thread-active :
      (t : ℕ) (s : Logger Q)
      → (s.threads t).phase ≡ active
      → leave_thread queue t s ≡ (
          if (s.bufs (front_buf queue t s)).current_size == 0
            || (s.bufs (back_buf queue t s)).in_flight
          then set_phase queue t leaving s
          else set_phase queue t leaving (flush_front queue t s).1)
  unfolding leave_thread
  leave_thread-active t s on = rw (on, leave_thread) refl

  pub leave_thread_lem :
      (t : ℕ) (s : Logger Q)
      → IsLogger queue s
      → (s.threads t).phase ≡ active
      → Left t (front_text queue t s) s (leave_thread queue t s)
        ⊎ (Left t [] s (leave_thread queue t s)
            × ((s.bufs (front_buf queue t s)).current_size ≢ 0)
            × (((s.bufs (back_buf queue t s)).in_flight ≡ true)
                ⊎ ((queue.enqueue (front_buf queue t s) s.flush_queue).0 ≡ false)))
  leave_thread_lem t s i on = elim (ℕ_discrete (s.bufs (front_buf queue t s)).current_size 0) [
    | yes nothing ↦ inl (
        subst (λ xs. Left t xs s (leave_thread queue t s))
          (sym (
            front_text-active queue t s on
            ∙ ap (rows (s.bufs (front_buf queue t s)).buffer 0) nothing))
          (subst (Left t [] s) (sym (leaves s on true (ground arith)))
            (kept_back i on i refl (λ u ne. refl))))
    | no some_text ↦ elim (Bool-cases (s.bufs (back_buf queue t s)).in_flight) [
      | inl flying ↦ inr (
        subst (Left t [] s) (sym (leaves s on true (ground arith)))
            (kept_back i on i refl (λ u ne. refl)),
        some_text,
        inl flying,
      )
      | inr free ↦ elim (Bool-cases (queue.enqueue (front_buf queue t s) s.flush_queue).0) [
        | inl done ↦ inl (
            subst (Left t (front_text queue t s) s) (sym (leaves s on false (ground arith)))
              (given i on done))
        | inr refused ↦ inr (
          subst (Left t [] s) (sym (leaves s on false (ground arith))) (not_given i on refused),
          some_text,
          inr refused,
        )
      ]
    ]
  ]
    where
      leaves :
          (s : Logger Q)
          → (s.threads t).phase ≡ active
          → (stay : Bool)
          → ((s.bufs (front_buf queue t s)).current_size == 0
              || (s.bufs (back_buf queue t s)).in_flight)
            ≡ stay
          → leave_thread queue t s ≡ (
              if stay
              then set_phase queue t leaving s
              else set_phase queue t leaving (flush_front queue t s).1)
      leaves s on stay e =
          leave_thread-active t s on
          ∙ ap
              (λ b.
                if b
                then set_phase queue t leaving s
                else set_phase queue t leaving (flush_front queue t s).1)
              e

  -- A thread is forgotten where none of its buffers is in flight; else nothing changes.
  pub delete_thread-IsLogger :
      (t : ℕ) (s : Logger Q) → IsLogger queue s → IsLogger queue (delete_thread queue t s)
  unfolding delete_thread
  delete_thread-IsLogger t s i = by_phase (s.threads t).phase refl
    where
      no_flag : (x y : Bool) → (x || y) ≡ false → (x ≡ false) × (y ≡ false)
      no_flag x y e = (ground arith, ground arith)

      by_flags :
          (wait : Bool)
          → ((s.bufs (buf_of t 0)).in_flight || (s.bufs (buf_of t 1)).in_flight) ≡ wait
          → IsLogger queue (if wait then s else set_phase queue t absent s)
      by_flags true e = i
      by_flags false e =
          set_phase-IsLogger t i absent (λ q. ground arith)
            (λ q. no_flag (s.bufs (buf_of t 0)).in_flight (s.bufs (buf_of t 1)).in_flight e)

      by_phase : (p : Phase) → (s.threads t).phase ≡ p → IsLogger queue (delete_thread queue t s)
      by_phase absent e = rw (e, delete_thread) i
      by_phase active e = rw (e, delete_thread) i
      by_phase leaving e = rw (e, delete_thread) (by_flags _ refl)

  -- The file, the offset and the calls say nothing of the buffers.
  files-IsLogger :
      (r s : Logger Q)
      → r.threads ≡ s.threads
      → r.bufs ≡ s.bufs
      → r.writes ≡ s.writes
      → r.flush_queue ≡ s.flush_queue
      → IsLogger queue s
      → IsLogger queue r
  files-IsLogger r s threads bufs writes entries i = record {
    once = λ k.
        ap₂ (λ xs q. count k (xs ++ queue.entries q)) writes entries
        ∙ i.once k
        ∙ ap (λ f. if (f k).in_flight then 1 else 0) (sym bufs);
    fills = λ u h.
        IsActive-ext queue u (ap (λ f. f u) threads) (ap (λ f. f (front_buf queue u s)) bufs)
          (ap (λ f. f (back_buf queue u s)) bufs)
          (i.fills u (sym (ap (λ f. (f u).phase) threads) ∙ h));
    gone = λ u h. (
      ap (λ f. (f (buf_of u 0)).in_flight) bufs
          ∙ (i.gone u (sym (ap (λ f. (f u).phase) threads) ∙ h)).0,
      ap (λ f. (f (buf_of u 1)).in_flight) bufs
          ∙ (i.gone u (sym (ap (λ f. (f u).phase) threads) ∙ h)).1,
    );
  }

  close_log-IsLogger :
      (s : Logger Q) (o : Option ℕ)
      → s.fd ≡ o
      → IsLogger queue s
      → IsLogger queue (close_log queue s)
  unfolding close_log
  close_log-IsLogger s none e i = rw (e, close_log) i
  close_log-IsLogger s (some f) e i = rw (e, close_log) (files-IsLogger _ s refl refl refl refl i)

  -- A change of the file leaves the buffers alone.
  pub switch-IsLogger :
      (opened st_size : Option ℕ) (s : Logger Q)
      → IsLogger queue s
      → IsLogger queue (switch_log_file_date queue opened st_size s).1
  unfolding switch_log_file_date close_log
  switch-IsLogger none st_size s i =
      files-IsLogger _ (close_log queue s) refl refl refl refl (close_log-IsLogger s s.fd refl i)
  switch-IsLogger (some f) none s i =
      files-IsLogger _ (close_log queue s) refl refl refl refl (close_log-IsLogger s s.fd refl i)
  switch-IsLogger (some f) (some n) s i =
      files-IsLogger _ (close_log queue s) refl refl refl refl (close_log-IsLogger s s.fd refl i)
