-- ===== src/Util/Logger/Swap.antt =====
-- The change of buffers: the buffer that a thread has filled goes to the queue, behind the others.
use uring_proactor.Base.{
  ◌==◌, if◌then◌else◌, update, rows, count, count-append, ℕ, ◌+◌, ◌-◌, ◌≤◌, ◌<◌, ◌≡◌, sym, ap, ap₂,
  subst, ◌∙◌, ◌≢◌, true, false, [], ◌∷◌, ◌++◌, append-nil, arith, update_apart, update_self,
}
use native.Mathlib.Decide.{ℕ_discrete}
use uring_proactor.Util.Logger.{
  FlushQueue, Phase, absent, active, ThreadState, Logger, buf_of, set_in_flight, edit, front_buf,
  back_buf,
}
use uring_proactor.Util.Logger.Front.{front_of, apart, index_t}
use uring_proactor.Util.Logger.Invariant.{
  text, texts, texts-append, texts_cong, IsActive, IsLogger, to_write, front_text, Logged,
  front_text-active, IsActive-ext, front_text-ext,
}

module _ {Q : Type 0} (queue : FlushQueue Q) {t : ℕ} {s : Logger Q} (i : IsLogger queue s)
    (on : (s.threads t).phase ≡ active) where
  -- The front buffer in flight and in the queue, and the thread in another state.
  abbrev pub handed : Q → ThreadState → Logger Q
  handed q th = record (edit queue (front_buf queue t s) (set_in_flight true) s) {
    flush_queue = q;
    semaphore = s.semaphore + 1;
    threads = update s.threads t th;
  }

  module _ (q : Q) (th : ThreadState)
      (entered : queue.entries q ≡ queue.entries s.flush_queue ++ (front_buf queue t s ∷ [])) where
    threads_t : (handed q th).threads t ≡ th
    threads_t = update_self s.threads t th

    pub threads_u : (u : ℕ) → u ≢ t → (handed q th).threads u ≡ s.threads u
    threads_u u ne = update_apart s.threads t u th ne

    pub bufs_apart : (a : ℕ) → a ≢ front_buf queue t s → (handed q th).bufs a ≡ s.bufs a
    bufs_apart a ne =
        update_apart s.bufs (front_buf queue t s) a (set_in_flight true (front_of queue t s)) ne

    pub bufs_u : (u j : ℕ) → u ≢ t → j ≤ 1 → (handed q th).bufs (buf_of u j) ≡ s.bufs (buf_of u j)
    bufs_u u j ne h =
        bufs_apart (buf_of u j)
          (apart queue t u j (s.threads t).write_idx ne h (index_t queue i on))

    flag :
        (a : ℕ)
        → ((handed q th).bufs a).in_flight
          ≡ (if a == front_buf queue t s then true else (s.bufs a).in_flight)
    flag a = ground arith

    pub handed-IsLogger :
        th.phase ≢ absent
        → (th.phase ≡ active → IsActive queue t (handed q th))
        → IsLogger queue (handed q th)
    handed-IsLogger there own = record {
      once = λ a. ground (
        arith,
        flag a,
        i.once a,
        (i.fills t on).filling,
        ap (λ k. (s.bufs k).in_flight) {x = a} {y = front_buf queue t s},
        count-append a s.writes (queue.entries q),
        count-append a s.writes (queue.entries s.flush_queue),
        count-append a (queue.entries s.flush_queue) (front_buf queue t s ∷ []),
        ap (count a) entered,
      );
      fills = λ u h. elim (ℕ_discrete u t) [
        | yes e ↦
            subst (λ k. IsActive queue k (handed q th)) (sym e)
              (own (
                sym (ap (λ x. x.phase) threads_t)
                ∙ ap (λ k. ((handed q th).threads k).phase) (sym e)
                ∙ h))
        | no ne ↦
            IsActive-ext queue u (threads_u u ne)
              (bufs_u u (s.threads u).write_idx ne (was u ne h).index)
              (bufs_u u (1 - (s.threads u).write_idx) ne (omega arith)) (was u ne h)
      ];
      gone = λ u h. elim (ℕ_discrete u t) [
        | yes e ↦ absurd (
            there (
              sym (ap (λ x. x.phase) threads_t)
              ∙ ap (λ k. ((handed q th).threads k).phase) (sym e)
              ∙ h))
        | no ne ↦ (
          ap (λ b. b.in_flight) (bufs_u u 0 ne (omega arith)) ∙ (i.gone u (phase_u u ne h)).0,
          ap (λ b. b.in_flight) (bufs_u u 1 ne (omega arith)) ∙ (i.gone u (phase_u u ne h)).1,
        )
      ];
    }
      where
        phase_u :
            {p : Phase} (u : ℕ)
            → u ≢ t
            → ((handed q th).threads u).phase ≡ p
            → (s.threads u).phase ≡ p
        phase_u u ne h = sym (ap (λ x. x.phase) (threads_u u ne)) ∙ h

        was : (u : ℕ) → u ≢ t → ((handed q th).threads u).phase ≡ active → IsActive queue u s
        was u ne h = i.fills u (phase_u u ne h)

    -- What waits to be written has the bytes of the thread behind the others.
    pub to_write-handed : to_write queue (handed q th) ≡ to_write queue s ++ front_text queue t s
    to_write-handed =
        ap (texts (handed q th).bufs) entered
        ∙ texts_cong s.bufs (handed q th).bufs
            (queue.entries s.flush_queue ++ (front_buf queue t s ∷ [])) same_text
        ∙ texts-append s.bufs (queue.entries s.flush_queue) (front_buf queue t s ∷ [])
        ∙ ap (◌++◌ (to_write queue s))
            (append-nil (text (front_of queue t s)) ∙ sym (front_text-active queue t s on))
      where
        same_text :
            (a : ℕ)
            → 0 < count a (queue.entries s.flush_queue ++ (front_buf queue t s ∷ []))
            → text ((handed q th).bufs a) ≡ text (s.bufs a)
        same_text a h = elim (ℕ_discrete a (front_buf queue t s)) [
          | yes e ↦
              ap (λ k. text ((handed q th).bufs k)) e
              ∙ ap text (
                  update_self s.bufs (front_buf queue t s)
                    (set_in_flight true (front_of queue t s)))
              ∙ ap (λ k. text (s.bufs k)) (sym e)
          | no ne ↦ ap text (bufs_apart a ne)
        ]

    pub handed-front_text :
        (u : ℕ) → u ≢ t → front_text queue u (handed q th) ≡ front_text queue u s
    handed-front_text u ne =
        front_text-ext queue s (handed q th) u (threads_u u ne)
          (λ h. bufs_u u (s.threads u).write_idx ne (i.fills u h).index)

  -- The other buffer is next, and it is empty.
  module _ (q : Q) (now : ℕ)
      (entered : queue.entries q ≡ queue.entries s.flush_queue ++ (front_buf queue t s ∷ []))
      (back_free : (s.bufs (back_buf queue t s)).in_flight ≡ false) where
    abbrev turned : ThreadState
    turned = record (s.threads t) { write_idx = 1 - (s.threads t).write_idx; last_flush_time = now }

    abbrev pub swapped : Logger Q
    swapped = handed q turned

    index : (swapped.threads t).write_idx ≡ 1 - (s.threads t).write_idx
    index = ground arith

    front : swapped.bufs (front_buf queue t swapped) ≡ s.bufs (back_buf queue t s)
    front =
        ap (λ k. swapped.bufs (buf_of t k)) index
        ∙ bufs_apart q turned entered (back_buf queue t s)
            (λ e. absurd (omega (arith, index_t queue i on, e)))

    back : swapped.bufs (back_buf queue t swapped) ≡ set_in_flight true (front_of queue t s)
    back =
        ap swapped.bufs (omega (arith, index, index_t queue i on))
        ∙ update_self s.bufs (front_buf queue t s) (set_in_flight true (front_of queue t s))

    pub swapped-IsActive : IsActive queue t swapped
    swapped-IsActive = record {
      index = omega (arith, index);
      filling = ap (λ b. b.in_flight) front ∙ back_free;
      within = omega (arith, ap (λ b. b.current_size) front, (i.fills t on).clean back_free);
      clean = λ h. absurd (ground (arith, ap (λ b. b.in_flight) back, h));
    }

    pub swapped-empty : (swapped.bufs (front_buf queue t swapped)).current_size ≡ 0
    swapped-empty = ap (λ b. b.current_size) front ∙ (i.fills t on).clean back_free

    pub swapped-active : (swapped.threads t).phase ≡ active
    swapped-active = ap (λ x. x.phase) (update_self s.threads t turned) ∙ on

    pub swapped-Logged : Logged queue t [] s swapped
    swapped-Logged = record {
      sound =
          handed-IsLogger q turned entered (λ e. absurd (ground (arith, on, e)))
            (λ e. swapped-IsActive);
      kept = ap₂ ◌++◌ (to_write-handed q turned entered) (
          front_text-active queue t swapped swapped-active
          ∙ ap (rows (swapped.bufs (front_buf queue t swapped)).buffer 0) swapped-empty);
      others = λ u ne. handed-front_text q turned entered u ne;
    }
