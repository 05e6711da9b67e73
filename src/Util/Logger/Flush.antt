-- ===== src/Util/Logger/Flush.antt =====
-- A full buffer with both outcomes of `enqueue`, and where the other buffer is still in flight.
use uring_proactor.Base.{
  if◌then◌else◌, Bool-cases, count, ℕ, ◌+◌, ◌≤◌, ◌≡◌, refl, sym, ap, ap₂, ◌∙◌, inl, inr, Bool, true,
  false, not, [], ◌∷◌, ◌++◌, append-nil, arith, update_self,
}
use uring_proactor.Util.Logger.{
  FlushQueue, buffer_size, active, Logger, set_in_flight, edit, front_buf, back_buf, flush_front,
  swap,
}
use uring_proactor.Util.Logger.Front.{front_of, edit-IsLogger, edit-front_text}
use uring_proactor.Util.Logger.Invariant.{
  text, texts, IsLogger, to_write, front_text, Logged, front_text-active, to_write-edit,
  IsActive-ext,
}
use uring_proactor.Util.Logger.Swap.{swapped-empty, swapped-active, swapped-Logged}

module _ {Q : Type 0} (queue : FlushQueue Q) where
  pub Logged-refl : {t : ℕ} {s : Logger Q} → IsLogger queue s → Logged queue t [] s s
  Logged-refl {t} {s} i = record {
    sound = i;
    kept = sym (append-nil (to_write queue s ++ front_text queue t s));
    others = λ u ne. refl;
  }

  abbrev pub entered : ℕ → Logger Q → Q
  entered t s = (queue.enqueue (front_buf queue t s) s.flush_queue).1

  module _ (t : ℕ) (s : Logger Q) where
    pub entries-done :
        (queue.enqueue (front_buf queue t s) s.flush_queue).0 ≡ true
        → queue.entries (entered t s) ≡ queue.entries s.flush_queue ++ (front_buf queue t s ∷ [])
    entries-done e =
        queue.entries-enqueue (front_buf queue t s) s.flush_queue
        ∙ ap
            (λ b.
              if b
              then queue.entries s.flush_queue ++ (front_buf queue t s ∷ [])
              else queue.entries s.flush_queue)
            e

    pub entries-refused :
        (queue.enqueue (front_buf queue t s) s.flush_queue).0 ≡ false
        → queue.entries (entered t s) ≡ queue.entries s.flush_queue
    entries-refused e =
        queue.entries-enqueue (front_buf queue t s) s.flush_queue
        ∙ ap
            (λ b.
              if b
              then queue.entries s.flush_queue ++ (front_buf queue t s ∷ [])
              else queue.entries s.flush_queue)
            e

    pub flush_front-done :
        (queue.enqueue (front_buf queue t s) s.flush_queue).0 ≡ true
        → flush_front queue t s ≡ (
          true,
          record (edit queue (front_buf queue t s) (set_in_flight true) s) {
            flush_queue = entered t s;
            semaphore = s.semaphore + 1;
          },
        )
    unfolding flush_front
    flush_front-done e = rw e

    -- The state after a full queue has refused the buffer.
    abbrev pub refused_state : Logger Q
    refused_state = record (edit queue (front_buf queue t s) (set_in_flight false) s) {
      flush_queue = entered t s;
    }

    pub flush_front-refused :
        (queue.enqueue (front_buf queue t s) s.flush_queue).0 ≡ false
        → flush_front queue t s ≡ (false, refused_state)
    unfolding flush_front
    flush_front-refused e = rw e

  -- Nothing is lost by a refusal.
  pub refused-Logged :
      {t : ℕ} {s : Logger Q}
      → IsLogger queue s
      → (s.threads t).phase ≡ active
      → (queue.enqueue (front_buf queue t s) s.flush_queue).0 ≡ false
      → Logged queue t [] s (refused_state t s)
  refused-Logged {t} {s} i on refused = record {
    sound = record {
      once = λ a. ap (λ xs. count a (s.writes ++ xs)) (entries-refused t s refused) ∙ edited.once a;
      fills = λ u h. IsActive-ext queue u refl refl refl (edited.fills u h);
      gone = edited.gone;
    };
    kept =
        ap₂ ◌++◌
          (ap (texts (refused_state t s).bufs) (entries-refused t s refused)
            ∙ to_write-edit queue i (front_buf queue t s) (set_in_flight false)
                (i.fills t on).filling)
          (front_text-active queue t (refused_state t s) on
            ∙ ap text (
                update_self s.bufs (front_buf queue t s) (set_in_flight false (front_of queue t s)))
            ∙ sym (front_text-active queue t s on))
        ∙ sym (append-nil (to_write queue s ++ front_text queue t s));
    others = λ u ne. edit-front_text queue i on (set_in_flight false) u ne;
  }
    where
      edited : IsLogger queue (edit queue (front_buf queue t s) (set_in_flight false) s)
      edited = edit-IsLogger queue i on (set_in_flight false) refl (i.fills t on).within

  -- The state is good to put `n` bytes into the front buffer of thread `t`.
  pub record Ready (t n : ℕ) (full : Bool) (s : Logger Q) (o : Bool × Logger Q) : Type 0 where
    pub logged : Logged queue t [] s o.1
    pub on : (o.1.threads t).phase ≡ active
    pub room : o.0 ≡ true → (front_of queue t o.1).current_size + n ≤ buffer_size
    pub refused : o.0 ≡ false → full ≡ true

  module _ {t : ℕ} {s : Logger Q} (i : IsLogger queue s) (on : (s.threads t).phase ≡ active) (n : ℕ)
      (small : n ≤ buffer_size) (full : Bool)
      (fits : full ≡ false → (front_of queue t s).current_size + n ≤ buffer_size) where
    pub unchanged-Ready : Ready t n full s (not full, s)
    unchanged-Ready = record {
      logged = Logged-refl i;
      on = on;
      room = λ e. fits (ground arith);
      refused = λ e. ground arith;
    }

    -- `enqueue` takes the buffer.

    module _ (now : ℕ) (back_free : (s.bufs (back_buf queue t s)).in_flight ≡ false) where
      done-Ready :
          (queue.enqueue (front_buf queue t s) s.flush_queue).0 ≡ true
          → Ready t n full s (swap queue t now full s)
      unfolding swap
      done-Ready done =
          rw (back_free, flush_front-done t s done)
            (record {
              logged =
                  swapped-Logged queue i on (entered t s) now (entries-done t s done) back_free;
              on = swapped-active queue i on (entered t s) now (entries-done t s done) back_free;
              room = λ e. omega (
                arith,
                swapped-empty queue i on (entered t s) now (entries-done t s done) back_free,
              );
              refused = λ e. absurd (ground arith);
            })

      refused-Ready :
          (queue.enqueue (front_buf queue t s) s.flush_queue).0 ≡ false
          → Ready t n full s (swap queue t now full s)
      unfolding swap
      refused-Ready refused =
          rw (back_free, flush_front-refused t s refused)
            (record {
              logged = refused-Logged i on refused;
              on = on;
              room = λ e. omega (
                arith,
                ap (λ b. b.current_size)
                    (update_self s.bufs (front_buf queue t s)
                      (set_in_flight false (front_of queue t s))),
                fits (ground arith),
              );
              refused = λ e. ground arith;
            })

    pub swap-Ready : (now : ℕ) → Ready t n full s (swap queue t now full s)
    unfolding swap
    swap-Ready now = elim (Bool-cases (s.bufs (back_buf queue t s)).in_flight) [
      | inl flying ↦ rw flying unchanged-Ready
      | inr back_free ↦ elim (Bool-cases (queue.enqueue (front_buf queue t s) s.flush_queue).0) [
        | inl done ↦ done-Ready now back_free done
        | inr refused ↦ refused-Ready now back_free refused
      ]
    ]
