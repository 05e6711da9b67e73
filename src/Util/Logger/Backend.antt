-- ===== src/Util/Logger/Backend.antt =====
-- The backend: it takes the buffers in the order in which they were filled, writes each at the end
-- of what it wrote before, and gives a buffer back when its write is completed.
use uring_proactor.Base.{
  ◌==◌, if◌then◌else◌, u32_mod, u64_mod, add_word, update, count, count-append, ℕ, ◌+◌, ◌-◌, ◌%◌,
  ◌<◌, ◌≡◌, refl, sym, ap, subst, ◌∙◌, ◌≢◌, ◌⊎◌, inl, inr, true, false, Option, none, some, List,
  [], ◌∷◌, ◌++◌, arith, update_apart, update_self,
}
use uring_proactor.Util.Logger.{
  FlushQueue, active, prep_write, Logger, buf_of, free_buffer, edit, front_buf, back_buf,
  submit_buf, take_one, remove, handle_cqe,
}
use uring_proactor.Util.Logger.Invariant.{
  text, texts, texts_cong, outstanding, IsActive, IsLogger, to_write, front_text, IsActive-ext,
  front_text-ext,
}
use native.Mathlib.Decide.{ℕ_discrete}

module _ {Q : Type 0} (queue : FlushQueue Q) where
  count-remove :
      (a k : ℕ) (xs : List ℕ)
      → 0 < count a xs
      → count k (remove queue a xs) + (if k == a then 1 else 0) ≡ count k xs
  count-remove a k [] h = absurd (omega arith)
  count-remove a k (x ∷ xs) h = elim (ℕ_discrete a x) [
    | yes e ↦ ground (arith, e)
    | no ne ↦ ground (arith, ne, count-remove a k xs (ground arith))
  ]

  module _ {s : Logger Q} (i : IsLogger queue s) where
    is_outstanding : (a : ℕ) → 0 < count a (outstanding queue s) → (s.bufs a).in_flight ≡ true
    is_outstanding a h = ground (arith, i.once a)

    not_front :
        (a u : ℕ)
        → (s.bufs a).in_flight ≡ true
        → (s.threads u).phase ≡ active
        → front_buf queue u s ≢ a
    not_front a u flying on e =
        absurd (ground (arith, flying, (i.fills u on).filling, ap (λ k. (s.bufs k).in_flight) e))

    -- A buffer given back, where nothing else changes but who waits for it.
    module _ (a : ℕ) (r : Logger Q) (flying : (s.bufs a).in_flight ≡ true)
        (bufs : r.bufs ≡ update s.bufs a (free_buffer (s.bufs a)))
        (threads : r.threads ≡ s.threads) where
      flag : (k : ℕ) → (r.bufs k).in_flight ≡ (if k == a then false else (s.bufs k).in_flight)
      flag k = ap (λ f. (f k).in_flight) bufs ∙ ground arith

      same_buf : (k : ℕ) → k ≢ a → r.bufs k ≡ s.bufs k
      same_buf k ne = ap (λ f. f k) bufs ∙ update_apart s.bufs a k (free_buffer (s.bufs a)) ne

      free_size : (r.bufs a).current_size ≡ 0
      free_size =
          ap (λ f. (f a).current_size) bufs
          ∙ ap (λ b. b.current_size) (update_self s.bufs a (free_buffer (s.bufs a)))

      freed-IsActive : (u : ℕ) → (s.threads u).phase ≡ active → IsActive queue u r
      freed-IsActive u on = record {
        index = omega (arith, (i.fills u on).index, ap (λ f. (f u).write_idx) threads);
        filling = ap (λ b. b.in_flight) front ∙ (i.fills u on).filling;
        within = omega (arith, (i.fills u on).within, ap (λ b. b.current_size) front);
        clean = λ h. elim (ℕ_discrete (back_buf queue u s) a) [
          | yes e ↦
              ap (λ f. (r.bufs (buf_of u (1 - (f u).write_idx))).current_size) threads
              ∙ ap (λ k. (r.bufs k).current_size) e
              ∙ free_size
          | no ne ↦
              ap (λ b. b.current_size) (back ne)
              ∙ (i.fills u on).clean (sym (ap (λ b. b.in_flight) (back ne)) ∙ h)
        ];
      }
        where
          front : r.bufs (front_buf queue u r) ≡ s.bufs (front_buf queue u s)
          front =
              ap (λ f. r.bufs (buf_of u (f u).write_idx)) threads
              ∙ same_buf (front_buf queue u s) (not_front a u flying on)

          back : back_buf queue u s ≢ a → r.bufs (back_buf queue u r) ≡ s.bufs (back_buf queue u s)
          back ne =
              ap (λ f. r.bufs (buf_of u (1 - (f u).write_idx))) threads
              ∙ same_buf (back_buf queue u s) ne

      freed-IsLogger :
          ((k : ℕ)
            → count k (outstanding queue r) + (if k == a then 1 else 0)
              ≡ count k (outstanding queue s))
          → IsLogger queue r
      freed-IsLogger waits = record {
        once = λ k. ground (
          arith,
          waits k,
          i.once k,
          flag k,
          flying,
          ap (λ n. (s.bufs n).in_flight) {x = k} {y = a},
        );
        fills = λ u h. freed-IsActive u (sym (ap (λ f. (f u).phase) threads) ∙ h);
        gone = λ u h. (
          ground (arith, flag (buf_of u 0), (i.gone u (sym (ap (λ f. (f u).phase) threads) ∙ h)).0),
          ground (arith, flag (buf_of u 1), (i.gone u (sym (ap (λ f. (f u).phase) threads) ∙ h)).1),
        );
      }

      freed-front_text : (u : ℕ) → front_text queue u r ≡ front_text queue u s
      freed-front_text u =
          front_text-ext queue s r u (ap (λ f. f u) threads)
            (λ h. same_buf (front_buf queue u s) (not_front a u flying h))

      -- What has yet to be taken does not name the buffer.
      freed-texts : (xs : List ℕ) → count a xs ≡ 0 → texts r.bufs xs ≡ texts s.bufs xs
      freed-texts xs none_left =
          texts_cong s.bufs r.bufs xs
            (λ k h. ap text (same_buf k (λ e. absurd (omega (arith, ap (λ n. count n xs) e)))))

  -- What the backend has done with the first bytes that waited.
  pub record Took (written : List ℕ) (s r : Logger Q) : Type 0 where
    pub sound : IsLogger queue r
    pub order : to_write queue s ≡ written ++ to_write queue r
    pub others : (u : ℕ) → front_text queue u r ≡ front_text queue u s

  -- A completion of a write that the kernel has: the buffer is free again, and nothing else changes.
  pub handle_cqe-Took :
      (s : Logger Q) (a : ℕ)
      → IsLogger queue s
      → 0 < count a s.writes
      → Took [] s (handle_cqe queue a s)
  unfolding handle_cqe
  handle_cqe-Took s a i h = record {
    sound = freed-IsLogger i a (handle_cqe queue a s) flying refl refl (λ k. omega (
      arith,
      count-append k s.writes (queue.entries s.flush_queue),
      count-append k (remove queue a s.writes) (queue.entries s.flush_queue),
      count-remove a k s.writes h,
    ));
    order = sym (
        freed-texts i a (handle_cqe queue a s) flying refl refl (queue.entries s.flush_queue) (
          ground (arith, i.once a, flying, count-append a s.writes (queue.entries s.flush_queue))));
    others = λ u. freed-front_text i a (handle_cqe queue a s) flying refl refl u;
  }
    where
      flying : (s.bufs a).in_flight ≡ true
      flying =
          is_outstanding i a (omega (arith, count-append a s.writes (queue.entries s.flush_queue)))

  module _ {s : Logger Q} (i : IsLogger queue s) (a : ℕ)
      (given : (queue.dequeue s.flush_queue).0 ≡ some a)
      (first : queue.entries s.flush_queue
        ≡ a ∷ queue.entries (queue.dequeue s.flush_queue).1) where
    flying : (s.bufs a).in_flight ≡ true
    flying =
        is_outstanding i a (
          ground (arith, count-append a s.writes (queue.entries s.flush_queue), ap (count a) first))

    once_left : count a s.writes + count a (queue.entries (queue.dequeue s.flush_queue).1) ≡ 0
    once_left = ground (
      arith,
      i.once a,
      flying,
      count-append a s.writes (queue.entries s.flush_queue),
      ap (count a) first,
    )

    abbrev dequeued : Logger Q
    dequeued = record s { flush_queue = (queue.dequeue s.flush_queue).1 }

    take_one-given : take_one queue s ≡ submit_buf queue a dequeued
    unfolding take_one
    take_one-given = rw (given, take_one) refl

    abbrev written : ℕ → Logger Q
    written f = record dequeued {
      writes = s.writes ++ (a ∷ []);
      calls = s.calls ++ (prep_write f (text (s.bufs a)) s.offset ∷ []);
      offset = add_word u64_mod s.offset (s.bufs a).current_size;
      in_flight = add_word u32_mod s.in_flight 1;
    }

    written-IsLogger : (f : ℕ) → IsLogger queue (written f)
    written-IsLogger f = record {
      once = λ k. omega (
        arith,
        i.once k,
        ap (count k) first,
        count-append k s.writes (queue.entries s.flush_queue),
        count-append k (s.writes ++ (a ∷ [])) (queue.entries (queue.dequeue s.flush_queue).1),
        count-append k s.writes (a ∷ []),
      );
      fills = λ u h. IsActive-ext queue u refl refl refl (i.fills u h);
      gone = i.gone;
    }

    -- With a file the bytes of the buffer are written behind those written before.
    pub writes-Took :
        (f : ℕ)
        → s.fd ≡ some f
        → Took (text (s.bufs a)) s (take_one queue s)
          × ((take_one queue s).calls ≡ s.calls ++ (prep_write f (text (s.bufs a)) s.offset ∷ []))
          × ((take_one queue s).offset ≡ (s.offset + (s.bufs a).current_size) % u64_mod)
    unfolding submit_buf
    writes-Took f e =
        subst
          (λ r.
            Took (text (s.bufs a)) s r
            × (r.calls ≡ s.calls ++ (prep_write f (text (s.bufs a)) s.offset ∷ []))
            × (r.offset ≡ (s.offset + (s.bufs a).current_size) % u64_mod))
          (sym (take_one-given ∙ into_file))
          (
            record {
              sound = written-IsLogger f;
              order = ap (texts s.bufs) first;
              others = λ u. refl;
            },
            refl,
            refl,
          )
      where
        into_file : submit_buf queue a dequeued ≡ written f
        into_file = simp e refl

    abbrev dropped : Logger Q
    dropped = edit queue a free_buffer dequeued

    dropped-IsLogger : IsLogger queue dropped
    dropped-IsLogger = freed-IsLogger i a dropped flying refl refl (λ k. omega (
      arith,
      ap (count k) first,
      count-append k s.writes (queue.entries s.flush_queue),
      count-append k s.writes (queue.entries (queue.dequeue s.flush_queue).1),
    ))

    -- Without one they are dropped.
    pub drops-Took :
        s.fd ≡ none
        → Took (text (s.bufs a)) s (take_one queue s) × ((take_one queue s).calls ≡ s.calls)
    unfolding submit_buf
    drops-Took e =
        subst (λ r. Took (text (s.bufs a)) s r × (r.calls ≡ s.calls))
          (sym (take_one-given ∙ nowhere))
          (
            record {
              sound = dropped-IsLogger;
              order =
                  ap (texts s.bufs) first
                  ∙ ap (◌++◌ (text (s.bufs a))) (
                      sym (
                        freed-texts i a dropped flying refl refl
                          (queue.entries (queue.dequeue s.flush_queue).1)
                          (omega (arith, once_left))));
              others = λ u. freed-front_text i a dropped flying refl refl u;
            },
            refl,
          )
      where
        nowhere : submit_buf queue a dequeued ≡ dropped
        nowhere = simp e refl

  -- What one round of the backend's loop does: nothing, where the queue gives nothing.
  abbrev pub Rounds : Logger Q → Type 0
  Rounds s =
      (((queue.dequeue s.flush_queue).0 ≡ none)
        × Took [] s (take_one queue s)
        × ((take_one queue s).calls ≡ s.calls))
      ⊎ ((a : ℕ) × ((queue.dequeue s.flush_queue).0 ≡ some a)
          × Took (text (s.bufs a)) s (take_one queue s)
          × (((s.fd ≡ none) × ((take_one queue s).calls ≡ s.calls))
              ⊎ ((f : ℕ) × (s.fd ≡ some f)
                  × ((take_one queue s).calls
                      ≡ s.calls ++ (prep_write f (text (s.bufs a)) s.offset ∷ []))
                  × ((take_one queue s).offset ≡ (s.offset + (s.bufs a).current_size) % u64_mod))))

  -- On a sound logger a round of the loop that empties the queue either finds nothing, or takes
  -- the buffer whose bytes waited first. Where a log file is open it asks for their write at
  -- the offset, which moves on by their number modulo 2 ^ 64; where none is open the bytes are
  -- dropped and the buffer is free again. The logger stays sound, and the threads keep the
  -- bytes they fill. Each call of the queue is one step.
  pub take_one_lem : (s : Logger Q) → IsLogger queue s → Rounds s
  unfolding take_one
  take_one_lem s i = by_entry (queue.entries-dequeue s.flush_queue)
    where
      nothing_given :
          (queue.dequeue s.flush_queue).0 ≡ none
          → take_one queue s ≡ record s { flush_queue = (queue.dequeue s.flush_queue).1 }
      nothing_given e = rw (e, take_one) refl

      by_entry :
          (((queue.dequeue s.flush_queue).0 ≡ none)
              × (queue.entries (queue.dequeue s.flush_queue).1 ≡ queue.entries s.flush_queue))
            ⊎ ((a : ℕ) × ((queue.dequeue s.flush_queue).0 ≡ some a)
                × (queue.entries s.flush_queue ≡ a ∷ queue.entries (queue.dequeue s.flush_queue).1))
          → Rounds s
      by_entry (inl (e, same)) = inl (
        e,
        subst (Took [] s) (sym (nothing_given e)) (record {
          sound = record {
            once = λ k. ap (λ xs. count k (s.writes ++ xs)) same ∙ i.once k;
            fills = λ u h. IsActive-ext queue u refl refl refl (i.fills u h);
            gone = i.gone;
          };
          order = ap (texts s.bufs) (sym same);
          others = λ u. refl;
        }),
        ap (λ r. r.calls) (nothing_given e),
      )
      by_entry (inr (a, given, first)) = by_file s.fd refl
        where
          by_file : (o : Option ℕ) → s.fd ≡ o → Rounds s
          by_file none e = inr (
            a,
            given,
            (drops-Took i a given first e).0,
            inl (e, (drops-Took i a given first e).1),
          )
          by_file (some f) e = inr (
            a,
            given,
            (writes-Took i a given first f e).0,
            inr (f, e, (writes-Took i a given first f e).1, (writes-Took i a given first f e).2),
          )
