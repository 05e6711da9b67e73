-- ===== src/Util/Logger/Invariant.antt =====
-- What holds of the logger between steps: a buffer is in flight exactly while it is in the queue
-- or its write is not completed, and a thread fills a buffer that is not in flight.
use native.Mathlib.Nat.{mod-eq_of_lt}
use uring_proactor.Base.{
  if◌then◌else◌, length, update, rows, count, count-append, update_apart, ℕ, ◌+◌, ◌-◌, ◌≤◌, ◌<◌,
  ◌≡◌, refl, sym, ap, ap₂, ◌∙◌, ◌≢◌, inl, false, List, [], ◌∷◌, ◌++◌, append_assoc, arith,
}
use uring_proactor.Base.Memory.{store, rows-store_self, rows-store_apart, rows-add}
use uring_proactor.Util.Logger.{
  FlushQueue, buffer_size, LoggerBuffer, Phase, absent, active, leaving, Logger, buf_of, put_bytes,
  edit, front_buf, back_buf,
}
use uring_proactor.Base.Ring.{front, back}

-- The bytes of a buffer, and those of several in turn.
abbrev pub text : LoggerBuffer → List ℕ
text b = rows b.buffer 0 b.current_size

-- What a thread keeps in the buffer that it fills.
abbrev pub text_in : Phase → LoggerBuffer → List ℕ
text_in active b = text b
text_in _ b = []

abbrev pub texts : (ℕ → LoggerBuffer) → List ℕ → List ℕ
texts bufs [] = []
texts bufs (a ∷ rest) = text (bufs a) ++ texts bufs rest

pub texts-append :
    (bufs : ℕ → LoggerBuffer) (xs ys : List ℕ)
    → texts bufs (xs ++ ys) ≡ texts bufs xs ++ texts bufs ys
texts-append bufs [] ys = refl
texts-append bufs (x ∷ xs) ys =
    ap (◌++◌ (text (bufs x))) (texts-append bufs xs ys)
    ∙ sym (append_assoc (text (bufs x)) (texts bufs xs) (texts bufs ys))

pub texts_cong :
    (f g : ℕ → LoggerBuffer) (xs : List ℕ)
    → ((a : ℕ) → 0 < count a xs → text (g a) ≡ text (f a))
    → texts g xs ≡ texts f xs
texts_cong f g [] h = refl
texts_cong f g (x ∷ xs) h =
    ap₂ ◌++◌ (h x (ground arith)) (texts_cong f g xs (λ a c. h a (omega arith)))

-- What `append` writes behind the bytes of a buffer.
pub text-put_bytes :
    (bytes : List ℕ) (b : LoggerBuffer)
    → b.current_size + length bytes ≤ buffer_size
    → text (put_bytes bytes b) ≡ text b ++ bytes
text-put_bytes bytes b room =
    ap (rows (store b.buffer b.current_size bytes) 0) (mod-eq_of_lt (omega arith))
    ∙ rows-add (store b.buffer b.current_size bytes) 0 b.current_size (length bytes)
    ∙ ap₂ ◌++◌ (rows-store_apart b.buffer b.current_size bytes 0 b.current_size (inl (omega arith)))
        (ap (λ k. rows (store b.buffer b.current_size bytes) k (length bytes)) (omega arith)
          ∙ rows-store_self b.buffer b.current_size bytes)

module _ {Q : Type 0} (queue : FlushQueue Q) where
  -- Buffers in the queue, and those whose write is not completed.
  abbrev pub outstanding : Logger Q → List ℕ
  outstanding s = s.writes ++ queue.entries s.flush_queue

  pub record IsActive (t : ℕ) (s : Logger Q) : Type 0 where
    pub index : (s.threads t).write_idx ≤ 1
    pub filling : (s.bufs (front_buf queue t s)).in_flight ≡ false
    pub within : (s.bufs (front_buf queue t s)).current_size ≤ buffer_size
    pub clean :
        (s.bufs (back_buf queue t s)).in_flight ≡ false
        → (s.bufs (back_buf queue t s)).current_size ≡ 0

  pub record IsLogger (s : Logger Q) : Type 0 where
    pub once : (a : ℕ) → count a (outstanding s) ≡ (if (s.bufs a).in_flight then 1 else 0)
    pub fills : (t : ℕ) → (s.threads t).phase ≡ active → IsActive t s
    pub gone :
        (t : ℕ)
        → (s.threads t).phase ≡ absent
        → ((s.bufs (buf_of t 0)).in_flight ≡ false) × ((s.bufs (buf_of t 1)).in_flight ≡ false)

  -- The bytes that the backend has yet to take, in order, and those that thread `t` keeps.
  abbrev pub to_write : Logger Q → List ℕ
  to_write s = texts s.bufs (queue.entries s.flush_queue)

  abbrev pub front_text : ℕ → Logger Q → List ℕ
  front_text t s = text_in (s.threads t).phase (s.bufs (front_buf queue t s))

  -- Thread `t` has logged `bytes`, and the others nothing.
  pub record Logged (t : ℕ) (bytes : List ℕ) (s r : Logger Q) : Type 0 where
    pub sound : IsLogger r
    pub kept : to_write r ++ front_text t r ≡ (to_write s ++ front_text t s) ++ bytes
    pub others : (u : ℕ) → u ≢ t → front_text u r ≡ front_text u s

  pub Logged-trans :
      {t : ℕ} {xs ys : List ℕ} {s r q : Logger Q}
      → Logged t xs s r
      → Logged t ys r q
      → Logged t (xs ++ ys) s q
  Logged-trans {t} {xs} {ys} {s} f g = record {
    sound = g.sound;
    kept = g.kept ∙ ap (λ zs. zs ++ ys) f.kept ∙ append_assoc (to_write s ++ front_text t s) xs ys;
    others = λ u ne. g.others u ne ∙ f.others u ne;
  }

  pub front_text-active :
      (t : ℕ) (s : Logger Q)
      → (s.threads t).phase ≡ active
      → front_text t s ≡ text (s.bufs (front_buf queue t s))
  front_text-active t s e = ap (λ p. text_in p (s.bufs (front_buf queue t s))) e

  -- A buffer that is not in flight is not in the queue.
  pub not_queued :
      {s : Logger Q}
      → IsLogger s
      → (a b : ℕ) → (s.bufs a).in_flight ≡ false
      → 0 < count b (queue.entries s.flush_queue)
      → b ≢ a
  not_queued {s} i a b e h q = absurd (
      ground (
        arith,
        i.once a,
        count-append a s.writes (queue.entries s.flush_queue),
        ap (λ k. count k (queue.entries s.flush_queue)) q,
      ))

  -- So a change of it leaves what is to be written.
  pub to_write-edit :
      {s : Logger Q}
      → IsLogger s
      → (a : ℕ) (f : LoggerBuffer → LoggerBuffer) → (s.bufs a).in_flight ≡ false
      → to_write (edit queue a f s) ≡ to_write s
  to_write-edit {s} i a f e =
      texts_cong s.bufs (update s.bufs a (f (s.bufs a))) (queue.entries s.flush_queue)
        (λ b h. ap text (update_apart s.bufs a b (f (s.bufs a)) (not_queued i a b e h)))

  -- Another thread's step leaves a thread as it was.
  pub IsActive-ext :
      {s r : Logger Q} (u : ℕ)
      → r.threads u ≡ s.threads u
      → r.bufs (front_buf queue u s) ≡ s.bufs (front_buf queue u s)
      → r.bufs (back_buf queue u s) ≡ s.bufs (back_buf queue u s)
      → IsActive u s
      → IsActive u r
  IsActive-ext {s} {r} u e front back i = record {
    index = omega (arith, ap (λ th. th.write_idx) e, i.index);
    filling = ap (λ b. b.in_flight) front_r ∙ i.filling;
    within = omega (arith, ap (λ b. b.current_size) front_r, i.within);
    clean = λ h. ap (λ b. b.current_size) back_r ∙ i.clean (sym (ap (λ b. b.in_flight) back_r) ∙ h);
  }
    where
      front_r : r.bufs (front_buf queue u r) ≡ s.bufs (front_buf queue u s)
      front_r = ap (λ th. r.bufs (buf_of u th.write_idx)) e ∙ front

      back_r : r.bufs (back_buf queue u r) ≡ s.bufs (back_buf queue u s)
      back_r = ap (λ th. r.bufs (buf_of u (1 - th.write_idx))) e ∙ back

  -- What an inactive thread keeps does not depend on a buffer.
  pub front_text-ext :
      (s r : Logger Q) (u : ℕ)
      → r.threads u ≡ s.threads u
      → ((s.threads u).phase ≡ active → r.bufs (front_buf queue u s) ≡ s.bufs (front_buf queue u s))
      → front_text u r ≡ front_text u s
  front_text-ext s r u e same =
      ap (λ th. text_in th.phase (r.bufs (buf_of u th.write_idx))) e
      ∙ by_phase (s.threads u).phase refl
    where
      by_phase :
          (p : Phase)
          → (s.threads u).phase ≡ p
          → text_in p (r.bufs (front_buf queue u s)) ≡ text_in p (s.bufs (front_buf queue u s))
      by_phase active h = ap text (same h)
      by_phase absent h = refl
      by_phase leaving h = refl
