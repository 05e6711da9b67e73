-- ===== src/Util/Logger/Append.antt =====
-- `append` and `log`: the bytes of a thread reach the queue and its buffers in order, and what is
-- refused takes nothing away.
use native.Mathlib.Nat.{mod-eq_of_lt}
use uring_proactor.Base.{
  ltb, if◌then◌else◌, Bool-cases, u64_mod, length, take, length-take, ℕ, zero, suc, ◌+◌, ◌≤◌, ◌<◌,
  ◌≡◌, refl, sym, ap, subst, ◌∙◌, ◌≢◌, ◌⊎◌, inl, inr, Bool, true, false, ◌||◌, List, [], ◌∷◌, arith,
}
use uring_proactor.Util.Logger.{
  FlushQueue, LogLevel, rank, buffer_size, LoggerBuffer, Phase, absent, active, leaving, Logger,
  start_thread, swap, is_full, put_front, append, level_str, log,
}
use uring_proactor.Util.Logger.Flush.{Logged-refl, Ready, unchanged-Ready, swap-Ready}
use uring_proactor.Util.Logger.Front.{front_of, put_front-Logged}
use uring_proactor.Util.Logger.Invariant.{IsLogger, Logged, Logged-trans}
use uring_proactor.Util.Logger.Threads.{start_thread-fresh, thread_t, started-Logged}

take-all : (n : ℕ) (xs : List ℕ) → length xs ≤ n → take n xs ≡ xs
take-all zero [] h = refl
take-all (suc n) [] h = refl
take-all zero (x ∷ xs) h = absurd (omega arith)
take-all (suc n) (x ∷ xs) h = ap (◌∷◌ x) (take-all n xs (omega arith))

empty-list : (xs : List ℕ) → ltb 0 (length xs) ≡ false → xs ≡ []
empty-list [] e = refl
empty-list (x ∷ xs) e = absurd (ground arith)

-- `n < sizeof(line) ? n : sizeof(line) - 1`
take-cut :
    (line : List ℕ) → take (if ltb (length line) 320 then length line else 319) line ≡ take 319 line
take-cut line = elim (Bool-cases (ltb (length line) 320)) [
  | inl short ↦
      rw short (take-all (length line) line (omega arith) ∙ sym (take-all 319 line (ground arith)))
  | inr long ↦ rw long refl
]

module _ {Q : Type 0} (queue : FlushQueue Q) where
  -- A thread that may log: after the first call it is active.
  module _ (t now : ℕ) {s : Logger Q} (i : IsLogger queue s)
      (there : (s.threads t).phase ≢ leaving) where
    start_thread-active : (s.threads t).phase ≡ active → start_thread queue t now s ≡ s
    unfolding start_thread
    start_thread-active e = rw (e, start_thread) refl

    abbrev Starts : Logger Q → Type 0
    Starts r = Logged queue t [] s r × ((r.threads t).phase ≡ active)

    start_thread-Logged : Starts (start_thread queue t now s)
    start_thread-Logged = by_phase (s.threads t).phase refl
      where
        by_phase : (p : Phase) → (s.threads t).phase ≡ p → Starts (start_thread queue t now s)
        by_phase absent e =
            subst Starts (sym (start_thread-fresh queue i now e))
              (started-Logged queue i now e, ap (λ x. x.phase) (thread_t queue i now e))
        by_phase active e = subst Starts (sym (start_thread-active e)) (Logged-refl queue i, e)
        by_phase leaving e = absurd (there e)

  -- What a call with these bytes comes to.
  abbrev pub Appended : ℕ → ℕ → List ℕ → Logger Q → Bool × Logger Q → Type 0
  Appended t now bytes s (true, r) = Logged queue t bytes s r
  Appended t now bytes s (false, r) =
      Logged queue t [] s r
      × (is_full queue bytes (front_of queue t (start_thread queue t now s)) ≡ true)

  put_front-Appended :
      (t now : ℕ) (bytes : List ℕ) (s : Logger Q) (o : Bool × Logger Q)
      → Logged queue t [] s (start_thread queue t now s)
      → Ready queue t
          (length bytes)
          (is_full queue bytes (front_of queue t (start_thread queue t now s)))
          (start_thread queue t now s)
          o
      → Appended t now bytes s (put_front queue t bytes o)
  put_front-Appended t now bytes s (true, r) f g =
      Logged-trans queue (Logged-trans queue f g.logged)
        (put_front-Logged queue g.logged.sound g.on bytes (g.room refl))
  put_front-Appended t now bytes s (false, r) f g = (Logged-trans queue f g.logged, g.refused refl)

  is_full-room :
      (bytes : List ℕ) (b : LoggerBuffer)
      → length bytes ≤ buffer_size
      → b.current_size ≤ buffer_size
      → is_full queue bytes b ≡ false
      → b.current_size + length bytes ≤ buffer_size
  is_full-room bytes b small within e =
      ground (arith, mod-eq_of_lt {n = b.current_size + length bytes} {m = u64_mod} (omega arith))

  turn-Ready :
      {t : ℕ} {s : Logger Q}
      → IsLogger queue s
      → (s.threads t).phase ≡ active
      → (n : ℕ) → n ≤ buffer_size
      → (now : ℕ) (full : Bool)
      → (full ≡ false → (front_of queue t s).current_size + n ≤ buffer_size)
      → (late : Bool)
      → Ready queue t n full s (if full || late then swap queue t now full s else (true, s))
  turn-Ready i on n small now true fits late = swap-Ready queue i on n small true fits now
  turn-Ready i on n small now false fits true = swap-Ready queue i on n small false fits now
  turn-Ready i on n small now false fits false = unchanged-Ready queue i on n small false fits

  -- On a sound logger a call of a thread that has not ended its use, with no more bytes than a
  -- buffer takes, leaves a sound logger and the bytes of the other threads. Where it keeps the
  -- data, what the backend has yet to take and the thread's own bytes are as before, with the
  -- data behind them. Where it does not, they are as before, and the data had no room in the
  -- thread's buffer. Each call of the queue is one step.
  pub append-Appended :
      (t now : ℕ) (bytes : List ℕ) (s : Logger Q)
      → IsLogger queue s
      → (s.threads t).phase ≢ leaving
      → length bytes ≤ buffer_size
      → Appended t now bytes s (append queue t now bytes s)
  unfolding append
  append-Appended t now bytes s i there small =
      put_front-Appended t now bytes s _ (start_thread-Logged t now i there).0 (
        turn-Ready (start_thread-Logged t now i there).0.sound (start_thread-Logged t now i there).1
          (length bytes) small now _
          (is_full-room bytes (front_of queue t (start_thread queue t now s)) small
            (within (start_thread queue t now s) (start_thread-Logged t now i there)))
          _)
    where
      within :
          (r : Logger Q)
          → Logged queue t [] s r × ((r.threads t).phase ≡ active)
          → (front_of queue t r).current_size ≤ buffer_size
      within r (f, on) = (f.sound.fills t on).within

  pub log_lem :
      (printf : List ℕ → List ℕ → List ℕ → List ℕ) (t now : ℕ) (date : List ℕ) (level : LogLevel)
      (message : List ℕ) (s : Logger Q)
      → IsLogger queue s
      → (s.threads t).phase ≢ leaving
      → ((log queue printf t now date level message s ≡ s)
          × ((rank level < rank s.log_level) ⊎ (printf date (level_str queue level) message ≡ [])))
        ⊎ ((kept : Bool) × (rank s.log_level ≤ rank level)
            × Appended t now
                (take 319 (printf date (level_str queue level) message))
                s
                (kept, log queue printf t now date level message s))
  unfolding log
  log_lem printf t now date level message s i there =
      log_line (printf date (level_str queue level) message) _
        (take-cut (printf date (level_str queue level) message))
        (ltb (rank level) (rank s.log_level)) refl
        (ltb 0 (length (printf date (level_str queue level) message))) refl
    where
      Outcome : List ℕ → Logger Q → Type 0
      Outcome line r =
          ((r ≡ s) × ((rank level < rank s.log_level) ⊎ (line ≡ [])))
          ⊎ ((kept : Bool) × (rank s.log_level ≤ rank level)
              × Appended t now (take 319 line) s (kept, r))

      log_line :
          (line bytes : List ℕ)
          → bytes ≡ take 319 line
          → (below : Bool) → ltb (rank level) (rank s.log_level) ≡ below
          → (any : Bool) → ltb 0 (length line) ≡ any
          → Outcome line (if below then s else if any then (append queue t now bytes s).1 else s)
      log_line line bytes cut true e any e' = inl (refl, inl (ground arith))
      log_line line bytes cut false e false e' = inl (refl, inr (empty-list line e'))
      log_line line bytes cut false e true e' = inr (
        (append queue t now bytes s).0,
        ground arith,
        subst (λ kept. Appended t now kept s (append queue t now bytes s)) cut
            (append-Appended t now bytes s i there
              (omega (arith, ap length cut, length-take 319 line))),
      )
