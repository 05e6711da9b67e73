-- ===== src/Net/Acceptor/Serve.antt =====
-- The completions of accept_loop (src/net/acceptor.cpp) in turn: what they leave in the pool, and the
-- descriptors that are closed.
use uring_proactor.Base.{
  if◌then◌else◌, length, take, drop, count, drop-nil, ◌==◌, ℕ, zero, suc, ◌+◌, ◌-◌, ◌^◌, ◌≡◌, inl,
  inr, refl, sym, ap, subst, ◌∙◌, Bool, true, false, Option, none, some, List, [], ◌∷◌, ◌++◌,
  append-nil, append_assoc, arith,
}
use uring_proactor.Base.Results.{Ends, ends, Ends-map}
use uring_proactor.Net.Channel.{Call, Channel, assign}
use uring_proactor.Net.SendBuffer.{SendBuffer}
use uring_proactor.Net.TcpChannelPool.{TcpChannelPool, acquire_channel}
use uring_proactor.Net.TcpChannelPool.Fifo.{
  free_channels, IsIdle, IsChannelPool, Taken, acquire_channel_lem,
}
use uring_proactor.Net.Acceptor.{
  Accepted, accept_error, is_error, Acceptor, rearm, drop_if_null, accept_done, accept_all,
}

-- The descriptors of completions, and how many of them end their request.
abbrev pub fds : List Accepted → List ℕ
fds [] = []
fds ((fd, more, calls) ∷ rest) = fd ∷ fds rest

abbrev pub ended : List Accepted → ℕ
ended [] = 0
ended ((fd, more, calls) ∷ rest) = (if more then 0 else 1) + ended rest

-- No completion is an error.
abbrev pub NoError : List Accepted → Type 0
NoError [] = Unit {0}
NoError ((fd, more, calls) ∷ rest) = (is_error fd ≡ false) × NoError rest

take-nil : (n : ℕ) → ◌≡◌ {A = List ℕ} (take n []) []
take-nil zero = refl
take-nil (suc n) = refl

module _ {W : Type 0} (b : SendBuffer W) where
  -- The free channels are connected to the descriptors in turn, as far as both go.
  abbrev pub Connected : List ℕ → List Accepted → (ℕ → Channel W) → Type 0
  Connected [] cs channels = Unit {0}
  Connected (idx ∷ free) [] channels = Unit {0}
  Connected (idx ∷ free) ((fd, more, calls) ∷ rest) channels =
      ((c : Channel W) × IsIdle b c × (assign b fd calls c ≡ some (channels idx)))
      × Connected free rest channels

  -- What the completions `cs` have done.
  pub record Served (held : ℕ → ℕ) (cs : List Accepted) (s r : Acceptor b) : Type 0 where
    pub goes_on : r.waits ≡ s.waits
    pub left : free_channels b r.pool ≡ drop (length cs) (free_channels b s.pool)
    pub connected : Connected (free_channels b s.pool) cs r.pool.channels
    pub dropped : r.closed_fds ≡ s.closed_fds ++ drop (length (free_channels b s.pool)) (fds cs)
    pub asked : r.accepts ≡ s.accepts + ended cs
    pub kept :
        (a : ℕ) → count a (free_channels b s.pool) ≡ 0 → r.pool.channels a ≡ s.pool.channels a
    pub sound :
        IsChannelPool b (λ a. count a (take (length cs) (free_channels b s.pool)) + held a) r.pool

  rearm_pool : (more : Bool) (s : Acceptor b) → (rearm b more s).pool ≡ s.pool
  unfolding rearm
  rearm_pool true s = refl
  rearm_pool false s = refl

  rearm_fields :
      (more : Bool) (s : Acceptor b)
      → ((rearm b more s).waits ≡ s.waits)
        × ((rearm b more s).closed_fds ≡ s.closed_fds)
        × ((rearm b more s).accepts ≡ s.accepts + (if more then 0 else 1))
  unfolding rearm
  rearm_fields true s = (refl, refl, omega arith)
  rearm_fields false s = (refl, refl, refl)

  accepted_null :
      (fd : ℕ) (more : Bool) (calls : List Call) (s : Acceptor b)
      → is_error fd ≡ false
      → acquire_channel b fd calls s.pool ≡ some (none, s.pool)
      → accept_done b (fd, more, calls) s ≡ some (drop_if_null b fd (none, s.pool) (rearm b more s))
  unfolding accept_done
  accepted_null fd more calls s ok e = rw (ok, rearm_pool more s, e) refl

  accepted_one :
      (fd : ℕ) (more : Bool) (calls : List Call) (s : Acceptor b) (idx : ℕ) (p : TcpChannelPool b)
      → is_error fd ≡ false
      → acquire_channel b fd calls s.pool ≡ some (some idx, p)
      → accept_done b (fd, more, calls) s ≡ some (drop_if_null b fd (some idx, p) (rearm b more s))
  unfolding accept_done
  accepted_one fd more calls s idx p ok e = rw (ok, rearm_pool more s, e) refl

  IsChannelPool-ext :
      {held held' : ℕ → ℕ} {p : TcpChannelPool b}
      → ((a : ℕ) → held a ≡ held' a)
      → IsChannelPool b held p
      → IsChannelPool b held' p
  IsChannelPool-ext same i = record {
    is_capacity = i.is_capacity;
    masked = i.masked;
    queue = i.queue;
    once = λ a. omega (arith, i.once a, same a);
    idle = λ a lt h. i.idle a lt (same a ∙ h);
  }

  Connected-none : (free : List ℕ) (channels : ℕ → Channel W) → Connected free [] channels
  Connected-none [] channels = tt
  Connected-none (idx ∷ free) channels = tt

  Served-none : {held : ℕ → ℕ} (s : Acceptor b) → IsChannelPool b held s.pool → Served held [] s s
  Served-none s i = record {
    goes_on = refl;
    left = refl;
    connected = Connected-none (free_channels b s.pool) s.pool.channels;
    dropped = sym (
        ap (λ t. s.closed_fds ++ t) (drop-nil (length (free_channels b s.pool)))
        ∙ append-nil s.closed_fds);
    asked = omega arith;
    kept = λ a h. refl;
    sound = IsChannelPool-ext (λ a. omega arith) i;
  }

  module _ {held : ℕ → ℕ} (fd : ℕ) (more : Bool) (calls : List Call) (rest : List Accepted)
      (s r : Acceptor b) where
    -- The pool was empty, and the descriptor is closed.
    Served-null :
        free_channels b s.pool ≡ []
        → Served held rest (drop_if_null b fd (none, s.pool) (rearm b more s)) r
        → Served held ((fd, more, calls) ∷ rest) s r
    unfolding drop_if_null
    Served-null empty v = record {
      goes_on = v.goes_on ∙ (rearm_fields more s).0;
      left =
          v.left
          ∙ ap (drop (length rest)) empty
          ∙ drop-nil (length rest)
          ∙ sym (ap (drop (suc (length rest))) empty);
      connected =
          subst (λ t. Connected t ((fd, more, calls) ∷ rest) r.pool.channels) (sym empty) tt;
      dropped =
          v.dropped
          ∙ ap (λ t. (t ++ (fd ∷ [])) ++ drop (length (free_channels b s.pool)) (fds rest))
              (rearm_fields more s).1
          ∙ append_assoc s.closed_fds (fd ∷ []) (drop (length (free_channels b s.pool)) (fds rest))
          ∙ ap (λ t. s.closed_fds ++ t)
              (ap (λ t. fd ∷ drop (length t) (fds rest)) empty
                ∙ sym (ap (λ t. drop (length t) (fd ∷ fds rest)) empty));
      asked = omega (arith, v.asked, (rearm_fields more s).2);
      kept = v.kept;
      sound =
          IsChannelPool-ext
            (λ a.
              ap (λ t. count a (take (length rest) t) + held a) empty
              ∙ no_channel a
              ∙ sym (ap (λ t. count a (take (suc (length rest)) t) + held a) empty))
            v.sound;
    }
      where
        no_channel :
            (a : ℕ)
            → count a (take (length rest) []) + held a
              ≡ count a (take (suc (length rest)) []) + held a
        no_channel a = ap (λ t. count a t + held a) (take-nil (length rest))

    -- The oldest free channel is connected.
    Served-one :
        {idx : ℕ} {p : TcpChannelPool b}
        → IsChannelPool b held s.pool
        → Taken b held fd calls s.pool idx p
        → Served
            (λ a. (if a == idx then 1 else 0) + held a)
            rest
            (drop_if_null b fd (some idx, p) (rearm b more s))
            r
        → Served held ((fd, more, calls) ∷ rest) s r
    unfolding drop_if_null
    Served-one {idx = idx} {p = p} i t v = record {
      goes_on = v.goes_on ∙ (rearm_fields more s).0;
      left = v.left ∙ sym (ap (drop (suc (length rest))) t.oldest);
      connected =
          subst (λ l. Connected l ((fd, more, calls) ∷ rest) r.pool.channels) (sym t.oldest)
            (
              (
                s.pool.channels idx,
                i.idle idx t.in_range t.alone,
                t.connected ∙ ap some (sym (v.kept idx no_more)),
              ),
              v.connected,
            );
      dropped =
          v.dropped
          ∙ ap (λ l. l ++ drop (length (free_channels b p)) (fds rest)) (rearm_fields more s).1
          ∙ sym (ap (λ l. s.closed_fds ++ drop (length l) (fd ∷ fds rest)) t.oldest);
      asked = omega (arith, v.asked, (rearm_fields more s).2);
      kept = λ a h.
          v.kept a (ground (arith, h, ap (count a) t.oldest))
          ∙ t.others a (λ e. ground (arith, e, h, ap (count a) t.oldest));
      sound =
          IsChannelPool-ext
            (λ a. omega (arith, ap (λ l. count a (take (suc (length rest)) l)) t.oldest)) v.sound;
    }
      where
        no_more : count idx (free_channels b p) ≡ 0
        no_more = ground (arith, ap (count idx) t.oldest, i.once idx)

  go_on :
      {P : Acceptor b → Type 0} (c : Accepted) (rest : List Accepted) (s t : Acceptor b)
      → accept_done b c s ≡ some t
      → t.waits ≡ true
      → Ends P (accept_all b rest t)
      → Ends P (accept_all b (c ∷ rest) s)
  unfolding accept_all
  go_on c rest s t e w h = simp (e, w) h

  waits_on :
      (fd : ℕ) (more : Bool) (o : Option ℕ × TcpChannelPool b) (s : Acceptor b)
      → (drop_if_null b fd o (rearm b more s)).waits ≡ s.waits
  unfolding drop_if_null
  waits_on fd more (none, p) s = (rearm_fields more s).0
  waits_on fd more (some idx, p) s = (rearm_fields more s).0

  pool_of :
      (fd : ℕ) (o : Option ℕ) (p : TcpChannelPool b) (s : Acceptor b)
      → (drop_if_null b fd (o, p) s).pool ≡ p
  unfolding drop_if_null
  pool_of fd none p s = refl
  pool_of fd (some idx) p s = refl

  -- On a sound pool completions without an error connect the free channels in turn, oldest first, to
  -- the descriptors, and every descriptor that finds no channel is closed; the accept is asked for again
  -- after each completion that ends its request, and the loop waits on.
  pub accept_all_lem :
      (cs : List Accepted) {held : ℕ → ℕ} (s : Acceptor b)
      → IsChannelPool b held s.pool
      → s.waits ≡ true
      → NoError cs
      → Ends (Served held cs s) (accept_all b cs s)
  unfolding accept_all
  accept_all_lem [] s i w ok = ends (Served-none s i)
  accept_all_lem ((fd, more, calls) ∷ rest) {held = held} s i w (ok, oks) =
      elim (acquire_channel_lem b i fd calls) [
        | inl (empty, e) ↦
            go_on (fd, more, calls) rest s (drop_if_null b fd (none, s.pool) (rearm b more s))
              (accepted_null fd more calls s ok e) (waits_on fd more (none, s.pool) s ∙ w)
              (Ends-map
                (accept_all_lem rest (drop_if_null b fd (none, s.pool) (rearm b more s))
                  (subst (IsChannelPool b held) (sym (pool_of fd none s.pool (rearm b more s))) i)
                  (waits_on fd more (none, s.pool) s ∙ w) oks)
                (λ r v. Served-null fd more calls rest s r empty v))
        | inr (idx, p, e, t) ↦
            go_on (fd, more, calls) rest s (drop_if_null b fd (some idx, p) (rearm b more s))
              (accepted_one fd more calls s idx p ok e) (waits_on fd more (some idx, p) s ∙ w)
              (Ends-map
                (accept_all_lem rest (drop_if_null b fd (some idx, p) (rearm b more s))
                  (subst (IsChannelPool b (λ a. (if a == idx then 1 else 0) + held a))
                    (sym (pool_of fd (some idx) p (rearm b more s))) t.sound)
                  (waits_on fd more (some idx, p) s ∙ w) oks)
                (λ r v. Served-one fd more calls rest s r i t v))
      ]

  -- What the first error leaves: the coroutine has ended.
  abbrev pub stopped_by : ℕ → Acceptor b → Acceptor b
  stopped_by fd s = record s {
    waits = false;
    logged = s.logged ++ (accept_error (2 ^ 32 - fd) ∷ []);
  }

  stops_here :
      (fd : ℕ) (more : Bool) (calls : List Call) (rest : List Accepted) (s : Acceptor b)
      → is_error fd ≡ true
      → accept_all b ((fd, more, calls) ∷ rest) s ≡ some (stopped_by fd s)
  unfolding accept_all accept_done
  stops_here fd more calls rest s bad = simp bad

  -- On a sound pool the first error ends the loop for good, whatever the error is: what came before is
  -- served as without it, and nothing that comes later is.
  pub accept_all-stops :
      (cs : List Accepted) {held : ℕ → ℕ} (s : Acceptor b) (fd : ℕ) (more : Bool)
      (calls : List Call) (later : List Accepted)
      → IsChannelPool b held s.pool
      → s.waits ≡ true
      → NoError cs
      → is_error fd ≡ true
      → Ends
          (λ r. (r.waits ≡ false) × ((t : Acceptor b) × Served held cs s t × (r ≡ stopped_by fd t)))
          (accept_all b (cs ++ ((fd, more, calls) ∷ later)) s)
  accept_all-stops [] s fd more calls later i w ok bad =
      subst (Ends _) (sym (stops_here fd more calls later s bad))
        (ends (refl, (s, Served-none s i, refl)))
  accept_all-stops ((res, m, cl) ∷ rest) {held = held} s fd more calls later i w (ok, oks) bad =
      elim (acquire_channel_lem b i res cl) [
        | inl (empty, e) ↦
            go_on (res, m, cl) (rest ++ ((fd, more, calls) ∷ later)) s
              (drop_if_null b res (none, s.pool) (rearm b m s)) (accepted_null res m cl s ok e)
              (waits_on res m (none, s.pool) s ∙ w)
              (Ends-map
                (accept_all-stops rest (drop_if_null b res (none, s.pool) (rearm b m s)) fd more
                  calls later
                  (subst (IsChannelPool b held) (sym (pool_of res none s.pool (rearm b m s))) i)
                  (waits_on res m (none, s.pool) s ∙ w) oks bad)
                (λ r h. (h.0, (h.1.0, Served-null res m cl rest s h.1.0 empty h.1.1, h.1.2))))
        | inr (idx, p, e, t) ↦
            go_on (res, m, cl) (rest ++ ((fd, more, calls) ∷ later)) s
              (drop_if_null b res (some idx, p) (rearm b m s)) (accepted_one res m cl s idx p ok e)
              (waits_on res m (some idx, p) s ∙ w)
              (Ends-map
                (accept_all-stops rest (drop_if_null b res (some idx, p) (rearm b m s)) fd more
                  calls later
                  (subst (IsChannelPool b (λ a. (if a == idx then 1 else 0) + held a))
                    (sym (pool_of res (some idx) p (rearm b m s))) t.sound)
                  (waits_on res m (some idx, p) s ∙ w) oks bad)
                (λ r h. (h.0, (h.1.0, Served-one res m cl rest s h.1.0 i t h.1.1, h.1.2))))
      ]
