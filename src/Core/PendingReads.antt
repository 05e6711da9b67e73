-- ===== src/Core/PendingReads.antt =====
-- `pending_reads_` of class TcpThread (include/core/tcp_thread.hpp, src/core/tcp_thread.cpp): the
-- channels that received data in a batch of completions are read once, at the end of the batch.
use Prim.Native.Nat.{max}
use uring_proactor.Base.{
  ◌==◌, if◌then◌else◌, Bool-cases, update, count, count-append, ℕ, min, ◌≡◌, refl, ◌∙◌, inl, inr,
  Bool, true, false, List, [], ◌∷◌, ◌++◌, arith,
}

-- `in_pending_reads_` of each channel, and `pending_reads_`. A channel is a number.
pub record PendingReads : Type 0 where
  pub in_pending_reads : ℕ → Bool
  pub pending_reads : List ℕ

-- `mark_pending_read(ch)`
unfoldable pub mark_pending_read : ℕ → PendingReads → PendingReads
mark_pending_read ch s = if s.in_pending_reads ch then s else record {
  in_pending_reads = update s.in_pending_reads ch true;
  pending_reads = s.pending_reads ++ (ch ∷ []);
}

-- The loop of `on_batch_done`, with the application's `on_read` and its state.
unfoldable pub read_each : {A : Type 0} → (ℕ → A → A) → List ℕ → (ℕ → Bool) → A → (ℕ → Bool) × A
read_each on_read [] flags app = (flags, app)
read_each on_read (ch ∷ rest) flags app =
    read_each on_read rest (update flags ch false) (on_read ch app)

-- `on_batch_done()`
unfoldable pub on_batch_done : {A : Type 0} → (ℕ → A → A) → PendingReads → A → PendingReads × A
unfolding read_each
on_batch_done on_read s app =
    let (flags, app') = read_each on_read s.pending_reads s.in_pending_reads app in
    (record { in_pending_reads = flags; pending_reads = [] }, app')

-- The marks of a batch, one after the other.
abbrev pub mark_all : List ℕ → PendingReads → PendingReads
mark_all [] s = s
mark_all (ch ∷ rest) s = mark_all rest (mark_pending_read ch s)

-- No channel is marked.
abbrev pub none_pending : PendingReads
none_pending = record { in_pending_reads = λ ch. false; pending_reads = [] }

-- A channel is flagged where it is in the list, and it is there once.
pub record IsPendingReads (s : PendingReads) : Type 0 where
  pub flagged : (ch : ℕ) → count ch s.pending_reads ≡ (if s.in_pending_reads ch then 1 else 0)

pub mark_pending_read-IsPendingReads :
    (ch : ℕ) {s : PendingReads} → IsPendingReads s → IsPendingReads (mark_pending_read ch s)
unfolding mark_pending_read
mark_pending_read-IsPendingReads ch {s} i = elim (Bool-cases (s.in_pending_reads ch)) [
  | inl marked ↦ rw marked i
  | inr unmarked ↦ rw unmarked (record {
    flagged = λ a.
        ground
          (arith, count-append a s.pending_reads (ch ∷ []), i.flagged a, i.flagged ch, unmarked);
  })
]

-- The reads of an application, one after the other.
abbrev pub reads : {A : Type 0} → (ℕ → A → A) → List ℕ → A → A
reads on_read [] app = app
reads on_read (ch ∷ rest) app = reads on_read rest (on_read ch app)

read_each-reads :
    {A : Type 0} (on_read : ℕ → A → A) (chs : List ℕ) (flags : ℕ → Bool) (app : A)
    → (read_each on_read chs flags app).1 ≡ reads on_read chs app
unfolding read_each
read_each-reads on_read [] flags app = refl
read_each-reads on_read (ch ∷ rest) flags app =
    read_each-reads on_read rest (update flags ch false) (on_read ch app)

-- The flag of a channel that was read is down, the others are as they were.
read_each_flags :
    {A : Type 0} (on_read : ℕ → A → A) (chs : List ℕ) (flags : ℕ → Bool) (app : A) (ch : ℕ)
    → (read_each on_read chs flags app).0 ch ≡ (if count ch chs == 0 then flags ch else false)
unfolding read_each
read_each_flags on_read [] flags app ch = refl
read_each_flags on_read (c ∷ rest) flags app ch =
    read_each_flags on_read rest (update flags c false) (on_read c app) ch ∙ ground arith

mark_all-IsPendingReads :
    (chs : List ℕ) {s : PendingReads} → IsPendingReads s → IsPendingReads (mark_all chs s)
mark_all-IsPendingReads [] i = i
mark_all-IsPendingReads (ch ∷ rest) i =
    mark_all-IsPendingReads rest (mark_pending_read-IsPendingReads ch i)

count-mark_pending_read :
    (ch a : ℕ) {s : PendingReads}
    → IsPendingReads s
    → count a (mark_pending_read ch s).pending_reads
      ≡ max (count a s.pending_reads) (if a == ch then 1 else 0)
unfolding mark_pending_read
count-mark_pending_read ch a {s} i = elim (Bool-cases (s.in_pending_reads ch)) [
  | inl marked ↦ rw marked (ground (arith, i.flagged a, i.flagged ch, marked))
  | inr unmarked ↦ rw unmarked (
      ground (arith, count-append a s.pending_reads (ch ∷ []), i.flagged a, i.flagged ch, unmarked))
]

count-mark_all :
    (chs : List ℕ) (a : ℕ) {s : PendingReads}
    → IsPendingReads s
    → count a (mark_all chs s).pending_reads ≡ max (count a s.pending_reads) (min 1 (count a chs))
count-mark_all [] a i = omega arith
count-mark_all (ch ∷ rest) a i = ground (
  arith,
  count-mark_all rest a (mark_pending_read-IsPendingReads ch i),
  count-mark_pending_read ch a i,
)

-- A batch that marks the channels `chs`, in any order and any number of times, starting with none
-- marked, ends with one read of each channel that was marked and of no other; then no channel is
-- flagged and none is in the list.
pub on_batch_done_lem :
    {A : Type 0} (on_read : ℕ → A → A) (chs : List ℕ) (app : A)
    → let done = on_batch_done on_read (mark_all chs none_pending) app in
      ((order : List ℕ) × (done.1 ≡ reads on_read order app)
        × ((ch : ℕ) → count ch order ≡ min 1 (count ch chs)))
      × ((ch : ℕ) → done.0.in_pending_reads ch ≡ false)
      × (done.0.pending_reads ≡ [])
unfolding on_batch_done
on_batch_done_lem on_read chs app = (
  (
    marked.pending_reads,
    read_each-reads on_read marked.pending_reads marked.in_pending_reads app,
    λ ch. omega (arith, count-mark_all chs ch start),
  ),
  λ ch.
      read_each_flags on_read marked.pending_reads marked.in_pending_reads app ch
      ∙ ground (arith, sound.flagged ch),
  refl,
)
  where
    start : IsPendingReads none_pending
    start = record { flagged = λ ch. refl }

    marked : PendingReads
    marked = mark_all chs none_pending

    sound : IsPendingReads marked
    sound = mark_all-IsPendingReads chs start
