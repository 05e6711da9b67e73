-- ===== src/Util/TimestampCache.antt =====
-- class TimestampCache (include/util/timestamp.hpp, src/util/timestamp.cpp): a sequence lock. A thread
-- stands between two of its accesses to shared memory; a copy by `memcpy` is an access for each byte.
pub mod Invariant
pub mod Moves
pub mod Read
use uring_proactor.Base.{
  ◌==◌, if◌then◌else◌, u32_mod, add_word, update, ℕ, zero, suc, ◌+◌, ◌%◌, ◌≡◌, Bool, true, false,
}

-- What a thread asks for: `get_datetime` or `get_date`.
pub data Field : Type 0 where
  datetime date : Field

-- `datetime_str_` has 24 bytes; the 12 of `date_str_` stand behind them here.
abbrev pub start_of : Field → ℕ
start_of datetime = 0
start_of date = 24

abbrev pub length_of : Field → ℕ
length_of datetime = 24
length_of date = 12

-- Where a thread is: outside; with the clock read and `cached_second_` loaded into `expected`; with the
-- exchange won; with the first `fetch_add` done and so many bytes copied; before the load of `s1`; with
-- `s1` and so many bytes of `out`; and with `out` returned.
pub data Place : Type 0 where
  outside : Place
  clocked : Field → ℕ → ℕ → Place
  won : Field → ℕ → Place
  writing : Field → ℕ → ℕ → Place
  waiting : Field → Place
  reading : Field → ℕ → ℕ → (ℕ → ℕ) → Place
  returned : Field → (ℕ → ℕ) → Place

pub record TimestampCache : Type 0 where
  pub cached_second : ℕ
  pub seq : ℕ
  pub bytes : ℕ → ℕ

-- `localtime_r` and `strftime`: the 36 bytes of `dt` and `d` for a second.
module _ (format : ℕ → ℕ → ℕ) where
  -- The next access of a thread while the clock shows `now`; a thread outside calls for `field`.
  unfoldable pub next_access : Field → ℕ → TimestampCache → Place → TimestampCache × Place
  next_access field now c outside =
      if now == c.cached_second then (c, waiting field) else (c, clocked field now c.cached_second)
  next_access field now c (clocked f second expected) =
      if c.cached_second == expected
      then (record c { cached_second = second }, won f second)
      else (c, waiting f)
  next_access field now c (won f second) =
      (record c { seq = add_word u32_mod c.seq 1 }, writing f second 0)
  next_access field now c (writing f second k) =
      if k == 36
      then (record c { seq = add_word u32_mod c.seq 1 }, waiting f)
      else (record c { bytes = update c.bytes k (format second k) }, writing f second (k + 1))
  next_access field now c (waiting f) =
      if c.seq % 2 == 1 then (c, waiting f) else (c, reading f c.seq 0 (λ m. 0))
  next_access field now c (reading f s1 k out) =
      if k == length_of f
      then (c, if s1 == c.seq then returned f out else waiting f)
      else (c, reading f s1 (k + 1) (update out k (c.bytes (start_of f + k))))
  next_access field now c (returned f out) = (c, outside)

  -- The cache with the threads; `begun` counts the updates whose first `fetch_add` is done, and
  -- `versions` are their texts, behind the one before any.
  pub record Threads : Type 0 where
    pub cache : TimestampCache
    pub places : ℕ → Place
    pub begun : ℕ
    pub versions : ℕ → ℕ → ℕ

  unfoldable pub noted : Place → Threads → Threads
  noted (won f second) s = record s {
    begun = s.begun + 1;
    versions = update s.versions (s.begun + 1) (format second);
  }
  noted _ s = s

  unfoldable pub thread_step : ℕ → Field → ℕ → Threads → Threads
  unfolding noted next_access
  thread_step i field now s =
      let (c, p) = next_access field now s.cache (s.places i) in
      record (noted (s.places i) s) { cache = c; places = update s.places i p }

  abbrev pub is_writing : Place → Bool
  is_writing (writing f second k) = true
  is_writing _ = false

  abbrev pub has_won : Place → Bool
  has_won (won f second) = true
  has_won _ = false

  -- Steps in any order, in which no thread begins an update while another writes.
  pub data Steps : Threads → Type 0 where
    at_first : Steps (record {
      cache = record { cached_second = 0; seq = 0; bytes = λ k. 0 };
      places = λ i. outside;
      begun = 0;
      versions = λ v k. 0;
    })
    then_step :
        {s : Threads} (i : ℕ) (field : Field) (now : ℕ)
        → Steps s
        → (has_won (s.places i) ≡ true → (j : ℕ) → is_writing (s.places j) ≡ false)
        → Steps (thread_step i field now s)
