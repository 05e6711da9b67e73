-- ===== src/Base/Tests.antt =====
-- Boolean tests on the native numbers, the conditional, and machine words.
use Prim.Native.Nat.{ℕ, ◌+◌, ◌-◌, ◌%◌, ◌^◌, ◌≤◌, ◌<◌, compare, Ordering}
use mathlib.Core.Path.{◌≡◌, refl}
use mathlib.Core.Logic.{◌⊎◌, inl, inr}
use mathlib.Core.Bool.{Bool, true, false}
use mathlib.Core.Option.{Option, none, some}
use native.Mathlib.Nat.{mod-eq_of_lt, mod-eq-sub-mod}
use native.Mathlib.Decide.{dec_lt}
use native.Mathlib.Omega.{arith}

abbrev pub ltb : ℕ → ℕ → Bool
ltb a b = elim (compare a b) [ Ordering.lt ↦ true | _ ↦ false ]

abbrev pub leb : ℕ → ℕ → Bool
leb a b = elim (compare a b) [ Ordering.gt ↦ false | _ ↦ true ]

infix 50 ◌==◌
abbrev pub ◌==◌ : ℕ → ℕ → Bool
a == b = elim (compare a b) [ Ordering.eq ↦ true | _ ↦ false ]

infix 1 if◌then◌else◌
abbrev pub if◌then◌else◌ {ℓ} : {A : Type ℓ} → Bool → A → A → A
if true then x else y = x
if false then x else y = y

pub Bool-cases : (b : Bool) → (b ≡ true) ⊎ (b ≡ false)
Bool-cases true = inl refl
Bool-cases false = inr refl

pub Option-cases {ℓ} : {A : Type ℓ} (o : Option A) → (o ≡ none) ⊎ ((a : A) × (o ≡ some a))
Option-cases none = inl refl
Option-cases (some a) = inr (a, refl)

pub lt→ltb : (a b : ℕ) → a < b → ltb a b ≡ true
lt→ltb a b h = ground arith

pub le→ltb : (a b : ℕ) → b ≤ a → ltb a b ≡ false
le→ltb a b h = ground arith

pub le→leb : (a b : ℕ) → a ≤ b → leb a b ≡ true
le→leb a b h = ground arith

pub lt→leb : (a b : ℕ) → a < b → leb b a ≡ false
lt→leb a b h = ground arith

-- `unsigned int` and `uint64_t`: 32 and 64 bits, with sums and differences that wrap.
abbrev pub u32_mod : ℕ
u32_mod = 2 ^ 32

abbrev pub u64_mod : ℕ
u64_mod = 2 ^ 64

abbrev pub add_word : ℕ → ℕ → ℕ → ℕ
add_word m a b = (a + b) % m

abbrev pub sub_word : ℕ → ℕ → ℕ → ℕ
sub_word m a b = (a + m - b) % m

-- What a value below twice the modulus becomes.
pub mod-cases : (x m : ℕ) → x < m + m → ((x < m) × (x % m ≡ x)) ⊎ ((m ≤ x) × (x % m + m ≡ x))
mod-cases x m h = elim (dec_lt x m) [
  | yes low ↦ inl (low, mod-eq_of_lt low)
  | no high ↦ inr (
    omega arith,
    omega (
      arith,
      mod-eq-sub-mod {n = x} {m = m} (omega arith),
      mod-eq_of_lt {n = x - m} {m = m} (omega arith),
    ),
  )
]

-- A difference of two counters, and a counter's successor and predecessor, without `%`.
pub sub_word_cases :
    (m a b : ℕ)
    → a < m
    → b < m
    → ((b ≤ a) × (sub_word m a b + b ≡ a)) ⊎ ((a < b) × (sub_word m a b + b ≡ a + m))
sub_word_cases m a b ha hb = elim (mod-cases (a + m - b) m (omega arith)) [
  | inl (_, e) ↦ inr (omega arith, omega arith)
  | inr (_, e) ↦ inl (omega arith, omega arith)
]

pub next_cases : (m a : ℕ) → a < m → (add_word m a 1 ≡ a + 1) ⊎ ((a + 1 ≡ m) × (add_word m a 1 ≡ 0))
next_cases m a ha = elim (mod-cases (a + 1) m (omega arith)) [
  | inl (_, e) ↦ inl e
  | inr (_, e) ↦ inr (omega arith, omega arith)
]

pub sub_word-lt : (m a b : ℕ) → 0 < m → sub_word m a b < m
sub_word-lt m a b h = omega arith
