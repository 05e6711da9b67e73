-- ===== src/Base/Results.antt =====
-- Computations that may fail an assertion, as options: `none` is a failed assertion.
use mathlib.Core.Path.{◌≡◌, refl}
use mathlib.Core.Option.{Option, none, some}

infixl 5 ◌>>=◌
abbrev pub ◌>>=◌ : {A B : Type 0} → Option A → (A → Option B) → Option B
none >>= f = none
some a >>= f = f a

-- No assertion fails, and `P` holds of the result.
pub data Ends {A : Type 0} (P : A → Type 0) : Option A → Type 0 where
  ends : {a : A} → P a → Ends P (some a)

module _ {A : Type 0} {P : A → Type 0} where
  pub Ends-bind :
      {B : Type 0} {Q : B → Type 0} {m : Option A} {f : A → Option B}
      → Ends P m
      → ((a : A) → P a → Ends Q (f a))
      → Ends Q (m >>= f)
  Ends-bind (ends p) k = k _ p

  pub Ends-map : {Q : A → Type 0} {m : Option A} → Ends P m → ((a : A) → P a → Q a) → Ends Q m
  Ends-map (ends p) k = ends (k _ p)

  pub Ends-value : {m : Option A} → Ends P m → (a : A) × (m ≡ some a) × P a
  Ends-value (ends p) = (_, refl, p)

  pub Ends-some : {a : A} → Ends P (some a) → P a
  Ends-some (ends p) = p
