-- ===== src/Base/Bits.antt =====
-- `x & (capacity - 1)` is the remainder by a capacity that is a power of two.
use Prim.Native.Nat.{
  ℕ, zero, suc, ◌+◌, ◌-◌, ◌*◌, ◌/◌, ◌%◌, ◌^◌, ◌≤◌, ◌<◌, ◌∣◌, min, bit_and, digits, bit_and-bitwise,
}
use mathlib.Core.Path.{◌≡◌, refl, ap, ◌∙◌}
use native.Mathlib.Nat.{
  pow-suc, one-le-pow, mod-mod_of_dvd, pow-le-pow_right, mod-eq_of_lt, mod-lt, div-add-mod',
  mul-add-mod_self_right, dvd_refl, dvd-mul_right_of_dvd, zero-add,
}
use native.Mathlib.Omega.{arith}

-- The recursion on digits behind `bit_and`, with its fuel.
abbrev masked : ℕ → ℕ → ℕ → ℕ
masked n a b = digits (λ _. zero) min n a b

-- Fuel above the number makes no difference.
masked-fuel : (n m a b : ℕ) → a ≤ n → a ≤ m → masked n a b ≡ masked m a b
masked-fuel zero zero zero b p q = refl
masked-fuel zero (suc m) zero b p q = refl
masked-fuel (suc n) zero zero b p q = refl
masked-fuel (suc n) (suc m) zero b p q = refl
masked-fuel zero m (suc a) b p q = absurd (omega arith)
masked-fuel (suc n) zero (suc a) b p q = absurd (omega arith)
masked-fuel (suc n) (suc m) (suc a) b p q =
    omega (arith, masked-fuel n m (suc a / 2) (b / 2) (omega arith) (omega arith))

bit_and-halves : (a b : ℕ) → bit_and a b ≡ bit_and (a / 2) (b / 2) * 2 + min (a % 2) (b % 2)
bit_and-halves zero b = omega (arith, bit_and-bitwise 0 b, bit_and-bitwise 0 (b / 2))
bit_and-halves (suc a) b = omega (
  arith,
  bit_and-bitwise (suc a) b,
  bit_and-bitwise (suc a / 2) (b / 2),
  masked-fuel a (suc a / 2) (suc a / 2) (b / 2) (omega arith) (omega arith),
)

mod_halves : (k a : ℕ) → a % 2 ^ suc k ≡ a / 2 % 2 ^ k * 2 + a % 2
mod_halves k a =
    ap (λ (t : ℕ). t % 2 ^ suc k) parts
    ∙ mul-add-mod_self_right q (2 ^ suc k) low
    ∙ mod-eq_of_lt fits
  where
    q : ℕ
    q = a / 2 / 2 ^ k

    low : ℕ
    low = a / 2 % 2 ^ k * 2 + a % 2

    parts : a ≡ q * 2 ^ suc k + low
    parts = omega (arith, div-add-mod' (a / 2) (2 ^ k), ap (λ (t : ℕ). q * t) (pow-suc 2 k))

    fits : low < 2 ^ suc k
    fits = omega (arith, pow-suc 2 k, mod-lt (a / 2) {m = 2 ^ k} (one-le-pow k 2 (omega arith)))

bit_and-zero_fuel : (n b : ℕ) → b ≤ n → bit_and b 0 ≡ 0
bit_and-zero_fuel n zero h = refl
bit_and-zero_fuel zero (suc b) h = absurd (omega arith)
bit_and-zero_fuel (suc n) (suc b) h =
    omega (arith, bit_and-halves (suc b) 0, bit_and-zero_fuel n (suc b / 2) (omega arith))

-- The low `k` bits.
bit_and_low : (k a : ℕ) → bit_and a (2 ^ k - 1) ≡ a % 2 ^ k
bit_and_low zero a = omega (arith, bit_and-zero_fuel a a (omega arith))
bit_and_low (suc k) a = omega (
  arith,
  bit_and-halves a (2 ^ suc k - 1),
  pow-suc 2 k,
  one-le-pow k 2 (omega arith),
  ap (bit_and (a / 2)) half_mask,
  bit_and_low k (a / 2),
  mod_halves k a,
)
  where
    half_mask : (2 ^ suc k - 1) / 2 ≡ 2 ^ k - 1
    half_mask = omega (arith, pow-suc 2 k, one-le-pow k 2 (omega arith))

pow_dvd : (d j w : ℕ) → w ≡ d + j → 2 ^ j ∣ 2 ^ w
pow_dvd zero j w e = rw (e, zero-add) (dvd_refl (2 ^ j))
pow_dvd (suc d) j zero e = absurd (omega arith)
pow_dvd (suc d) j (suc w) e =
    rw (pow-suc 2 w) (dvd-mul_right_of_dvd (2 ^ j) (pow_dvd d j w (omega arith)) 2)

-- What the constructors assert of a capacity: a positive `int` with one bit set.
pub record IsCapacity (cap : ℕ) : Type 0 where
  pub log : ℕ
  pub small : log ≤ 30
  pub power : cap ≡ 2 ^ log

module _ {cap : ℕ} (c : IsCapacity cap) where
  pub capacity_pos : 0 < cap
  capacity_pos = omega (arith, c.power, one-le-pow c.log 2 (omega arith))

  pub capacity-le : cap ≤ 2 ^ 30
  capacity-le = omega (arith, c.power, pow-le-pow_right {n = 2} (omega arith) c.small)

  pub bit_and_mask : (x : ℕ) → bit_and x (cap - 1) ≡ x % cap
  bit_and_mask x = rw c.power (bit_and_low c.log x)

  -- A counter that wraps at a larger power of two keeps its place.
  pub mod_wrap : (w x : ℕ) → 30 ≤ w → x % 2 ^ w % cap ≡ x % cap
  mod_wrap w x h =
      mod-mod_of_dvd cap x (rw c.power (pow_dvd (w - c.log) c.log w (omega (arith, c.small))))
