-- ===== src/Base/Ring.antt =====
pub mod Laws
use native.Mathlib.Decide.{dec_lt}
-- The circular queue that the pools and buffers share: an array, two counters that wrap at the
-- width of their type, and `& mask_` for the place of a counter. Seen as a list, oldest first.
use native.Mathlib.Nat.{add-mod-mod, mod-add-mod, mod-eq_of_lt, pow-le-pow_right, add-zero}
use native.Mathlib.Decide.{dec_lt}
use uring_proactor.Base.Tests.{◌==◌, if◌then◌else◌, Bool-cases, add_word, sub_word, mod-cases}
use uring_proactor.Base.Lists.{length, length-append, update}
use uring_proactor.Base.Bits.{IsCapacity, capacity_pos, capacity-le, bit_and_mask, mod_wrap}
use Prim.Native.Nat.{ℕ, zero, suc, ◌+◌, ◌-◌, ◌%◌, ◌^◌, ◌≤◌, ◌<◌, bit_and}
use mathlib.Core.Path.{◌≡◌, refl, sym, ap, ap₂, ◌∙◌}
use mathlib.Core.Logic.{◌≢◌, inl, inr}
use mathlib.Core.Bool.{true, false}
use mathlib.Core.List.{List, [], ◌∷◌, ◌++◌}
use native.Mathlib.Omega.{arith}

pub record Ring : Type 0 where
  pub slots : ℕ → ℕ
  pub head : ℕ
  pub tail : ℕ

-- `tail_ - head_`
unfoldable pub size : ℕ → Ring → ℕ
size m r = sub_word m r.tail r.head

-- `slots[tail_++ & mask_] = v`
unfoldable pub push : ℕ → ℕ → Ring → ℕ → Ring
push m mask r v = record r {
  slots = update r.slots (bit_and r.tail mask) v;
  tail = add_word m r.tail 1;
}

-- `slots[head_ & mask_]`
unfoldable pub front : ℕ → Ring → ℕ
front mask r = r.slots (bit_and r.head mask)

-- `head_++`
unfoldable pub advance : ℕ → Ring → Ring
advance m r = record r { head = add_word m r.head 1 }

-- `slots[(tail_ - 1) & mask_]`
unfoldable pub back : ℕ → ℕ → Ring → ℕ
back m mask r = r.slots (bit_and (sub_word m r.tail 1) mask)

-- `--tail_`
unfoldable pub retreat : ℕ → Ring → Ring
retreat m r = record r { tail = sub_word m r.tail 1 }

-- The `n` entries from the counter `h` on.
abbrev pub window : (ℕ → ℕ) → ℕ → ℕ → ℕ → List ℕ
window f cap h zero = []
window f cap h (suc n) = f (h % cap) ∷ window f cap (h + 1) n

unfoldable pub items : ℕ → ℕ → Ring → List ℕ
unfolding size
items m cap r = window r.slots cap r.head (size m r)

pub length-window : (f : ℕ → ℕ) (cap h n : ℕ) → length (window f cap h n) ≡ n
length-window f cap h zero = refl
length-window f cap h (suc n) = ap suc (length-window f cap (h + 1) n)

-- A window depends on its counter's place only.
pub window_place :
    (f : ℕ → ℕ) (cap h k n : ℕ) → h % cap ≡ k % cap → window f cap h n ≡ window f cap k n
window_place f cap h k zero e = refl
window_place f cap h k (suc n) e = ap₂ ◌∷◌ (ap f e) (window_place f cap (h + 1) (k + 1) n step)
  where
    step : (h + 1) % cap ≡ (k + 1) % cap
    step = sym (mod-add-mod h cap 1) ∙ ap (λ t. (t + 1) % cap) e ∙ mod-add-mod k cap 1

pub window-snoc :
    (f : ℕ → ℕ) (cap h n : ℕ)
    → window f cap h (suc n) ≡ window f cap h n ++ (f ((h + n) % cap) ∷ [])
window-snoc f cap h zero = ap (λ t. f (t % cap) ∷ []) (omega arith)
window-snoc f cap h (suc n) = ap (◌∷◌ (f (h % cap))) (
    window-snoc f cap (h + 1) n
    ∙ ap (λ t. window f cap (h + 1) n ++ (f (t % cap) ∷ [])) (omega arith))

-- Places less than a round apart differ.
pub place-ne : (cap h j : ℕ) → 0 < j → j < cap → (h + j) % cap ≢ h % cap
place-ne cap h j pos small e = elim (mod-cases (h % cap + j) cap (omega arith)) [
  | inl (_, q) ↦ omega (arith, mod-add-mod h cap j)
  | inr (_, q) ↦ omega (arith, mod-add-mod h cap j)
]

-- A write outside a window leaves it alone.
pub window-update :
    (f : ℕ → ℕ) (cap h n j v : ℕ)
    → n ≤ j
    → j < cap
    → window (update f ((h + j) % cap) v) cap h n ≡ window f cap h n
window-update f cap h zero j v le lt = refl
window-update f cap h (suc n) zero v le lt = absurd (omega arith)
window-update f cap h (suc n) (suc j) v le lt = ap₂ ◌∷◌ kept (
    ap (λ t. window (update f (t % cap) v) cap (h + 1) n) (omega arith)
    ∙ window-update f cap (h + 1) n j v (omega arith) (omega arith))
  where
    kept : update f ((h + suc j) % cap) v (h % cap) ≡ f (h % cap)
    kept = ground (arith, place-ne cap h (suc j))

pub head-push : (m mask : ℕ) (r : Ring) (v : ℕ) → (push m mask r v).head ≡ r.head
unfolding push
head-push m mask r v = refl

pub items-empty : (m cap : ℕ) (r : Ring) → size m r ≡ 0 → items m cap r ≡ []
unfolding items
items-empty m cap r e = ap (window r.slots cap r.head) e
