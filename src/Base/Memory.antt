-- ===== src/Base/Memory.antt =====
-- Bytes in memory: an address is a number, and memory is a byte at each address.
use Prim.Native.Nat.add
use native.Mathlib.Nat.{add-zero, zero-add}
use uring_proactor.Base.{
  length, take, update, rows, ℕ, zero, suc, ◌+◌, ◌-◌, ◌≤◌, ◌<◌, ◌≡◌, refl, sym, ap, ap₂, ◌∙◌, ◌⊎◌,
  inl, inr, List, [], ◌∷◌, ◌++◌, arith,
}

-- `std::copy(data, data + size, addr)`
abbrev pub store : (ℕ → ℕ) → ℕ → List ℕ → ℕ → ℕ
store mem addr [] = mem
store mem addr (x ∷ xs) = store (update mem addr x) (suc addr) xs

-- Addresses below a copy, and past its end, keep their bytes.
store_below :
    (mem : ℕ → ℕ) (addr : ℕ) (xs : List ℕ) (i : ℕ) → i < addr → store mem addr xs i ≡ mem i
store_below mem addr [] i h = refl
store_below mem addr (x ∷ xs) i h =
    store_below (update mem addr x) (suc addr) xs i (omega arith) ∙ ground arith

store_above :
    (mem : ℕ → ℕ) (addr : ℕ) (xs : List ℕ) (i : ℕ)
    → addr + length xs ≤ i
    → store mem addr xs i ≡ mem i
store_above mem addr [] i h = refl
store_above mem addr (x ∷ xs) i h =
    store_above (update mem addr x) (suc addr) xs i (omega arith) ∙ ground arith

-- What a copy wrote is read back.
pub rows-store_self :
    (mem : ℕ → ℕ) (addr : ℕ) (xs : List ℕ) → rows (store mem addr xs) addr (length xs) ≡ xs
rows-store_self mem addr [] = refl
rows-store_self mem addr (x ∷ xs) =
    ap₂ ◌∷◌ (store_below (update mem addr x) (suc addr) xs addr (omega arith) ∙ ground arith)
      (rows-store_self (update mem addr x) (suc addr) xs)

-- A range apart from the copy is untouched.
pub rows-store_apart :
    (mem : ℕ → ℕ) (addr : ℕ) (xs : List ℕ) (i n : ℕ)
    → (i + n ≤ addr) ⊎ (addr + length xs ≤ i)
    → rows (store mem addr xs) i n ≡ rows mem i n
rows-store_apart mem addr xs i zero h = refl
rows-store_apart mem addr xs i (suc n) (inl h) =
    ap₂ ◌∷◌ (store_below mem addr xs i (omega arith))
      (rows-store_apart mem addr xs (suc i) n (inl (omega arith)))
rows-store_apart mem addr xs i (suc n) (inr h) =
    ap₂ ◌∷◌ (store_above mem addr xs i (omega arith))
      (rows-store_apart mem addr xs (suc i) n (inr (omega arith)))

pub rows-add : (mem : ℕ → ℕ) (i n m : ℕ) → rows mem i (n + m) ≡ rows mem i n ++ rows mem (i + n) m
rows-add mem i zero m = ap₂ (rows mem) (sym (add-zero i)) (zero-add m)
rows-add mem i (suc n) m =
    ap (rows mem i) (add.suc n m)
    ∙ ap (◌∷◌ (mem i))
        (rows-add mem (suc i) n m ∙ ap (λ t. rows mem (suc i) n ++ rows mem t m) shifted)
  where
    shifted : suc i + n ≡ i + suc n
    shifted = omega arith

pub length-rows : (mem : ℕ → ℕ) (i n : ℕ) → length (rows mem i n) ≡ n
length-rows mem i zero = refl
length-rows mem i (suc n) = ap suc (length-rows mem (suc i) n)

pub take-nil : (n : ℕ) → take {A = ℕ} n [] ≡ []
take-nil zero = refl
take-nil (suc n) = refl

-- A wanted number of bytes that ends inside the first of two lists, or past it.
pub take-append : (n : ℕ) (xs ys : List ℕ) → n ≤ length xs → take n (xs ++ ys) ≡ take n xs
take-append zero xs ys h = refl
take-append (suc n) [] ys h = absurd (omega arith)
take-append (suc n) (x ∷ xs) ys h = ap (◌∷◌ x) (take-append n xs ys (omega arith))

pub take-append_ge :
    (n : ℕ) (xs ys : List ℕ) → length xs ≤ n → take n (xs ++ ys) ≡ xs ++ take (n - length xs) ys
take-append_ge n [] ys h = ap (λ k. take k ys) (omega arith)
take-append_ge zero (x ∷ xs) ys h = absurd (omega arith)
take-append_ge (suc n) (x ∷ xs) ys h =
    ap (◌∷◌ x) (take-append_ge n xs ys (omega arith) ∙ ap (λ k. xs ++ take k ys) (omega arith))

pub rows-take : (mem : ℕ → ℕ) (addr k n : ℕ) → k ≤ n → rows mem addr k ≡ take k (rows mem addr n)
rows-take mem addr zero n h = refl
rows-take mem addr (suc k) zero h = absurd (omega arith)
rows-take mem addr (suc k) (suc n) h =
    ap (◌∷◌ (mem addr)) (rows-take mem (suc addr) k n (omega arith))
