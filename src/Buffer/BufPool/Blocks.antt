-- ===== src/Buffer/BufPool/Blocks.antt =====
-- The bytes of the blocks of a pool. Blocks do not overlap.
use native.Mathlib.Nat.{mod-eq_of_lt}
use native.Mathlib.Decide.{dec_lt, ℕ_discrete}
use uring_proactor.Base.{
  length, rows, count, ℕ, ◌+◌, ◌*◌, ◌≤◌, ◌<◌, ◌≡◌, refl, sym, ap, ap₂, ◌∙◌, ◌≢◌, ◌⊎◌, inl, inr,
  List, [], ◌∷◌, ◌++◌, append_assoc, arith,
}
use uring_proactor.Base.Memory.{rows-store_self, rows-store_apart, rows-add}
use uring_proactor.Buffer.BufPool.{BufPool, buf_addr, copy_to, release}
use uring_proactor.Buffer.BufPool.Invariant.{IsPool}

-- The bytes that block `a` holds, and those of several blocks in turn.
abbrev pub block : BufPool → ℕ → List ℕ
block p a = rows p.bufs (buf_addr p a) (p.data_size a)

abbrev pub contents : BufPool → List ℕ → List ℕ
contents p [] = []
contents p (a ∷ rest) = block p a ++ contents p rest

pub contents-append :
    (p : BufPool) (xs ys : List ℕ) → contents p (xs ++ ys) ≡ contents p xs ++ contents p ys
contents-append p [] ys = refl
contents-append p (x ∷ xs) ys =
    ap (◌++◌ (block p x)) (contents-append p xs ys)
    ∙ sym (append_assoc (block p x) (contents p xs) (contents p ys))

-- Pools that agree on the blocks of a list hold the same bytes there.
pub contents_cong :
    (p q : BufPool) (xs : List ℕ)
    → ((a : ℕ) → 0 < count a xs → block q a ≡ block p a)
    → contents q xs ≡ contents p xs
contents_cong p q [] h = refl
contents_cong p q (x ∷ xs) h =
    ap₂ ◌++◌ (h x (ground arith)) (contents_cong p q xs (λ a c. h a (omega arith)))

-- A release leaves the other blocks alone.
pub block-release : (p : BufPool) (idx a : ℕ) → a ≢ idx → block (release p idx) a ≡ block p a
unfolding release
block-release p idx a ne = ap (rows p.bufs (buf_addr p a)) (ground arith)

mul-le : (a n b : ℕ) → a < n → a * b + b ≤ n * b
mul-le a n b h = grind arith

module _ {held : ℕ → ℕ} {p : BufPool} (i : IsPool held p) where
  -- No address product wraps, and every block lies in the allocation.
  pub block_in : (a : ℕ) → a < p.buf_num → a * p.buf_size + p.buf_size ≤ p.buf_num * p.buf_size
  block_in a h = mul-le a p.buf_num p.buf_size h

  pub buf_addr-eq : (a : ℕ) → a < p.buf_num → buf_addr p a ≡ a * p.buf_size
  buf_addr-eq a h = mod-eq_of_lt (omega (arith, block_in a h, i.allocated))

  pub blocks_apart :
      (a b : ℕ)
      → a < p.buf_num
      → b < p.buf_num
      → a ≢ b
      → (buf_addr p a + p.buf_size ≤ buf_addr p b) ⊎ (buf_addr p b + p.buf_size ≤ buf_addr p a)
  blocks_apart a b ha hb ne = elim (dec_lt a b) [
    | yes lt ↦ inl (omega (arith, buf_addr-eq a ha, buf_addr-eq b hb, mul-le a b p.buf_size lt))
    | no ge ↦
        inr (omega (arith, buf_addr-eq a ha, buf_addr-eq b hb, mul-le b a p.buf_size (omega arith)))
  ]

  -- A copy into block `b`, from offset `off` on.
  module _ (b off : ℕ) (bytes : List ℕ) (hb : b < p.buf_num)
      (fits : off + length bytes ≤ p.buf_size) where
    unfoldable pub copied : BufPool
    copied = copy_to p (buf_addr p b + off) bytes

    rows-copied_else :
        (a n : ℕ)
        → a < p.buf_num
        → n ≤ p.buf_size
        → a ≢ b
        → rows copied.bufs (buf_addr p a) n ≡ rows p.bufs (buf_addr p a) n
    unfolding copied
    rows-copied_else a n ha hn ne =
        rows-store_apart p.bufs (buf_addr p b + off) bytes (buf_addr p a) n
          (elim (blocks_apart a b ha hb ne) [
            | inl lo ↦ inl (omega arith)
            | inr hi ↦ inr (omega arith)
          ])

    -- It leaves the other blocks alone, and the first `off` bytes of its own.
    pub rows-copied :
        (a n : ℕ)
        → a < p.buf_num
        → n ≤ p.buf_size
        → (a ≡ b → n ≤ off)
        → rows copied.bufs (buf_addr p a) n ≡ rows p.bufs (buf_addr p a) n
    unfolding copied
    rows-copied a n ha hn low = elim (ℕ_discrete a b) [
      | yes same ↦
          rows-store_apart p.bufs (buf_addr p b + off) bytes (buf_addr p a) n
            (inl (omega (arith, ap (buf_addr p) same, low same)))
      | no ne ↦ rows-copied_else a n ha hn ne
    ]

    -- Where the block held `off` bytes, it now holds the copied ones behind them.
    pub rows-copied_self :
        rows copied.bufs (buf_addr p b) (off + length bytes)
        ≡ rows p.bufs (buf_addr p b) off ++ bytes
    unfolding copied
    rows-copied_self =
        rows-add copied.bufs (buf_addr p b) off (length bytes)
        ∙ ap₂ ◌++◌ (rows-copied b off hb (omega arith) (λ _. omega arith))
            (rows-store_self p.bufs (buf_addr p b + off) bytes)
