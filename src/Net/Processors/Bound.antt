-- ===== src/Net/Processors/Bound.antt =====
-- The processors that the threads of a server (src/net/server.cpp) are bound to.
use uring_proactor.Base.{
  if◌then◌else◌, u32_mod, length, rows, append-nil, ap₂, ◌++◌, ◌⊎◌, inl, inr, ltb, lt→ltb, le→ltb,
  ℕ, zero, suc, ◌+◌, ◌-◌, ◌*◌, ◌<◌, ◌≤◌, ◌≡◌, refl, sym, ap, ◌∙◌, Bool, true, false, Option, none,
  some, List, [], ◌∷◌, arith,
}
use native.Mathlib.Decide.{dec_lt}
use native.Mathlib.Nat.{mod-eq_of_lt}
use uring_proactor.Net.Processors.{
  set_bits, node_bits, or_affinity, get_cpu_list, cpu_at, start_threads, start_server,
  sq_thread_cpu, bound_cpus,
}

-- The numbers from `i` on, a row at a time.
abbrev from : ℕ → ℕ → List ℕ
from i n = rows (λ k. k) i n

from-add : (i n m : ℕ) → from i (n + m) ≡ from i n ++ from (i + n) m
from-add i zero m = ap₂ from (omega arith) (omega arith)
from-add i (suc n) m =
    ap (from i) {y = suc (n + m)} (omega arith)
    ∙ ap (◌∷◌ i) (from-add (suc i) n m ∙ ap (λ t. from (suc i) n ++ from t m) (omega arith))

one_bit :
    (cpu : ℕ) (b : Bool) (xs ys zs : List ℕ)
    → xs ≡ ys ++ zs
    → (if b then cpu ∷ xs else xs) ≡ (if b then cpu ∷ ys else ys) ++ zs
one_bit cpu true xs ys zs e = ap (◌∷◌ cpu) e
one_bit cpu false xs ys zs e = e

set_bits-add :
    (mask : ℕ → Bool) (n m cpu : ℕ)
    → set_bits mask (n + m) cpu ≡ set_bits mask n cpu ++ set_bits mask m (cpu + n)
unfolding set_bits
set_bits-add mask zero m cpu = ap₂ (set_bits mask) (omega arith) (omega arith)
set_bits-add mask (suc n) m cpu =
    ap (λ t. set_bits mask t cpu) {y = suc (n + m)} (omega arith)
    ∙ one_bit cpu (mask cpu) _ (set_bits mask n (cpu + 1)) (set_bits mask m (cpu + suc n)) (
        set_bits-add mask n m (cpu + 1)
        ∙ ap (λ t. set_bits mask n (cpu + 1) ++ set_bits mask m t) (omega arith))

set_bits-none :
    (mask : ℕ → Bool) (n cpu : ℕ)
    → ((k : ℕ) → cpu ≤ k → k < cpu + n → mask k ≡ false)
    → set_bits mask n cpu ≡ []
unfolding set_bits
set_bits-none mask zero cpu h = refl
set_bits-none mask (suc n) cpu h =
    rw (h cpu (omega arith) (omega arith))
      (set_bits-none mask n (cpu + 1) (λ k lo hi. h k (omega arith) (omega arith)))

set_bits-all :
    (mask : ℕ → Bool) (n cpu : ℕ)
    → ((k : ℕ) → cpu ≤ k → k < cpu + n → mask k ≡ true)
    → set_bits mask n cpu ≡ from cpu n
unfolding set_bits
set_bits-all mask zero cpu h = refl
set_bits-all mask (suc n) cpu h = rw (h cpu (omega arith) (omega arith)) (
    ap (◌∷◌ cpu) (
      set_bits-all mask n (cpu + 1) (λ k lo hi. h k (omega arith) (omega arith))
      ∙ ap (λ t. from t n) (omega arith)))

-- Node `k` has the `per_node` processors from `k * per_node` on.
pub record InBlocks (node_cpus : ℕ → ℕ → Bool) (per_node : ℕ) : Type 0 where
  pub inside :
      (node cpu : ℕ)
      → node * per_node ≤ cpu
      → cpu < node * per_node + per_node
      → node_cpus node cpu ≡ true
  pub below : (node cpu : ℕ) → cpu < node * per_node → node_cpus node cpu ≡ false
  pub above : (node cpu : ℕ) → node * per_node + per_node ≤ cpu → node_cpus node cpu ≡ false

module _ {node_cpus : ℕ → ℕ → Bool} {per_node : ℕ} (blocks : InBlocks node_cpus per_node) where
  one_node :
      (node mask_size before after : ℕ)
      → before ≡ node * per_node
      → mask_size ≡ before + (per_node + after)
      → set_bits (node_cpus node) mask_size 0 ≡ from before per_node
  one_node node mask_size before after e size =
      ap (λ t. set_bits (node_cpus node) t 0) size
      ∙ set_bits-add (node_cpus node) before (per_node + after) 0
      ∙ ap
          (λ t.
            set_bits (node_cpus node) before 0 ++ set_bits (node_cpus node) (per_node + after) t)
          {y = before} (omega arith)
      ∙ ap₂ ◌++◌
          (set_bits-none (node_cpus node) before 0
            (λ k lo hi. blocks.below node k (omega (arith, e))))
          (set_bits-add (node_cpus node) per_node after before
            ∙ ap₂ ◌++◌
                (set_bits-all (node_cpus node) per_node before
                  (λ k lo hi. blocks.inside node k (omega (arith, e)) (omega (arith, e))))
                (set_bits-none (node_cpus node) after (before + per_node)
                  (λ k lo hi. blocks.above node k (omega (arith, e))))
            ∙ append-nil (from before per_node))

  all_nodes :
      (mask_size num_nodes node : ℕ)
      → (node + num_nodes) * per_node ≤ mask_size
      → node_bits node_cpus mask_size num_nodes node ≡ from (node * per_node) (num_nodes * per_node)
  unfolding node_bits
  all_nodes mask_size zero node fits =
      sym (ap (from (node * per_node)) {x = zero * per_node} {y = zero} (omega arith))
  all_nodes mask_size (suc n) node fits =
      ap₂ ◌++◌
        (one_node node mask_size (node * per_node) (mask_size - (node * per_node + per_node)) refl
          (omega (arith, room)))
        (all_nodes mask_size n (node + 1) (omega (arith, fits))
          ∙ ap (λ t. from t (n * per_node)) (omega arith))
      ∙ sym (from-add (node * per_node) per_node (n * per_node))
      ∙ ap (from (node * per_node)) {y = suc n * per_node} (omega arith)
    where
      room : node * per_node + per_node ≤ mask_size
      room = omega (arith, fits)

  cpu_list_blocks :
      (mask_size num_nodes setsize : ℕ) (affinity : Option (ℕ → Bool))
      → 0 < num_nodes * per_node
      → num_nodes * per_node ≤ mask_size
      → get_cpu_list node_cpus mask_size num_nodes affinity setsize ≡ from 0 (num_nodes * per_node)
  unfolding get_cpu_list or_affinity
  cpu_list_blocks mask_size num_nodes setsize affinity some_cpu fits =
      ap (λ l. or_affinity l affinity setsize)
        (all_nodes mask_size num_nodes 0 (omega (arith, fits))
          ∙ ap₂ from {y = 0} (omega arith) refl)
      ∙ kept (num_nodes * per_node) some_cpu
    where
      kept : (n : ℕ) → 0 < n → or_affinity (from 0 n) affinity setsize ≡ from 0 n
      kept zero h = absurd (omega arith)
      kept (suc n) h = refl

cpu_at-from : (n c i : ℕ) → i < n → cpu_at (from c n) i ≡ c + i
cpu_at-from zero c i h = absurd (omega arith)
cpu_at-from (suc n) c zero h = omega arith
cpu_at-from (suc n) c (suc i) h = cpu_at-from n (suc c) i (omega arith) ∙ omega arith

-- The threads from `i` on take the processors in pairs.
bound_from :
    (total n i : ℕ)
    → (i + n) * 2 ≤ total
    → total < u32_mod
    → (bound_cpus (start_threads true (from 0 total) n i) ≡ from (i * 2) (n * 2))
      × (length (start_threads true (from 0 total) n i) ≡ n)
unfolding start_threads
bound_from total zero i fits small =
    (sym (ap (from (i * 2)) {x = zero * 2} {y = zero} (omega arith)), refl)
bound_from total (suc n) i fits small = (
  ap₂ (λ a l. a ∷ sq_thread_cpu a ∷ l) (cpu_at-from total 0 (i * 2) (omega arith) ∙ omega arith)
        (bound_from total n (i + 1) (omega arith) small).0
      ∙ ap₂ (λ a l. (i * 2) ∷ a ∷ l) {y = suc (i * 2)}
          (mod-eq_of_lt {n = i * 2 + 1} {m = u32_mod} (omega arith) ∙ omega arith)
          (ap (λ t. from t (n * 2)) {y = suc (suc (i * 2))} (omega arith))
      ∙ ap (from (i * 2)) {x = suc (suc (n * 2))} {y = suc n * 2} (omega arith),
  ap suc (bound_from total n (i + 1) (omega arith) small).1,
)

length-from : (i n : ℕ) → length (from i n) ≡ n
length-from i zero = refl
length-from i (suc n) = ap suc (length-from (suc i) n)

too_few : (total n : ℕ) → total < n * 2 → ltb (length (from 0 total)) (n * 2) ≡ true
too_few total n h = lt→ltb (length (from 0 total)) (n * 2) (omega (arith, length-from 0 total))

enough_for : (total n : ℕ) → n * 2 ≤ total → ltb (length (from 0 total)) (n * 2) ≡ false
enough_for total n h = le→ltb (length (from 0 total)) (n * 2) (omega (arith, length-from 0 total))

-- With affinity, on nodes that have their processors in blocks one after the other, `start` throws
-- exactly where there are fewer than two processors for each thread; else each thread gets a
-- processor, and the threads and the kernel's threads beside them have the first processors, in order,
-- each once.
pub start_server_lem :
    (node_cpus : ℕ → ℕ → Bool) (per_node mask_size num_nodes setsize thread_nums : ℕ)
    (affinity : Option (ℕ → Bool))
    → InBlocks node_cpus per_node
    → 0 < num_nodes * per_node
    → num_nodes * per_node ≤ mask_size
    → num_nodes * per_node < u32_mod
    → ((num_nodes * per_node < thread_nums * 2)
        × (start_server true
              (get_cpu_list node_cpus mask_size num_nodes affinity setsize)
              thread_nums
            ≡ none))
      ⊎ ((thread_nums * 2 ≤ num_nodes * per_node)
          × ((threads : List (Option ℕ)) × (start_server true
                  (get_cpu_list node_cpus mask_size num_nodes affinity setsize)
                  thread_nums
                ≡ some threads)
              × (length threads ≡ thread_nums)
              × (bound_cpus threads ≡ rows (λ k. k) 0 (thread_nums * 2))))
unfolding start_server
start_server_lem node_cpus per_node mask_size num_nodes setsize thread_nums affinity blocks some_cpu
      fits small =
    rw (cpu_list_blocks blocks mask_size num_nodes setsize affinity some_cpu fits)
      (elim (dec_lt (num_nodes * per_node) (thread_nums * 2)) [
        | yes lt ↦ inl (lt, rw (too_few (num_nodes * per_node) thread_nums lt) refl)
        | no ge ↦ inr (
          omega arith,
          (
            start_threads true (from 0 (num_nodes * per_node)) thread_nums 0,
            rw (enough_for (num_nodes * per_node) thread_nums (omega arith)) refl,
            (bound_from (num_nodes * per_node) thread_nums 0 (omega arith) small).1,
            (bound_from (num_nodes * per_node) thread_nums 0 (omega arith) small).0,
          ),
        )
      ])
