-- ===== src/Net/ProcessorExamples.antt =====
-- Two nodes with four processors each: runs of the code, and a use of the theorem.
use uring_proactor.Base.{
  ltb, leb, ◌==◌, rows, length, count, ℕ, ◌+◌, ◌*◌, ◌%◌, ◌<◌, ◌≤◌, ◌≡◌, refl, ◌⊎◌, Bool, true, ◌&&◌,
  Option, none, some, List, [], ◌∷◌, arith,
}
use uring_proactor.Net.Processors.{
  set_bits, node_bits, or_affinity, get_cpu_list, start_threads, start_server, bound_cpus,
}
use uring_proactor.Net.Processors.Bound.{InBlocks, start_server_lem}

abbrev four_each : ℕ → ℕ → Bool
four_each node cpu = leb (node * 4) cpu && ltb cpu (node * 4 + 4)

four_each-InBlocks : InBlocks four_each 4
four_each-InBlocks = record {
  inside = λ node cpu lo hi. ground arith;
  below = λ node cpu h. ground arith;
  above = λ node cpu h. ground arith;
}

abbrev block_list : List ℕ
block_list = get_cpu_list four_each 64 2 none 1024

start_server_lem_example :
    ((8 < 6) × (start_server true block_list 3 ≡ none))
    ⊎ ((6 ≤ 8)
        × ((threads : List (Option ℕ)) × (start_server true block_list 3 ≡ some threads)
            × (length threads ≡ 3)
            × (bound_cpus threads ≡ rows (λ k. k) 0 6)))
start_server_lem_example =
    start_server_lem four_each 4 64 2 1024 3 none four_each-InBlocks (omega arith) (omega arith)
      (omega arith)

three_threads : start_server true block_list 3 ≡ some (some 0 ∷ some 2 ∷ some 4 ∷ [])
unfolding start_server start_threads get_cpu_list or_affinity node_bits set_bits
three_threads = refl

-- Where the nodes take turns, as on many machines, the processor beside a thread's own is one of the
-- other node: processor 1 gets the kernel's thread of the first thread, and the third thread.
abbrev turns : ℕ → ℕ → Bool
turns node cpu = cpu % 2 == node && ltb cpu 8

turns_shared :
    (threads : List (Option ℕ)) × (start_server true (get_cpu_list turns 64 2 none 1024) 3
      ≡ some threads)
    × (count 1 (bound_cpus threads) ≡ 2)
unfolding start_server start_threads get_cpu_list or_affinity node_bits set_bits
turns_shared = (some 0 ∷ some 4 ∷ some 1 ∷ [], refl, refl)
