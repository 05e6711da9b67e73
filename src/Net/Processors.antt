-- ===== src/Net/Processors.antt =====
-- The choice of processors in src/net/server.cpp: `get_cpu_list`, and the loop of `start` of TcpServer and
-- UdpServer; and `make_sqpoll_params` of class IoThread (src/core/io_thread.cpp), which gives the kernel's
-- thread its processor.
pub mod Bound
use uring_proactor.Base.{
  if◌then◌else◌, u32_mod, length, drop, drop-add, head_of, map, count, rows, append-nil,
  append_assoc, ap₂, ◌++◌, leb, ◌&&◌, ◌⊎◌, inl, inr, ltb, lt→ltb, le→ltb, ℕ, zero, suc, ◌+◌, ◌-◌,
  ◌*◌, ◌%◌, ◌<◌, ◌≤◌, ◌≡◌, refl, sym, ap, ◌∙◌, ◌≢◌, Bool, true, false, Option, none, some, List, [],
  ◌∷◌, arith,
}

-- The processors below `size` of which the bit is set, in rising order from `cpu` on.
unfoldable pub set_bits : (ℕ → Bool) → ℕ → ℕ → List ℕ
set_bits mask zero cpu = []
set_bits mask (suc n) cpu =
    let rest = set_bits mask n (cpu + 1) in if mask cpu then cpu ∷ rest else rest

-- The loop over the nodes; `node_cpus` is what `numa_node_to_cpus` gives.
unfoldable pub node_bits : (ℕ → ℕ → Bool) → ℕ → ℕ → ℕ → List ℕ
unfolding set_bits
node_bits node_cpus mask_size zero node = []
node_bits node_cpus mask_size (suc n) node =
    set_bits (node_cpus node) mask_size 0 ++ node_bits node_cpus mask_size n (node + 1)

-- `if (cpus.empty())`
unfoldable pub or_affinity : List ℕ → Option (ℕ → Bool) → ℕ → List ℕ
unfolding set_bits
or_affinity (cpu ∷ rest) affinity setsize = cpu ∷ rest
or_affinity [] none setsize = []
or_affinity [] (some set) setsize = set_bits set setsize 0

-- `get_cpu_list()`: with no node, or none with a processor, the processors of the process, unless
-- `sched_getaffinity` fails.
unfoldable pub get_cpu_list : (ℕ → ℕ → Bool) → ℕ → ℕ → Option (ℕ → Bool) → ℕ → List ℕ
unfolding node_bits or_affinity
get_cpu_list node_cpus mask_size num_nodes affinity setsize =
    or_affinity (node_bits node_cpus mask_size num_nodes 0) affinity setsize

-- `cpu_list[i]`
abbrev pub cpu_at : List ℕ → ℕ → ℕ
cpu_at cpus i = head_of (drop i cpus)

-- The loop of `start` from thread `i` on; none is a `cpu_id` of -1.
unfoldable pub start_threads : Bool → List ℕ → ℕ → ℕ → List (Option ℕ)
start_threads affinity cpus zero i = []
start_threads affinity cpus (suc n) i =
    (if affinity then some (cpu_at cpus (i * 2)) else none) ∷ start_threads affinity cpus n (i + 1)

-- `start()`: none is the exception.
unfoldable pub start_server : Bool → List ℕ → ℕ → Option (List (Option ℕ))
unfolding start_threads
start_server affinity cpus thread_nums =
    if affinity
    then if ltb (length cpus) (thread_nums * 2)
      then none
      else some (start_threads true cpus thread_nums 0)
    else some (start_threads false [] thread_nums 0)

-- `sq_thread_cpu`
abbrev pub sq_thread_cpu : ℕ → ℕ
sq_thread_cpu cpu_id = (cpu_id + 1) % u32_mod

-- The processors that the threads and the kernel's threads are bound to.
abbrev pub bound_cpus : List (Option ℕ) → List ℕ
bound_cpus [] = []
bound_cpus (none ∷ rest) = bound_cpus rest
bound_cpus (some cpu ∷ rest) = cpu ∷ sq_thread_cpu cpu ∷ bound_cpus rest
