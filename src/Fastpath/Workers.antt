-- ===== src/Fastpath/Workers.antt =====
-- pxd_fastpath.c: the worker threads of each NUMA node: the check of the module's setting and the
-- creation of the threads in fastpath_init, balanceIO, and fastpath_queue_work.
pub mod Laws
use Prim.Native.Nat.{bit_and}
use pxmod.Common.{
  ℕ, zero, suc, ◌+◌, ◌-◌, ◌%◌, ◌^◌, Bool, true, false, Option, none, some, List, [], ◌∷◌, ◌++◌,
  ◌==◌, ltb, leb, length, get_elem?, if◌then◌else◌, update,
}

abbrev pub max_alloc_pxfp_worker_threads_per_node : ℕ
max_alloc_pxfp_worker_threads_per_node = 8

abbrev pub default_pxfp_workers_per_node : ℕ
default_pxfp_workers_per_node = 4

-- MAX_PXFP_WORKERS_PER_NODE_MASK, in an unsigned.
abbrev pub workers_mask : ℕ → ℕ
workers_mask n = (n + (2 ^ 32 - 1)) % 2 ^ 32

abbrev pub at_most : ℕ → ℕ
at_most n =
    if ltb max_alloc_pxfp_worker_threads_per_node n
    then max_alloc_pxfp_worker_threads_per_node
    else n

-- The setting pxd_num_fpthreads after the checks of fastpath_init.
unfoldable pub check_fpthreads : ℕ → ℕ
check_fpthreads n =
    if bit_and (workers_mask (at_most n)) (at_most n) == 0
    then at_most n
    else default_pxfp_workers_per_node

-- The loop over the online CPUs of a node, with `active` threads so far: `create` is the thread that
-- kthread_create_worker_on_cpu returns for a CPU. `none` is a store past fpworker, or a thread that
-- cannot be created.
unfoldable pub create_workers : ℕ → (ℕ → Option ℕ) → List ℕ → List ℕ → Option (List ℕ)
create_workers n create [] workers = some workers
create_workers n create (cpu ∷ cpus) workers = elim (create cpu) [
  | none ↦ none
  | some worker ↦
      let rest = create_workers n create cpus (workers ++ worker ∷ []) in
      if leb max_alloc_pxfp_worker_threads_per_node (length workers)
      then none
      else if suc (length workers) == n
      then some (workers ++ worker ∷ [])
      else rest
]

-- struct pxfpcontext_percpu.
pub record PerCpu : Type 0 where
  pub fpbatch : ℕ
  pub mapped_cpu : ℕ

-- The worker to use, and the counters of the CPUs. `nr_cpus` is NR_CPUS.
unfoldable pub balance_io : ℕ → ℕ → Bool → (ℕ → PerCpu) → ℕ × (ℕ → PerCpu)
balance_io nr_cpus cpuid completion percpu =
    let this = percpu cpuid in
    let burst = (this.fpbatch + 1) % 256 in
    let mapped = if burst % 8 == 0 then (this.mapped_cpu + 1) % 2 ^ 32 else this.mapped_cpu in
    if completion
    then (cpuid, percpu)
    else if ltb cpuid nr_cpus
    then (mapped, update percpu cpuid (record { fpbatch = burst; mapped_cpu = mapped }))
    else (0, percpu)

-- What fpworker holds at an index: a thread, NULL, or something behind the array.
pub data Slot : Type 0 where
  worker : ℕ → Slot
  null : Slot
  outside : Slot

abbrev pub slot_of : Option ℕ → Slot
slot_of none = null
slot_of (some w) = worker w

abbrev pub fpworker : List ℕ → ℕ → Slot
fpworker workers i =
    if leb max_alloc_pxfp_worker_threads_per_node i then outside else slot_of (get_elem? workers i)

-- cpuid & MAX_PXFP_WORKERS_PER_NODE_MASK, for an `n` that is 0 or a power of two.
abbrev pub masked : ℕ → ℕ → ℕ
masked n cpuid = if n == 0 then cpuid else cpuid % n

-- `workers` are the threads of the node of the CPU, if that is valid. The queue that the work goes
-- to.
unfoldable pub fastpath_queue_work :
    ℕ → ℕ → ℕ → Option (List ℕ) → ℕ → Bool → (ℕ → PerCpu) → Slot × (ℕ → PerCpu)
fastpath_queue_work n nr_cpus fpdefault none cpuid completion percpu = (worker fpdefault, percpu)
fastpath_queue_work n nr_cpus fpdefault (some workers) cpuid completion percpu =
    let (cpuid, percpu) = balance_io nr_cpus cpuid completion percpu in
    (fpworker workers (masked n cpuid), percpu)
