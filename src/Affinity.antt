-- ===== src/Affinity.antt =====
-- src/util/core_affinity_manager.rs: the core that the next thread is bound to. What the crate hwlocality says of
-- the machine is an argument.
pub mod Cores
use nperf.Base.{
  ℕ, zero, suc, ◌+◌, ◌-◌, ◌%◌, ◌^◌, ◌==◌, ltb, leb, not, ◌&&◌, ℤ, pos, negsuc, Bool, true, false,
  List, [], ◌∷◌, Option, none, some, if◌then◌else◌, add64, sub64, get_elem?, length, Outcome, ok,
  err, fault, Fault, panicked, Error, numa_index_out_of_bounds, no_numa_cpu_set, no_core_in_cpu_set,
  binding_failed, unwrap_some, ◌>>=◌, ◌>>◌,
}
use nperf.Config.{NPerfMode, sender, receiver, is_receiver}

-- The topology: whether it can be read, what is supported, the number of processing units, the sets
-- of cores of the NUMA nodes, and whether the binding to a core succeeds.
pub record Topology : Type 0 where
  pub is_readable : Bool
  pub reports_pu_count : Bool
  pub cpu_binding : Option (Bool × Bool)
  pub pu_count : ℕ
  pub numa_nodes : List (Option (List ℕ))
  pub binds : ℕ → Bool

pub record CoreAffinityManager : Type 0 where
  pub topology : Topology
  pub mode : NPerfMode
  pub numa_affinity : Bool
  pub amount_cpus : ℕ
  pub next_numa_node : ℕ
  pub next_core_id : ℕ

-- The first node's number of cores; `unwrap` where it has no set.
abbrev pub numa_cpus : Topology → Bool → Outcome (Bool × ℕ)
numa_cpus t false = ok (false, t.pu_count)
numa_cpus t true = elim t.numa_nodes [
  | [] ↦ ok (false, t.pu_count)
  | x ∷ xs ↦ unwrap_some x >>= λ cores. ok (true, length cores)
]

abbrev pub first_core : NPerfMode → Option ℕ → ℕ → ℕ
first_core mode (some first_core_id) amount_cpus = first_core_id
first_core receiver none amount_cpus = sub64 amount_cpus 1
first_core sender none amount_cpus = 0

abbrev pub supported : Topology → Bool
supported t =
    t.is_readable
    && t.reports_pu_count
    && (elim t.cpu_binding [ none ↦ false | some (get, set) ↦ get && set ])

-- A machine that lacks a feature is a panic.
unfoldable pub new : Topology → NPerfMode → Option ℕ → Bool → Outcome CoreAffinityManager
new t mode first_core_id numa_affinity =
    if not (supported t)
    then fault panicked
    else (numa_cpus t numa_affinity >>= λ (numa, amount_cpus). ok (record {
      topology = t;
      mode = mode;
      numa_affinity = numa;
      amount_cpus = amount_cpus;
      next_numa_node = 0;
      next_core_id = first_core mode first_core_id amount_cpus;
    }))

-- `as isize` of 64 bits, and back.
abbrev pub as_isize : ℕ → ℤ
as_isize n = if ltb n (2 ^ 63) then pos n else negsuc (2 ^ 64 - 1 - n)

abbrev pub as_usize : ℤ → ℕ
as_usize (pos n) = n
as_usize (negsuc n) = 2 ^ 64 - suc n

-- `+ delta`: one back for the receiver, one on for the sender.
abbrev pub step : NPerfMode → ℤ → ℤ
step receiver (pos zero) = negsuc 0
step receiver (pos (suc n)) = pos n
step receiver (negsuc n) = negsuc (suc n)
step sender (pos n) = pos (suc n)
step sender (negsuc zero) = pos 0
step sender (negsuc (suc n)) = negsuc n

-- The remainder `%` has the sign of its left side; that by zero is a panic.
abbrev pub negated : ℕ → ℤ
negated zero = pos 0
negated (suc n) = negsuc n

abbrev pub remainder : ℤ → ℕ → ℤ
remainder (pos n) m = pos (n % m)
remainder (negsuc n) m = negated (suc n % m)

abbrev pub next_core : NPerfMode → ℕ → ℕ → Outcome ℕ
next_core mode core amount_cpus =
    if amount_cpus == 0
    then fault panicked
    else ok (as_usize (remainder (step mode (as_isize core)) amount_cpus))

-- The next NUMA node, also as the result.
unfoldable pub forward_numa_node : CoreAffinityManager → Outcome (ℕ × CoreAffinityManager)
forward_numa_node m =
    let n = length m.topology.numa_nodes in
    let node = add64 m.next_numa_node 1 % n in
    if n == 0 then fault panicked else ok (node, record m { next_numa_node = node })

abbrev pub move_core : ℕ → CoreAffinityManager → Outcome (ℕ × CoreAffinityManager)
move_core core m =
    next_core m.mode core m.amount_cpus >>= λ next. ok (core, record m { next_core_id = next })

-- With NUMA, the core moves on only after all nodes had their turn.
unfoldable pub get_core_id : CoreAffinityManager → Outcome (ℕ × CoreAffinityManager)
unfolding forward_numa_node
get_core_id m = elim m.numa_affinity [
  | false ↦ move_core m.next_core_id m
  | true ↦ forward_numa_node m >>= λ (node, m').
      if node == 0 then move_core m.next_core_id m' else ok (m.next_core_id, m')
]

-- The core of the machine: with NUMA, that of the node at the index.
abbrev pub absolute_core : ℕ → CoreAffinityManager → Outcome ℕ
absolute_core core m = elim m.numa_affinity [
  | false ↦ ok core
  | true ↦ elim (get_elem? m.topology.numa_nodes m.next_numa_node) [
    | none ↦ err numa_index_out_of_bounds
    | some none ↦ err no_numa_cpu_set
    | some (some cores) ↦ elim (get_elem? cores core) [
      | none ↦ err no_core_in_cpu_set
      | some absolute ↦ ok absolute
    ]
  ]
]

unfoldable pub bind_to_core : ℕ → CoreAffinityManager → Outcome (Unit {0})
bind_to_core core m = if m.topology.binds core then ok tt else err binding_failed

-- The result, and the manager, which has moved on also where the binding fails.
unfoldable pub set_affinity : CoreAffinityManager → Outcome (Unit {0}) × CoreAffinityManager
unfolding get_core_id bind_to_core
set_affinity m = elim (get_core_id m) [
  | err e ↦ (err e, m)
  | fault x ↦ (fault x, m)
  | ok (core, m') ↦ (absolute_core core m' >>= λ absolute. bind_to_core absolute m', m')
]

-- The core ids that `count` threads get one after the other.
unfoldable pub core_ids : ℕ → CoreAffinityManager → Outcome (List ℕ)
unfolding get_core_id
core_ids zero m = ok []
core_ids (suc count) m =
    get_core_id m >>= λ (core, m'). core_ids count m' >>= λ rest. ok (core ∷ rest)
