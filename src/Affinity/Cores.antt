-- ===== src/Affinity/Cores.antt =====
-- Which cores the threads get in src/util/core_affinity_manager.rs, without NUMA.
use native.Mathlib.Nat.{mod-add-mod, mod-lt, mod-eq_of_lt}
use native.Mathlib.Decide.{dec_lt}
use nperf.Base.{
  ℕ, zero, suc, ◌+◌, ◌-◌, ◌%◌, ◌^◌, ◌<◌, ◌≤◌, ◌≡◌, refl, ap, sym, none, ◌∙◌, true, false, ltb, List,
  [], ◌∷◌, map, arith, range_from, ok, lt→ltb, ne→==, if◌then◌else◌, le→ltb, pos, ◌>>=◌,
}
use nperf.Config.{sender, receiver}
use nperf.Affinity.{
  Topology, CoreAffinityManager, new, supported, next_core, as_isize, as_usize, step, remainder,
  get_core_id, core_ids,
}

as_isize_small : (n : ℕ) → n < 2 ^ 63 → as_isize n ≡ pos n
as_isize_small n h = rw (lt→ltb n (2 ^ 63) h) refl

next_core-sender :
    (core n : ℕ) → core < n → n < 2 ^ 63 → next_core sender core n ≡ ok ((core + 1) % n)
next_core-sender core n l small =
    rw (as_isize_small core (omega arith), ne→== n 0 (λ h. absurd (omega arith)))
      (ap (λ x. ok (x % n)) (omega arith))

next_core-receiver :
    (core n : ℕ) → core < n → 0 < core → n < 2 ^ 63 → next_core receiver core n ≡ ok (core - 1)
next_core-receiver zero n l pos_core small = absurd (omega arith)
next_core-receiver (suc c) n l pos_core small =
    rw (as_isize_small (suc c) (omega arith), ne→== n 0 (λ h. absurd (omega arith)))
      (ap ok (mod-eq_of_lt (omega arith) ∙ omega arith))

-- Core 0 has no one before it.
next_core-receiver_zero : (n : ℕ) → 1 < n → next_core receiver 0 n ≡ ok (2 ^ 64 - 1)
next_core-receiver_zero n h = rw (ne→== n 0 (λ e. absurd (omega arith)), mod-eq_of_lt h) refl

get_core_id-move :
    (m : CoreAffinityManager) (next : ℕ)
    → m.numa_affinity ≡ false
    → next_core m.mode m.next_core_id m.amount_cpus ≡ ok next
    → get_core_id m ≡ ok (m.next_core_id, record m { next_core_id = next })
unfolding get_core_id
get_core_id-move m next e q = rw (e, q) refl

core_ids-step :
    (count : ℕ) (m : CoreAffinityManager) (next : ℕ) (rest : List ℕ)
    → m.numa_affinity ≡ false
    → next_core m.mode m.next_core_id m.amount_cpus ≡ ok next
    → core_ids count (record m { next_core_id = next }) ≡ ok rest
    → core_ids (suc count) m ≡ ok (m.next_core_id ∷ rest)
unfolding core_ids
core_ids-step count m next rest e q r = rw (get_core_id-move m next e q) (rw r refl)

core_ids-sender :
    (count j : ℕ) (m : CoreAffinityManager)
    → m.numa_affinity ≡ false
    → m.mode ≡ sender
    → 0 < m.amount_cpus
    → m.amount_cpus < 2 ^ 63
    → m.next_core_id ≡ j % m.amount_cpus
    → core_ids count m ≡ ok (map (λ i. i % m.amount_cpus) (range_from j count))
unfolding core_ids
core_ids-sender zero j m e s some_cpu small at = refl
core_ids-sender (suc count) j m e s some_cpu small at =
    let n = m.amount_cpus in
    let next = (m.next_core_id + 1) % n in
    core_ids-step count m next _ e
      (rw s (next_core-sender m.next_core_id n (rw at (mod-lt j some_cpu)) small))
      (core_ids-sender count (suc j) (record m { next_core_id = next }) e s some_cpu small
        (ap (λ x. (x + 1) % n) at ∙ mod-add-mod j n 1 ∙ ap (λ x. x % n) (omega arith)))
    ∙ ap (λ x. ok (x ∷ map (λ i. i % n) (range_from (suc j) count))) at

-- The cores of a receiver's threads, as they come out.
abbrev pub receiver_core : ℕ → ℕ → ℕ
receiver_core n i = if ltb i n then n - 1 - i else 2 ^ 64 - 1

receiver_core-next :
    (j n : ℕ)
    → 1 < n
    → n < 2 ^ 63
    → j < n
    → next_core receiver (receiver_core n j) n ≡ ok (receiver_core n (suc j))
receiver_core-next j n h small l = elim (dec_lt (suc j) n) [
  | yes more ↦
      rw (lt→ltb j n l, lt→ltb (suc j) n more)
        (next_core-receiver (n - 1 - j) n (omega arith) (omega arith) small ∙ ap ok (omega arith))
  | no last_one ↦
      let z : n - 1 - j ≡ 0 = omega arith in
      rw (lt→ltb j n l, le→ltb (suc j) n (omega arith), z) (next_core-receiver_zero n h)
]

core_ids-last :
    (count j : ℕ) (m : CoreAffinityManager)
    → m.numa_affinity ≡ false
    → 0 < m.amount_cpus
    → count ≡ 0
    → m.next_core_id ≡ receiver_core m.amount_cpus j
    → core_ids (suc count) m
      ≡ ok (
          receiver_core m.amount_cpus j
          ∷ map (receiver_core m.amount_cpus) (range_from (suc j) count))
unfolding core_ids
core_ids-last zero j m e some_cpu z at =
    core_ids-step zero m
      (as_usize (remainder (step m.mode (as_isize m.next_core_id)) m.amount_cpus)) [] e
      (rw (ne→== m.amount_cpus 0 (λ q. absurd (omega arith))) refl) refl
    ∙ ap (λ x. ok (x ∷ [])) at
core_ids-last (suc count) j m e some_cpu z at = absurd (omega arith)

core_ids-receiver :
    (count j : ℕ) (m : CoreAffinityManager)
    → m.numa_affinity ≡ false
    → m.mode ≡ receiver
    → 1 < m.amount_cpus
    → m.amount_cpus < 2 ^ 63
    → j + count ≤ m.amount_cpus + 1
    → m.next_core_id ≡ receiver_core m.amount_cpus j
    → core_ids count m ≡ ok (map (receiver_core m.amount_cpus) (range_from j count))
unfolding core_ids
core_ids-receiver zero j m e s h small few at = refl
core_ids-receiver (suc count) j m e s h small few at = elim (dec_lt j m.amount_cpus) [
  | yes l ↦
      let n = m.amount_cpus in
      core_ids-step count m (receiver_core n (suc j)) _ e
        (rw (s, at) (receiver_core-next j n h small l))
        (core_ids-receiver count (suc j) (record m { next_core_id = receiver_core n (suc j) }) e s h
          small (omega arith) refl)
      ∙ ap (λ x. ok (x ∷ map (receiver_core n) (range_from (suc j) count))) at
  | no end ↦ core_ids-last count j m e (omega arith) (omega arith) at
]

-- The threads of a sender are bound to the cores of the machine in turn, from core 0 on, as many threads as there are.
-- The machine can be read and supports the binding, there is a core, and NUMA is not used.
pub core_ids-sender_new :
    (t : Topology) (count : ℕ)
    → supported t ≡ true
    → 0 < t.pu_count
    → t.pu_count < 2 ^ 63
    → new t sender none false >>= core_ids count
      ≡ ok (map (λ i. i % t.pu_count) (range_from 0 count))
unfolding new
core_ids-sender_new t count e some_cpu small =
    rw e (core_ids-sender count 0 _ refl refl some_cpu small (sym (mod-eq_of_lt some_cpu)))

-- The threads of a receiver are bound to the cores of the machine from the last to core 0; but the thread
-- after that, one more than there are cores, gets the core 2^64 - 1, since the remainder of -1 is
-- negative. There are at least two cores and at most one thread more than cores, the machine can be
-- read and supports the binding, and NUMA is not used.
pub core_ids-receiver_new :
    (t : Topology) (count : ℕ)
    → supported t ≡ true
    → 1 < t.pu_count
    → t.pu_count < 2 ^ 63
    → count ≤ t.pu_count + 1
    → new t receiver none false >>= core_ids count
      ≡ ok (map (receiver_core t.pu_count) (range_from 0 count))
unfolding new
core_ids-receiver_new t count e h small few = rw e (
    core_ids-receiver count 0 _ refl refl h small (omega arith)
      (rw (lt→ltb 0 t.pu_count (omega arith)) (omega arith)))
