-- ===== src/Statistic/Counters.antt =====
-- The integer counters of a statistic, as an abstract sum of what the threads counted.
use mathlib.Core.List.{Perm, Permᴰ}
use mathlib.Core.Logic.{∥∥₁_elim}
use nperf.Base.{
  ℕ, zero, suc, ◌≡◌, refl, sym, ◌∙◌, ap, Bool, true, false, List, [], ◌∷◌, Option, none, some,
  arith, add64, length, length-replicate, ok,
}
use nperf.Config.{Parameter}
use nperf.Config.Floats.{F64, Floats}
use nperf.Statistic.{
  Statistic, zeros, sq_slots, cq_slots, inflight_slots, new, add_slots, add_utilization,
  add_scalars, add, sum_from,
}

-- What the program promises to sum up over its threads and intervals.
pub record Counters : Type 0 where
  pub datagrams : ℕ
  pub data_bytes : ℕ
  pub reordered : ℕ
  pub duplicated : ℕ
  pub omitted : ℕ
  pub syscalls : ℕ
  pub io_model_calls : ℕ
  pub eagain : ℕ
  pub cq_overflows : ℕ
  pub out_of_buffers : ℕ
  pub copied_zc : ℕ
  pub canceled_multishot : ℕ

abbrev pub counters : Statistic → Counters
counters s = record {
  datagrams = s.amount_datagrams;
  data_bytes = s.amount_data_bytes;
  reordered = s.amount_reordered_datagrams;
  duplicated = s.amount_duplicated_datagrams;
  omitted = s.amount_omitted_datagrams;
  syscalls = s.amount_syscalls;
  io_model_calls = s.amount_io_model_calls;
  eagain = s.amount_eagain;
  cq_overflows = s.uring_cq_overflows;
  out_of_buffers = s.uring_out_of_buffers;
  copied_zc = s.uring_copied_zc;
  canceled_multishot = s.uring_canceled_multishot;
}

abbrev pub plus : Counters → Counters → Counters
plus a b = record {
  datagrams = add64 a.datagrams b.datagrams;
  data_bytes = add64 a.data_bytes b.data_bytes;
  reordered = add64 a.reordered b.reordered;
  duplicated = add64 a.duplicated b.duplicated;
  omitted = add64 a.omitted b.omitted;
  syscalls = add64 a.syscalls b.syscalls;
  io_model_calls = add64 a.io_model_calls b.io_model_calls;
  eagain = add64 a.eagain b.eagain;
  cq_overflows = add64 a.cq_overflows b.cq_overflows;
  out_of_buffers = add64 a.out_of_buffers b.out_of_buffers;
  copied_zc = add64 a.copied_zc b.copied_zc;
  canceled_multishot = add64 a.canceled_multishot b.canceled_multishot;
}

abbrev pub total : Counters → List Statistic → Counters
total c [] = c
total c (s ∷ ss) = total (plus c (counters s)) ss

plus_right_comm : (a b c : Counters) → plus (plus a b) c ≡ plus (plus a c) b
plus_right_comm a b c = ground arith

Counters-set : IsSet Counters
Counters-set = hlevel

total-Permᴰ : {ss ts : List Statistic} → Permᴰ ss ts → (c : Counters) → total c ss ≡ total c ts
total-Permᴰ Permᴰ.nil c = refl
total-Permᴰ (Permᴰ.cons {a = s} {b = t} {l₂ = ts} e p) c =
    total-Permᴰ p (plus c (counters s)) ∙ ap (λ x. total (plus c (counters x)) ts) e
total-Permᴰ (Permᴰ.swap {a = s} {b = t} {a' = s'} {b' = t'} {l = ss} e f) c =
    rw (e, f) (ap (λ x. total x ss) (plus_right_comm c (counters t') (counters s')))
total-Permᴰ (Permᴰ.trans p q) c = total-Permᴰ p c ∙ total-Permᴰ q c

pub total-perm : {ss ts : List Statistic} (c : Counters) → Perm ss ts → total c ss ≡ total c ts
total-perm c p = ∥∥₁_elim p (Counters-set _ _) (λ q. total-Permᴰ q c)

-- The shape of the arrays of a statistic: there when utilization is recorded, of the right sizes.
abbrev pub HasSlots : ℕ → Option (List ℕ) → Type 0
HasSlots n none = ⊥
HasSlots n (some xs) = length xs ≡ n

abbrev pub Slots : Bool → Statistic → Type 0
Slots false s = Unit {0}
Slots true s =
    HasSlots sq_slots s.uring_sq_utilization
    × HasSlots cq_slots s.uring_cq_utilization
    × HasSlots inflight_slots s.uring_inflight_utilization

pub record IsSized (recorded : Bool) (s : Statistic) : Type 0 where
  pub setting : s.parameter.uring_parameter.record_utilization ≡ recorded
  pub slots : Slots recorded s

abbrev pub AllSized : Bool → List Statistic → Type 0
AllSized r [] = Unit {0}
AllSized r (s ∷ ss) = IsSized r s × AllSized r ss

length-zeros : (n : ℕ) → length (zeros n) ≡ n
unfolding zeros
length-zeros n = length-replicate n 0

pub new-IsSized :
    (r : Bool) (p : Parameter) (now : F64)
    → p.uring_parameter.record_utilization ≡ r
    → IsSized r (new p now)
unfolding new
new-IsSized false p now e = record { setting = e; slots = tt }
new-IsSized true p now e = record {
  setting = e;
  slots = rw e (length-zeros sq_slots, length-zeros cq_slots, length-zeros inflight_slots);
}

add_slots_ok :
    (n : ℕ) (xs ys : List ℕ)
    → length xs ≡ n
    → length ys ≡ n
    → (zs : List ℕ) × (add_slots n xs ys ≡ ok zs) × (length zs ≡ n)
unfolding add_slots
add_slots_ok zero xs ys hx hy = ([], refl, refl)
add_slots_ok (suc n) [] ys hx hy = absurd (omega arith)
add_slots_ok (suc n) (x ∷ xs) [] hx hy = absurd (omega arith)
add_slots_ok (suc n) (x ∷ xs) (y ∷ ys) hx hy =
    let (zs, e, l) = add_slots_ok n xs ys (omega arith) (omega arith) in
    (add64 x y ∷ zs, rw e, omega arith)

add_utilization_ok :
    (n : ℕ) (x y : Option (List ℕ))
    → HasSlots n x
    → HasSlots n y
    → (zs : List ℕ) × (add_utilization n x y ≡ ok zs) × (length zs ≡ n)
unfolding add_utilization
add_utilization_ok n none y hx hy = absurd hx
add_utilization_ok n (some xs) none hx hy = absurd hy
add_utilization_ok n (some xs) (some ys) hx hy = add_slots_ok n xs ys hx hy

module _ (fl : Floats) where
  -- Two statistics of the same settings add up, to one of these settings, and the counters of the
  -- sum are the sums of the counters.
  pub add-total :
      (r : Bool) (a b : Statistic)
      → IsSized r a
      → IsSized r b
      → (c : Statistic) × (add fl a b ≡ ok c)
        × IsSized r c
        × (counters c ≡ plus (counters a) (counters b))
  unfolding add
  add-total false a b ha hb = (
    add_scalars fl a b none none none,
    rw ha.setting,
    record { setting = ha.setting; slots = tt },
    refl,
  )
  add-total true a b ha hb =
      let (sq, e1, l1) = add_utilization_ok sq_slots _ _ ha.slots.0 hb.slots.0 in
      let (cq, e2, l2) = add_utilization_ok cq_slots _ _ ha.slots.1 hb.slots.1 in
      let (inf, e3, l3) = add_utilization_ok inflight_slots _ _ ha.slots.2 hb.slots.2 in
      (
        add_scalars fl a b (some sq) (some cq) (some inf),
        rw (ha.setting, e1, e2, e3),
        record { setting = ha.setting; slots = (l1, l2, l3) },
        refl,
      )

  -- Adding up a list of statistics of the same settings succeeds, and gives the sum of their
  -- counters.
  pub sum_from-total :
      (r : Bool) (acc : Statistic) (ss : List Statistic)
      → IsSized r acc
      → AllSized r ss
      → (c : Statistic) × (sum_from fl acc ss ≡ ok c)
        × IsSized r c
        × (counters c ≡ total (counters acc) ss)
  unfolding sum_from
  sum_from-total r acc [] h hs = (acc, refl, h, refl)
  sum_from-total r acc (s ∷ ss) h hs =
      let (a, e, ha, ca) = add-total r acc s h hs.0 in
      let (c, e', hc, cc') = sum_from-total r a ss ha hs.1 in
      (c, rw e e', hc, cc' ∙ ap (λ x. total x ss) ca)

  -- The order in which a receiver adds up its measurements, or any node its intervals, does not change the counters of
  -- the sum, and in neither order does the sum fail. All statistics have the arrays that the settings ask for.
  pub sum_from-perm :
      (r : Bool) (acc : Statistic) (ss ts : List Statistic)
      → IsSized r acc
      → AllSized r ss
      → AllSized r ts
      → Perm ss ts
      → (c d : Statistic) × (sum_from fl acc ss ≡ ok c)
        × (sum_from fl acc ts ≡ ok d)
        × (counters c ≡ counters d)
  sum_from-perm r acc ss ts h hs ht p =
      let (c, e, _, x) = sum_from-total r acc ss h hs in
      let (d, e', _, y) = sum_from-total r acc ts h ht in
      (c, d, e, e', x ∙ total-perm (counters acc) p ∙ sym y)
