-- ===== src/Tests/Totals.antt =====
-- The theorems on the statistics at concrete inputs.
use mathlib.Core.List.{Perm, perm_middle}
use mathlib.Core.List.Perm
use nperf.Statistic.Print.Serialized.{over_one, join, serialize, entries_in, serialize-largest}
use nperf.Statistic.Utilization.{
  enumerate_from, filter_used, written_entries, sort_by_value, insert_by_value, Above,
}
use nperf.Base.{ℕ, ◌++◌, length, min, ◌≡◌, refl, List, [], ◌∷◌, false, ok}
use nperf.Statistic.{Statistic, add, sum_from}
use nperf.Statistic
use nperf.Statistic.Counters.{counters, total, IsSized, new-IsSized, sum_from-total, sum_from-perm}
use nperf.Tests.{fresh, whole, parameter}

-- A thread that counted three datagrams, one that counted five.
abbrev three : Statistic
three = record fresh { amount_datagrams = 3 }

abbrev five : Statistic
five = record fresh { amount_datagrams = 5 }

fresh-IsSized : IsSized false fresh
fresh-IsSized = new-IsSized false parameter 0 refl

three-IsSized : IsSized false three
unfolding Statistic.new
three-IsSized = record { setting = refl; slots = tt }

five-IsSized : IsSized false five
unfolding Statistic.new
five-IsSized = record { setting = refl; slots = tt }

sum_from-total_example :
    (c : Statistic) × (sum_from whole fresh (three ∷ five ∷ []) ≡ ok c)
    × IsSized false c
    × (counters c ≡ total (counters fresh) (three ∷ five ∷ []))
sum_from-total_example =
    sum_from-total whole false fresh (three ∷ five ∷ []) fresh-IsSized
      (three-IsSized, (five-IsSized, tt))

swapped : Perm (three ∷ five ∷ []) (five ∷ three ∷ [])
swapped = perm_middle (three ∷ []) []

sum_from-perm_example :
    (c d : Statistic) × (sum_from whole fresh (three ∷ five ∷ []) ≡ ok c)
    × (sum_from whole fresh (five ∷ three ∷ []) ≡ ok d)
    × (counters c ≡ counters d)
sum_from-perm_example =
    sum_from-perm whole false fresh (three ∷ five ∷ []) (five ∷ three ∷ []) fresh-IsSized
      (three-IsSized, (five-IsSized, tt)) (five-IsSized, (three-IsSized, tt)) swapped

-- Slots 1 and 3 have a value above 1.
serialize-largest_example :
    let used = over_one 0 (1 ∷ 5 ∷ 0 ∷ 9 ∷ []) in
    let found = entries_in (serialize (λ es. es) (1 ∷ 5 ∷ 0 ∷ 9 ∷ [])) in
    (left : List (ℕ × ℕ)) × Perm (found ++ left) used
    × Above found left
    × (length found ≡ min 15 (length used))
serialize-largest_example = serialize-largest (λ es. es) (1 ∷ 5 ∷ 0 ∷ 9 ∷ []) Perm.refl

-- The text has the larger one first.
serialized_entries : entries_in (serialize (λ es. es) (1 ∷ 5 ∷ 0 ∷ 9 ∷ [])) ≡ (3, 9) ∷ (1, 5) ∷ []
unfolding serialize written_entries join enumerate_from filter_used sort_by_value insert_by_value
serialized_entries = refl
