-- ===== src/Statistic/Print/Serialized.antt =====
-- The serializers of src/util/statistic.rs: the text that is written for an array of utilization. The order
-- in which the HashMap of the entries yields them is an argument: it is one of its own.
use mathlib.Core.List.{Perm, Permᴰ}
use mathlib.Core.List.Perm
use mathlib.Core.Logic.{∥∥₁_elim}
use native.Mathlib.Bridge.{le_prop}
use nperf.Base.{
  ℕ, zero, suc, ne→==, arith, ◌≡◌, refl, ap, subst, ◌∙◌, List, [], ◌∷◌, ◌++◌, map, Option, none,
  some, length, min, length-perm,
}
use nperf.Statistic.Print.{words, number, signed, fixed, Line}
use nperf.Statistic.Utilization.{
  enumerate_from, filter_used, written_entries, AllUpTo, Above, written_entries-largest,
}

-- `format!("'{}': {}", k, v)`
abbrev pub entry_text : ℕ × ℕ → Line
entry_text e = words "'" ∷ number 0 e.0 ∷ words "': " ∷ number 0 e.1 ∷ []

-- `join(", ")`
unfoldable pub join : List Line → Line
join [] = []
join (t ∷ []) = t
join (t ∷ u ∷ ts) = t ++ words ", " ∷ join (u ∷ ts)

-- `utilization::serialize`: the keys are places of the array, so no insertion replaces another.
unfoldable pub serialize : (List (ℕ × ℕ) → List (ℕ × ℕ)) → List ℕ → Line
unfolding written_entries join
serialize order slots =
    words "{" ∷ join (map entry_text (order (written_entries slots))) ++ words "}" ∷ []

-- `utilization_option_box_slice::serialize`
unfoldable pub serialize_box_slice : (List (ℕ × ℕ) → List (ℕ × ℕ)) → Option (List ℕ) → Option Line
unfolding serialize
serialize_box_slice order (some v) = some (serialize order v)
serialize_box_slice order none = none

-- What a reader finds in a text: its numbers, and these two by two.
abbrev pub numbers_in : Line → List ℕ
numbers_in [] = []
numbers_in (words w ∷ ps) = numbers_in ps
numbers_in (number width n ∷ ps) = n ∷ numbers_in ps
numbers_in (signed n ∷ ps) = numbers_in ps
numbers_in (fixed width precision x ∷ ps) = numbers_in ps

abbrev pub pairs : List ℕ → List (ℕ × ℕ)
pairs [] = []
pairs (k ∷ []) = []
pairs (k ∷ v ∷ ns) = (k, v) ∷ pairs ns

abbrev pub entries_in : Line → List (ℕ × ℕ)
entries_in t = pairs (numbers_in t)

flat : List (ℕ × ℕ) → List ℕ
flat [] = []
flat (e ∷ es) = e.0 ∷ e.1 ∷ flat es

pairs-flat : (es : List (ℕ × ℕ)) → pairs (flat es) ≡ es
unfolding flat
pairs-flat [] = refl
pairs-flat (e ∷ es) = ap (λ x. e ∷ x) (pairs-flat es)

numbers_in-end : (t : Line) → numbers_in (t ++ words "}" ∷ []) ≡ numbers_in t
numbers_in-end [] = refl
numbers_in-end (words w ∷ ps) = numbers_in-end ps
numbers_in-end (number width n ∷ ps) = ap (λ x. n ∷ x) (numbers_in-end ps)
numbers_in-end (signed n ∷ ps) = numbers_in-end ps
numbers_in-end (fixed width precision x ∷ ps) = numbers_in-end ps

numbers_in-join : (es : List (ℕ × ℕ)) → numbers_in (join (map entry_text es)) ≡ flat es
unfolding join flat
numbers_in-join [] = refl
numbers_in-join (e ∷ []) = refl
numbers_in-join (e ∷ f ∷ es) = ap (λ x. e.0 ∷ e.1 ∷ x) (numbers_in-join (f ∷ es))

entries_in-serialize :
    (order : List (ℕ × ℕ) → List (ℕ × ℕ)) (slots : List ℕ)
    → entries_in (serialize order slots) ≡ order (written_entries slots)
unfolding serialize
entries_in-serialize order slots =
    let es = order (written_entries slots) in
    ap pairs (numbers_in-end (join (map entry_text es)) ∙ numbers_in-join es) ∙ pairs-flat es

Above-permᴰ : {ss ts : List (ℕ × ℕ)} (ds : List (ℕ × ℕ)) → Permᴰ ss ts → Above ss ds → Above ts ds
Above-permᴰ ds Permᴰ.nil h = h
Above-permᴰ ds (Permᴰ.cons e p) h =
    (subst (λ (x : ℕ × ℕ). AllUpTo x.1 ds) e h.0, Above-permᴰ ds p h.1)
Above-permᴰ ds (Permᴰ.swap e f) h = (
  subst (λ (x : ℕ × ℕ). AllUpTo x.1 ds) f h.1.0,
  (subst (λ (x : ℕ × ℕ). AllUpTo x.1 ds) e h.0, h.1.1),
)
Above-permᴰ ds (Permᴰ.trans p q) h = Above-permᴰ ds q (Above-permᴰ ds p h)

AllUpTo-prop : (n : ℕ) (ds : List (ℕ × ℕ)) → IsProp (AllUpTo n ds)
AllUpTo-prop n [] = λ x y. refl
AllUpTo-prop n (d ∷ ds) = λ x y i. (le_prop x.0 y.0 i, AllUpTo-prop n ds x.1 y.1 i)

Above-prop : (ss ds : List (ℕ × ℕ)) → IsProp (Above ss ds)
Above-prop [] ds = λ x y. refl
Above-prop (s ∷ ss) ds = λ x y i. (AllUpTo-prop s.1 ds x.0 y.0 i, Above-prop ss ds x.1 y.1 i)

Above-perm : {ss ts : List (ℕ × ℕ)} (ds : List (ℕ × ℕ)) → Perm ss ts → Above ss ds → Above ts ds
Above-perm {ts = ts} ds p h = ∥∥₁_elim p (Above-prop ts ds) (λ q. Above-permᴰ ds q h)

-- The places of an array with a value of 2 or more, with these values.
abbrev pub over_one : ℕ → List ℕ → List (ℕ × ℕ)
over_one i [] = []
over_one i (zero ∷ vs) = over_one (suc i) vs
over_one i (suc zero ∷ vs) = over_one (suc i) vs
over_one i (suc (suc n) ∷ vs) = (i, suc (suc n)) ∷ over_one (suc i) vs

filter_used-over_one : (i : ℕ) (vs : List ℕ) → filter_used (enumerate_from i vs) ≡ over_one i vs
unfolding filter_used enumerate_from
filter_used-over_one i [] = refl
filter_used-over_one i (zero ∷ vs) = filter_used-over_one (suc i) vs
filter_used-over_one i (suc zero ∷ vs) = filter_used-over_one (suc i) vs
filter_used-over_one i (suc (suc n) ∷ vs) =
    rw (ne→== (suc (suc n)) 0 (λ e. omega arith), ne→== (suc (suc n)) 1 (λ e. omega arith))
      (ap (λ es. (i, suc (suc n)) ∷ es) (filter_used-over_one (suc i) vs))

-- The text that is written for an array of utilization holds, in whatever order the map yields them,
-- its largest entries: read back from the text, and together with the ones left out, they are exactly
-- the places of the array whose value is neither 0 nor 1, with that value; none that is left out has a larger value
-- than one that is written; and they are 15 or, where there are fewer, all.
pub serialize-largest :
    (order : List (ℕ × ℕ) → List (ℕ × ℕ)) (slots : List ℕ)
    → ((es : List (ℕ × ℕ)) → Perm (order es) es)
    → let found = entries_in (serialize order slots) in
      (left : List (ℕ × ℕ)) × Perm (found ++ left) (over_one 0 slots)
      × Above found left
      × (length found ≡ min 15 (length (over_one 0 slots)))
serialize-largest order slots h =
    let es = written_entries slots in
    let (left, together, _, above, amount) = written_entries-largest slots in
    let same = filter_used-over_one 0 slots in
    rw (entries_in-serialize order slots) (
      left,
      subst (Perm (order es ++ left)) same (Perm.trans (Perm.append_right left (h es)) together),
      Above-perm left (Perm.symm (h es)) above,
      length-perm (h es) ∙ amount ∙ ap (λ us. min 15 (length us)) same,
    )
