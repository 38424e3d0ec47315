-- ===== src/Statistic/Utilization.antt =====
-- The serializers of src/util/statistic.rs: of an array of utilization, the entries that are written, and of
-- an optional setting. The order in which the map of the entries is written is not fixed.
use mathlib.Core.List.{Perm}
use mathlib.Core.List.Perm
use native.Mathlib.Decide.{dec_lt}
use nperf.Base.{
  ℕ, zero, suc, ◌≤◌, ◌≡◌, refl, ap, sym, subst, ◌∙◌, ◌⊎◌, inl, inr, Bool, false, not, ◌&&◌, ◌==◌,
  ltb, List, [], ◌∷◌, ◌++◌, Option, none, some, arith, take, drop, length, length-take, length-perm,
  min, if◌then◌else◌, Bool-cases, ltb→lt, lt→ltb,
}

-- `iter().enumerate()`
unfoldable pub enumerate_from : ℕ → List ℕ → List (ℕ × ℕ)
enumerate_from i [] = []
enumerate_from i (v ∷ vs) = (i, v) ∷ enumerate_from (suc i) vs

-- `filter(|&(_, &value)| value != 0 && value != 1)`
unfoldable pub filter_used : List (ℕ × ℕ) → List (ℕ × ℕ)
filter_used [] = []
filter_used ((i, v) ∷ es) =
    if not (v == 0) && not (v == 1) then (i, v) ∷ filter_used es else filter_used es

-- `sort_by(|a, b| b.1.cmp(a.1))`: the larger values first, and equal ones as they were.
unfoldable pub insert_by_value : ℕ × ℕ → List (ℕ × ℕ) → List (ℕ × ℕ)
insert_by_value e [] = e ∷ []
insert_by_value e (f ∷ fs) = if ltb e.1 f.1 then f ∷ insert_by_value e fs else e ∷ f ∷ fs

unfoldable pub sort_by_value : List (ℕ × ℕ) → List (ℕ × ℕ)
sort_by_value [] = []
sort_by_value (e ∷ es) = insert_by_value e (sort_by_value es)

abbrev pub limit_length_output : ℕ
limit_length_output = 15

-- The entries that `serialize` puts in its map.
unfoldable pub written_entries : List ℕ → List (ℕ × ℕ)
unfolding enumerate_from filter_used sort_by_value
written_entries slots =
    take limit_length_output (sort_by_value (filter_used (enumerate_from 0 slots)))

-- `serialize_option_as_bool`: the number, or false.
unfoldable pub serialize_option : Option ℕ → ℕ ⊎ Bool
serialize_option (some n) = inl n
serialize_option none = inr false

insert-perm : (e : ℕ × ℕ) (es : List (ℕ × ℕ)) → Perm (insert_by_value e es) (e ∷ es)
unfolding insert_by_value
insert-perm e [] = Perm.refl (e ∷ [])
insert-perm e (f ∷ fs) = elim (Bool-cases (ltb e.1 f.1)) [
  | inl q ↦ rw (q, insert_by_value) (Perm.trans (Perm.cons f (insert-perm e fs)) (Perm.swap e f fs))
  | inr q ↦ rw (q, insert_by_value) (Perm.refl (e ∷ f ∷ fs))
]

sort-perm : (es : List (ℕ × ℕ)) → Perm (sort_by_value es) es
unfolding sort_by_value
sort-perm [] = Perm.refl []
sort-perm (e ∷ es) = Perm.trans (insert-perm e (sort_by_value es)) (Perm.cons e (sort-perm es))

-- No value of the list is larger than `n`; the values fall.
abbrev pub AllUpTo : ℕ → List (ℕ × ℕ) → Type 0
AllUpTo n [] = Unit {0}
AllUpTo n (e ∷ es) = (e.1 ≤ n) × AllUpTo n es

abbrev pub Falling : List (ℕ × ℕ) → Type 0
Falling [] = Unit {0}
Falling (e ∷ es) = AllUpTo e.1 es × Falling es

AllUpTo-le : (m n : ℕ) (es : List (ℕ × ℕ)) → m ≤ n → AllUpTo m es → AllUpTo n es
AllUpTo-le m n [] l h = tt
AllUpTo-le m n (e ∷ es) l h = (omega (arith, h.0), AllUpTo-le m n es l h.1)

insert-AllUpTo :
    (n : ℕ) (e : ℕ × ℕ) (es : List (ℕ × ℕ))
    → e.1 ≤ n
    → AllUpTo n es
    → AllUpTo n (insert_by_value e es)
unfolding insert_by_value
insert-AllUpTo n e [] l h = (l, tt)
insert-AllUpTo n e (f ∷ fs) l h = elim (Bool-cases (ltb e.1 f.1)) [
  | inl q ↦ rw (q, insert_by_value) (h.0, insert-AllUpTo n e fs l h.1)
  | inr q ↦ rw (q, insert_by_value) (l, h)
]

insert-Falling : (e : ℕ × ℕ) (es : List (ℕ × ℕ)) → Falling es → Falling (insert_by_value e es)
unfolding insert_by_value
insert-Falling e [] h = (tt, tt)
insert-Falling e (f ∷ fs) h = elim (Bool-cases (ltb e.1 f.1)) [
  | inl q ↦
      let l = ltb→lt e.1 f.1 q in
      rw (q, insert_by_value) (insert-AllUpTo f.1 e fs (omega arith) h.0, insert-Falling e fs h.1)
  | inr q ↦
      let l : f.1 ≤ e.1 = ge e.1 f.1 q in
      rw (q, insert_by_value) ((l, AllUpTo-le f.1 e.1 fs l h.0), h)
]
  where
    ge : (a b : ℕ) → ltb a b ≡ false → b ≤ a
    ge a b q = elim (dec_lt a b) [ yes l ↦ absurd (cc (q, lt→ltb a b l)) | no g ↦ omega arith ]

sort-Falling : (es : List (ℕ × ℕ)) → Falling (sort_by_value es)
unfolding sort_by_value
sort-Falling [] = tt
sort-Falling (e ∷ es) = insert-Falling e (sort_by_value es) (sort-Falling es)

-- No value of the second list is larger than one of the first.
abbrev pub Above : List (ℕ × ℕ) → List (ℕ × ℕ) → Type 0
Above [] ds = Unit {0}
Above (s ∷ ss) ds = AllUpTo s.1 ds × Above ss ds

drop-AllUpTo : (m n : ℕ) (es : List (ℕ × ℕ)) → AllUpTo m es → AllUpTo m (drop n es)
drop-AllUpTo m zero es h = h
drop-AllUpTo m (suc n) [] h = tt
drop-AllUpTo m (suc n) (e ∷ es) h = drop-AllUpTo m n es h.1

take-Above : (n : ℕ) (es : List (ℕ × ℕ)) → Falling es → Above (take n es) (drop n es)
take-Above zero es h = tt
take-Above (suc n) [] h = tt
take-Above (suc n) (e ∷ es) h = (drop-AllUpTo e.1 n es h.0, take-Above n es h.1)

take-AllUpTo : (m n : ℕ) (es : List (ℕ × ℕ)) → AllUpTo m es → AllUpTo m (take n es)
take-AllUpTo m zero es h = tt
take-AllUpTo m (suc n) [] h = tt
take-AllUpTo m (suc n) (e ∷ es) h = (h.0, take-AllUpTo m n es h.1)

take-Falling : (n : ℕ) (es : List (ℕ × ℕ)) → Falling es → Falling (take n es)
take-Falling zero es h = tt
take-Falling (suc n) [] h = tt
take-Falling (suc n) (e ∷ es) h = (take-AllUpTo e.1 n es h.0, take-Falling n es h.1)

take-append-drop : (n : ℕ) (es : List (ℕ × ℕ)) → take n es ++ drop n es ≡ es
take-append-drop zero es = refl
take-append-drop (suc n) [] = refl
take-append-drop (suc n) (e ∷ es) = ap (λ x. e ∷ x) (take-append-drop n es)

-- Of an array of utilization, the entries written are those with the largest values: together with
-- the ones left out they are exactly the entries whose value is neither 0 nor 1, their values fall,
-- none that is left out has a larger value than one that is written, and they are 15 or, where there
-- are fewer, all.
pub written_entries-largest :
    (slots : List ℕ)
    → let used = filter_used (enumerate_from 0 slots) in
      (left : List (ℕ × ℕ)) × Perm (written_entries slots ++ left) used
      × Falling (written_entries slots)
      × Above (written_entries slots) left
      × (length (written_entries slots) ≡ min 15 (length used))
unfolding written_entries
written_entries-largest slots =
    let used = filter_used (enumerate_from 0 slots) in
    let sorted = sort_by_value used in
    let falling = sort-Falling used in
    (
      drop 15 sorted,
      subst (λ x. Perm x used) (sym (take-append-drop 15 sorted)) (sort-perm used),
      take-Falling 15 sorted falling,
      take-Above 15 sorted falling,
      length-take 15 sorted ∙ ap (min 15) (length-perm (sort-perm used)),
    )
