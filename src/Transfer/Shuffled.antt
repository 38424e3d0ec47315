-- ===== src/Transfer/Shuffled.antt =====
-- Lists in another order: what holds of the packet ids and of the datagrams before, holds after.
use mathlib.Core.List.{Perm, Permᴰ}
use mathlib.Core.Logic.{∥∥₁_elim, ∥∥₁_map}
use mathlib.Core.HLevel.{⊥_prop}
use native.Mathlib.Bridge.{le_prop}
use nperf.Base.{
  ℕ, zero, suc, ◌+◌, ◌<◌, ◌≤◌, ◌≢◌, refl, sym, ap, subst, ◌∙◌, List, [], ◌∷◌, ◌++◌, map, range_from,
  arith,
}
use nperf.Packets.Accounting.{AllBelow}
use nperf.Packets.Distinct.{NotIn, Distinct}

NotIn-permᴰ : (n : ℕ) {xs ys : List ℕ} → Permᴰ xs ys → NotIn n xs → NotIn n ys
NotIn-permᴰ n Permᴰ.nil h = tt
NotIn-permᴰ n (Permᴰ.cons e p) h = (subst (λ x. n ≢ x) e h.0, NotIn-permᴰ n p h.1)
NotIn-permᴰ n (Permᴰ.swap e f) h = (subst (λ x. n ≢ x) f h.1.0, (subst (λ x. n ≢ x) e h.0, h.1.1))
NotIn-permᴰ n (Permᴰ.trans p q) h = NotIn-permᴰ n q (NotIn-permᴰ n p h)

Distinct-permᴰ : {xs ys : List ℕ} → Permᴰ xs ys → Distinct xs → Distinct ys
Distinct-permᴰ Permᴰ.nil h = tt
Distinct-permᴰ (Permᴰ.cons {l₂ = l₂} e p) h =
    (subst (λ x. NotIn x l₂) e (NotIn-permᴰ _ p h.0), Distinct-permᴰ p h.1)
Distinct-permᴰ (Permᴰ.swap {l = l} e f) h = (
  (λ k. h.0.0 (e ∙ sym k ∙ sym f), subst (λ x. NotIn x l) f h.1.0),
  (subst (λ x. NotIn x l) e h.0.1, h.1.1),
)
Distinct-permᴰ (Permᴰ.trans p q) h = Distinct-permᴰ q (Distinct-permᴰ p h)

AllBelow-permᴰ : (n : ℕ) {xs ys : List ℕ} → Permᴰ xs ys → AllBelow n xs → AllBelow n ys
AllBelow-permᴰ n Permᴰ.nil h = tt
AllBelow-permᴰ n (Permᴰ.cons e p) h = (subst (λ x. x < n) e h.0, AllBelow-permᴰ n p h.1)
AllBelow-permᴰ n (Permᴰ.swap e f) h =
    (subst (λ x. x < n) f h.1.0, (subst (λ x. x < n) e h.0, h.1.1))
AllBelow-permᴰ n (Permᴰ.trans p q) h = AllBelow-permᴰ n q (AllBelow-permᴰ n p h)

NotIn-prop : (n : ℕ) (xs : List ℕ) → IsProp (NotIn n xs)
NotIn-prop n [] = λ x y. refl
NotIn-prop n (z ∷ zs) = λ x y i. ((λ e. ⊥_prop (x.0 e) (y.0 e) i), NotIn-prop n zs x.1 y.1 i)

Distinct-prop : (xs : List ℕ) → IsProp (Distinct xs)
Distinct-prop [] = λ x y. refl
Distinct-prop (z ∷ zs) = λ x y i. (NotIn-prop z zs x.0 y.0 i, Distinct-prop zs x.1 y.1 i)

AllBelow-prop : (n : ℕ) (xs : List ℕ) → IsProp (AllBelow n xs)
AllBelow-prop n [] = λ x y. refl
AllBelow-prop n (z ∷ zs) = λ x y i. (le_prop x.0 y.0 i, AllBelow-prop n zs x.1 y.1 i)

pub Distinct-perm : {xs ys : List ℕ} → Perm xs ys → Distinct xs → Distinct ys
Distinct-perm {ys = ys} p h = ∥∥₁_elim p (Distinct-prop ys) (λ q. Distinct-permᴰ q h)

pub AllBelow-perm : (n : ℕ) {xs ys : List ℕ} → Perm xs ys → AllBelow n xs → AllBelow n ys
AllBelow-perm n {ys = ys} p h = ∥∥₁_elim p (AllBelow-prop n ys) (λ q. AllBelow-permᴰ n q h)

NotIn-left : (x : ℕ) (xs ys : List ℕ) → NotIn x (xs ++ ys) → NotIn x xs
NotIn-left x [] ys h = tt
NotIn-left x (z ∷ xs) ys h = (h.0, NotIn-left x xs ys h.1)

pub Distinct-left : (xs ys : List ℕ) → Distinct (xs ++ ys) → Distinct xs
Distinct-left [] ys h = tt
Distinct-left (x ∷ xs) ys h = (NotIn-left x xs ys h.0, Distinct-left xs ys h.1)

pub AllBelow-left : (n : ℕ) (xs ys : List ℕ) → AllBelow n (xs ++ ys) → AllBelow n xs
AllBelow-left n [] ys h = tt
AllBelow-left n (x ∷ xs) ys h = (h.0, AllBelow-left n xs ys h.1)

-- The numbers from `k` on differ, and stay below their end.
range_from-NotIn : (x k n : ℕ) → x < k → NotIn x (range_from k n)
range_from-NotIn x k zero l = tt
range_from-NotIn x k (suc n) l = ((λ e. omega arith), range_from-NotIn x (suc k) n (omega arith))

pub range_from-Distinct : (k n : ℕ) → Distinct (range_from k n)
range_from-Distinct k zero = tt
range_from-Distinct k (suc n) =
    (range_from-NotIn k (suc k) n (omega arith), range_from-Distinct (suc k) n)

pub range_from-AllBelow : (m k n : ℕ) → k + n ≤ m → AllBelow m (range_from k n)
range_from-AllBelow m k zero l = tt
range_from-AllBelow m k (suc n) l = (omega arith, range_from-AllBelow m (suc k) n (omega arith))

module _ {A : Type 0} where
  abbrev pub All : (A → Type 0) → List A → Type 0
  All P [] = Unit {0}
  All P (x ∷ xs) = P x × All P xs

  pub All-append : (P : A → Type 0) (xs ys : List A) → All P xs → All P ys → All P (xs ++ ys)
  All-append P [] ys h k = k
  All-append P (x ∷ xs) ys h k = (h.0, All-append P xs ys h.1 k)

  pub All-right : (P : A → Type 0) (xs ys : List A) → All P (xs ++ ys) → All P ys
  All-right P [] ys h = h
  All-right P (x ∷ xs) ys h = All-right P xs ys h.1

  All-permᴰ : (P : A → Type 0) {xs ys : List A} → Permᴰ xs ys → All P xs → All P ys
  All-permᴰ P Permᴰ.nil h = tt
  All-permᴰ P (Permᴰ.cons e p) h = (subst P e h.0, All-permᴰ P p h.1)
  All-permᴰ P (Permᴰ.swap e f) h = (subst P f h.1.0, (subst P e h.0, h.1.1))
  All-permᴰ P (Permᴰ.trans p q) h = All-permᴰ P q (All-permᴰ P p h)

  All-prop : (P : A → Type 0) → ((x : A) → IsProp (P x)) → (xs : List A) → IsProp (All P xs)
  All-prop P p [] = λ x y. refl
  All-prop P p (z ∷ zs) = λ x y i. (p z x.0 y.0 i, All-prop P p zs x.1 y.1 i)

  pub All-perm :
      (P : A → Type 0)
      → ((x : A) → IsProp (P x))
      → {xs ys : List A} → Perm xs ys
      → All P xs
      → All P ys
  All-perm P p {ys = ys} q h = ∥∥₁_elim q (All-prop P p ys) (λ d. All-permᴰ P d h)

  map-permᴰ : (f : A → ℕ) {xs ys : List A} → Permᴰ xs ys → Permᴰ (map f xs) (map f ys)
  map-permᴰ f Permᴰ.nil = Permᴰ.nil
  map-permᴰ f (Permᴰ.cons e p) = Permᴰ.cons (ap f e) (map-permᴰ f p)
  map-permᴰ f (Permᴰ.swap e g) = Permᴰ.swap (ap f e) (ap f g)
  map-permᴰ f (Permᴰ.trans p q) = Permᴰ.trans (map-permᴰ f p) (map-permᴰ f q)

  pub map-perm : (f : A → ℕ) {xs ys : List A} → Perm xs ys → Perm (map f xs) (map f ys)
  map-perm f p = ∥∥₁_map p (map-permᴰ f)

  pub All-left : (P : A → Type 0) (xs ys : List A) → All P (xs ++ ys) → All P xs
  All-left P [] ys h = tt
  All-left P (x ∷ xs) ys h = (h.0, All-left P xs ys h.1)
