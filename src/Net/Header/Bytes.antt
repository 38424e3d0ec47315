-- ===== src/Net/Header/Bytes.antt =====
-- The little-endian bytes of a word, and a write of bytes into memory.
use nperf.Base.{
  ℕ, zero, suc, ◌+◌, ◌*◌, ◌/◌, ◌%◌, ◌^◌, ◌≤◌, ◌<◌, ◌≡◌, refl, ap, List, [], ◌∷◌, ◌++◌, arith,
  length, take, drop,
}
use native.Mathlib.Nat.{pow-suc}

unfoldable pub le_bytes : ℕ → ℕ → List ℕ
le_bytes zero n = []
le_bytes (suc k) n = (n % 256) ∷ le_bytes k (n / 256)

unfoldable pub of_le : List ℕ → ℕ
of_le [] = 0
of_le (b ∷ bs) = b + 256 * of_le bs

-- The bytes from `at` on are replaced; what would lie past the end is dropped.
unfoldable pub write_at : List ℕ → ℕ → List ℕ → List ℕ
write_at [] at bs = []
write_at (m ∷ ms) (suc at) bs = m ∷ write_at ms at bs
write_at (m ∷ ms) zero [] = m ∷ ms
write_at (m ∷ ms) zero (b ∷ bs) = b ∷ write_at ms zero bs

pub length-le_bytes : (k n : ℕ) → length (le_bytes k n) ≡ k
unfolding le_bytes
length-le_bytes zero n = refl
length-le_bytes (suc k) n = ap suc (length-le_bytes k (n / 256))

pub of_le-le_bytes : (k n : ℕ) → n < 256 ^ k → of_le (le_bytes k n) ≡ n
unfolding le_bytes of_le
of_le-le_bytes zero n h = omega arith
of_le-le_bytes (suc k) n h =
    omega (arith, of_le-le_bytes k (n / 256) (omega (arith, pow-suc 256 k)))

pub length-write_at : (m : List ℕ) (at : ℕ) (bs : List ℕ) → length (write_at m at bs) ≡ length m
unfolding write_at
length-write_at [] at bs = refl
length-write_at (m ∷ ms) (suc at) bs = ap suc (length-write_at ms at bs)
length-write_at (m ∷ ms) zero [] = refl
length-write_at (m ∷ ms) zero (b ∷ bs) = ap suc (length-write_at ms zero bs)

pub take-write_at_zero :
    (m bs : List ℕ) → length bs ≤ length m → take (length bs) (write_at m 0 bs) ≡ bs
unfolding write_at
take-write_at_zero m [] h = refl
take-write_at_zero [] (b ∷ bs) h = absurd (omega arith)
take-write_at_zero (m ∷ ms) (b ∷ bs) h = ap (◌∷◌ b) (take-write_at_zero ms bs (omega arith))

-- What was written is what is read there.
pub take-drop-write_at :
    (m : List ℕ) (at : ℕ) (bs : List ℕ)
    → at + length bs ≤ length m
    → take (length bs) (drop at (write_at m at bs)) ≡ bs
unfolding write_at
take-drop-write_at m zero bs h = take-write_at_zero m bs (omega arith)
take-drop-write_at [] (suc at) bs h = absurd (omega arith)
take-drop-write_at (m ∷ ms) (suc at) bs h = take-drop-write_at ms at bs (omega arith)

-- A write leaves alone what lies before it.
pub take-drop-write_at_before :
    (m : List ℕ) (i k at : ℕ) (bs : List ℕ)
    → i + k ≤ at
    → take k (drop i (write_at m at bs)) ≡ take k (drop i m)
unfolding write_at
take-drop-write_at_before [] i k at bs h = refl
take-drop-write_at_before (m ∷ ms) (suc i) k zero bs h = absurd (omega arith)
take-drop-write_at_before (m ∷ ms) (suc i) k (suc at) bs h =
    take-drop-write_at_before ms i k at bs (omega arith)
take-drop-write_at_before (m ∷ ms) zero zero at bs h = refl
take-drop-write_at_before (m ∷ ms) zero (suc k) zero bs h = absurd (omega arith)
take-drop-write_at_before (m ∷ ms) zero (suc k) (suc at) bs h =
    ap (◌∷◌ m) (take-drop-write_at_before ms zero k at bs (omega arith))

-- Nor what lies past it.
pub take-drop-write_at_after :
    (m : List ℕ) (i k at : ℕ) (bs : List ℕ)
    → at + length bs ≤ i
    → take k (drop i (write_at m at bs)) ≡ take k (drop i m)
unfolding write_at
take-drop-write_at_after [] i k at bs h = refl
take-drop-write_at_after (m ∷ ms) zero k zero [] h = refl
take-drop-write_at_after (m ∷ ms) zero k zero (b ∷ bs) h = absurd (omega arith)
take-drop-write_at_after (m ∷ ms) zero k (suc at) bs h = absurd (omega arith)
take-drop-write_at_after (m ∷ ms) (suc i) k zero [] h = refl
take-drop-write_at_after (m ∷ ms) (suc i) k zero (b ∷ bs) h =
    take-drop-write_at_after ms i k zero bs (omega arith)
take-drop-write_at_after (m ∷ ms) (suc i) k (suc at) bs h =
    take-drop-write_at_after ms i k at bs (omega arith)

-- A write of two pieces is the write of the one and then of the other.
pub write_at-append :
    (m : List ℕ) (at next : ℕ) (xs ys : List ℕ)
    → next ≡ at + length xs
    → write_at m at (xs ++ ys) ≡ write_at (write_at m at xs) next ys
unfolding write_at
write_at-append [] at next xs ys e = refl
write_at-append (m ∷ ms) zero next [] ys e = let z : next ≡ 0 = omega arith in rw z
write_at-append (m ∷ ms) zero zero (x ∷ xs) ys e = absurd (omega arith)
write_at-append (m ∷ ms) zero (suc next) (x ∷ xs) ys e =
    ap (◌∷◌ x) (write_at-append ms zero next xs ys (omega arith))
write_at-append (m ∷ ms) (suc at) zero xs ys e = absurd (omega arith)
write_at-append (m ∷ ms) (suc at) (suc next) xs ys e =
    ap (◌∷◌ m) (write_at-append ms at next xs ys (omega arith))
