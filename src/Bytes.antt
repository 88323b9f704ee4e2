-- ===== src/Bytes.antt =====
-- Byte strings: Go's strings, slices of bytes and ArrayBuffers are lists of numbers. The functions
-- are those of Go's packages bytes, strings and encoding/binary that the program calls.
use egvm.Prelude.{
  ℕ, zero, suc, ◌≡◌, refl, Bool, true, false, List, [], ◌∷◌, ltb, ◌==◌, arith, if◌then◌else◌, ℤ,
  pos, negsuc,
}

abbrev pub Bytes : Type 0
Bytes = List ℕ

-- bytes.Equal
unfoldable pub equal_bytes : Bytes → Bytes → Bool
equal_bytes [] [] = true
equal_bytes [] (y ∷ ys) = false
equal_bytes (x ∷ xs) [] = false
equal_bytes (x ∷ xs) (y ∷ ys) = let rest = equal_bytes xs ys in if x == y then rest else false

-- bytes.Compare and strings.Compare: -1, 0 or 1
unfoldable pub compare_bytes : Bytes → Bytes → ℤ
compare_bytes [] [] = pos 0
compare_bytes [] (y ∷ ys) = negsuc 0
compare_bytes (x ∷ xs) [] = pos 1
compare_bytes (x ∷ xs) (y ∷ ys) =
    let rest = compare_bytes xs ys in if ltb x y then negsuc 0 else if ltb y x then pos 1 else rest

-- The test `compare(a, b) < 0`.
unfoldable pub is_less : Bytes → Bytes → Bool
is_less a b = elim (compare_bytes a b) [ pos n ↦ false | negsuc n ↦ true ]

pub equal_bytes_refl : (xs : Bytes) → equal_bytes xs xs ≡ true
unfolding equal_bytes
equal_bytes_refl [] = refl
equal_bytes_refl (x ∷ xs) = ground (arith, equal_bytes_refl xs)

pub equal_bytes_sound : (xs ys : Bytes) → equal_bytes xs ys ≡ true → xs ≡ ys
unfolding equal_bytes
equal_bytes_sound [] [] h = refl
equal_bytes_sound [] (y ∷ ys) h = cc
equal_bytes_sound (x ∷ xs) [] h = cc
equal_bytes_sound (x ∷ xs) (y ∷ ys) h = ground (arith, equal_bytes_sound xs ys)

pub compare_bytes_refl : (xs : Bytes) → compare_bytes xs xs ≡ pos 0
unfolding compare_bytes
compare_bytes_refl [] = refl
compare_bytes_refl (x ∷ xs) = ground (arith, compare_bytes_refl xs)

pub compare_bytes_eq : (xs ys : Bytes) → compare_bytes xs ys ≡ pos 0 → xs ≡ ys
unfolding compare_bytes
compare_bytes_eq [] [] h = refl
compare_bytes_eq [] (y ∷ ys) h = cc
compare_bytes_eq (x ∷ xs) [] h = cc
compare_bytes_eq (x ∷ xs) (y ∷ ys) h = ground (arith, compare_bytes_eq xs ys)

-- -c, for the three results of a comparison.
abbrev pub opposite_order : ℤ → ℤ
opposite_order (pos zero) = pos 0
opposite_order (pos (suc n)) = negsuc n
opposite_order (negsuc n) = pos (suc n)

pub compare_bytes_swap :
    (xs ys : Bytes) → compare_bytes ys xs ≡ opposite_order (compare_bytes xs ys)
unfolding compare_bytes
compare_bytes_swap [] [] = refl
compare_bytes_swap [] (y ∷ ys) = refl
compare_bytes_swap (x ∷ xs) [] = refl
compare_bytes_swap (x ∷ xs) (y ∷ ys) = ground (arith, compare_bytes_swap xs ys)

pub compare_bytes_trans :
    (xs ys zs : Bytes)
    → compare_bytes xs ys ≡ negsuc 0
    → compare_bytes ys zs ≡ negsuc 0
    → compare_bytes xs zs ≡ negsuc 0
unfolding compare_bytes
compare_bytes_trans [] [] zs p q = cc
compare_bytes_trans (x ∷ xs) [] zs p q = cc
compare_bytes_trans [] (y ∷ ys) [] p q = cc
compare_bytes_trans (x ∷ xs) (y ∷ ys) [] p q = cc
compare_bytes_trans [] (y ∷ ys) (z ∷ zs) p q = refl
compare_bytes_trans (x ∷ xs) (y ∷ ys) (z ∷ zs) p q = ground (arith, compare_bytes_trans xs ys zs)

pub is_less_trans :
    (xs ys zs : Bytes) → is_less xs ys ≡ true → is_less ys zs ≡ true → is_less xs zs ≡ true
unfolding is_less compare_bytes
is_less_trans [] [] zs p q = cc
is_less_trans (x ∷ xs) [] zs p q = cc
is_less_trans [] (y ∷ ys) [] p q = cc
is_less_trans (x ∷ xs) (y ∷ ys) [] p q = cc
is_less_trans [] (y ∷ ys) (z ∷ zs) p q = refl
is_less_trans (x ∷ xs) (y ∷ ys) (z ∷ zs) p q = ground (arith, is_less_trans xs ys zs)

pub is_less_irrefl : (xs : Bytes) → is_less xs xs ≡ false
unfolding is_less
is_less_irrefl xs = ground (arith, compare_bytes_refl xs)

pub is_less_asymm : (xs ys : Bytes) → is_less xs ys ≡ true → is_less ys xs ≡ false
unfolding is_less
is_less_asymm xs ys h = ground (arith, compare_bytes_swap xs ys)

-- Two strings of which neither is less are equal.
pub is_less_connex : (xs ys : Bytes) → is_less xs ys ≡ false → is_less ys xs ≡ false → xs ≡ ys
unfolding is_less
is_less_connex xs ys p q = ground (arith, compare_bytes_swap xs ys, compare_bytes_eq xs ys)
