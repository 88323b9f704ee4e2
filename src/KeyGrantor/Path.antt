-- ===== src/KeyGrantor/Path.antt =====
-- The path of indices along which DeriveKey of keygrantor/keygrantor.go derives.
use egvm.Prelude.{◌↔◌}
use egvm.Prelude.{
  ℕ, zero, suc, ◌+◌, ◌*◌, ◌/◌, ◌%◌, ◌^◌, ◌<◌, ◌≡◌, refl, sym, ap, ◌∙◌, some, List, [], ◌∷◌, length,
  arith, All,
}
use mathlib.Core.List.{foldl}
use native.Mathlib.Nat.{pow-suc, mul-le-mul_right}
use egvm.Bytes.{Bytes}
use egvm.Word.{from_be}
use egvm.KeyGrantor.{KeyLib, reached, index_at, retry, derive_loop, derive_key}

-- The lowest `k` digits of a number to the base 2 ^ 31, lowest first.
unfoldable pub path : ℕ → ℕ → List ℕ
path zero n = []
path (suc k) n = (n % 2 ^ 31) ∷ path k (n / 2 ^ 31)

-- The nine indices of a hash.
abbrev pub path_of : Bytes → List ℕ
path_of hash = path 9 (from_be 0 hash)

path_value : List ℕ → ℕ
path_value [] = 0
path_value (i ∷ is) = i + 2 ^ 31 * path_value is

path_value-path : (k n : ℕ) → n < 2147483648 ^ k → path_value (path k n) ≡ n
unfolding path_value path
path_value-path zero n h = omega arith
path_value-path (suc k) n h =
    let e : 2147483648 ^ suc k ≡ 2147483648 ^ k * 2147483648 = pow-suc 2147483648 k in
    omega (arith, path_value-path k (n / 2 ^ 31) (omega arith))

abbrev IsByte : ℕ → Type 0
IsByte b = b < 256

from_be_injective :
    (a b : ℕ) (xs ys : Bytes)
    → All IsByte xs
    → All IsByte ys
    → length xs ≡ length ys
    → from_be a xs ≡ from_be b ys
    → (a ≡ b) × (xs ≡ ys)
unfolding from_be
from_be_injective a b [] [] hx hy l e = (e, refl)
from_be_injective a b [] (y ∷ ys) hx hy l e = absurd (omega arith)
from_be_injective a b (x ∷ xs) [] hx hy l e = absurd (omega arith)
from_be_injective a b (x ∷ xs) (y ∷ ys) hx hy l e =
    let (head, rest) =
      from_be_injective (a * 256 + x) (b * 256 + y) xs ys hx.1 hy.1 (omega arith) e in
    let byte : x ≡ y = omega (arith, head, hx.0, hy.0) in
    (omega (arith, head, hx.0, hy.0), cc (rest, byte))

widen : (acc x p v : ℕ) → x < 256 → v < (acc * 256 + x + 1) * p → v < (acc + 1) * (p * 256)
widen acc x p v h lt =
    omega (arith, mul-le-mul_right {m = acc * 256 + x + 1} {n = acc * 256 + 256} p (omega arith))

from_be-lt : (acc : ℕ) (xs : Bytes) → All IsByte xs → from_be acc xs < (acc + 1) * 256 ^ length xs
unfolding from_be
from_be-lt acc [] h = omega arith
from_be-lt acc (x ∷ xs) h =
    rw (pow-suc 256 (length xs))
      (widen acc x (256 ^ length xs) _ h.0 (from_be-lt (acc * 256 + x) xs h.1))

path_shape : (k n : ℕ) → (length (path k n) ≡ k) × All (λ i. i < 2 ^ 31) (path k n)
unfolding path
path_shape zero n = (refl, tt)
path_shape (suc k) n =
    (ap suc (path_shape k (n / 2 ^ 31)).0, (omega arith, (path_shape k (n / 2 ^ 31)).1))

-- A hash of 32 bytes is determined by its path.
pub path_of_injective :
    (a b : Bytes)
    → All IsByte a
    → All IsByte b
    → length a ≡ 32
    → length b ≡ 32
    → path_of a ≡ path_of b
    → a ≡ b
path_of_injective a b ha hb la lb e =
    (from_be_injective 0 0 a b ha hb (la ∙ sym lb)
      (sym (value_of_path a ha la) ∙ ap path_value e ∙ value_of_path b hb lb)).1
  where
    value_of_path :
        (h : Bytes) → All IsByte h → length h ≡ 32 → path_value (path_of h) ≡ from_be 0 h
    value_of_path h bytes l =
        path_value-path 9 (from_be 0 h) (omega (arith, rw l at (from_be-lt 0 h bytes)))

module _ (lib : KeyLib) where
  open lib use {Key, new_child_key}

  first_try :
      (child : Key → ℕ → Key) (fuel i : ℕ) (key : Key) (m unit : ℕ)
      → ((k : Key) (m : ℕ) → m < 2 ^ 31 → new_child_key k m ≡ some (child k m))
      → m < 2 ^ 31
      → retry lib (suc fuel) i (some key) m 0 unit ≡ reached (child key m, 0)
  unfolding retry
  first_try child fuel i key m unit h lt =
      let same : index_at i m 0 ≡ m = unfold index_at in ground arith in
      rw (ap (new_child_key key) same ∙ h key m lt, retry)

  derive_loop-path :
      (child : Key → ℕ → Key) (fuel left i : ℕ) (key : Key) (n unit : ℕ)
      → ((k : Key) (m : ℕ) → m < 2 ^ 31 → new_child_key k m ≡ some (child k m))
      → derive_loop lib (suc fuel) left i key n 0 unit ≡ reached (foldl child key (path left n))
  unfolding derive_loop path
  derive_loop-path child fuel zero i key n unit h = refl
  derive_loop-path child fuel (suc left) i key n unit h =
      rw (first_try child fuel i key (n % 2 ^ 31) unit h (omega arith), derive_loop)
        (derive_loop-path child fuel left (i + 1) (child key (n % 2 ^ 31)) (n / 2 ^ 31)
          (unit * 8 % 2 ^ 32) h)

  -- When no child derivation fails, DeriveKey derives along nine indices, each below 2 ^ 31 (not
  -- hardened), which determine the hash: two hashes of 32 bytes with the same indices are equal.
  pub derive_key-path :
      (child : Key → ℕ → Key) (fuel : ℕ) (key : Key) (a b : Bytes)
      → ((k : Key) (m : ℕ) → m < 2 ^ 31 → new_child_key k m ≡ some (child k m))
      → All IsByte a
      → All IsByte b
      → length a ≡ 32
      → length b ≡ 32
      → (derive_key lib (suc fuel) key a ≡ reached (foldl child key (path_of a)))
        × (length (path_of a) ≡ 9)
        × All (λ i. i < 2 ^ 31) (path_of a)
        × ((path_of a ≡ path_of b) ↔ (a ≡ b))
  unfolding derive_key
  derive_key-path child fuel key a b h ha hb la lb = (
    derive_loop-path child fuel 9 0 key (from_be 0 a) (2 ^ 8) h,
    (path_shape 9 (from_be 0 a)).0,
    (path_shape 9 (from_be 0 a)).1,
    (path_of_injective a b ha hb la lb, λ e. ap path_of e),
  )
