-- ===== src/Uint256/Convert.antt =====
-- The conversions of script/types/u256.go: to and from safe integers and 32-byte buffers.
use egvm.Prelude.{
  ℕ, zero, suc, ◌+◌, ◌*◌, ◌/◌, ◌^◌, ◌<◌, ◌≡◌, refl, none, some, List, [], ◌∷◌, ◌++◌, length,
  length-append, leb, arith, if◌then◌else◌,
}
use native.Mathlib.Nat.{pow-suc}
use egvm.Outcome.{ok, outcome_of, ◌>>=◌, larger_than_max_integer, overflow_in_to_safe_integer}
use egvm.Word.{WordLib, from_be, to_be}
use egvm.Goja.{max_safe_integer}
use egvm.Uint256.{Uint256, u256, buf_to_u256, to_buf, is_safe_integer, to_safe_integer}

from_be-append :
    (acc : ℕ) (xs : List ℕ) (b : ℕ) → from_be acc (xs ++ (b ∷ [])) ≡ from_be acc xs * 256 + b
unfolding from_be
from_be-append acc [] b = refl
from_be-append acc (x ∷ xs) b = from_be-append (acc * 256 + x) xs b

fits : (k n : ℕ) → n < 256 ^ suc k → n / 256 < 256 ^ k
fits k n h = let e : 256 ^ suc k ≡ 256 ^ k * 256 = pow-suc 256 k in omega arith

pub from_be-to_be : (k n : ℕ) → n < 256 ^ k → from_be 0 (to_be k n) ≡ n
unfolding to_be from_be
from_be-to_be zero n h = omega arith
from_be-to_be (suc k) n h =
    rw from_be-append (omega (arith, from_be-to_be k (n / 256) (fits k n h)))

pub length-to_be : (k n : ℕ) → length (to_be k n) ≡ k
unfolding to_be
length-to_be zero n = refl
length-to_be (suc k) n = rw length-append (omega (arith, length-to_be k (n / 256)))

module _ (w : WordLib) where
  open w use {value}

  pub word_round_trip : (x : w.Int) → value (w.set_bytes (w.write_to_array32 x)) ≡ value x
  word_round_trip x =
      rw (w.set_bytes_lem, w.write_to_array32_lem, from_be-to_be 32 (value x) (w.value-lt x))
        (omega (arith, w.value-lt x))

  pub length-word : (x : w.Int) → length (w.write_to_array32 x) ≡ 32
  length-word x = rw w.write_to_array32_lem (length-to_be 32 (value x))

  -- ToBuf writes exactly 32 bytes, and BufToU256 reads the same number back from them.
  pub buf_round_trip :
      (u : Uint256 w) (buf : List ℕ)
      → to_buf w u [] ≡ ok buf
      → (length buf ≡ 32) × (value (buf_to_u256 w buf).X ≡ value u.X)
  unfolding to_buf buf_to_u256
  buf_round_trip u buf e =
      let written : buf ≡ w.write_to_array32 u.X = cc in
      rw written (length-word u.X, word_round_trip u.X)

  -- A safe integer goes through U256 and ToSafeInteger unchanged, and U256 panics above the safe
  -- range; ToSafeInteger returns exactly the numbers up to MaxSafeInteger, which are those that
  -- IsSafeInteger accepts.
  pub safe_integers :
      (n : ℕ) (u : Uint256 w)
      → ((do v ← u256 w n; to_safe_integer w v)
          ≡ outcome_of larger_than_max_integer (if leb n max_safe_integer then some n else none))
        × (to_safe_integer w u
            ≡ outcome_of overflow_in_to_safe_integer
                (if leb (value u.X) max_safe_integer then some (value u.X) else none))
        × (is_safe_integer w u ≡ leb (value u.X) max_safe_integer)
  unfolding u256 to_safe_integer is_safe_integer
  safe_integers n u = (
    ground
        (arith, w.uint64_lem (w.new_int n), w.uint64_overflow_lem (w.new_int n), w.new_int_lem n),
    ground (arith, w.uint64_lem u.X, w.uint64_overflow_lem u.X),
    ground (arith, w.uint64_lem u.X, w.uint64_overflow_lem u.X),
  )
