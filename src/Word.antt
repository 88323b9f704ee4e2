-- ===== src/Word.antt =====
-- What script/types/u256.go and s256.go use of the package github.com/holiman/uint256, which is
-- not part of the repository: a type of 256-bit words and its operations, with the documented
-- behaviour of each as a law on the number that a word stands for.
use egvm.Prelude.{
  ℕ, zero, suc, ◌+◌, ◌-◌, ◌*◌, ◌/◌, ◌%◌, ◌^◌, ◌<◌, ◌≡◌, ◌≢◌, Bool, List, [], ◌∷◌, ◌++◌, ltb, leb,
  ◌==◌, if◌then◌else◌, ℤ, pos, negsuc, ltb_ℤ,
}

-- 2 ^ 256 and 2 ^ 255.
abbrev pub modulus : ℕ
modulus = 2 ^ 256

abbrev pub half : ℕ
half = 2 ^ 255

-- The two's complement reading of a number below the modulus.
abbrev pub signed : ℕ → ℤ
signed n = if ltb n half then pos n else negsuc (modulus - n - 1)

-- The sign of a two's complement number, as Go's int: 1, 0 or -1.
abbrev pub sign_of : ℕ → ℤ
sign_of n = if n == 0 then pos 0 else if ltb n half then pos 1 else negsuc 0

-- Big-endian bytes: the number of a byte list, and the `k` low bytes of a number.
unfoldable pub from_be : ℕ → List ℕ → ℕ
from_be acc [] = acc
from_be acc (b ∷ bs) = from_be (acc * 256 + b) bs

unfoldable pub to_be : ℕ → ℕ → List ℕ
to_be zero n = []
to_be (suc k) n = to_be k (n / 256) ++ (n % 256 ∷ [])

pub record WordLib : Type 1 where
  pub Int : Type 0
  pub value : Int → ℕ
  pub value-lt : (x : Int) → value x < modulus
  -- constructors and conversions
  pub new_int : ℕ → Int
  pub new_int_lem : (n : ℕ) → n < 2 ^ 64 → value (new_int n) ≡ n
  pub clone : Int → Int
  pub clone_lem : (x : Int) → value (clone x) ≡ value x
  pub set_bytes : List ℕ → Int
  pub set_bytes_lem : (bz : List ℕ) → value (set_bytes bz) ≡ from_be 0 bz % modulus
  pub write_to_array32 : Int → List ℕ
  pub write_to_array32_lem : (x : Int) → write_to_array32 x ≡ to_be 32 (value x)
  pub uint64_with_overflow : Int → ℕ × Bool
  pub uint64_lem : (x : Int) → (uint64_with_overflow x).0 ≡ value x % 2 ^ 64
  pub uint64_overflow_lem : (x : Int) → (uint64_with_overflow x).1 ≡ leb (2 ^ 64) (value x)
  -- arithmetic modulo 2 ^ 256
  pub add : Int → Int → Int
  pub add_lem : (x y : Int) → value (add x y) ≡ (value x + value y) % modulus
  pub add_overflow : Int → Int → Int × Bool
  pub add_overflow_lem : (x y : Int) → value (add_overflow x y).0 ≡ (value x + value y) % modulus
  pub add_overflow_flag : (x y : Int) → (add_overflow x y).1 ≡ leb modulus (value x + value y)
  pub sub : Int → Int → Int
  pub sub_lem : (x y : Int) → value (sub x y) ≡ (value x + modulus - value y) % modulus
  pub mul : Int → Int → Int
  pub mul_lem : (x y : Int) → value (mul x y) ≡ value x * value y % modulus
  pub mul_overflow : Int → Int → Int × Bool
  pub mul_overflow_lem : (x y : Int) → value (mul_overflow x y).0 ≡ value x * value y % modulus
  pub mul_overflow_flag : (x y : Int) → (mul_overflow x y).1 ≡ leb modulus (value x * value y)
  pub div : Int → Int → Int
  pub div_lem : (x y : Int) → value y ≢ 0 → value (div x y) ≡ value x / value y
  pub modulo : Int → Int → Int
  pub modulo_lem : (x y : Int) → value y ≢ 0 → value (modulo x y) ≡ value x % value y
  pub div_mod : Int → Int → Int × Int
  pub div_mod_quo : (x y : Int) → value y ≢ 0 → value (div_mod x y).0 ≡ value x / value y
  pub div_mod_rem : (x y : Int) → value y ≢ 0 → value (div_mod x y).1 ≡ value x % value y
  -- bits and shifts
  pub complement : Int → Int
  pub complement_lem : (x : Int) → value (complement x) ≡ modulus - 1 - value x
  pub lsh : Int → ℕ → Int
  pub lsh_lem : (x : Int) (n : ℕ) → value (lsh x n) ≡ value x * 2 ^ n % modulus
  pub rsh : Int → ℕ → Int
  pub rsh_lem : (x : Int) (n : ℕ) → value (rsh x n) ≡ value x / 2 ^ n
  pub srsh : Int → ℕ → Int
  pub srsh_lem :
      (x : Int) (n : ℕ)
      → value (srsh x n) ≡ (
          if ltb (value x) half
          then value x / 2 ^ n
          else modulus - 1 - (modulus - 1 - value x) / 2 ^ n)
  -- comparisons
  pub is_zero : Int → Bool
  pub is_zero_lem : (x : Int) → is_zero x ≡ (value x == 0)
  pub eq : Int → Int → Bool
  pub eq_lem : (x y : Int) → eq x y ≡ (value x == value y)
  pub lt : Int → Int → Bool
  pub lt_lem : (x y : Int) → lt x y ≡ ltb (value x) (value y)
  pub gt : Int → Int → Bool
  pub gt_lem : (x y : Int) → gt x y ≡ ltb (value y) (value x)
  pub lt_uint64 : Int → ℕ → Bool
  pub lt_uint64_lem : (x : Int) (n : ℕ) → n < 2 ^ 64 → lt_uint64 x n ≡ ltb (value x) n
  pub gt_uint64 : Int → ℕ → Bool
  pub gt_uint64_lem : (x : Int) (n : ℕ) → n < 2 ^ 64 → gt_uint64 x n ≡ ltb n (value x)
  -- two's complement
  pub sign : Int → ℤ
  pub sign_lem : (x : Int) → sign x ≡ sign_of (value x)
  pub neg : Int → Int
  pub neg_lem : (x : Int) → value (neg x) ≡ (modulus - value x) % modulus
  pub abs : Int → Int
  pub abs_lem :
      (x : Int) → value (abs x) ≡ (if ltb (value x) half then value x else modulus - value x)
  pub slt : Int → Int → Bool
  pub slt_lem : (x y : Int) → slt x y ≡ ltb_ℤ (signed (value x)) (signed (value y))
  pub sgt : Int → Int → Bool
  pub sgt_lem : (x y : Int) → sgt x y ≡ ltb_ℤ (signed (value y)) (signed (value x))
