-- ===== src/Tests/ModelWord.antt =====
-- A concrete `WordLib`: the words are the numbers modulo 2 ^ 256. It shows that the laws of the
-- interface can hold together, and the tests and witnesses run on it.
use egvm.Prelude.{
  ℕ, ◌+◌, ◌-◌, ◌*◌, ◌/◌, ◌%◌, ◌^◌, ◌<◌, ◌≡◌, refl, ltb, leb, ltb_ℤ, ◌==◌, arith, if◌then◌else◌,
}
use native.Mathlib.Nat.{div-le_self, mod-le}
use egvm.Word.{WordLib, modulus, half, signed, sign_of, from_be, to_be}

abbrev pub wrap : ℕ → ℕ
wrap n = n % modulus

pub wrap-div : (a b : ℕ) → wrap (wrap a / b) ≡ wrap a / b
wrap-div a b = omega (arith, div-le_self (wrap a) b)

pub wrap-mod : (a b : ℕ) → wrap (wrap a % b) ≡ wrap a % b
wrap-mod a b = omega (arith, mod-le (wrap a) b)

wrap-wrap : (a : ℕ) → wrap (wrap a) ≡ wrap a
wrap-wrap a = omega arith

pub wrap-srsh :
    (x n : ℕ)
    → wrap
        (if ltb (wrap x) half then wrap x / 2 ^ n else modulus - 1 - (modulus - 1 - wrap x) / 2 ^ n)
      ≡ (if ltb (wrap x) half then wrap x / 2 ^ n else modulus - 1 - (modulus - 1 - wrap x) / 2 ^ n)
wrap-srsh x n =
    ground (arith, div-le_self (wrap x) (2 ^ n), div-le_self (modulus - 1 - wrap x) (2 ^ n))

pub wrap-abs :
    (x : ℕ)
    → wrap (if ltb (wrap x) half then wrap x else modulus - wrap x)
      ≡ (if ltb (wrap x) half then wrap x else modulus - wrap x)
wrap-abs x = ground arith

pub wrap_lt : (x : ℕ) → wrap x < modulus
wrap_lt x = omega arith

pub small : (n : ℕ) → n < 2 ^ 64 → wrap n ≡ n
small n h = omega arith

pub wrap-complement : (x : ℕ) → wrap (modulus - 1 - wrap x) ≡ modulus - 1 - wrap x
wrap-complement x = omega arith

abbrev pub model_word : WordLib
model_word = record {
  Int = ℕ;
  value = wrap;
  value-lt = wrap_lt;
  new_int = λ n. n;
  new_int_lem = small;
  clone = λ x. x;
  clone_lem = λ x. refl;
  set_bytes = λ bz. from_be 0 bz;
  set_bytes_lem = λ bz. refl;
  write_to_array32 = λ x. to_be 32 (wrap x);
  write_to_array32_lem = λ x. refl;
  uint64_with_overflow = λ x. (wrap x % 2 ^ 64, leb (2 ^ 64) (wrap x));
  uint64_lem = λ x. refl;
  uint64_overflow_lem = λ x. refl;
  add = λ x y. wrap x + wrap y;
  add_lem = λ x y. refl;
  add_overflow = λ x y. (wrap x + wrap y, leb modulus (wrap x + wrap y));
  add_overflow_lem = λ x y. refl;
  add_overflow_flag = λ x y. refl;
  sub = λ x y. wrap x + modulus - wrap y;
  sub_lem = λ x y. refl;
  mul = λ x y. wrap x * wrap y;
  mul_lem = λ x y. refl;
  mul_overflow = λ x y. (wrap x * wrap y, leb modulus (wrap x * wrap y));
  mul_overflow_lem = λ x y. refl;
  mul_overflow_flag = λ x y. refl;
  div = λ x y. wrap x / wrap y;
  div_lem = λ x y h. wrap-div x (wrap y);
  modulo = λ x y. wrap x % wrap y;
  modulo_lem = λ x y h. wrap-mod x (wrap y);
  div_mod = λ x y. (wrap x / wrap y, wrap x % wrap y);
  div_mod_quo = λ x y h. wrap-div x (wrap y);
  div_mod_rem = λ x y h. wrap-mod x (wrap y);
  complement = λ x. modulus - 1 - wrap x;
  complement_lem = wrap-complement;
  lsh = λ x n. wrap x * 2 ^ n;
  lsh_lem = λ x n. refl;
  rsh = λ x n. wrap x / 2 ^ n;
  rsh_lem = λ x n. wrap-div x (2 ^ n);
  srsh = λ x n.
      if ltb (wrap x) half then wrap x / 2 ^ n else modulus - 1 - (modulus - 1 - wrap x) / 2 ^ n;
  srsh_lem = wrap-srsh;
  is_zero = λ x. wrap x == 0;
  is_zero_lem = λ x. refl;
  eq = λ x y. wrap x == wrap y;
  eq_lem = λ x y. refl;
  lt = λ x y. ltb (wrap x) (wrap y);
  lt_lem = λ x y. refl;
  gt = λ x y. ltb (wrap y) (wrap x);
  gt_lem = λ x y. refl;
  lt_uint64 = λ x n. ltb (wrap x) n;
  lt_uint64_lem = λ x n h. refl;
  gt_uint64 = λ x n. ltb n (wrap x);
  gt_uint64_lem = λ x n h. refl;
  sign = λ x. sign_of (wrap x);
  sign_lem = λ x. refl;
  neg = λ x. modulus - wrap x;
  neg_lem = λ x. refl;
  abs = λ x. if ltb (wrap x) half then wrap x else modulus - wrap x;
  abs_lem = wrap-abs;
  slt = λ x y. ltb_ℤ (signed (wrap x)) (signed (wrap y));
  slt_lem = λ x y. refl;
  sgt = λ x y. ltb_ℤ (signed (wrap y)) (signed (wrap x));
  sgt_lem = λ x y. refl;
}
