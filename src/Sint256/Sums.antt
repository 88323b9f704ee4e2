-- ===== src/Sint256/Sums.antt =====
-- Abs, Neg, Add and Sub of script/types/s256.go against the integers.
use egvm.Prelude.{
  ◌+◌, ◌≤◌, ◌≡◌, Option, none, some, ltb, arith, if◌then◌else◌, ℤ, pos, negsuc, ltb_ℤ, ◌+ℤ◌, ◌-ℤ◌,
  ◌≤ℤ◌,
}
use egvm.Outcome.{
  ok, outcome_of, map_ok, overflow_in_abs, overflow_in_neg, overflow_in_signed_addition,
  overflow_in_signed_substraction,
}
use egvm.Word.{WordLib, modulus, half, signed}
use egvm.Sint256.{Sint256, min_neg_value, absolute, negate, plus, minus}

-- An integer that fits in 256 bits of two's complement.
unfoldable pub fitting : ℤ → Option ℤ
fitting (pos n) = if ltb n half then some (pos n) else none
fitting (negsuc n) = if ltb n half then some (negsuc n) else none

module _ (w : WordLib) where
  open w use {Int, value}

  -- The integer that a word stands for.
  abbrev pub integer : Sint256 w → ℤ
  integer s = signed (value s.x)

  pub value-min_neg_value : value (min_neg_value w) ≡ half
  unfolding min_neg_value
  value-min_neg_value = omega (arith, w.lsh_lem (w.new_int 1) 255, w.new_int_lem 1 (omega arith))

  -- Abs and Neg return the absolute value and the negation of every integer but the least, at
  -- which neither fits and both panic.
  pub signed_negation_exact :
      (s : Sint256 w)
      → (map_ok integer (absolute w s)
          ≡ outcome_of overflow_in_abs
              (fitting (if ltb_ℤ (integer s) (pos 0) then pos 0 -ℤ integer s else integer s)))
        × (map_ok integer (negate w s) ≡ outcome_of overflow_in_neg (fitting (pos 0 -ℤ integer s)))
  unfolding absolute negate ◌-ℤ◌ fitting
  signed_negation_exact s = (
    ground
        (arith, value-min_neg_value, w.eq_lem s.x (min_neg_value w), w.abs_lem s.x, w.value-lt s.x),
    ground
        (arith, value-min_neg_value, w.eq_lem s.x (min_neg_value w), w.neg_lem s.x, w.value-lt s.x),
  )

  -- Sub returns the exact difference when it fits and panics when it does not, unless the left side
  -- is zero and the right side is the least integer.
  pub signed_minus_exact :
      (s v : Sint256 w)
      → ¬ ((integer s ≡ pos 0) × (value v.x ≡ half))
      → map_ok integer (minus w s v)
        ≡ outcome_of overflow_in_signed_substraction (fitting (integer s -ℤ integer v))
  unfolding minus ◌-ℤ◌ fitting
  signed_minus_exact s v h = ground (
    arith,
    w.sub_lem s.x v.x,
    w.sign_lem s.x,
    w.sign_lem v.x,
    w.sign_lem (w.sub s.x v.x),
    w.value-lt s.x,
    w.value-lt v.x,
  )

  -- Zero minus the least integer is not seen as an overflow: Sub returns the least integer.
  pub zero_minus_least :
      (s v : Sint256 w)
      → integer s ≡ pos 0
      → value v.x ≡ half
      → (map_ok integer (minus w s v) ≡ ok (integer v)) × (fitting (integer s -ℤ integer v) ≡ none)
  unfolding minus ◌-ℤ◌ fitting
  zero_minus_least s v zero least = (
    ground (
      arith,
      w.sub_lem s.x v.x,
      w.sign_lem s.x,
      w.sign_lem v.x,
      w.sign_lem (w.sub s.x v.x),
      w.value-lt s.x,
      w.value-lt v.x,
    ),
    ground (arith, w.value-lt s.x, w.value-lt v.x),
  )

  -- Add returns the exact sum when it fits and panics when it does not, unless both sides are
  -- nonnegative and the sum is 2 ^ 255 or more.
  pub signed_plus_exact :
      (s v : Sint256 w)
      → ¬ ((pos 0 ≤ℤ integer s) × (pos 0 ≤ℤ integer v) × (half ≤ value s.x + value v.x))
      → map_ok integer (plus w s v)
        ≡ outcome_of overflow_in_signed_addition (fitting (integer s +ℤ integer v))
  unfolding plus ◌+ℤ◌ fitting
  signed_plus_exact s v h = ground (
    arith,
    w.add_lem s.x v.x,
    w.add_overflow_lem s.x v.x,
    w.add_overflow_flag s.x v.x,
    w.sign_lem s.x,
    w.sign_lem v.x,
    w.sign_lem (w.add s.x v.x),
    w.value-lt s.x,
    w.value-lt v.x,
  )

  -- The sum of two nonnegative integers that is too large for 256 bits does not panic: Add returns
  -- the sum less 2 ^ 256, a negative integer.
  pub plus_wraps :
      (s v : Sint256 w)
      → pos 0 ≤ℤ integer s
      → pos 0 ≤ℤ integer v
      → half ≤ value s.x + value v.x
      → (map_ok integer (plus w s v) ≡ ok (integer s +ℤ integer v -ℤ pos modulus))
        × (fitting (integer s +ℤ integer v) ≡ none)
  unfolding plus ◌+ℤ◌ ◌-ℤ◌ fitting
  plus_wraps s v hs hv big = (
    ground (
      arith,
      w.add_overflow_lem s.x v.x,
      w.add_overflow_flag s.x v.x,
      w.sign_lem s.x,
      w.sign_lem v.x,
      w.value-lt s.x,
      w.value-lt v.x,
    ),
    ground (arith, w.value-lt s.x, w.value-lt v.x),
  )
