-- ===== src/Sint256/Products.antt =====
-- Mul and Div of script/types/s256.go against the integers.
use egvm.Prelude.{inl, inr}
use egvm.Prelude.{
  ℕ, ◌+◌, ◌-◌, ◌*◌, ◌/◌, ◌%◌, ◌≤◌, ◌<◌, ◌≡◌, ◌≢◌, ◌⊎◌, none, Bool, true, false, not, leb, ◌==◌,
  arith, if◌then◌else◌, ℤ, pos, negsuc, ◌*ℤ◌, sub_ℕ, pos_part, neg_part,
}
use native.Mathlib.Nat.{div-le_self}
use egvm.Outcome.{ok, panic, map_ok, overflow_in_signed_multiplication, overflow_in_division}
use egvm.Word.{WordLib, modulus, half, signed}
use egvm.Sint256.{Sint256, min_neg_value, signs_differ, times, quotient}
use egvm.Sint256.Sums.{integer, fitting, value-min_neg_value}

-- The absolute value of an integer, and the integer with a sign and an absolute value.
unfoldable pub magnitude : ℤ → ℕ
magnitude z = pos_part z + neg_part z

unfoldable pub opposite : ℤ → ℤ → Bool
opposite (pos a) (negsuc b) = not (a == 0)
opposite (negsuc a) (pos b) = not (b == 0)
opposite _ _ = false

unfoldable pub with_sign : Bool → ℕ → ℤ
with_sign true n = sub_ℕ 0 n
with_sign false n = pos n

-- A product has the product of the absolute values, and is negative where the signs are opposite.
pub *ℤ-with_sign : (a b : ℤ) → a *ℤ b ≡ with_sign (opposite a b) (magnitude a * magnitude b)
unfolding ◌*ℤ◌ magnitude opposite with_sign
*ℤ-with_sign (pos a) (pos b) = ground arith
*ℤ-with_sign (pos a) (negsuc b) = ground arith
*ℤ-with_sign (negsuc a) (pos b) = ground arith
*ℤ-with_sign (negsuc a) (negsuc b) = ground arith

too_large : (d : Bool) (n : ℕ) → half < n → fitting (with_sign d n) ≡ none
unfolding fitting with_sign
too_large true n h = ground arith
too_large false n h = ground arith

module _ (w : WordLib) where
  open w use {Int, value}

  abs-magnitude : (x : Int) → value (w.abs x) ≡ magnitude (signed (value x))
  unfolding magnitude
  abs-magnitude x = ground (arith, w.abs_lem x, w.value-lt x)

  signs_differ-opposite :
      (x y : Int) → signs_differ w x y ≡ opposite (signed (value x)) (signed (value y))
  unfolding signs_differ ◌*ℤ◌ opposite
  signs_differ-opposite x y = ground (arith, w.sign_lem x, w.sign_lem y, w.value-lt x, w.value-lt y)

  -- The word with a sign and an absolute value below 2 ^ 255.
  signed_word :
      (d : Bool) (r : Int)
      → value r < half
      → signed (value (if d then w.neg r else r)) ≡ with_sign d (value r)
  unfolding with_sign
  signed_word true r h = ground (arith, w.neg_lem r)
  signed_word false r h = ground arith

  eq_least : (x : Int) → w.eq x (min_neg_value w) ≡ (value x == half)
  eq_least x = rw (w.eq_lem, value-min_neg_value w)

  product_word :
      (s v : Sint256 w)
      → value (w.mul_overflow (w.abs s.x) (w.abs v.x)).0
        ≡ magnitude (integer w s) * magnitude (integer w v) % modulus
  product_word s v = rw (w.mul_overflow_lem, abs-magnitude s.x, abs-magnitude v.x)

  product_flag :
      (s v : Sint256 w)
      → (w.mul_overflow (w.abs s.x) (w.abs v.x)).1
        ≡ leb modulus (magnitude (integer w s) * magnitude (integer w v))
  product_flag s v = rw (w.mul_overflow_flag, abs-magnitude s.x, abs-magnitude v.x)

  other_sign :
      (d : Bool) (r : Int)
      → half < value r
      → signed (value (if d then w.neg r else r)) ≡ with_sign (not d) (modulus - value r)
  unfolding with_sign
  other_sign true r h = ground (arith, w.neg_lem r, w.value-lt r)
  other_sign false r h = ground (arith, w.value-lt r)

  quotient_word :
      (s v : Sint256 w)
      → integer w v ≢ pos 0
      → value (w.div (w.abs s.x) (w.abs v.x)) ≡ magnitude (integer w s) / magnitude (integer w v)
  quotient_word s v h =
      rw (w.div_lem (w.abs s.x) (w.abs v.x) nonzero, abs-magnitude s.x, abs-magnitude v.x)
    where
      nonzero : value (w.abs v.x) ≢ 0
      nonzero e = ground (arith, w.abs_lem v.x, w.value-lt v.x)

  quotient_small :
      (s v : Sint256 w)
      → value s.x ≢ half
      → magnitude (integer w s) / magnitude (integer w v) < half
  unfolding magnitude
  quotient_small s v h =
      ground
        (arith, w.value-lt s.x, div-le_self (magnitude (integer w s)) (magnitude (integer w v)))

  -- Of two integers other than the least, Mul returns the exact product when its absolute value is
  -- below 2 ^ 255.
  pub signed_times_exact :
      (s v : Sint256 w)
      → value s.x ≢ half
      → value v.x ≢ half
      → magnitude (integer w s) * magnitude (integer w v) < half
      → map_ok (integer w) (times w s v) ≡ ok (integer w s *ℤ integer w v)
  unfolding times
  signed_times_exact s v hs hv small = ground (
    arith,
    eq_least s.x,
    eq_least v.x,
    product_flag s v,
    product_word s v,
    signs_differ-opposite s.x v.x,
    *ℤ-with_sign (integer w s) (integer w v),
    signed_word (signs_differ w s.x v.x) (w.mul_overflow (w.abs s.x) (w.abs v.x)).0,
  )

  -- Mul panics when the product of the absolute values is 2 ^ 256 or more, and when either side is
  -- the least integer.
  pub signed_times_panics :
      (s v : Sint256 w)
      → (modulus ≤ magnitude (integer w s) * magnitude (integer w v))
        ⊎ ((value s.x ≡ half) ⊎ (value v.x ≡ half))
      → times w s v ≡ panic overflow_in_signed_multiplication
  unfolding times
  signed_times_panics s v (inl large) = ground (arith, product_flag s v)
  signed_times_panics s v (inr least) = ground (arith, eq_least s.x, eq_least v.x)

  -- Of two integers other than the least, a product of absolute value above 2 ^ 255 and below
  -- 2 ^ 256 does not panic, though it does not fit: Mul returns an integer of the other sign.
  pub times_wraps :
      (s v : Sint256 w)
      → value s.x ≢ half
      → value v.x ≢ half
      → half < magnitude (integer w s) * magnitude (integer w v)
      → magnitude (integer w s) * magnitude (integer w v) < modulus
      → (map_ok (integer w) (times w s v)
          ≡ ok (
              with_sign
                (not (opposite (integer w s) (integer w v)))
                (modulus - magnitude (integer w s) * magnitude (integer w v))))
        × (fitting (integer w s *ℤ integer w v) ≡ none)
  unfolding times
  times_wraps s v hs hv large fits = (
    ground (
      arith,
      eq_least s.x,
      eq_least v.x,
      product_flag s v,
      product_word s v,
      signs_differ-opposite s.x v.x,
      other_sign (signs_differ w s.x v.x) (w.mul_overflow (w.abs s.x) (w.abs v.x)).0,
    ),
    rw (*ℤ-with_sign (integer w s) (integer w v))
        (too_large (opposite (integer w s) (integer w v)) _ large),
  )

  -- Of two integers other than the least, Div returns the quotient of the absolute values with the
  -- sign of the product, so it rounds towards zero, at a divisor that is not zero.
  pub signed_quotient_exact :
      (s v : Sint256 w)
      → value s.x ≢ half
      → value v.x ≢ half
      → integer w v ≢ pos 0
      → map_ok (integer w) (quotient w s v)
        ≡ ok (
            with_sign
              (opposite (integer w s) (integer w v))
              (magnitude (integer w s) / magnitude (integer w v)))
  unfolding quotient
  signed_quotient_exact s v hs hv nonzero = ground (
    arith,
    eq_least s.x,
    eq_least v.x,
    w.is_zero_lem v.x,
    signs_differ-opposite s.x v.x,
    quotient_word s v nonzero,
    quotient_small s v hs,
    signed_word (signs_differ w s.x v.x) (w.div (w.abs s.x) (w.abs v.x)),
  )

  -- Div with the least integer on either side panics with the overflow, also where the divisor is
  -- zero or the exact quotient would fit.
  pub signed_quotient_panics :
      (s v : Sint256 w)
      → (value s.x ≡ half) ⊎ (value v.x ≡ half)
      → quotient w s v ≡ panic overflow_in_division
  unfolding quotient
  signed_quotient_panics s v least = ground (arith, eq_least s.x, eq_least v.x)
