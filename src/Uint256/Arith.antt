-- ===== src/Uint256/Arith.antt =====
-- The arithmetic of script/types/u256.go against the numbers that the words stand for.
use egvm.Prelude.{
  ℕ, ◌+◌, ◌-◌, ◌*◌, ◌/◌, ◌%◌, ◌≡◌, Option, none, some, ltb, ◌==◌, arith, if◌then◌else◌,
}
use egvm.Outcome.{
  outcome_of, map_ok, overflow_in_addition, overflow_in_substraction, overflow_in_signed,
  divide_by_zero,
}
use egvm.Word.{WordLib, modulus}
use egvm.Uint256.{
  Uint256, incr, plus, minus, times, unsafe_add, unsafe_sub, unsafe_mul, quotient, remainder,
  quo_rem,
}

-- A number that fits in 256 bits.
abbrev pub fitting : ℕ → Option ℕ
fitting n = if ltb n modulus then some n else none

module _ (w : WordLib) where
  open w use {Int, value}

  abbrev pub value_of : Uint256 w → ℕ
  value_of u = value u.X

  plus_exact :
      (u v : Uint256 w)
      → map_ok value_of (plus w u v)
        ≡ outcome_of overflow_in_addition (fitting (value_of u + value_of v))
  unfolding plus
  plus_exact u v = ground (arith, w.add_overflow_lem u.X v.X, w.add_overflow_flag u.X v.X)

  incr_exact :
      (u : Uint256 w)
      → map_ok value_of (incr w u) ≡ outcome_of overflow_in_addition (fitting (value_of u + 1))
  unfolding incr
  incr_exact u = ground (
    arith,
    w.add_overflow_lem u.X (w.new_int 1),
    w.add_overflow_flag u.X (w.new_int 1),
    w.new_int_lem 1 (omega arith),
  )

  minus_exact :
      (u v : Uint256 w)
      → map_ok value_of (minus w u v)
        ≡ outcome_of overflow_in_substraction
            (if ltb (value_of u) (value_of v) then none else some (value_of u - value_of v))
  unfolding minus
  minus_exact u v =
      ground (arith, w.lt_lem u.X v.X, w.sub_lem u.X v.X, w.value-lt u.X, w.value-lt v.X)

  times_exact :
      (u v : Uint256 w)
      → map_ok value_of (times w u v)
        ≡ outcome_of overflow_in_signed (fitting (value_of u * value_of v))
  unfolding times
  times_exact u v = ground (arith, w.mul_overflow_lem u.X v.X, w.mul_overflow_flag u.X v.X)

  -- Incr, Add, Sub and Mul return the exact sum, difference or product when it is a 256-bit number,
  -- and panic in every other case, each with its own panic.
  pub checked_arithmetic :
      (u v : Uint256 w)
      → (map_ok value_of (incr w u) ≡ outcome_of overflow_in_addition (fitting (value_of u + 1)))
        × (map_ok value_of (plus w u v)
            ≡ outcome_of overflow_in_addition (fitting (value_of u + value_of v)))
        × (map_ok value_of (minus w u v)
            ≡ outcome_of overflow_in_substraction
                (if ltb (value_of u) (value_of v) then none else some (value_of u - value_of v)))
        × (map_ok value_of (times w u v)
            ≡ outcome_of overflow_in_signed (fitting (value_of u * value_of v)))
  checked_arithmetic u v = (incr_exact u, plus_exact u v, minus_exact u v, times_exact u v)

  -- Div, Mod and DivMod panic at a zero divisor and nowhere else; otherwise DivMod returns the
  -- numbers of Div and Mod, the quotient and remainder of the division with remainder.
  pub division_exact :
      (u v : Uint256 w)
      → (map_ok value_of (quotient w u v)
          ≡ outcome_of divide_by_zero
              (if value_of v == 0 then none else some (value_of u / value_of v)))
        × (map_ok value_of (remainder w u v)
            ≡ outcome_of divide_by_zero
                (if value_of v == 0 then none else some (value_of u % value_of v)))
        × (map_ok {B = ℕ × ℕ} (λ p. (value_of p.0, value_of p.1)) (quo_rem w u v)
            ≡ outcome_of divide_by_zero (
                if value_of v == 0
                then none
                else some (value_of u / value_of v, value_of u % value_of v)))
  unfolding quotient remainder quo_rem
  division_exact u v = (
    ground (arith, w.is_zero_lem v.X, w.div_lem u.X v.X),
    ground (arith, w.is_zero_lem v.X, w.modulo_lem u.X v.X),
    ground (arith, w.is_zero_lem v.X, w.div_mod_quo u.X v.X, w.div_mod_rem u.X v.X),
  )

  -- UnsafeAdd, UnsafeSub and UnsafeMul compute modulo 2 ^ 256 and do not panic; UnsafeSub undoes
  -- UnsafeAdd at any two words.
  pub unsafe_wraps :
      (u v : Uint256 w)
      → (value_of (unsafe_add w u v) ≡ (value_of u + value_of v) % modulus)
        × (value_of (unsafe_sub w u v) ≡ (modulus + value_of u - value_of v) % modulus)
        × (value_of (unsafe_mul w u v) ≡ value_of u * value_of v % modulus)
        × (value_of (unsafe_sub w (unsafe_add w u v) v) ≡ value_of u)
  unfolding unsafe_add unsafe_sub unsafe_mul
  unsafe_wraps u v = (
    w.add_lem u.X v.X,
    omega (arith, w.sub_lem u.X v.X, w.value-lt u.X, w.value-lt v.X),
    w.mul_lem u.X v.X,
    omega (arith, w.sub_lem (w.add u.X v.X) v.X, w.add_lem u.X v.X, w.value-lt u.X, w.value-lt v.X),
  )
