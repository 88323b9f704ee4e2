-- ===== src/Sint256.antt =====
-- script/types/s256.go: the signed 256-bit numbers of the scripts, in two's complement over the
-- words of the uint256 package (`Word`). An `int64` argument is an integer in `IsInt64`; Go's -v
-- wraps at the least int64.
pub mod Convert
pub mod Sums
pub mod Products
pub mod Compare
use egvm.Prelude.{
  ℕ, zero, suc, ◌-◌, ◌^◌, ◌<◌, Bool, true, false, not, ◌&&◌, ◌||◌, List, [], ◌∷◌, ◌==◌, leb, ltb,
  if◌then◌else◌, ℤ, pos, negsuc, ltb_ℤ, ◌*ℤ◌,
}
use egvm.Outcome.{
  Outcome, ok, panic, panic_if, ◌>>=◌, ◌>>◌, incorrect_argument_count, larger_than_max_integer,
  divide_by_zero, overflow_in_abs, overflow_in_neg, overflow_in_signed_addition,
  overflow_in_signed_substraction, overflow_in_signed_multiplication, overflow_in_division,
  overflow_in_to_safe_integer,
}
use egvm.Word.{WordLib}
use egvm.Goja.{Value, max_safe_integer, to_uint64}
use egvm.Uint256.{Uint256}

pub record Sint256 (w : WordLib) : Type 0 where
  pub x : w.Int

-- Go's -v of an int64.
unfoldable pub neg_int64 : ℤ → ℤ
neg_int64 (pos zero) = pos 0
neg_int64 (pos (suc n)) = negsuc n
neg_int64 (negsuc n) = if n == 2 ^ 63 - 1 then negsuc n else pos (suc n)

module _ (w : WordLib) where
  open w use {
    Int, new_int, clone, set_bytes, write_to_array32, uint64_with_overflow, add, add_overflow, sub,
    mul_overflow, div, lsh, srsh, is_zero, eq, sign, neg, abs, slt, sgt,
  }

  abbrev pub wrap : Int → Sint256 w
  wrap x = record { x = x }

  -- utils.MinNegValue: 1 shifted left by 255
  unfoldable pub min_neg_value : Int
  min_neg_value = lsh (new_int 1) 255

  -- BufToS256, ToBuf
  unfoldable pub buf_to_s256 : List ℕ → Sint256 w
  buf_to_s256 bz = wrap (set_bytes bz)

  unfoldable pub to_buf : Sint256 w → List Value → Outcome (List ℕ)
  to_buf s [] = ok (write_to_array32 s.x)
  to_buf s (a ∷ args) = panic incorrect_argument_count

  -- The test of S256 and of the comparisons with an int64.
  unfoldable pub out_of_safe_range : ℤ → Bool
  unfolding neg_int64
  out_of_safe_range v = ltb_ℤ (pos max_safe_integer) v || ltb_ℤ (pos max_safe_integer) (neg_int64 v)

  -- S256
  unfoldable pub s256 : ℤ → Outcome (Sint256 w)
  unfolding out_of_safe_range neg_int64
  s256 v = do
    panic_if (out_of_safe_range v) larger_than_max_integer
    (if ltb_ℤ v (pos 0)
        then ok (wrap (neg (new_int (to_uint64 (neg_int64 v)))))
        else ok (wrap (new_int (to_uint64 v))))

  -- ToU256, and ToS256 of u256.go
  unfoldable pub to_u256 : Sint256 w → Uint256 w
  to_u256 s = record { X = clone s.x }

  unfoldable pub to_s256 : Uint256 w → Sint256 w
  to_s256 u = wrap (clone u.X)

  -- Abs, Neg
  unfoldable pub absolute : Sint256 w → Outcome (Sint256 w)
  unfolding min_neg_value
  absolute s = do panic_if (eq s.x min_neg_value) overflow_in_abs; ok (wrap (abs s.x))

  unfoldable pub negate : Sint256 w → Outcome (Sint256 w)
  unfolding min_neg_value
  negate s = do panic_if (eq s.x min_neg_value) overflow_in_neg; ok (wrap (neg s.x))

  abbrev is_neg : Int → Bool
  is_neg x = ltb_ℤ (sign x) (pos 0)

  abbrev is_pos : Int → Bool
  is_pos x = ltb_ℤ (pos 0) (sign x)

  -- Add: the result and the overflow flag, and the panic on the flag
  unfoldable pub add_with_flag : Int → Int → Int × Bool
  add_with_flag s v =
      if not (is_neg s) && not (is_neg v)
      then add_overflow s v
      else (add s v, is_neg s && is_neg v && not (is_neg (add s v)))

  unfoldable pub plus : Sint256 w → Sint256 w → Outcome (Sint256 w)
  unfolding add_with_flag
  plus s v =
      let (result, overflow) = add_with_flag s.x v.x in
      (do panic_if overflow overflow_in_signed_addition; ok (wrap result))

  -- Sub
  unfoldable pub minus : Sint256 w → Sint256 w → Outcome (Sint256 w)
  minus s v =
      let result = sub s.x v.x in
      (do
        panic_if
            (is_pos s.x && (is_neg v.x && is_neg result)
              || is_neg s.x && (is_pos v.x && is_pos result))
            overflow_in_signed_substraction
        ok (wrap result))

  -- s.x.Sign()*v.x.Sign() == -1
  unfoldable pub signs_differ : Int → Int → Bool
  unfolding ◌*ℤ◌
  signs_differ s v = elim (sign s *ℤ sign v) [ pos n ↦ false | negsuc n ↦ n == 0 ]

  -- Mul
  unfoldable pub times : Sint256 w → Sint256 w → Outcome (Sint256 w)
  unfolding min_neg_value
  times s v =
      let (result, overflow) = mul_overflow (abs s.x) (abs v.x) in
      (do
        panic_if (eq s.x min_neg_value || eq v.x min_neg_value) overflow_in_signed_multiplication
        panic_if overflow overflow_in_signed_multiplication
        ok (wrap (if signs_differ s.x v.x then neg result else result)))

  -- Div
  unfoldable pub quotient : Sint256 w → Sint256 w → Outcome (Sint256 w)
  unfolding min_neg_value
  quotient s v =
      let result = div (abs s.x) (abs v.x) in
      (do
        panic_if (eq s.x min_neg_value || eq v.x min_neg_value) overflow_in_division
        panic_if (is_zero v.x) divide_by_zero
        ok (wrap (if signs_differ s.x v.x then neg result else result)))

  -- Lsh, Rsh
  unfoldable pub shift_left : Sint256 w → ℕ → Sint256 w
  shift_left s n = wrap (lsh s.x n)

  unfoldable pub shift_right : Sint256 w → ℕ → Sint256 w
  shift_right s n = wrap (srsh s.x n)

  -- Equal, IsZero, Sign, Gt, Gte, Lt, Lte
  unfoldable pub is_equal : Sint256 w → Sint256 w → Bool
  is_equal s v = eq s.x v.x

  unfoldable pub is_zero_num : Sint256 w → Bool
  is_zero_num s = is_zero s.x

  unfoldable pub sign_num : Sint256 w → ℤ
  sign_num s = sign s.x

  unfoldable pub is_gt : Sint256 w → Sint256 w → Bool
  is_gt s v = sgt s.x v.x

  unfoldable pub is_gte : Sint256 w → Sint256 w → Bool
  is_gte s v = not (sgt v.x s.x)

  unfoldable pub is_lt : Sint256 w → Sint256 w → Bool
  is_lt s v = slt s.x v.x

  unfoldable pub is_lte : Sint256 w → Sint256 w → Bool
  is_lte s v = not (slt v.x s.x)

  -- GtNum, GteNum, LtNum; LteNum tests one bound only and leaves the other to S256
  unfoldable pub gt_num : Sint256 w → ℤ → Outcome Bool
  unfolding out_of_safe_range
  gt_num s v = do
    panic_if (out_of_safe_range v) larger_than_max_integer
    n ← s256 v
    ok (sgt s.x n.x)

  unfoldable pub gte_num : Sint256 w → ℤ → Outcome Bool
  unfolding out_of_safe_range
  gte_num s v = do
    panic_if (out_of_safe_range v) larger_than_max_integer
    n ← s256 v
    ok (not (sgt n.x s.x))

  unfoldable pub lt_num : Sint256 w → ℤ → Outcome Bool
  unfolding out_of_safe_range
  lt_num s v = do
    panic_if (out_of_safe_range v) larger_than_max_integer
    n ← s256 v
    ok (slt s.x n.x)

  unfoldable pub lte_num : Sint256 w → ℤ → Outcome Bool
  lte_num s v = do
    panic_if (ltb_ℤ (pos max_safe_integer) v) larger_than_max_integer
    n ← s256 v
    ok (not (slt n.x s.x))

  -- IsSafeInteger, ToSafeInteger: what the branch on the sign assigns to u64 and overflow is
  -- assigned again, from the word itself, right after it
  unfoldable pub safe_word : Int → ℕ × Bool
  safe_word x =
      let first : ℕ × Bool = if is_neg x then uint64_with_overflow (neg x) else (0, false) in
      uint64_with_overflow x

  unfoldable pub is_safe_integer : Sint256 w → Bool
  unfolding safe_word
  is_safe_integer s =
      let (u64, overflow) = safe_word s.x in leb u64 max_safe_integer && not overflow

  unfoldable pub to_safe_integer : Sint256 w → Outcome ℤ
  unfolding safe_word neg_int64
  to_safe_integer s =
      let (u64, overflow) = safe_word s.x in
      (do
        panic_if (not (leb u64 max_safe_integer && not overflow)) overflow_in_to_safe_integer
        ok (if is_neg s.x then neg_int64 (pos u64) else pos u64))
