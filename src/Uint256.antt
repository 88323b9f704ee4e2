-- ===== src/Uint256.antt =====
-- script/types/u256.go: the unsigned 256-bit numbers of the scripts. Each method is a function of
-- the words of the uint256 package (`Word`); a Go panic is an `Outcome`. The arguments `v uint64`
-- are numbers below 2 ^ 64.
pub mod Arith
pub mod Compare
pub mod Convert
use egvm.Prelude.{ℕ, ◌^◌, ◌<◌, Bool, not, ◌&&◌, List, [], ◌∷◌, leb, ltb, if◌then◌else◌}
use egvm.Outcome.{
  Outcome, ok, panic, panic_if, ◌>>=◌, ◌>>◌, incorrect_argument_count, overflow_in_addition,
  overflow_in_substraction, overflow_in_signed, divide_by_zero, overflow_in_to_safe_integer,
  larger_than_max_integer,
}
use egvm.Word.{WordLib}
use egvm.Goja.{Value, max_safe_integer}

pub record Uint256 (w : WordLib) : Type 0 where
  pub X : w.Int

module _ (w : WordLib) where
  open w use {
    new_int, set_bytes, write_to_array32, uint64_with_overflow, add, add_overflow, sub, mul,
    mul_overflow, div, modulo, div_mod, complement, lsh, rsh, is_zero, eq, lt, gt, lt_uint64,
    gt_uint64,
  }

  abbrev pub wrap : w.Int → Uint256 w
  wrap x = record { X = x }

  -- BufToU256
  unfoldable pub buf_to_u256 : List ℕ → Uint256 w
  buf_to_u256 bz = wrap (set_bytes bz)

  -- U256
  unfoldable pub u256 : ℕ → Outcome (Uint256 w)
  u256 v = do panic_if (ltb max_safe_integer v) larger_than_max_integer; ok (wrap (new_int v))

  -- Incr, Add, Sub, Mul: with a check
  unfoldable pub incr : Uint256 w → Outcome (Uint256 w)
  incr u =
      let (result, overflow) = add_overflow u.X (new_int 1) in
      (do panic_if overflow overflow_in_addition; ok (wrap result))

  unfoldable pub plus : Uint256 w → Uint256 w → Outcome (Uint256 w)
  plus u v =
      let (result, overflow) = add_overflow u.X v.X in
      (do panic_if overflow overflow_in_addition; ok (wrap result))

  unfoldable pub minus : Uint256 w → Uint256 w → Outcome (Uint256 w)
  minus u v = do panic_if (lt u.X v.X) overflow_in_substraction; ok (wrap (sub u.X v.X))

  unfoldable pub times : Uint256 w → Uint256 w → Outcome (Uint256 w)
  times u v =
      let (result, overflow) = mul_overflow u.X v.X in
      (do panic_if overflow overflow_in_signed; ok (wrap result))

  -- UnsafeAdd, UnsafeSub, UnsafeMul: modulo 2 ^ 256
  unfoldable pub unsafe_add : Uint256 w → Uint256 w → Uint256 w
  unsafe_add u v = wrap (add u.X v.X)

  unfoldable pub unsafe_sub : Uint256 w → Uint256 w → Uint256 w
  unsafe_sub u v = wrap (sub u.X v.X)

  unfoldable pub unsafe_mul : Uint256 w → Uint256 w → Uint256 w
  unsafe_mul u v = wrap (mul u.X v.X)

  -- Div, Mod, DivMod
  unfoldable pub quotient : Uint256 w → Uint256 w → Outcome (Uint256 w)
  quotient u v = do panic_if (is_zero v.X) divide_by_zero; ok (wrap (div u.X v.X))

  unfoldable pub remainder : Uint256 w → Uint256 w → Outcome (Uint256 w)
  remainder u v = do panic_if (is_zero v.X) divide_by_zero; ok (wrap (modulo u.X v.X))

  unfoldable pub quo_rem : Uint256 w → Uint256 w → Outcome (Uint256 w × Uint256 w)
  quo_rem u v =
      let (quo, rem) = div_mod u.X v.X in
      (do panic_if (is_zero v.X) divide_by_zero; ok (wrap quo, wrap rem))

  -- Not, Lsh, Rsh
  unfoldable pub bitwise_not : Uint256 w → Uint256 w
  bitwise_not u = wrap (complement u.X)

  unfoldable pub shift_left : Uint256 w → ℕ → Uint256 w
  shift_left u n = wrap (lsh u.X n)

  unfoldable pub shift_right : Uint256 w → ℕ → Uint256 w
  shift_right u n = wrap (rsh u.X n)

  -- Gt, Gte, Lt, Lte, Equal, IsZero
  unfoldable pub is_gt : Uint256 w → Uint256 w → Bool
  is_gt u v = gt u.X v.X

  unfoldable pub is_gte : Uint256 w → Uint256 w → Bool
  is_gte u v = not (gt v.X u.X)

  unfoldable pub is_lt : Uint256 w → Uint256 w → Bool
  is_lt u v = lt u.X v.X

  unfoldable pub is_lte : Uint256 w → Uint256 w → Bool
  is_lte u v = not (lt v.X u.X)

  unfoldable pub is_equal : Uint256 w → Uint256 w → Bool
  is_equal u v = eq u.X v.X

  unfoldable pub is_zero_num : Uint256 w → Bool
  is_zero_num u = is_zero u.X

  -- GtNum, GteNum, LtNum, LteNum: against a safe integer
  unfoldable pub gt_num : Uint256 w → ℕ → Outcome Bool
  gt_num u v = do panic_if (ltb max_safe_integer v) larger_than_max_integer; ok (gt_uint64 u.X v)

  unfoldable pub gte_num : Uint256 w → ℕ → Outcome Bool
  gte_num u v = do
    panic_if (ltb max_safe_integer v) larger_than_max_integer
    n ← u256 v
    ok (not (gt n.X u.X))

  unfoldable pub lt_num : Uint256 w → ℕ → Outcome Bool
  lt_num u v = do panic_if (ltb max_safe_integer v) larger_than_max_integer; ok (lt_uint64 u.X v)

  unfoldable pub lte_num : Uint256 w → ℕ → Outcome Bool
  lte_num u v = do
    panic_if (ltb max_safe_integer v) larger_than_max_integer
    n ← u256 v
    ok (not (lt n.X u.X))

  -- IsSafeInteger, ToSafeInteger
  unfoldable pub is_safe_integer : Uint256 w → Bool
  is_safe_integer u =
      let (u64, overflow) = uint64_with_overflow u.X in leb u64 max_safe_integer && not overflow

  unfoldable pub to_safe_integer : Uint256 w → Outcome ℕ
  to_safe_integer u =
      let (u64, overflow) = uint64_with_overflow u.X in
      let safe = leb u64 max_safe_integer && not overflow in
      (do panic_if (not safe) overflow_in_to_safe_integer; ok u64)

  -- ToBuf
  unfoldable pub to_buf : Uint256 w → List Value → Outcome (List ℕ)
  to_buf u [] = ok (write_to_array32 u.X)
  to_buf u (a ∷ args) = panic incorrect_argument_count
