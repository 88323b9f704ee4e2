-- ===== src/Sint256/Convert.antt =====
-- The conversions of script/types/s256.go: from and to safe integers, Uint256 and buffers.
use egvm.Prelude.{
  ℕ, ◌+◌, ◌-◌, ◌^◌, ◌≡◌, ap, Bool, false, ◌&&◌, ◌||◌, none, some, List, [], ltb, leb, ◌==◌, arith,
  if◌then◌else◌, ℤ, pos, negsuc, ltb_ℤ, length,
}
use egvm.Outcome.{ok, outcome_of, map_ok, larger_than_max_integer, overflow_in_to_safe_integer}
use egvm.Word.{WordLib, signed}
use egvm.Goja.{max_safe_integer, IsInt64}
use egvm.Uint256.Convert.{length-word, word_round_trip}
use egvm.Sint256.{
  Sint256, s256, to_u256, to_s256, is_safe_integer, to_safe_integer, buf_to_s256, to_buf,
}

-- The integers that S256 lets through: the safe ones, and the least int64.
abbrev pub accepted : ℤ → Bool
accepted (pos n) = leb n max_safe_integer
accepted (negsuc n) = ltb n max_safe_integer || (n == 2 ^ 63 - 1)

module _ (w : WordLib) where
  open w use {value}

  -- S256 returns the given int64 when its absolute value is at most MaxSafeInteger and panics
  -- otherwise, except at the least int64, -2 ^ 63, which it also returns.
  pub s256_exact :
      (v : ℤ)
      → IsInt64 v
      → map_ok (λ s. signed (value s.x)) (s256 w v)
        ≡ outcome_of larger_than_max_integer (if accepted v then some v else none)
  unfolding s256
  s256_exact (pos n) h = ground (arith, w.new_int_lem n)
  s256_exact (negsuc n) h = ground (
    arith,
    w.new_int_lem (n + 1),
    w.new_int_lem (2 ^ 63),
    w.neg_lem (w.new_int (n + 1)),
    w.neg_lem (w.new_int (2 ^ 63)),
  )

  -- A negative integer is never a safe integer to IsSafeInteger, and ToSafeInteger panics at each of
  -- them; a nonnegative one is safe, and is returned, exactly up to MaxSafeInteger.
  pub signed_safe_integers :
      (s : Sint256 w)
      → (is_safe_integer w s ≡ leb (value s.x) max_safe_integer)
        × (to_safe_integer w s
            ≡ outcome_of overflow_in_to_safe_integer
                (if leb (value s.x) max_safe_integer then some (signed (value s.x)) else none))
        × ((ltb_ℤ (signed (value s.x)) (pos 0) && is_safe_integer w s) ≡ false)
  unfolding is_safe_integer to_safe_integer
  signed_safe_integers s = (
    ground (arith, w.uint64_lem s.x, w.uint64_overflow_lem s.x),
    ground (arith, w.uint64_lem s.x, w.uint64_overflow_lem s.x, w.sign_lem s.x, w.value-lt s.x),
    ground (arith, w.uint64_lem s.x, w.uint64_overflow_lem s.x, w.value-lt s.x),
  )

  -- ToBuf writes exactly 32 bytes, BufToS256 reads the same integer back from them, and ToU256
  -- followed by ToS256 keeps it too.
  pub signed_buf_round_trip :
      (s : Sint256 w) (buf : List ℕ)
      → to_buf w s [] ≡ ok buf
      → (length buf ≡ 32)
        × (signed (value (buf_to_s256 w buf).x) ≡ signed (value s.x))
        × (signed (value (to_s256 w (to_u256 w s)).x) ≡ signed (value s.x))
  unfolding to_buf buf_to_s256 to_s256 to_u256
  signed_buf_round_trip s buf e =
      let written : buf ≡ w.write_to_array32 s.x = cc in
      rw written
        (length-word w s.x, ap signed (word_round_trip w s.x), rw (w.clone_lem, w.clone_lem))
