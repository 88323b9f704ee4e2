-- ===== src/Uint256/Compare.antt =====
-- The comparisons of script/types/u256.go.
use egvm.Prelude.{ℕ, ◌≤◌, ◌<◌, ◌≡◌, ◌↔◌, true, arith}
use egvm.Outcome.{ok, ◌>>=◌, map_ok}
use egvm.Word.{WordLib}
use egvm.Uint256.{
  Uint256, u256, is_gt, is_gte, is_lt, is_lte, is_equal, is_zero_num, gt_num, gte_num, lt_num,
  lte_num,
}

module _ (w : WordLib) where
  open w use {value}

  -- Gt, Gte, Lt, Lte and Equal decide the order of the numbers, and IsZero decides equality with
  -- what U256(0) returns.
  pub comparisons_exact :
      (u v : Uint256 w)
      → ((is_gt w u v ≡ true) ↔ (value v.X < value u.X))
        × ((is_gte w u v ≡ true) ↔ (value v.X ≤ value u.X))
        × ((is_lt w u v ≡ true) ↔ (value u.X < value v.X))
        × ((is_lte w u v ≡ true) ↔ (value u.X ≤ value v.X))
        × ((is_equal w u v ≡ true) ↔ (value u.X ≡ value v.X))
        × (ok (is_zero_num w u) ≡ map_ok (λ z. is_equal w u z) (u256 w 0))
  unfolding is_gt is_gte is_lt is_lte is_equal is_zero_num u256
  comparisons_exact u v = (
    rw w.gt_lem (ground arith),
    rw w.gt_lem (ground arith),
    rw w.lt_lem (ground arith),
    rw w.lt_lem (ground arith),
    rw w.eq_lem (ground arith),
    ground (arith, w.is_zero_lem u.X, w.eq_lem u.X (w.new_int 0), w.new_int_lem 0 (omega arith)),
  )

  -- GtNum, GteNum, LtNum and LteNum compare with U256(n) as Gt, Gte, Lt and Lte do, and panic for
  -- the same n as U256: those above MaxSafeInteger.
  pub num_comparisons :
      (u : Uint256 w) (n : ℕ)
      → (gt_num w u n ≡ (do v ← u256 w n; ok (is_gt w u v)))
        × (gte_num w u n ≡ (do v ← u256 w n; ok (is_gte w u v)))
        × (lt_num w u n ≡ (do v ← u256 w n; ok (is_lt w u v)))
        × (lte_num w u n ≡ (do v ← u256 w n; ok (is_lte w u v)))
  unfolding is_gt is_gte is_lt is_lte gt_num gte_num lt_num lte_num u256
  num_comparisons u n = (
    ground (arith, w.gt_uint64_lem u.X n, w.gt_lem u.X (w.new_int n), w.new_int_lem n),
    ground arith,
    ground (arith, w.lt_uint64_lem u.X n, w.lt_lem u.X (w.new_int n), w.new_int_lem n),
    ground arith,
  )
