-- ===== src/Sint256/Compare.antt =====
-- The comparisons of script/types/s256.go.
use egvm.Prelude.{◌≡◌, ◌↔◌, true, arith, ℤ, ◌≤ℤ◌}
use egvm.Outcome.{ok, ◌>>=◌}
use egvm.Word.{WordLib}
use egvm.Sint256.{
  Sint256, s256, is_equal, is_gt, is_gte, is_lt, is_lte, gt_num, gte_num, lt_num, lte_num,
}
use egvm.Sint256.Sums.{integer}

module _ (w : WordLib) where
  open w use {value}

  -- Gt, Gte, Lt, Lte and Equal decide the order and equality of the integers in two's complement.
  pub signed_comparisons_exact :
      (s v : Sint256 w)
      → ((is_gte w s v ≡ true) ↔ (integer w v ≤ℤ integer w s))
        × ((is_gt w s v ≡ true) ↔ ¬ (integer w s ≤ℤ integer w v))
        × ((is_lte w s v ≡ true) ↔ (integer w s ≤ℤ integer w v))
        × ((is_lt w s v ≡ true) ↔ ¬ (integer w v ≤ℤ integer w s))
        × ((is_equal w s v ≡ true) ↔ (integer w s ≡ integer w v))
  unfolding is_gt is_gte is_lt is_lte is_equal
  signed_comparisons_exact s v = (
    rw w.sgt_lem (ground arith),
    rw w.sgt_lem (ground arith),
    rw w.slt_lem (ground arith),
    rw w.slt_lem (ground arith),
    rw w.eq_lem (λ e. ground arith, λ e. ground (arith, w.value-lt s.x, w.value-lt v.x)),
  )

  -- GtNum, GteNum, LtNum and LteNum compare with S256(n) as Gt, Gte, Lt and Lte do, and panic for
  -- the same n as S256, though LteNum leaves out one of the two range tests of the others.
  pub signed_num_comparisons :
      (s : Sint256 w) (n : ℤ)
      → (gt_num w s n ≡ (do v ← s256 w n; ok (is_gt w s v)))
        × (gte_num w s n ≡ (do v ← s256 w n; ok (is_gte w s v)))
        × (lt_num w s n ≡ (do v ← s256 w n; ok (is_lt w s v)))
        × (lte_num w s n ≡ (do v ← s256 w n; ok (is_lte w s v)))
  unfolding is_gt is_gte is_lt is_lte gt_num gte_num lt_num lte_num s256
  signed_num_comparisons s n = (ground arith, ground arith, ground arith, ground arith)
