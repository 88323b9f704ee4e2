-- ===== src/Tests/Signed.antt =====
-- The theorems on Sint256 at concrete numbers, over the words of `ModelWord`.
use egvm.Sint256.Products.{signed_quotient_panics}
use egvm.Outcome.{overflow_in_division}
use egvm.Prelude.{inl}
use egvm.Prelude.{
  ℕ, ◌-◌, ◌^◌, ◌≡◌, refl, true, none, [], ◌∷◌, ◌++◌, replicate, arith, pos, negsuc, ◌*ℤ◌, inl,
}
use egvm.Outcome.{ok, panic, map_ok}
use egvm.Word.{modulus, half, to_be}
use egvm.Sint256.{Sint256, wrap, times, quotient, to_buf}
use egvm.Sint256.Sums.{integer, fitting}
use egvm.Sint256.Products.{magnitude, opposite, with_sign, signed_times_exact, times_wraps}
use egvm.Tests.ModelWord.{model_word}

abbrev nonneg : ℕ → Sint256 model_word
nonneg n = wrap model_word n

abbrev neg : ℕ → Sint256 model_word
neg n = wrap model_word (modulus - n)

signed_times_exact_example :
    map_ok (integer model_word) (times model_word (nonneg 5) (neg 8)) ≡ ok (negsuc 39)
unfolding ◌*ℤ◌ magnitude
signed_times_exact_example =
    signed_times_exact model_word (nonneg 5) (neg 8) (λ e. omega arith) (λ e. omega arith)
      (omega arith)

times_wraps_example :
    (map_ok (integer model_word) (times model_word (nonneg (2 ^ 200)) (nonneg (2 ^ 56 - 1)))
      ≡ ok (with_sign true (2 ^ 200)))
    × (fitting (pos (2 ^ 200) *ℤ pos (2 ^ 56 - 1)) ≡ none)
unfolding magnitude opposite
times_wraps_example =
    times_wraps model_word (nonneg (2 ^ 200)) (nonneg (2 ^ 56 - 1)) (λ e. omega arith)
      (λ e. omega arith) (omega arith) (omega arith)

minus_seven : to_buf model_word (neg 7) [] ≡ ok (replicate 31 255 ++ (249 ∷ []))
unfolding to_buf to_be
minus_seven = refl

signed_quotient_panics_example :
    quotient model_word (nonneg half) (nonneg 2) ≡ panic overflow_in_division
signed_quotient_panics_example =
    signed_quotient_panics model_word (nonneg half) (nonneg 2) (inl refl)
