-- ===== src/Tests/Unsigned.antt =====
-- The theorems on Uint256 at concrete numbers, over the words of `ModelWord`.
use egvm.Prelude.{ℕ, ◌^◌, ◌≤◌, ◌≡◌, refl, [], ◌∷◌, pos, ◌↔◌, replicate, ◌++◌, arith}
use egvm.Outcome.{ok, panic, map_ok, overflow_in_signed}
use egvm.Word.{to_be}
use egvm.Goja.{int64, max_safe_integer, get_one_uint64}
use egvm.Goja.Arguments.{get_one_uint64_iff}
use egvm.Uint256.{Uint256, wrap, plus, times, to_buf}
use egvm.Uint256.Arith.{value_of, checked_arithmetic}
use egvm.Tests.ModelWord.{model_word}

abbrev number : ℕ → Uint256 model_word
number n = wrap model_word n

get_one_uint64_iff_example :
    (get_one_uint64 (int64 (pos 7) ∷ []) ≡ ok 7)
    ↔ ((int64 (pos 7) ∷ [] ≡ int64 (pos 7) ∷ []) × (7 ≤ max_safe_integer))
get_one_uint64_iff_example = get_one_uint64_iff (int64 (pos 7) ∷ []) 7 (omega arith)

checked_arithmetic_example :
    map_ok (value_of model_word) (plus model_word (number 2) (number 3)) ≡ ok 5
checked_arithmetic_example = (checked_arithmetic model_word (number 2) (number 3)).1

checked_overflow : times model_word (number (2 ^ 200)) (number (2 ^ 56)) ≡ panic overflow_in_signed
unfolding times
checked_overflow = refl

seven_bytes : to_buf model_word (number 7) [] ≡ ok (replicate 31 0 ++ (7 ∷ []))
unfolding to_buf to_be
seven_bytes = refl
