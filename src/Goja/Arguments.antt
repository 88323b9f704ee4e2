-- ===== src/Goja/Arguments.antt =====
-- The argument checks of script/utils/function.go.
use egvm.Prelude.{All, ℕ, ◌≤◌, ◌≡◌, ◌↔◌, List, [], ◌∷◌, arith, pos, negsuc}
use egvm.Outcome.{ok}
use egvm.Goja.{
  Value, string, int64, array_buffer, uint256, other, max_safe_integer, IsExported, get_one_uint64,
}

-- `GetOneUint64` accepts exactly the call with one int64 argument between 0 and MaxSafeInteger,
-- and returns it; a negative argument is refused through its conversion to uint64.
pub get_one_uint64_iff :
    (args : List Value) (n : ℕ)
    → All IsExported args
    → (get_one_uint64 args ≡ ok n) ↔ ((args ≡ int64 (pos n) ∷ []) × (n ≤ max_safe_integer))
unfolding get_one_uint64
get_one_uint64_iff [] n h = (λ e. cc, λ e. cc (e.0))
get_one_uint64_iff (string s ∷ []) n h = (λ e. cc, λ e. cc (e.0))
get_one_uint64_iff (array_buffer s ∷ []) n h = (λ e. cc, λ e. cc (e.0))
get_one_uint64_iff (uint256 s ∷ []) n h = (λ e. cc, λ e. cc (e.0))
get_one_uint64_iff (other ∷ []) n h = (λ e. cc, λ e. cc (e.0))
get_one_uint64_iff (int64 (pos m) ∷ []) n h = (λ e. (ground arith, ground arith), λ e. ground arith)
get_one_uint64_iff (int64 (negsuc m) ∷ []) n h = (λ e. absurd (ground arith), λ e. cc (e.0))
get_one_uint64_iff (u ∷ v ∷ r) n h = (λ e. cc, λ e. cc (e.0))
