-- ===== src/Decimal.antt =====
-- Numbers as Go's package fmt prints them.
use egvm.Prelude.{ℕ, zero, suc, ◌+◌, ◌/◌, ◌%◌, [], ◌∷◌, ◌++◌, ltb, if◌then◌else◌}
use egvm.Bytes.{Bytes}

-- fmt.Sprintf of a uint64 with %d, which has at most 20 digits.
unfoldable pub digits : ℕ → ℕ → Bytes
digits zero n = []
digits (suc left) n =
    let rest = digits left (n / 10) in
    if ltb n 10 then (48 + n) ∷ [] else rest ++ ((48 + n % 10) ∷ [])
