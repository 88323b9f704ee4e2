-- ===== src/Hex.antt =====
-- encoding/hex of Go, which the servers and the extension functions call: lower-case digits out,
-- digits of either case in, and an error at an odd length or at any other byte.
use egvm.Prelude.{
  ℕ, ◌+◌, ◌-◌, ◌*◌, ◌/◌, ◌%◌, ◌<◌, ◌≡◌, refl, Option, none, some, [], ◌∷◌, ◌&&◌, ltb, leb,
  if◌then◌else◌, arith, All,
}
use egvm.Bytes.{Bytes}

unfoldable pub hex_digit : ℕ → ℕ
hex_digit d = if ltb d 10 then 48 + d else 87 + d

unfoldable pub hex_value : ℕ → Option ℕ
hex_value c =
    if leb 48 c && leb c 57
    then some (c - 48)
    else if leb 97 c && leb c 102
    then some (c - 87)
    else if leb 65 c && leb c 70
    then some (c - 55)
    else none

-- hex.EncodeToString
unfoldable pub hex_encode : Bytes → Bytes
unfolding hex_digit
hex_encode [] = []
hex_encode (b ∷ bs) = hex_digit (b / 16) ∷ hex_digit (b % 16) ∷ hex_encode bs

-- hex.DecodeString
unfoldable pub hex_decode : Bytes → Option Bytes
unfolding hex_value
hex_decode [] = some []
hex_decode (c ∷ []) = none
hex_decode (c ∷ d ∷ cs) =
    let rest : Option Bytes = hex_decode cs in
    elim (hex_value c) [
      | none ↦ none
      | some high ↦ elim (hex_value d) [
        | none ↦ none
        | some low ↦ elim rest [ none ↦ none | some bs ↦ some ((high * 16 + low) ∷ bs) ]
      ]
    ]

hex_value-hex_digit : (d : ℕ) → d < 16 → hex_value (hex_digit d) ≡ some d
unfolding hex_value hex_digit
hex_value-hex_digit d h = ground arith

-- What was encoded is decoded again.
pub hex_decode-hex_encode :
    (bs : Bytes) → All (λ b. b < 256) bs → hex_decode (hex_encode bs) ≡ some bs
unfolding hex_encode hex_decode
hex_decode-hex_encode [] h = refl
hex_decode-hex_encode (b ∷ bs) h =
    rw (hex_value-hex_digit (b / 16) (omega (arith, h.0)), hex_decode)
      (rw (hex_value-hex_digit (b % 16) (omega arith), hex_decode-hex_encode bs h.1)
        (ground (arith, h.0)))
