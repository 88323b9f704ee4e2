-- ===== src/Tests/Buffers.antt =====
-- The theorems on buffers at concrete inputs.
use mathlib.Core.List.{flatten}
use egvm.Prelude.{
  ◌+◌, ◌-◌, ◌^◌, ◌≡◌, refl, [], ◌∷◌, ◌++◌, length, replicate, arith, pos, negsuc, inl,
}
use egvm.Outcome.{ok, panic, ◌>>=◌, padding_out_of_range}
use egvm.Bytes.{Bytes}
use egvm.Goja.{string, int64, array_buffer}
use egvm.Buffer.{HexLib, buf_concat, buf_to_u32_le, u32_to_buf_le, hex_to_padding_buf}
use egvm.Buffer.Numbers.{number_round_trip}
use egvm.Buffer.Padding.{hex_to_padding_buf_panics}
use egvm.Buffer.Order.{buf_concat_exact}

-- A hexadecimal decoder that keeps the bytes of its text.
abbrev model_hex : HexLib
model_hex = record {
  from_hex = λ s. s;
  left_pad_bytes = λ bz l. replicate (l - length bz) 0 ++ bz;
  left_pad_bytes_lem = λ bz l. refl;
}

abbrev three_bytes : Bytes
three_bytes = 1 ∷ 2 ∷ 3 ∷ []

number_round_trip_example :
    (do b ← u32_to_buf_le (int64 (pos (2 ^ 32 + 5)) ∷ []); buf_to_u32_le (array_buffer b ∷ []))
    ≡ ok 5
number_round_trip_example = (number_round_trip (2 ^ 32 + 5) (omega arith)).1

hex_to_padding_buf_panics_example :
    hex_to_padding_buf model_hex (string three_bytes ∷ int64 (negsuc 4) ∷ [])
    ≡ panic padding_out_of_range
hex_to_padding_buf_panics_example =
    hex_to_padding_buf_panics model_hex three_bytes (negsuc 4) (inl (omega arith))

buf_concat_exact_example :
    buf_concat (array_buffer three_bytes ∷ array_buffer three_bytes ∷ [])
    ≡ ok (three_bytes ++ three_bytes)
unfolding flatten
buf_concat_exact_example = buf_concat_exact (three_bytes ∷ three_bytes ∷ [])
