-- ===== src/Buffer/Padding.antt =====
-- HexToPaddingBuf of script/extension/buffer.go.
use egvm.Prelude.{leb}
use egvm.Prelude.{
  ℕ, zero, suc, ◌+◌, ◌-◌, ◌≤◌, ◌<◌, ◌≡◌, refl, sym, ap, ◌∙◌, [], ◌∷◌, ◌++◌, length, length-append,
  replicate, arith, if◌then◌else◌, ℤ, pos, ◌≤ℤ◌, ◌⊎◌,
}
use egvm.Outcome.{ok, panic, map_ok, padding_out_of_range}
use egvm.Bytes.{Bytes}
use egvm.Word.{from_be}
use egvm.Goja.{string, int64}
use egvm.Buffer.{HexLib, hex_to_buf, hex_to_padding_buf}

length-replicate : (n : ℕ) (a : ℕ) → length (replicate n a) ≡ n
length-replicate zero a = refl
length-replicate (suc n) a = ap suc (length-replicate n a)

from_be-zeros : (k : ℕ) (bz : Bytes) → from_be 0 (replicate k 0 ++ bz) ≡ from_be 0 bz
unfolding from_be
from_be-zeros zero bz = refl
from_be-zeros (suc k) bz = from_be-zeros k bz

module _ (h : HexLib) where
  padded_length :
      (str : Bytes) (k : ℕ)
      → length (h.left_pad_bytes (h.from_hex str) k)
        ≡ k - length (h.from_hex str) + length (h.from_hex str)
  padded_length str k = rw h.left_pad_bytes_lem (
      length-append (replicate (k - length (h.from_hex str)) 0) (h.from_hex str)
      ∙ ap (λ n. n + length (h.from_hex str)) (length-replicate _ 0))

  -- At a size of 1 to 256, HexToPaddingBuf returns a buffer of exactly that size, or of the
  -- decoded string's size where that is longer, and of the same big-endian number as the buffer
  -- that HexToBuf returns for the string.
  pub hex_to_padding_buf_exact :
      (str : Bytes) (k : ℕ)
      → 0 < k
      → k ≤ 256
      → (buf : Bytes) × (hex_to_padding_buf h (string str ∷ int64 (pos k) ∷ []) ≡ ok buf)
        × (length buf ≡ (if leb (length (h.from_hex str)) k then k else length (h.from_hex str)))
        × (map_ok (from_be 0) (hex_to_buf h (string str ∷ [])) ≡ ok (from_be 0 buf))
  unfolding hex_to_padding_buf hex_to_buf
  hex_to_padding_buf_exact str k low high = (
    h.left_pad_bytes (h.from_hex str) k,
    ground arith,
    ground (arith, padded_length str k),
    rw h.left_pad_bytes_lem (ap ok (sym (from_be-zeros _ (h.from_hex str)))),
  )

  -- HexToPaddingBuf panics at every size that is not between 1 and 256, the negative ones included.
  pub hex_to_padding_buf_panics :
      (str : Bytes) (n : ℤ)
      → (n ≤ℤ pos 0) ⊎ (pos 257 ≤ℤ n)
      → hex_to_padding_buf h (string str ∷ int64 n ∷ []) ≡ panic padding_out_of_range
  unfolding hex_to_padding_buf
  hex_to_padding_buf_panics str n out = ground arith
