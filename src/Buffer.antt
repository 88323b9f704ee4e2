-- ===== src/Buffer.antt =====
-- script/extension/buffer.go: concatenation, comparison, reversal and number encodings of
-- ArrayBuffers. `from_hex` and `left_pad_bytes` of go-ethereum's package common are parameters.
pub mod Numbers
pub mod Padding
pub mod Order
use egvm.Prelude.{
  ℕ, zero, suc, ◌+◌, ◌-◌, ◌*◌, ◌/◌, ◌%◌, ◌^◌, ◌≤◌, ◌<◌, ◌≡◌, Bool, ◌||◌, List, [], ◌∷◌, ◌++◌,
  length, get_elem?, take, replicate, ltb, leb, if◌then◌else◌, ℤ, pos, negsuc, ltb_ℤ, Option, none,
  some,
}
use egvm.Outcome.{
  Outcome, ok, panic, panic_if, ◌>>=◌, ◌>>◌, incorrect_argument_count, padding_out_of_range,
  unsupported_type, runtime_error,
}
use egvm.Bytes.{Bytes, equal_bytes, compare_bytes}
use egvm.Word.{from_be, to_be}
use egvm.Goja.{
  Value, array_buffer, export_string, export_int64, get_one_uint64, get_one_array_buffer,
  get_two_array_buffers, to_uint64,
}

-- The loop of BufConcat that collects the arguments.
unfoldable pub collect : List Value → Outcome (List Bytes)
collect [] = ok []
collect (array_buffer bz ∷ args) = do rest ← collect args; ok (bz ∷ rest)
collect (a ∷ args) = panic unsupported_type

-- The loop that appends them to the result.
unfoldable pub append_all : Bytes → List Bytes → Bytes
append_all result [] = result
append_all result (bz ∷ rest) = append_all (result ++ bz) rest

-- BufConcat
unfoldable pub buf_concat : List Value → Outcome Bytes
buf_concat args = do parts ← collect args; ok (append_all [] parts)

-- BufEqual, BufCompare
unfoldable pub buf_equal : List Value → Outcome Bool
buf_equal args = do p ← get_two_array_buffers args; ok (equal_bytes p.0 p.1)

unfoldable pub buf_compare : List Value → Outcome ℤ
buf_compare args = do p ← get_two_array_buffers args; ok (compare_bytes p.0 p.1)

-- bytesReverse: round i of `left` more appends bz[len(bz)-1-i]; an index out of range is a panic
unfoldable pub reverse_loop : ℕ → ℕ → Bytes → Bytes → Outcome Bytes
reverse_loop zero i bz out = ok out
reverse_loop (suc left) i bz out = elim (get_elem? bz (length bz - 1 - i)) [
  | none ↦ panic runtime_error
  | some b ↦ reverse_loop left (i + 1) bz (out ++ (b ∷ []))
]

unfoldable pub bytes_reverse : Bytes → Outcome Bytes
unfolding reverse_loop
bytes_reverse bz = reverse_loop (length bz) 0 bz []

-- BufReverse
unfoldable pub buf_reverse : List Value → Outcome Bytes
unfolding bytes_reverse
buf_reverse args = do a ← get_one_array_buffer args; bytes_reverse a

-- binary.LittleEndian: the number of a byte list and the `k` low bytes of a number
unfoldable pub from_le : Bytes → ℕ
from_le [] = 0
from_le (b ∷ bs) = b + 256 * from_le bs

unfoldable pub to_le : ℕ → ℕ → Bytes
to_le zero n = []
to_le (suc k) n = (n % 256) ∷ to_le k (n / 256)

-- BufToU32BE, BufToU32LE: a buffer of less than four bytes is an index out of range
unfoldable pub buf_to_u32_be : List Value → Outcome ℕ
buf_to_u32_be args = do
  bz ← get_one_array_buffer args
  panic_if (ltb (length bz) 4) runtime_error
  ok (from_be 0 (take 4 bz))

unfoldable pub buf_to_u32_le : List Value → Outcome ℕ
buf_to_u32_le args = do
  bz ← get_one_array_buffer args
  panic_if (ltb (length bz) 4) runtime_error
  ok (from_le (take 4 bz))

-- U64ToBufBE, U64ToBufLE, U32ToBufBE, U32ToBufLE: the last two keep uint32(u64)
unfoldable pub u64_to_buf_be : List Value → Outcome Bytes
u64_to_buf_be args = do u64 ← get_one_uint64 args; ok (to_be 8 u64)

unfoldable pub u64_to_buf_le : List Value → Outcome Bytes
u64_to_buf_le args = do u64 ← get_one_uint64 args; ok (to_le 8 u64)

unfoldable pub u32_to_buf_be : List Value → Outcome Bytes
u32_to_buf_be args = do u64 ← get_one_uint64 args; ok (to_be 4 (u64 % 2 ^ 32))

unfoldable pub u32_to_buf_le : List Value → Outcome Bytes
u32_to_buf_le args = do u64 ← get_one_uint64 args; ok (to_le 4 (u64 % 2 ^ 32))

-- What HexToBuf and HexToPaddingBuf use of go-ethereum's package common: LeftPadBytes puts zero
-- bytes in front up to the length, and returns a slice that is already as long unchanged.
pub record HexLib : Type 0 where
  pub from_hex : Bytes → Bytes
  pub left_pad_bytes : Bytes → ℕ → Bytes
  pub left_pad_bytes_lem :
      (bz : Bytes) (l : ℕ) → left_pad_bytes bz l ≡ replicate (l - length bz) 0 ++ bz

-- HexToBuf, with its check of one string argument
unfoldable pub hex_to_buf : HexLib → List Value → Outcome Bytes
hex_to_buf h (v ∷ []) = do str ← export_string v; ok (h.from_hex str)
hex_to_buf h _ = panic incorrect_argument_count

-- The test n <= 0.
abbrev pub not_positive : ℤ → Bool
not_positive n = ltb_ℤ n (pos 1)

-- HexToPaddingBuf
unfoldable pub hex_to_padding_buf : HexLib → List Value → Outcome Bytes
hex_to_padding_buf h (u ∷ v ∷ []) = do
  str ← export_string u
  n ← export_int64 v
  panic_if (not_positive n || ltb_ℤ (pos 256) n) padding_out_of_range
  ok (h.left_pad_bytes (h.from_hex str) (to_uint64 n))
hex_to_padding_buf h _ = panic incorrect_argument_count
