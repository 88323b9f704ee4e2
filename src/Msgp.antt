-- ===== src/Msgp.antt =====
-- What the ordered maps use of the package github.com/tinylib/msgp/msgp, which is not part of the
-- repository: the Append functions put an encoding behind a buffer, and the Read functions take one
-- from the front of a buffer, or return an error (`none`). The laws are the documented behaviour:
-- what was appended is read back, for values in the range of the Go types.
use egvm.Prelude.{ℕ, ◌^◌, ◌<◌, ◌≡◌, Option, none, some, [], ◌++◌, length, ℤ}
use egvm.Bytes.{Bytes}
use egvm.Goja.{IsInt64}

-- A string or byte slice whose length fits in the 32 bits of the longest header.
abbrev pub IsShort : Bytes → Type 0
IsShort s = length s < 2 ^ 32

-- Append of one type of values and its Read.
pub record Codec (V : Type 0) : Type 1 where
  pub Fits : V → Type 0
  pub append_value : Bytes → V → Bytes
  pub append_value_lem : (b : Bytes) (v : V) → append_value b v ≡ b ++ append_value [] v
  pub read_value : Bytes → Option (V × Bytes)
  pub read-append :
      (v : V) (rest : Bytes) → Fits v → read_value (append_value [] v ++ rest) ≡ some (v, rest)

pub record MsgpLib : Type 1 where
  -- AppendByte, ReadByteBytes
  pub append_byte : Bytes → ℕ → Bytes
  pub append_byte_lem : (b : Bytes) (v : ℕ) → append_byte b v ≡ b ++ append_byte [] v
  pub read_byte : Bytes → Option (ℕ × Bytes)
  pub read_byte-append :
      (v : ℕ) (rest : Bytes) → v < 256 → read_byte (append_byte [] v ++ rest) ≡ some (v, rest)
  pub read_byte-nil : read_byte [] ≡ none
  -- AppendInt, ReadIntBytes
  pub append_int : Bytes → ℤ → Bytes
  pub append_int_lem : (b : Bytes) (v : ℤ) → append_int b v ≡ b ++ append_int [] v
  pub read_int : Bytes → Option (ℤ × Bytes)
  pub read_int-append :
      (v : ℤ) (rest : Bytes) → IsInt64 v → read_int (append_int [] v ++ rest) ≡ some (v, rest)
  -- AppendString, ReadStringBytes
  pub append_string : Bytes → Bytes → Bytes
  pub append_string_lem : (b s : Bytes) → append_string b s ≡ b ++ append_string [] s
  pub read_string : Bytes → Option (Bytes × Bytes)
  pub read_string-append :
      (s rest : Bytes) → IsShort s → read_string (append_string [] s ++ rest) ≡ some (s, rest)
  pub read_string-nil : read_string [] ≡ none
  -- AppendInt64, ReadInt64Bytes
  pub append_int64 : Bytes → ℤ → Bytes
  pub append_int64_lem : (b : Bytes) (v : ℤ) → append_int64 b v ≡ b ++ append_int64 [] v
  pub read_int64 : Bytes → Option (ℤ × Bytes)
  pub read_int64-append :
      (v : ℤ) (rest : Bytes) → IsInt64 v → read_int64 (append_int64 [] v ++ rest) ≡ some (v, rest)
  -- AppendBytes, ReadBytesBytes
  pub append_bytes : Bytes → Bytes → Bytes
  pub append_bytes_lem : (b s : Bytes) → append_bytes b s ≡ b ++ append_bytes [] s
  pub read_bytes : Bytes → Option (Bytes × Bytes)
  pub read_bytes-append :
      (s rest : Bytes) → IsShort s → read_bytes (append_bytes [] s ++ rest) ≡ some (s, rest)
