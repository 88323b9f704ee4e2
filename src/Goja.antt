-- ===== src/Goja.antt =====
-- What the extension functions see of goja: the arguments of a `goja.FunctionCall`, each by the Go
-- value that `Export` gives, as far as the functions tell them apart; and script/utils, the
-- shared argument checks and constants.
pub mod Arguments
use egvm.Prelude.{ℕ, ◌-◌, ◌^◌, ◌<◌, Bool, List, [], ◌∷◌, ltb, if◌then◌else◌, ℤ, pos, negsuc}
use egvm.Outcome.{
  Outcome, ok, panic, ◌>>=◌, incorrect_argument_count, wrong_argument_type, larger_than_max_integer,
}

-- A Go string and an ArrayBuffer are byte lists, a Uint256 is the word in it. `other` is a value of any other type.
pub data Value : Type 0 where
  string : List ℕ → Value
  int64 : ℤ → Value
  array_buffer : List ℕ → Value
  uint256 : ℕ → Value
  other : Value

-- utils.MaxSafeInteger, (1 << 53) - 1.
abbrev pub max_safe_integer : ℕ
max_safe_integer = 2 ^ 53 - 1

-- The conversion uint64(a) of an int64.
abbrev pub to_uint64 : ℤ → ℕ
to_uint64 (pos n) = n
to_uint64 (negsuc n) = 2 ^ 64 - 1 - n

-- The range of Go's int64.
abbrev pub IsInt64 : ℤ → Type 0
IsInt64 (pos n) = n < 2 ^ 63
IsInt64 (negsuc n) = n < 2 ^ 63

-- An argument that goja can export: an int64 is in its range.
abbrev pub IsExported : Value → Type 0
IsExported (int64 a) = IsInt64 a
IsExported _ = Unit

-- v, ok := arg.Export().(int64), and the panic when it is not ok.
abbrev pub export_int64 : Value → Outcome ℤ
export_int64 (int64 a) = ok a
export_int64 _ = panic wrong_argument_type

abbrev pub export_buffer : Value → Outcome (List ℕ)
export_buffer (array_buffer bz) = ok bz
export_buffer _ = panic wrong_argument_type

abbrev pub export_string : Value → Outcome (List ℕ)
export_string (string s) = ok s
export_string _ = panic wrong_argument_type

-- utils.GetOneUint64
unfoldable pub get_one_uint64 : List Value → Outcome ℕ
get_one_uint64 (v ∷ []) = do
  a ← export_int64 v
  if ltb max_safe_integer (to_uint64 a) then panic larger_than_max_integer else ok (to_uint64 a)
get_one_uint64 _ = panic incorrect_argument_count

-- utils.GetOneArrayBuffer
unfoldable pub get_one_array_buffer : List Value → Outcome (List ℕ)
get_one_array_buffer (v ∷ []) = export_buffer v
get_one_array_buffer _ = panic incorrect_argument_count

-- utils.GetTwoArrayBuffers
unfoldable pub get_two_array_buffers : List Value → Outcome (List ℕ × List ℕ)
get_two_array_buffers (v ∷ w ∷ []) = do a ← export_buffer v; b ← export_buffer w; ok (a, b)
get_two_array_buffers _ = panic incorrect_argument_count

-- utils.GetThreeArrayBuffers
unfoldable pub get_three_array_buffers : List Value → Outcome (List ℕ × List ℕ × List ℕ)
get_three_array_buffers (u ∷ v ∷ w ∷ []) = do
  a ← export_buffer u
  b ← export_buffer v
  c ← export_buffer w
  ok (a, b, c)
get_three_array_buffers _ = panic incorrect_argument_count
