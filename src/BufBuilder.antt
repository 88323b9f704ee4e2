-- ===== src/BufBuilder.antt =====
-- script/types/bufbuilder.go: the buffer builder of the scripts.
use egvm.Prelude.{ℕ, List, [], ◌∷◌, ◌++◌, length}
use egvm.Outcome.{Outcome, ok, panic, ◌>>=◌, incorrect_argument_count}
use egvm.Bytes.{Bytes}
use egvm.Goja.{Value, get_one_array_buffer}

-- BufBuilder: the content of its strings.Builder, whose Write never fails. A copy of the Go struct
-- shares its builder; the model threads the one content.
pub record BufBuilder : Type 0 where
  pub sb : Bytes

-- NewBufBuilder
abbrev pub new_buf_builder : BufBuilder
new_buf_builder = record { sb = [] }

-- Write: the number of bytes written, and the builder afterwards
unfoldable pub write : BufBuilder → List Value → Outcome (BufBuilder × ℕ)
write b args = do bz ← get_one_array_buffer args; ok (record { sb = b.sb ++ bz }, length bz)

-- Reset
unfoldable pub reset : BufBuilder → BufBuilder
reset b = record { sb = [] }

-- Len
unfoldable pub len : BufBuilder → ℕ
len b = length b.sb

-- ToBuf
unfoldable pub to_buf : BufBuilder → List Value → Outcome Bytes
to_buf b [] = ok b.sb
to_buf b (a ∷ args) = panic incorrect_argument_count
