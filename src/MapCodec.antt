-- ===== src/MapCodec.antt =====
-- script/types/mapcodec.go: SerializeMaps, DeserializeMap and the OrderedMapReader, over the
-- encodings of the three kinds of ordered maps.
pub mod RoundTrip
pub mod Errors
use egvm.Prelude.{
  ℕ, ◌-◌, ◌<◌, ◌≡◌, Bool, true, false, ◌||◌, ◌&&◌, Option, none, some, List, [], ◌∷◌, ◌++◌, length,
  ltb, ◌==◌, if◌then◌else◌, ℤ, pos, negsuc, ltb_ℤ,
}
use egvm.Outcome.{
  Outcome, ok, panic, panic_if, ◌>>=◌, ◌>>◌, incorrect_argument_count, empty_map_bytes,
  invalid_map_tag, tag_byte_error, tag_mismatch, error_in_loading_map, unsupported_type,
  runtime_error,
}
use egvm.Bytes.{Bytes}
use egvm.Goja.{Value, export_buffer, export_int64}
use egvm.Tree.{TreeLib}
use egvm.Msgp.{MsgpLib}
use egvm.OrderedMap.{
  Kind, OrderedMap, new_ordered_map, dump_to, load_from, int_kind, str_kind, buf_kind,
}

-- OrderedIntMapTag, OrderedStrMapTag, OrderedBufMapTag
abbrev pub int_map_tag : ℕ
int_map_tag = 0

abbrev pub str_map_tag : ℕ
str_map_tag = 1

abbrev pub buf_map_tag : ℕ
buf_map_tag = 2

-- byte(expectedTag), of a number that was tested to be 0, 1 or 2.
abbrev pub to_byte : ℤ → ℕ
to_byte (pos n) = n
to_byte (negsuc n) = 255 - n

-- The trees of the three files.
pub record Trees : Type 1 where
  pub ints : TreeLib ℤ
  pub strs : TreeLib Bytes
  pub bufs : TreeLib Bytes

module _ (trees : Trees) (m : MsgpLib) where
  -- What an argument of SerializeMaps exports to.
  pub data MapValue : Type 0 where
    int_map : OrderedMap trees.ints → MapValue
    str_map : OrderedMap trees.strs → MapValue
    buf_map : OrderedMap trees.bufs → MapValue
    other_value : MapValue

  -- The first loop of SerializeMaps; the size that it adds up is only a capacity.
  unfoldable pub check_maps : List MapValue → Outcome (Unit {0})
  check_maps [] = ok tt
  check_maps (other_value ∷ vs) = panic unsupported_type
  check_maps (v ∷ vs) = check_maps vs

  -- v.dumpTo(b); no result is a fault of the Go runtime
  abbrev pub dumped : Option Bytes → Outcome Bytes
  dumped none = panic runtime_error
  dumped (some b) = ok b

  -- The second loop.
  unfoldable pub append_maps : List MapValue → Bytes → Outcome Bytes
  append_maps [] b = ok b
  append_maps (int_map o ∷ vs) b = do
    b' ← dumped (dump_to trees.ints m (int_kind m) o (m.append_byte b int_map_tag))
    append_maps vs b'
  append_maps (str_map o ∷ vs) b = do
    b' ← dumped (dump_to trees.strs m (str_kind m) o (m.append_byte b str_map_tag))
    append_maps vs b'
  append_maps (buf_map o ∷ vs) b = do
    b' ← dumped (dump_to trees.bufs m (buf_kind m) o (m.append_byte b buf_map_tag))
    append_maps vs b'
  append_maps (other_value ∷ vs) b = append_maps vs b

  -- SerializeMaps, without the capacity that its buffer is made with
  unfoldable pub serialize_maps : List MapValue → Outcome Bytes
  unfolding check_maps append_maps
  serialize_maps vs = do check_maps vs; append_maps vs []

  abbrev pub loaded {ℓ} :
      {A : Type ℓ} → (A → MapValue) → Option (A × Bytes) → Outcome (MapValue × Bytes)
  loaded make none = panic error_in_loading_map
  loaded make (some (o, b)) = ok (make o, b)

  -- The branch on the tag.
  unfoldable pub load_map : ℕ → Bytes → Outcome (MapValue × Bytes)
  load_map tag b =
      if tag == int_map_tag
      then loaded int_map (load_from trees.ints m (int_kind m) (new_ordered_map trees.ints) b)
      else if tag == str_map_tag
      then loaded str_map (load_from trees.strs m (str_kind m) (new_ordered_map trees.strs) b)
      else loaded buf_map (load_from trees.bufs m (buf_kind m) (new_ordered_map trees.bufs) b)

  -- From the test of the expected tag on, which DeserializeMap and Read have in common. A tag byte
  -- above 2 takes the branch of a read error, where err.Error() is called on a nil error.
  unfoldable pub take_map : ℤ → Bytes → Outcome (MapValue × Bytes)
  unfolding load_map
  take_map expected b = do
    panic_if (ltb_ℤ expected (pos 0) || ltb_ℤ (pos buf_map_tag) expected) invalid_map_tag
    elim (m.read_byte b) [
      | none ↦ panic tag_byte_error
      | some (tag, b') ↦ (do
        panic_if (ltb buf_map_tag tag) runtime_error
        panic_if (if tag == to_byte expected then false else true) tag_mismatch
        load_map tag b')
    ]

  -- DeserializeMap
  unfoldable pub deserialize_map : List Value → Outcome (MapValue × Bytes)
  unfolding take_map
  deserialize_map (u ∷ v ∷ []) = do
    b ← export_buffer u
    panic_if (length b == 0) empty_map_bytes
    expected ← export_int64 v
    take_map expected b
  deserialize_map _ = panic incorrect_argument_count

pub record OrderedMapReader : Type 0 where
  pub bz : Bytes

-- NewOrderedMapReader
unfoldable pub new_ordered_map_reader : List Value → Outcome OrderedMapReader
new_ordered_map_reader (u ∷ []) = do
  b ← export_buffer u
  panic_if (length b == 0) empty_map_bytes
  ok (record { bz = b })
new_ordered_map_reader _ = panic incorrect_argument_count

-- Read: the map, and the reader with what is left
unfoldable pub read :
    (trees : Trees) (m : MsgpLib)
    → OrderedMapReader
    → List Value
    → Outcome (MapValue trees m × OrderedMapReader)
unfolding take_map
read trees m r (v ∷ []) = do
  expected ← export_int64 v
  taken ← take_map trees m expected r.bz
  ok (taken.0, record { bz = taken.1 })
read trees m r _ = panic incorrect_argument_count

-- Reset
unfoldable pub reset : OrderedMapReader → OrderedMapReader
reset r = record { bz = [] }
