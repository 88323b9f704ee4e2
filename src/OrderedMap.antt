-- ===== src/OrderedMap.antt =====
-- script/types/orderedintmap.go, orderedstrmap.go and orderedbufmap.go: maps from non-empty strings
-- to int64s, strings or buffers, over the tree of modernc.org/b/v2 (`Tree`), with their msgp
-- encoding (`Msgp`). The three files differ in the values' codec and in how Set counts the
-- estimated size: these two are a `Kind`, and the methods are written once over it.
pub mod Lookup
pub mod Size
pub mod Refinement
pub mod Encoding
pub mod RoundTrip
use egvm.Prelude.{
  ℕ, zero, suc, ◌+◌, ◌<◌, ◌≡◌, refl, ap, arith, Bool, true, false, not, ◌&&◌, Option, none, some,
  List, [], ◌∷◌, ◌++◌, length, ◌==◌, if◌then◌else◌, ℤ, pos, negsuc, ◌+ℤ◌, ◌-ℤ◌,
}
use egvm.Outcome.{Outcome, ok, panic, panic_if, ◌>>=◌, ◌>>◌, empty_key_string, map_ok}
use egvm.Bytes.{Bytes}
use egvm.Tree.{TreeLib}
use egvm.Msgp.{MsgpLib, Codec, IsShort}
use egvm.Goja.{IsInt64}

-- The change of estimatedSize that Set makes, from the old value and whether it existed.
pub record Kind (V : Type 0) : Type 1 where
  pub codec : Codec V
  pub growth : Bytes → V → V → Bool → ℤ
  -- The bytes of a value that Set counts.
  pub weight : V → ℕ
  pub growth_new : (k : Bytes) (v old : V) → growth k v old false ≡ pos (10 + length k + weight v)
  pub growth_old :
      (k : Bytes) (v old : V) → growth k v old true ≡ pos (weight v) -ℤ pos (weight old)

-- The updater in Set of orderedintmap.go.
unfoldable pub int_growth : Bytes → ℤ → ℤ → Bool → ℤ
int_growth k v old exists = if not exists then pos (10 + length k) else pos 0

-- The updaters in Set of orderedstrmap.go and orderedbufmap.go.
unfoldable pub str_growth : Bytes → Bytes → Bytes → Bool → ℤ
str_growth k v old exists =
    if exists then pos (length v) -ℤ pos (length old) else pos (10 + length k + length v)

unfoldable pub buf_growth : Bytes → Bytes → Bytes → Bool → ℤ
buf_growth k v old exists =
    if exists then pos (length v) -ℤ pos (length old) else pos (10 + length k + length v)

int_growth_new : (k : Bytes) (v old : ℤ) → int_growth k v old false ≡ pos (10 + length k + 0)
unfolding int_growth
int_growth_new k v old = ap pos (omega arith)

int_growth_old : (k : Bytes) (v old : ℤ) → int_growth k v old true ≡ pos 0 -ℤ pos 0
unfolding int_growth ◌-ℤ◌
int_growth_old k v old = refl

bytes_growth_new :
    (k v old : Bytes)
    → (str_growth k v old false ≡ pos (10 + length k + length v))
      × (buf_growth k v old false ≡ pos (10 + length k + length v))
unfolding str_growth buf_growth
bytes_growth_new k v old = (refl, refl)

bytes_growth_old :
    (k v old : Bytes)
    → (str_growth k v old true ≡ pos (length v) -ℤ pos (length old))
      × (buf_growth k v old true ≡ pos (length v) -ℤ pos (length old))
unfolding str_growth buf_growth
bytes_growth_old k v old = (refl, refl)

module _ (m : MsgpLib) where
  unfoldable pub int_kind : Kind ℤ
  unfolding int_growth_new int_growth_old
  int_kind = record {
    codec = record {
      Fits = IsInt64;
      append_value = m.append_int64;
      append_value_lem = m.append_int64_lem;
      read_value = m.read_int64;
      read-append = m.read_int64-append;
    };
    growth = int_growth;
    weight = λ v. 0;
    growth_new = int_growth_new;
    growth_old = int_growth_old;
  }

  unfoldable pub str_kind : Kind Bytes
  unfolding bytes_growth_new bytes_growth_old
  str_kind = record {
    codec = record {
      Fits = IsShort;
      append_value = m.append_string;
      append_value_lem = m.append_string_lem;
      read_value = m.read_string;
      read-append = m.read_string-append;
    };
    growth = str_growth;
    weight = length;
    growth_new = λ k v old. (bytes_growth_new k v old).0;
    growth_old = λ k v old. (bytes_growth_old k v old).0;
  }

  unfoldable pub buf_kind : Kind Bytes
  unfolding bytes_growth_new bytes_growth_old
  buf_kind = record {
    codec = record {
      Fits = IsShort;
      append_value = m.append_bytes;
      append_value_lem = m.append_bytes_lem;
      read_value = m.read_bytes;
      read-append = m.read_bytes-append;
    };
    growth = buf_growth;
    weight = length;
    growth_new = λ k v old. (bytes_growth_new k v old).1;
    growth_old = λ k v old. (bytes_growth_old k v old).1;
  }

module _ {V : Type 0} (t : TreeLib V) where
  pub record OrderedMap : Type 0 where
    pub estimated_size : ℤ
    pub tree : t.Tree

  -- NewOrderedIntMap, NewOrderedStrMap, NewOrderedBufMap
  unfoldable pub new_ordered_map : OrderedMap
  new_ordered_map = record { estimated_size = pos 0; tree = t.tree_new }

  -- Clear
  unfoldable pub clear : OrderedMap → OrderedMap
  clear o = record { estimated_size = pos 0; tree = t.clear o.tree }

  -- Delete
  unfoldable pub delete : OrderedMap → Bytes → OrderedMap
  delete o k =
      let (tree, existed) = t.delete o.tree k in
      record {
        estimated_size = if existed then o.estimated_size -ℤ pos (length k) else o.estimated_size;
        tree = tree;
      }

  -- Get, Len
  unfoldable pub get : OrderedMap → Bytes → V × Bool
  get o k = t.get o.tree k

  unfoldable pub len : OrderedMap → ℕ
  len o = t.len o.tree

  module _ (m : MsgpLib) (kind : Kind V) where
    -- Set
    unfoldable pub set : OrderedMap → Bytes → V → Outcome OrderedMap
    set o k v =
        let (tree, size) =
          t.put o.tree k o.estimated_size
            (λ size old exists. (size +ℤ kind.growth k v old exists, v, true)) in
        (do
          panic_if (length k == 0) empty_key_string
          ok (record { estimated_size = size; tree = tree }))

    -- The loop of dumpTo: it stops at io.EOF and at an empty key. `none` means that the rounds
    -- ran out.
    unfoldable pub dump_loop : ℕ → t.Enumerator → Bytes → Option Bytes
    dump_loop zero e b = none
    dump_loop (suc rounds) e b = elim (t.next e).0 [
      | none ↦ some b
      | some (k, v) ↦
          if length k == 0
          then some b
          else dump_loop rounds (t.next e).1 (kind.codec.append_value (m.append_string b k) v)
    ]

    -- dumpTo; an enumerator that could not be made is dereferenced, which is no result
    unfoldable pub dump_to : OrderedMap → Bytes → Option Bytes
    unfolding dump_loop
    dump_to o b =
        let head : Bytes = m.append_int b (pos (t.len o.tree)) in
        if t.len o.tree == 0 then some head else (elim (t.seek_first o.tree) [
          | none ↦ none
          | some e ↦ dump_loop (suc (t.len o.tree)) e head
        ])

    -- The loop of loadFrom, with the rounds left
    unfoldable pub load_loop : ℕ → t.Tree → Bytes → Option (t.Tree × Bytes)
    load_loop zero tree b = some (tree, b)
    load_loop (suc rounds) tree b = elim (m.read_string b) [
      | none ↦ none
      | some (k, b') ↦ elim (kind.codec.read_value b') [
        | none ↦ none
        | some (v, b'') ↦ load_loop rounds (t.set tree k v) b''
      ]
    ]

    -- The rounds of `for i := 0; i < count; i++`.
    abbrev pub rounds_of : ℤ → ℕ
    rounds_of (pos n) = n
    rounds_of (negsuc n) = 0

    -- loadFrom: the map and the rest of the buffer, or an error (`none`)
    unfoldable pub load_from : OrderedMap → Bytes → Option (OrderedMap × Bytes)
    unfolding load_loop
    load_from o b = elim (m.read_int b) [
      | none ↦ none
      | some (count, b') ↦ elim (load_loop (rounds_of count) (t.clear o.tree) b') [
        | none ↦ none
        | some (tree, b'') ↦
            some (record { estimated_size = pos (length b) -ℤ pos (length b''); tree = tree }, b'')
      ]
    ]
