-- ===== src/Tests/Maps.antt =====
-- The theorems on the ordered maps and their encoding at concrete inputs, over the tree of
-- `ModelTree` and the encoding of `ModelMsgp`.
use egvm.Prelude.{◌≡◌, refl, some, List, [], ◌∷◌, ◌++◌, length, arith, ℤ, pos, negsuc}
use egvm.Outcome.{ok, map_ok}
use egvm.Bytes.{Bytes, equal_bytes, is_less, compare_bytes}
use egvm.Prelude.{◌+ℤ◌, ◌-ℤ◌}
use egvm.Tree.{TreeLib, insert_key, lookup_key, remove_key}
use egvm.Goja.{int64, array_buffer}
use egvm.OrderedMap.{
  OrderedMap, new_ordered_map, set, delete, dump_to, load_from, int_kind, str_kind,
}
use egvm.OrderedMap.Refinement.{Refines, run_table, no_entries, new-Refines}
use egvm.OrderedMap.Size.{MapCall, set_call, delete_call, run, IsSound, built-IsSound}
use egvm.OrderedMap.RoundTrip.{load-dump}
use egvm.MapCodec.{Trees, int_map, str_map, serialize_maps, deserialize_map}
use egvm.MapCodec.RoundTrip.{ints, strs, contents, tag_of, read_all, seen, read_all-serialize_maps}
use egvm.Tests.ModelTree.{model_tree}
use egvm.Tests.ModelMsgp.{model_msgp}

abbrev int_tree : TreeLib ℤ
int_tree = model_tree (pos 0)

abbrev bytes_tree : TreeLib Bytes
bytes_tree = model_tree []

abbrev model_trees : Trees
model_trees = record { ints = int_tree; strs = bytes_tree; bufs = bytes_tree }

abbrev key : Bytes
key = 7 ∷ []

abbrev int_entries : List (Bytes × ℤ)
int_entries = (key, negsuc 4) ∷ []

abbrev str_entries : List (Bytes × Bytes)
str_entries = (key, 1 ∷ 2 ∷ []) ∷ []

abbrev one_int : OrderedMap int_tree
one_int = record { estimated_size = pos 11; tree = (int_entries, (tt, tt)) }

abbrev one_str : OrderedMap bytes_tree
one_str = record { estimated_size = pos 13; tree = (str_entries, (tt, tt)) }

abbrev calls : List (MapCall Bytes)
calls =
    set_call key (1 ∷ 2 ∷ [])
    ∷ set_call key (5 ∷ [])
    ∷ set_call (8 ∷ 9 ∷ []) []
    ∷ delete_call key
    ∷ []

new-Refines_example :
    Refines bytes_tree model_msgp
      (str_kind model_msgp)
      (run bytes_tree model_msgp (str_kind model_msgp) (new_ordered_map bytes_tree) calls)
      (run_table no_entries calls)
new-Refines_example = new-Refines bytes_tree model_msgp (str_kind model_msgp) calls

abbrev built : OrderedMap bytes_tree
built = record {
  estimated_size = pos 23;
  tree =
      (bytes_tree.delete
        (bytes_tree.set
          (bytes_tree.set (bytes_tree.set bytes_tree.tree_new key (1 ∷ 2 ∷ [])) key (5 ∷ []))
          (8 ∷ 9 ∷ []) [])
        key).0;
}

run-calls :
    run bytes_tree model_msgp (str_kind model_msgp) (new_ordered_map bytes_tree) calls ≡ ok built
unfolding run set delete lookup_key remove_key insert_key new_ordered_map equal_bytes is_less
    compare_bytes ◌-ℤ◌ ◌+ℤ◌ str_kind
run-calls = refl

built-IsSound_example : IsSound bytes_tree model_msgp (str_kind model_msgp) built
built-IsSound_example =
    built-IsSound bytes_tree model_msgp (str_kind model_msgp) built calls run-calls

load-dump_example :
    (b : Bytes) × (o' : OrderedMap bytes_tree) × (dump_to bytes_tree model_msgp
        (str_kind model_msgp)
        one_str
        []
      ≡ some b)
    × (load_from bytes_tree model_msgp (str_kind model_msgp) built (b ++ key) ≡ some (o', key))
    × (bytes_tree.entries o'.tree ≡ str_entries)
    × (o'.estimated_size ≡ pos (length b))
unfolding str_kind
load-dump_example =
    load-dump bytes_tree model_msgp (str_kind model_msgp) one_str built key ((λ e. cc), tt)
      (omega arith, omega arith, tt) (omega arith)

abbrev nameless : OrderedMap bytes_tree
nameless = record { estimated_size = pos 0; tree = ((([], key) ∷ []), (tt, tt)) }

read_all-serialize_maps_example :
    (b : Bytes) × (serialize_maps model_trees model_msgp (int_map one_int ∷ str_map one_str ∷ [])
      ≡ ok b)
    × (map_ok
          (seen model_trees model_msgp)
          (read_all model_trees model_msgp (record { bz = b ++ key }) (0 ∷ 1 ∷ []))
        ≡ ok (ints int_entries ∷ strs str_entries ∷ [], key))
unfolding contents tag_of int_kind str_kind
read_all-serialize_maps_example =
    read_all-serialize_maps model_trees model_msgp (int_map one_int ∷ str_map one_str ∷ []) key (
      (((λ e. cc), tt), (omega arith, omega arith, tt), omega arith),
      ((((λ e. cc), tt), (omega arith, omega arith, tt), omega arith), tt),
    )

-- An empty map of integers behind its tag, and a byte that is left.
abbrev empty_ints : Bytes
empty_ints = 0 ∷ 0 ∷ 0 ∷ 9 ∷ []

reads_empty :
    deserialize_map model_trees model_msgp (array_buffer empty_ints ∷ int64 (pos 0) ∷ [])
    ≡ ok (int_map (record { estimated_size = pos 2; tree = ([], tt) }), 9 ∷ [])
unfolding deserialize_map load_from ◌-ℤ◌
reads_empty = refl
