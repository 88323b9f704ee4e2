-- ===== src/Tests/ModelTree.antt =====
-- A concrete `TreeLib`: a tree is its ascending list of entries, and an enumerator is the list of
-- the entries ahead. It shows that the laws of the interface can hold together.
use egvm.Prelude.{◌≡◌, refl, Bool, true, false, List, [], ◌∷◌, length, ℤ, if◌then◌else◌}
use egvm.Bytes.{Bytes}
use egvm.Tree.{
  TreeLib, lookup_key, insert_key, remove_key, IsAscending, found, is_some, first, behind, nonempty,
  map_some,
}
use egvm.Tree.Entries.{IsAscending-insert_key, IsAscending-remove_key}

module _ {V : Type 0} (zero_value : V) where
  abbrev pub Sorted : Type 0
  Sorted = (es : List (Bytes × V)) × IsAscending es

  abbrev pub with_key : Sorted → Bytes → V → Sorted
  with_key t k v = (insert_key k v t.0, IsAscending-insert_key k v t.0 t.1)

  abbrev pub get_key : Sorted → Bytes → V × Bool
  get_key t k = found zero_value (lookup_key k t.0)

  abbrev pub update_key : Sorted → Bytes → ℤ × V × Bool → Sorted × ℤ
  update_key t k r = (if r.2 then with_key t k r.1 else t, r.0)

  pub entries-update_key :
      (t : Sorted) (k : Bytes) (r : ℤ × V × Bool)
      → (update_key t k r).0.0 ≡ (if r.2 then insert_key k r.1 t.0 else t.0)
  entries-update_key t k (s, v, true) = refl
  entries-update_key t k (s, v, false) = refl

  pub nonempty-ahead :
      (es : List (Bytes × V)) → map_some (λ (e : List (Bytes × V)). e) (nonempty es) ≡ nonempty es
  nonempty-ahead [] = refl
  nonempty-ahead (e ∷ es) = refl

  abbrev pub model_tree : TreeLib V
  model_tree = record {
    Tree = Sorted;
    entries = λ t. t.0;
    entries-IsAscending = λ t. t.1;
    zero_value = zero_value;
    tree_new = ([], tt);
    entries-tree_new = refl;
    clear = λ t. ([], tt);
    entries-clear = λ t. refl;
    len = λ t. length t.0;
    len_lem = λ t. refl;
    get = get_key;
    get_lem = λ t k. refl;
    set = with_key;
    entries-set = λ t k v. refl;
    put = λ t k s upd. update_key t k (upd s (get_key t k).0 (get_key t k).1);
    put_variable = λ t k s upd. refl;
    entries-put = λ t k s upd. entries-update_key t k (upd s (get_key t k).0 (get_key t k).1);
    delete =
        λ t k. ((remove_key k t.0, IsAscending-remove_key k t.0 t.1), is_some (lookup_key k t.0));
    entries-delete = λ t k. refl;
    delete_flag = λ t k. refl;
    Enumerator = List (Bytes × V);
    ahead = λ e. e;
    seek_first = λ t. nonempty t.0;
    seek_first_lem = λ t. nonempty-ahead t.0;
    next = λ e. (first e, behind e);
    next_entry = λ e. refl;
    next_ahead = λ e. refl;
  }
