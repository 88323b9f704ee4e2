-- ===== src/Tree.antt =====
-- What the ordered maps use of the package modernc.org/b/v2, which is not part of the repository:
-- a tree from strings to values that orders its keys by strings.Compare, and its enumerators. The
-- laws state the documented behaviour through the list of the entries in key order.
pub mod Entries
use egvm.Prelude.{
  ℕ, ◌≡◌, Bool, true, false, Option, none, some, List, [], ◌∷◌, length, if◌then◌else◌, ℤ,
}
use egvm.Bytes.{Bytes, equal_bytes, is_less}

-- A finite map as the list of its entries in ascending order of the keys.
module _ {V : Type 0} where
  unfoldable pub lookup_key : Bytes → List (Bytes × V) → Option V
  lookup_key k [] = none
  lookup_key k ((j, u) ∷ es) = if equal_bytes j k then some u else lookup_key k es

  unfoldable pub insert_key : Bytes → V → List (Bytes × V) → List (Bytes × V)
  insert_key k v [] = (k, v) ∷ []
  insert_key k v ((j, u) ∷ es) =
      let rest = insert_key k v es in
      if equal_bytes j k
      then (k, v) ∷ es
      else if is_less k j
      then (k, v) ∷ (j, u) ∷ es
      else (j, u) ∷ rest

  unfoldable pub remove_key : Bytes → List (Bytes × V) → List (Bytes × V)
  remove_key k [] = []
  remove_key k ((j, u) ∷ es) =
      let rest = remove_key k es in if equal_bytes j k then es else (j, u) ∷ rest

  -- Every key of the list is above `k`.
  abbrev pub AllAbove : Bytes → List (Bytes × V) → Type 0
  AllAbove k [] = Unit
  AllAbove k ((j, u) ∷ es) = (is_less k j ≡ true) × AllAbove k es

  abbrev pub IsAscending : List (Bytes × V) → Type 0
  IsAscending [] = Unit
  IsAscending ((k, v) ∷ es) = AllAbove k es × IsAscending es

  -- What Get returns: the value and true, or the zero value and false.
  abbrev pub found : V → Option V → V × Bool
  found zero_value none = (zero_value, false)
  found zero_value (some v) = (v, true)

  abbrev pub is_some : Option V → Bool
  is_some none = false
  is_some (some v) = true

  -- The first entry and those behind it.
  abbrev pub first : List (Bytes × V) → Option (Bytes × V)
  first [] = none
  first (e ∷ es) = some e

  abbrev pub behind : List (Bytes × V) → List (Bytes × V)
  behind [] = []
  behind (e ∷ es) = es

  abbrev pub nonempty : List (Bytes × V) → Option (List (Bytes × V))
  nonempty [] = none
  nonempty (e ∷ es) = some (e ∷ es)

abbrev pub map_some : {A B : Type 0} → (A → B) → Option A → Option B
map_some f none = none
map_some f (some a) = some (f a)

pub record TreeLib (V : Type 0) : Type 1 where
  pub Tree : Type 0
  pub entries : Tree → List (Bytes × V)
  pub entries-IsAscending : (t : Tree) → IsAscending (entries t)
  pub zero_value : V
  pub tree_new : Tree
  pub entries-tree_new : entries tree_new ≡ []
  pub clear : Tree → Tree
  pub entries-clear : (t : Tree) → entries (clear t) ≡ []
  pub len : Tree → ℕ
  pub len_lem : (t : Tree) → len t ≡ length (entries t)
  pub get : Tree → Bytes → V × Bool
  pub get_lem : (t : Tree) (k : Bytes) → get t k ≡ found zero_value (lookup_key k (entries t))
  pub set : Tree → Bytes → V → Tree
  pub entries-set :
      (t : Tree) (k : Bytes) (v : V) → entries (set t k v) ≡ insert_key k v (entries t)
  -- Put calls the updater once, with what Get returns, and writes the new value if it is told to.
  -- The integer is the variable that the updaters of the program change.
  pub put : Tree → Bytes → ℤ → (ℤ → V → Bool → ℤ × V × Bool) → Tree × ℤ
  pub put_variable :
      (t : Tree) (k : Bytes) (s : ℤ) (upd : ℤ → V → Bool → ℤ × V × Bool)
      → (put t k s upd).1 ≡ (upd s (get t k).0 (get t k).1).0
  pub entries-put :
      (t : Tree) (k : Bytes) (s : ℤ) (upd : ℤ → V → Bool → ℤ × V × Bool)
      → entries (put t k s upd).0 ≡ (
          if (upd s (get t k).0 (get t k).1).2
          then insert_key k (upd s (get t k).0 (get t k).1).1 (entries t)
          else entries t)
  pub delete : Tree → Bytes → Tree × Bool
  pub entries-delete : (t : Tree) (k : Bytes) → entries (delete t k).0 ≡ remove_key k (entries t)
  pub delete_flag : (t : Tree) (k : Bytes) → (delete t k).1 ≡ is_some (lookup_key k (entries t))
  -- An enumerator over a tree that does not change; Next returns none at io.EOF.
  pub Enumerator : Type 0
  pub ahead : Enumerator → List (Bytes × V)
  pub seek_first : Tree → Option Enumerator
  pub seek_first_lem : (t : Tree) → map_some ahead (seek_first t) ≡ nonempty (entries t)
  pub next : Enumerator → Option (Bytes × V) × Enumerator
  pub next_entry : (e : Enumerator) → (next e).0 ≡ first (ahead e)
  pub next_ahead : (e : Enumerator) → ahead (next e).1 ≡ behind (ahead e)
