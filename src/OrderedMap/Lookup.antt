-- ===== src/OrderedMap/Lookup.antt =====
-- Get after New, Set, Delete and Clear of the ordered maps.
use egvm.Prelude.{
  ◌≡◌, ◌≢◌, refl, sym, ap, subst, ◌∙◌, Bool, true, false, Option, [], ◌∷◌, length, ◌==◌, arith,
  if◌then◌else◌, ℤ, ◌+ℤ◌,
}
use egvm.Outcome.{ok, panic, map_ok, from_ok, empty_key_string}
use egvm.Bytes.{Bytes, equal_bytes}
use egvm.Tree.{TreeLib, lookup_key, insert_key, found}
use egvm.Tree.Entries.{lookup_key-insert_key, lookup_key-remove_key}
use egvm.Msgp.{MsgpLib}
use egvm.OrderedMap.{Kind, OrderedMap, new_ordered_map, clear, delete, get, set}

module _ {V : Type 0} (t : TreeLib V) (m : MsgpLib) (kind : Kind V) where
  abbrev pub updater : Bytes → V → ℤ → V → Bool → ℤ × V × Bool
  updater k v size old exists = (size +ℤ kind.growth k v old exists, v, true)

  -- The map that Set makes at a key that is not empty.
  abbrev pub after_set : OrderedMap t → Bytes → V → OrderedMap t
  after_set o k v =
      let (tree, size) = t.put o.tree k o.estimated_size (updater k v) in
      record { estimated_size = size; tree = tree }

  pub set_nonempty :
      (o : OrderedMap t) (k : Bytes) (v : V)
      → (length k == 0) ≡ false
      → set t m kind o k v ≡ ok (after_set o k v)
  unfolding set
  set_nonempty o k v h = rw h

  -- What Set does at a key that is not empty.
  pub set_lem :
      (o o' : OrderedMap t) (k : Bytes) (v : V)
      → set t m kind o k v ≡ ok o'
      → (k ≢ [])
        × (t.entries o'.tree ≡ insert_key k v (t.entries o.tree))
        × (o'.estimated_size
            ≡ o.estimated_size +ℤ kind.growth k v (t.get o.tree k).0 (t.get o.tree k).1)
  set_lem o o' [] v e = unfold set in cc
  set_lem o o' (c ∷ k) v e =
      let made : after_set o (c ∷ k) v ≡ o' =
        ap (from_ok o) (sym (set_nonempty o (c ∷ k) v (ground arith)) ∙ e) in
      (
        λ nil. cc,
        subst (λ o₁. t.entries o₁.tree ≡ insert_key (c ∷ k) v (t.entries o.tree)) made
            (t.entries-put o.tree (c ∷ k) o.estimated_size (updater (c ∷ k) v)),
        subst
            (λ o₁.
              o₁.estimated_size
              ≡ o.estimated_size
                +ℤ kind.growth (c ∷ k) v (t.get o.tree (c ∷ k)).0 (t.get o.tree (c ∷ k)).1)
            made (t.put_variable o.tree (c ∷ k) o.estimated_size (updater (c ∷ k) v)),
      )

  get_lem :
      (o : OrderedMap t) (j : Bytes)
      → get t o j ≡ found t.zero_value (lookup_key j (t.entries o.tree))
  unfolding get
  get_lem o j = t.get_lem o.tree j

  found-if :
      (b : Bool) (r s : Option V)
      → found t.zero_value (if b then r else s)
        ≡ (if b then found t.zero_value r else found t.zero_value s)
  found-if true r s = refl
  found-if false r s = refl

  get-set :
      (o : OrderedMap t) (k j : Bytes) (v : V)
      → map_ok (λ o'. get t o' j) (set t m kind o k v) ≡ (
          if length k == 0
          then panic empty_key_string
          else ok (if equal_bytes k j then (v, true) else get t o j))
  get-set o [] j v = unfold set in refl
  get-set o (c ∷ k) j v =
      let h : (length (c ∷ k) == 0) ≡ false = ground arith in
      rw (set_nonempty o (c ∷ k) v h, h)
        (rw (get_lem, get_lem o, t.entries-put, lookup_key-insert_key, found-if) refl)

  get-delete :
      (o : OrderedMap t) (k j : Bytes)
      → get t (delete t o k) j ≡ (if equal_bytes k j then (t.zero_value, false) else get t o j)
  unfolding delete
  get-delete o k j = rw (
    get_lem,
    get_lem o,
    t.entries-delete,
    lookup_key-remove_key k j (t.entries o.tree) (t.entries-IsAscending o.tree),
    found-if,
  )

  -- Set panics at the empty key and returns at every other. After it Get returns the new value at
  -- its key, and what it returned before at any other key. After Delete, Get finds nothing at the
  -- deleted key and the same as before at any other; after New and Clear it finds nothing.
  pub get_laws :
      (o : OrderedMap t) (k j : Bytes) (v : V)
      → (map_ok (λ o'. get t o' j) (set t m kind o k v) ≡ (
          if length k == 0
          then panic empty_key_string
          else ok (if equal_bytes k j then (v, true) else get t o j)))
        × (get t (delete t o k) j ≡ (if equal_bytes k j then (t.zero_value, false) else get t o j))
        × (get t (new_ordered_map t) j ≡ (t.zero_value, false))
        × (get t (clear t o) j ≡ (t.zero_value, false))
  unfolding new_ordered_map clear lookup_key
  get_laws o k j v = (
    get-set o k j v,
    get-delete o k j,
    rw (get_lem, t.entries-tree_new),
    rw (get_lem, t.entries-clear),
  )
