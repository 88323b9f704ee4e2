-- ===== src/OrderedMap/Size.antt =====
-- The invariant of the ordered maps that a script builds: no empty key, and an estimated size that
-- counts every byte of the keys and values.
use egvm.Prelude.{
  ℕ, ◌+◌, ◌≡◌, ◌≢◌, refl, ap, subst, Bool-cases, inl, inr, Option, none, some, Option-cases, List,
  [], ◌∷◌, length, arith, pos, ◌+ℤ◌, ◌-ℤ◌, ◌≤ℤ◌, +ℤ_parts, -ℤ_parts,
}
use egvm.Outcome.{Outcome, ok, ◌>>=◌, from_ok, >>=-eq-ok}
use egvm.Bytes.{Bytes, equal_bytes, is_less, equal_bytes_sound}
use egvm.Tree.{TreeLib, lookup_key, insert_key, remove_key, IsAscending}
use egvm.Tree.Entries.{lookup_key-above, AllAbove-trans}
use egvm.Msgp.{MsgpLib}
use egvm.OrderedMap.{Kind, OrderedMap, new_ordered_map, clear, delete, set}
use egvm.OrderedMap.Lookup.{set_lem}
use egvm.OrderedMap.Encoding.{HasKeys}

-- The calls of a script that change a map.
pub data MapCall (V : Type 0) : Type 0 where
  set_call : Bytes → V → MapCall V
  delete_call : Bytes → MapCall V
  clear_call : MapCall V

module _ {V : Type 0} where
  HasKeys-insert_key :
      (k : Bytes) (v : V) (es : List (Bytes × V))
      → k ≢ []
      → HasKeys es
      → HasKeys (insert_key k v es)
  unfolding insert_key
  HasKeys-insert_key k v [] h hs = (h, tt)
  HasKeys-insert_key k v ((j, u) ∷ es) h hs = elim (Bool-cases (equal_bytes j k)) [
    | inl same ↦ rw same (h, hs.1)
    | inr other ↦ rw other (elim (Bool-cases (is_less k j)) [
      | inl below ↦ rw below (h, hs)
      | inr above ↦ rw above (hs.0, HasKeys-insert_key k v es h hs.1)
    ])
  ]

  HasKeys-remove_key : (k : Bytes) (es : List (Bytes × V)) → HasKeys es → HasKeys (remove_key k es)
  unfolding remove_key
  HasKeys-remove_key k [] hs = tt
  HasKeys-remove_key k ((j, u) ∷ es) hs = elim (Bool-cases (equal_bytes j k)) [
    | inl same ↦ rw same hs.1
    | inr other ↦ rw other (hs.0, HasKeys-remove_key k es hs.1)
  ]

module _ {V : Type 0} (kind : Kind V) where
  open kind use {weight, growth}

  -- The bytes of the keys and the counted bytes of the values.
  unfoldable pub total : List (Bytes × V) → ℕ
  total [] = 0
  total ((k, v) ∷ es) = length k + weight v + total es

  -- What the entry of a key adds to the total.
  unfoldable pub share : Bytes → Option V → ℕ
  share k none = 0
  share k (some v) = length k + weight v

  total-insert_key :
      (k : Bytes) (v : V) (es : List (Bytes × V))
      → IsAscending es
      → total (insert_key k v es) + share k (lookup_key k es) ≡ total es + length k + weight v
  unfolding total share insert_key lookup_key
  total-insert_key k v [] a = omega arith
  total-insert_key k v ((j, u) ∷ es) a = elim (Bool-cases (equal_bytes j k)) [
    | inl same ↦ rw same (omega (arith, ap length (equal_bytes_sound j k same)))
    | inr other ↦ rw other (elim (Bool-cases (is_less k j)) [
      | inl below ↦
          rw below (rw (lookup_key-above k es (AllAbove-trans k j es below a.0)) (omega arith))
      | inr above ↦ rw above (omega (arith, total-insert_key k v es a.1))
    ])
  ]

  total-remove_key :
      (k : Bytes) (es : List (Bytes × V))
      → total (remove_key k es) + share k (lookup_key k es) ≡ total es
  unfolding total share remove_key lookup_key
  total-remove_key k [] = refl
  total-remove_key k ((j, u) ∷ es) = elim (Bool-cases (equal_bytes j k)) [
    | inl same ↦ rw same (omega (arith, ap length (equal_bytes_sound j k same)))
    | inr other ↦ rw other (omega (arith, total-remove_key k es))
  ]

module _ {V : Type 0} (t : TreeLib V) (m : MsgpLib) (kind : Kind V) where
  -- The invariant.
  pub record IsSound (o : OrderedMap t) : Type 0 where
    pub keys : HasKeys (t.entries o.tree)
    pub counted : pos (total kind (t.entries o.tree)) ≤ℤ o.estimated_size

  -- The calls in order; a panic ends the script.
  unfoldable pub run : OrderedMap t → List (MapCall V) → Outcome (OrderedMap t)
  run o [] = ok o
  run o (set_call k v ∷ calls) = do o' ← set t m kind o k v; run o' calls
  run o (delete_call k ∷ calls) = run (delete t o k) calls
  run o (clear_call ∷ calls) = run (clear t o) calls

  growth-le :
      (o : OrderedMap t) (k : Bytes) (v : V)
      → pos (length k + kind.weight v)
        ≤ℤ kind.growth k v (t.get o.tree k).0 (t.get o.tree k).1
          +ℤ pos (share kind k (lookup_key k (t.entries o.tree)))
  unfolding share
  growth-le o k v = elim (Option-cases (lookup_key k (t.entries o.tree))) [
    | inl missing ↦
        rw (t.get_lem, missing)
          (rw kind.growth_new
            (omega (arith, +ℤ_parts (pos (10 + length k + kind.weight v)) (pos 0))))
    | inr (u, present) ↦
        rw (t.get_lem, present)
          (rw kind.growth_old (
            omega (
              arith,
              -ℤ_parts (pos (kind.weight v)) (pos (kind.weight u)),
              +ℤ_parts (pos (kind.weight v) -ℤ pos (kind.weight u))
                  (pos (length k + kind.weight u)),
            )))
  ]

  set-IsSound :
      (o o' : OrderedMap t) (k : Bytes) (v : V)
      → IsSound o
      → set t m kind o k v ≡ ok o'
      → IsSound o'
  set-IsSound o o' k v s e =
      let (key, made, size) = set_lem t m kind o o' k v e in
      record {
        keys = rw made (HasKeys-insert_key k v (t.entries o.tree) key s.keys);
        counted =
            rw (made, size)
              (omega (
                arith,
                s.counted,
                growth-le o k v,
                +ℤ_parts (kind.growth k v (t.get o.tree k).0 (t.get o.tree k).1)
                    (pos (share kind k (lookup_key k (t.entries o.tree)))),
                +ℤ_parts o.estimated_size (kind.growth k v (t.get o.tree k).0 (t.get o.tree k).1),
                total-insert_key kind k v (t.entries o.tree) (t.entries-IsAscending o.tree),
              ));
      }

  deleted_counted :
      (o : OrderedMap t) (k : Bytes)
      → IsSound o
      → pos (total kind (t.entries (delete t o k).tree)) ≤ℤ (delete t o k).estimated_size
  unfolding delete share
  deleted_counted o k s =
      let removed = total-remove_key kind k (t.entries o.tree) in
      elim (Option-cases (lookup_key k (t.entries o.tree))) [
        | inl missing ↦
            rw (t.entries-delete, t.delete_flag, missing)
              (omega (arith, s.counted, rw missing at removed))
        | inr (u, present) ↦
            rw (t.entries-delete, t.delete_flag, present)
              (omega (
                arith,
                s.counted,
                rw present at removed,
                -ℤ_parts o.estimated_size (pos (length k)),
              ))
      ]

  delete-IsSound : (o : OrderedMap t) (k : Bytes) → IsSound o → IsSound (delete t o k)
  delete-IsSound o k s = record {
    keys = unfold delete in rw t.entries-delete (HasKeys-remove_key k (t.entries o.tree) s.keys);
    counted = deleted_counted o k s;
  }

  clear-IsSound : (o : OrderedMap t) → IsSound (clear t o)
  unfolding clear total
  clear-IsSound o = record {
    keys = rw t.entries-clear tt;
    counted = rw t.entries-clear (omega arith);
  }

  run-IsSound :
      (o o' : OrderedMap t) (calls : List (MapCall V))
      → IsSound o
      → run o calls ≡ ok o'
      → IsSound o'
  unfolding run
  run-IsSound o o' [] s e = subst IsSound (ap (from_ok o) e) s
  run-IsSound o o' (set_call k v ∷ calls) s e =
      let (o₁, called, rest) = >>=-eq-ok (set t m kind o k v) {later = λ o₁. run o₁ calls} e in
      run-IsSound o₁ o' calls (set-IsSound o o₁ k v s called) rest
  run-IsSound o o' (delete_call k ∷ calls) s e =
      run-IsSound (delete t o k) o' calls (delete-IsSound o k s) e
  run-IsSound o o' (clear_call ∷ calls) s e = run-IsSound (clear t o) o' calls (clear-IsSound o) e

  -- A map that New and any calls of Set, Delete and Clear have made has no empty key, and its
  -- estimated size is at least the number of bytes of its keys and of its string or buffer values;
  -- so it is never negative.
  pub built-IsSound :
      (o : OrderedMap t) (calls : List (MapCall V))
      → run (new_ordered_map t) calls ≡ ok o
      → IsSound o
  unfolding new_ordered_map total
  built-IsSound o calls e =
      run-IsSound _ o calls
        (record { keys = rw t.entries-tree_new tt; counted = rw t.entries-tree_new (omega arith) })
        e
