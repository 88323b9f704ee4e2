-- ===== src/OrderedMap/RoundTrip.antt =====
-- loadFrom after dumpTo of the ordered maps, and what becomes of an empty key.
use egvm.Prelude.{
  ℕ, suc, ◌-◌, ◌^◌, ◌<◌, ◌≡◌, refl, sym, ap, ◌∙◌, none, some, List, [], ◌∷◌, ◌++◌, append-nil,
  append_assoc, length, length-append, arith, pos, ◌-ℤ◌,
}
use egvm.Bytes.{Bytes}
use egvm.Tree.{TreeLib, insert_key}
use egvm.Msgp.{MsgpLib}
use egvm.OrderedMap.{Kind, OrderedMap, dump_to, load_loop, load_from}
use egvm.OrderedMap.Encoding.{
  HasKeys, until_empty-HasKeys, IsBehind-nil, encoded, AllFit, dump_to_lem, load_loop-encoded,
}

size_of : (b rest : Bytes) → pos (length (b ++ rest)) -ℤ pos (length rest) ≡ pos (length b)
unfolding ◌-ℤ◌
size_of b rest = ground (arith, length-append b rest)

module _ {V : Type 0} (t : TreeLib V) (m : MsgpLib) (kind : Kind V) where
  pub load_counted :
      (o₀ : OrderedMap t) (b body rest : Bytes) (n : ℕ) (tree : t.Tree)
      → m.read_int b ≡ some (pos n, body)
      → load_loop t m kind n (t.clear o₀.tree) body ≡ some (tree, rest)
      → load_from t m kind o₀ b
        ≡ some (record { estimated_size = pos (length b) -ℤ pos (length rest); tree = tree }, rest)
  unfolding load_from
  load_counted o₀ b body rest n tree counted loaded = rw (counted, load_from) (rw loaded)

  -- What dumpTo writes of a map with these entries.
  unfoldable pub body : List (Bytes × V) → Bytes
  body es = m.append_int [] (pos (length es)) ++ encoded t m kind es

  pub dump_body :
      (o : OrderedMap t) (b : Bytes)
      → HasKeys (t.entries o.tree)
      → dump_to t m kind o b ≡ some (b ++ body (t.entries o.tree))
  unfolding body
  dump_body o b keys =
      dump_to_lem t m kind o b _ refl ∙ rw (until_empty-HasKeys (t.entries o.tree) keys)

  pub load_body :
      (o o₀ : OrderedMap t) (rest : Bytes)
      → AllFit t m kind (t.entries o.tree)
      → length (t.entries o.tree) < 2 ^ 63
      → (o' : OrderedMap t) × (load_from t m kind o₀ (body (t.entries o.tree) ++ rest)
          ≡ some (o', rest))
        × (t.entries o'.tree ≡ t.entries o.tree)
        × (o'.estimated_size ≡ pos (length (body (t.entries o.tree))))
  unfolding body
  load_body o o₀ rest fits count =
      let es : List (Bytes × V) = t.entries o.tree in
      let b : Bytes = m.append_int [] (pos (length es)) ++ encoded t m kind es in
      let (tree, loaded, same) =
        load_loop-encoded t m kind es [] (t.clear o₀.tree) rest (t.entries-clear o₀.tree)
          (IsBehind-nil es) (t.entries-IsAscending o.tree) fits in
      (
        record { estimated_size = pos (length (b ++ rest)) -ℤ pos (length rest); tree = tree },
        load_counted o₀ (b ++ rest) (encoded t m kind es ++ rest) rest (length es) tree
            (ap m.read_int
                (append_assoc (m.append_int [] (pos (length es))) (encoded t m kind es) rest)
              ∙ m.read_int-append (pos (length es)) _ count)
            loaded,
        same,
        size_of b rest,
      )

  -- A map whose keys are not empty is read back from what dumpTo writes, whatever follows: the dump
  -- exists, loadFrom into any map returns the same entries and leaves the bytes behind the dump, and
  -- the loaded map's estimated size is the size of the dump.
  pub load-dump :
      (o o₀ : OrderedMap t) (rest : Bytes)
      → HasKeys (t.entries o.tree)
      → AllFit t m kind (t.entries o.tree)
      → length (t.entries o.tree) < 2 ^ 63
      → (b : Bytes) × (o' : OrderedMap t) × (dump_to t m kind o [] ≡ some b)
        × (load_from t m kind o₀ (b ++ rest) ≡ some (o', rest))
        × (t.entries o'.tree ≡ t.entries o.tree)
        × (o'.estimated_size ≡ pos (length b))
  load-dump o o₀ rest keys fits count =
      let (o', loaded, same, size) = load_body o o₀ rest fits count in
      (body (t.entries o.tree), o', dump_body o [] keys, loaded, same, size)

  -- A dump with no bytes behind the count is refused when the count is not zero.
  load_nothing :
      (o₀ : OrderedMap t) (b : Bytes) (n : ℕ)
      → m.read_int b ≡ some (pos (suc n), [])
      → load_from t m kind o₀ b ≡ none
  unfolding load_from load_loop
  load_nothing o₀ b n counted = rw (counted, load_from) (rw (m.read_string-nil, load_loop))

  load_empty_key :
      (o₀ : OrderedMap t) (v : V)
      → kind.codec.Fits v
      → load_loop t m kind 1
          (t.clear o₀.tree)
          (m.append_string [] [] ++ kind.codec.append_value [] v)
        ≡ some (t.set (t.clear o₀.tree) [] v, [])
  unfolding load_loop
  load_empty_key o₀ v fits =
      rw (m.read_string-append [] (kind.codec.append_value [] v) (omega arith), load_loop)
        (rw (
          ap kind.codec.read_value (sym (append-nil (kind.codec.append_value [] v)))
          ∙ kind.codec.read-append v [] fits))

  -- loadFrom takes an empty key, which Set refuses: it returns a map with the entry. A map whose
  -- first key is empty has no usable dump: dumpTo writes the number of the entries and none of
  -- them, and loadFrom refuses that.
  pub empty_key_lost :
      (o₀ o : OrderedMap t) (v : V) (es : List (Bytes × V))
      → kind.codec.Fits v
      → t.entries o.tree ≡ ([], v) ∷ es
      → length es < 2 ^ 63 - 1
      → ((o₁ : OrderedMap t) × (load_from t m kind o₀
              (m.append_int [] (pos 1) ++ (m.append_string [] [] ++ kind.codec.append_value [] v))
            ≡ some (o₁, []))
          × (t.entries o₁.tree ≡ ([], v) ∷ []))
        × (dump_to t m kind o [] ≡ some (m.append_int [] (pos (suc (length es)))))
        × (load_from t m kind o₀ (m.append_int [] (pos (suc (length es)))) ≡ none)
  unfolding encoded insert_key
  empty_key_lost o₀ o v es fits first count = (
    (
      record { estimated_size = _; tree = t.set (t.clear o₀.tree) [] v },
      load_counted o₀ _ _ [] 1 _ (m.read_int-append (pos 1) _ (omega arith))
          (load_empty_key o₀ v fits),
      t.entries-set (t.clear o₀.tree) [] v ∙ ap (insert_key [] v) (t.entries-clear o₀.tree),
    ),
    dump_to_lem t m kind o [] _ first ∙ ap some (append-nil _),
    load_nothing o₀ _ (length es) (
        ap m.read_int (sym (append-nil _))
        ∙ m.read_int-append (pos (suc (length es))) [] (omega arith)),
  )
