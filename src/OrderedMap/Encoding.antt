-- ===== src/OrderedMap/Encoding.antt =====
-- dumpTo and loadFrom of the ordered maps.
use egvm.Prelude.{
  ℕ, zero, suc, ◌<◌, ◌≡◌, ◌≢◌, refl, sym, ap, ◌∙◌, false, Option-cases, inl, inr, none, some, List,
  [], ◌∷◌, ◌++◌, append-nil, append_assoc, length, ◌==◌, arith, pos,
}
use egvm.Bytes.{Bytes}
use egvm.Tree.{TreeLib, insert_key, AllAbove, IsAscending, first, behind, nonempty, map_some}
use egvm.Tree.Entries.{AllBelow, AllBelow-append, insert_key-last}
use egvm.Msgp.{MsgpLib, IsShort}
use egvm.OrderedMap.{Kind, OrderedMap, dump_loop, dump_to, load_loop}

module _ {V : Type 0} where
  -- The entries in front of the first empty key.
  abbrev pub until_empty : List (Bytes × V) → List (Bytes × V)
  until_empty [] = []
  until_empty (([], v) ∷ es) = []
  until_empty ((c ∷ k, v) ∷ es) = (c ∷ k, v) ∷ until_empty es

  abbrev pub HasKeys : List (Bytes × V) → Type 0
  HasKeys [] = Unit
  HasKeys ((k, v) ∷ es) = (k ≢ []) × HasKeys es

  pub until_empty-HasKeys : (es : List (Bytes × V)) → HasKeys es → until_empty es ≡ es
  until_empty-HasKeys [] h = refl
  until_empty-HasKeys (([], v) ∷ es) h = absurd (h.0 refl)
  until_empty-HasKeys ((c ∷ k, v) ∷ es) h = ap (λ l. (c ∷ k, v) ∷ l) (until_empty-HasKeys es h.1)

  -- Every key of the second list is above every key of the first.
  abbrev pub IsBehind : List (Bytes × V) → List (Bytes × V) → Type 0
  IsBehind done [] = Unit
  IsBehind done ((k, v) ∷ es) = AllBelow k done × IsBehind done es

  pub IsBehind-nil : (es : List (Bytes × V)) → IsBehind [] es
  IsBehind-nil [] = tt
  IsBehind-nil ((k, v) ∷ es) = (tt, IsBehind-nil es)

  IsBehind-append :
      (done es : List (Bytes × V)) (k : Bytes) (v : V)
      → IsBehind done es
      → AllAbove k es
      → IsBehind (done ++ ((k, v) ∷ [])) es
  IsBehind-append done [] k v b a = tt
  IsBehind-append done ((j, u) ∷ es) k v b a =
      (AllBelow-append j done ((k, v) ∷ []) b.0 (a.0, tt), IsBehind-append done es k v b.1 a.1)

module _ {V : Type 0} (t : TreeLib V) (m : MsgpLib) (kind : Kind V) where
  open kind.codec use {append_value, append_value_lem, read_value, read-append, Fits}

  -- The bytes of the entries, one after the other.
  unfoldable pub encoded : List (Bytes × V) → Bytes
  encoded [] = []
  encoded ((k, v) ∷ es) = m.append_string [] k ++ (append_value [] v ++ encoded es)

  abbrev pub AllFit : List (Bytes × V) → Type 0
  AllFit [] = Unit
  AllFit ((k, v) ∷ es) = IsShort k × Fits v × AllFit es

  dump_end :
      (rounds : ℕ) (e : t.Enumerator) (b : Bytes)
      → (t.next e).0 ≡ none
      → dump_loop t m kind (suc rounds) e b ≡ some b
  unfolding dump_loop
  dump_end rounds e b h = rw (h, dump_loop)

  dump_empty :
      (rounds : ℕ) (e : t.Enumerator) (b : Bytes) (v : V)
      → (t.next e).0 ≡ some ([], v)
      → dump_loop t m kind (suc rounds) e b ≡ some b
  unfolding dump_loop
  dump_empty rounds e b v h = rw (h, dump_loop)

  dump_entry :
      (rounds : ℕ) (e : t.Enumerator) (b : Bytes) (c : ℕ) (k : Bytes) (v : V)
      → (t.next e).0 ≡ some (c ∷ k, v)
      → dump_loop t m kind (suc rounds) e b
        ≡ dump_loop t m kind rounds (t.next e).1 (append_value (m.append_string b (c ∷ k)) v)
  unfolding dump_loop
  dump_entry rounds e b c k v h =
      let filled : (length (c ∷ k) == 0) ≡ false = ground arith in rw (h, dump_loop) (rw filled)

  appended :
      (b : Bytes) (k : Bytes) (v : V) (es : List (Bytes × V))
      → append_value (m.append_string b k) v ++ encoded es ≡ b ++ encoded ((k, v) ∷ es)
  unfolding encoded
  appended b k v es =
      rw (append_value_lem (m.append_string b k) v, m.append_string_lem b k)
        (append_assoc (b ++ m.append_string [] k) (append_value [] v) (encoded es)
          ∙ append_assoc b (m.append_string [] k) (append_value [] v ++ encoded es))

  encoded-nil : (b : Bytes) → some b ≡ some (b ++ encoded [])
  unfolding encoded
  encoded-nil b = ap some (sym (append-nil b))

  dump_loop-encoded :
      (es : List (Bytes × V)) (rounds : ℕ) (e : t.Enumerator) (b : Bytes)
      → t.ahead e ≡ es
      → length es < rounds
      → dump_loop t m kind rounds e b ≡ some (b ++ encoded (until_empty es))
  dump_loop-encoded es zero e b h lt = elim lt [ ]
  dump_loop-encoded [] (suc rounds) e b h lt =
      dump_end rounds e b (t.next_entry e ∙ ap first h) ∙ encoded-nil b
  dump_loop-encoded (([], v) ∷ es) (suc rounds) e b h lt =
      dump_empty rounds e b v (t.next_entry e ∙ ap first h) ∙ encoded-nil b
  dump_loop-encoded ((c ∷ k, v) ∷ es) (suc rounds) e b h lt =
      dump_entry rounds e b c k v (t.next_entry e ∙ ap first h)
      ∙ dump_loop-encoded es rounds (t.next e).1 _ (t.next_ahead e ∙ ap behind h) (omega arith)
      ∙ ap some (appended b (c ∷ k) v (until_empty es))

  seek_first-ahead :
      (o : t.Tree) (x : Bytes × V) (xs : List (Bytes × V))
      → t.entries o ≡ x ∷ xs
      → (e : t.Enumerator) × (t.seek_first o ≡ some e) × (t.ahead e ≡ x ∷ xs)
  seek_first-ahead o x xs h = elim (Option-cases (t.seek_first o)) [
    | inl n ↦ cc (t.seek_first_lem o, ap nonempty h, ap (map_some t.ahead) n)
    | inr (e, s) ↦ (e, s, cc (t.seek_first_lem o, ap nonempty h, ap (map_some t.ahead) s))
  ]

  -- dumpTo writes the number of the entries, and behind it the entries in front of the first empty
  -- key.
  pub dump_to_lem :
      (o : OrderedMap t) (b : Bytes) (es : List (Bytes × V))
      → t.entries o.tree ≡ es
      → dump_to t m kind o b
        ≡ some (b ++ (m.append_int [] (pos (length es)) ++ encoded (until_empty es)))
  unfolding dump_to
  dump_to_lem o b [] h =
      let none_left : t.len o.tree ≡ 0 = t.len_lem o.tree ∙ ap length h in
      rw (none_left, m.append_int_lem)
        (unfold encoded in ap (λ l. some (b ++ l)) (sym (append-nil (m.append_int [] (pos 0)))))
  dump_to_lem o b (x ∷ xs) h =
      let (e, sought, at_start) = seek_first-ahead o.tree x xs h in
      let count : t.len o.tree ≡ suc (length xs) = t.len_lem o.tree ∙ ap length h in
      let filled : (t.len o.tree == 0) ≡ false = ground (arith, count) in
      let tail : Bytes = encoded (until_empty (x ∷ xs)) in
      rw (filled, sought)
        (dump_loop-encoded (x ∷ xs) (suc (t.len o.tree)) e (m.append_int b (pos (t.len o.tree)))
            at_start (omega (arith, count))
          ∙ ap some (
              ap (λ n. m.append_int b (pos n) ++ tail) count
              ∙ ap (λ l. l ++ tail) (m.append_int_lem b (pos (suc (length xs))))
              ∙ append_assoc b (m.append_int [] (pos (suc (length xs)))) tail))

  load_entry :
      (rounds : ℕ) (tree : t.Tree) (k : Bytes) (v : V) (es : List (Bytes × V)) (rest : Bytes)
      → IsShort k
      → Fits v
      → load_loop t m kind (suc rounds) tree (encoded ((k, v) ∷ es) ++ rest)
        ≡ load_loop t m kind rounds (t.set tree k v) (encoded es ++ rest)
  unfolding load_loop encoded
  load_entry rounds tree k v es rest hk hv =
      rw
        (
          append_assoc (m.append_string [] k) (append_value [] v ++ encoded es) rest,
          append_assoc (append_value [] v) (encoded es) rest,
        )
        (rw (m.read_string-append k (append_value [] v ++ (encoded es ++ rest)) hk, load_loop)
          (rw (read-append v (encoded es ++ rest) hv)))

  pub load_loop-encoded :
      (es done : List (Bytes × V)) (tree : t.Tree) (rest : Bytes)
      → t.entries tree ≡ done
      → IsBehind done es
      → IsAscending es
      → AllFit es
      → (tree' : t.Tree) × (load_loop t m kind (length es) tree (encoded es ++ rest)
          ≡ some (tree', rest))
        × (t.entries tree' ≡ done ++ es)
  load_loop-encoded [] done tree rest h b a f =
      (tree, unfold load_loop encoded in refl, h ∙ sym (append-nil done))
  load_loop-encoded ((k, v) ∷ es) done tree rest h b a f =
      let set_last : t.entries (t.set tree k v) ≡ done ++ ((k, v) ∷ []) =
        t.entries-set tree k v ∙ ap (insert_key k v) h ∙ insert_key-last k v done b.0 in
      let (tree', loaded, all) =
        load_loop-encoded es (done ++ ((k, v) ∷ [])) (t.set tree k v) rest set_last
          (IsBehind-append done es k v b.1 a.0) a.1 f.2 in
      (
        tree',
        load_entry (length es) tree k v es rest f.0 f.1 ∙ loaded,
        all ∙ append_assoc done ((k, v) ∷ []) es,
      )
