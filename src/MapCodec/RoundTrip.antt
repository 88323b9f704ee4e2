-- ===== src/MapCodec/RoundTrip.antt =====
-- SerializeMaps followed by the OrderedMapReader and by DeserializeMap.
use egvm.Prelude.{
  ℕ, ◌^◌, ◌<◌, ◌≡◌, refl, sym, ap, ◌∙◌, List, [], ◌∷◌, ◌++◌, map, append-nil, append_assoc, length,
  arith, ℤ, pos, All,
}
use egvm.Outcome.{Outcome, ok, panic, map_ok, ◌>>=◌}
use egvm.Bytes.{Bytes}
use egvm.Goja.{int64}
use egvm.Tree.{TreeLib}
use egvm.Msgp.{MsgpLib}
use egvm.OrderedMap.{Kind, OrderedMap, new_ordered_map, int_kind, str_kind, buf_kind}
use egvm.OrderedMap.Encoding.{HasKeys, AllFit}
use egvm.OrderedMap.RoundTrip.{body, dump_body, load_body}
use egvm.MapCodec.{
  Trees, MapValue, int_map, str_map, buf_map, other_value, check_maps, append_maps, serialize_maps,
  load_map, take_map, OrderedMapReader, read, loaded, int_map_tag, str_map_tag, buf_map_tag,
}

-- What a script can see of a map: its kind and its entries in order.
pub data Contents : Type 0 where
  ints : List (Bytes × ℤ) → Contents
  strs : List (Bytes × Bytes) → Contents
  bufs : List (Bytes × Bytes) → Contents
  nothing : Contents

module _ (trees : Trees) (m : MsgpLib) where
  unfoldable pub contents : MapValue trees m → Contents
  contents (int_map o) = ints (trees.ints.entries o.tree)
  contents (str_map o) = strs (trees.strs.entries o.tree)
  contents (buf_map o) = bufs (trees.bufs.entries o.tree)
  contents other_value = nothing

  unfoldable pub tag_of : MapValue trees m → ℕ
  tag_of (int_map o) = int_map_tag
  tag_of (str_map o) = str_map_tag
  tag_of (buf_map o) = buf_map_tag
  tag_of other_value = 0

  -- A map with no empty key, with entries that msgp can write, and fewer than 2 ^ 63 of them.
  abbrev pub CanWrite : {V : Type 0} (t : TreeLib V) → Kind V → OrderedMap t → Type 0
  CanWrite t kind o =
      HasKeys (t.entries o.tree)
      × AllFit t m kind (t.entries o.tree)
      × (length (t.entries o.tree) < 2 ^ 63)

  abbrev pub IsWritable : MapValue trees m → Type 0
  IsWritable (int_map o) = CanWrite trees.ints (int_kind m) o
  IsWritable (str_map o) = CanWrite trees.strs (str_kind m) o
  IsWritable (buf_map o) = CanWrite trees.bufs (buf_kind m) o
  IsWritable other_value = ⊥

  -- The bytes of one map: its tag and its dump.
  image : MapValue trees m → Bytes
  image (int_map o) =
      m.append_byte [] int_map_tag ++ body trees.ints m (int_kind m) (trees.ints.entries o.tree)
  image (str_map o) =
      m.append_byte [] str_map_tag ++ body trees.strs m (str_kind m) (trees.strs.entries o.tree)
  image (buf_map o) =
      m.append_byte [] buf_map_tag ++ body trees.bufs m (buf_kind m) (trees.bufs.entries o.tree)
  image other_value = []

  images : List (MapValue trees m) → Bytes
  images [] = []
  images (v ∷ vs) = image v ++ images vs

  regroup :
      (tag : ℕ) (b bytes rest : Bytes)
      → (m.append_byte b tag ++ bytes) ++ rest ≡ b ++ ((m.append_byte [] tag ++ bytes) ++ rest)
  regroup tag b bytes rest = rw (m.append_byte_lem b tag) (
      ap (λ l. l ++ rest) (append_assoc b (m.append_byte [] tag) bytes)
      ∙ append_assoc b (m.append_byte [] tag ++ bytes) rest)

  append_maps-images :
      (vs : List (MapValue trees m)) (b : Bytes)
      → All IsWritable vs
      → append_maps trees m vs b ≡ ok (b ++ images vs)
  unfolding append_maps images image
  append_maps-images [] b h = ap ok (sym (append-nil b))
  append_maps-images (int_map o ∷ vs) b h =
      rw (dump_body trees.ints m (int_kind m) o (m.append_byte b int_map_tag) h.0.0)
        (append_maps-images vs _ h.1 ∙ ap ok (regroup int_map_tag b _ (images vs)))
  append_maps-images (str_map o ∷ vs) b h =
      rw (dump_body trees.strs m (str_kind m) o (m.append_byte b str_map_tag) h.0.0)
        (append_maps-images vs _ h.1 ∙ ap ok (regroup str_map_tag b _ (images vs)))
  append_maps-images (buf_map o ∷ vs) b h =
      rw (dump_body trees.bufs m (buf_kind m) o (m.append_byte b buf_map_tag) h.0.0)
        (append_maps-images vs _ h.1 ∙ ap ok (regroup buf_map_tag b _ (images vs)))
  append_maps-images (other_value ∷ vs) b h = absurd h.0

  check_maps-ok : (vs : List (MapValue trees m)) → All IsWritable vs → check_maps trees m vs ≡ ok tt
  unfolding check_maps
  check_maps-ok [] h = refl
  check_maps-ok (int_map o ∷ vs) h = check_maps-ok vs h.1
  check_maps-ok (str_map o ∷ vs) h = check_maps-ok vs h.1
  check_maps-ok (buf_map o ∷ vs) h = check_maps-ok vs h.1
  check_maps-ok (other_value ∷ vs) h = absurd h.0

  serialize_maps-images :
      (vs : List (MapValue trees m))
      → All IsWritable vs
      → serialize_maps trees m vs ≡ ok (images vs)
  unfolding serialize_maps
  serialize_maps-images vs h = rw (check_maps-ok vs h) (append_maps-images vs [] h)

  -- One map is taken back from its bytes, whatever follows.
  take_map-image :
      (v : MapValue trees m) (rest : Bytes)
      → IsWritable v
      → (v' : MapValue trees m) × (take_map trees m (pos (tag_of v)) (image v ++ rest)
          ≡ ok (v', rest))
        × (contents v' ≡ contents v)
  take_map-image (int_map o) rest h =
      let (o', loaded, same, size) =
        load_body trees.ints m (int_kind m) o (new_ordered_map trees.ints) rest h.1 h.2 in
      (
        int_map o',
        unfold take_map load_map tag_of image in
            rw
              (
                append_assoc (m.append_byte [] int_map_tag) _ rest,
                m.read_byte-append int_map_tag _ (omega arith),
              )
              (rw loaded),
        unfold contents in ap ints same,
      )
  take_map-image (str_map o) rest h =
      let (o', loaded, same, size) =
        load_body trees.strs m (str_kind m) o (new_ordered_map trees.strs) rest h.1 h.2 in
      (
        str_map o',
        unfold take_map load_map tag_of image in
            rw
              (
                append_assoc (m.append_byte [] str_map_tag) _ rest,
                m.read_byte-append str_map_tag _ (omega arith),
              )
              (rw loaded),
        unfold contents in ap strs same,
      )
  take_map-image (buf_map o) rest h =
      let (o', loaded, same, size) =
        load_body trees.bufs m (buf_kind m) o (new_ordered_map trees.bufs) rest h.1 h.2 in
      (
        buf_map o',
        unfold take_map load_map tag_of image in
            rw
              (
                append_assoc (m.append_byte [] buf_map_tag) _ rest,
                m.read_byte-append buf_map_tag _ (omega arith),
              )
              (rw loaded),
        unfold contents in ap bufs same,
      )
  take_map-image other_value rest h = absurd h

  -- Read once for each tag.
  unfoldable pub read_all :
      OrderedMapReader → List ℕ → Outcome (List (MapValue trees m) × OrderedMapReader)
  read_all r [] = ok ([], r)
  read_all r (tag ∷ tags) = do
    p ← read trees m r (int64 (pos tag) ∷ [])
    q ← read_all p.1 tags
    ok (p.0 ∷ q.0, q.1)

  read-take :
      (b : Bytes) (tag : ℕ) (v : MapValue trees m) (rest : Bytes)
      → take_map trees m (pos tag) b ≡ ok (v, rest)
      → read trees m (record { bz = b }) (int64 (pos tag) ∷ []) ≡ ok (v, record { bz = rest })
  unfolding read
  read-take b tag v rest taken = rw taken

  abbrev pub seen : List (MapValue trees m) × OrderedMapReader → List Contents × Bytes
  seen p = (map contents p.0, p.1.bz)

  abbrev in_front : Contents → Outcome (List Contents × Bytes) → Outcome (List Contents × Bytes)
  in_front c r = map_ok (λ p. (c ∷ p.0, p.1)) r

  seen_cons :
      (v : MapValue trees m) (r : Outcome (List (MapValue trees m) × OrderedMapReader))
      → map_ok seen (do q ← r; ok (v ∷ q.0, q.1)) ≡ in_front (contents v) (map_ok seen r)
  seen_cons v (ok q) = refl
  seen_cons v (panic p) = refl

  read_all-images :
      (vs : List (MapValue trees m)) (rest : Bytes)
      → All IsWritable vs
      → map_ok seen (read_all (record { bz = images vs ++ rest }) (map tag_of vs))
        ≡ ok (map contents vs, rest)
  unfolding read_all images
  read_all-images [] rest h = refl
  read_all-images (v ∷ vs) rest h =
      let (v', taken, same) = take_map-image v (images vs ++ rest) h.0 in
      rw
        (
          append_assoc (image v) (images vs) rest,
          read-take (image v ++ (images vs ++ rest)) (tag_of v) v' (images vs ++ rest) taken,
        )
        (seen_cons v' (read_all (record { bz = images vs ++ rest }) (map tag_of vs))
          ∙ ap (in_front (contents v')) (read_all-images vs rest h.1)
          ∙ ap (λ c. ok (c ∷ map contents vs, rest)) same)

  -- SerializeMaps of maps with no empty key returns a buffer, and a reader on that buffer, with any
  -- bytes behind it, reads the maps back in order when it is asked for their tags: each map has the
  -- kind and the entries it had, and the reader keeps exactly the bytes behind.
  pub read_all-serialize_maps :
      (vs : List (MapValue trees m)) (rest : Bytes)
      → All IsWritable vs
      → (b : Bytes) × (serialize_maps trees m vs ≡ ok b)
        × (map_ok seen (read_all (record { bz = b ++ rest }) (map tag_of vs))
            ≡ ok (map contents vs, rest))
  read_all-serialize_maps vs rest h =
      (images vs, serialize_maps-images vs h, read_all-images vs rest h)
