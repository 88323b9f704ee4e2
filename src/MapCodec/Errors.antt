-- ===== src/MapCodec/Errors.antt =====
-- The ways in which DeserializeMap and the OrderedMapReader refuse a buffer.
use egvm.MapCodec.{loaded, int_map, str_map, buf_map}
use egvm.Outcome.{from_ok}
use egvm.Outcome.{Panic}
use egvm.Prelude.{zero, suc}
use egvm.MapCodec.{to_byte}
use egvm.Prelude.{Option-cases}
use egvm.Prelude.{
  ℕ, ◌<◌, ◌≤◌, ◌≡◌, ◌≢◌, inl, inr, refl, sym, ap, ◌∙◌, Bool, true, false, ◌||◌, Option, none, some,
  [], ◌∷◌, length, ltb, ◌==◌, arith, if◌then◌else◌, ℤ, pos, negsuc, ltb_ℤ,
}
use egvm.Outcome.{
  Outcome, ok, panic, panic_if, ◌>>=◌, ◌>>◌, invalid_map_tag, tag_byte_error, tag_mismatch,
  runtime_error,
}
use egvm.Bytes.{Bytes}
use egvm.MapCodec.RoundTrip.{tag_of}
use egvm.Goja.{int64, array_buffer}
use egvm.Msgp.{MsgpLib}
use egvm.MapCodec.{Trees, MapValue, buf_map_tag, take_map, load_map, deserialize_map, read}

panic-ok : {A B : Type 0} (p : Panic) (a : A) → panic p ≡ ok a → B
panic-ok p a e = absurd cc

panic_if-ok :
    {A : Type 0} (c : Bool) (p : Panic) (f : Unit → Outcome A) (a : A)
    → (panic_if c p >>= f) ≡ ok a
    → (c ≡ false) × (f tt ≡ ok a)
panic_if-ok true p f a e = cc
panic_if-ok false p f a e = (refl, e)

abbrev is_out : ℤ → Bool
is_out expected = ltb_ℤ expected (pos 0) || ltb_ℤ (pos buf_map_tag) expected

asked_tag :
    (expected : ℤ) (tag : ℕ)
    → is_out expected ≡ false
    → ltb buf_map_tag tag ≡ false
    → (if tag == to_byte expected then false else true) ≡ false
    → expected ≡ pos tag
asked_tag (pos n) tag valid low same = ground arith
asked_tag (negsuc n) tag valid low same = absurd (ground arith)

module _ (trees : Trees) (m : MsgpLib) where
  -- A buffer that starts with a tag byte above 2 makes DeserializeMap, and Read of a reader on it,
  -- end in a fault of the Go runtime and not in the panic for a tag byte, at each expected tag
  -- that is valid.
  pub tag_above_faults :
      (b rest : Bytes) (expected tag : ℕ)
      → b ≢ []
      → expected ≤ buf_map_tag
      → m.read_byte b ≡ some (tag, rest)
      → buf_map_tag < tag
      → (deserialize_map trees m (array_buffer b ∷ int64 (pos expected) ∷ []) ≡ panic runtime_error)
        × (read trees m (record { bz = b }) (int64 (pos expected) ∷ []) ≡ panic runtime_error)
  unfolding deserialize_map read take_map
  tag_above_faults [] rest expected tag filled valid found above = absurd (filled refl)
  tag_above_faults (c ∷ b) rest expected tag filled valid found above = (ground arith, ground arith)

  loaded-made :
      {A : Type 0} (make : A → MapValue trees m) (r : Option (A × Bytes)) (v : MapValue trees m)
      (rest : Bytes)
      → loaded trees m make r ≡ ok (v, rest)
      → (o : A) × (make o ≡ v)
  loaded-made make none v rest e = cc
  loaded-made make (some (o, b)) v rest e = (o, ap (λ p. p.0) (ap (from_ok (v, rest)) e))

  load_map-tag :
      (tag : ℕ) (b : Bytes) (v : MapValue trees m) (rest : Bytes)
      → tag ≤ buf_map_tag
      → load_map trees m tag b ≡ ok (v, rest)
      → tag_of trees m v ≡ tag
  unfolding load_map tag_of
  load_map-tag zero b v rest h e =
      let (o, made) = loaded-made int_map _ v rest e in ap (tag_of trees m) (sym made)
  load_map-tag (suc zero) b v rest h e =
      let (o, made) = loaded-made str_map _ v rest e in ap (tag_of trees m) (sym made)
  load_map-tag (suc (suc zero)) b v rest h e =
      let (o, made) = loaded-made buf_map _ v rest e in ap (tag_of trees m) (sym made)
  load_map-tag (suc (suc (suc tag))) b v rest h e = absurd (omega arith)

  -- What follows the read of a tag byte.
  abbrev checked : ℤ → ℕ → Bytes → Outcome (MapValue trees m × Bytes)
  checked expected tag behind = do
    panic_if (ltb buf_map_tag tag) runtime_error
    panic_if (if tag == to_byte expected then false else true) tag_mismatch
    load_map trees m tag behind

  -- A read of a tag byte that gives a map has read the expected tag.
  take_map-tag :
      (b rest : Bytes) (expected : ℤ) (v : MapValue trees m)
      → take_map trees m expected b ≡ ok (v, rest)
      → (tag : ℕ) × (behind : Bytes) × (expected ≡ pos tag)
        × (tag ≤ buf_map_tag)
        × (m.read_byte b ≡ some (tag, behind))
        × (load_map trees m tag behind ≡ ok (v, rest))
  unfolding take_map
  take_map-tag b rest expected v e = elim (Option-cases (m.read_byte b)) [
    | inl missing ↦
        let refused : (panic_if (is_out expected) invalid_map_tag >> panic tag_byte_error)
            ≡ ok (v, rest) =
          rw missing at e in
        panic-ok tag_byte_error (v, rest)
          (panic_if-ok (is_out expected) invalid_map_tag _ (v, rest) refused).1
    | inr ((tag, behind), found) ↦
        let accepted : (panic_if (is_out expected) invalid_map_tag >> checked expected tag behind)
            ≡ ok (v, rest) =
          rw found at e in
        let (valid, opened) = panic_if-ok (is_out expected) invalid_map_tag _ (v, rest) accepted in
        let (low, compared) = panic_if-ok (ltb buf_map_tag tag) runtime_error _ (v, rest) opened in
        let (same, made) =
          panic_if-ok (if tag == to_byte expected then false else true) tag_mismatch _ (v, rest)
            compared in
        (tag, behind, asked_tag expected tag valid low same, ground (arith, low), found, made)
  ]

  -- DeserializeMap returns a map only of the kind that was asked for: the expected tag is the first
  -- byte read, and it is the tag of the returned map.
  pub deserialize_map-tag :
      (b rest : Bytes) (expected : ℤ) (v : MapValue trees m)
      → deserialize_map trees m (array_buffer b ∷ int64 expected ∷ []) ≡ ok (v, rest)
      → (expected ≡ pos (tag_of trees m v))
        × ((behind : Bytes) × (m.read_byte b ≡ some (tag_of trees m v, behind)))
  unfolding deserialize_map
  deserialize_map-tag [] rest expected v e = absurd cc
  deserialize_map-tag (c ∷ b) rest expected v e =
      let filled : (length (c ∷ b) == 0) ≡ false = ground arith in
      let taken : take_map trees m expected (c ∷ b) ≡ ok (v, rest) = rw filled at e in
      let (tag, behind, asked, valid, found, made) = take_map-tag (c ∷ b) rest expected v taken in
      let same : tag_of trees m v ≡ tag = load_map-tag tag behind v rest valid made in
      (asked ∙ ap pos (sym same), (behind, found ∙ ap (λ t. some (t, behind)) (sym same)))
