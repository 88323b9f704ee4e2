-- ===== src/KeyGrantor/Derive.antt =====
-- DeriveKey of keygrantor/keygrantor.go ends, with a key or with a panic.
use egvm.Prelude.{
  ℕ, zero, suc, ◌+◌, ◌*◌, ◌/◌, ◌%◌, ◌^◌, ◌<◌, ◌≡◌, refl, ap, ◌∙◌, Option, inl, inr, none, some,
  List, [], ◌∷◌, Option-cases, arith,
}
use egvm.Bytes.{Bytes}
use egvm.Word.{from_be}
use egvm.KeyGrantor.{
  KeyLib, Derived, reached, nil_dereference, index_at, retry, derive_loop, derive_key,
}
use egvm.KeyGrantor.Path.{path, path_of}

-- A key that may be missing, where a missing one is the end of the program.
abbrev pub reached_or_panic {ℓ} : {A : Type ℓ} → Option A → Derived A
reached_or_panic none = nil_dereference
reached_or_panic (some a) = reached a

module _ (lib : KeyLib) where
  open lib use {Key, new_child_key}

  -- The children along a path of indices, as long as there are any.
  unfoldable pub descendant : Key → List ℕ → Option Key
  descendant key [] = some key
  descendant key (m ∷ ms) = elim (new_child_key key m) [
    | none ↦ none
    | some child ↦ descendant child ms
  ]

  one_round :
      (fuel i : ℕ) (key : Key) (m unit : ℕ)
      → m < 2 ^ 31
      → retry lib (suc (suc fuel)) i (some key) m 0 unit
        ≡ (elim (new_child_key key m) [ none ↦ nil_dereference | some child ↦ reached (child, 0) ])
  unfolding retry
  one_round fuel i key m unit lt =
      let same : index_at i m 0 ≡ m = unfold index_at in ground arith in
      elim (Option-cases (new_child_key key m)) [
        | inl missing ↦ rw (ap (new_child_key key) same ∙ missing, missing, retry) refl
        | inr (child, taken) ↦ rw (ap (new_child_key key) same ∙ taken, taken, retry) refl
      ]

  derive_loop-descendant :
      (fuel left i : ℕ) (key : Key) (n unit : ℕ)
      → derive_loop lib (suc (suc fuel)) left i key n 0 unit
        ≡ reached_or_panic (descendant key (path left n))
  unfolding derive_loop descendant path
  derive_loop-descendant fuel zero i key n unit = refl
  derive_loop-descendant fuel (suc left) i key n unit =
      let first = one_round fuel i key (n % 2 ^ 31) unit (omega arith) in
      elim (Option-cases (new_child_key key (n % 2 ^ 31))) [
        | inl missing ↦ rw (first, missing, derive_loop) refl
        | inr (child, taken) ↦
            rw (first, taken, derive_loop)
              (derive_loop-descendant fuel left (i + 1) child (n / 2 ^ 31) (unit * 8 % 2 ^ 32))
      ]

  -- DeriveKey always ends, with at most two rounds at each depth, whatever the key and the hash: if
  -- each of the nine derivations along the path of the hash succeeds, it returns their last key, and
  -- at the first that fails it panics, because the retry calls a method of the nil key.
  pub derive_key-descendant :
      (fuel : ℕ) (key : Key) (hash : Bytes)
      → derive_key lib (suc (suc fuel)) key hash ≡ reached_or_panic (descendant key (path_of hash))
  unfolding derive_key
  derive_key-descendant fuel key hash = derive_loop-descendant fuel 9 0 key (from_be 0 hash) (2 ^ 8)
