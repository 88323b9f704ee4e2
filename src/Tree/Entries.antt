-- ===== src/Tree/Entries.antt =====
-- Laws of the ascending lists of entries.
use egvm.Prelude.{
  ◌≡◌, ◌≢◌, refl, sym, ap, true, false, Bool-cases, none, some, List, [], ◌∷◌, ◌++◌, arith, inl,
  inr, subst, if◌then◌else◌,
}
use egvm.Bytes.{
  Bytes, equal_bytes, is_less, equal_bytes_refl, equal_bytes_sound, is_less_trans, is_less_irrefl,
  is_less_asymm, is_less_connex,
}
use egvm.Tree.{lookup_key, insert_key, remove_key, AllAbove, IsAscending}

pub not_equal : (j k : Bytes) → j ≢ k → equal_bytes j k ≡ false
not_equal j k h = elim (Bool-cases (equal_bytes j k)) [
  | inl e ↦ absurd (h (equal_bytes_sound j k e))
  | inr e ↦ e
]

ne_of_less : (j k : Bytes) → is_less j k ≡ true → j ≢ k
ne_of_less j k h e = cc (subst (λ i. is_less j i ≡ true) (sym e) h, is_less_irrefl j)

less_of_not : (j k : Bytes) → equal_bytes j k ≡ false → is_less k j ≡ false → is_less j k ≡ true
less_of_not j k other above = elim (Bool-cases (is_less j k)) [
  | inl e ↦ e
  | inr e ↦ cc (
    subst (λ i. equal_bytes j i ≡ false) (sym (is_less_connex j k e above)) other,
    equal_bytes_refl j,
  )
]

module _ {V : Type 0} where
  pub AllAbove-trans :
      (k j : Bytes) (es : List (Bytes × V)) → is_less k j ≡ true → AllAbove j es → AllAbove k es
  AllAbove-trans k j [] h a = tt
  AllAbove-trans k j ((i, u) ∷ es) h a = (is_less_trans k j i h a.0, AllAbove-trans k j es h a.1)

  pub AllAbove-insert_key :
      (i k : Bytes) (v : V) (es : List (Bytes × V))
      → is_less i k ≡ true
      → AllAbove i es
      → AllAbove i (insert_key k v es)
  unfolding insert_key
  AllAbove-insert_key i k v [] h a = (h, tt)
  AllAbove-insert_key i k v ((j, u) ∷ es) h a = ground (arith, AllAbove-insert_key i k v es h a.1)

  pub IsAscending-insert_key :
      (k : Bytes) (v : V) (es : List (Bytes × V)) → IsAscending es → IsAscending (insert_key k v es)
  unfolding insert_key
  IsAscending-insert_key k v [] a = (tt, tt)
  IsAscending-insert_key k v ((j, u) ∷ es) a = elim (Bool-cases (equal_bytes j k)) [
    | inl same ↦ rw same (subst (λ i. AllAbove i es) (equal_bytes_sound j k same) a.0, a.1)
    | inr other ↦ rw other (elim (Bool-cases (is_less k j)) [
      | inl below ↦ rw below ((below, AllAbove-trans k j es below a.0), a)
      | inr above ↦ rw above (
        AllAbove-insert_key j k v es (less_of_not j k other above) a.0,
        IsAscending-insert_key k v es a.1,
      )
    ])
  ]

  pub AllAbove-remove_key :
      (i k : Bytes) (es : List (Bytes × V)) → AllAbove i es → AllAbove i (remove_key k es)
  unfolding remove_key
  AllAbove-remove_key i k [] a = tt
  AllAbove-remove_key i k ((j, u) ∷ es) a = elim (Bool-cases (equal_bytes j k)) [
    | inl same ↦ rw same a.1
    | inr other ↦ rw other (a.0, AllAbove-remove_key i k es a.1)
  ]

  pub IsAscending-remove_key :
      (k : Bytes) (es : List (Bytes × V)) → IsAscending es → IsAscending (remove_key k es)
  unfolding remove_key
  IsAscending-remove_key k [] a = tt
  IsAscending-remove_key k ((j, u) ∷ es) a = elim (Bool-cases (equal_bytes j k)) [
    | inl same ↦ rw same a.1
    | inr other ↦ rw other (AllAbove-remove_key j k es a.0, IsAscending-remove_key k es a.1)
  ]

  -- A key below every key of the list is not in it.
  pub lookup_key-above :
      (k : Bytes) (es : List (Bytes × V)) → AllAbove k es → lookup_key k es ≡ none
  unfolding lookup_key
  lookup_key-above k [] a = refl
  lookup_key-above k ((j, u) ∷ es) a =
      rw (not_equal j k (λ e. ne_of_less k j a.0 (sym e))) (lookup_key-above k es a.1)

  pub lookup_key-insert_key :
      (k i : Bytes) (v : V) (es : List (Bytes × V))
      → lookup_key i (insert_key k v es) ≡ (if equal_bytes k i then some v else lookup_key i es)
  unfolding lookup_key insert_key
  lookup_key-insert_key k i v [] = refl
  lookup_key-insert_key k i v ((j, u) ∷ es) = ground (
    arith,
    lookup_key-insert_key k i v es,
    equal_bytes_sound j k,
    equal_bytes_sound k i,
    equal_bytes_sound j i,
    equal_bytes_refl i,
    equal_bytes_refl k,
  )

  pub lookup_key-remove_key :
      (k i : Bytes) (es : List (Bytes × V))
      → IsAscending es
      → lookup_key i (remove_key k es) ≡ (if equal_bytes k i then none else lookup_key i es)
  unfolding lookup_key remove_key
  lookup_key-remove_key k i [] a = ground arith
  lookup_key-remove_key k i ((j, u) ∷ es) a = ground (
    arith,
    lookup_key-remove_key k i es a.1,
    lookup_key-above j es a.0,
    equal_bytes_sound j k,
    equal_bytes_sound k i,
    equal_bytes_sound j i,
    equal_bytes_refl i,
    equal_bytes_refl k,
  )

  -- A key above all others goes to the end.
  abbrev pub AllBelow : Bytes → List (Bytes × V) → Type 0
  AllBelow k [] = Unit
  AllBelow k ((j, u) ∷ es) = (is_less j k ≡ true) × AllBelow k es

  pub insert_key-last :
      (k : Bytes) (v : V) (es : List (Bytes × V))
      → AllBelow k es
      → insert_key k v es ≡ es ++ ((k, v) ∷ [])
  unfolding insert_key
  insert_key-last k v [] a = refl
  insert_key-last k v ((j, u) ∷ es) a =
      rw (not_equal j k (ne_of_less j k a.0), is_less_asymm j k a.0)
        (ap (λ l. (j, u) ∷ l) (insert_key-last k v es a.1))

  pub AllBelow-append :
      (k : Bytes) (es fs : List (Bytes × V)) → AllBelow k es → AllBelow k fs → AllBelow k (es ++ fs)
  AllBelow-append k [] fs a b = b
  AllBelow-append k (e ∷ es) fs a b = (a.0, AllBelow-append k es fs a.1 b)
