-- ===== src/Bip32Key/Chains.antt =====
-- Which arguments Derive and DeriveWithBytes32 of script/extension/bip32key.go accept, and the
-- keys they lead to.
use mathlib.Core.List.{map}
use egvm.Prelude.{
  ℕ, ◌^◌, ◌<◌, ◌≡◌, ◌↔◌, refl, sym, ap, ◌∙◌, subst, Option, none, some, not, List, [], ◌∷◌, length,
  ◌==◌, arith, All, pos, negsuc, suc,
}
use egvm.Outcome.{
  Outcome, ok, panic_if, outcome_of, map_ok, ◌>>=◌, >>=-eq-ok, incorrect_argument_count,
  error_in_new_child_key, error_in_derive, not_uint32,
}
use egvm.Goja.{Value, string, int64, array_buffer, uint256, other}
use egvm.Bip32Key.{
  Bip32Lib, Bip32Key, uint32_of, new_bip32_key, new_child_key, derive_children, derive,
}

uint32_of-some : (v : Value) (n : ℕ) → uint32_of v ≡ some n → (v ≡ int64 (pos n)) × (n < 2 ^ 32)
unfolding uint32_of
uint32_of-some (int64 (pos m)) n e = ground (arith, e)
uint32_of-some (int64 (negsuc m)) n e = cc
uint32_of-some (string s) n e = cc
uint32_of-some (array_buffer s) n e = cc
uint32_of-some (uint256 s) n e = cc
uint32_of-some other n e = cc

uint32_of-int64 : (n : ℕ) → n < 2 ^ 32 → uint32_of (int64 (pos n)) ≡ some n
unfolding uint32_of
uint32_of-int64 n h = ground arith

outcome_of-eq-ok : {A : Type 0} (p : _) (o : Option A) (a : A) → outcome_of p o ≡ ok a → o ≡ some a
outcome_of-eq-ok p none a e = cc
outcome_of-eq-ok p (some b) a e = cc

five_accepted :
    {u : Unit {0}} (n : ℕ) → panic_if (not (n == 5)) incorrect_argument_count ≡ ok u → n ≡ 5
five_accepted n e = ground (arith, e)

module _ (lib : Bip32Lib) where
  -- The key that the method NewChildKey leads to along a path of indices.
  unfoldable pub follow : Bip32Key lib → List ℕ → Outcome (Bip32Key lib)
  follow k [] = ok k
  follow k (i ∷ path) = do child ← new_child_key lib k i; follow child path

  abbrev pub arguments : List ℕ → List Value
  arguments path = map (λ n. int64 (pos n)) path

  children_follow :
      (key child : lib.keys.Key) (args : List Value)
      → derive_children lib key args ≡ ok child
      → (path : List ℕ) × (args ≡ arguments path)
        × All (λ i. i < 2 ^ 32) path
        × (follow (new_bip32_key lib key) path ≡ ok (new_bip32_key lib child))
  unfolding derive_children follow new_child_key new_bip32_key
  children_follow key child [] e = ([], refl, tt, ap (λ o. map_ok (new_bip32_key lib) o) e)
  children_follow key child (arg ∷ args) e =
      let (n, index, e₁) = >>=-eq-ok (outcome_of not_uint32 (uint32_of arg)) e in
      let (next, made, e₂) =
        >>=-eq-ok (outcome_of error_in_derive (lib.keys.new_child_key key n)) e₁ in
      let (path, same, small, followed) = children_follow next child args e₂ in
      let (value, fits) = uint32_of-some arg n (outcome_of-eq-ok _ _ n index) in
      (n ∷ path, cc (value, same), (fits, small), rw (outcome_of-eq-ok _ _ next made) followed)

  follow_children :
      (key child : lib.keys.Key) (path : List ℕ)
      → All (λ i. i < 2 ^ 32) path
      → follow (new_bip32_key lib key) path ≡ ok (new_bip32_key lib child)
      → derive_children lib key (arguments path) ≡ ok child
  unfolding derive_children follow new_child_key new_bip32_key
  follow_children key child [] h e = ap (map_ok (λ (k : Bip32Key lib). k.key)) e
  follow_children key child (i ∷ path) h e =
      let (next, made, e₁) = >>=-eq-ok (new_child_key lib (new_bip32_key lib key) i) e in
      let (k, found, e₂) =
        >>=-eq-ok (outcome_of error_in_new_child_key (lib.keys.new_child_key key i)) made in
      let same : next ≡ new_bip32_key lib k = cc e₂ in
      rw (uint32_of-int64 i h.0, outcome_of-eq-ok _ _ k found)
        (follow_children k child path h.1
          (subst (λ n. follow n path ≡ ok (new_bip32_key lib child)) same e₁))

  length-arguments : (path : List ℕ) → length (arguments path) ≡ length path
  length-arguments [] = refl
  length-arguments (i ∷ path) = ap suc (length-arguments path)

  -- `Derive` returns a key exactly for five arguments that are all int64 from 0 to 2 ^ 32 - 1, where
  -- the method `NewChildKey` succeeds at each of them in turn, and returns the key that it ends with.
  pub derive_iff :
      (k r : Bip32Key lib) (args : List Value)
      → (derive lib k args ≡ ok r) ↔ (
          (path : List ℕ) × (args ≡ arguments path)
          × (length path ≡ 5)
          × All (λ i. i < 2 ^ 32) path
          × (follow k path ≡ ok r))
  unfolding derive new_bip32_key
  derive_iff k r args = (
    λ e.
        let (_, sized, e₁) =
          >>=-eq-ok (panic_if (not (length args == 5)) incorrect_argument_count) e in
        let (child, made, e₂) = >>=-eq-ok (derive_children lib k.key args) e₁ in
        let (path, same, small, followed) = children_follow k.key child args made in
        (
          path,
          same,
          (sym (length-arguments path) ∙ ap length (sym same) ∙ five_accepted _ sized),
          small,
          followed ∙ e₂,
        ),
    λ (path, same, sized, small, followed).
        rw (same, length-arguments path, sized, follow_children k.key r.key path small followed)
          refl,
  )
