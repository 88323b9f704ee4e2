-- ===== src/Bip32Key.antt =====
-- script/extension/bip32key.go: the extended keys of the scripts. The keys themselves come from
-- the package go-bip32, and the private keys of ToPrivateKey from ecies; neither is part of the
-- repository, and both are parameters. Random keys are left out.
pub mod Chains
use egvm.Prelude.{
  ℕ, ◌+◌, ◌-◌, ◌^◌, ◌≡◌, Bool, Option, none, some, not, List, [], ◌∷◌, ◌++◌, length, take,
  replicate, ◌==◌, ltb, if◌then◌else◌, pos, negsuc,
}
use egvm.Outcome.{
  Outcome, ok, panic, panic_if, outcome_of, ◌>>=◌, ◌>>◌, incorrect_argument_count,
  error_in_bip32_key, error_in_new_child_key, error_in_derive, not_uint32, not_private,
  runtime_error,
}
use egvm.Bytes.{Bytes}
use egvm.Goja.{Value, int64, get_one_array_buffer}
use egvm.KeyGrantor.{KeyLib, Derived, reached, nil_dereference, out_of_fuel, derive_key}

-- The rest of (*bip32.Key): an error is `none`.
pub record Bip32Lib : Type 1 where
  pub keys : KeyLib
  pub b58_deserialize : Bytes → Option keys.Key
  pub b58_serialize : keys.Key → Bytes
  pub deserialize : Bytes → Option keys.Key
  pub serialize : keys.Key → Bytes
  pub public_key : keys.Key → keys.Key
  pub is_private : keys.Key → Bool
  -- ecies.NewPrivateKeyFromBytes of the field Key
  pub PrivateKey : Type 0
  pub private_key : keys.Key → PrivateKey

-- Bip32Key
pub record Bip32Key (lib : Bip32Lib) : Type 0 where
  pub key : lib.keys.Key

-- arg.Export().(int64), where it is a uint32.
unfoldable pub uint32_of : Value → Option ℕ
uint32_of (int64 (pos n)) = if ltb (2 ^ 32 - 1) n then none else some n
uint32_of _ = none

-- copy(hash[:], bz), of a fresh array of 32 bytes.
unfoldable pub copy_32 : Bytes → Bytes
copy_32 bz = take 32 bz ++ replicate (32 - length bz) 0

-- A key that DeriveKey returns. With two rounds of fuel or more it is never out of fuel.
abbrev key_or_panic {ℓ} : {A : Type ℓ} → Derived A → Outcome A
key_or_panic (reached a) = ok a
key_or_panic nil_dereference = panic runtime_error
key_or_panic out_of_fuel = panic runtime_error

module _ (lib : Bip32Lib) where
  -- NewBip32Key
  unfoldable pub new_bip32_key : lib.keys.Key → Bip32Key lib
  new_bip32_key k = record { key = k }

  -- B58ToBip32Key
  unfoldable pub b58_to_bip32_key : Bytes → Outcome (Bip32Key lib)
  unfolding new_bip32_key
  b58_to_bip32_key text = do
    k ← outcome_of error_in_bip32_key (lib.b58_deserialize text)
    ok (new_bip32_key k)

  -- BufToBip32Key
  unfoldable pub buf_to_bip32_key : List Value → Outcome (Bip32Key lib)
  unfolding new_bip32_key
  buf_to_bip32_key args = do
    buf ← get_one_array_buffer args
    k ← outcome_of error_in_bip32_key (lib.deserialize buf)
    ok (new_bip32_key k)

  -- B58Serialize
  unfoldable pub b58_serialize : Bip32Key lib → Bytes
  b58_serialize k = lib.b58_serialize k.key

  -- NewChildKey
  unfoldable pub new_child_key : Bip32Key lib → ℕ → Outcome (Bip32Key lib)
  unfolding new_bip32_key
  new_child_key k i = do
    child ← outcome_of error_in_new_child_key (lib.keys.new_child_key k.key i)
    ok (new_bip32_key child)

  -- PublicKey
  unfoldable pub public_key : Bip32Key lib → Bip32Key lib
  unfolding new_bip32_key
  public_key k = new_bip32_key (lib.public_key k.key)

  -- Serialize: the arguments are not looked at, and the error is dropped
  unfoldable pub serialize : Bip32Key lib → List Value → Bytes
  serialize k args = lib.serialize k.key

  -- IsPrivate
  unfoldable pub is_private : Bip32Key lib → Bool
  is_private k = lib.is_private k.key

  -- ToPrivateKey
  unfoldable pub to_private_key : Bip32Key lib → Outcome lib.PrivateKey
  unfolding is_private
  to_private_key k = do panic_if (not (is_private k)) not_private; ok (lib.private_key k.key)

  -- DeriveWithBytes32, with the fuel of DeriveKey
  unfoldable pub derive_with_bytes32 : ℕ → Bip32Key lib → List Value → Outcome (Bip32Key lib)
  unfolding copy_32 new_bip32_key
  derive_with_bytes32 fuel k args = do
    bz ← get_one_array_buffer args
    derived ← key_or_panic (derive_key lib.keys fuel k.key (copy_32 bz))
    ok (new_bip32_key derived)

  -- The loop of Derive: a child for each argument.
  unfoldable pub derive_children : lib.keys.Key → List Value → Outcome lib.keys.Key
  unfolding uint32_of
  derive_children child [] = ok child
  derive_children child (arg ∷ args) = do
    n ← outcome_of not_uint32 (uint32_of arg)
    next ← outcome_of error_in_derive (lib.keys.new_child_key child n)
    derive_children next args

  -- Derive: a path of BIP-44
  unfoldable pub derive : Bip32Key lib → List Value → Outcome (Bip32Key lib)
  unfolding derive_children new_bip32_key
  derive k args = do
    panic_if (not (length args == 5)) incorrect_argument_count
    child ← derive_children k.key args
    ok (new_bip32_key child)
