-- ===== src/Randomness.antt =====
-- keygrantor/keygrantor.go: random bytes from the processor, and the keys drawn from them. The
-- instruction and the packages of the keys are parameters. The loops that the source leaves only
-- with a key have fuel: `none` means that it ran out.
pub mod Failing
use egvm.Prelude.{
  ℕ, zero, suc, ◌+◌, ◌%◌, Bool, Option, none, some, List, [], ◌∷◌, length, ltb, ◌==◌, ◌&&◌, not,
  if◌then◌else◌,
}
use egvm.Bytes.{Bytes}
use egvm.Word.{from_be}

-- C.rdrand16 with a retry, by the number of the call: the 16 bits, or DRNG_NOT_READY, where the
-- instruction has left a zero in the variable.
pub record RandomLib : Type 1 where
  pub rdrand16 : ℕ → Option ℕ
  -- bip32.NewMasterKey and ecies.NewPrivateKeyFromBytes, and the order of secp256k1
  pub Key : Type 0
  pub new_master_key : Bytes → Option Key
  pub PrivateKey : Type 0
  pub new_private_key_from_bytes : Bytes → PrivateKey
  pub curve_order : ℕ

-- What the variable holds after the call: its result is not looked at.
abbrev pub drawn : Option ℕ → ℕ
drawn none = 0
drawn (some x) = x

-- IsValidPrivateKey
unfoldable pub is_valid_private_key : ℕ → Bytes → Bool
is_valid_private_key curve_order key =
    let k = from_be 0 key in length key == 32 && not (k == 0) && ltb k curve_order

module _ (lib : RandomLib) where
  -- GenerateRandomBytes, from the call number `call` on
  unfoldable pub generate_random_bytes : ℕ → ℕ → Bytes
  generate_random_bytes call zero = []
  generate_random_bytes call (suc count) =
      (drawn (lib.rdrand16 call) % 256) ∷ generate_random_bytes (call + 1) count

  -- GetRandomExtPrivKey
  unfoldable pub get_random_ext_priv_key : ℕ → ℕ → Option lib.Key
  unfolding generate_random_bytes
  get_random_ext_priv_key zero call = none
  get_random_ext_priv_key (suc fuel) call =
      elim (lib.new_master_key (generate_random_bytes call 64)) [
        | some key ↦ some key
        | none ↦ get_random_ext_priv_key fuel (call + 64)
      ]

  -- GenerateEciesPrivateKey
  unfoldable pub generate_ecies_private_key : ℕ → ℕ → Option lib.PrivateKey
  unfolding generate_random_bytes is_valid_private_key
  generate_ecies_private_key zero call = none
  generate_ecies_private_key (suc fuel) call =
      let bz = generate_random_bytes call 32 in
      let again = generate_ecies_private_key fuel (call + 32) in
      if is_valid_private_key lib.curve_order bz
      then some (lib.new_private_key_from_bytes bz)
      else again
