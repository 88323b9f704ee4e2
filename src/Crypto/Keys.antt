-- ===== src/Crypto/Keys.antt =====
-- script/extension/crypto.go: the other methods of PrivateKey and PublicKey. go-ethereum, bchutil
-- and go-ecvrf are parameters.
use egvm.Prelude.{ℕ, Bool, true, false, Option, List, [], ◌∷◌}
use egvm.Outcome.{
  Outcome, ok, panic, ◌>>=◌, outcome_of, incorrect_argument_count, not_public_key, not_private_key,
  error_in_ecdh, error_in_encapsulate, error_in_decapsulate, error_in_sign, error_in_vrf_prove,
  error_in_vrf_verify,
}
use egvm.Bytes.{Bytes}
use egvm.Goja.{Value, get_one_array_buffer, get_two_array_buffers}
use egvm.Crypto.{EciesLib, unwrap}

-- An argument that may hold a key: by the Go value that Export gives.
pub data KeyValue (lib : EciesLib) : Type 0 where
  public : lib.PublicKey → KeyValue lib
  private : lib.PrivateKey → KeyValue lib
  plain : Value → KeyValue lib

abbrev pub no_arguments {ℓ} : {A : Type ℓ} → List Value → Outcome A → Outcome A
no_arguments [] later = later
no_arguments (v ∷ vs) later = panic incorrect_argument_count

-- The packages that take keys in the form of crypto/ecdsa.
pub record EcdsaLib (lib : EciesLib) : Type 1 where
  pub Curve : Type 0
  -- The fields Curve, X and Y of an ecies.PublicKey, whose pointer can be nil
  pub point : lib.PublicKey → Outcome (Curve × ℕ × ℕ)
  -- gethcrypto.Sign and PubkeyToAddress, bchutil.Hash160
  pub sign : Bytes → ℕ × (Curve × ℕ × ℕ) → Option Bytes
  pub pubkey_to_address : Curve × ℕ × ℕ → Bytes
  pub hash160 : Bytes → Bytes
  -- ecvrf.Secp256k1Sha256Tai.Prove, with beta and pi, and Verify
  pub vrf_prove : ℕ × (Curve × ℕ × ℕ) → Bytes → Option (Bytes × Bytes)
  pub vrf_verify : Curve × ℕ × ℕ → Bytes → Bytes → Option Bytes
  -- Equals and Hex of the keys, whose pointers can be nil
  pub private_equals : lib.PrivateKey → lib.PrivateKey → Outcome Bool
  pub public_equals : lib.PublicKey → lib.PublicKey → Outcome Bool
  pub private_hex : lib.PrivateKey → Outcome Bytes
  pub public_hex : lib.PublicKey → Bool → Outcome Bytes
  pub private_bytes : lib.PrivateKey → Outcome Bytes

module _ (lib : EciesLib) (ecdsa : EcdsaLib lib) where
  -- BufToPrivateKey
  unfoldable pub buf_to_private_key : Bytes → lib.PrivateKey
  buf_to_private_key buf = lib.new_private_key_from_bytes buf

  -- BufToPublicKey: the error is dropped
  unfoldable pub buf_to_public_key : Bytes → lib.PublicKey
  buf_to_public_key buf = (lib.new_public_key_from_bytes buf).0

  -- PrivateKey.GetPublicKey
  unfoldable pub get_public_key : lib.PrivateKey → lib.PublicKey
  get_public_key prv = lib.public_key prv

  -- One argument that must be a public key, or a private key.
  abbrev pub one_public : List (KeyValue lib) → Outcome lib.PublicKey
  one_public (public k ∷ []) = ok k
  one_public (v ∷ []) = panic not_public_key
  one_public _ = panic incorrect_argument_count

  abbrev pub one_private : List (KeyValue lib) → Outcome lib.PrivateKey
  one_private (private k ∷ []) = ok k
  one_private (v ∷ []) = panic not_private_key
  one_private _ = panic incorrect_argument_count

  -- PrivateKey.ECDH
  unfoldable pub ecdh : lib.PrivateKey → List (KeyValue lib) → Outcome Bytes
  ecdh prv args = do pub_key ← one_public args; unwrap error_in_ecdh (lib.ecdh prv pub_key)

  -- PrivateKey.Encapsulate
  unfoldable pub encapsulate : lib.PrivateKey → List (KeyValue lib) → Outcome Bytes
  encapsulate prv args = do
    pub_key ← one_public args
    unwrap error_in_encapsulate (lib.encapsulate prv pub_key)

  -- PublicKey.Decapsulate
  unfoldable pub decapsulate : lib.PublicKey → List (KeyValue lib) → Outcome Bytes
  decapsulate pub_key args = do
    prv ← one_private args
    unwrap error_in_decapsulate (lib.decapsulate pub_key prv)

  -- toECDSA of a private and of a public key
  unfoldable pub private_to_ecdsa : lib.PrivateKey → Outcome (ℕ × (ecdsa.Curve × ℕ × ℕ))
  private_to_ecdsa prv = do
    point ← ecdsa.point (lib.public_key prv)
    ok (lib.secret_number prv, point)

  unfoldable pub public_to_ecdsa : lib.PublicKey → Outcome (ecdsa.Curve × ℕ × ℕ)
  public_to_ecdsa pub_key = ecdsa.point pub_key

  -- PrivateKey.Sign
  unfoldable pub sign : lib.PrivateKey → List Value → Outcome Bytes
  unfolding private_to_ecdsa
  sign prv args = do
    msg ← get_one_array_buffer args
    ecdsa_prv ← private_to_ecdsa prv
    outcome_of error_in_sign (ecdsa.sign msg ecdsa_prv)

  -- PrivateKey.Equal, PrivateKey.Hex, PublicKey.Equal and PublicKey.Hex
  unfoldable pub private_equal : lib.PrivateKey → lib.PrivateKey → Outcome Bool
  private_equal prv other = ecdsa.private_equals prv other

  unfoldable pub private_hex : lib.PrivateKey → Outcome Bytes
  private_hex prv = ecdsa.private_hex prv

  unfoldable pub public_equal : lib.PublicKey → lib.PublicKey → Outcome Bool
  public_equal pub_key other = ecdsa.public_equals pub_key other

  unfoldable pub public_hex : lib.PublicKey → Bool → Outcome Bytes
  public_hex pub_key compressed = ecdsa.public_hex pub_key compressed

  -- PrivateKey.Serialize
  unfoldable pub serialize : lib.PrivateKey → List Value → Outcome Bytes
  serialize prv args = no_arguments args (ecdsa.private_bytes prv)

  -- PublicKey.toBuf, SerializeCompressed and SerializeUncompressed
  unfoldable pub to_buf : lib.PublicKey → List Value → Bool → Outcome Bytes
  to_buf pub_key args compressed = no_arguments args (lib.public_bytes pub_key compressed)

  unfoldable pub serialize_compressed : lib.PublicKey → List Value → Outcome Bytes
  unfolding to_buf
  serialize_compressed pub_key args = to_buf pub_key args true

  unfoldable pub serialize_uncompressed : lib.PublicKey → List Value → Outcome Bytes
  unfolding to_buf
  serialize_uncompressed pub_key args = to_buf pub_key args false

  -- PublicKey.ToEvmAddress
  unfoldable pub to_evm_address : lib.PublicKey → List Value → Outcome Bytes
  unfolding public_to_ecdsa
  to_evm_address pub_key args =
      no_arguments args (do key ← public_to_ecdsa pub_key; ok (ecdsa.pubkey_to_address key))

  -- PublicKey.ToCashAddress
  unfoldable pub to_cash_address : lib.PublicKey → List Value → Outcome Bytes
  to_cash_address pub_key args =
      no_arguments args (do bz ← lib.public_bytes pub_key true; ok (ecdsa.hash160 bz))

  -- PrivateKey.VrfProve
  unfoldable pub vrf_prove : lib.PrivateKey → List Value → Outcome (Bytes × Bytes)
  unfolding private_to_ecdsa
  vrf_prove prv args = do
    alpha ← get_one_array_buffer args
    ecdsa_prv ← private_to_ecdsa prv
    outcome_of error_in_vrf_prove (ecdsa.vrf_prove ecdsa_prv alpha)

  -- PublicKey.VrfVerify
  unfoldable pub vrf_verify : lib.PublicKey → List Value → Outcome Bytes
  unfolding public_to_ecdsa
  vrf_verify pub_key args = do
    (alpha, proof) ← get_two_array_buffers args
    key ← public_to_ecdsa pub_key
    outcome_of error_in_vrf_verify (ecdsa.vrf_verify key alpha proof)
