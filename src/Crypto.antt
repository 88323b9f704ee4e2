-- ===== src/Crypto.antt =====
-- script/extension/crypto.go: AES-GCM, the keys of the scripts and their encryption. The ciphers
-- and the curves come from Go's packages crypto/aes and crypto/cipher and from ecies, go-ethereum,
-- bchutil and go-ecvrf, which are not part of the repository; they are parameters.
pub mod Keys
pub mod Signatures
pub mod RoundTrip
pub mod Reuse
use egvm.Prelude.{
  ℕ, ◌+◌, ◌-◌, ◌≡◌, Bool, true, false, Option, none, some, List, [], ◌∷◌, ◌++◌, length, take, drop,
  ltb, if◌then◌else◌,
}
use egvm.Outcome.{
  Outcome, ok, panic, ◌>>=◌, outcome_of, runtime_error, error_in_aes_gcm_encrypt, error_in_encrypt,
}
use egvm.Bytes.{Bytes}
use egvm.Goja.{Value, get_two_array_buffers, get_three_array_buffers, get_one_array_buffer}

-- crypto/cipher and crypto/aes: an error is `none`, and a nonce of another length than the cipher's
-- makes Seal and Open panic.
pub record AesLib : Type 1 where
  pub Block : Type 0
  pub Gcm : Type 0
  pub new_cipher : Bytes → Option Block
  pub new_gcm_with_nonce_size : Block → ℕ → Option Gcm
  pub seal : Gcm → Bytes → Bytes → Outcome Bytes
  pub open_sealed : Gcm → Bytes → Bytes → Outcome (Option Bytes)

-- ecies. The types are those of the Go pointers, which can be nil: a method of a nil pointer
-- panics, so that the methods have outcomes. An error is `none`.
pub record EciesLib : Type 1 where
  pub aes : AesLib
  pub sha256 : Bytes → Bytes
  pub PrivateKey : Type 0
  pub PublicKey : Type 0
  pub new_private_key_from_bytes : Bytes → PrivateKey
  -- The pointer, with whether the error is nil
  pub new_public_key_from_bytes : Bytes → PublicKey × Bool
  -- The fields D and PublicKey of a private key
  pub secret_number : PrivateKey → ℕ
  pub public_key : PrivateKey → PublicKey
  pub public_bytes : PublicKey → Bool → Outcome Bytes
  pub ecdh : PrivateKey → PublicKey → Outcome (Option Bytes)
  pub encapsulate : PrivateKey → PublicKey → Outcome (Option Bytes)
  pub decapsulate : PublicKey → PrivateKey → Outcome (Option Bytes)
  pub decrypt : PrivateKey → Bytes → Outcome (Option Bytes)

-- if err != nil { return nil, err }
abbrev pub or_error {ℓ κ} :
    {A : Type ℓ} {B : Type κ} → Option A → (A → Outcome (Option B)) → Outcome (Option B)
or_error none later = ok none
or_error (some a) later = later a

-- if err != nil { panic(...) }
abbrev pub unwrap {ℓ} : {A : Type ℓ} → egvm.Outcome.Panic → Outcome (Option A) → Outcome A
unwrap p call = call >>= outcome_of p

module _ (aes : AesLib) where
  -- aesgcmEncrypt
  unfoldable pub aesgcm_encrypt : Bytes → Bytes → Bytes → Outcome (Option Bytes)
  aesgcm_encrypt secret nonce msg = or_error (aes.new_cipher secret) λ block.
      or_error (aes.new_gcm_with_nonce_size block 16)
        λ aesgcm. do sealed ← aes.seal aesgcm nonce msg; ok (some sealed)

  -- aesgcmDecrypt
  unfoldable pub aesgcm_decrypt : Bytes → Bytes → Bytes → Outcome (Option Bytes)
  aesgcm_decrypt secret nonce ciphertext = or_error (aes.new_cipher secret) λ block.
      or_error (aes.new_gcm_with_nonce_size block 16) λ gcm. aes.open_sealed gcm nonce ciphertext

  -- AesGcmEncrypt
  unfoldable pub aes_gcm_encrypt : List Value → Outcome Bytes
  unfolding aesgcm_encrypt
  aes_gcm_encrypt args = do
    (secret, nonce, msg) ← get_three_array_buffers args
    unwrap error_in_aes_gcm_encrypt (aesgcm_encrypt secret nonce msg)

  -- AesGcmDecrypt: `none` is the pair of nil and false
  unfoldable pub aes_gcm_decrypt : List Value → Outcome (Option Bytes)
  unfolding aesgcm_decrypt
  aes_gcm_decrypt args = do
    (secret, nonce, ciphertext) ← get_three_array_buffers args
    aesgcm_decrypt secret nonce ciphertext

module _ (lib : EciesLib) where
  -- The ephemeral key of eciesEncrypt
  unfoldable pub ephemeral_key : Bytes → Bytes → lib.PrivateKey
  ephemeral_key msg entropy = lib.new_private_key_from_bytes (lib.sha256 (entropy ++ msg))

  -- nonce := h.Sum(entropy)[:16]
  unfoldable pub nonce_of : Bytes → Bytes → Bytes
  nonce_of msg entropy = take 16 (entropy ++ lib.sha256 (entropy ++ msg))

  -- The buffer that is returned: the key, the nonce, the tag at the end of the sealed bytes, and
  -- the bytes before the tag.
  unfoldable pub laid_out : Bytes → Bytes → Bytes → Outcome (Option Bytes)
  laid_out ek_bytes nonce sealed =
      let split = length sealed - 16 in
      if ltb (length sealed) 16
      then panic runtime_error
      else ok (some (ek_bytes ++ (nonce ++ (drop split sealed ++ take split sealed))))

  -- eciesEncrypt
  unfoldable pub ecies_encrypt : lib.PublicKey → Bytes → Bytes → Outcome (Option Bytes)
  unfolding ephemeral_key nonce_of laid_out aesgcm_encrypt
  ecies_encrypt pubkey msg entropy = do
    let ek = ephemeral_key msg entropy
    let nonce = nonce_of msg entropy
    ek_bytes ← lib.public_bytes (lib.public_key ek) false
    secret ← lib.encapsulate ek pubkey
    or_error secret λ shared. do
      ciphertext ← aesgcm_encrypt lib.aes shared nonce msg
      or_error ciphertext λ sealed. laid_out ek_bytes nonce sealed

  -- PublicKey.Encrypt
  unfoldable pub encrypt : lib.PublicKey → List Value → Outcome Bytes
  unfolding ecies_encrypt
  encrypt pub_key args = do
    (buf, entropy) ← get_two_array_buffers args
    unwrap error_in_encrypt (ecies_encrypt pub_key buf entropy)

  -- PrivateKey.Decrypt: `none` is the pair of nil and false
  unfoldable pub decrypt : lib.PrivateKey → List Value → Outcome (Option Bytes)
  decrypt prv args = do buf ← get_one_array_buffer args; lib.decrypt prv buf
