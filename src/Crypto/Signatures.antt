-- ===== src/Crypto/Signatures.antt =====
-- script/extension/crypto.go: signatures. go-ethereum and ecies are parameters.
use egvm.Prelude.{
  ◌≡◌, ◌⊎◌, ◌↔◌, Bool, not, Option, List, [], ◌∷◌, ◌++◌, length, take, ◌==◌, ◌&&◌, arith,
}
use egvm.Outcome.{
  Outcome, ok, ◌>>=◌, ◌>>◌, panic_if, outcome_of, invalid_public_key_length,
  invalid_digest_hash_length, invalid_sig_length, error_in_ecrecover, error_in_new_public_key,
}
use egvm.Bytes.{Bytes}
use egvm.Decimal.{digits}
use egvm.Goja.{
  Value, array_buffer, get_one_array_buffer, get_two_array_buffers, get_three_array_buffers,
}
use egvm.Crypto.{EciesLib}

-- gethcrypto.VerifySignature of a key, a hash and a signature, and gethcrypto.Ecrecover of a hash
-- and a signature.
pub record GethLib : Type 0 where
  pub verify_signature : Bytes → Bytes → Bytes → Bool
  pub ecrecover : Bytes → Bytes → Option Bytes

-- "\x19Ethereum Signed Message:\n"
abbrev pub eth_prefix : Bytes
eth_prefix =
    25 ∷ 69 ∷ 116 ∷ 104 ∷ 101 ∷ 114 ∷ 101 ∷ 117 ∷ 109 ∷ 32 ∷ 83 ∷ 105 ∷ 103 ∷ 110 ∷ 101 ∷ 100 ∷ 32
    ∷ 77 ∷ 101 ∷ 115 ∷ 115 ∷ 97 ∷ 103 ∷ 101 ∷ 58 ∷ 10 ∷ []

-- GetEthSignedMessage
unfoldable pub get_eth_signed_message : List Value → Outcome Bytes
unfolding digits
get_eth_signed_message args = do
  msg ← get_one_array_buffer args
  ok (eth_prefix ++ (digits 20 (length msg) ++ msg))

-- VerifySignature
unfoldable pub verify_signature : GethLib → List Value → Outcome Bool
verify_signature geth args = do
  (pubkey, digest_hash, signature) ← get_three_array_buffers args
  panic_if (not (length pubkey == 33) && not (length pubkey == 65)) invalid_public_key_length
  panic_if (not (length digest_hash == 32)) invalid_digest_hash_length
  panic_if (not (length signature == 65)) invalid_sig_length
  ok (geth.verify_signature pubkey digest_hash (take 64 signature))

-- Ecrecover
unfoldable pub ecrecover : (lib : EciesLib) → GethLib → List Value → Outcome lib.PublicKey
ecrecover lib geth args = do
  (hash, sig) ← get_two_array_buffers args
  panic_if (not (length sig == 65)) invalid_sig_length
  bz ← outcome_of error_in_ecrecover (geth.ecrecover hash sig)
  let (key, fine) = lib.new_public_key_from_bytes bz
  panic_if (not fine) error_in_new_public_key
  ok key

-- VerifySignature of three buffers returns exactly where the key has 33 or 65 bytes, the digest 32
-- and the signature 65, and then the recovery byte has no influence on the answer.
pub verify_signature_iff :
    (geth : GethLib) (pubkey digest_hash signature : Bytes) (b : Bool)
    → (verify_signature geth
          (array_buffer pubkey ∷ array_buffer digest_hash ∷ array_buffer signature ∷ [])
        ≡ ok b)
      ↔ (((length pubkey ≡ 33) ⊎ (length pubkey ≡ 65))
          × (length digest_hash ≡ 32)
          × (length signature ≡ 65)
          × (geth.verify_signature pubkey digest_hash (take 64 signature) ≡ b))
unfolding verify_signature get_three_array_buffers
verify_signature_iff geth pubkey digest_hash signature b = ground arith
