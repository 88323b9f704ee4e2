-- ===== src/Merkle.antt =====
-- script/extension/merkle.go: the verification of Merkle proofs with sorted pairs. The hash
-- functions of crypto/sha256 and golang.org/x/crypto/sha3 are parameters: Reset, Write and Sum
-- give the hash of the bytes written.
pub mod Proofs
pub mod Trees
use egvm.Prelude.{
  ℕ, zero, suc, ◌+◌, ◌-◌, ◌/◌, ◌%◌, Bool, not, List, [], ◌∷◌, ◌++◌, length, take, drop, ◌==◌, ltb,
  if◌then◌else◌,
}
use egvm.Outcome.{
  Outcome, ok, panic, panic_if, ◌>>=◌, ◌>>◌, invalid_leaf_size, invalid_proof_size, runtime_error,
}
use egvm.Bytes.{Bytes, equal_bytes, is_less}
use egvm.Goja.{Value, get_three_array_buffers}

-- combineTwoHash
unfoldable pub combine_two_hash : Bytes → Bytes → Bytes
combine_two_hash a b = if is_less a b then a ++ b else b ++ a

-- bz[low:high], with the panic of the Go runtime at a bound past the end
unfoldable pub slice : Bytes → ℕ → ℕ → Outcome Bytes
slice bz low high =
    if ltb (length bz) high then panic runtime_error else ok (take (high - low) (drop low bz))

module _ (hash : Bytes → Bytes) where
  -- The loop of verifyMerkleProof, from an offset on with the rounds left.
  unfoldable pub climb : ℕ → ℕ → Bytes → Bytes → Outcome Bytes
  unfolding slice combine_two_hash
  climb zero offset proof computed = ok computed
  climb (suc rounds) offset proof computed = do
    node ← slice proof offset (offset + 32)
    climb rounds (offset + 32) proof (hash (combine_two_hash node computed))

  -- verifyMerkleProof: the rounds of `for offset := 0; offset < len(proof); offset += 32`
  unfoldable pub verify_merkle_proof : List Value → Outcome Bool
  unfolding climb get_three_array_buffers
  verify_merkle_proof args = do
    (root, proof, leaf) ← get_three_array_buffers args
    panic_if (not (length leaf == 32)) invalid_leaf_size
    panic_if (not (length proof % 32 == 0)) invalid_proof_size
    computed ← climb ((length proof + 31) / 32) 0 proof leaf
    ok (equal_bytes root computed)

-- sha256.New and sha3.NewLegacyKeccak256
pub record HashLib : Type 0 where
  pub sha256 : Bytes → Bytes
  pub keccak256 : Bytes → Bytes

-- VerifyMerkleProofSha256
unfoldable pub verify_merkle_proof_sha256 : HashLib → List Value → Outcome Bool
unfolding verify_merkle_proof
verify_merkle_proof_sha256 h args = verify_merkle_proof h.sha256 args

-- VerifyMerkleProofKeccak256
unfoldable pub verify_merkle_proof_keccak256 : HashLib → List Value → Outcome Bool
unfolding verify_merkle_proof
verify_merkle_proof_keccak256 h args = verify_merkle_proof h.keccak256 args
