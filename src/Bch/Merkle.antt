-- ===== src/Bch/Merkle.antt =====
-- script/extension/bch.go: MerkleProofToRootAndMatches. The messages of wire and the partial trees of
-- merkleblock are not part of the repository.
use egvm.Prelude.{Bool, Option, List, [], ◌∷◌, length, ◌==◌, ◌||◌}
use egvm.Outcome.{
  Outcome, ok, panic_if, outcome_of, ◌>>=◌, ◌>>◌, error_in_merkle_proof, error_extracting_matches,
}
use egvm.Bytes.{Bytes}
use egvm.Goja.{Value, get_one_array_buffer}
use egvm.Buffer.{bytes_reverse}

-- BchDecode of a MsgMerkleBlock, and what ExtractMatches, BadTree and GetMatches say of the partial
-- tree of a message. A nil root is `none`.
pub record PartialTreeLib : Type 1 where
  pub Message : Type 0
  pub bch_decode : Bytes → Option Message
  pub extract_matches : Message → Option Bytes
  pub bad_tree : Message → Bool
  pub matches : Message → List Bytes

-- The loop over the matches
unfoldable pub reversed_all : List Bytes → Outcome (List Bytes)
reversed_all [] = ok []
reversed_all (tx ∷ txs) = do hash ← bytes_reverse tx; rest ← reversed_all txs; ok (hash ∷ rest)

-- MerkleProofToRootAndMatches
unfoldable pub merkle_proof_to_root_and_matches : PartialTreeLib → List Value → Outcome (List Bytes)
unfolding reversed_all
merkle_proof_to_root_and_matches lib args = do
  proof ← get_one_array_buffer args
  msg ← outcome_of error_in_merkle_proof (lib.bch_decode proof)
  merkle_root ← outcome_of error_extracting_matches (lib.extract_matches msg)
  panic_if (lib.bad_tree msg || (length (lib.matches msg) == 0)) error_extracting_matches
  hash ← bytes_reverse merkle_root
  hashes ← reversed_all (lib.matches msg)
  ok (hash ∷ hashes)
