-- ===== src/Tests/Proofs.antt =====
-- The theorems on Merkle proofs, hash functions and extended keys at concrete inputs.
use mathlib.Core.List.{flatten}
use egvm.Prelude.{
  ℕ, zero, suc, ◌^◌, ◌<◌, ◌≡◌, ◌⊎◌, ◌↔◌, refl, ap, true, some, List, [], ◌∷◌, ◌++◌, length, arith,
  replicate, append_assoc, append-nil, All,
}
use egvm.Outcome.{ok, panic, non_ascii_string}
use egvm.Bytes.{Bytes, is_less, compare_bytes, equal_bytes}
use egvm.Goja.{string, array_buffer, get_three_array_buffers}
use egvm.Merkle.{verify_merkle_proof, climb, slice, combine_two_hash}
use egvm.Merkle.Proofs.{Collision, accepted_leaf_unique}
use egvm.Merkle.Trees.{MerkleTree, leaf, node, root_of, proof_at, verify_merkle_proof-proof_at}
use egvm.Hash.{Hasher, HashLib, keccak256, xx_hash32_int}
use egvm.Hash.Streams.{
  ascii, buffer, no_args, one_more, non_ascii, hashes_exact, BuilderCall, write_call,
}
use egvm.Bip32Key.{Bip32Lib, Bip32Key, derive}
use egvm.Bip32Key.Chains.{arguments, follow, derive_iff}

-- The first 32 bytes, with zeros behind them.
abbrev padded : ℕ → Bytes → Bytes
padded zero bz = []
padded (suc n) [] = 0 ∷ padded n []
padded (suc n) (b ∷ bz) = b ∷ padded n bz

length-padded : (n : ℕ) (bz : Bytes) → length (padded n bz) ≡ n
length-padded zero bz = refl
length-padded (suc n) [] = ap suc (length-padded n [])
length-padded (suc n) (b ∷ bz) = ap suc (length-padded n bz)

abbrev tree : MerkleTree
tree = node (leaf (replicate 32 5)) (leaf (replicate 32 3))

verify_merkle_proof-proof_at_example :
    verify_merkle_proof (padded 32) (
      array_buffer (root_of (padded 32) tree)
      ∷ array_buffer (flatten (replicate 32 5 ∷ []))
      ∷ array_buffer (replicate 32 3)
      ∷ [])
    ≡ ok true
unfolding proof_at root_of
verify_merkle_proof-proof_at_example =
    verify_merkle_proof-proof_at (padded 32) tree (true ∷ []) (replicate 32 3) (replicate 32 5 ∷ [])
      (length-padded 32) (refl, refl) refl

-- Behind a smaller node, the hash above sees nothing of a leaf.
abbrev ones : Bytes
ones = replicate 32 1

abbrev eights : Bytes
eights = replicate 32 8

abbrev nines : Bytes
nines = replicate 32 9

accepted_eights :
    verify_merkle_proof
      (padded 32)
      (array_buffer ones ∷ array_buffer (flatten (ones ∷ [])) ∷ array_buffer eights ∷ [])
    ≡ ok true
unfolding verify_merkle_proof climb slice combine_two_hash is_less compare_bytes equal_bytes
    get_three_array_buffers flatten
accepted_eights = refl

accepted_nines :
    verify_merkle_proof
      (padded 32)
      (array_buffer ones ∷ array_buffer (flatten (ones ∷ [])) ∷ array_buffer nines ∷ [])
    ≡ ok true
unfolding verify_merkle_proof climb slice combine_two_hash is_less compare_bytes equal_bytes
    get_three_array_buffers flatten
accepted_nines = refl

accepted_leaf_unique_example : (eights ≡ nines) ⊎ Collision (padded 32)
accepted_leaf_unique_example =
    accepted_leaf_unique (padded 32) ones eights nines (ones ∷ []) (length-padded 32) (refl, tt)
      refl refl accepted_eights accepted_nines

-- A hash that keeps what is written.
abbrev keeping : Hasher
keeping = record {
  State = Bytes;
  fresh = [];
  write = λ h bz. h ++ bz;
  sum = λ h. h;
  write_append = append_assoc;
  write_nil = append-nil;
}

abbrev hashes : HashLib
hashes = record {
  keccak256 = keeping;
  sha256 = keeping;
  ripemd160 = keeping;
  xx_hash32 = keeping;
  xx_hash64 = keeping;
  xx_hash128 = keeping;
  sum32 = λ h. length h;
}

hashes_exact_example :
    (keccak256 hashes (string (65 ∷ 66 ∷ []) ∷ array_buffer (200 ∷ []) ∷ [])
      ≡ ok (65 ∷ 66 ∷ 200 ∷ []))
    × (xx_hash32_int hashes
          (string (65 ∷ 66 ∷ []) ∷ array_buffer (200 ∷ []) ∷ string (65 ∷ 200 ∷ []) ∷ [])
        ≡ panic non_ascii_string)
hashes_exact_example =
    let (given, refused) =
      hashes_exact hashes (string (65 ∷ 66 ∷ []) ∷ array_buffer (200 ∷ []) ∷ []) []
        (65 ∷ 66 ∷ 200 ∷ []) (string (65 ∷ 200 ∷ [])) non_ascii_string
        (one_more (ascii (ground arith, (ground arith, tt))) (one_more buffer no_args))
        (non_ascii (65 ∷ []) [] 200 (omega arith)) in
    (given.0, refused.6)

abbrev before_reset : List BuilderCall
before_reset = write_call (9 ∷ []) ∷ []

abbrev bufs : List Bytes
bufs = (1 ∷ []) ∷ (2 ∷ 3 ∷ []) ∷ []

-- Keys that remember their path.
abbrev key_lib : Bip32Lib
key_lib = record {
  keys = record { Key = List ℕ; new_child_key = λ key i. some (i ∷ key) };
  b58_deserialize = λ text. some text;
  b58_serialize = λ key. key;
  deserialize = λ bz. some bz;
  serialize = λ key. key;
  public_key = λ key. key;
  is_private = λ key. true;
  PrivateKey = List ℕ;
  private_key = λ key. key;
}

abbrev master : Bip32Key key_lib
master = record { key = [] }

abbrev child : Bip32Key key_lib
child = record { key = 4 ∷ 3 ∷ 2 ∷ 1 ∷ 0 ∷ [] }

derive_iff_example :
    (derive key_lib master (arguments key_lib (0 ∷ 1 ∷ 2 ∷ 3 ∷ 4 ∷ [])) ≡ ok child) ↔ (
      (path : List ℕ) × (arguments key_lib (0 ∷ 1 ∷ 2 ∷ 3 ∷ 4 ∷ []) ≡ arguments key_lib path)
      × (length path ≡ 5)
      × All (λ i. i < 2 ^ 32) path
      × (follow key_lib master path ≡ ok child))
derive_iff_example = derive_iff key_lib master child (arguments key_lib (0 ∷ 1 ∷ 2 ∷ 3 ∷ 4 ∷ []))
