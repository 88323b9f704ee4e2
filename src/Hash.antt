-- ===== src/Hash.antt =====
-- script/extension/hash.go: the hash functions of the scripts. The running hashes come from Go's packages hash, and xxhash, xxh3,
-- ripemd160 and sha3, which are not part of the repository; each is a parameter.
pub mod Streams
use egvm.Prelude.{
  ℕ, ◌≡◌, ◌<◌, Bool, true, false, List, [], ◌∷◌, ◌++◌, length, ltb, if◌then◌else◌, pos,
}
use egvm.Outcome.{Outcome, ok, panic, ◌>>=◌, non_ascii_string, unsupported_hash_type}
use egvm.Bytes.{Bytes}
use egvm.Word.{to_be}
use egvm.Goja.{Value, string, int64, array_buffer, uint256, other}

-- A running hash: hash.Hash with its Write and Sum. Writing in two steps is writing at once, and
-- writing nothing changes nothing, which the documentation of io.Writer and hash.Hash says.
pub record Hasher : Type 1 where
  pub State : Type 0
  pub fresh : State
  pub write : State → Bytes → State
  pub sum : State → Bytes
  pub write_append : (h : State) (a b : Bytes) → write (write h a) b ≡ write h (a ++ b)
  pub write_nil : (h : State) → write h [] ≡ h

-- The running hashes that the functions start.
pub record HashLib : Type 1 where
  pub keccak256 : Hasher
  pub sha256 : Hasher
  pub ripemd160 : Hasher
  pub xx_hash32 : Hasher
  pub xx_hash64 : Hasher
  pub xx_hash128 : Hasher
  -- Sum32 of xxhash
  pub sum32 : xx_hash32.State → ℕ

-- isASCII: a string has a character above unicode.MaxASCII where it has a byte above it.
unfoldable pub is_ascii : Bytes → Bool
is_ascii [] = true
is_ascii (c ∷ s) = let rest = is_ascii s in if ltb 127 c then false else rest

-- The bytes that the loop of hashFunc writes for an argument.
unfoldable pub written : Value → Outcome Bytes
unfolding is_ascii
written (string s) = if is_ascii s then ok s else panic non_ascii_string
written (array_buffer bz) = ok bz
written (uint256 x) = ok (to_be 32 x)
written _ = panic unsupported_hash_type

-- hashFunc: a hash state is threaded through the arguments.
unfoldable pub hash_func : (h : Hasher) → h.State → List Value → Outcome h.State
unfolding written
hash_func h state [] = ok state
hash_func h state (arg ∷ args) = do bz ← written arg; hash_func h (h.write state bz) args

-- The common shape of the functions: a fresh hash, hashFunc, and Sum.
unfoldable pub hash_with : Hasher → List Value → Outcome Bytes
unfolding hash_func
hash_with h args = do state ← hash_func h h.fresh args; ok (h.sum state)

module _ (lib : HashLib) where
  -- Keccak256
  unfoldable pub keccak256 : List Value → Outcome Bytes
  unfolding hash_with
  keccak256 args = hash_with lib.keccak256 args

  -- Sha256
  unfoldable pub sha256 : List Value → Outcome Bytes
  unfolding hash_with
  sha256 args = hash_with lib.sha256 args

  -- Ripemd160
  unfoldable pub ripemd160 : List Value → Outcome Bytes
  unfolding hash_with
  ripemd160 args = hash_with lib.ripemd160 args

  -- XxHash32
  unfoldable pub xx_hash32 : List Value → Outcome Bytes
  unfolding hash_with
  xx_hash32 args = hash_with lib.xx_hash32 args

  -- XxHash64
  unfoldable pub xx_hash64 : List Value → Outcome Bytes
  unfolding hash_with
  xx_hash64 args = hash_with lib.xx_hash64 args

  -- XxHash128
  unfoldable pub xx_hash128 : List Value → Outcome Bytes
  unfolding hash_with
  xx_hash128 args = hash_with lib.xx_hash128 args

  -- XxHash32Int
  unfoldable pub xx_hash32_int : List Value → Outcome ℕ
  unfolding hash_func
  xx_hash32_int args = do
    state ← hash_func lib.xx_hash32 lib.xx_hash32.fresh args
    ok (lib.sum32 state)
