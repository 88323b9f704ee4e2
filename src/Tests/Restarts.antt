-- ===== src/Tests/Restarts.antt =====
-- The theorems on key files at a concrete enclave.
use egvm.Prelude.{
  zero, suc, ◌≡◌, refl, sym, ap, ◌∙◌, Bool, true, false, not, Option, none, some, [], ◌∷◌,
}
use egvm.Bytes.{Bytes}
use egvm.KeyFile.{
  missing, Disk, FileLib, ended, KeyParts, write_file, seal_key_to_file, recover_key_from_file,
  first_key, start_with, start_server,
}
use egvm.KeyFile.Kept.{IsSealed}
use egvm.KeyFile.Restart.{start_server-start_server}

abbrev key_bytes : Bool → Bytes
key_bytes true = 1 ∷ []
key_bytes false = 0 ∷ []

abbrev key_of : Bytes → Option Bool
key_of [] = none
key_of (zero ∷ bz) = some false
key_of (suc n ∷ bz) = some true

-- Sealing adds a byte in front.
abbrev lib : FileLib Bool
lib = record {
  serialize = λ k. some (key_bytes k);
  deserialize = key_of;
  seal_with_unique_key = λ bz. some (9 ∷ bz);
  unseal = λ bz. elim bz [ [] ↦ none | b ∷ rest ↦ some rest ];
  writable = λ fname. true;
}

key_of-key_bytes : (k : Bool) → key_of (key_bytes k) ≡ some k
key_of-key_bytes true = refl
key_of-key_bytes false = refl

sealed : IsSealed lib
sealed = record {
  deserializes =
      λ k bz e. ap (λ o. elim o [ none ↦ none | some b ↦ key_of b ]) (sym e) ∙ key_of-key_bytes k;
  unseals = λ bz out e. ap (λ o. elim o [ none ↦ none | some b ↦ lib.unseal b ]) (sym e);
}

abbrev empty_disk : Disk
empty_disk fname = missing

abbrev key_file : Bytes
key_file = 3 ∷ []

abbrev key_disk : Disk
unfolding write_file
key_disk = write_file empty_disk key_file (9 ∷ 1 ∷ [])

first_start :
    start_server lib key_file (ended true) (λ url bz. none) empty_disk [] ≡ ended (true, key_disk)
unfolding start_server start_with recover_key_from_file first_key seal_key_to_file
first_start = refl

start_server-start_server_example :
    start_server lib key_file (ended true) (λ url bz. none) key_disk (8 ∷ [])
    ≡ ended (true, key_disk)
start_server-start_server_example =
    start_server-start_server lib sealed key_file (ended true) (λ url bz. none) empty_disk key_disk
      [] (8 ∷ []) true first_start

abbrev parts : KeyParts Bool Bytes
parts = record {
  public_key = λ k. not k;
  priv_key_from_bytes = key_bytes;
  serialize_compressed = λ sk. 2 ∷ sk;
}
