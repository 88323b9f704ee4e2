-- ===== src/KeyFile.antt =====
-- The file that holds a key between two runs: SealKeyToFile and RecoverKeyFromFile of
-- keygrantor/keygrantor.go, SimpleClient of keygrantor/simpleclient.go and the start of the key
-- server in keygrantor/cmd/main.go. The sealing by the enclave, the key formats and the way to a
-- fresh key are parameters. A panic of the source is `aborted`.
pub mod Kept
pub mod Restart
pub mod Clients
use egvm.Prelude.{
  ℕ, Bool, true, false, Option, none, some, List, [], ◌∷◌, length, ◌==◌, if◌then◌else◌,
}
use egvm.Bytes.{Bytes, equal_bytes}

-- The disk: what a file name leads to. Reading can fail in another way than by a missing file.
pub data Entry : Type 0 where
  missing unreadable : Entry
  holding : Bytes → Entry

abbrev pub Disk : Type 0
Disk = Bytes → Entry

pub record FileLib (Key : Type 0) : Type 0 where
  -- (*bip32.Key).Serialize and bip32.Deserialize
  pub serialize : Key → Option Bytes
  pub deserialize : Bytes → Option Key
  -- ecrypto.SealWithUniqueKey and ecrypto.Unseal, without additional data
  pub seal_with_unique_key : Bytes → Option Bytes
  pub unseal : Bytes → Option Bytes
  -- Whether os.WriteFile succeeds for a name
  pub writable : Bytes → Bool

pub data Ran {ℓ} (A : Type ℓ) : Type ℓ where
  ended : A → Ran A
  aborted : Ran A

infixl 5 ◌>>=◌
abbrev pub ◌>>=◌ {ℓ κ} : {A : Type ℓ} {B : Type κ} → Ran A → (A → Ran B) → Ran B
aborted >>= later = aborted
ended a >>= later = later a

-- if err != nil { panic(err) }
abbrev pub or_abort {ℓ} : {A : Type ℓ} → Option A → Ran A
or_abort none = aborted
or_abort (some a) = ended a

-- os.WriteFile over what the name led to
unfoldable pub write_file : Disk → Bytes → Bytes → Disk
write_file disk fname bz name = if equal_bytes name fname then holding bz else disk name

module _ {Key : Type 0} (lib : FileLib Key) where
  -- SealKeyToFile
  unfoldable pub seal_key_to_file : Disk → Bytes → Key → Ran Disk
  unfolding write_file
  seal_key_to_file disk fname ext_priv_key = do
    bz ← or_abort (lib.serialize ext_priv_key)
    out ← or_abort (lib.seal_with_unique_key bz)
    if lib.writable fname then ended (write_file disk fname out) else aborted

  -- RecoverKeyFromFile: `none` is the result `nil, false`
  unfoldable pub recover_key_from_file : Disk → Bytes → Ran (Option Key)
  recover_key_from_file disk fname = elim (disk fname) [
    | missing ↦ ended none
    | unreadable ↦ aborted
    | holding file_data ↦ do
      raw_data ← or_abort (lib.unseal file_data)
      ext_priv_key ← or_abort (lib.deserialize raw_data)
      ended (some ext_priv_key)
  ]

  module _ (key_file : Bytes) (get_random_ext_priv_key : Ran Key)
      (get_key_from_key_grantor : Bytes → Bytes → Option Key) where
    -- The key of main() when there is no key file, before it is sealed
    unfoldable pub first_key : Bytes → Ran Key
    first_key key_src =
        if length key_src == 0
        then get_random_ext_priv_key
        else or_abort (get_key_from_key_grantor key_src [])

    -- main() after RecoverKeyFromFile and up to createAndStartHttpServer
    unfoldable pub start_with : Disk → Bytes → Option Key → Ran (Key × Disk)
    unfolding first_key seal_key_to_file
    start_with disk key_src (some ext_priv_key) = ended (ext_priv_key, disk)
    start_with disk key_src none = do
      ext_priv_key ← first_key key_src
      disk_after ← seal_key_to_file disk key_file ext_priv_key
      ended (ext_priv_key, disk_after)

    -- main() with the value of the flag xprvsrc: the key that the server hands out and the disk
    -- that is left
    unfoldable pub start_server : Disk → Bytes → Ran (Key × Disk)
    unfolding recover_key_from_file start_with
    start_server disk key_src = do
      recovered ← recover_key_from_file disk key_file
      start_with disk key_src recovered

-- What InitKeys makes of a key: PublicKey of bip32, and the private key with its public key.
pub record KeyParts (Key PrivateKey : Type 0) : Type 0 where
  pub public_key : Key → Key
  pub priv_key_from_bytes : Key → PrivateKey
  pub serialize_compressed : PrivateKey → Bytes

-- SimpleClient
pub record SimpleClient (Key PrivateKey : Type 0) : Type 0 where
  pub ext_priv_key : Key
  pub ext_pub_key : Key
  pub priv_key : PrivateKey
  pub pub_key_bz : Bytes

module _ {Key PrivateKey : Type 0} (lib : FileLib Key) (parts : KeyParts Key PrivateKey)
    (get_key_from_key_grantor : Bytes → Bytes → Option Key) where
  -- The client whose extended private key was set
  unfoldable pub with_key : Key → SimpleClient Key PrivateKey
  with_key ext_priv_key =
      let priv_key = parts.priv_key_from_bytes ext_priv_key in
      record {
        ext_priv_key = ext_priv_key;
        ext_pub_key = parts.public_key ext_priv_key;
        priv_key = priv_key;
        pub_key_bz = parts.serialize_compressed priv_key;
      }

  -- SimpleClient.InitKeys: the receiver is whether the pointer is not nil. The fields that the
  -- client had before are overwritten.
  unfoldable pub init_keys : Bool → Disk → Bytes → Bytes → Bool → Ran (SimpleClient Key PrivateKey)
  unfolding recover_key_from_file with_key
  init_keys allocated disk key_src client_data load_from_file = do
    ext_priv_key ←
        if load_from_file
        then (recover_key_from_file lib disk key_src >>= or_abort)
        else or_abort (get_key_from_key_grantor key_src client_data)
    if allocated then ended (with_key ext_priv_key) else aborted

  -- The part of start() in indexer/run.go that fetches or recovers the key.
  unfoldable pub start_keys :
      Bool → Bytes → Disk → Bytes → Bytes → Ran (SimpleClient Key PrivateKey × Disk)
  unfolding init_keys seal_key_to_file
  start_keys allocated key_file disk key_grantor_url config_hash = elim (disk key_file) [
    | missing ↦ do
      kg_client ← init_keys allocated disk key_grantor_url config_hash false
      disk_after ← seal_key_to_file lib disk key_file kg_client.ext_priv_key
      ended (kg_client, disk_after)
    | unreadable ↦ aborted
    | holding bz ↦ do
      kg_client ← init_keys allocated disk key_file config_hash true
      ended (kg_client, disk)
  ]
