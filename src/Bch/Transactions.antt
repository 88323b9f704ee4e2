-- ===== src/Bch/Transactions.antt =====
-- script/extension/bch.go: whole transactions, parsed and signed. The wire format, the hashes and
-- the signatures come from bchd and bchutil, which are not part of the repository.
pub mod Signing
pub mod RoundTrip
use egvm.Prelude.{
  ℕ, suc, ◌+◌, ◌≡◌, Bool, true, false, not, Option, none, some, List, [], ◌∷◌, ◌++◌, length, ◌==◌,
  if◌then◌else◌, ℤ, pos,
}
use egvm.Outcome.{Outcome, outcome_of, error_in_sign_tx, error_in_parse_tx}
use egvm.Bytes.{Bytes, equal_bytes}
use egvm.Hex.{hex_encode, hex_decode}
use egvm.Bch.{
  TxOut, ScriptLib, opcode, pushed, pay_to_pub_key_hash_pk_script, pk_script_of, parse_tx_out,
  get_pubkey_from_sig_script,
}

-- OutPoint, TxIn and BchTx
pub record OutPoint : Type 0 where
  pub hex_tx_id : Bytes
  pub index : ℕ

pub record TxIn : Type 0 where
  pub previous_out_point : OutPoint
  pub hex_pubkey : Bytes
  pub sequence : ℕ
  pub value : ℤ

pub record BchTx : Type 0 where
  pub hex_tx_id : Bytes
  pub version : ℤ
  pub tx_in : List TxIn
  pub tx_out : List TxOut
  pub lock_time : ℕ

-- wire.TxIn, wire.TxOut and wire.MsgTx, as far as the code reads and writes their fields. A hash
-- is its bytes.
pub record WireIn : Type 0 where
  pub previous_hash : Bytes
  pub previous_index : ℕ
  pub signature_script : Bytes
  pub sequence : ℕ

pub record WireOut : Type 0 where
  pub value : ℤ
  pub pk_script : Bytes

pub record MsgTx : Type 0 where
  pub version : ℤ
  pub tx_in : List WireIn
  pub tx_out : List WireOut
  pub lock_time : ℕ

pub record TxLib : Type 1 where
  pub scripts : ScriptLib
  -- The methods Serialize, Deserialize and TxHash of a MsgTx: an error is `none`
  pub serialize : MsgTx → Bytes
  pub deserialize : Bytes → Option MsgTx
  pub tx_hash : MsgTx → Bytes
  -- chainhash.NewHashFromStr and the method String
  pub new_hash_from_str : Bytes → Option Bytes
  pub hash_string : Bytes → Bytes
  -- The key of bchec of a PrivateKey, with its compressed public key and its signature
  pub PrivateKey : Type 0
  pub serialize_compressed : PrivateKey → Bytes
  pub sign_ecdsa : PrivateKey → Bytes → Option Bytes
  pub hash160 : Bytes → Bytes
  -- txscript.NewTxSigHashes and CalcSignatureHash of a script, these hashes, the hash type, a
  -- transaction, the number of an input and its value
  pub SigHashes : Type 0
  pub new_tx_sig_hashes : MsgTx → SigHashes
  pub calc_signature_hash : Bytes → SigHashes → ℕ → MsgTx → ℕ → ℤ → Option Bytes

-- A loop that returns at the first error.
unfoldable pub each {ℓ κ} : {A : Type ℓ} {B : Type κ} → (A → Option B) → List A → Option (List B)
each f [] = some []
each f (a ∷ rest) =
    let others = each f rest in
    elim (f a) [ none ↦ none | some b ↦ elim others [ none ↦ none | some bs ↦ some (b ∷ bs) ] ]

infixl 5 ◌>>=◌
abbrev pub ◌>>=◌ {ℓ κ} : {A : Type ℓ} {B : Type κ} → Option A → (A → Option B) → Option B
none >>= later = none
some a >>= later = later a

-- txscript.SigHashAll | txscript.SigHashForkID
abbrev pub hash_type : ℕ
hash_type = 65

module _ (lib : TxLib) where
  -- An input in parseTxInHex
  unfoldable pub parse_tx_in : WireIn → Option TxIn
  parse_tx_in msg_tx_in = do
    pubkey ← get_pubkey_from_sig_script lib.scripts msg_tx_in.signature_script
    some (record {
      previous_out_point = record {
        hex_tx_id = lib.hash_string msg_tx_in.previous_hash;
        index = msg_tx_in.previous_index;
      };
      hex_pubkey = pubkey;
      sequence = msg_tx_in.sequence;
      value = pos 0;
    })

  -- The outputs in parseTxInHex
  unfoldable pub parse_tx_outs : List WireOut → List TxOut
  parse_tx_outs [] = []
  parse_tx_outs (out ∷ outs) = parse_tx_out lib.scripts out.value out.pk_script ∷ parse_tx_outs outs

  -- parseTxInHex
  unfoldable pub parse_tx_in_hex : Bytes → Option BchTx
  unfolding each parse_tx_in parse_tx_outs
  parse_tx_in_hex hex_str = do
    bz ← hex_decode hex_str
    msg_tx ← lib.deserialize bz
    tx_in ← each parse_tx_in msg_tx.tx_in
    some (record {
      hex_tx_id = lib.hash_string (lib.tx_hash msg_tx);
      version = msg_tx.version;
      tx_in = tx_in;
      tx_out = parse_tx_outs msg_tx.tx_out;
      lock_time = msg_tx.lock_time;
    })

  -- An input and an output that signTxAndSerialize adds
  unfoldable pub add_tx_in : TxIn → Option WireIn
  add_tx_in tx_in = do
    prev_tx_hash ← lib.new_hash_from_str tx_in.previous_out_point.hex_tx_id
    some (record {
      previous_hash = prev_tx_hash;
      previous_index = tx_in.previous_out_point.index;
      signature_script = [];
      sequence = 0;
    })

  unfoldable pub add_tx_out : TxOut → Option WireOut
  add_tx_out out = do
    pk_script ← pk_script_of lib.scripts out
    some (record { value = out.value; pk_script = pk_script })

  -- keyMap: of two keys with the same public key the later one stays
  unfoldable pub key_for : List lib.PrivateKey → Bytes → Option lib.PrivateKey
  key_for [] hex_pubkey = none
  key_for (k ∷ ks) hex_pubkey = elim (key_for ks hex_pubkey) [
    | some later ↦ some later
    | none ↦
        if equal_bytes (hex_encode (lib.serialize_compressed k)) hex_pubkey then some k else none
  ]

  -- signTxSigHashECDSA
  unfoldable pub sign_tx_sig_hash_ecdsa : lib.PrivateKey → Bytes → ℕ → Option Bytes
  sign_tx_sig_hash_ecdsa priv_key hash type_of_hash = do
    signature ← lib.sign_ecdsa priv_key hash
    some (signature ++ (type_of_hash ∷ []))

  -- The script of one input in the last loop of signTxAndSerialize. A public key that keyMap has is
  -- hexadecimal, so that its decoding gives no error.
  unfoldable pub sig_script_of :
      List lib.PrivateKey → lib.SigHashes → MsgTx → ℕ → TxIn → Option Bytes
  unfolding key_for sign_tx_sig_hash_ecdsa
  sig_script_of priv_keys sig_hashes msg_tx idx tx_in = do
    priv_key ← key_for priv_keys tx_in.hex_pubkey
    pub_key_bytes ← hex_decode tx_in.hex_pubkey
    pubkey_script ← pay_to_pub_key_hash_pk_script lib.scripts (lib.hash160 pub_key_bytes)
    sig_hash ← lib.calc_signature_hash pubkey_script sig_hashes hash_type msg_tx idx tx_in.value
    sig ← sign_tx_sig_hash_ecdsa priv_key sig_hash hash_type
    lib.scripts.script (pushed sig ∷ pushed pub_key_bytes ∷ [])

  -- The last loop of signTxAndSerialize, with the inputs of the message that are signed and those
  -- that are not: it sets the scripts in the message that it hashes.
  unfoldable pub sign_inputs :
      List lib.PrivateKey
      → lib.SigHashes
      → MsgTx
      → ℕ
      → List WireIn
      → List WireIn
      → List TxIn
      → Option (List WireIn)
  unfolding sig_script_of
  sign_inputs priv_keys sig_hashes msg_tx idx signed (wire_in ∷ unsigned) (tx_in ∷ rest) =
      sig_script_of priv_keys sig_hashes (record msg_tx { tx_in = signed ++ (wire_in ∷ unsigned) })
        idx tx_in
      >>= λ sig_script.
          sign_inputs priv_keys sig_hashes msg_tx (idx + 1)
            (signed ++ (record wire_in { signature_script = sig_script } ∷ [])) unsigned rest
  sign_inputs priv_keys sig_hashes msg_tx idx signed _ _ = some signed

  -- The message before it is signed, and signTxAndSerialize
  unfoldable pub unsigned_tx : BchTx → Option MsgTx
  unfolding each add_tx_in add_tx_out
  unsigned_tx tx = do
    tx_in ← each add_tx_in tx.tx_in
    tx_out ← each add_tx_out tx.tx_out
    some (record { version = tx.version; tx_in = tx_in; tx_out = tx_out; lock_time = tx.lock_time })

  unfoldable pub sign_tx_and_serialize : BchTx → List lib.PrivateKey → Option Bytes
  unfolding unsigned_tx sign_inputs
  sign_tx_and_serialize tx private_keys =
      if not (length tx.tx_in == length private_keys) then none else (do
        msg_tx ← unsigned_tx tx
        signed ←
            sign_inputs private_keys (lib.new_tx_sig_hashes msg_tx) msg_tx 0 [] msg_tx.tx_in
              tx.tx_in
        some (hex_encode (lib.serialize (record msg_tx { tx_in = signed }))))

  -- ParseTxInHex and SignTxAndSerialize
  unfoldable pub parse_tx : Bytes → Outcome BchTx
  unfolding parse_tx_in_hex
  parse_tx hex_str = outcome_of error_in_parse_tx (parse_tx_in_hex hex_str)

  unfoldable pub sign_tx : BchTx → List lib.PrivateKey → Outcome Bytes
  unfolding sign_tx_and_serialize
  sign_tx tx private_keys = outcome_of error_in_sign_tx (sign_tx_and_serialize tx private_keys)
