-- ===== src/Bch.antt =====
-- script/extension/bch.go: the scripts of Bitcoin Cash outputs and inputs, as the transactions of
-- the scripts carry them. The script builder and the parser of the package txscript are not part of
-- the repository; they are parameters with their documented behaviour on short pushes.
pub mod Scripts
pub mod Outputs
pub mod Transactions
pub mod Merkle
use mathlib.Core.List.{map, flatten}
use egvm.Prelude.{
  ℕ, ◌+◌, ◌-◌, ◌≤◌, ◌≡◌, Bool, true, false, Option, none, some, List, [], ◌∷◌, ◌++◌, length, take,
  drop, get_elem?, ltb, ◌==◌, ◌&&◌, not, if◌then◌else◌, All, ℤ,
}
use egvm.Bytes.{Bytes}
use egvm.Hex.{hex_encode, hex_decode}

-- What is added to a txscript.ScriptBuilder: AddOp and AddData.
pub data Item : Type 0 where
  opcode : ℕ → Item
  pushed : Bytes → Item

-- Data that a single length byte pushes, and that no opcode of its own stands for.
abbrev pub IsShort : Bytes → Type 0
IsShort bz = (2 ≤ length bz) × (length bz ≤ 75)

-- An opcode that pushes nothing, or short data.
abbrev pub IsPlain : Item → Type 0
IsPlain (opcode c) = 97 ≤ c
IsPlain (pushed bz) = IsShort bz

abbrev pub item_bytes : Item → Bytes
item_bytes (opcode c) = c ∷ []
item_bytes (pushed bz) = length bz ∷ bz

abbrev pub item_data : Item → List Bytes
item_data (opcode c) = []
item_data (pushed bz) = bz ∷ []

pub record ScriptLib : Type 0 where
  -- The method Script of a builder: an error is `none`. The limit of a script is 10000 bytes.
  pub script : List Item → Option Bytes
  pub script_plain :
      (items : List Item)
      → All IsPlain items
      → length (flatten (map item_bytes items)) ≤ 10000
      → script items ≡ some (flatten (map item_bytes items))
  -- PushedData: the data pushed in a script, or an error
  pub pushed_data : Bytes → Option (List Bytes)
  pub pushed_data_plain :
      (items : List Item)
      → All IsPlain items
      → pushed_data (flatten (map item_bytes items)) ≡ some (flatten (map item_data items))

-- OP_RETURN, OP_DUP, OP_EQUALVERIFY, OP_HASH160 and OP_CHECKSIG
abbrev pub op_return : ℕ
op_return = 106

abbrev pub op_dup : ℕ
op_dup = 118

abbrev pub op_equalverify : ℕ
op_equalverify = 136

abbrev pub op_hash160 : ℕ
op_hash160 = 169

abbrev pub op_checksig : ℕ
op_checksig = 172

-- TxOut
pub record TxOut : Type 0 where
  pub value : ℤ
  pub hex_pubkey_hash : Bytes
  pub hex_data_elements : List Bytes

-- The test `pkScript[i] == c`, for an index in range.
unfoldable pub byte_is : Bytes → ℕ → ℕ → Bool
byte_is bz i c = elim (get_elem? bz i) [ none ↦ false | some b ↦ b == c ]

-- getPubkeyHashFromPkScript
unfoldable pub get_pubkey_hash_from_pk_script : Bytes → Bytes
unfolding byte_is
get_pubkey_hash_from_pk_script pk_script =
    if length pk_script == 25
      && byte_is pk_script 0 op_dup
      && byte_is pk_script 1 op_hash160
      && byte_is pk_script 23 op_equalverify
      && byte_is pk_script 24 op_checksig
    then hex_encode (take 20 (drop 3 pk_script))
    else []

-- The data of all elements, or none at the first that is not hexadecimal.
unfoldable pub decode_elements : List Bytes → Option (List Bytes)
decode_elements [] = some []
decode_elements (h ∷ hs) =
    let rest = decode_elements hs in
    elim (hex_decode h) [
      | none ↦ none
      | some data_of ↦ elim rest [ none ↦ none | some datas ↦ some (data_of ∷ datas) ]
    ]

module _ (lib : ScriptLib) where
  -- getOpRetData: the error of PushedData is dropped
  unfoldable pub get_op_ret_data : Bytes → List Bytes
  unfolding byte_is
  get_op_ret_data pk_script =
      if ltb 1 (length pk_script) && byte_is pk_script 0 op_return
      then (elim (lib.pushed_data pk_script) [ none ↦ [] | some datas ↦ map hex_encode datas ])
      else []

  -- payToPubKeyHashPkScript
  unfoldable pub pay_to_pub_key_hash_pk_script : Bytes → Option Bytes
  pay_to_pub_key_hash_pk_script pub_key_hash = lib.script (
      opcode op_dup
      ∷ opcode op_hash160
      ∷ pushed pub_key_hash
      ∷ opcode op_equalverify
      ∷ opcode op_checksig
      ∷ [])

  -- opRetPkScript
  unfoldable pub op_ret_pk_script : List Bytes → Option Bytes
  unfolding decode_elements
  op_ret_pk_script hex_data_elements = elim (decode_elements hex_data_elements) [
    | none ↦ none
    | some datas ↦ lib.script (opcode op_return ∷ map (λ bz. pushed bz) datas)
  ]

  -- The script of an output in signTxAndSerialize: an error is `none`
  unfoldable pub pk_script_of : TxOut → Option Bytes
  unfolding pay_to_pub_key_hash_pk_script op_ret_pk_script
  pk_script_of out =
      if not (length out.hex_pubkey_hash == 0)
      then (elim (hex_decode out.hex_pubkey_hash) [
        | none ↦ none
        | some pubkey_hash ↦ pay_to_pub_key_hash_pk_script pubkey_hash
      ])
      else if ltb 0 (length out.hex_data_elements)
      then op_ret_pk_script out.hex_data_elements
      else none

  -- The output of a value and a script, in parseTxInHex.
  unfoldable pub parse_tx_out : ℤ → Bytes → TxOut
  unfolding get_pubkey_hash_from_pk_script get_op_ret_data
  parse_tx_out value pk_script = record {
    value = value;
    hex_pubkey_hash = get_pubkey_hash_from_pk_script pk_script;
    hex_data_elements = get_op_ret_data pk_script;
  }

  -- getPubkeyFromSigScript: an error is `none`
  unfoldable pub get_pubkey_from_sig_script : Bytes → Option Bytes
  get_pubkey_from_sig_script sig_script = elim (lib.pushed_data sig_script) [
    | none ↦ none
    | some pushes ↦
        if not (length pushes == 2)
        then none
        else (elim (get_elem? pushes 1) [ none ↦ none | some pk ↦ some (hex_encode pk) ])
  ]
