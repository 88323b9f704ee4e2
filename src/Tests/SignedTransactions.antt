-- ===== src/Tests/SignedTransactions.antt =====
-- The theorem on signed transactions at a concrete input.
use mathlib.Core.List.{map}
use egvm.Prelude.{◌≡◌, refl, ap, ◌∙◌, [], ◌∷◌, some, replicate, arith, pos, All, ◌<◌}
use egvm.Outcome.{ok}
use egvm.Bytes.{Bytes, equal_bytes_refl}
use egvm.Hex.{hex_encode}
use egvm.Bch.Scripts.{pays_to}
use egvm.Bch.Transactions.{MsgTx, BchTx, TxLib, sign_tx, parse_tx, key_for}
use egvm.Bch.Transactions.Signing.{IsTxLib, cleared}
use egvm.Bch.Transactions.RoundTrip.{to_hash, parse_tx-sign_tx}
use egvm.Tests.Transactions.{model_script}
use egvm.Tests.ModelTx.{
  to_bytes, from_bytes, from_bytes-to_bytes, to_bytes_IsByte, put_tx, get_tx, get_tx-put_tx,
}

abbrev compressed : Bytes
compressed = replicate 33 2

abbrev lib : TxLib
lib = record {
  scripts = model_script;
  serialize = λ m. to_bytes (put_tx m);
  deserialize = λ bz. get_tx (from_bytes 0 bz);
  tx_hash = λ m. replicate 32 4;
  new_hash_from_str = λ s. some s;
  hash_string = λ h. h;
  PrivateKey = Unit;
  serialize_compressed = λ k. compressed;
  sign_ecdsa = λ k h. some (48 ∷ []);
  hash160 = λ bz. replicate 20 5;
  SigHashes = Unit;
  new_tx_sig_hashes = λ m. tt;
  calc_signature_hash = λ script hs ty m idx value. some script;
}

compressed_IsByte : All (λ b. b < 256) compressed
compressed_IsByte = ground arith

is_tx_lib : IsTxLib lib
is_tx_lib = record {
  deserializes = λ m. ap get_tx (from_bytes-to_bytes (put_tx m)) ∙ get_tx-put_tx m;
  serialized_IsByte = λ m. to_bytes_IsByte (put_tx m);
  names = λ h sized. refl;
  compressed_sized = λ k. refl;
  compressed_IsByte = λ k. compressed_IsByte;
  signs = λ k h. (48 ∷ [], refl, omega arith, omega arith);
  hash160_sized = λ bz. refl;
  hashes = λ script hs m idx value inside. (script, refl);
}

abbrev tx : BchTx
tx = record {
  hex_tx_id = [];
  version = pos 2;
  tx_in =
      record {
        previous_out_point = record { hex_tx_id = replicate 32 9; index = 1 };
        hex_pubkey = hex_encode compressed;
        sequence = 7;
        value = pos 1000;
      }
      ∷ [];
  tx_out = pays_to (pos 900) (replicate 20 7) ∷ [];
  lock_time = 0;
}

keyed : key_for lib (tt ∷ []) (hex_encode compressed) ≡ some tt
unfolding key_for
keyed = rw (equal_bytes_refl (hex_encode compressed)) refl

parse_tx-sign_tx_example :
    (text : Bytes) × (msg_tx : MsgTx) × (sign_tx lib tx (tt ∷ []) ≡ ok text)
    × (text ≡ hex_encode (lib.serialize msg_tx))
    × (parse_tx lib text
        ≡ ok (record tx {
          hex_tx_id = lib.hash_string (lib.tx_hash msg_tx);
          tx_in = map (cleared lib) tx.tx_in;
        }))
parse_tx-sign_tx_example =
    parse_tx-sign_tx lib is_tx_lib tx (tt ∷ []) refl
      ((replicate 32 9, tt, refl, refl, keyed, refl), tt)
      (to_hash (pos 900) (replicate 20 7) refl (ground arith), tt)
