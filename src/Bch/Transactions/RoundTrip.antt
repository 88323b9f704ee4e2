-- ===== src/Bch/Transactions/RoundTrip.antt =====
-- Transactions that script/extension/bch.go signs and parses again.
use mathlib.Core.List.{map}
use egvm.Prelude.{◌<◌, ◌≡◌, refl, true, some, List, [], ◌∷◌, length, All, arith, ℤ, ◌==◌}
use egvm.Outcome.{ok}
use egvm.Bytes.{Bytes}
use egvm.Hex.{hex_encode, hex_decode-hex_encode}
use egvm.Bch.{TxOut, ScriptLib, IsShort, pk_script_of, parse_tx_out, op_return}
use egvm.Bch.Scripts.{
  IsByte, pays_to, carries, p2pkh_bytes, push_bytes, hash_of_p2pkh, no_data_of_p2pkh,
  no_hash_of_return, data_of_return, pushed_some, pays_to_script, carries_script, parsed,
}
use egvm.Bch.Transactions.{
  BchTx, WireOut, MsgTx, TxLib, each, parse_tx_outs, parse_tx_in_hex, add_tx_out, unsigned_tx,
  sign_tx_and_serialize, sign_tx, parse_tx,
}
use egvm.Bch.Transactions.Signing.{IsTxLib, IsSignable, cleared, each-some, signed_inputs}

-- An output to the hash of a public key, or one with data that fit into a script.
pub data IsWritable : TxOut → Type 0 where
  to_hash : (value : ℤ) (h : Bytes) → length h ≡ 20 → All IsByte h → IsWritable (pays_to value h)
  with_data :
      (value : ℤ) (bz : Bytes) (datas : List Bytes)
      → All IsShort (bz ∷ datas)
      → All (λ b. All IsByte b) (bz ∷ datas)
      → length (push_bytes (bz ∷ datas)) < 10000
      → IsWritable (carries value (bz ∷ datas))

written_out :
    (lib : ScriptLib) (out : TxOut)
    → IsWritable out
    → (s : Bytes) × (pk_script_of lib out ≡ some s) × (parse_tx_out lib out.value s ≡ out)
unfolding parse_tx_out
written_out lib _ (to_hash value h sized byte) = (
  p2pkh_bytes h,
  pays_to_script lib value h sized byte,
  parsed value _ _ _ _ (hash_of_p2pkh h sized) (no_data_of_p2pkh lib h),
)
written_out lib _ (with_data value bz datas short bytes fits) = (
  op_return ∷ push_bytes (bz ∷ datas),
  carries_script lib value bz datas short bytes fits,
  parsed value _ _ _ _ (no_hash_of_return (push_bytes (bz ∷ datas)))
      (data_of_return lib (bz ∷ datas) short (pushed_some bz datas)),
)

module _ (lib : TxLib) (laws : IsTxLib lib) where
  added_out :
      (out : TxOut) (s : Bytes)
      → pk_script_of lib.scripts out ≡ some s
      → add_tx_out lib out ≡ some (record { value = out.value; pk_script = s })
  unfolding add_tx_out
  added_out out s e = rw e refl

  written_outs :
      (outs : List TxOut)
      → All IsWritable outs
      → (ws : List WireOut) × (each (add_tx_out lib) outs ≡ some ws) × (parse_tx_outs lib ws ≡ outs)
  unfolding each parse_tx_outs
  written_outs [] all = ([], refl, refl)
  written_outs (out ∷ outs) all =
      let (s, made, read) = written_out lib.scripts out all.0 in
      let (ws, mades, reads) = written_outs outs all.1 in
      let w : WireOut = record { value = out.value; pk_script = s } in
      (
        w ∷ ws,
        each-some (add_tx_out lib) out w outs ws (added_out out s made) mades,
        rw (read, reads) refl,
      )

  -- A transaction with a key for each input and outputs that can be written is signed; the text is
  -- the hex of a serialized message, and is parsed as the transaction with the id of that message,
  -- except that each input has the sequence number 0 and the value 0.
  pub parse_tx-sign_tx :
      (tx : BchTx) (keys : List lib.PrivateKey)
      → length tx.tx_in ≡ length keys
      → All (IsSignable lib keys) tx.tx_in
      → All IsWritable tx.tx_out
      → (text : Bytes) × (msg_tx : MsgTx) × (sign_tx lib tx keys ≡ ok text)
        × (text ≡ hex_encode (lib.serialize msg_tx))
        × (parse_tx lib text
            ≡ ok (record tx {
              hex_tx_id = lib.hash_string (lib.tx_hash msg_tx);
              tx_in = map (cleared lib) tx.tx_in;
            }))
  unfolding sign_tx parse_tx sign_tx_and_serialize parse_tx_in_hex unsigned_tx
  parse_tx-sign_tx tx keys sized signable writable =
      let (ws, added, same_length, go) = signed_inputs lib laws keys tx.tx_in signable in
      let (outs, mades, reads) = written_outs tx.tx_out writable in
      let m : MsgTx = record {
        version = tx.version;
        tx_in = ws;
        tx_out = outs;
        lock_time = tx.lock_time;
      } in
      let (signed, ran, parses) = go (lib.new_tx_sig_hashes m) m [] in
      let m' = record m { tx_in = signed } in
      let bz = lib.serialize m' in
      let sized_test : (length tx.tx_in == length keys) ≡ true = ground (arith, sized) in
      (
        hex_encode bz,
        m',
        rw (sized_test, added) (rw mades (rw ran refl)),
        refl,
        rw (hex_decode-hex_encode bz (laws.serialized_IsByte m'))
            (rw (laws.deserializes m') (rw parses (rw reads refl))),
      )
