-- ===== src/Bch/Transactions/Signing.antt =====
-- What signTxAndSerialize of script/extension/bch.go puts into a transaction.
use mathlib.Core.List.{map, flatten}
use egvm.Prelude.{
  ℕ, suc, ◌<◌, ◌≤◌, ◌≡◌, refl, sym, ap, ◌∙◌, subst, Option, some, List, [], ◌∷◌, ◌++◌, append_assoc,
  append-nil, length, length-append, All, arith, ℤ, pos,
}
use egvm.Bytes.{Bytes}
use egvm.Hex.{hex_encode, hex_decode, hex_decode-hex_encode}
use egvm.Bch.{ScriptLib, IsPlain, pushed, item_bytes, get_pubkey_from_sig_script}
use egvm.Bch.Scripts.{IsByte, p2pkh_bytes, p2pkh_script}
use egvm.Bch.Transactions.{
  TxIn, WireIn, MsgTx, TxLib, each, hash_type, parse_tx_in, add_tx_in, key_for,
  sign_tx_sig_hash_ecdsa, sig_script_of, sign_inputs,
}

-- The documented behaviour of the packages: a message is read back from its bytes, a hash from its
-- text; a signature is in DER form, a compressed key has 33 bytes.
pub record IsTxLib (lib : TxLib) : Type 0 where
  pub deserializes : (m : MsgTx) → lib.deserialize (lib.serialize m) ≡ some m
  pub serialized_IsByte : (m : MsgTx) → All IsByte (lib.serialize m)
  pub names : (h : Bytes) → length h ≡ 32 → lib.new_hash_from_str (lib.hash_string h) ≡ some h
  pub compressed_sized : (k : lib.PrivateKey) → length (lib.serialize_compressed k) ≡ 33
  pub compressed_IsByte : (k : lib.PrivateKey) → All IsByte (lib.serialize_compressed k)
  pub signs :
      (k : lib.PrivateKey) (h : Bytes)
      → (sig : Bytes) × (lib.sign_ecdsa k h ≡ some sig) × (1 ≤ length sig) × (length sig ≤ 72)
  pub hash160_sized : (bz : Bytes) → length (lib.hash160 bz) ≡ 20
  pub hashes :
      (script : Bytes) (hs : lib.SigHashes) (m : MsgTx) (idx : ℕ) (value : ℤ)
      → idx < length m.tx_in
      → (h : Bytes) × (lib.calc_signature_hash script hs hash_type m idx value ≡ some h)

module _ (lib : TxLib) where
  -- An input whose transaction is named by the text of a hash, and for which there is a key.
  abbrev pub IsSignable : List lib.PrivateKey → TxIn → Type 0
  IsSignable keys t =
      (h : Bytes) × (k : lib.PrivateKey) × (length h ≡ 32)
      × (t.previous_out_point.hex_tx_id ≡ lib.hash_string h)
      × (key_for lib keys t.hex_pubkey ≡ some k)
      × (t.hex_pubkey ≡ hex_encode (lib.serialize_compressed k))

  -- An input as it is read again.
  abbrev pub cleared : TxIn → TxIn
  cleared t = record t { sequence = 0; value = pos 0 }

pub each-some :
    {A B : Type 0} (f : A → Option B) (a : A) (b : B) (rest : List A) (bs : List B)
    → f a ≡ some b
    → each f rest ≡ some bs
    → each f (a ∷ rest) ≡ some (b ∷ bs)
unfolding each
each-some f a b rest bs e es = rw (e, each) (rw es refl)

pubkey_read :
    (lib : ScriptLib) (s sig pk : Bytes)
    → lib.pushed_data s ≡ some (sig ∷ pk ∷ [])
    → get_pubkey_from_sig_script lib s ≡ some (hex_encode pk)
unfolding get_pubkey_from_sig_script
pubkey_read lib s sig pk e = rw (e, get_pubkey_from_sig_script) refl

module _ (lib : TxLib) (laws : IsTxLib lib) where
  sig_script_lem :
      (sig : Bytes) (k : lib.PrivateKey)
      → 1 ≤ length sig
      → length sig ≤ 72
      → (s : Bytes) × (lib.scripts.script
            (pushed (sig ++ (hash_type ∷ [])) ∷ pushed (lib.serialize_compressed k) ∷ [])
          ≡ some s)
        × (get_pubkey_from_sig_script lib.scripts s
            ≡ some (hex_encode (lib.serialize_compressed k)))
  unfolding flatten
  sig_script_lem sig k some_sig short_sig =
      let full = sig ++ (hash_type ∷ []) in
      let pk = lib.serialize_compressed k in
      let items = pushed full ∷ pushed pk ∷ [] in
      let grown = length-append sig (hash_type ∷ []) in
      let key_sized = laws.compressed_sized k in
      let plain : All IsPlain items = (
        (omega (arith, grown, some_sig), omega (arith, grown, short_sig)),
        ((omega (arith, key_sized), omega (arith, key_sized)), tt),
      ) in
      (
        flatten (map item_bytes items),
        lib.scripts.script_plain items plain (
            omega (
              arith,
              grown,
              short_sig,
              key_sized,
              length-append full (length pk ∷ pk ++ []),
              length-append pk [],
            )),
        pubkey_read lib.scripts (flatten (map item_bytes items)) full pk
            (lib.scripts.pushed_data_plain items plain),
      )

  signed_script :
      (keys : List lib.PrivateKey) (hs : lib.SigHashes) (m : MsgTx) (idx : ℕ) (t : TxIn)
      → IsSignable lib keys t
      → idx < length m.tx_in
      → (s : Bytes) × (sig_script_of lib keys hs m idx t ≡ some s)
        × (get_pubkey_from_sig_script lib.scripts s ≡ some t.hex_pubkey)
  unfolding sig_script_of sign_tx_sig_hash_ecdsa
  signed_script keys hs m idx t (h, k, sized, named, found, key_text) inside =
      let pk = lib.serialize_compressed k in
      let decoded : hex_decode t.hex_pubkey ≡ some pk =
        ap hex_decode key_text ∙ hex_decode-hex_encode pk (laws.compressed_IsByte k) in
      let (sig_hash, hashed) = laws.hashes (p2pkh_bytes (lib.hash160 pk)) hs m idx t.value inside in
      let (sig, signed, some_sig, short_sig) = laws.signs k sig_hash in
      let (s, made, read) = sig_script_lem sig k some_sig short_sig in
      (
        s,
        rw (found, decoded, p2pkh_script lib.scripts (lib.hash160 pk) (laws.hash160_sized pk))
            (rw hashed (rw signed made)),
        read ∙ ap some (sym key_text),
      )

  abbrev wire_of : TxIn → Bytes → Bytes → WireIn
  wire_of t h s = record {
    previous_hash = h;
    previous_index = t.previous_out_point.index;
    signature_script = s;
    sequence = 0;
  }

  added_wire :
      (keys : List lib.PrivateKey) (t : TxIn) (given : IsSignable lib keys t)
      → add_tx_in lib t ≡ some (wire_of t given.0 [])
  unfolding add_tx_in
  added_wire keys t (h, k, sized, named, found, key_text) = rw (named, laws.names h sized) refl

  parsed_wire :
      (keys : List lib.PrivateKey) (t : TxIn) (given : IsSignable lib keys t) (s : Bytes)
      → get_pubkey_from_sig_script lib.scripts s ≡ some t.hex_pubkey
      → parse_tx_in lib (wire_of t given.0 s) ≡ some (cleared lib t)
  unfolding parse_tx_in
  parsed_wire keys t (h, k, sized, named, found, key_text) s read = rw (read, sym named) refl

  -- What the two loops over the inputs of a signable transaction give: messages that are read again
  -- as the inputs.
  pub signed_inputs :
      (keys : List lib.PrivateKey) (ts : List TxIn)
      → All (IsSignable lib keys) ts
      → (ws : List WireIn) × (each (add_tx_in lib) ts ≡ some ws)
        × (length ws ≡ length ts)
        × ((hs : lib.SigHashes) (m : MsgTx) (signed : List WireIn)
            → (out : List WireIn) × (sign_inputs lib keys hs m (length signed) signed ws ts
                ≡ some (signed ++ out))
              × (each (parse_tx_in lib) out ≡ some (map (cleared lib) ts)))
  unfolding each sign_inputs
  signed_inputs keys [] all =
      ([], refl, refl, λ hs m signed. ([], ap some (sym (append-nil signed)), refl))
  signed_inputs keys (t ∷ ts) all =
      let (ws, added, sized, go) = signed_inputs keys ts all.1 in
      let w = wire_of t all.0.0 [] in
      (
        w ∷ ws,
        each-some (add_tx_in lib) t w ts ws (added_wire keys t all.0) added,
        ap suc sized,
        λ hs m signed.
            let (s, made, read) =
              signed_script keys hs (record m { tx_in = signed ++ (w ∷ ws) }) (length signed) t
                all.0 (omega (arith, length-append signed (w ∷ ws))) in
            let w' = wire_of t all.0.0 s in
            let (out, ran, parses) = go hs m (signed ++ (w' ∷ [])) in
            (
              w' ∷ out,
              rw made (
                  subst
                    (λ n.
                      sign_inputs lib keys hs m n (signed ++ (w' ∷ [])) ws ts
                      ≡ some ((signed ++ (w' ∷ [])) ++ out))
                    (length-append signed (w' ∷ [])) ran
                  ∙ ap some (append_assoc signed (w' ∷ []) out)),
              each-some (parse_tx_in lib) w' (cleared lib t) out (map (cleared lib) ts)
                  (parsed_wire keys t all.0 s read) parses,
            ),
      )
