-- ===== src/Bch/Scripts.antt =====
-- The scripts that script/extension/bch.go writes into outputs and what it reads from them.
use mathlib.Core.List.{map, flatten}
use egvm.Prelude.{
  ℕ, suc, ◌<◌, ◌≡◌, refl, sym, ap, ◌∙◌, Bool, true, false, Option, none, some, List, [], ◌∷◌, ◌++◌,
  length, take, drop, get_elem?, subst, take-append-length, length-append, ltb, ◌==◌, ◌&&◌,
  if◌then◌else◌, All, arith, ℤ,
}
use egvm.Bytes.{Bytes}
use egvm.Hex.{hex_encode, hex_decode-hex_encode}
use egvm.Bch.{
  Item, opcode, pushed, IsShort, IsPlain, item_bytes, item_data, ScriptLib, TxOut, op_return,
  op_dup, op_equalverify, op_hash160, op_checksig, byte_is, get_pubkey_hash_from_pk_script,
  decode_elements, get_op_ret_data, pay_to_pub_key_hash_pk_script, op_ret_pk_script, pk_script_of,
}

abbrev pub IsByte : ℕ → Type 0
IsByte b = b < 256

-- An output to the hash of a public key, and one that carries data.
abbrev pub pays_to : ℤ → Bytes → TxOut
pays_to value h = record { value = value; hex_pubkey_hash = hex_encode h; hex_data_elements = [] }

abbrev pub carries : ℤ → List Bytes → TxOut
carries value datas = record {
  value = value;
  hex_pubkey_hash = [];
  hex_data_elements = map hex_encode datas;
}

abbrev p2pkh : Bytes → List Item
p2pkh h =
    opcode op_dup ∷ opcode op_hash160 ∷ pushed h ∷ opcode op_equalverify ∷ opcode op_checksig ∷ []

decode_elements-encoded :
    (datas : List Bytes)
    → All (λ bz. All IsByte bz) datas
    → decode_elements (map hex_encode datas) ≡ some datas
unfolding decode_elements
decode_elements-encoded [] h = refl
decode_elements-encoded (bz ∷ datas) h =
    rw (hex_decode-hex_encode bz h.0, decode_elements) (rw (decode_elements-encoded datas h.1) refl)

abbrev pub p2pkh_bytes : Bytes → Bytes
p2pkh_bytes h = 118 ∷ 169 ∷ length h ∷ (h ++ (136 ∷ 172 ∷ []))

pub p2pkh_script :
    (lib : ScriptLib) (h : Bytes)
    → length h ≡ 20
    → pay_to_pub_key_hash_pk_script lib h ≡ some (p2pkh_bytes h)
unfolding pay_to_pub_key_hash_pk_script flatten
p2pkh_script lib h sized =
    lib.script_plain (p2pkh h)
      (
        omega arith,
        (
          omega arith,
          ((omega (arith, sized), omega (arith, sized)), (omega arith, (omega arith, tt))),
        ),
      )
      (omega (arith, sized, length-append h (136 ∷ 172 ∷ [])))

get_elem-behind :
    (xs : Bytes) (a b : ℕ)
    → (get_elem? (xs ++ (a ∷ b ∷ [])) (length xs) ≡ some a)
      × (get_elem? (xs ++ (a ∷ b ∷ [])) (suc (length xs)) ≡ some b)
get_elem-behind [] a b = (refl, refl)
get_elem-behind (x ∷ xs) a b = get_elem-behind xs a b

byte_is-some : (bz : Bytes) (i c : ℕ) → get_elem? bz i ≡ some c → byte_is bz i c ≡ true
unfolding byte_is
byte_is-some bz i c e =
    ap (λ o. elim o as (λ x. Bool) [ none ↦ false | some b ↦ b == c ]) e ∙ ground arith

five {ℓ} :
    {A : Type ℓ} (x y : A) (a b c d e : Bool)
    → a ≡ true
    → b ≡ true
    → c ≡ true
    → d ≡ true
    → e ≡ true
    → (if a && b && c && d && e then x else y) ≡ x
five x y a b c d e ha hb hc hd he = rw (ha, hb, hc, hd, he) refl

pub hash_of_p2pkh :
    (h : Bytes) → length h ≡ 20 → get_pubkey_hash_from_pk_script (p2pkh_bytes h) ≡ hex_encode h
unfolding get_pubkey_hash_from_pk_script
hash_of_p2pkh h sized =
    let tail = 136 ∷ 172 ∷ [] in
    let (first, second) = get_elem-behind h 136 172 in
    let verify : get_elem? (h ++ tail) 20 ≡ some 136 =
      subst (λ n. get_elem? (h ++ tail) n ≡ some 136) sized first in
    let check : get_elem? (h ++ tail) 21 ≡ some 172 =
      subst (λ n. get_elem? (h ++ tail) (suc n) ≡ some 172) sized second in
    let front : take 20 (h ++ tail) ≡ h =
      subst (λ n. take n (h ++ tail) ≡ h) sized (take-append-length h tail) in
    let all : (length (p2pkh_bytes h) == 25) ≡ true = ground (arith, sized, length-append h tail) in
    five (hex_encode (take 20 (drop 3 (p2pkh_bytes h)))) [] (length (p2pkh_bytes h) == 25)
      (byte_is (p2pkh_bytes h) 0 op_dup) (byte_is (p2pkh_bytes h) 1 op_hash160)
      (byte_is (p2pkh_bytes h) 23 op_equalverify) (byte_is (p2pkh_bytes h) 24 op_checksig) all
      (byte_is-some (p2pkh_bytes h) 0 op_dup refl) (byte_is-some (p2pkh_bytes h) 1 op_hash160 refl)
      (byte_is-some (p2pkh_bytes h) 23 op_equalverify verify)
      (byte_is-some (p2pkh_bytes h) 24 op_checksig check)
    ∙ ap hex_encode front

pub no_data_of_p2pkh : (lib : ScriptLib) (h : Bytes) → get_op_ret_data lib (p2pkh_bytes h) ≡ []
unfolding get_op_ret_data byte_is
no_data_of_p2pkh lib h = ground arith

abbrev return_items : List Bytes → List Item
return_items datas = opcode op_return ∷ map (λ bz. pushed bz) datas

return_items-IsPlain :
    (datas : List Bytes) → All IsShort datas → All IsPlain (map (λ bz. pushed bz) datas)
return_items-IsPlain [] h = tt
return_items-IsPlain (bz ∷ datas) h = (h.0, return_items-IsPlain datas h.1)

return_items-data :
    (datas : List Bytes) → flatten (map item_data (map (λ bz. pushed bz) datas)) ≡ datas
unfolding flatten
return_items-data [] = refl
return_items-data (bz ∷ datas) = ap (λ ds. bz ∷ ds) (return_items-data datas)

-- The bytes of the pushes.
abbrev pub push_bytes : List Bytes → Bytes
push_bytes datas = flatten (map item_bytes (map (λ bz. pushed bz) datas))

return_script :
    (lib : ScriptLib) (datas : List Bytes)
    → All IsShort datas
    → All (λ bz. All IsByte bz) datas
    → length (push_bytes datas) < 10000
    → op_ret_pk_script lib (map hex_encode datas) ≡ some (op_return ∷ push_bytes datas)
unfolding op_ret_pk_script flatten
return_script lib datas short bytes fits =
    ap
      (λ o. elim o as (λ x. Option Bytes) [
        | none ↦ none
        | some ds ↦ lib.script (opcode op_return ∷ map (λ bz. pushed bz) ds)
      ])
      (decode_elements-encoded datas bytes)
    ∙ lib.script_plain (return_items datas) (omega arith, return_items-IsPlain datas short)
        (omega (arith, fits))

pub data_of_return :
    (lib : ScriptLib) (datas : List Bytes)
    → All IsShort datas
    → 0 < length (push_bytes datas)
    → get_op_ret_data lib (op_return ∷ push_bytes datas) ≡ map hex_encode datas
unfolding get_op_ret_data byte_is flatten
data_of_return lib datas short some_data =
    let long : ltb 1 (length (op_return ∷ push_bytes datas)) ≡ true = ground (arith, some_data) in
    subst
      (λ b.
        (if b && byte_is (op_return ∷ push_bytes datas) 0 op_return
          then (elim (lib.pushed_data (op_return ∷ push_bytes datas)) as (λ x. List Bytes) [
            | none ↦ []
            | some ds ↦ map hex_encode ds
          ])
          else [])
        ≡ map hex_encode datas)
      (sym long)
      (ap (λ o. elim o as (λ x. List Bytes) [ none ↦ [] | some ds ↦ map hex_encode ds ])
          (lib.pushed_data_plain (return_items datas)
            (omega arith, return_items-IsPlain datas short))
        ∙ ap (map hex_encode) (return_items-data datas))

pub no_hash_of_return : (rest : Bytes) → get_pubkey_hash_from_pk_script (op_return ∷ rest) ≡ []
unfolding get_pubkey_hash_from_pk_script byte_is
no_hash_of_return rest = ground arith

pub pushed_some : (bz : Bytes) (datas : List Bytes) → 0 < length (push_bytes (bz ∷ datas))
unfolding flatten
pushed_some bz datas = omega arith

encoded_some : (h : Bytes) → length h ≡ 20 → (length (hex_encode h) == 0) ≡ false
unfolding hex_encode
encoded_some [] sized = absurd (omega (arith, sized))
encoded_some (b ∷ h) sized = ground arith

pub pays_to_script :
    (lib : ScriptLib) (value : ℤ) (h : Bytes)
    → length h ≡ 20
    → All IsByte h
    → pk_script_of lib (pays_to value h) ≡ some (p2pkh_bytes h)
unfolding pk_script_of
pays_to_script lib value h sized bytes = rw (encoded_some h sized) (
    ap
      (λ o. elim o as (λ x. Option Bytes) [
        | none ↦ none
        | some bz ↦ pay_to_pub_key_hash_pk_script lib bz
      ])
      (hex_decode-hex_encode h bytes)
    ∙ p2pkh_script lib h sized)

pub carries_script :
    (lib : ScriptLib) (value : ℤ) (bz : Bytes) (datas : List Bytes)
    → All IsShort (bz ∷ datas)
    → All (λ b. All IsByte b) (bz ∷ datas)
    → length (push_bytes (bz ∷ datas)) < 10000
    → pk_script_of lib (carries value (bz ∷ datas)) ≡ some (op_return ∷ push_bytes (bz ∷ datas))
unfolding pk_script_of
carries_script lib value bz datas short bytes fits =
    let elements = map hex_encode (bz ∷ datas) in
    let present : ltb 0 (length elements) ≡ true = ground arith in
    subst
      (λ b.
        (if b then op_ret_pk_script lib elements else none)
        ≡ some (op_return ∷ push_bytes (bz ∷ datas)))
      (sym present) (return_script lib (bz ∷ datas) short bytes fits)

pub parsed :
    (value : ℤ) (a a' : Bytes) (b b' : List Bytes)
    → a ≡ a'
    → b ≡ b'
    → ◌≡◌ {A = TxOut}
        (record { value = value; hex_pubkey_hash = a; hex_data_elements = b })
        (record { value = value; hex_pubkey_hash = a'; hex_data_elements = b' })
parsed value a a' b b' ea eb = cc (ea, eb)
