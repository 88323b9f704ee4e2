-- ===== src/Tests/Ciphers.antt =====
-- The theorems on the keys of the scripts at concrete ciphers.
use egvm.Prelude.{
  ℕ, ◌<◌, ltb, ◌-◌, ◌≡◌, refl, sym, ap, ◌∙◌, subst, true, none, some, [], ◌∷◌, ◌++◌, length,
  length-append, replicate, take, drop, take-append-length, drop-append-length, ◌==◌, if◌then◌else◌,
  arith,
}
use egvm.Outcome.{ok, panic, runtime_error}
use egvm.Bytes.{Bytes}
use egvm.Goja.{array_buffer}
use egvm.Crypto.{AesLib, EciesLib, aesgcm_decrypt, encrypt, decrypt, ephemeral_key}
use egvm.Crypto.RoundTrip.{IsGcm, IsEcies, decrypt-encrypt}
use egvm.Crypto.Signatures.{GethLib}
use egvm.Crypto.Reuse.{encrypt-reused}

-- A cipher that adds a tag of zeros.
abbrev aes : AesLib
aes = record {
  Block = Unit;
  Gcm = Unit;
  new_cipher = λ secret. some tt;
  new_gcm_with_nonce_size = λ block n. some tt;
  seal = λ gcm nonce msg.
      if length nonce == 16 then ok (msg ++ replicate 16 0) else panic runtime_error;
  open_sealed = λ gcm nonce c.
      if length nonce == 16 then ok (some (take (length c - 16) c)) else panic runtime_error;
}

take-tag :
    (body tag : Bytes) → length tag ≡ 16 → take (length (body ++ tag) - 16) (body ++ tag) ≡ body
take-tag body tag sized =
    subst (λ n. take n (body ++ tag) ≡ body) (omega (arith, sized, length-append body tag))
      (take-append-length body tag)

gcm : IsGcm aes
gcm = record {
  sealed = λ block g nonce msg made sized. (
    msg ++ replicate 16 0,
    rw sized refl,
    length-append msg (replicate 16 0),
    rw sized (ap (λ bz. ok (some bz)) (take-tag msg (replicate 16 0) refl)),
  );
  missized = λ block g nonce bz made missized. (ground (arith, missized), ground (arith, missized));
}

abbrev ecies : EciesLib
ecies = record {
  aes = aes;
  sha256 = λ bz. replicate 32 7;
  PrivateKey = Unit;
  PublicKey = Unit;
  new_private_key_from_bytes = λ bz. tt;
  new_public_key_from_bytes = λ bz. (tt, true);
  secret_number = λ sk. 1;
  public_key = λ sk. tt;
  public_bytes = λ k compressed. ok (replicate 65 4);
  ecdh = λ sk k. ok (some (replicate 16 1));
  encapsulate = λ sk k. ok (some (replicate 16 1));
  decapsulate = λ k sk. ok (some (replicate 16 1));
  decrypt =
      λ sk bz. if ltb 97 (length bz) then ok (some (drop 16 (drop 16 (drop 65 bz)))) else ok none;
}

skip : (n : ℕ) (xs ys : Bytes) → length xs ≡ n → drop n (xs ++ ys) ≡ ys
skip n xs ys sized = subst (λ m. drop m (xs ++ ys) ≡ ys) sized (drop-append-length xs ys)

long_enough :
    (bz : Bytes) → 97 < length bz → ecies.decrypt tt bz ≡ ok (some (drop 16 (drop 16 (drop 65 bz))))
long_enough bz h = ground (arith, h)

decrypts :
    (ek_bytes nonce tag body shared msg : Bytes)
    → length ek_bytes ≡ 65
    → length nonce ≡ 16
    → length tag ≡ 16
    → 0 < length body
    → aesgcm_decrypt aes shared nonce (body ++ tag) ≡ ok (some msg)
    → ecies.decrypt tt (ek_bytes ++ (nonce ++ (tag ++ body))) ≡ ok (some msg)
unfolding aesgcm_decrypt
decrypts ek_bytes nonce tag body shared msg a b c nonempty e =
    long_enough (ek_bytes ++ (nonce ++ (tag ++ body))) (
      omega (
        arith,
        length-append ek_bytes (nonce ++ (tag ++ body)),
        length-append nonce (tag ++ body),
        length-append tag body,
        a,
        b,
        c,
        nonempty,
      ))
    ∙ ap (λ bz. ok (some bz))
        (ap (λ bz. drop 16 (drop 16 bz)) (skip 65 ek_bytes (nonce ++ (tag ++ body)) a)
          ∙ (ap (drop 16) (skip 16 nonce (tag ++ body) b) ∙ skip 16 tag body c))
    ∙ (ap (λ bz. ok (some bz)) (sym (take-tag body tag c))
        ∙ subst
            (λ n.
              (if n == 16
                then ok (some (take (length (body ++ tag) - 16) (body ++ tag)))
                else panic runtime_error)
              ≡ ok (some msg))
            b e)

is_ecies : IsEcies ecies
is_ecies = record {
  aes = gcm;
  hash_sized = λ bz. refl;
  public_bytes = λ sk. (replicate 65 4, refl, refl, refl);
  agrees = λ ek sk. (replicate 16 1, tt, tt, refl, refl, refl, refl);
  decrypts = λ sk ek_bytes nonce tag body shared msg ek_pub a b c n parsed agreed e.
      decrypts ek_bytes nonce tag body shared msg a b c n e;
  too_short = λ sk bz short. ground (arith, short);
}

decrypt-encrypt_example :
    (out : Bytes) × (encrypt ecies tt (array_buffer (5 ∷ 6 ∷ []) ∷ array_buffer [] ∷ []) ≡ ok out)
    × (decrypt ecies tt (array_buffer out ∷ []) ≡ ok (some (5 ∷ 6 ∷ [])))
decrypt-encrypt_example = decrypt-encrypt ecies is_ecies tt (5 ∷ 6 ∷ []) []

abbrev geth : GethLib
geth = record { verify_signature = λ k d s. length s == 64; ecrecover = λ h s. none }

abbrev pubkey_33 : Bytes
pubkey_33 = replicate 33 2

abbrev digest_32 : Bytes
digest_32 = replicate 32 3

abbrev signature_65 : Bytes
signature_65 = replicate 65 4

encrypt-reused_example :
    (out : Bytes) × (out' : Bytes) × (encrypt ecies tt
        (array_buffer (9 ∷ []) ∷ array_buffer (replicate 17 1) ∷ [])
      ≡ ok out)
    × (encrypt ecies tt (array_buffer (1 ∷ 9 ∷ []) ∷ array_buffer (replicate 16 1) ∷ []) ≡ ok out')
    × (ephemeral_key ecies (1 ∷ 9 ∷ []) (replicate 16 1)
        ≡ ephemeral_key ecies (9 ∷ []) (replicate 17 1))
    × (ok (replicate 65 4) ≡ ok (take 65 out))
    × (ok (replicate 65 4) ≡ ok (take 65 out'))
    × (take 16 (drop 65 out) ≡ replicate 16 1)
    × (take 16 (drop 65 out') ≡ replicate 16 1)
encrypt-reused_example =
    encrypt-reused ecies is_ecies tt (9 ∷ []) (replicate 17 1) (1 ∷ 9 ∷ []) (replicate 16 1) refl
      (omega arith) (omega arith)
