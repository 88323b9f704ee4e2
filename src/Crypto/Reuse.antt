-- ===== src/Crypto/Reuse.antt =====
-- script/extension/crypto.go: what eciesEncrypt reuses.
use egvm.Prelude.{
  ℕ, ◌≤◌, ◌≡◌, refl, sym, ap, ◌∙◌, List, [], ◌∷◌, ◌++◌, length, take, drop, arith, zero, suc, subst,
  false, take-append-length, drop-append-length,
}
use egvm.Bytes.{Bytes}
use egvm.Outcome.{ok}
use egvm.Goja.{array_buffer, get_two_array_buffers}
use egvm.Crypto.{EciesLib, ephemeral_key, nonce_of, encrypt}
use egvm.Crypto.RoundTrip.{IsEcies, IsSealed, ecies_encrypt-IsSealed, nonce_sized}

take-append-short :
    {A : Type 0} (n : ℕ) (xs ys : List A) → n ≤ length xs → take n (xs ++ ys) ≡ take n xs
take-append-short zero xs ys h = refl
take-append-short (suc n) [] ys h = absurd (omega (arith, h))
take-append-short (suc n) (x ∷ xs) ys h =
    ap (λ r. x ∷ r) (take-append-short n xs ys (omega (arith, h)))

prefix : (n : ℕ) (xs ys zs : Bytes) → length xs ≡ n → zs ≡ xs ++ ys → take n zs ≡ xs
prefix n xs ys zs sized e =
    ap (take n) e ∙ subst (λ m. take m (xs ++ ys) ≡ xs) sized (take-append-length xs ys)

behind : (n : ℕ) (xs ys zs : Bytes) → length xs ≡ n → zs ≡ xs ++ ys → drop n zs ≡ ys
behind n xs ys zs sized e =
    ap (drop n) e ∙ subst (λ m. drop m (xs ++ ys) ≡ ys) sized (drop-append-length xs ys)

module _ (lib : EciesLib) (laws : IsEcies lib) where
  nonce_of-long :
      (msg entropy : Bytes) → 16 ≤ length entropy → nonce_of lib msg entropy ≡ take 16 entropy
  unfolding nonce_of
  nonce_of-long msg entropy long = take-append-short 16 entropy (lib.sha256 (entropy ++ msg)) long

  same_ephemeral_key :
      (msg entropy msg' entropy' : Bytes)
      → entropy ++ msg ≡ entropy' ++ msg'
      → ephemeral_key lib msg entropy ≡ ephemeral_key lib msg' entropy'
  unfolding ephemeral_key
  same_ephemeral_key msg entropy msg' entropy' same =
      ap (λ bz. lib.new_private_key_from_bytes (lib.sha256 bz)) same

  same_start :
      (msg entropy msg' entropy' : Bytes)
      → entropy ++ msg ≡ entropy' ++ msg'
      → 16 ≤ length entropy
      → 16 ≤ length entropy'
      → take 16 entropy' ≡ take 16 entropy
  same_start msg entropy msg' entropy' same long long' =
      sym (take-append-short 16 entropy' msg' long')
      ∙ ap (take 16) (sym same)
      ∙ take-append-short 16 entropy msg long

  key_in_front :
      (sk : lib.PrivateKey) (msg entropy out : Bytes) (s : IsSealed lib laws sk msg entropy out)
      → lib.public_bytes (lib.public_key (ephemeral_key lib msg entropy)) false ≡ ok (take 65 out)
  key_in_front sk msg entropy out s =
      s.of_key ∙ ap ok (sym (prefix 65 s.ek_bytes _ out s.key_sized s.layout))

  nonce_behind :
      (sk : lib.PrivateKey) (msg entropy out : Bytes) (s : IsSealed lib laws sk msg entropy out)
      → 16 ≤ length entropy
      → take 16 (drop 65 out) ≡ take 16 entropy
  nonce_behind sk msg entropy out s long =
      prefix 16 (nonce_of lib msg entropy) _ _ (nonce_sized lib laws msg entropy)
        (behind 65 s.ek_bytes _ out s.key_sized s.layout)
      ∙ nonce_of-long msg entropy long

  -- Two messages, with entropies of 16 bytes or more, where entropy and message joined are the same,
  -- are encrypted under the same ephemeral private key and the same nonce: the two results start
  -- with the public key of that key in 65 bytes and go on with the first 16 bytes of the entropy.
  pub encrypt-reused :
      (sk : lib.PrivateKey) (msg entropy msg' entropy' : Bytes)
      → entropy ++ msg ≡ entropy' ++ msg'
      → 16 ≤ length entropy
      → 16 ≤ length entropy'
      → let ek = ephemeral_key lib msg entropy in
        (out : Bytes) × (out' : Bytes) × (encrypt lib
            (lib.public_key sk)
            (array_buffer msg ∷ array_buffer entropy ∷ [])
          ≡ ok out)
        × (encrypt lib (lib.public_key sk) (array_buffer msg' ∷ array_buffer entropy' ∷ [])
            ≡ ok out')
        × (ephemeral_key lib msg' entropy' ≡ ek)
        × (lib.public_bytes (lib.public_key ek) false ≡ ok (take 65 out))
        × (lib.public_bytes (lib.public_key ek) false ≡ ok (take 65 out'))
        × (take 16 (drop 65 out) ≡ take 16 entropy)
        × (take 16 (drop 65 out') ≡ take 16 entropy)
  unfolding encrypt get_two_array_buffers
  encrypt-reused sk msg entropy msg' entropy' same long long' =
      let (out, s) = ecies_encrypt-IsSealed lib laws sk msg entropy in
      let (out', s') = ecies_encrypt-IsSealed lib laws sk msg' entropy' in
      let same_key = sym (same_ephemeral_key msg entropy msg' entropy' same) in
      (
        out,
        out',
        rw s.made refl,
        rw s'.made refl,
        same_key,
        key_in_front sk msg entropy out s,
        subst (λ k. lib.public_bytes (lib.public_key k) false ≡ ok (take 65 out')) same_key
            (key_in_front sk msg' entropy' out' s'),
        nonce_behind sk msg entropy out s long,
        nonce_behind sk msg' entropy' out' s' long'
            ∙ same_start msg entropy msg' entropy' same long long',
      )
