-- ===== src/Crypto/RoundTrip.antt =====
-- script/extension/crypto.go: what was encrypted is decrypted again, with AES-GCM and with the keys.
use egvm.Prelude.{
  ◌-◌, ◌+◌, ◌<◌, ◌≤◌, Option, none, sym, ap, subst, ◌≡◌, ◌≢◌, refl, ◌∙◌, true, false, some, [], ◌∷◌,
  ◌++◌, length, length-append, length-drop, length-take, take-drop, take, drop, arith,
}
use egvm.Outcome.{ok, panic, runtime_error}
use egvm.Bytes.{Bytes}
use egvm.Goja.{array_buffer, get_two_array_buffers, get_three_array_buffers, get_one_array_buffer}
use egvm.Crypto.{
  AesLib, EciesLib, aesgcm_encrypt, aesgcm_decrypt, aes_gcm_encrypt, aes_gcm_decrypt, ephemeral_key,
  nonce_of, laid_out, ecies_encrypt, encrypt, decrypt,
}

-- The documented behaviour of AES-GCM with the nonce size 16: for a nonce of that length, Seal
-- gives the encrypted bytes with a tag of 16 bytes behind, which Open takes back; for a nonce of
-- another length both panic.
pub record IsGcm (aes : AesLib) : Type 0 where
  pub sealed :
      (block : aes.Block) (gcm : aes.Gcm) (nonce msg : Bytes)
      → aes.new_gcm_with_nonce_size block 16 ≡ some gcm
      → length nonce ≡ 16
      → (c : Bytes) × (aes.seal gcm nonce msg ≡ ok c)
        × (length c ≡ length msg + 16)
        × (aes.open_sealed gcm nonce c ≡ ok (some msg))
  pub missized :
      (block : aes.Block) (gcm : aes.Gcm) (nonce bz : Bytes)
      → aes.new_gcm_with_nonce_size block 16 ≡ some gcm
      → length nonce ≢ 16
      → (aes.seal gcm nonce bz ≡ panic runtime_error)
        × (aes.open_sealed gcm nonce bz ≡ panic runtime_error)

module _ (aes : AesLib) (laws : IsGcm aes) where
  -- What the encryption gives for a key that AES accepts.
  sealed_by :
      (secret nonce msg : Bytes) (block : aes.Block) (gcm : aes.Gcm)
      → aes.new_cipher secret ≡ some block
      → aes.new_gcm_with_nonce_size block 16 ≡ some gcm
      → length nonce ≡ 16
      → (c : Bytes) × (aesgcm_encrypt aes secret nonce msg ≡ ok (some c))
        × (length c ≡ length msg + 16)
        × (aesgcm_decrypt aes secret nonce c ≡ ok (some msg))
  unfolding aesgcm_encrypt aesgcm_decrypt
  sealed_by secret nonce msg block gcm ciphered made sized =
      let (c, seals, tagged, opens) = laws.sealed block gcm nonce msg made sized in
      (c, rw ciphered (rw made (rw seals refl)), tagged, rw ciphered (rw made opens))

  -- AesGcmEncrypt returns for a key that AES accepts and a nonce of 16 bytes, and AesGcmDecrypt
  -- with this key and nonce gives the message back.
  pub aes_gcm_decrypt-aes_gcm_encrypt :
      (secret nonce msg : Bytes) (block : aes.Block) (gcm : aes.Gcm)
      → aes.new_cipher secret ≡ some block
      → aes.new_gcm_with_nonce_size block 16 ≡ some gcm
      → length nonce ≡ 16
      → (c : Bytes) × (aes_gcm_encrypt aes
            (array_buffer secret ∷ array_buffer nonce ∷ array_buffer msg ∷ [])
          ≡ ok c)
        × (aes_gcm_decrypt aes (array_buffer secret ∷ array_buffer nonce ∷ array_buffer c ∷ [])
            ≡ ok (some msg))
  unfolding aes_gcm_encrypt aes_gcm_decrypt get_three_array_buffers
  aes_gcm_decrypt-aes_gcm_encrypt secret nonce msg block gcm ciphered made sized =
      let (c, seals, tagged, opens) = sealed_by secret nonce msg block gcm ciphered made sized in
      (c, rw seals refl, opens)

-- How ecies.Decrypt reads its input: the ephemeral public key in 65 bytes, the nonce and the tag in
-- 16 bytes each, and the encrypted bytes, of which it wants one at least; and that both ends reach
-- the same secret.
pub record IsEcies (lib : EciesLib) : Type 0 where
  pub aes : IsGcm lib.aes
  pub hash_sized : (bz : Bytes) → length (lib.sha256 bz) ≡ 32
  pub public_bytes :
      (sk : lib.PrivateKey)
      → (bz : Bytes) × (lib.public_bytes (lib.public_key sk) false ≡ ok bz)
        × (length bz ≡ 65)
        × (lib.new_public_key_from_bytes bz ≡ (lib.public_key sk, true))
  pub agrees :
      (ek sk : lib.PrivateKey)
      → (shared : Bytes) × (block : lib.aes.Block) × (gcm : lib.aes.Gcm) × (lib.encapsulate ek
            (lib.public_key sk)
          ≡ ok (some shared))
        × (lib.decapsulate (lib.public_key ek) sk ≡ ok (some shared))
        × (lib.aes.new_cipher shared ≡ some block)
        × (lib.aes.new_gcm_with_nonce_size block 16 ≡ some gcm)
  pub too_short : (sk : lib.PrivateKey) (bz : Bytes) → length bz ≤ 97 → lib.decrypt sk bz ≡ ok none
  pub decrypts :
      (sk : lib.PrivateKey) (ek_bytes nonce tag body shared msg : Bytes) (ek_pub : lib.PublicKey)
      → length ek_bytes ≡ 65
      → length nonce ≡ 16
      → length tag ≡ 16
      → 0 < length body
      → lib.new_public_key_from_bytes ek_bytes ≡ (ek_pub, true)
      → lib.decapsulate ek_pub sk ≡ ok (some shared)
      → aesgcm_decrypt lib.aes shared nonce (body ++ tag) ≡ ok (some msg)
      → lib.decrypt sk (ek_bytes ++ (nonce ++ (tag ++ body))) ≡ ok (some msg)

-- A message that is not empty.
abbrev pub not_empty : Bytes → Option Bytes
not_empty [] = none
not_empty (b ∷ msg) = some (b ∷ msg)

module _ (lib : EciesLib) (laws : IsEcies lib) where
  pub nonce_sized : (msg entropy : Bytes) → length (nonce_of lib msg entropy) ≡ 16
  unfolding nonce_of
  nonce_sized msg entropy = length-take 16 (entropy ++ lib.sha256 (entropy ++ msg)) (
      omega (
        arith,
        laws.hash_sized (entropy ++ msg),
        length-append entropy (lib.sha256 (entropy ++ msg)),
      ))

  laid_out-tagged :
      (ek_bytes nonce c : Bytes)
      → 16 ≤ length c
      → laid_out lib ek_bytes nonce c
        ≡ ok (some (ek_bytes ++ (nonce ++ (drop (length c - 16) c ++ take (length c - 16) c))))
  unfolding laid_out
  laid_out-tagged ek_bytes nonce c tagged = ground (arith, tagged)

  -- What eciesEncrypt gives for a message: the bytes of the ephemeral public key, the nonce, a tag
  -- and the encrypted bytes, which are as many as those of the message.
  pub record IsSealed (sk : lib.PrivateKey) (msg entropy out : Bytes) : Type 0 where
    pub ek_bytes : Bytes
    pub tag : Bytes
    pub body : Bytes
    pub shared : Bytes
    pub made : ecies_encrypt lib (lib.public_key sk) msg entropy ≡ ok (some out)
    pub layout : out ≡ ek_bytes ++ (nonce_of lib msg entropy ++ (tag ++ body))
    pub of_key :
        lib.public_bytes (lib.public_key (ephemeral_key lib msg entropy)) false ≡ ok ek_bytes
    pub parses :
        lib.new_public_key_from_bytes ek_bytes
        ≡ (lib.public_key (ephemeral_key lib msg entropy), true)
    pub decapsulates :
        lib.decapsulate (lib.public_key (ephemeral_key lib msg entropy)) sk ≡ ok (some shared)
    pub opens :
        aesgcm_decrypt lib.aes shared (nonce_of lib msg entropy) (body ++ tag) ≡ ok (some msg)
    pub key_sized : length ek_bytes ≡ 65
    pub tag_sized : length tag ≡ 16
    pub body_sized : length body ≡ length msg

  pub ecies_encrypt-IsSealed :
      (sk : lib.PrivateKey) (msg entropy : Bytes) → (out : Bytes) × IsSealed sk msg entropy out
  unfolding ecies_encrypt
  ecies_encrypt-IsSealed sk msg entropy =
      let ek = ephemeral_key lib msg entropy in
      let nonce = nonce_of lib msg entropy in
      let (ek_bytes, written, sized, parses) = laws.public_bytes ek in
      let (shared, block, gcm, encapsulates, decapsulates, ciphered, made) = laws.agrees ek sk in
      let (c, seals, tagged, opens) =
        sealed_by lib.aes laws.aes shared nonce msg block gcm ciphered made
          (nonce_sized msg entropy) in
      let split = length c - 16 in
      (
        ek_bytes ++ (nonce ++ (drop split c ++ take split c)),
        record {
          ek_bytes = ek_bytes;
          tag = drop split c;
          body = take split c;
          shared = shared;
          made = rw written (
              rw encapsulates
                (rw seals (laid_out-tagged ek_bytes nonce c (omega (arith, tagged)))));
          layout = refl;
          of_key = written;
          parses = parses;
          decapsulates = decapsulates;
          opens = rw (take-drop split c) opens;
          key_sized = sized;
          tag_sized = length-drop split c ∙ omega (arith, tagged);
          body_sized = length-take split c (omega (arith, tagged)) ∙ omega (arith, tagged);
        },
      )

  opened :
      (sk : lib.PrivateKey) (msg entropy out : Bytes)
      → IsSealed sk msg entropy out
      → lib.decrypt sk out ≡ ok (not_empty msg)
  opened sk [] entropy out s =
      let nonce = nonce_of lib [] entropy in
      laws.too_short sk out (
        omega (
          arith,
          ap length s.layout,
          length-append s.ek_bytes (nonce ++ (s.tag ++ s.body)),
          length-append nonce (s.tag ++ s.body),
          length-append s.tag s.body,
          nonce_sized [] entropy,
          s.key_sized,
          s.tag_sized,
          s.body_sized,
        ))
  opened sk (b ∷ msg) entropy out s =
      subst (λ bz. lib.decrypt sk bz ≡ ok (some (b ∷ msg))) (sym s.layout)
        (laws.decrypts sk s.ek_bytes (nonce_of lib (b ∷ msg) entropy) s.tag s.body s.shared
          (b ∷ msg) (lib.public_key (ephemeral_key lib (b ∷ msg) entropy)) s.key_sized
          (nonce_sized (b ∷ msg) entropy) s.tag_sized (omega (arith, s.body_sized)) s.parses
          s.decapsulates s.opens)

  -- Encrypt with a public key always returns, whatever the message and the entropy. Decrypt with the
  -- private key gives a message back that is not empty, and refuses what the empty one was encrypted
  -- to.
  pub decrypt-encrypt :
      (sk : lib.PrivateKey) (msg entropy : Bytes)
      → (out : Bytes) × (encrypt lib
            (lib.public_key sk)
            (array_buffer msg ∷ array_buffer entropy ∷ [])
          ≡ ok out)
        × (decrypt lib sk (array_buffer out ∷ []) ≡ ok (not_empty msg))
  unfolding encrypt decrypt get_two_array_buffers get_one_array_buffer
  decrypt-encrypt sk msg entropy =
      let (out, s) = ecies_encrypt-IsSealed sk msg entropy in
      (out, rw s.made refl, opened sk msg entropy out s)
