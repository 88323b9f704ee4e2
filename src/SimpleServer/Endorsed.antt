-- ===== src/SimpleServer/Endorsed.antt =====
-- What a report and a token of the servers of keygrantor/simpleclient.go and keygrantor/cmd/main.go
-- endorse.
use egvm.Prelude.{
  ◌-◌, ◌<◌, ◌≡◌, refl, sym, ap, ◌∙◌, subst, Option, some, List, [], ◌∷◌, ◌++◌, append-nil, length,
  length-append, take, drop, replicate, take-append-length, drop-append-length, All, arith, inl,
  inr, ◌⊎◌,
}
use egvm.Bytes.{Bytes}
use egvm.Hex.{hex_encode, hex_decode, hex_decode-hex_encode}
use egvm.SimpleServer.{
  Called, done, failed, answered, internal_server_error, EnclaveLib, token_of, report_data,
  serve_cert, serve_pubkey, serve_report, serve_token, serve_xpub, serve_xpub_report,
}

Called-cases : (c : Called) → ((bz : Bytes) × (c ≡ done bz)) ⊎ ((text : Bytes) × (c ≡ failed text))
Called-cases (done bz) = inl (bz, refl)
Called-cases (failed text) = inr (text, refl)

abbrev IsBytes : Bytes → Type 0
IsBytes bz = All (λ b. b < 256) bz

token_of-append :
    (create : Bytes → Called) (refusing urls : List Bytes) (url token : Bytes) (before : Called)
    → All (λ u. (text : Bytes) × (create u ≡ failed text)) refusing
    → create url ≡ done token
    → token_of create (refusing ++ url ∷ urls) before ≡ done token
unfolding token_of
token_of-append create [] urls url token before tt e = rw e refl
token_of-append create (u ∷ refusing) urls url token before ((text, fails), more) e =
    rw fails (token_of-append create refusing urls url token (failed text) more e)

-- The first provider that gives a token is the one whose token /token hands out.
pub serve_token-append :
    (lib : EnclaveLib) (cert pub_key_bz token url : Bytes) (refusing urls : List Bytes)
    → lib.provider_urls ≡ refusing ++ url ∷ urls
    → All
        (λ u. (text : Bytes) × (lib.create_token (report_data lib cert pub_key_bz) u ≡ failed text))
        refusing
    → lib.create_token (report_data lib cert pub_key_bz) url ≡ done token
    → serve_token lib cert pub_key_bz ≡ answered token
unfolding serve_token
serve_token-append lib cert pub_key_bz token url refusing urls order fails e =
    let create = lib.create_token (report_data lib cert pub_key_bz) in
    let first =
      subst (λ us. token_of create us (done []) ≡ done token) (sym order)
        (token_of-append create refusing urls url token (done []) fails e) in
    ap (λ c. elim c [ done t ↦ answered t | failed text ↦ internal_server_error text ]) first

-- What another enclave reads in the reports: SHA-256 gives 32 bytes, and the data of a report are the
-- ones it was made for, with zeros behind up to 64 bytes.
pub record IsVerified (lib : EnclaveLib) (verify : Bytes → Option Bytes) : Type 0 where
  pub hash_sized : (bz : Bytes) → length (lib.sha256 bz) ≡ 32
  pub hash_IsBytes : (bz : Bytes) → IsBytes (lib.sha256 bz)
  pub report_IsBytes : (bz report : Bytes) → lib.get_remote_report bz ≡ done report → IsBytes report
  pub verifies :
      (bz report : Bytes)
      → lib.get_remote_report bz ≡ done report
      → verify report ≡ some (bz ++ replicate (64 - length bz) 0)

module _ (lib : EnclaveLib) (verify : Bytes → Option Bytes) (laws : IsVerified lib verify) where
  reported :
      (cert pub_key_bz text : Bytes)
      → serve_report lib cert pub_key_bz ≡ answered text
      → (report : Bytes) × (lib.get_remote_report (report_data lib cert pub_key_bz) ≡ done report)
        × (text ≡ hex_encode report)
  unfolding serve_report
  reported cert pub_key_bz text e =
      elim (Called-cases (lib.get_remote_report (report_data lib cert pub_key_bz))) [
        | inl (report, made) ↦ (report, made, grind (arith, made, e))
        | inr (reason, fails) ↦ absurd (grind (arith, fails, e))
      ]

  length-report_data : (cert pub_key_bz : Bytes) → length (report_data lib cert pub_key_bz) ≡ 64
  unfolding report_data
  length-report_data cert pub_key_bz = omega (
    arith,
    length-append (lib.sha256 cert) (lib.sha256 pub_key_bz),
    laws.hash_sized cert,
    laws.hash_sized pub_key_bz,
  )

  verified_data :
      (cert pub_key_bz report : Bytes)
      → lib.get_remote_report (report_data lib cert pub_key_bz) ≡ done report
      → verify report ≡ some (report_data lib cert pub_key_bz)
  verified_data cert pub_key_bz report made =
      let data_bz = report_data lib cert pub_key_bz in
      laws.verifies data_bz report made
      ∙ ap (λ n. some (data_bz ++ replicate (64 - n) 0)) (length-report_data cert pub_key_bz)
      ∙ ap some (append-nil data_bz)

  take-report_data :
      (cert pub_key_bz : Bytes) → take 32 (report_data lib cert pub_key_bz) ≡ lib.sha256 cert
  unfolding report_data
  take-report_data cert pub_key_bz =
      subst (λ n. take n (lib.sha256 cert ++ lib.sha256 pub_key_bz) ≡ lib.sha256 cert)
        (laws.hash_sized cert) (take-append-length (lib.sha256 cert) (lib.sha256 pub_key_bz))

  drop-report_data :
      (cert pub_key_bz : Bytes) → drop 32 (report_data lib cert pub_key_bz) ≡ lib.sha256 pub_key_bz
  unfolding report_data
  drop-report_data cert pub_key_bz =
      subst (λ n. drop n (lib.sha256 cert ++ lib.sha256 pub_key_bz) ≡ lib.sha256 pub_key_bz)
        (laws.hash_sized cert) (drop-append-length (lib.sha256 cert) (lib.sha256 pub_key_bz))

  -- A report that the server of a SimpleClient hands out can be decoded and verified, and endorses
  -- the rest of what the server hands out: the data in it start with the hash of the certificate,
  -- which is what the body of /cert decodes to, and the body of /pubkey decodes to what follows.
  pub serve_report-endorses :
      (cert pub_key_bz text : Bytes)
      → IsBytes cert
      → serve_report lib cert pub_key_bz ≡ answered text
      → (report : Bytes) × (data_bz : Bytes) × (cert_bz : Bytes) × (hex_decode text ≡ some report)
        × (verify report ≡ some data_bz)
        × (length data_bz ≡ 64)
        × (hex_decode (serve_cert cert).body ≡ some cert_bz)
        × (take 32 data_bz ≡ lib.sha256 cert_bz)
        × (hex_decode (serve_pubkey lib pub_key_bz).body ≡ some (drop 32 data_bz))
  unfolding serve_cert serve_pubkey
  serve_report-endorses cert pub_key_bz text small e =
      let (report, made, same) = reported cert pub_key_bz text e in
      (
        report,
        report_data lib cert pub_key_bz,
        cert,
        ap hex_decode same ∙ hex_decode-hex_encode report (laws.report_IsBytes _ report made),
        verified_data cert pub_key_bz report made,
        length-report_data cert pub_key_bz,
        hex_decode-hex_encode cert small,
        take-report_data cert pub_key_bz,
        hex_decode-hex_encode (lib.sha256 pub_key_bz) (laws.hash_IsBytes pub_key_bz)
            ∙ ap some (sym (drop-report_data cert pub_key_bz)),
      )

  -- The same for the key server: the data of its report start with the hash of what /xpub hands
  -- out.
  pub serve_xpub_report-endorses :
      (b58 text : Bytes)
      → serve_xpub_report lib b58 ≡ answered text
      → (report : Bytes) × (data_bz : Bytes) × (hex_decode text ≡ some report)
        × (verify report ≡ some data_bz)
        × (take 32 data_bz ≡ lib.sha256 (serve_xpub b58).body)
  unfolding serve_xpub_report serve_xpub
  serve_xpub_report-endorses b58 text e =
      let hash = lib.sha256 b58 in
      elim (Called-cases (lib.get_remote_report hash)) [
        | inl (report, made) ↦ (
          report,
          hash ++ replicate (64 - length hash) 0,
          ap hex_decode (grind (arith, made, e))
              ∙ hex_decode-hex_encode report (laws.report_IsBytes hash report made),
          laws.verifies hash report made,
          subst (λ n. take n (hash ++ replicate (64 - length hash) 0) ≡ hash) (laws.hash_sized b58)
              (take-append-length hash (replicate (64 - length hash) 0)),
        )
        | inr (reason, fails) ↦ absurd (grind (arith, fails, e))
      ]
