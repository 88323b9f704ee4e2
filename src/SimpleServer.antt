-- ===== src/SimpleServer.antt =====
-- keygrantor/simpleclient.go: the handlers of CreateAndStartHttpsServer; with the handlers of /xpub
-- and /report in keygrantor/cmd/main.go. The enclave and SHA-256 come from packages that are not part
-- of the repository; they are parameters.
pub mod Endorsed
use egvm.Prelude.{ℕ, List, [], ◌∷◌, ◌++◌}
use egvm.Bytes.{Bytes}
use egvm.Hex.{hex_encode}

-- What a call of a package gives: its bytes, or the text of its error.
pub data Called : Type 0 where
  done failed : Bytes → Called

-- The status of a response and the bytes that its handler wrote.
pub record Written : Type 0 where
  pub status : ℕ
  pub body : Bytes

abbrev pub answered : Bytes → Written
answered body = record { status = 200; body = body }

-- http.StatusInternalServerError with the text of an error
abbrev pub internal_server_error : Bytes → Written
internal_server_error text = record { status = 500; body = text }

pub record EnclaveLib : Type 0 where
  pub sha256 : Bytes → Bytes
  pub get_remote_report : Bytes → Called
  -- CreateAzureAttestationToken of the data at a provider's URL, and AttestationProviderURLs
  pub create_token : Bytes → Bytes → Called
  pub provider_urls : List Bytes

-- The loop over the providers in /token, with the token and the error that stand before it.
unfoldable pub token_of : (Bytes → Called) → List Bytes → Called → Called
token_of create [] before = before
token_of create (url ∷ urls) before = elim (create url) [
  | done token ↦ done token
  | failed text ↦ token_of create urls (failed text)
]

-- The handler of /cert
unfoldable pub serve_cert : Bytes → Written
serve_cert cert = answered (hex_encode cert)

-- The handler of /xpub, with ExtPubKey.B58Serialize()
unfoldable pub serve_xpub : Bytes → Written
serve_xpub b58 = answered b58

module _ (lib : EnclaveLib) where
  -- A certificate and the PubKeyBz of the client, in the report's data
  unfoldable pub report_data : Bytes → Bytes → Bytes
  report_data cert pub_key_bz = lib.sha256 cert ++ lib.sha256 pub_key_bz

  -- The handler of /pubkey
  unfoldable pub serve_pubkey : Bytes → Written
  serve_pubkey pub_key_bz = answered (hex_encode (lib.sha256 pub_key_bz))

  -- The handler of /report: there is no return behind the error, so that the empty report is written
  -- too.
  unfoldable pub serve_report : Bytes → Bytes → Written
  unfolding report_data
  serve_report cert pub_key_bz = elim (lib.get_remote_report (report_data cert pub_key_bz)) [
    | done report ↦ answered (hex_encode report)
    | failed text ↦ internal_server_error (text ++ hex_encode [])
  ]

  -- The handler of /token
  unfoldable pub serve_token : Bytes → Bytes → Written
  unfolding report_data token_of
  serve_token cert pub_key_bz =
      elim (token_of (lib.create_token (report_data cert pub_key_bz)) lib.provider_urls (done [])) [
        | done token ↦ answered token
        | failed text ↦ internal_server_error text
      ]

  -- The handler of /report of the key server
  unfoldable pub serve_xpub_report : Bytes → Written
  serve_xpub_report b58 = elim (lib.get_remote_report (lib.sha256 b58)) [
    | done report ↦ answered (hex_encode report)
    | failed text ↦ internal_server_error text
  ]
