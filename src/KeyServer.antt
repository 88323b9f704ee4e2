-- ===== src/KeyServer.antt =====
-- keygrantor/cmd/main.go: the HTTP handlers that hand out keys, with the helper
-- GetSelfReportAndCheck of keygrantor/keygrantor.go. The enclave, the ECIES encryption, the JSON
-- decoder and SHA-256 come from packages that are not part of the repository; they are parameters.
mod Inversion
pub mod Attested
pub mod Release
use egvm.Prelude.{
  ℕ, ◌+◌, ◌≡◌, Bool, true, false, not, Option, none, some, List, [], ◌∷◌, ◌++◌, length, take, drop,
  ◌==◌, if◌then◌else◌,
}
use egvm.Bytes.{Bytes, equal_bytes}
use egvm.Hex.{hex_encode, hex_decode}
use egvm.KeyGrantor.{
  Report, Err, Attestation, KeyLib, verify_peer_report, verify_jwt, Derived, reached,
  nil_dereference, out_of_fuel, derive_key,
}

-- GetKeyParams
pub record GetKeyParams : Type 0 where
  pub report : Bytes
  pub jwt : Bytes

pub record ServerLib : Type 1 where
  pub keys : KeyLib
  pub attestation : Attestation
  -- AttestationProviderURLs
  pub provider_urls : List Bytes
  -- (*bip32.Key).Serialize
  pub serialize : keys.Key → Bytes
  -- ecies.NewPublicKeyFromBytes and ecies.Encrypt with its random bytes: an error is `none`
  pub PublicKey : Type 0
  pub new_public_key : Bytes → Option PublicKey
  pub encrypt : Bytes → PublicKey → Bytes → Option Bytes
  pub sha256 : Bytes → Bytes
  -- json.Unmarshal into a GetKeyParams
  pub unmarshal_params : Bytes → Option GetKeyParams
  -- enclave.VerifyRemoteReport, GetSelfReport and GetRemoteReport
  pub verify_remote_report : Bytes → Option Report
  pub get_self_report : Option Report
  pub get_remote_report : Bytes → Option Bytes

-- How a request ends: with an error status and a message, with the body that was written, or with
-- a panic of the handler, at which the server drops the connection. The messages are left out.
pub data Reply : Type 0 where
  refused : ℕ → Reply
  sent : Bytes → Reply
  aborted : Reply

abbrev pub bad_request : Reply
bad_request = refused 400

abbrev pub internal_error : Reply
internal_error = refused 500

-- A helper either has replied, and the handler returns, or it gives a value.
pub data Handled {ℓ} (A : Type ℓ) : Type ℓ where
  replied : Reply → Handled A
  value : A → Handled A

infixl 5 ◌>>=◌ ◌>>◌
abbrev pub ◌>>=◌ {ℓ κ} : {A : Type ℓ} {B : Type κ} → Handled A → (A → Handled B) → Handled B
replied r >>= go = replied r
value a >>= go = go a

abbrev pub ◌>>◌ {ℓ} : {B : Type ℓ} → Handled (Unit {0}) → Handled B → Handled B
first >> second = first >>= λ _. second

abbrev pub require : Bool → Reply → Handled (Unit {0})
require true r = value tt
require false r = replied r

abbrev pub present {ℓ} : {A : Type ℓ} → Option A → Reply → Handled A
present none r = replied r
present (some a) r = value a

-- A key that DeriveKey returns. A panic of it is one of the handler.
abbrev pub key_or_abort {ℓ} : {A : Type ℓ} → Derived A → Handled A
key_or_abort (reached a) = value a
key_or_abort nil_dereference = replied aborted
key_or_abort out_of_fuel = replied aborted

abbrev pub no_error : Option Err → Reply → Handled (Unit {0})
no_error none r = value tt
no_error (some e) r = replied r

abbrev pub reply_of : Handled Reply → Reply
reply_of (replied r) = r
reply_of (value r) = r

-- What the handlers read of a request: the values of the query parameter `pubkey`, the body
-- (`none` where reading it fails), and the random bytes that an encryption draws.
pub record Request : Type 0 where
  pub pubkeys : List Bytes
  pub body : Option Bytes
  pub entropy : Bytes

-- The first value of the parameter, where there is one and it is not empty.
unfoldable pub first_pubkey : List Bytes → Option Bytes
first_pubkey [] = none
first_pubkey (k ∷ ks) = if length k == 0 then none else some k

module _ (lib : ServerLib) where
  -- handleRequesterPubkey
  unfoldable pub handle_requester_pubkey : Request → Handled (lib.PublicKey × Bytes)
  unfolding first_pubkey
  handle_requester_pubkey q = do
    text ← present (first_pubkey q.pubkeys) bad_request
    pubkey_bz ← present (hex_decode text) bad_request
    pubkey ← present (lib.new_public_key pubkey_bz) bad_request
    value (pubkey, pubkey_bz)

  -- handleGetKeyParam
  unfoldable pub handle_get_key_param : Request → Bytes → Handled Report
  handle_get_key_param q pubkey_bz = do
    body ← present q.body internal_error
    params ← present (lib.unmarshal_params body) bad_request
    report_bz ← present (hex_decode params.report) bad_request
    report ← present (lib.verify_remote_report report_bz) bad_request
    require (length report.report_data == 64) bad_request
    require (equal_bytes (lib.sha256 pubkey_bz) (take 32 report.report_data)) bad_request
    no_error (verify_jwt lib.attestation lib.provider_urls params.jwt report) bad_request
    value report

  -- GetSelfReportAndCheck: each failure is a panic
  unfoldable pub get_self_report_and_check : Handled Report
  get_self_report_and_check = do
    self_report ← present lib.get_self_report aborted
    require (not self_report.debug) aborted
    report_bytes ← present (lib.get_remote_report (1 ∷ [])) aborted
    report ← present (lib.verify_remote_report report_bytes) aborted
    no_error (verify_peer_report lib.attestation report self_report) aborted
    value self_report

  -- The encrypted key, or the error status.
  unfoldable pub send_encrypted : Bytes → lib.PublicKey → Bytes → Handled Reply
  send_encrypted entropy pubkey bz = do
    out ← present (lib.encrypt entropy pubkey bz) internal_error
    value (sent (hex_encode out))

  -- handleKeyDerive, where two rounds are fuel enough for DeriveKey
  unfoldable pub handle_key_derive :
      ℕ → lib.keys.Key → Request → Report → lib.PublicKey → Handled Reply
  unfolding send_encrypted
  handle_key_derive fuel ext_priv_key q report pubkey = do
    derived ← key_or_abort (
        derive_key lib.keys fuel ext_priv_key
          (lib.sha256 (report.unique_id ++ drop 32 report.report_data)))
    send_encrypted q.entropy pubkey (lib.serialize derived)

  -- The handler of /xprv
  unfoldable pub serve_xprv : lib.keys.Key → Request → Reply
  unfolding handle_requester_pubkey handle_get_key_param get_self_report_and_check send_encrypted
  serve_xprv ext_priv_key q = reply_of (do
    (pubkey, pubkey_bz) ← handle_requester_pubkey q
    report ← handle_get_key_param q pubkey_bz
    self_report ← get_self_report_and_check
    no_error (verify_peer_report lib.attestation report self_report) bad_request
    send_encrypted q.entropy pubkey (lib.serialize ext_priv_key))

  -- The handler of /getkey
  unfoldable pub serve_getkey : ℕ → lib.keys.Key → Request → Reply
  unfolding handle_requester_pubkey handle_get_key_param handle_key_derive
  serve_getkey fuel ext_priv_key q = reply_of (do
    (pubkey, pubkey_bz) ← handle_requester_pubkey q
    report ← handle_get_key_param q pubkey_bz
    handle_key_derive fuel ext_priv_key q report pubkey)
