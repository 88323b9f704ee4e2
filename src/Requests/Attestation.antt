-- ===== src/Requests/Attestation.antt =====
-- When script/request/enclave.go says that a server is attested.
use egvm.Prelude.{◌≤◌, ◌≡◌, true, false, some, Option-cases, inl, inr, List, [], ◌∷◌, take, arith}
use egvm.Outcome.{ok, >>=-eq-ok}
use egvm.Bytes.{Bytes, equal_bytes, equal_bytes_sound}
use egvm.Goja.{Value, string, int64, array_buffer, uint256, other, export_string}
use egvm.Requests.{
  RemoteReport, RequestLib, verified, uint16_le, check_report, verify_enclave_report_bz,
  pubkey_path, report_path, get_result, attest_enclave_server,
}

exported : (v : Value) (s : Bytes) → export_string v ≡ ok s → v ≡ string s
exported (string t) s e = cc e
exported (int64 n) s e = cc e
exported (array_buffer bz) s e = cc e
exported (uint256 n) s e = cc e
exported other s e = cc e

module _ (lib : RequestLib) where
  -- A report that VerifyEnclaveReportBz accepts for a key and two ids.
  pub record IsTrusted (pub_key signer_id unique_id : Bytes) (report : RemoteReport) : Type 0 where
    pub signer : report.signer_id ≡ signer_id
    pub unique : report.unique_id ≡ unique_id
    pub key : take 32 report.report_data ≡ lib.sha256 pub_key
    pub version : 2 ≤ report.security_version
    pub product : uint16_le report.product_id ≡ ok 1
    pub no_debug : report.debug ≡ false

  check_report-tests :
      (pub_key signer_id unique_id : Bytes) (report : RemoteReport)
      → check_report lib pub_key signer_id unique_id report ≡ ok verified
      → (equal_bytes report.signer_id signer_id ≡ true)
        × (equal_bytes report.unique_id unique_id ≡ true)
        × (equal_bytes (take 32 report.report_data) (lib.sha256 pub_key) ≡ true)
        × (2 ≤ report.security_version)
        × (uint16_le report.product_id ≡ ok 1)
        × (report.debug ≡ false)
  unfolding check_report
  check_report-tests pub_key signer_id unique_id report e = ground (arith, e)

  check_report-IsTrusted :
      (pub_key signer_id unique_id : Bytes) (report : RemoteReport)
      → check_report lib pub_key signer_id unique_id report ≡ ok verified
      → IsTrusted pub_key signer_id unique_id report
  check_report-IsTrusted pub_key signer_id unique_id report e =
      let (signer, unique, key, version, product, no_debug) =
        check_report-tests pub_key signer_id unique_id report e in
      record {
        signer = equal_bytes_sound _ _ signer;
        unique = equal_bytes_sound _ _ unique;
        key = equal_bytes_sound _ _ key;
        version = version;
        product = product;
        no_debug = no_debug;
      }

  verified-report :
      (pub_key report_bz signer_id unique_id : Bytes)
      → verify_enclave_report_bz lib pub_key report_bz signer_id unique_id ≡ ok verified
      → (report : RemoteReport) × (lib.verify_remote_report report_bz ≡ some report)
        × IsTrusted pub_key signer_id unique_id report
  unfolding verify_enclave_report_bz
  verified-report pub_key report_bz signer_id unique_id e =
      elim (Option-cases (lib.verify_remote_report report_bz)) [
        | inl refused ↦ absurd (grind (arith, refused, e))
        | inr (report, accepted) ↦ (
          report,
          accepted,
          check_report-IsTrusted pub_key signer_id unique_id report (grind (arith, accepted, e)),
        )
      ]

  -- AttestEnclaveServer reports success only to a call with three strings, where the server has
  -- given a key and a report that the enclave verified: the report is of an enclave with the
  -- asked signer and unique id, has the hash of the key in it, a security version of 2 or more and
  -- the product id 1, and is not in debug mode.
  pub attest_enclave_server-verified :
      (args : List Value)
      → attest_enclave_server lib args ≡ ok verified
      → (url : Bytes) × (signer : Bytes) × (unique : Bytes) × (key_text : Bytes)
        × (report_text : Bytes) × (report : RemoteReport) × (args
            ≡ string url ∷ string signer ∷ string unique ∷ [])
        × (get_result lib url pubkey_path ≡ ok key_text)
        × (get_result lib url report_path ≡ ok report_text)
        × (lib.verify_remote_report (lib.from_hex report_text) ≡ some report)
        × IsTrusted (lib.from_hex key_text) (lib.from_hex signer) (lib.from_hex unique) report
  unfolding attest_enclave_server
  attest_enclave_server-verified [] e = absurd (grind (arith, e))
  attest_enclave_server-verified (a ∷ []) e = absurd (grind (arith, e))
  attest_enclave_server-verified (a ∷ b ∷ []) e = absurd (grind (arith, e))
  attest_enclave_server-verified (a ∷ b ∷ c ∷ d ∷ more) e = absurd (grind (arith, e))
  attest_enclave_server-verified (a ∷ b ∷ c ∷ []) e =
      let (url, is_url, e₁) = >>=-eq-ok (export_string a) e in
      let (signer, is_signer, e₂) = >>=-eq-ok (export_string b) e₁ in
      let (unique, is_unique, e₃) = >>=-eq-ok (export_string c) e₂ in
      let (key_text, got_key, e₄) = >>=-eq-ok (get_result lib url pubkey_path) e₃ in
      let (report_text, got_report, e₅) = >>=-eq-ok (get_result lib url report_path) e₄ in
      let (report, accepted, trusted) =
        verified-report (lib.from_hex key_text) (lib.from_hex report_text) (lib.from_hex signer)
          (lib.from_hex unique) e₅ in
      (
        url,
        signer,
        unique,
        key_text,
        report_text,
        report,
        cc (exported a url is_url, exported b signer is_signer, exported c unique is_unique),
        got_key,
        got_report,
        accepted,
        trusted,
      )
