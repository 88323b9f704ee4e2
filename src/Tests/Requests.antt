-- ===== src/Tests/Requests.antt =====
-- The theorems on requests at concrete inputs.
use egvm.Prelude.{ℕ, ◌≡◌, ◌≢◌, refl, false, some, List, [], ◌∷◌, replicate, arith}
use egvm.Outcome.{ok}
use egvm.Bytes.{Bytes, equal_bytes}
use egvm.Goja.{Value, string}
use egvm.Requests.{
  RemoteReport, RequestLib, verified, split_colon, sort_strings, header_pairs, new_http_response,
  request_headers, new_http_request, https_request, uint16_le, check_report,
  verify_enclave_report_bz, get_result, pubkey_path, report_path, attest_enclave_server,
}
use egvm.Requests.Attestation.{IsTrusted, attest_enclave_server-verified}
use egvm.Requests.Headers.{swapped, new_http_response-Reordered}

abbrev report : RemoteReport
report = record {
  signer_id = 1 ∷ [];
  unique_id = 2 ∷ [];
  report_data = replicate 64 7;
  security_version = 2;
  product_id = 1 ∷ 0 ∷ [];
  debug = false;
}

-- A server that answers every request with the same body.
abbrev lib : RequestLib
lib = record {
  Url = Bytes;
  parse_url = λ s. some s;
  trim_space = λ s. s;
  canonical_key = λ s. s;
  send = λ method url headers body.
      some (record { status = []; status_code = 200; header = []; body = some (9 ∷ []) });
  unmarshal_result = λ body. some body;
  from_hex = λ s. s;
  sha256 = λ bz. replicate 32 7;
  verify_remote_report = λ bz. some report;
}

abbrev args : List Value
args = string (8 ∷ []) ∷ string (1 ∷ []) ∷ string (2 ∷ []) ∷ []

attested : attest_enclave_server lib args ≡ ok verified
unfolding attest_enclave_server get_result https_request new_http_request request_headers
    split_colon new_http_response sort_strings header_pairs verify_enclave_report_bz check_report
    uint16_le equal_bytes
attested = refl

attest_enclave_server-verified_example :
    (url : Bytes) × (signer : Bytes) × (unique : Bytes) × (key_text : Bytes) × (report_text : Bytes)
    × (accepted : RemoteReport) × (args ≡ string url ∷ string signer ∷ string unique ∷ [])
    × (get_result lib url pubkey_path ≡ ok key_text)
    × (get_result lib url report_path ≡ ok report_text)
    × (lib.verify_remote_report (lib.from_hex report_text) ≡ some accepted)
    × IsTrusted lib (lib.from_hex key_text) (lib.from_hex signer) (lib.from_hex unique) accepted
attest_enclave_server-verified_example = attest_enclave_server-verified lib args attested

abbrev entry : ℕ → Bytes × List Bytes
entry n = (n ∷ [], (n ∷ 5 ∷ []) ∷ [])

distinct : ◌≢◌ {A = Bytes} (1 ∷ []) (2 ∷ [])
distinct e = grind (arith, e)

new_http_response-Reordered_example :
    new_http_response
      (record { status = []; status_code = 200; header = entry 1 ∷ entry 2 ∷ []; body = some [] })
    ≡ new_http_response
        (record { status = []; status_code = 200; header = entry 2 ∷ entry 1 ∷ []; body = some [] })
new_http_response-Reordered_example =
    new_http_response-Reordered [] [] 200 (entry 1 ∷ entry 2 ∷ []) (entry 2 ∷ entry 1 ∷ [])
      (swapped distinct)
