-- ===== src/Requests.antt =====
-- script/request/https.go, script/request/enclave.go and script/enclaveutil/enclave.go: HTTPS
-- requests of the scripts, and the attestation of a server. The network, URLs, JSON, SHA-256 and
-- the enclave come from packages that are not part of the repository; they are parameters.
pub mod Attestation
pub mod Headers
use egvm.Prelude.{
  ℕ, suc, ◌+◌, ◌*◌, ◌≡◌, Bool, true, false, not, Option, none, some, List, [], ◌∷◌, ◌++◌, length,
  take, ltb, ◌==◌, map, if◌then◌else◌,
}
use egvm.Outcome.{
  Outcome, ok, panic, ◌>>=◌, ◌>>◌, panic_if, outcome_of, runtime_error, incorrect_argument_count,
  wrong_argument_type, empty_url, error_in_request, error_in_sending, error_in_response,
  status_not_ok, error_of_result,
}
use egvm.Bytes.{Bytes, equal_bytes, is_less}
use egvm.Goja.{Value, string, export_string}

-- What the code reads of a report.
pub record RemoteReport : Type 0 where
  pub signer_id : Bytes
  pub unique_id : Bytes
  pub report_data : Bytes
  pub security_version : ℕ
  pub product_id : Bytes
  pub debug : Bool

-- A response of the HTTP client: its headers in the order of a traversal of the map, and its body,
-- `none` where reading it fails.
pub record RawResponse : Type 0 where
  pub status : Bytes
  pub status_code : ℕ
  pub header : List (Bytes × List Bytes)
  pub body : Option Bytes

-- HttpResponse
pub record HttpResponse : Type 0 where
  pub status : Bytes
  pub status_code : ℕ
  pub headers : List (Bytes × Bytes)
  pub body : Bytes

pub record RequestLib : Type 1 where
  pub Url : Type 0
  pub parse_url : Bytes → Option Url
  -- strings.TrimSpace, and the canonical form that Header.Add gives a key
  pub trim_space : Bytes → Bytes
  pub canonical_key : Bytes → Bytes
  -- The client with the trusted certificates: method, URL, headers in the order of Add, body
  pub send : Bytes → Url → List (Bytes × Bytes) → Bytes → Option RawResponse
  -- json.Unmarshal into an attestationResult: its field Result
  pub unmarshal_result : Bytes → Option Bytes
  -- gethcmn.FromHex
  pub from_hex : Bytes → Bytes
  pub sha256 : Bytes → Bytes
  pub verify_remote_report : Bytes → Option RemoteReport

-- strings.Split(h, ":"): what stands before the first colon, and the fields behind it
unfoldable pub split_colon : Bytes → Bytes × List Bytes
split_colon [] = ([], [])
split_colon (c ∷ s) =
    let (field, fields) = split_colon s in
    if c == 58 then ([], field ∷ fields) else (c ∷ field, fields)

-- sort.Strings
unfoldable pub insert_string : Bytes → List Bytes → List Bytes
insert_string k [] = k ∷ []
insert_string k (j ∷ ks) =
    let rest = insert_string k ks in if is_less j k then j ∷ rest else k ∷ j ∷ ks

unfoldable pub sort_strings : List Bytes → List Bytes
unfolding insert_string
sort_strings [] = []
sort_strings (k ∷ ks) = insert_string k (sort_strings ks)

-- resp.Header[k]
unfoldable pub values_of : List (Bytes × List Bytes) → Bytes → List Bytes
values_of [] k = []
values_of ((key, vs) ∷ header) k =
    let rest = values_of header k in if equal_bytes key k then vs else rest

-- The loops over the sorted keys and their values
unfoldable pub header_pairs : List (Bytes × List Bytes) → List Bytes → List (Bytes × Bytes)
unfolding values_of
header_pairs header [] = []
header_pairs header (k ∷ ks) = map (λ v. (k, v)) (values_of header k) ++ header_pairs header ks

-- newHttpResponse: an error is `none`
unfoldable pub new_http_response : RawResponse → Option HttpResponse
unfolding sort_strings header_pairs
new_http_response resp = elim resp.body [
  | none ↦ none
  | some body ↦ some (record {
    status = resp.status;
    status_code = resp.status_code;
    headers = header_pairs resp.header (sort_strings (map (λ h. h.0) resp.header));
    body = body;
  })
]

-- binary.LittleEndian.Uint16, which needs two bytes
unfoldable pub uint16_le : Bytes → Outcome ℕ
uint16_le (a ∷ b ∷ _) = ok (a + 256 * b)
uint16_le _ = panic runtime_error

-- How VerifyEnclaveReportBz ends: its errors in their order, or nil
pub data Verdict : Type 0 where
  not_verified signer_id_mismatch unique_id_mismatch wrong_report_data : Verdict
  invalid_security_version invalid_product_id debug_mode : Verdict
  verified : Verdict

-- "GET" and "Content-Type:application/json", "/pubkey" and "/pubkey_report"
abbrev pub get_method : Bytes
get_method = 71 ∷ 69 ∷ 84 ∷ []

abbrev pub json_header : Bytes
json_header =
    67 ∷ 111 ∷ 110 ∷ 116 ∷ 101 ∷ 110 ∷ 116 ∷ 45 ∷ 84 ∷ 121 ∷ 112 ∷ 101 ∷ 58 ∷ 97 ∷ 112 ∷ 112 ∷ 108
    ∷ 105 ∷ 99 ∷ 97 ∷ 116 ∷ 105 ∷ 111 ∷ 110 ∷ 47 ∷ 106 ∷ 115 ∷ 111 ∷ 110 ∷ []

abbrev pub pubkey_path : Bytes
pubkey_path = 47 ∷ 112 ∷ 117 ∷ 98 ∷ 107 ∷ 101 ∷ 121 ∷ []

abbrev pub report_path : Bytes
report_path = 47 ∷ 112 ∷ 117 ∷ 98 ∷ 107 ∷ 101 ∷ 121 ∷ 95 ∷ 114 ∷ 101 ∷ 112 ∷ 111 ∷ 114 ∷ 116 ∷ []

module _ (lib : RequestLib) where
  -- The loop over the headers in newHttpRequest: an error is `none`
  unfoldable pub request_headers : List Bytes → Option (List (Bytes × Bytes))
  unfolding split_colon
  request_headers [] = some []
  request_headers (h ∷ headers) =
      let rest = request_headers headers in
      let (field, fields) = split_colon h in
      elim fields [
        | [] ↦ none
        | value ∷ more ↦ elim more [
          | [] ↦ elim rest [
            | none ↦ none
            | some pairs ↦
                some ((lib.canonical_key (lib.trim_space field), lib.trim_space value) ∷ pairs)
          ]
          | _ ∷ _ ↦ none
        ]
      ]

  -- newHttpRequest: the URL and the headers
  unfoldable pub new_http_request : Bytes → List Bytes → Option (lib.Url × List (Bytes × Bytes))
  unfolding request_headers
  new_http_request server_url headers = elim (lib.parse_url server_url) [
    | none ↦ none
    | some url ↦ elim (request_headers headers) [ none ↦ none | some pairs ↦ some (url, pairs) ]
  ]

  -- HttpsRequest
  unfoldable pub https_request : Bytes → Bytes → Bytes → List Bytes → Outcome HttpResponse
  unfolding new_http_request new_http_response
  https_request method server_url body headers = do
    panic_if (length server_url == 0) empty_url
    (url, pairs) ← outcome_of error_in_request (new_http_request server_url headers)
    resp ← outcome_of error_in_sending (lib.send method url pairs body)
    outcome_of error_in_response (new_http_response resp)

  -- The checks of VerifyEnclaveReportBz on a report
  unfoldable pub check_report : Bytes → Bytes → Bytes → RemoteReport → Outcome Verdict
  unfolding uint16_le
  check_report pub_key signer_id_bz unique_id_bz report =
      if not (equal_bytes report.signer_id signer_id_bz)
      then ok signer_id_mismatch
      else if not (equal_bytes report.unique_id unique_id_bz)
      then ok unique_id_mismatch
      else if ltb (length report.report_data) 32
      then panic runtime_error
      else if not (equal_bytes (take 32 report.report_data) (lib.sha256 pub_key))
      then ok wrong_report_data
      else if ltb report.security_version 2
      then ok invalid_security_version
      else (uint16_le report.product_id >>= λ product_id.
          if not (product_id == 1)
          then ok invalid_product_id
          else if report.debug
          then ok debug_mode
          else ok verified)

  -- VerifyEnclaveReportBz, on linux
  unfoldable pub verify_enclave_report_bz : Bytes → Bytes → Bytes → Bytes → Outcome Verdict
  unfolding check_report
  verify_enclave_report_bz pub_key report_bz signer_id_bz unique_id_bz =
      elim (lib.verify_remote_report report_bz) [
        | none ↦ ok not_verified
        | some report ↦ check_report pub_key signer_id_bz unique_id_bz report
      ]

  -- A request of AttestEnclaveServer, and the field Result of its body
  unfoldable pub get_result : Bytes → Bytes → Outcome Bytes
  unfolding https_request
  get_result server_url path = do
    resp ← https_request get_method (server_url ++ path) [] (json_header ∷ [])
    panic_if (not (resp.status_code == 200)) status_not_ok
    outcome_of error_of_result (lib.unmarshal_result resp.body)

  -- AttestEnclaveServer: the verdict, of which the script sees whether it is `verified`
  unfoldable pub attest_enclave_server : List Value → Outcome Verdict
  unfolding get_result verify_enclave_report_bz
  attest_enclave_server (a ∷ b ∷ c ∷ []) = do
    server_url ← export_string a
    signer_id ← export_string b
    unique_id ← export_string c
    pub_key ← get_result server_url pubkey_path
    report ← get_result server_url report_path
    verify_enclave_report_bz (lib.from_hex pub_key) (lib.from_hex report) (lib.from_hex signer_id)
        (lib.from_hex unique_id)
  attest_enclave_server _ = panic incorrect_argument_count
