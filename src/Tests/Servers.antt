-- ===== src/Tests/Servers.antt =====
-- The theorems on the handlers of the key server at concrete inputs.
use egvm.Prelude.{
  ℕ, ◌≡◌, refl, Bool, true, false, Option, none, some, List, [], ◌∷◌, ◌++◌, replicate, drop,
}
use egvm.Bytes.{Bytes, equal_bytes}
use egvm.Hex.{hex_encode, hex_decode, hex_value, hex_digit}
use egvm.Word.{from_be}
use egvm.KeyGrantor.{
  Report, verify_peer_report, verify_jwt, reached, derive_key, derive_loop, retry, index_at,
}
use egvm.KeyServer.{
  ServerLib, Request, sent, first_pubkey, handle_requester_pubkey, handle_get_key_param,
  get_self_report_and_check, send_encrypted, handle_key_derive, serve_xprv, serve_getkey,
}
use egvm.KeyServer.Attested.{IsPosted, IsAttested, IsSelf}
use egvm.KeyServer.Release.{serve_xprv-sent, serve_getkey-sent, unendorsed_report_served}

-- A report of one enclave, whose data begins with the hash that the model below gives every key.
abbrev report_in : Bool → Report
report_in debug = record {
  report_data = replicate 64 7;
  unique_id = 1 ∷ [];
  signer_id = 2 ∷ [];
  product_id = 3 ∷ [];
  debug = debug;
  tcb_status = 0;
}

-- A provider accepts every token, or rejects every token.
abbrev accepted_if : Bool → Option Report
accepted_if true = some (report_in false)
accepted_if false = none

-- A server whose remote reports are in debug mode or not.
abbrev server : Bool → Bool → ServerLib
server accepting debug = record {
  keys = record { Key = List ℕ; new_child_key = λ key i. some (i ∷ key) };
  attestation = record {
    up_to_date = 0;
    verify_azure_attestation_token = λ token url. accepted_if accepting;
  };
  provider_urls = (9 ∷ []) ∷ [];
  serialize = λ key. key;
  PublicKey = Bytes;
  new_public_key = λ bz. some bz;
  encrypt = λ entropy key bz. some (16 ∷ []);
  sha256 = λ bz. replicate 32 7;
  unmarshal_params = λ body. some (record { report = []; jwt = [] });
  verify_remote_report = λ bz. some (report_in debug);
  get_self_report = some (report_in false);
  get_remote_report = λ challenge. some [];
}

-- The public key 0x41, in hexadecimal digits.
abbrev request : Request
request = record { pubkeys = (52 ∷ 49 ∷ []) ∷ []; body = some []; entropy = [] }

-- The body "10".
abbrev sealed_body : Bytes
sealed_body = 49 ∷ 48 ∷ []

served_xprv : serve_xprv (server true false) [] request ≡ sent sealed_body
unfolding serve_xprv handle_requester_pubkey handle_get_key_param get_self_report_and_check
    send_encrypted first_pubkey hex_decode hex_encode hex_value hex_digit equal_bytes
    verify_peer_report verify_jwt
served_xprv = refl

serve_xprv-sent_example :
    let lib = server true false in
    (pubkey : Bytes) × (report : Report) × (self_report : Report) × (sealed : Bytes) × IsAttested
      lib request pubkey report
    × IsSelf lib self_report
    × (report.debug ≡ false)
    × (report.tcb_status ≡ 0)
    × (self_report.unique_id ≡ report.unique_id)
    × (self_report.signer_id ≡ report.signer_id)
    × (self_report.product_id ≡ report.product_id)
    × (lib.encrypt [] pubkey [] ≡ some sealed)
    × (sealed_body ≡ hex_encode sealed)
serve_xprv-sent_example = serve_xprv-sent (server true false) [] request sealed_body served_xprv

served_getkey : serve_getkey (server true true) 1 [] request ≡ sent sealed_body
unfolding serve_getkey handle_key_derive handle_requester_pubkey handle_get_key_param send_encrypted
    first_pubkey hex_decode hex_encode hex_value hex_digit equal_bytes verify_peer_report verify_jwt
    derive_key derive_loop retry index_at from_be
served_getkey = refl

serve_getkey-sent_example :
    let lib = server true true in
    (pubkey : Bytes) × (report : Report) × (derived : List ℕ) × (sealed : Bytes) × IsAttested lib
      request pubkey report
    × (derive_key lib.keys 1 [] (lib.sha256 (report.unique_id ++ drop 32 report.report_data))
        ≡ reached derived)
    × (lib.encrypt [] pubkey derived ≡ some sealed)
    × (sealed_body ≡ hex_encode sealed)
serve_getkey-sent_example =
    serve_getkey-sent (server true true) 1 [] request sealed_body served_getkey

posted :
    (accepting debug : Bool) → IsPosted (server accepting debug) request (65 ∷ []) (report_in debug)
unfolding first_pubkey hex_decode hex_value
posted accepting debug = record {
  text = 52 ∷ 49 ∷ [];
  pubkey_bz = 65 ∷ [];
  body = [];
  params = record { report = []; jwt = [] };
  report_bz = [];
  named = refl;
  decoded = refl;
  parsed = refl;
  posted = refl;
  unmarshaled = refl;
  report_decoded = refl;
  verified = refl;
  sized = refl;
  bound = refl;
}

abbrev derived_key : List ℕ
derived_key =
    7 ∷ 58950531 ∷ 1103217089 ∷ 1625350368 ∷ 1886417008 ∷ 943208504 ∷ 471604252 ∷ 235802126
    ∷ 117901063 ∷ []

derived : derive_key (server true false).keys 1 [] (replicate 32 7) ≡ reached derived_key
unfolding derive_key derive_loop retry index_at from_be
derived = refl

token_accepted :
    verify_jwt (server true false).attestation ((9 ∷ []) ∷ []) [] (report_in false) ≡ none
unfolding verify_jwt verify_peer_report equal_bytes
token_accepted = refl

unendorsed_report_served_example :
    serve_getkey (server false true) 1 [] request ≡ sent (hex_encode (16 ∷ []))
unendorsed_report_served_example =
    unendorsed_report_served (server false true) 1 [] derived_key request (65 ∷ []) (report_in true)
      (16 ∷ []) (posted false true) (refl, tt) derived refl
