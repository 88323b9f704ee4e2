-- ===== src/Tests/Clients.antt =====
-- The theorem on an enclave and a key server at a concrete model of both.
use egvm.Prelude.{
  ℕ, ◌-◌, ◌≡◌, refl, Bool, true, false, not, Option, none, some, [], ◌∷◌, ◌++◌, length, take, drop,
  replicate, take-append-length, drop-append-length, ltb, Option-cases, inl, inr, zero, suc,
  if◌then◌else◌, ap, sym, ◌∙◌, arith, ◌<◌,
}
use egvm.Bytes.{Bytes, equal_bytes}
use egvm.Hex.{hex_encode}
use egvm.Word.{from_be}
use egvm.KeyGrantor.{
  Report, verify_peer_report, verify_jwt, reached, derive_key, derive_loop, retry, index_at,
}
use egvm.KeyServer.{GetKeyParams, ServerLib, serve_getkey, serve_xprv}
use egvm.Http.{Response}
use egvm.KeyServer.Attested.{IsSelf}
use egvm.KeyClient.{ClientLib, got, first_token, get_key_from_key_grantor}
use egvm.KeyClient.EndToEnd.{
  IsBytes, IsLinked, answer, request_of, get_key_from_key_grantor-serve_getkey,
}
use egvm.KeyClient.Peers.{get_key_from_key_grantor-serve_xprv}

-- An encoder that gives its input, where every number of it is a byte.
unfoldable pub checked : Bytes → Option Bytes
checked [] = some []
checked (b ∷ bz) =
    let rest = checked bz in
    if ltb b 256 then (elim rest [ none ↦ none | some bs ↦ some (b ∷ bs) ]) else none

pub checked-some : (bz out : Bytes) → checked bz ≡ some out → (out ≡ bz) × IsBytes out
unfolding checked
checked-some [] out e = grind arith
checked-some (b ∷ bz) out e = elim (Option-cases (checked bz)) [
  | inl n ↦ absurd (grind (arith, n, e))
  | inr (bs, s) ↦ let (same, small) = checked-some bz bs s in grind (arith, same, small, s, e)
]

abbrev report_for : Bytes → Report
report_for bz = record {
  report_data = bz ++ replicate (64 - length bz) 0;
  unique_id = 1 ∷ [];
  signer_id = 2 ∷ [];
  product_id = 3 ∷ [];
  debug = false;
  tcb_status = 0;
}

abbrev params_of : Bytes → Option GetKeyParams
params_of [] = none
params_of (n ∷ bz) = some (record { report = take n bz; jwt = drop n bz })

abbrev key_of : Bytes → Option Bool
key_of [] = none
key_of (zero ∷ bz) = some false
key_of (suc n ∷ bz) = some true

abbrev server : ServerLib
server = record {
  keys = record { Key = Bool; new_child_key = λ key i. some (not key) };
  attestation = record {
    up_to_date = 0;
    verify_azure_attestation_token = λ token url. some (report_for []);
  };
  provider_urls = (9 ∷ []) ∷ [];
  serialize = λ key. if key then 1 ∷ [] else 0 ∷ [];
  PublicKey = Unit;
  new_public_key = λ bz. some tt;
  encrypt = λ entropy key bz. checked bz;
  sha256 = λ bz. replicate 32 7;
  unmarshal_params = params_of;
  verify_remote_report = λ bz. some (report_for bz);
  get_self_report = some (report_for []);
  get_remote_report = λ challenge. some challenge;
}

abbrev client_with : (Bytes → Bytes → Response) → ClientLib Bool (Unit {0})
client_with post = record {
  public_bytes = λ sk. replicate 33 2;
  sha256 = λ bz. replicate 32 7;
  get_remote_report = checked;
  create_token = λ bz url. some (5 ∷ []);
  provider_urls = (9 ∷ []) ∷ [];
  marshal_params = λ p. some (length p.report ∷ p.report ++ p.jwt);
  post = post;
  decrypt = λ sk bz. some bz;
  deserialize = key_of;
}

abbrev client : ClientLib Bool (Unit {0})
client =
    client_with
      (λ url json. answer (serve_getkey server 1 false (request_of (replicate 33 2) json [])))

-- The client of a second key server
abbrev peer : ClientLib Bool (Unit {0})
peer =
    client_with (λ url json. answer (serve_xprv server true (request_of (replicate 33 2) json [])))

key_of-serialize : (key : Bool) → client.deserialize (server.serialize key) ≡ some key
key_of-serialize true = refl
key_of-serialize false = refl

params_of-marshal :
    (p : GetKeyParams) (json : Bytes)
    → client.marshal_params p ≡ some json
    → params_of json ≡ some p
params_of-marshal p json e =
    ap (λ o. elim o [ none ↦ none | some bz ↦ params_of bz ]) (sym e)
    ∙ rw (take-append-length p.report p.jwt, drop-append-length p.report p.jwt) refl

pub replicate-IsBytes : (n b : ℕ) → b < 256 → IsBytes (replicate n b)
replicate-IsBytes zero b small = tt
replicate-IsBytes (suc n) b small = (small, replicate-IsBytes n b small)

linked :
    (post : Bytes → Bytes → Response)
    → IsLinked server Unit (client_with post) (λ sk. tt) report_for
linked post = record {
  parses = λ sk. refl;
  public_sized = λ sk. refl;
  public_IsBytes = λ sk. replicate-IsBytes 33 2 (ground arith);
  hashes = λ bz. refl;
  hash_sized = λ bz. refl;
  unmarshals = params_of-marshal;
  report_IsBytes = λ bz out e. (checked-some bz out e).1;
  verifies = λ bz out e. ap (λ o. some (report_for o)) (checked-some bz out e).0;
  reported = λ bz. refl;
  decrypts = λ sk entropy bz out e. ap some (checked-some bz out e).0;
  encrypted_IsBytes = λ sk entropy bz out e. (checked-some bz out e).1;
  deserializes = key_of-serialize;
}

abbrev data_bz : Bytes
data_bz = replicate 32 7 ++ replicate 32 5

token_endorsed :
    verify_jwt server.attestation server.provider_urls (5 ∷ []) (report_for data_bz) ≡ none
unfolding verify_jwt verify_peer_report equal_bytes
token_endorsed = refl

key_derived : derive_key server.keys 1 false (replicate 32 7) ≡ reached true
unfolding derive_key derive_loop retry index_at from_be
key_derived = refl

get_key_from_key_grantor-serve_getkey_example :
    get_key_from_key_grantor client tt (8 ∷ []) (replicate 32 5) ≡ got true
unfolding checked first_token
get_key_from_key_grantor-serve_getkey_example =
    get_key_from_key_grantor-serve_getkey server Unit client (λ sk. tt) report_for
      (linked client.post) 1 false true tt (8 ∷ []) (replicate 32 5) data_bz (5 ∷ [])
      (length (hex_encode data_bz) ∷ hex_encode data_bz ++ (5 ∷ [])) [] (1 ∷ []) refl refl refl refl
      token_endorsed key_derived refl refl

peer_endorsed :
    verify_jwt server.attestation server.provider_urls (5 ∷ []) (report_for (replicate 32 7)) ≡ none
unfolding verify_jwt verify_peer_report equal_bytes
peer_endorsed = refl

same_enclave :
    (bz : Bytes) → verify_peer_report server.attestation (report_for bz) (report_for []) ≡ none
unfolding verify_peer_report equal_bytes
same_enclave bz = refl

server-IsSelf : IsSelf server (report_for [])
server-IsSelf = record {
  remote_bytes = 1 ∷ [];
  remote = report_for (1 ∷ []);
  made = refl;
  not_debug = refl;
  quoted = refl;
  checked = refl;
  agrees = same_enclave (1 ∷ []);
}

get_key_from_key_grantor-serve_xprv_example :
    get_key_from_key_grantor peer tt (8 ∷ []) [] ≡ got true
unfolding checked first_token
get_key_from_key_grantor-serve_xprv_example =
    get_key_from_key_grantor-serve_xprv server Unit peer (λ sk. tt) report_for (linked peer.post)
      true tt (8 ∷ []) (replicate 32 7) (5 ∷ [])
      (length (hex_encode (replicate 32 7)) ∷ hex_encode (replicate 32 7) ++ (5 ∷ [])) [] (1 ∷ [])
      (report_for []) refl refl refl peer_endorsed server-IsSelf (same_enclave (replicate 32 7))
      refl refl
