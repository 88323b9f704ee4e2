-- ===== src/KeyClient/EndToEnd.antt =====
-- GetKeyFromKeyGrantor of keygrantor/keygrantor.go against the handler of /getkey in
-- keygrantor/cmd/main.go: the key that an enclave ends up with.
use egvm.Prelude.{
  ℕ, ◌-◌, ◌<◌, ◌≡◌, refl, sym, ap, ◌∙◌, subst, none, some, [], ◌∷◌, ◌++◌, append-nil, length,
  length-append, take, drop, replicate, take-append-length, drop-append-length, All, arith,
}
use egvm.Bytes.{Bytes}
use egvm.Hex.{hex_encode, hex_decode-hex_encode}
use egvm.Http.{Response, no_response, response}
use egvm.KeyGrantor.{Report, verify_jwt, reached, derive_key}
use egvm.KeyServer.{
  GetKeyParams, ServerLib, Request, Reply, refused, sent, aborted, first_pubkey, serve_getkey,
}
use egvm.KeyServer.Attested.{IsAttested}
use egvm.KeyServer.Release.{serve_getkey-IsAttested}
use egvm.KeyClient.{ClientLib, got, body_of, first_token, getkey_path, get_key_from_key_grantor}

abbrev pub IsBytes : Bytes → Type 0
IsBytes bz = All (λ b. b < 256) bz

-- How the server's packages undo what the client's do. The report of the client's enclave for some
-- data has the data in it, with zeros behind up to 64 bytes.
pub record IsLinked (server : ServerLib) (PrivateKey : Type 0)
    (client : ClientLib server.keys.Key PrivateKey) (public_of : PrivateKey → server.PublicKey)
    (report_of : Bytes → Report) : Type 0 where
  pub parses :
      (sk : PrivateKey) → server.new_public_key (client.public_bytes sk) ≡ some (public_of sk)
  pub public_sized : (sk : PrivateKey) → length (client.public_bytes sk) ≡ 33
  pub public_IsBytes : (sk : PrivateKey) → IsBytes (client.public_bytes sk)
  pub hashes : (bz : Bytes) → server.sha256 bz ≡ client.sha256 bz
  pub hash_sized : (bz : Bytes) → length (client.sha256 bz) ≡ 32
  pub unmarshals :
      (p : GetKeyParams) (json : Bytes)
      → client.marshal_params p ≡ some json
      → server.unmarshal_params json ≡ some p
  pub report_IsBytes : (bz out : Bytes) → client.get_remote_report bz ≡ some out → IsBytes out
  pub verifies :
      (bz out : Bytes)
      → client.get_remote_report bz ≡ some out
      → server.verify_remote_report out ≡ some (report_of bz)
  pub reported : (bz : Bytes) → (report_of bz).report_data ≡ bz ++ replicate (64 - length bz) 0
  pub decrypts :
      (sk : PrivateKey) (entropy bz out : Bytes)
      → server.encrypt entropy (public_of sk) bz ≡ some out
      → client.decrypt sk out ≡ some bz
  pub encrypted_IsBytes :
      (sk : PrivateKey) (entropy bz out : Bytes)
      → server.encrypt entropy (public_of sk) bz ≡ some out
      → IsBytes out
  pub deserializes : (key : server.keys.Key) → client.deserialize (server.serialize key) ≡ some key

-- What the client's HTTP package makes of the server's reply.
abbrev pub answer : Reply → Response
answer (refused status) = response status (some [])
answer (sent body) = response 200 (some body)
answer aborted = no_response

-- The request that a POST with this public key and this body makes at the server.
abbrev pub request_of : Bytes → Bytes → Bytes → Request
request_of pubkey json entropy = record {
  pubkeys = hex_encode pubkey ∷ [];
  body = some json;
  entropy = entropy;
}

named_once :
    (pubkey : Bytes)
    → length pubkey ≡ 33
    → first_pubkey (hex_encode pubkey ∷ []) ≡ some (hex_encode pubkey)
unfolding first_pubkey hex_encode
named_once [] h = absurd (omega (arith, h))
named_once (b ∷ pubkey) h = ground arith

module _ (server : ServerLib) (PrivateKey : Type 0) (client : ClientLib server.keys.Key PrivateKey)
    (public_of : PrivateKey → server.PublicKey) (report_of : Bytes → Report)
    (linked : IsLinked server PrivateKey client public_of report_of) where
  -- The data that the client's report is about.
  abbrev pub data_for : PrivateKey → Bytes → Bytes
  data_for sk client_data = client.sha256 (client.public_bytes sk) ++ client_data

  length-data_for :
      (sk : PrivateKey) (client_data : Bytes)
      → length client_data ≡ 32
      → length (data_for sk client_data) ≡ 64
  length-data_for sk client_data h = omega (
    arith,
    h,
    linked.hash_sized (client.public_bytes sk),
    length-append (client.sha256 (client.public_bytes sk)) client_data,
  )

  reported_exactly :
      (sk : PrivateKey) (client_data : Bytes)
      → length client_data ≡ 32
      → (report_of (data_for sk client_data)).report_data ≡ data_for sk client_data
  reported_exactly sk client_data h =
      linked.reported (data_for sk client_data)
      ∙ ap (λ n. data_for sk client_data ++ replicate (64 - n) 0) (length-data_for sk client_data h)
      ∙ append-nil (data_for sk client_data)

  -- A request whose report starts with the hash of the public key is attested.
  pub IsAttested-for :
      (sk : PrivateKey) (client_data report_bz token json entropy : Bytes)
      → length (report_of (data_for sk client_data)).report_data ≡ 64
      → client.sha256 (client.public_bytes sk)
        ≡ take 32 (report_of (data_for sk client_data)).report_data
      → client.get_remote_report (data_for sk client_data) ≡ some report_bz
      → client.marshal_params (record { report = hex_encode report_bz; jwt = token }) ≡ some json
      → verify_jwt server.attestation server.provider_urls token
          (report_of (data_for sk client_data))
        ≡ none
      → IsAttested server
          (request_of (client.public_bytes sk) json entropy)
          (public_of sk)
          (report_of (data_for sk client_data))
  IsAttested-for sk client_data report_bz token json entropy sized bound made marshaled endorsed =
      let pubkey = client.public_bytes sk in
      let bz = data_for sk client_data in
      record {
        request = record {
          text = hex_encode pubkey;
          pubkey_bz = pubkey;
          body = json;
          params = record { report = hex_encode report_bz; jwt = token };
          report_bz = report_bz;
          named = named_once pubkey (linked.public_sized sk);
          decoded = hex_decode-hex_encode pubkey (linked.public_IsBytes sk);
          parsed = linked.parses sk;
          posted = refl;
          unmarshaled = linked.unmarshals _ json marshaled;
          report_decoded =
              hex_decode-hex_encode report_bz (linked.report_IsBytes bz report_bz made);
          verified = linked.verifies bz report_bz made;
          sized = sized;
          bound = linked.hashes pubkey ∙ bound;
        };
        token = endorsed;
      }

  -- The hash of the public key, 32 bytes long, is what the data start with, whatever is behind it.
  pub hash_in_front :
      (sk : PrivateKey) (rest : Bytes)
      → take 32 (client.sha256 (client.public_bytes sk) ++ rest)
        ≡ client.sha256 (client.public_bytes sk)
  hash_in_front sk rest =
      let hash = client.sha256 (client.public_bytes sk) in
      subst (λ n. take n (hash ++ rest) ≡ hash) (linked.hash_sized (client.public_bytes sk))
        (take-append-length hash rest)

  client-IsAttested :
      (sk : PrivateKey) (client_data report_bz token json entropy : Bytes)
      → length client_data ≡ 32
      → client.get_remote_report (data_for sk client_data) ≡ some report_bz
      → client.marshal_params (record { report = hex_encode report_bz; jwt = token }) ≡ some json
      → verify_jwt server.attestation server.provider_urls token
          (report_of (data_for sk client_data))
        ≡ none
      → IsAttested server
          (request_of (client.public_bytes sk) json entropy)
          (public_of sk)
          (report_of (data_for sk client_data))
  client-IsAttested sk client_data report_bz token json entropy sized made marshaled endorsed =
      let same = reported_exactly sk client_data sized in
      IsAttested-for sk client_data report_bz token json entropy
        (ap length same ∙ length-data_for sk client_data sized)
        (sym (ap (take 32) same ∙ hash_in_front sk client_data)) made marshaled endorsed

  rest_is_client_data :
      (sk : PrivateKey) (client_data : Bytes)
      → length client_data ≡ 32
      → drop 32 (report_of (data_for sk client_data)).report_data ≡ client_data
  rest_is_client_data sk client_data sized =
      let hash = client.sha256 (client.public_bytes sk) in
      ap (drop 32) (reported_exactly sk client_data sized)
      ∙ subst (λ n. drop n (hash ++ client_data) ≡ client_data)
          (linked.hash_sized (client.public_bytes sk)) (drop-append-length hash client_data)

  -- A key server that answers the request of an enclave whose report it can verify, for 32 bytes of
  -- client data, gives that enclave the key derived from the enclave's unique id and these data, where
  -- the derivation and the encryption succeed.
  pub get_key_from_key_grantor-serve_getkey :
      (fuel : ℕ) (master derived : server.keys.Key) (sk : PrivateKey)
      (url client_data report_bz token json entropy sealed : Bytes)
      → length client_data ≡ 32
      → client.get_remote_report (data_for sk client_data) ≡ some report_bz
      → first_token (client.create_token (data_for sk client_data)) client.provider_urls (some [])
        ≡ some token
      → client.marshal_params (record { report = hex_encode report_bz; jwt = token }) ≡ some json
      → verify_jwt server.attestation server.provider_urls token
          (report_of (data_for sk client_data))
        ≡ none
      → derive_key server.keys fuel master
          (server.sha256 ((report_of (data_for sk client_data)).unique_id ++ client_data))
        ≡ reached derived
      → server.encrypt entropy (public_of sk) (server.serialize derived) ≡ some sealed
      → client.post (url ++ (getkey_path ++ hex_encode (client.public_bytes sk))) json
        ≡ answer
            (serve_getkey server fuel master (request_of (client.public_bytes sk) json entropy))
      → get_key_from_key_grantor client sk url client_data ≡ got derived
  unfolding get_key_from_key_grantor body_of
  get_key_from_key_grantor-serve_getkey fuel master derived sk url client_data report_bz token json
        entropy sealed sized made tokened marshaled endorsed derives seals delivered =
      let q = request_of (client.public_bytes sk) json entropy in
      let report = report_of (data_for sk client_data) in
      let derives_rest =
        subst
          (λ rest.
            derive_key server.keys fuel master (server.sha256 (report.unique_id ++ rest))
            ≡ reached derived)
          (sym (rest_is_client_data sk client_data sized)) derives in
      let served =
        serve_getkey-IsAttested server fuel master derived q (public_of sk) report sealed
          (client-IsAttested sk client_data report_bz token json entropy sized made marshaled
            endorsed)
          derives_rest seals in
      let decoded =
        hex_decode-hex_encode sealed (linked.encrypted_IsBytes sk entropy _ sealed seals) in
      rw made (
        rw tokened (
          rw sized (
            rw marshaled (
              rw (delivered ∙ ap answer served) (
                rw decoded (
                  rw (linked.decrypts sk entropy _ sealed seals)
                    (rw (linked.deserializes derived) refl)))))))
