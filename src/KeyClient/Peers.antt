-- ===== src/KeyClient/Peers.antt =====
-- GetKeyFromKeyGrantor of keygrantor/keygrantor.go without client data, against the handler of /xprv
-- in keygrantor/cmd/main.go: how a second key server gets the master key of the first.
use egvm.Prelude.{
  ◌+◌, ◌-◌, ◌≡◌, refl, sym, ap, ◌∙◌, none, some, [], ◌++◌, append-nil, length, length-append, take,
  replicate,
}
use egvm.Bytes.{Bytes}
use egvm.Hex.{hex_encode, hex_decode-hex_encode}
use egvm.KeyGrantor.{Report, verify_peer_report, verify_jwt}
use egvm.KeyServer.{ServerLib, serve_xprv}
use egvm.KeyServer.Attested.{IsAttested, IsSelf}
use egvm.KeyServer.Release.{serve_xprv-IsAttested}
use egvm.KeyClient.{ClientLib, got, body_of, first_token, xprv_path, get_key_from_key_grantor}
use egvm.KeyClient.EndToEnd.{IsLinked, answer, request_of, data_for, IsAttested-for, hash_in_front}

module _ (server : ServerLib) (PrivateKey : Type 0) (client : ClientLib server.keys.Key PrivateKey)
    (public_of : PrivateKey → server.PublicKey) (report_of : Bytes → Report)
    (linked : IsLinked server PrivateKey client public_of report_of) where
  abbrev peer_data : PrivateKey → Bytes
  peer_data sk = data_for server PrivateKey client public_of report_of linked sk []

  peer_data_is_hash : (sk : PrivateKey) → peer_data sk ≡ client.sha256 (client.public_bytes sk)
  peer_data_is_hash sk = append-nil (client.sha256 (client.public_bytes sk))

  peer_reported :
      (sk : PrivateKey)
      → (report_of (peer_data sk)).report_data
        ≡ client.sha256 (client.public_bytes sk) ++ replicate 32 0
  peer_reported sk =
      linked.reported (peer_data sk)
      ∙ ap (λ bz. bz ++ replicate (64 - length bz) 0) (peer_data_is_hash sk)
      ∙ ap (λ n. client.sha256 (client.public_bytes sk) ++ replicate (64 - n) 0)
          (linked.hash_sized (client.public_bytes sk))

  peer-IsAttested :
      (sk : PrivateKey) (report_bz token json entropy : Bytes)
      → client.get_remote_report (peer_data sk) ≡ some report_bz
      → client.marshal_params (record { report = hex_encode report_bz; jwt = token }) ≡ some json
      → verify_jwt server.attestation server.provider_urls token (report_of (peer_data sk)) ≡ none
      → IsAttested server
          (request_of (client.public_bytes sk) json entropy)
          (public_of sk)
          (report_of (peer_data sk))
  peer-IsAttested sk report_bz token json entropy made marshaled endorsed =
      let hash = client.sha256 (client.public_bytes sk) in
      IsAttested-for server PrivateKey client public_of report_of linked sk [] report_bz token json
        entropy
        (ap length (peer_reported sk)
          ∙ length-append hash (replicate 32 0)
          ∙ ap (λ n. n + 32) (linked.hash_sized (client.public_bytes sk)))
        (sym (
          ap (take 32) (peer_reported sk)
          ∙ hash_in_front server PrivateKey client public_of report_of linked sk (replicate 32 0)))
        made marshaled endorsed

  -- A key server that answers a request without client data, of an enclave whose report it can
  -- verify and finds to be from the same code and signer as its own, gives that enclave its master
  -- key.
  pub get_key_from_key_grantor-serve_xprv :
      (master : server.keys.Key) (sk : PrivateKey) (url report_bz token json entropy sealed : Bytes)
      (self_report : Report)
      → client.get_remote_report (peer_data sk) ≡ some report_bz
      → first_token (client.create_token (peer_data sk)) client.provider_urls (some []) ≡ some token
      → client.marshal_params (record { report = hex_encode report_bz; jwt = token }) ≡ some json
      → verify_jwt server.attestation server.provider_urls token (report_of (peer_data sk)) ≡ none
      → IsSelf server self_report
      → verify_peer_report server.attestation (report_of (peer_data sk)) self_report ≡ none
      → server.encrypt entropy (public_of sk) (server.serialize master) ≡ some sealed
      → client.post (url ++ (xprv_path ++ hex_encode (client.public_bytes sk))) json
        ≡ answer (serve_xprv server master (request_of (client.public_bytes sk) json entropy))
      → get_key_from_key_grantor client sk url [] ≡ got master
  unfolding get_key_from_key_grantor body_of
  get_key_from_key_grantor-serve_xprv master sk url report_bz token json entropy sealed self_report
        made tokened marshaled endorsed self peer seals delivered =
      let q = request_of (client.public_bytes sk) json entropy in
      let served =
        serve_xprv-IsAttested server master q (public_of sk) (report_of (peer_data sk)) self_report
          sealed (peer-IsAttested sk report_bz token json entropy made marshaled endorsed) self peer
          seals in
      let decoded =
        hex_decode-hex_encode sealed (linked.encrypted_IsBytes sk entropy _ sealed seals) in
      rw made (
        rw tokened (
          rw marshaled (
            rw (delivered ∙ ap answer served) (
              rw decoded (
                rw (linked.decrypts sk entropy _ sealed seals)
                  (rw (linked.deserializes master) refl))))))
