-- ===== src/KeyServer/Release.antt =====
-- Which requests get a key from the handlers of keygrantor/cmd/main.go.
use egvm.Prelude.{refl, ℕ, ◌≡◌, subst, false, none, some, ◌++◌, take, drop, arith, All}
use egvm.Bytes.{Bytes, equal_bytes_refl}
use egvm.Hex.{hex_encode}
use egvm.KeyGrantor.{Report, verify_peer_report, reached, derive_key}
use egvm.KeyGrantor.Reports.{verify_peer_report_iff, verify_jwt_rejected, Rejects}
use egvm.KeyServer.{
  key_or_abort, ServerLib, Request, sent, value, no_error, handle_requester_pubkey,
  handle_get_key_param, get_self_report_and_check, send_encrypted, handle_key_derive, serve_xprv,
  serve_getkey, bad_request,
}
use egvm.KeyServer.Inversion.{
  FailsOnly-key_or_abort, key_or_abort_value, FailsOnly-no_error, bind_sent, no_error_value,
}
use egvm.KeyServer.Attested.{
  IsPosted, IsAttested, IsSelf, requester_FailsOnly, param_FailsOnly, self_FailsOnly, attested,
  IsSelf-value, sent_value,
}

module _ (lib : ServerLib) where
  -- The handler of /xprv sends a body only to a request that is attested as above, whose report
  -- is not in debug mode, has an up-to-date TCB and has the three identifiers of the server's own
  -- checked report; the body is then the master key, encrypted to the attested public key.
  pub serve_xprv-sent :
      (ext_priv_key : lib.keys.Key) (q : Request) (out : Bytes)
      → serve_xprv lib ext_priv_key q ≡ sent out
      → (pubkey : lib.PublicKey) × (report : Report) × (self_report : Report) × (sealed : Bytes)
        × IsAttested lib q pubkey report
        × IsSelf lib self_report
        × (report.debug ≡ false)
        × (report.tcb_status ≡ lib.attestation.up_to_date)
        × (self_report.unique_id ≡ report.unique_id)
        × (self_report.signer_id ≡ report.signer_id)
        × (self_report.product_id ≡ report.product_id)
        × (lib.encrypt q.entropy pubkey (lib.serialize ext_priv_key) ≡ some sealed)
        × (out ≡ hex_encode sealed)
  unfolding serve_xprv
  serve_xprv-sent key q out e =
      let ((pubkey, pubkey_bz), asked, e₁) =
        bind_sent (handle_requester_pubkey lib q) _ (requester_FailsOnly lib q) e in
      let (report, told, e₂) =
        bind_sent (handle_get_key_param lib q pubkey_bz) _ (param_FailsOnly lib q pubkey_bz) e₁ in
      let (self_report, checked, e₃) =
        bind_sent (get_self_report_and_check lib) _ (self_FailsOnly lib) e₂ in
      let (_, peer, e₄) =
        bind_sent (no_error (verify_peer_report lib.attestation report self_report) bad_request) _
          (FailsOnly-no_error _ _ tt) e₃ in
      let same =
        (verify_peer_report_iff lib.attestation report self_report).0 (no_error_value _ _ peer) in
      let (sealed, made, written) = sent_value lib q.entropy (lib.serialize key) out pubkey e₄ in
      (
        pubkey,
        report,
        self_report,
        sealed,
        attested lib q pubkey pubkey_bz report asked told,
        IsSelf-value lib self_report checked,
        same.0,
        same.1,
        same.2,
        same.3,
        same.4,
        made,
        written,
      )

  -- The handler of /getkey sends a body only to a request that is attested as above; the body is
  -- then a key derived from the master key by the hash of the report's unique id and of the bytes
  -- behind the key hash in its data, encrypted to the attested public key.
  pub serve_getkey-sent :
      (fuel : ℕ) (ext_priv_key : lib.keys.Key) (q : Request) (out : Bytes)
      → serve_getkey lib fuel ext_priv_key q ≡ sent out
      → (pubkey : lib.PublicKey) × (report : Report) × (derived : lib.keys.Key) × (sealed : Bytes)
        × IsAttested lib q pubkey report
        × (derive_key lib.keys fuel ext_priv_key
              (lib.sha256 (report.unique_id ++ drop 32 report.report_data))
            ≡ reached derived)
        × (lib.encrypt q.entropy pubkey (lib.serialize derived) ≡ some sealed)
        × (out ≡ hex_encode sealed)
  unfolding serve_getkey handle_key_derive
  serve_getkey-sent fuel key q out e =
      let ((pubkey, pubkey_bz), asked, e₁) =
        bind_sent (handle_requester_pubkey lib q) _ (requester_FailsOnly lib q) e in
      let (report, told, e₂) =
        bind_sent (handle_get_key_param lib q pubkey_bz) _ (param_FailsOnly lib q pubkey_bz) e₁ in
      let (derived, made_key, e₃) =
        bind_sent
          (key_or_abort (
            derive_key lib.keys fuel key
              (lib.sha256 (report.unique_id ++ drop 32 report.report_data))))
          _ (FailsOnly-key_or_abort _) e₂ in
      let (sealed, made, written) =
        sent_value lib q.entropy (lib.serialize derived) out pubkey e₃ in
      (
        pubkey,
        report,
        derived,
        sealed,
        attested lib q pubkey pubkey_bz report asked told,
        key_or_abort_value _ made_key,
        made,
        written,
      )

  send :
      (entropy bz sealed : Bytes) (pubkey : lib.PublicKey)
      → lib.encrypt entropy pubkey bz ≡ some sealed
      → send_encrypted lib entropy pubkey bz ≡ value (sent (hex_encode sealed))
  unfolding send_encrypted
  send entropy bz sealed pubkey e = rw e

  requester :
      {q : Request} {pubkey : lib.PublicKey} {report : Report} (a : IsPosted lib q pubkey report)
      → handle_requester_pubkey lib q ≡ value (pubkey, a.pubkey_bz)
  unfolding handle_requester_pubkey
  requester a = rw a.named (rw a.decoded (rw a.parsed))

  reported :
      {q : Request} {pubkey : lib.PublicKey} {report : Report} (a : IsAttested lib q pubkey report)
      → handle_get_key_param lib q a.request.pubkey_bz ≡ value report
  unfolding handle_get_key_param
  reported {report} a = rw a.request.posted (
      rw a.request.unmarshaled (
        rw a.request.report_decoded (
          rw a.request.verified (
            rw (a.request.bound, equal_bytes_refl (take 32 report.report_data), a.token)
              (ground (arith, a.request.sized))))))

  -- An attested request for which the derivation and the encryption succeed gets the derived key.
  pub serve_getkey-IsAttested :
      (fuel : ℕ) (ext_priv_key derived : lib.keys.Key) (q : Request) (pubkey : lib.PublicKey)
      (report : Report) (sealed : Bytes)
      → IsAttested lib q pubkey report
      → derive_key lib.keys fuel ext_priv_key
          (lib.sha256 (report.unique_id ++ drop 32 report.report_data))
        ≡ reached derived
      → lib.encrypt q.entropy pubkey (lib.serialize derived) ≡ some sealed
      → serve_getkey lib fuel ext_priv_key q ≡ sent (hex_encode sealed)
  unfolding serve_getkey handle_key_derive
  serve_getkey-IsAttested fuel key derived q pubkey report sealed a d e =
      rw (requester a.request) (rw (reported a) (rw d (rw (send _ _ sealed pubkey e))))

  -- A posted request whose report the server verified, for which the derivation and the encryption
  -- succeed, gets the derived key from /getkey also where every attestation provider rejects the
  -- token, and whether or not the report is in debug mode.
  pub unendorsed_report_served :
      (fuel : ℕ) (ext_priv_key derived : lib.keys.Key) (q : Request) (pubkey : lib.PublicKey)
      (report : Report) (sealed : Bytes) (posted : IsPosted lib q pubkey report)
      → All (Rejects lib.attestation posted.params.jwt) lib.provider_urls
      → derive_key lib.keys fuel ext_priv_key
          (lib.sha256 (report.unique_id ++ drop 32 report.report_data))
        ≡ reached derived
      → lib.encrypt q.entropy pubkey (lib.serialize derived) ≡ some sealed
      → serve_getkey lib fuel ext_priv_key q ≡ sent (hex_encode sealed)
  unendorsed_report_served fuel key derived q pubkey report sealed posted rejected d e =
      serve_getkey-IsAttested fuel key derived q pubkey report sealed
        (record {
          request = posted;
          token =
              verify_jwt_rejected lib.attestation posted.params.jwt lib.provider_urls report
                rejected;
        })
        d e

  self_checked :
      (self_report : Report)
      → IsSelf lib self_report
      → get_self_report_and_check lib ≡ value self_report
  unfolding get_self_report_and_check
  self_checked self_report s =
      let agrees =
        subst
          (λ d.
            verify_peer_report lib.attestation s.remote (record self_report { debug = d }) ≡ none)
          s.not_debug s.agrees in
      rw s.made (rw s.not_debug (rw s.quoted (rw s.checked (rw agrees refl))))

  -- An attested request of the same enclave as the server's gets the master key.
  pub serve_xprv-IsAttested :
      (ext_priv_key : lib.keys.Key) (q : Request) (pubkey : lib.PublicKey)
      (report self_report : Report) (sealed : Bytes)
      → IsAttested lib q pubkey report
      → IsSelf lib self_report
      → verify_peer_report lib.attestation report self_report ≡ none
      → lib.encrypt q.entropy pubkey (lib.serialize ext_priv_key) ≡ some sealed
      → serve_xprv lib ext_priv_key q ≡ sent (hex_encode sealed)
  unfolding serve_xprv
  serve_xprv-IsAttested key q pubkey report self_report sealed a s same e =
      rw (requester a.request) (
        rw (reported a) (rw (self_checked self_report s) (rw same (rw (send _ _ sealed pubkey e)))))
