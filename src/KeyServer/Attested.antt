-- ===== src/KeyServer/Attested.antt =====
-- What the checks of keygrantor/cmd/main.go establish of a request, and GetSelfReportAndCheck of
-- the enclave itself.
use egvm.Prelude.{◌≡◌, ap, ◌∙◌, false, not, none, some, [], ◌∷◌, length, take, ◌==◌, arith}
use egvm.Bytes.{Bytes, equal_bytes, equal_bytes_sound}
use egvm.Hex.{hex_encode, hex_decode}
use egvm.KeyGrantor.{Report, verify_peer_report, verify_jwt}
use egvm.KeyServer.{
  ServerLib, GetKeyParams, Request, sent, aborted, value, require, present, no_error, reply_of,
  first_pubkey, handle_requester_pubkey, handle_get_key_param, get_self_report_and_check,
  send_encrypted, bad_request, internal_error,
}
use egvm.KeyServer.Inversion.{
  FailsOnly, FailsOnly-bind, FailsOnly-present, bind_sent, bind_value, present_value, require_value,
  no_error_value,
}

module _ (lib : ServerLib) where
  -- The request names a public key and posts a report, which the enclave library verifies, and
  -- whose data is 64 bytes that begin with the hash of that key.
  pub record IsPosted (q : Request) (pubkey : lib.PublicKey) (report : Report) : Type 0 where
    pub text : Bytes
    pub pubkey_bz : Bytes
    pub body : Bytes
    pub params : GetKeyParams
    pub report_bz : Bytes
    pub named : first_pubkey q.pubkeys ≡ some text
    pub decoded : hex_decode text ≡ some pubkey_bz
    pub parsed : lib.new_public_key pubkey_bz ≡ some pubkey
    pub posted : q.body ≡ some body
    pub unmarshaled : lib.unmarshal_params body ≡ some params
    pub report_decoded : hex_decode params.report ≡ some report_bz
    pub verified : lib.verify_remote_report report_bz ≡ some report
    pub sized : length report.report_data ≡ 64
    pub bound : lib.sha256 pubkey_bz ≡ take 32 report.report_data

  -- Besides, VerifyJWT lets the posted token through.
  pub record IsAttested (q : Request) (pubkey : lib.PublicKey) (report : Report) : Type 0 where
    pub request : IsPosted q pubkey report
    pub token : verify_jwt lib.attestation lib.provider_urls request.params.jwt report ≡ none

  -- The server's own report, not in debug mode, which agrees with a remote report that the
  -- enclave has just made and verified.
  pub record IsSelf (self_report : Report) : Type 0 where
    pub remote_bytes : Bytes
    pub remote : Report
    pub made : lib.get_self_report ≡ some self_report
    pub not_debug : self_report.debug ≡ false
    pub quoted : lib.get_remote_report (1 ∷ []) ≡ some remote_bytes
    pub checked : lib.verify_remote_report remote_bytes ≡ some remote
    pub agrees : verify_peer_report lib.attestation remote self_report ≡ none

  pub requester_FailsOnly : (q : Request) → FailsOnly (handle_requester_pubkey lib q)
  unfolding handle_requester_pubkey
  requester_FailsOnly q =
      FailsOnly-bind (present (first_pubkey q.pubkeys) bad_request) _ (FailsOnly-present _ _ tt)
        (λ text.
          FailsOnly-bind (present (hex_decode text) bad_request) _ (FailsOnly-present _ _ tt) (λ bz.
            FailsOnly-bind (present (lib.new_public_key bz) bad_request) _
              (FailsOnly-present _ _ tt) (λ key. tt)))

  pub param_FailsOnly : (q : Request) (bz : Bytes) → FailsOnly (handle_get_key_param lib q bz)
  unfolding handle_get_key_param
  param_FailsOnly q bz = ground arith

  pub self_FailsOnly : FailsOnly (get_self_report_and_check lib)
  unfolding get_self_report_and_check
  self_FailsOnly = ground arith

  requester_value :
      (q : Request) (pubkey : lib.PublicKey) (pubkey_bz : Bytes)
      → handle_requester_pubkey lib q ≡ value (pubkey, pubkey_bz)
      → (text : Bytes) × (first_pubkey q.pubkeys ≡ some text)
        × (hex_decode text ≡ some pubkey_bz)
        × (lib.new_public_key pubkey_bz ≡ some pubkey)
  unfolding handle_requester_pubkey
  requester_value q pubkey pubkey_bz e =
      let (text, named, e₁) = bind_value (present (first_pubkey q.pubkeys) bad_request) _ e in
      let (bz, decoded, e₂) = bind_value (present (hex_decode text) bad_request) _ e₁ in
      let (key, parsed, e₃) = bind_value (present (lib.new_public_key bz) bad_request) _ e₂ in
      (text, present_value _ _ named, present_value _ _ decoded ∙ cc, cc (present_value _ _ parsed))

  pub attested :
      (q : Request) (pubkey : lib.PublicKey) (pubkey_bz : Bytes) (report : Report)
      → handle_requester_pubkey lib q ≡ value (pubkey, pubkey_bz)
      → handle_get_key_param lib q pubkey_bz ≡ value report
      → IsAttested q pubkey report
  unfolding handle_get_key_param
  attested q pubkey pubkey_bz report asked e =
      let (text, named, decoded, parsed) = requester_value q pubkey pubkey_bz asked in
      let (body, posted, e₁) = bind_value (present q.body internal_error) _ e in
      let (params, unmarshaled, e₂) =
        bind_value (present (lib.unmarshal_params body) bad_request) _ e₁ in
      let (bz, opened, e₃) = bind_value (present (hex_decode params.report) bad_request) _ e₂ in
      let (r, verified, e₄) = bind_value (present (lib.verify_remote_report bz) bad_request) _ e₃ in
      let (_, sized, e₅) = bind_value (require (length r.report_data == 64) bad_request) _ e₄ in
      let (_, bound, e₆) =
        bind_value
          (require (equal_bytes (lib.sha256 pubkey_bz) (take 32 r.report_data)) bad_request) _ e₅ in
      let (_, token, e₇) =
        bind_value
          (no_error (verify_jwt lib.attestation lib.provider_urls params.jwt r) bad_request) _ e₆ in
      let same : r ≡ report = cc in
      record {
        request = record {
          text = text;
          pubkey_bz = pubkey_bz;
          body = body;
          params = params;
          report_bz = bz;
          named = named;
          decoded = decoded;
          parsed = parsed;
          posted = present_value _ _ posted;
          unmarshaled = present_value _ _ unmarshaled;
          report_decoded = present_value _ _ opened;
          verified = present_value _ _ verified ∙ ap some same;
          sized = rw (← same) (ground (arith, require_value _ _ sized));
          bound = rw (← same) (equal_bytes_sound _ _ (require_value _ _ bound));
        };
        token = rw (← same) (no_error_value _ _ token);
      }

  pub IsSelf-value :
      (self_report : Report)
      → get_self_report_and_check lib ≡ value self_report
      → IsSelf self_report
  unfolding get_self_report_and_check
  IsSelf-value self_report e =
      let (s, made, e₁) = bind_value (present lib.get_self_report aborted) _ e in
      let (_, calm, e₂) = bind_value (require (not s.debug) aborted) _ e₁ in
      let (bz, quoted, e₃) = bind_value (present (lib.get_remote_report (1 ∷ [])) aborted) _ e₂ in
      let (r, checked, e₄) = bind_value (present (lib.verify_remote_report bz) aborted) _ e₃ in
      let (_, agrees, e₅) =
        bind_value (no_error (verify_peer_report lib.attestation r s) aborted) _ e₄ in
      let same : s ≡ self_report = cc in
      record {
        remote_bytes = bz;
        remote = r;
        made = present_value _ _ made ∙ ap some same;
        not_debug = rw (← same) (ground (arith, require_value _ _ calm));
        quoted = present_value _ _ quoted;
        checked = present_value _ _ checked;
        agrees = rw (← same) (no_error_value _ _ agrees);
      }

  pub sent_value :
      (entropy bz out : Bytes) (pubkey : lib.PublicKey)
      → reply_of (send_encrypted lib entropy pubkey bz) ≡ sent out
      → (sealed : Bytes) × (lib.encrypt entropy pubkey bz ≡ some sealed) × (out ≡ hex_encode sealed)
  unfolding send_encrypted
  sent_value entropy bz out pubkey e =
      let (sealed, made, e₁) =
        bind_sent (present (lib.encrypt entropy pubkey bz) internal_error) _
          (FailsOnly-present _ _ tt) e in
      (sealed, present_value _ _ made, cc e₁)
