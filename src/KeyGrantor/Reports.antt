-- ===== src/KeyGrantor/Reports.antt =====
-- VerifyPeerReport and VerifyJWT of keygrantor/keygrantor.go.
use egvm.Prelude.{◌≡◌, ◌↔◌, refl, false, none, some, List, [], ◌∷◌, ◌++◌, arith, All}
use egvm.Bytes.{Bytes, equal_bytes_refl, equal_bytes_sound}
use egvm.KeyGrantor.{Report, Attestation, verify_peer_report, verify_jwt}

module _ (at : Attestation) where
  -- VerifyPeerReport returns no error exactly for a report that is not in debug mode, has an
  -- up-to-date TCB, and has the three identifiers of the self report.
  pub verify_peer_report_iff :
      (report self_report : Report)
      → (verify_peer_report at report self_report ≡ none) ↔ (
          (report.debug ≡ false)
          × (report.tcb_status ≡ at.up_to_date)
          × (self_report.unique_id ≡ report.unique_id)
          × (self_report.signer_id ≡ report.signer_id)
          × (self_report.product_id ≡ report.product_id))
  unfolding verify_peer_report
  verify_peer_report_iff r s = (
    λ e. ground (
      arith,
      equal_bytes_sound s.unique_id r.unique_id,
      equal_bytes_sound s.signer_id r.signer_id,
      equal_bytes_sound s.product_id r.product_id,
    ),
    λ h.
        rw (h.2, h.3, h.4)
          (ground (
            arith,
            equal_bytes_refl r.unique_id,
            equal_bytes_refl r.signer_id,
            equal_bytes_refl r.product_id,
          )),
  )

  -- A provider that rejects the token.
  abbrev pub Rejects : Bytes → Bytes → Type 0
  Rejects token url = at.verify_azure_attestation_token token url ≡ none

  -- A token that every provider rejects passes: VerifyJWT returns no error, whatever the report.
  pub verify_jwt_rejected :
      (token : Bytes) (urls : List Bytes) (report : Report)
      → All (Rejects token) urls
      → verify_jwt at urls token report ≡ none
  unfolding verify_jwt
  verify_jwt_rejected token [] report h = refl
  verify_jwt_rejected token (u ∷ urls) report h =
      rw (h.0, verify_jwt) (verify_jwt_rejected token urls report h.1)

  -- If a provider accepts the token after all before it have rejected it, VerifyJWT returns no
  -- error exactly when the report that the provider read from the token is not in debug mode, has
  -- an up-to-date TCB and has the three identifiers of the given report.
  pub verify_jwt_accepted :
      (token url : Bytes) (before after : List Bytes) (report token_report : Report)
      → All (Rejects token) before
      → at.verify_azure_attestation_token token url ≡ some token_report
      → (verify_jwt at (before ++ (url ∷ after)) token report ≡ none) ↔ (
          (token_report.debug ≡ false)
          × (token_report.tcb_status ≡ at.up_to_date)
          × (report.unique_id ≡ token_report.unique_id)
          × (report.signer_id ≡ token_report.signer_id)
          × (report.product_id ≡ token_report.product_id))
  unfolding verify_jwt
  verify_jwt_accepted token url [] after report token_report h e =
      rw (e, verify_jwt) (verify_peer_report_iff token_report report)
  verify_jwt_accepted token url (u ∷ before) after report token_report h e =
      rw (h.0, verify_jwt) (verify_jwt_accepted token url before after report token_report h.1 e)
