-- ===== src/Tests/Keys.antt =====
-- The theorems on the key grantor at concrete inputs.
use mathlib.Core.List.{foldl}
use egvm.Prelude.{
  zero, suc, ℕ, ◌<◌, ◌%◌, ◌≡◌, ◌↔◌, refl, Bool, true, false, Option, none, some, List, [], ◌∷◌,
  replicate, arith, All, if◌then◌else◌, ◌==◌,
}
use egvm.Bytes.{equal_bytes}
use egvm.KeyGrantor.{
  Report, Attestation, verify_peer_report, verify_jwt, KeyLib, reached, nil_dereference, derive_key,
}
use egvm.KeyGrantor.Reports.{verify_peer_report_iff, verify_jwt_accepted}
use egvm.KeyGrantor.Derive.{descendant, derive_key-descendant}
use egvm.Word.{from_be}
use egvm.KeyGrantor.Path.{path, path_of, derive_key-path}

abbrev good_report : Report
good_report = record {
  report_data = [];
  unique_id = 1 ∷ [];
  signer_id = 2 ∷ [];
  product_id = 3 ∷ [];
  debug = false;
  tcb_status = 0;
}

-- One provider, at the URL [ 9 ], which accepts every token.
abbrev answer : Bool → Option Report
answer true = some good_report
answer false = none

abbrev model_attestation : Attestation
model_attestation = record {
  up_to_date = 0;
  verify_azure_attestation_token = λ token url. answer (equal_bytes url (9 ∷ []));
}

verify_peer_report_iff_example :
    (verify_peer_report model_attestation good_report good_report ≡ none) ↔ (
      (false ≡ false)
      × (good_report.tcb_status ≡ model_attestation.up_to_date)
      × (good_report.unique_id ≡ good_report.unique_id)
      × (good_report.signer_id ≡ good_report.signer_id)
      × (good_report.product_id ≡ good_report.product_id))
verify_peer_report_iff_example = verify_peer_report_iff model_attestation good_report good_report

verify_jwt_accepted_example :
    (verify_jwt model_attestation ((4 ∷ []) ∷ (9 ∷ []) ∷ []) [] good_report ≡ none) ↔ (
      (false ≡ false)
      × (good_report.tcb_status ≡ model_attestation.up_to_date)
      × (good_report.unique_id ≡ good_report.unique_id)
      × (good_report.signer_id ≡ good_report.signer_id)
      × (good_report.product_id ≡ good_report.product_id))
unfolding equal_bytes
verify_jwt_accepted_example =
    verify_jwt_accepted model_attestation [] (9 ∷ []) ((4 ∷ []) ∷ []) [] good_report good_report
      (refl, tt) refl

-- Keys that remember their path, and no key at an odd index.
abbrev child_if : ℕ → List ℕ → Bool → Option (List ℕ)
child_if i key even = if even then some (i ∷ key) else none

abbrev even_keys : KeyLib
even_keys = record { Key = List ℕ; new_child_key = λ key i. child_if i key (i % 2 == 0) }

-- Keys that remember their path, with a child at every index.
abbrev all_keys : KeyLib
all_keys = record { Key = List ℕ; new_child_key = λ key i. some (i ∷ key) }

derive_key-descendant_example : derive_key even_keys 2 [] (replicate 32 255) ≡ nil_dereference
unfolding path descendant from_be
derive_key-descendant_example = derive_key-descendant even_keys 0 [] (replicate 32 255)

All-replicate : (n b : ℕ) → b < 256 → All (λ x. x < 256) (replicate n b)
All-replicate zero b h = tt
All-replicate (suc n) b h = (h, All-replicate n b h)

derive_key-path_example :
    derive_key all_keys 1 [] (replicate 32 5)
    ≡ reached (foldl (λ key i. i ∷ key) [] (path_of (replicate 32 5)))
derive_key-path_example =
    (derive_key-path all_keys (λ key i. i ∷ key) 0 [] (replicate 32 5) (replicate 32 6)
      (λ k m h. refl) (All-replicate 32 5 (omega arith)) (All-replicate 32 6 (omega arith)) refl
      refl).0
