-- ===== src/KeyGrantor.antt =====
-- keygrantor/keygrantor.go: the checks of attestation reports and tokens, and the derivation of
-- keys. The attestation providers, the SGX reports and the BIP-32 keys come from packages that are
-- not part of the repository; they are parameters.
pub mod Reports
pub mod Derive
pub mod Path
use egvm.Prelude.{
  ℕ, zero, suc, ◌+◌, ◌*◌, ◌/◌, ◌%◌, ◌^◌, ◌≡◌, Bool, true, false, not, Option, none, some, List, [],
  ◌∷◌, ◌==◌, if◌then◌else◌,
}
use egvm.Bytes.{Bytes, equal_bytes}
use egvm.Word.{from_be}

-- What the checks read of an `attestation.Report`.
pub record Report : Type 0 where
  pub report_data : Bytes
  pub unique_id : Bytes
  pub signer_id : Bytes
  pub product_id : Bytes
  pub debug : Bool
  pub tcb_status : ℕ

-- ErrInDebugMode, ErrTCBStatus, ErrUniqueIDMismatch, ErrSignerIDMismatch, ErrProductIDMismatch
pub data Err : Type 0 where
  in_debug_mode tcb_not_up_to_date unique_id_mismatch signer_id_mismatch product_id_mismatch : Err

-- tcbstatus.UpToDate, and VerifyAzureAttestationToken of a token and a provider's URL.
pub record Attestation : Type 0 where
  pub up_to_date : ℕ
  pub verify_azure_attestation_token : Bytes → Bytes → Option Report

-- VerifyPeerReport: no error is `none`
unfoldable pub verify_peer_report : Attestation → Report → Report → Option Err
verify_peer_report at report self_report =
    if report.debug
    then some in_debug_mode
    else if not (report.tcb_status == at.up_to_date)
    then some tcb_not_up_to_date
    else if not (equal_bytes self_report.unique_id report.unique_id)
    then some unique_id_mismatch
    else if not (equal_bytes self_report.signer_id report.signer_id)
    then some signer_id_mismatch
    else if not (equal_bytes self_report.product_id report.product_id)
    then some product_id_mismatch
    else none

-- VerifyJWT over the providers' URLs. The error of a failed round is declared inside the loop, and
-- the function returns its own `err`, which nothing assigns.
unfoldable pub verify_jwt : Attestation → List Bytes → Bytes → Report → Option Err
unfolding verify_peer_report
verify_jwt at [] token report = none
verify_jwt at (url ∷ urls) token report = elim (at.verify_azure_attestation_token token url) [
  | some token_report ↦ verify_peer_report at token_report report
  | none ↦ verify_jwt at urls token report
]

-- (*bip32.Key).NewChildKey with a uint32 index: an error is `none`.
pub record KeyLib : Type 1 where
  pub Key : Type 0
  pub new_child_key : Key → ℕ → Option Key

-- The index that a round of depth `i` uses: m, and m + lastAdd at depth 8.
unfoldable pub index_at : ℕ → ℕ → ℕ → ℕ
index_at i m last_add = if i == 8 then (m + last_add) % 2 ^ 32 else m

-- What DeriveKey leads to: a key, the panic of a method that is called on a nil key, or more rounds
-- than the model's fuel.
pub data Derived {ℓ} (A : Type ℓ) : Type ℓ where
  reached : A → Derived A
  nil_dereference out_of_fuel : Derived A

module _ (lib : KeyLib) where
  open lib use {Key, new_child_key}

  -- The inner loop of DeriveKey at depth `i`, with fuel: the child and the new lastAdd. Every
  -- number is a uint32. The key is `none` where it is nil: a call of NewChildKey that fails assigns
  -- its nil key to the variable, and the next round calls the method of nil.
  unfoldable pub retry : ℕ → ℕ → Option Key → ℕ → ℕ → ℕ → Derived (Key × ℕ)
  unfolding index_at
  retry zero i key m last_add unit = out_of_fuel
  retry (suc fuel) i none m last_add unit = nil_dereference
  retry (suc fuel) i (some key) m last_add unit = elim (new_child_key key (index_at i m last_add)) [
    | some child ↦ reached (child, last_add)
    | none ↦ retry fuel i none ((m + 1) % 2 ^ 32) ((last_add + unit) % 2 ^ 32) unit
  ]

  -- The outer loop of DeriveKey, from depth `i` on with `left` rounds.
  unfoldable pub derive_loop : ℕ → ℕ → ℕ → Key → ℕ → ℕ → ℕ → Derived Key
  unfolding retry
  derive_loop fuel zero i key n last_add unit = reached key
  derive_loop fuel (suc left) i key n last_add unit =
      elim (retry fuel i (some key) (n % 2 ^ 31) last_add unit) [
        | out_of_fuel ↦ out_of_fuel
        | nil_dereference ↦ nil_dereference
        | reached (child, last_add') ↦
            derive_loop fuel left (i + 1) child (n / 2 ^ 31) last_add' (unit * 8 % 2 ^ 32)
      ]

  -- DeriveKey
  unfoldable pub derive_key : ℕ → Key → Bytes → Derived Key
  unfolding derive_loop
  derive_key fuel key hash = derive_loop fuel 9 0 key (from_be 0 hash) 0 (2 ^ 8)
