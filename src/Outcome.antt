-- ===== src/Outcome.antt =====
-- How a call from a script ends: with a value, or with a Go panic, which goja turns into an
-- exception of the script. The named panics are those of script/utils/errors.go and of the
-- methods in script/types and script/extension; `runtime_error` is a panic of the Go runtime,
-- and `fatal_exit` is an exit by log.Fatalf.
use egvm.Prelude.{Bool, true, false, Option, none, some, ◌≡◌, refl}

pub data Panic : Type 0 where
  incorrect_argument_count empty_key_string larger_than_max_integer overflow_in_signed : Panic
  invalid_hex_string overflow_in_addition overflow_in_substraction divide_by_zero : Panic
  overflow_in_to_safe_integer overflow_in_abs overflow_in_neg overflow_in_signed_addition : Panic
  overflow_in_signed_substraction overflow_in_signed_multiplication overflow_in_division : Panic
  wrong_argument_type unsupported_type padding_out_of_range : Panic
  empty_map_bytes invalid_map_tag tag_byte_error tag_mismatch error_in_loading_map : Panic
  invalid_leaf_size invalid_proof_size : Panic
  non_ascii_string unsupported_hash_type : Panic
  error_in_new_child_key error_in_derive not_uint32 not_private error_in_bip32_key : Panic
  fatal_exit invalid_log_hash error_of_file error_of_json : Panic
  not_public_key not_private_key error_in_aes_gcm_encrypt error_in_ecdh error_in_encapsulate : Panic
  error_in_decapsulate error_in_sign error_in_encrypt error_in_vrf_prove error_in_vrf_verify : Panic
  invalid_public_key_length invalid_digest_hash_length invalid_sig_length error_in_ecrecover : Panic
  error_in_new_public_key error_in_sign_tx error_in_parse_tx error_in_merkle_proof : Panic
  error_extracting_matches error_of_db empty_url error_in_request error_in_sending
        error_in_response :
      Panic
  status_not_ok error_of_result : Panic
  runtime_error : Panic

pub data Outcome {ℓ} (A : Type ℓ) : Type ℓ where
  ok : A → Outcome A
  panic : Panic → Outcome A

infixl 5 ◌>>=◌ ◌>>◌
abbrev pub ◌>>=◌ {ℓ κ} : {A : Type ℓ} {B : Type κ} → Outcome A → (A → Outcome B) → Outcome B
panic p >>= later = panic p
ok a >>= later = later a

abbrev pub ◌>>◌ {ℓ} : {B : Type ℓ} → Outcome (Unit {0}) → Outcome B → Outcome B
m >> k = m >>= λ _. k

-- `if b { panic(p) }`.
abbrev pub panic_if : Bool → Panic → Outcome (Unit {0})
panic_if true p = panic p
panic_if false p = ok tt

abbrev pub returned {ℓ κ} : {A : Type ℓ} {B : Type κ} → (A → B) → Outcome A → Option B
returned f (ok a) = some (f a)
returned f (panic p) = none

-- The value is what `exact` says where it is something; where it is nothing the call panics with `p`.
abbrev pub outcome_of {ℓ} : {A : Type ℓ} → Panic → Option A → Outcome A
outcome_of p none = panic p
outcome_of p (some a) = ok a

abbrev pub map_ok {ℓ κ} : {A : Type ℓ} {B : Type κ} → (A → B) → Outcome A → Outcome B
map_ok f (ok a) = ok (f a)
map_ok f (panic p) = panic p

-- The value of a call that returned; `d` stands in for one that panicked.
abbrev pub from_ok {ℓ} : {A : Type ℓ} → A → Outcome A → A
from_ok d (ok a) = a
from_ok d (panic p) = d

-- Inversion of a bind that returned.
pub >>=-eq-ok {ℓ κ} :
    {A : Type ℓ} {B : Type κ} (call : Outcome A) {later : A → Outcome B} {b : B}
    → (call >>= later) ≡ ok b
    → (a : A) × (call ≡ ok a) × (later a ≡ ok b)
>>=-eq-ok (panic p) e = cc
>>=-eq-ok (ok a) e = (a, refl, e)
