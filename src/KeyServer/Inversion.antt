-- ===== src/KeyServer/Inversion.antt =====
-- Handlers of keygrantor/cmd/main.go that reply with an error or go on: what follows when a body was
-- sent or a value given.
use egvm.Prelude.{◌≡◌, refl, Bool, true, false, Option, none, some}
use egvm.Bytes.{Bytes}
use egvm.KeyGrantor.{Err, Derived, reached, nil_dereference, out_of_fuel}
use egvm.KeyServer.{
  Reply, refused, sent, aborted, Handled, replied, value, ◌>>=◌, require, present, key_or_abort,
  no_error, reply_of,
}

-- A reply that is not a body.
abbrev pub IsFailure : Reply → Type 0
IsFailure (sent out) = ⊥
IsFailure _ = Unit

abbrev pub FailsOnly {ℓ} : {A : Type ℓ} → Handled A → Type 0
FailsOnly (replied r) = IsFailure r
FailsOnly (value a) = Unit

pub FailsOnly-bind {ℓ κ} :
    {A : Type ℓ} {B : Type κ} (h : Handled A) (go : A → Handled B)
    → FailsOnly h
    → ((a : A) → FailsOnly (go a))
    → FailsOnly (h >>= go)
FailsOnly-bind (replied r) go f g = f
FailsOnly-bind (value a) go f g = g a

pub FailsOnly-present {ℓ} :
    {A : Type ℓ} (o : Option A) (r : Reply) → IsFailure r → FailsOnly (present o r)
FailsOnly-present none r f = f
FailsOnly-present (some a) r f = tt

pub FailsOnly-require : (b : Bool) (r : Reply) → IsFailure r → FailsOnly (require b r)
FailsOnly-require true r f = tt
FailsOnly-require false r f = f

pub FailsOnly-no_error : (e : Option Err) (r : Reply) → IsFailure r → FailsOnly (no_error e r)
FailsOnly-no_error none r f = tt
FailsOnly-no_error (some e) r f = f

-- Inversion of a part of a handler that sent a body, and of one that gave a value.
pub bind_sent {ℓ} :
    {A : Type ℓ} (h : Handled A) (go : A → Handled Reply) {out : Bytes}
    → FailsOnly h
    → reply_of (h >>= go) ≡ sent out
    → (a : A) × (h ≡ value a) × (reply_of (go a) ≡ sent out)
bind_sent (replied (refused n)) go f e = cc
bind_sent (replied (sent b)) go f e = absurd f
bind_sent (replied aborted) go f e = cc
bind_sent (value a) go f e = (a, refl, e)

pub bind_value {ℓ κ} :
    {A : Type ℓ} {B : Type κ} (h : Handled A) (go : A → Handled B) {b : B}
    → (h >>= go) ≡ value b
    → (a : A) × (h ≡ value a) × (go a ≡ value b)
bind_value (replied r) go e = cc
bind_value (value a) go e = (a, refl, e)

pub present_value {ℓ} :
    {A : Type ℓ} (o : Option A) (r : Reply) {a : A} → present o r ≡ value a → o ≡ some a
present_value none r e = cc
present_value (some b) r e = cc

pub require_value : (b : Bool) (r : Reply) {u : Unit {0}} → require b r ≡ value u → b ≡ true
require_value true r e = refl
require_value false r e = cc

pub no_error_value : (o : Option Err) (r : Reply) {u : Unit {0}} → no_error o r ≡ value u → o ≡ none
no_error_value none r e = refl
no_error_value (some x) r e = cc

pub FailsOnly-key_or_abort {ℓ} : {A : Type ℓ} (d : Derived A) → FailsOnly (key_or_abort d)
FailsOnly-key_or_abort (reached a) = tt
FailsOnly-key_or_abort nil_dereference = tt
FailsOnly-key_or_abort out_of_fuel = tt

pub key_or_abort_value {ℓ} :
    {A : Type ℓ} (d : Derived A) {a : A} → key_or_abort d ≡ value a → d ≡ reached a
key_or_abort_value (reached b) e = cc
key_or_abort_value nil_dereference e = cc
key_or_abort_value out_of_fuel e = cc
