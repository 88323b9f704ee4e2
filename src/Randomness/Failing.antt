-- ===== src/Randomness/Failing.antt =====
-- The keys of keygrantor/keygrantor.go where the processor gives no random numbers.
use egvm.Prelude.{
  ℕ, zero, suc, ◌+◌, ◌≡◌, refl, sym, ap, subst, false, if◌then◌else◌, none, some, ◌∷◌, replicate,
}
use egvm.Word.{from_be}
use egvm.Randomness.{
  RandomLib, is_valid_private_key, generate_random_bytes, get_random_ext_priv_key,
  generate_ecies_private_key,
}

-- No call of the instruction succeeds.
abbrev pub IsFailing : RandomLib → Type 0
IsFailing lib = (call : ℕ) → lib.rdrand16 call ≡ none

zero_refused : (n : ℕ) → is_valid_private_key n (replicate 32 0) ≡ false
unfolding is_valid_private_key from_be
zero_refused n = refl

module _ (lib : RandomLib) where
  zero_bytes :
      (call count : ℕ) → IsFailing lib → generate_random_bytes lib call count ≡ replicate count 0
  unfolding generate_random_bytes
  zero_bytes call zero h = refl
  zero_bytes call (suc count) h = rw (h call) (ap (λ bz. 0 ∷ bz) (zero_bytes (call + 1) count h))

  no_private_key : (fuel call : ℕ) → IsFailing lib → generate_ecies_private_key lib fuel call ≡ none
  unfolding generate_ecies_private_key
  no_private_key zero call h = refl
  no_private_key (suc fuel) call h =
      let rest = generate_ecies_private_key lib fuel (call + 32) in
      subst
        (λ bz.
          (if is_valid_private_key lib.curve_order bz
            then some (lib.new_private_key_from_bytes bz)
            else rest)
          ≡ none)
        (sym (zero_bytes call 32 h))
        (rw (zero_refused lib.curve_order) (no_private_key fuel (call + 32) h))

  -- Where the processor's generator fails, which is not looked at, the master key is the one of 64
  -- zero bytes, whenever it is drawn, if go-bip32 accepts that seed; and GenerateEciesPrivateKey
  -- never returns.
  pub IsFailing-keys :
      (fuel call : ℕ) (key : lib.Key)
      → IsFailing lib
      → lib.new_master_key (replicate 64 0) ≡ some key
      → (get_random_ext_priv_key lib (suc fuel) call ≡ some key)
        × (generate_ecies_private_key lib fuel call ≡ none)
  unfolding get_random_ext_priv_key
  IsFailing-keys fuel call key h e = (
    rw (zero_bytes call 64 h, get_random_ext_priv_key) (rw (e, get_random_ext_priv_key) refl),
    no_private_key fuel call h,
  )
