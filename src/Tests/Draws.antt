-- ===== src/Tests/Draws.antt =====
-- The theorem on failing random numbers at a concrete processor.
use egvm.Prelude.{◌≡◌, refl, none, some, replicate}
use egvm.Bytes.{Bytes}
use egvm.Randomness.{RandomLib, get_random_ext_priv_key, generate_ecies_private_key}
use egvm.Randomness.Failing.{IsFailing-keys}

abbrev failing : RandomLib
failing = record {
  rdrand16 = λ call. none;
  Key = Bytes;
  new_master_key = λ seed. some seed;
  PrivateKey = Bytes;
  new_private_key_from_bytes = λ bz. bz;
  curve_order = 100;
}

IsFailing-keys_example :
    (get_random_ext_priv_key failing 1 7 ≡ failing.new_master_key (replicate 64 0))
    × (generate_ecies_private_key failing 0 7 ≡ none)
IsFailing-keys_example = IsFailing-keys failing 0 7 (replicate 64 0) (λ call. refl) refl
