-- ===== src/Bch/Outputs.antt =====
-- Outputs that script/extension/bch.go writes and reads again.
use egvm.Prelude.{◌<◌, ◌≡◌, some, List, ◌∷◌, length, All, ℤ}
use egvm.Bytes.{Bytes}
use egvm.Bch.Scripts.{
  IsByte, pays_to, carries, p2pkh_bytes, push_bytes, hash_of_p2pkh, no_data_of_p2pkh,
  no_hash_of_return, data_of_return, pushed_some, pays_to_script, carries_script, parsed,
}
use egvm.Bch.{IsShort, ScriptLib, op_return, pk_script_of, parse_tx_out}

-- The output to a hash of 20 bytes is written as a script that is read again as the same output.
-- So is the output that carries at least one piece of data, each of 2 to 75 bytes, where the
-- script stays within 10000 bytes.
pub parse_tx_out-pk_script_of :
    (lib : ScriptLib) (value : ℤ) (h bz : Bytes) (datas : List Bytes)
    → length h ≡ 20
    → All IsByte h
    → All IsShort (bz ∷ datas)
    → All (λ b. All IsByte b) (bz ∷ datas)
    → length (push_bytes (bz ∷ datas)) < 10000
    → ((s : Bytes) × (pk_script_of lib (pays_to value h) ≡ some s)
        × (parse_tx_out lib value s ≡ pays_to value h))
      × ((s : Bytes) × (pk_script_of lib (carries value (bz ∷ datas)) ≡ some s)
          × (parse_tx_out lib value s ≡ carries value (bz ∷ datas)))
unfolding parse_tx_out
parse_tx_out-pk_script_of lib value h bz datas sized byte short bytes fits = (
  (
    p2pkh_bytes h,
    pays_to_script lib value h sized byte,
    parsed value _ _ _ _ (hash_of_p2pkh h sized) (no_data_of_p2pkh lib h),
  ),
  (
    op_return ∷ push_bytes (bz ∷ datas),
    carries_script lib value bz datas short bytes fits,
    parsed value _ _ _ _ (no_hash_of_return (push_bytes (bz ∷ datas)))
        (data_of_return lib (bz ∷ datas) short (pushed_some bz datas)),
  ),
)
