-- ===== src/KeyFile/Kept.antt =====
-- What a sealed key file holds: SealKeyToFile against RecoverKeyFromFile of
-- keygrantor/keygrantor.go.
use egvm.Prelude.{◌≡◌, refl, ap, some, Option-cases, ◌⊎◌, inl, inr, arith}
use egvm.Bytes.{Bytes, equal_bytes_refl}
use egvm.KeyFile.{
  Entry, missing, unreadable, holding, Disk, FileLib, Ran, ended, aborted, ◌>>=◌, write_file,
  seal_key_to_file, recover_key_from_file,
}

-- What was serialised is read back as the key, and what was sealed is unsealed.
pub record IsSealed {Key : Type 0} (lib : FileLib Key) : Type 0 where
  pub deserializes :
      (k : Key) (bz : Bytes) → lib.serialize k ≡ some bz → lib.deserialize bz ≡ some k
  pub unseals : (bz out : Bytes) → lib.seal_with_unique_key bz ≡ some out → lib.unseal out ≡ some bz

pub Entry-cases : (x : Entry) → (x ≡ missing) ⊎ (x ≡ unreadable) ⊎ ((bz : Bytes) × (x ≡ holding bz))
Entry-cases missing = inl refl
Entry-cases unreadable = inr (inl refl)
Entry-cases (holding bz) = inr (inr (bz, refl))

pub bind-ended :
    {A B : Type 0} (first : Ran A) (later : A → Ran B) (b : B)
    → (first >>= later) ≡ ended b
    → (a : A) × (first ≡ ended a) × (later a ≡ ended b)
bind-ended (ended a) later b e = (a, refl, e)
bind-ended aborted later b e = absurd (grind (arith, e))

pub ended-injective : {A : Type 0} (a b : A) → ended a ≡ ended b → a ≡ b
ended-injective a b e = ap (λ r. elim r [ ended x ↦ x | aborted ↦ a ]) e

module _ {Key : Type 0} (lib : FileLib Key) (laws : IsSealed lib) where
  -- What a seal leaves under the name can be unsealed to the key.
  abbrev pub IsKept : Disk → Bytes → Key → Type 0
  IsKept disk fname k =
      (file_data : Bytes) × (raw_data : Bytes) × (disk fname ≡ holding file_data)
      × (lib.unseal file_data ≡ some raw_data)
      × (lib.deserialize raw_data ≡ some k)

  pub seal-IsKept :
      (disk disk_after : Disk) (fname : Bytes) (k : Key)
      → seal_key_to_file lib disk fname k ≡ ended disk_after
      → IsKept disk_after fname k
  unfolding seal_key_to_file write_file
  seal-IsKept disk disk_after fname k e = elim (Option-cases (lib.serialize k)) [
    | inl unwritten ↦ absurd (grind (arith, unwritten, e))
    | inr (bz, written) ↦ elim (Option-cases (lib.seal_with_unique_key bz)) [
      | inl unsealed ↦ absurd (grind (arith, written, unsealed, e))
      | inr (out, sealed) ↦ (
        out,
        bz,
        grind (arith, written, sealed, e, equal_bytes_refl fname),
        laws.unseals bz out sealed,
        laws.deserializes k bz written,
      )
    ]
  ]

  pub kept-recover :
      (disk : Disk) (fname : Bytes) (k : Key)
      → IsKept disk fname k
      → recover_key_from_file lib disk fname ≡ ended (some k)
  unfolding recover_key_from_file
  kept-recover disk fname k (file_data, raw_data, there, unsealed, read) =
      rw (there, recover_key_from_file) (rw unsealed (rw read refl))

  -- The key that was sealed to a file is the key that is recovered from it.
  pub recover-seal :
      (disk disk_after : Disk) (fname : Bytes) (k : Key)
      → seal_key_to_file lib disk fname k ≡ ended disk_after
      → recover_key_from_file lib disk_after fname ≡ ended (some k)
  recover-seal disk disk_after fname k e =
      kept-recover disk_after fname k (seal-IsKept disk disk_after fname k e)
