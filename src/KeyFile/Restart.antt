-- ===== src/KeyFile/Restart.antt =====
-- Restarts of the key server, in keygrantor/cmd/main.go.
use egvm.Prelude.{◌≡◌, refl, subst, Option, none, some}
use egvm.Bytes.{Bytes}
use egvm.KeyFile.{
  Disk, FileLib, Ran, ended, seal_key_to_file, recover_key_from_file, first_key, start_with,
  start_server,
}
use egvm.KeyFile.Kept.{IsSealed, bind-ended, ended-injective, recover-seal}

module _ {Key : Type 0} (lib : FileLib Key) (laws : IsSealed lib) where
  module _ (key_file : Bytes) (get_random_ext_priv_key : Ran Key)
      (get_key_from_key_grantor : Bytes → Bytes → Option Key) where
    abbrev started : Disk → Bytes → Ran (Key × Disk)
    started disk key_src =
        start_server lib key_file get_random_ext_priv_key get_key_from_key_grantor disk key_src

    recovered-started :
        (disk : Disk) (key_src : Bytes) (k : Key)
        → recover_key_from_file lib disk key_file ≡ ended (some k)
        → started disk key_src ≡ ended (k, disk)
    unfolding start_server start_with
    recovered-started disk key_src k e = rw e refl

    start_with-recovered :
        (disk disk_after : Disk) (key_src : Bytes) (k : Key) (recovered : Option Key)
        → recover_key_from_file lib disk key_file ≡ ended recovered
        → start_with lib key_file get_random_ext_priv_key get_key_from_key_grantor disk key_src
            recovered
          ≡ ended (k, disk_after)
        → recover_key_from_file lib disk_after key_file ≡ ended (some k)
    unfolding start_with
    start_with-recovered disk disk_after key_src k (some found) r e =
        subst (λ p. recover_key_from_file lib p.1 key_file ≡ ended (some p.0))
          (ended-injective {A = Key × Disk} (found, disk) (k, disk_after) e) r
    start_with-recovered disk disk_after key_src k none r e =
        let (fresh, drawn, rest) =
          bind-ended
            (first_key lib key_file get_random_ext_priv_key get_key_from_key_grantor key_src) _
            (k, disk_after) e in
        let (sealed_disk, sealed, same) =
          bind-ended (seal_key_to_file lib disk key_file fresh) _ (k, disk_after) rest in
        subst (λ p. recover_key_from_file lib p.1 key_file ≡ ended (some p.0))
          (ended-injective {A = Key × Disk} (fresh, sealed_disk) (k, disk_after) same)
          (recover-seal lib laws disk sealed_disk key_file fresh sealed)

    started-recovered :
        (disk disk_after : Disk) (key_src : Bytes) (k : Key)
        → started disk key_src ≡ ended (k, disk_after)
        → recover_key_from_file lib disk_after key_file ≡ ended (some k)
    unfolding start_server
    started-recovered disk disk_after key_src k e =
        let (recovered, r, rest) =
          bind-ended (recover_key_from_file lib disk key_file) _ (k, disk_after) e in
        start_with-recovered disk disk_after key_src k recovered r rest

    -- A key server that has started once has the same key at every later start, whatever source it
    -- is then given for a fresh key, and changes the file no more.
    pub start_server-start_server :
        (disk disk_after : Disk) (key_src key_src_after : Bytes) (k : Key)
        → started disk key_src ≡ ended (k, disk_after)
        → started disk_after key_src_after ≡ ended (k, disk_after)
    start_server-start_server disk disk_after key_src key_src_after k e =
        recovered-started disk_after key_src_after k (started-recovered disk disk_after key_src k e)
