-- ===== src/Tests/SimpleServers.antt =====
-- The theorem on what a report endorses at a concrete enclave.
use egvm.Prelude.{
  ◌-◌, ◌≡◌, refl, ap, Option, none, some, [], ◌∷◌, ◌++◌, length, replicate, take, drop, arith,
}
use egvm.Bytes.{Bytes}
use egvm.Hex.{hex_encode, hex_decode}
use egvm.SimpleServer.{
  Called, done, failed, EnclaveLib, report_data, serve_report, serve_cert, serve_pubkey,
}
use egvm.SimpleServer.Endorsed.{IsVerified, serve_report-endorses}
use egvm.Tests.Clients.{checked, checked-some, replicate-IsBytes}

-- The report of some data is the data, where they are bytes.
abbrev report_of : Option Bytes → Called
report_of none = failed []
report_of (some report) = done report

abbrev lib : EnclaveLib
lib = record {
  sha256 = λ bz. replicate 32 7;
  get_remote_report = λ bz. report_of (checked bz);
  create_token = λ bz url. done [];
  provider_urls = [];
}

abbrev verify : Bytes → Option Bytes
verify report = some (report ++ replicate (64 - length report) 0)

reported_some : (o : Option Bytes) (report : Bytes) → report_of o ≡ done report → o ≡ some report
reported_some none report e = grind (arith, e)
reported_some (some r) report e = grind (arith, e)

laws : IsVerified lib verify
laws = record {
  hash_sized = λ bz. refl;
  hash_IsBytes = λ bz. replicate-IsBytes 32 7 (ground arith);
  report_IsBytes = λ bz report e. (checked-some bz report (reported_some (checked bz) report e)).1;
  verifies =
      λ bz report e. ap verify (checked-some bz report (reported_some (checked bz) report e)).0;
}

abbrev certificate : Bytes
certificate = 48 ∷ 130 ∷ []

abbrev key_bz : Bytes
key_bz = replicate 33 2

serve_report-endorses_example :
    (report : Bytes) × (data_bz : Bytes) × (cert_bz : Bytes) × (hex_decode
        (hex_encode (replicate 64 7))
      ≡ some report)
    × (verify report ≡ some data_bz)
    × (length data_bz ≡ 64)
    × (hex_decode (serve_cert certificate).body ≡ some cert_bz)
    × (take 32 data_bz ≡ lib.sha256 cert_bz)
    × (hex_decode (serve_pubkey lib key_bz).body ≡ some (drop 32 data_bz))
unfolding checked serve_report report_data
serve_report-endorses_example =
    serve_report-endorses lib verify laws certificate key_bz (hex_encode (replicate 64 7))
      (ground arith, (ground arith, tt)) refl
