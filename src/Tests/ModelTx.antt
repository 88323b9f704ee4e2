-- ===== src/Tests/ModelTx.antt =====
-- A concrete encoding of transactions into bytes, with the proof that it is read back.
use egvm.Prelude.{
  ℕ, zero, suc, ◌+◌, ◌≡◌, refl, ap, ◌∙◌, Option, none, some, List, [], ◌∷◌, ◌++◌, length, take,
  drop, take-append-length, drop-append-length, All, arith, ℤ, pos, negsuc, ◌<◌,
}
use egvm.Bytes.{Bytes}
use egvm.Bch.Transactions.{WireIn, WireOut, MsgTx}

-- A number as so many ones and a zero.
unfoldable ones : ℕ → Bytes → Bytes
ones zero behind = 0 ∷ behind
ones (suc n) behind = 1 ∷ ones n behind

unfoldable pub to_bytes : List ℕ → Bytes
unfolding ones
to_bytes [] = []
to_bytes (n ∷ ns) = ones n (to_bytes ns)

unfoldable pub from_bytes : ℕ → Bytes → List ℕ
from_bytes seen [] = []
from_bytes seen (zero ∷ bz) = seen ∷ from_bytes 0 bz
from_bytes seen (suc b ∷ bz) = from_bytes (suc seen) bz

from_bytes-ones :
    (seen n : ℕ) (behind : Bytes)
    → from_bytes seen (ones n behind) ≡ (seen + n) ∷ from_bytes 0 behind
unfolding from_bytes ones
from_bytes-ones seen zero behind = ap (λ m. m ∷ from_bytes 0 behind) (omega arith)
from_bytes-ones seen (suc n) behind =
    from_bytes-ones (suc seen) n behind ∙ ap (λ m. m ∷ from_bytes 0 behind) (omega arith)

zero_add : (n : ℕ) → 0 + n ≡ n
zero_add n = omega arith

pub from_bytes-to_bytes : (ns : List ℕ) → from_bytes 0 (to_bytes ns) ≡ ns
unfolding from_bytes to_bytes
from_bytes-to_bytes [] = refl
from_bytes-to_bytes (n ∷ ns) =
    from_bytes-ones 0 n (to_bytes ns)
    ∙ ap (λ m. m ∷ from_bytes 0 (to_bytes ns)) (zero_add n)
    ∙ ap (λ r. n ∷ r) (from_bytes-to_bytes ns)

ones_IsByte : (n : ℕ) (bz : Bytes) → All (λ b. b < 256) bz → All (λ b. b < 256) (ones n bz)
unfolding ones
ones_IsByte zero bz h = (omega arith, h)
ones_IsByte (suc n) bz h = (omega arith, ones_IsByte n bz h)

pub to_bytes_IsByte : (ns : List ℕ) → All (λ b. b < 256) (to_bytes ns)
unfolding to_bytes
to_bytes_IsByte [] = tt
to_bytes_IsByte (n ∷ ns) = ones_IsByte n (to_bytes ns) (to_bytes_IsByte ns)

-- Encoders write in front of other numbers; decoders leave what is behind.
abbrev put_int : ℤ → List ℕ → List ℕ
put_int (pos n) behind = 0 ∷ n ∷ behind
put_int (negsuc n) behind = 1 ∷ n ∷ behind

abbrev get_int : List ℕ → ℤ × List ℕ
get_int (zero ∷ n ∷ behind) = (pos n, behind)
get_int (suc s ∷ n ∷ behind) = (negsuc n, behind)
get_int _ = (pos 0, [])

get_int-put_int : (i : ℤ) (behind : List ℕ) → get_int (put_int i behind) ≡ (i, behind)
get_int-put_int (pos n) behind = refl
get_int-put_int (negsuc n) behind = refl

abbrev put_bytes : Bytes → List ℕ → List ℕ
put_bytes bz behind = length bz ∷ (bz ++ behind)

abbrev get_bytes : List ℕ → Bytes × List ℕ
get_bytes [] = ([], [])
get_bytes (n ∷ ns) = (take n ns, drop n ns)

get_bytes-put_bytes :
    (bz : Bytes) (behind : List ℕ) → get_bytes (put_bytes bz behind) ≡ (bz, behind)
get_bytes-put_bytes bz behind = rw (take-append-length bz behind, drop-append-length bz behind) refl

abbrev get_num : List ℕ → ℕ × List ℕ
get_num [] = (0, [])
get_num (n ∷ ns) = (n, ns)

abbrev put_in : WireIn → List ℕ → List ℕ
put_in w behind =
    w.previous_index ∷ w.sequence ∷ put_bytes w.previous_hash (put_bytes w.signature_script behind)

abbrev get_in : List ℕ → WireIn × List ℕ
get_in ns =
    let (index, ns1) = get_num ns in
    let (sequence, ns2) = get_num ns1 in
    let (hash, ns3) = get_bytes ns2 in
    let (script, ns4) = get_bytes ns3 in
    (
      record {
        previous_hash = hash;
        previous_index = index;
        signature_script = script;
        sequence = sequence;
      },
      ns4,
    )

get_in-put_in : (w : WireIn) (behind : List ℕ) → get_in (put_in w behind) ≡ (w, behind)
get_in-put_in w behind =
    let rest = put_bytes w.signature_script behind in
    rw (take-append-length w.previous_hash rest, drop-append-length w.previous_hash rest)
      (rw
        (take-append-length w.signature_script behind, drop-append-length w.signature_script behind)
        refl)

abbrev put_out : WireOut → List ℕ → List ℕ
put_out w behind = put_int w.value (put_bytes w.pk_script behind)

abbrev get_out : List ℕ → WireOut × List ℕ
get_out ns =
    let (value, ns1) = get_int ns in
    let (script, ns2) = get_bytes ns1 in (record { value = value; pk_script = script }, ns2)

get_out-put_out : (w : WireOut) (behind : List ℕ) → get_out (put_out w behind) ≡ (w, behind)
get_out-put_out w behind =
    rw (get_int-put_int w.value (put_bytes w.pk_script behind))
      (rw (take-append-length w.pk_script behind, drop-append-length w.pk_script behind) refl)

unfoldable put_all : {A : Type 0} → (A → List ℕ → List ℕ) → List A → List ℕ → List ℕ
put_all put [] behind = behind
put_all put (a ∷ rest) behind = put a (put_all put rest behind)

unfoldable get_all : {A : Type 0} → (List ℕ → A × List ℕ) → ℕ → List ℕ → List A × List ℕ
get_all get zero ns = ([], ns)
get_all get (suc n) ns =
    let (a, behind) = get ns in let (rest, left) = get_all get n behind in (a ∷ rest, left)

get_all-put_all :
    {A : Type 0} (put : A → List ℕ → List ℕ) (get : List ℕ → A × List ℕ)
    → ((a : A) (behind : List ℕ) → get (put a behind) ≡ (a, behind))
    → (rest : List A) (behind : List ℕ)
    → get_all get (length rest) (put_all put rest behind) ≡ (rest, behind)
unfolding get_all put_all
get_all-put_all put get law [] behind = refl
get_all-put_all put get law (a ∷ rest) behind =
    rw (law a (put_all put rest behind)) (rw (get_all-put_all put get law rest behind) refl)

unfoldable pub put_tx : MsgTx → List ℕ
unfolding put_all
put_tx m =
    length m.tx_in
    ∷ length m.tx_out
    ∷ m.lock_time
    ∷ put_int m.version (put_all put_in m.tx_in (put_all put_out m.tx_out []))

unfoldable pub get_tx : List ℕ → Option MsgTx
unfolding get_all
get_tx (ins ∷ outs ∷ lock_time ∷ ns) =
    let (version, ns1) = get_int ns in
    let (tx_in, ns2) = get_all get_in ins ns1 in
    let (tx_out, ns3) = get_all get_out outs ns2 in
    some (record { version = version; tx_in = tx_in; tx_out = tx_out; lock_time = lock_time })
get_tx _ = none

pub get_tx-put_tx : (m : MsgTx) → get_tx (put_tx m) ≡ some m
unfolding get_tx put_tx
get_tx-put_tx m =
    rw (get_int-put_int m.version (put_all put_in m.tx_in (put_all put_out m.tx_out []))) (
      rw (get_all-put_all put_in get_in get_in-put_in m.tx_in (put_all put_out m.tx_out []))
        (rw (get_all-put_all put_out get_out get_out-put_out m.tx_out []) refl))
