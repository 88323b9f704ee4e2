-- ===== src/Hash/Streams.antt =====
-- What the hash functions of script/extension/hash.go hash, and what BufBuilder of
-- script/types/bufbuilder.go gathers.
use mathlib.Core.List.{flatten, map}
use egvm.Word.{to_be}
use egvm.Prelude.{
  ℕ, ℤ, ◌<◌, ◌≤◌, All, arith, true, false, ◌≡◌, refl, sym, ap, ◌∙◌, List, [], ◌∷◌, ◌++◌, length,
  append-nil, append_assoc,
}
use egvm.Outcome.{Outcome, Panic, non_ascii_string, unsupported_hash_type, ok, panic, ◌>>=◌, map_ok}
use egvm.Bytes.{Bytes}
use egvm.Goja.{Value, string, int64, uint256, other, array_buffer, get_one_array_buffer}
use egvm.Hash.{
  Hasher, HashLib, is_ascii, written, hash_func, hash_with, keccak256, sha256, ripemd160, xx_hash32,
  xx_hash64, xx_hash128, xx_hash32_int,
}
use egvm.BufBuilder.{BufBuilder, write, reset, len, to_buf}

-- The bytes of all arguments in order, or the first panic.
unfoldable pub written_all : List Value → Outcome Bytes
written_all [] = ok []
written_all (arg ∷ args) = do bz ← written arg; rest ← written_all args; ok (bz ++ rest)

hash_func-next :
    (h : Hasher) (state : h.State) (bz : Bytes) (r : Outcome Bytes)
    → map_ok (λ rest. h.write (h.write state bz) rest) r
      ≡ map_ok (λ all. h.write state all) (r >>= λ rest. ok (bz ++ rest))
hash_func-next h state bz (panic p) = refl
hash_func-next h state bz (ok rest) = ap ok (h.write_append state bz rest)

hash_func-first :
    (h : Hasher) (state : h.State) (first : Outcome Bytes) (args : List Value)
    → ((s : h.State) → hash_func h s args ≡ map_ok (λ bz. h.write s bz) (written_all args))
    → (first >>= λ bz. hash_func h (h.write state bz) args)
      ≡ map_ok
          (λ all. h.write state all)
          (first >>= λ bz. written_all args >>= λ rest. ok (bz ++ rest))
hash_func-first h state (panic p) args later = refl
hash_func-first h state (ok bz) args later =
    later (h.write state bz) ∙ hash_func-next h state bz (written_all args)

hash_func-written_all :
    (h : Hasher) (state : h.State) (args : List Value)
    → hash_func h state args ≡ map_ok (λ bz. h.write state bz) (written_all args)
unfolding hash_func written_all
hash_func-written_all h state [] = ap ok (sym (h.write_nil state))
hash_func-written_all h state (arg ∷ args) =
    hash_func-first h state (written arg) args (λ s. hash_func-written_all h s args)

written_all-buffers : (bufs : List Bytes) → written_all (map array_buffer bufs) ≡ ok (flatten bufs)
unfolding written_all written flatten
written_all-buffers [] = refl
written_all-buffers (bz ∷ bufs) = rw (written_all-buffers bufs) refl

one_buffer : (bz : Bytes) → written_all (array_buffer bz ∷ []) ≡ ok bz
unfolding written_all written
one_buffer bz = ap ok (append-nil bz)

-- What an argument is hashed as: a string of ASCII characters as its bytes, a buffer as its content,
-- and a Uint256 as its 32 bytes, the highest first.
pub data HashedAs : Value → Bytes → Type 0 where
  ascii : {s : Bytes} → All (λ c. c < 128) s → HashedAs (string s) s
  buffer : {bz : Bytes} → HashedAs (array_buffer bz) bz
  number : {x : ℕ} → HashedAs (uint256 x) (to_be 32 x)

-- The same for a list of arguments: their bytes one behind the other.
pub data AllHashedAs : List Value → Bytes → Type 0 where
  no_args : AllHashedAs [] []
  one_more :
      {arg : Value} {args : List Value} {bz rest : Bytes}
      → HashedAs arg bz
      → AllHashedAs args rest
      → AllHashedAs (arg ∷ args) (bz ++ rest)

-- An argument that cannot be hashed, and the panic at it.
pub data IsRefused : Value → Panic → Type 0 where
  non_ascii :
      (front back : Bytes) (c : ℕ)
      → 128 ≤ c
      → IsRefused (string (front ++ (c ∷ back))) non_ascii_string
  integer : {n : ℤ} → IsRefused (int64 n) unsupported_hash_type
  anything_else : IsRefused other unsupported_hash_type

is_ascii-All : (s : Bytes) → All (λ c. c < 128) s → is_ascii s ≡ true
unfolding is_ascii
is_ascii-All [] all = refl
is_ascii-All (c ∷ s) all = ground (arith, all.0, is_ascii-All s all.1)

is_ascii-append : (front back : Bytes) (c : ℕ) → 128 ≤ c → is_ascii (front ++ (c ∷ back)) ≡ false
unfolding is_ascii
is_ascii-append [] back c h = ground (arith, h)
is_ascii-append (b ∷ front) back c h = ground (arith, is_ascii-append front back c h)

written-HashedAs : {arg : Value} {bz : Bytes} → HashedAs arg bz → written arg ≡ ok bz
unfolding written
written-HashedAs (ascii {s} all) = rw (is_ascii-All s all) refl
written-HashedAs buffer = refl
written-HashedAs number = refl

written-IsRefused : {arg : Value} {p : Panic} → IsRefused arg p → written arg ≡ panic p
unfolding written
written-IsRefused (non_ascii front back c h) = rw (is_ascii-append front back c h) refl
written-IsRefused integer = refl
written-IsRefused anything_else = refl

written_all-AllHashedAs :
    {args : List Value} {bz : Bytes} → AllHashedAs args bz → written_all args ≡ ok bz
unfolding written_all
written_all-AllHashedAs no_args = refl
written_all-AllHashedAs (one_more first rest) =
    rw (written-HashedAs first, written_all-AllHashedAs rest) refl

written_all-IsRefused :
    {args : List Value} {bz : Bytes} {arg : Value} {p : Panic} (later : List Value)
    → AllHashedAs args bz
    → IsRefused arg p
    → written_all (args ++ (arg ∷ later)) ≡ panic p
unfolding written_all
written_all-IsRefused later no_args r = rw (written-IsRefused r) refl
written_all-IsRefused later (one_more first rest) r =
    rw (written-HashedAs first, written_all-IsRefused later rest r) refl

-- A hash function as a whole: the sum of the bytes, and the panic.
abbrev hash_of : Hasher → Bytes → Bytes
hash_of h bz = h.sum (h.write h.fresh bz)

hash_with-exact :
    (h : Hasher) (args : List Value) (r : Outcome Bytes)
    → written_all args ≡ r
    → hash_with h args ≡ map_ok (hash_of h) r
unfolding hash_with
hash_with-exact h args (ok bz) e = rw (hash_func-written_all h h.fresh args, e) refl
hash_with-exact h args (panic p) e = rw (hash_func-written_all h h.fresh args, e) refl

module _ (lib : HashLib) where
  -- The seven hash functions at arguments of which `written_all` is known.
  abbrev AllGive : List Value → Outcome Bytes → Type 0
  AllGive args r =
      (keccak256 lib args ≡ map_ok (hash_of lib.keccak256) r)
      × (sha256 lib args ≡ map_ok (hash_of lib.sha256) r)
      × (ripemd160 lib args ≡ map_ok (hash_of lib.ripemd160) r)
      × (xx_hash32 lib args ≡ map_ok (hash_of lib.xx_hash32) r)
      × (xx_hash64 lib args ≡ map_ok (hash_of lib.xx_hash64) r)
      × (xx_hash128 lib args ≡ map_ok (hash_of lib.xx_hash128) r)
      × (xx_hash32_int lib args
          ≡ map_ok (λ bz. lib.sum32 (lib.xx_hash32.write lib.xx_hash32.fresh bz)) r)

  hashes_of : (args : List Value) (r : Outcome Bytes) → written_all args ≡ r → AllGive args r
  unfolding keccak256 sha256 ripemd160 xx_hash32 xx_hash64 xx_hash128 xx_hash32_int
  hashes_of args r e = (
    hash_with-exact lib.keccak256 args r e,
    hash_with-exact lib.sha256 args r e,
    hash_with-exact lib.ripemd160 args r e,
    hash_with-exact lib.xx_hash32 args r e,
    hash_with-exact lib.xx_hash64 args r e,
    hash_with-exact lib.xx_hash128 args r e,
    int_of args r e,
  )
    where
      int_of :
          (args : List Value) (r : Outcome Bytes)
          → written_all args ≡ r
          → xx_hash32_int lib args
            ≡ map_ok (λ bz. lib.sum32 (lib.xx_hash32.write lib.xx_hash32.fresh bz)) r
      int_of args (ok bz) e =
          rw (hash_func-written_all lib.xx_hash32 lib.xx_hash32.fresh args, e) refl
      int_of args (panic p) e =
          rw (hash_func-written_all lib.xx_hash32 lib.xx_hash32.fresh args, e) refl

  -- Each of the seven hash functions gives the hash of what its arguments are hashed as, one behind
  -- the other: ASCII strings as their bytes, buffers as their contents, numbers as 32 bytes. With a
  -- string that is not ASCII, or an argument of another type, behind such arguments each panics.
  pub hashes_exact :
      (args later : List Value) (bz : Bytes) (arg : Value) (p : Panic)
      → AllHashedAs args bz
      → IsRefused arg p
      → AllGive args (ok bz) × AllGive (args ++ (arg ∷ later)) (panic p)
  hashes_exact args later bz arg p all refused = (
    hashes_of args (ok bz) (written_all-AllHashedAs all),
    hashes_of (args ++ (arg ∷ later)) (panic p) (written_all-IsRefused later all refused),
  )

-- What a script does to a builder: a write of one buffer, or a reset.
pub data BuilderCall : Type 0 where
  write_call : Bytes → BuilderCall
  reset_call : BuilderCall

unfoldable pub run_builder : BufBuilder → List BuilderCall → Outcome BufBuilder
run_builder b [] = ok b
run_builder b (write_call bz ∷ calls) = do
  (b', n) ← write b (array_buffer bz ∷ [])
  run_builder b' calls
run_builder b (reset_call ∷ calls) = run_builder (reset b) calls

run_writes :
    (b : BufBuilder) (bufs : List Bytes)
    → run_builder b (map write_call bufs) ≡ ok (record { sb = b.sb ++ flatten bufs })
unfolding run_builder write get_one_array_buffer flatten
run_writes b [] = ap (λ s. ok (record { sb = s })) (sym (append-nil b.sb))
run_writes b (bz ∷ bufs) =
    run_writes (record { sb = b.sb ++ bz }) bufs
    ∙ ap (λ s. ok (record { sb = s })) (append_assoc b.sb bz (flatten bufs))

run_reset :
    (b : BufBuilder) (before : List BuilderCall) (bufs : List Bytes)
    → run_builder b (before ++ (reset_call ∷ map write_call bufs))
      ≡ ok (record { sb = flatten bufs })
unfolding run_builder write get_one_array_buffer reset
run_reset b [] bufs = run_writes (record { sb = [] }) bufs
run_reset b (write_call bz ∷ before) bufs = run_reset (record { sb = b.sb ++ bz }) before bufs
run_reset b (reset_call ∷ before) bufs = run_reset (record { sb = [] }) before bufs

-- A builder, whatever it held, that is reset and then written a list of buffers holds these
-- buffers one behind the other; hashing what it gives out is hashing the buffers as the arguments
-- of one call, for Keccak256 and Sha256 alike.
pub builder_hash :
    (lib : HashLib) (b : BufBuilder) (before : List BuilderCall) (bufs : List Bytes)
    → (built : BufBuilder) × (content : Bytes) × (run_builder b
          (before ++ (reset_call ∷ map write_call bufs))
        ≡ ok built)
      × (to_buf built [] ≡ ok content)
      × (content ≡ flatten bufs)
      × (len built ≡ length content)
      × (keccak256 lib (array_buffer content ∷ []) ≡ keccak256 lib (map array_buffer bufs))
      × (sha256 lib (array_buffer content ∷ []) ≡ sha256 lib (map array_buffer bufs))
unfolding to_buf len
builder_hash lib b before bufs =
    let one = hashes_of lib (array_buffer (flatten bufs) ∷ []) _ (one_buffer (flatten bufs)) in
    let many = hashes_of lib (map array_buffer bufs) _ (written_all-buffers bufs) in
    (
      record { sb = flatten bufs },
      flatten bufs,
      run_reset b before bufs,
      refl,
      refl,
      refl,
      one.0 ∙ sym many.0,
      one.1 ∙ sym many.1,
    )
