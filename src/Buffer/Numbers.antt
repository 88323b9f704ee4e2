-- ===== src/Buffer/Numbers.antt =====
-- The number encodings and the reversal of script/extension/buffer.go.
use mathlib.Core.List.{reverse, reverse-append, reverse-reverse}
use native.Mathlib.Nat.{pow-suc}
use native.Mathlib.Numerals.{add-one}
use egvm.Prelude.{
  ℕ, zero, suc, ◌+◌, ◌-◌, ◌*◌, ◌/◌, ◌%◌, ◌^◌, ◌≤◌, ◌<◌, ◌≡◌, refl, sym, ap, ◌∙◌, [], ◌∷◌, ◌++◌,
  length, length-append, get_elem?, take, arith, pos, append-nil, append_assoc, subst, some,
}
use egvm.Outcome.{ok, map_ok, ◌>>=◌}
use egvm.Bytes.{Bytes}
use egvm.Word.{from_be, to_be}
use egvm.Uint256.Convert.{from_be-to_be, length-to_be}
use egvm.Goja.{int64, array_buffer, max_safe_integer, get_one_uint64, get_one_array_buffer}
use egvm.Buffer.{
  reverse_loop, bytes_reverse, buf_reverse, from_le, to_le, buf_to_u32_be, buf_to_u32_le,
  u64_to_buf_be, u64_to_buf_le, u32_to_buf_be, u32_to_buf_le,
}

from_le-to_le : (k n : ℕ) → n < 256 ^ k → from_le (to_le k n) ≡ n
unfolding from_le to_le
from_le-to_le zero n h = omega arith
from_le-to_le (suc k) n h =
    let e : 256 ^ suc k ≡ 256 ^ k * 256 = pow-suc 256 k in
    omega (arith, from_le-to_le k (n / 256) (omega arith))

length-to_le : (k n : ℕ) → length (to_le k n) ≡ k
unfolding to_le
length-to_le zero n = refl
length-to_le (suc k) n = ap suc (length-to_le k (n / 256))

-- Little-endian bytes are the big-endian ones in reverse.
reverse-to_le : (k n : ℕ) → reverse (to_le k n) ≡ to_be k n
unfolding to_le to_be
reverse-to_le zero n = refl
reverse-to_le (suc k) n =
    reverse-append ((n % 256) ∷ []) (to_le k (n / 256))
    ∙ ap (λ l. l ++ ((n % 256) ∷ [])) (reverse-to_le k (n / 256))

take-full : (k : ℕ) (xs : Bytes) → length xs ≡ k → take k xs ≡ xs
take-full zero [] h = refl
take-full zero (x ∷ xs) h = absurd (omega arith)
take-full (suc k) [] h = absurd (omega arith)
take-full (suc k) (x ∷ xs) h = ap (λ l. x ∷ l) (take-full k xs (omega arith))

-- The elements of `xs` from position `i` down to the front.
get_elem?-append : (xs ys : Bytes) (b : ℕ) → get_elem? (xs ++ (b ∷ ys)) (length xs) ≡ some b
get_elem?-append [] ys b = refl
get_elem?-append (x ∷ xs) ys b = get_elem?-append xs ys b

length-reverse : (xs : Bytes) → length (reverse xs) ≡ length xs
length-reverse [] = refl
length-reverse (x ∷ xs) =
    ap length (reverse-append (x ∷ []) xs)
    ∙ length-append (reverse xs) (x ∷ [])
    ∙ omega (arith, length-reverse xs)

move_head : (b : ℕ) (front back : Bytes) → reverse (b ∷ front) ++ back ≡ reverse front ++ (b ∷ back)
move_head b front back =
    ap (λ l. l ++ back) (reverse-append (b ∷ []) front) ∙ append_assoc (reverse front) (b ∷ []) back

element_at :
    (b : ℕ) (front back : Bytes)
    → get_elem?
        (reverse front ++ (b ∷ back))
        (length (reverse front ++ (b ∷ back)) - 1 - length back)
      ≡ some b
element_at b front back =
    ap (get_elem? (reverse front ++ (b ∷ back)))
      (omega (arith, length-append (reverse front) (b ∷ back)))
    ∙ get_elem?-append (reverse front) back b

one_round :
    (left i : ℕ) (bz out : Bytes) (b : ℕ)
    → get_elem? bz (length bz - 1 - i) ≡ some b
    → reverse_loop (suc left) i bz out ≡ reverse_loop left (i + 1) bz (out ++ (b ∷ []))
unfolding reverse_loop
one_round left i bz out b e = rw (e, reverse_loop)

-- The rounds that are left walk over `front` backwards.
reverse_loop-append :
    (front back out : Bytes)
    → reverse_loop (length front) (length back) (reverse front ++ back) out ≡ ok (out ++ front)
reverse_loop-append [] back out = unfold reverse_loop in ap ok (sym (append-nil out))
reverse_loop-append (b ∷ front) back out =
    subst (λ bz. reverse_loop (suc (length front)) (length back) bz out ≡ ok (out ++ (b ∷ front)))
      (sym (move_head b front back))
      (one_round (length front) (length back) _ out b (element_at b front back)
        ∙ rw add-one (reverse_loop-append front (b ∷ back) (out ++ (b ∷ [])))
        ∙ ap ok (append_assoc out (b ∷ []) front))

-- BufReverse of one buffer returns the buffer in reverse: no index of the loop is out of range.
-- Reversing twice returns the buffer.
pub buf_reverse_exact :
    (bz : Bytes)
    → (buf_reverse (array_buffer bz ∷ []) ≡ ok (reverse bz))
      × ((do a ← buf_reverse (array_buffer bz ∷ []); buf_reverse (array_buffer a ∷ [])) ≡ ok bz)
unfolding buf_reverse get_one_array_buffer
buf_reverse_exact bz = (once bz, rw (once bz) (once (reverse bz) ∙ ap ok (reverse-reverse bz)))
  where
    once : (xs : Bytes) → bytes_reverse xs ≡ ok (reverse xs)
    once xs =
        subst (λ l. reverse_loop (length xs) 0 l [] ≡ ok (reverse xs))
          (append-nil _ ∙ reverse-reverse xs)
          (subst (λ k. reverse_loop k 0 (reverse (reverse xs) ++ []) [] ≡ ok (reverse xs))
            (length-reverse xs) (reverse_loop-append (reverse xs) [] []))

accepts : (n : ℕ) → n ≤ max_safe_integer → get_one_uint64 (int64 (pos n) ∷ []) ≡ ok n
unfolding get_one_uint64
accepts n h = ground arith

read_be : (m : ℕ) → m < 2 ^ 32 → buf_to_u32_be (array_buffer (to_be 4 m) ∷ []) ≡ ok m
unfolding buf_to_u32_be get_one_array_buffer
read_be m h =
    rw (length-to_be 4 m, take-full 4 (to_be 4 m) (length-to_be 4 m)) (ap ok (from_be-to_be 4 m h))

read_le : (m : ℕ) → m < 2 ^ 32 → buf_to_u32_le (array_buffer (to_le 4 m) ∷ []) ≡ ok m
unfolding buf_to_u32_le get_one_array_buffer
read_le m h =
    rw (length-to_le 4 m, take-full 4 (to_le 4 m) (length-to_le 4 m)) (ap ok (from_le-to_le 4 m h))

reverse_le : (k m : ℕ) → buf_reverse (array_buffer (to_le k m) ∷ []) ≡ ok (to_be k m)
reverse_le k m = (buf_reverse_exact (to_le k m)).0 ∙ ap ok (reverse-to_le k m)

-- U32ToBufBE and U32ToBufLE write four bytes, one in the reverse order of the other, and
-- BufToU32BE and BufToU32LE read the number back from them, modulo 2 ^ 32. The 64-bit encoders
-- write eight bytes in the same two orders, which stand for the number itself.
pub number_round_trip :
    (n : ℕ)
    → n ≤ max_safe_integer
    → ((do b ← u32_to_buf_be (int64 (pos n) ∷ []); buf_to_u32_be (array_buffer b ∷ []))
        ≡ ok (n % 2 ^ 32))
      × ((do b ← u32_to_buf_le (int64 (pos n) ∷ []); buf_to_u32_le (array_buffer b ∷ []))
          ≡ ok (n % 2 ^ 32))
      × ((do b ← u32_to_buf_le (int64 (pos n) ∷ []); buf_reverse (array_buffer b ∷ []))
          ≡ u32_to_buf_be (int64 (pos n) ∷ []))
      × ((do b ← u64_to_buf_le (int64 (pos n) ∷ []); buf_reverse (array_buffer b ∷ []))
          ≡ u64_to_buf_be (int64 (pos n) ∷ []))
      × ((do b ← u64_to_buf_be (int64 (pos n) ∷ []); ok (from_be 0 b)) ≡ ok n)
      × (map_ok length (u32_to_buf_be (int64 (pos n) ∷ [])) ≡ ok 4)
      × (map_ok length (u32_to_buf_le (int64 (pos n) ∷ [])) ≡ ok 4)
      × (map_ok length (u64_to_buf_be (int64 (pos n) ∷ [])) ≡ ok 8)
      × (map_ok length (u64_to_buf_le (int64 (pos n) ∷ [])) ≡ ok 8)
unfolding u32_to_buf_be u32_to_buf_le u64_to_buf_be u64_to_buf_le
number_round_trip n h = rw (accepts n h) (
  read_be (n % 2 ^ 32) (omega arith),
  read_le (n % 2 ^ 32) (omega arith),
  reverse_le 4 (n % 2 ^ 32),
  reverse_le 8 n,
  ap ok (from_be-to_be 8 n (omega arith)),
  ap ok (length-to_be 4 (n % 2 ^ 32)),
  ap ok (length-to_le 4 (n % 2 ^ 32)),
  ap ok (length-to_be 8 n),
  ap ok (length-to_le 8 n),
)
