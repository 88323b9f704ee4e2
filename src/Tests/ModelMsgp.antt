-- ===== src/Tests/ModelMsgp.antt =====
-- A concrete `MsgpLib`, with a toy encoding: an integer is its sign and its absolute value, a string
-- is its length and its bytes. It shows that the laws of the interface can hold together; it is
-- not the MessagePack format.
use egvm.Prelude.{
  ℕ, ◌≡◌, refl, ap, ◌∙◌, Option, none, some, [], ◌∷◌, ◌++◌, length, take, drop, take-append-length,
  drop-append-length, ◌==◌, if◌then◌else◌, ℤ, pos, negsuc,
}
use egvm.Bytes.{Bytes}
use egvm.Msgp.{MsgpLib}

abbrev pub write_int : ℤ → Bytes
write_int (pos n) = 0 ∷ n ∷ []
write_int (negsuc n) = 1 ∷ n ∷ []

abbrev pub take_int : Bytes → Option (ℤ × Bytes)
take_int (s ∷ n ∷ b) = some (if s == 0 then pos n else negsuc n, b)
take_int _ = none

abbrev pub take_byte : Bytes → Option (ℕ × Bytes)
take_byte [] = none
take_byte (x ∷ b) = some (x, b)

abbrev pub take_string : Bytes → Option (Bytes × Bytes)
take_string [] = none
take_string (n ∷ b) = some (take n b, drop n b)

pub take_int-write_int : (v : ℤ) (rest : Bytes) → take_int (write_int v ++ rest) ≡ some (v, rest)
take_int-write_int (pos n) rest = refl
take_int-write_int (negsuc n) rest = refl

pub take_string-append : (s rest : Bytes) → take_string ((length s ∷ s) ++ rest) ≡ some (s, rest)
take_string-append s rest =
    ap (λ x. some (x, drop (length s) (s ++ rest))) (take-append-length s rest)
    ∙ ap (λ x. some (s, x)) (drop-append-length s rest)

abbrev pub model_msgp : MsgpLib
model_msgp = record {
  append_byte = λ b v. b ++ (v ∷ []);
  append_byte_lem = λ b v. refl;
  read_byte = take_byte;
  read_byte-append = λ v rest h. refl;
  read_byte-nil = refl;
  append_int = λ b v. b ++ write_int v;
  append_int_lem = λ b v. refl;
  read_int = take_int;
  read_int-append = λ v rest h. take_int-write_int v rest;
  append_string = λ b s. b ++ (length s ∷ s);
  append_string_lem = λ b s. refl;
  read_string = take_string;
  read_string-append = λ s rest h. take_string-append s rest;
  read_string-nil = refl;
  append_int64 = λ b v. b ++ write_int v;
  append_int64_lem = λ b v. refl;
  read_int64 = take_int;
  read_int64-append = λ v rest h. take_int-write_int v rest;
  append_bytes = λ b s. b ++ (length s ∷ s);
  append_bytes_lem = λ b s. refl;
  read_bytes = take_string;
  read_bytes-append = λ s rest h. take_string-append s rest;
}
