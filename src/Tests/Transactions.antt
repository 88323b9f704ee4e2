-- ===== src/Tests/Transactions.antt =====
-- A concrete model of the script builder and the parser of pushes, and the theorem on outputs at a
-- concrete input.
use mathlib.Core.List.{map, flatten}
use egvm.Prelude.{
  ℕ, zero, suc, ◌≤◌, ◌<◌, ◌≡◌, refl, ap, true, false, Option, none, some, List, [], ◌∷◌, length,
  take, drop, take-append-length, drop-append-length, length-append, replicate, ltb, if◌then◌else◌,
  All, arith,
}
use egvm.Bytes.{Bytes}
use egvm.Bch.{Item, opcode, pushed, IsPlain, item_bytes, item_data, ScriptLib}

abbrev in_front : Bytes → Option (List Bytes) → Option (List Bytes)
in_front bz none = none
in_front bz (some datas) = some (bz ∷ datas)

unfoldable pub parse_pushes : ℕ → Bytes → Option (List Bytes)
parse_pushes zero bz = none
parse_pushes (suc fuel) [] = some []
parse_pushes (suc fuel) (c ∷ bz) =
    let behind = parse_pushes fuel (drop c bz) in
    let next = parse_pushes fuel bz in if ltb 75 c then next else in_front (take c bz) behind

pub parse_pushes-plain :
    (fuel : ℕ) (items : List Item)
    → All IsPlain items
    → length items < fuel
    → parse_pushes fuel (flatten (map item_bytes items)) ≡ some (flatten (map item_data items))
unfolding parse_pushes flatten
parse_pushes-plain zero items h l = absurd (omega (arith, l))
parse_pushes-plain (suc fuel) [] h l = refl
parse_pushes-plain (suc fuel) (opcode c ∷ items) h l =
    let above : ltb 75 c ≡ true = ground (arith, h.0) in
    rw above (parse_pushes-plain fuel items h.1 (omega (arith, l)))
parse_pushes-plain (suc fuel) (pushed bz ∷ items) h l =
    let below : ltb 75 (length bz) ≡ false = ground (arith, h.0.1) in
    let rest = flatten (map item_bytes items) in
    rw (below, take-append-length bz rest, drop-append-length bz rest)
      (ap (in_front bz) (parse_pushes-plain fuel items h.1 (omega (arith, l))))

pub length-items : (items : List Item) → length items ≤ length (flatten (map item_bytes items))
unfolding flatten
length-items [] = omega arith
length-items (opcode c ∷ items) = omega (arith, length-items items)
length-items (pushed bz ∷ items) =
    omega (arith, length-items items, length-append bz (flatten (map item_bytes items)))

abbrev pub model_script : ScriptLib
model_script = record {
  script = λ items. some (flatten (map item_bytes items));
  script_plain = λ items plain fits. refl;
  pushed_data = λ bz. parse_pushes (suc (length bz)) bz;
  pushed_data_plain = λ items plain.
      parse_pushes-plain (suc (length (flatten (map item_bytes items)))) items plain
        (omega (arith, length-items items));
}

abbrev hash : Bytes
hash = replicate 20 7
