-- ===== src/Buffer/Order.antt =====
-- BufEqual, BufCompare and BufConcat of script/extension/buffer.go.
use mathlib.Core.List.{flatten}
use egvm.Prelude.{
  ◌≡◌, ◌↔◌, refl, sym, ap, subst, ◌∙◌, true, List, [], ◌∷◌, ◌++◌, map, append-nil, append_assoc,
  pos,
}
use egvm.Outcome.{ok, map_ok}
use egvm.Bytes.{
  Bytes, equal_bytes, compare_bytes, equal_bytes_refl, equal_bytes_sound, compare_bytes_refl,
  compare_bytes_eq, compare_bytes_swap, opposite_order,
}
use egvm.Goja.{array_buffer, get_two_array_buffers}
use egvm.Buffer.{collect, append_all, buf_concat, buf_equal, buf_compare}

append_all-flatten :
    (acc : Bytes) (parts : List Bytes) → append_all acc parts ≡ acc ++ flatten parts
unfolding append_all flatten
append_all-flatten acc [] = sym (append-nil acc)
append_all-flatten acc (bz ∷ parts) =
    append_all-flatten (acc ++ bz) parts ∙ append_assoc acc bz (flatten parts)

collect-map : (parts : List Bytes) → collect (map array_buffer parts) ≡ ok parts
unfolding collect
collect-map [] = refl
collect-map (bz ∷ parts) = rw (collect-map parts)

-- BufEqual and BufCompare of two buffers agree: BufEqual returns true, and BufCompare returns 0,
-- exactly at equal buffers. BufCompare of the swapped buffers has the opposite sign, and -1 is
-- transitive.
pub buf_compare_order :
    (a b : Bytes)
    → ((buf_equal (array_buffer a ∷ array_buffer b ∷ []) ≡ ok true) ↔ (a ≡ b))
      × ((buf_compare (array_buffer a ∷ array_buffer b ∷ []) ≡ ok (pos 0)) ↔ (a ≡ b))
      × (buf_compare (array_buffer b ∷ array_buffer a ∷ [])
          ≡ map_ok opposite_order (buf_compare (array_buffer a ∷ array_buffer b ∷ [])))
unfolding buf_equal buf_compare get_two_array_buffers
buf_compare_order a b = (
  (
    λ e. equal_bytes_sound a b (cc),
    λ e. subst (λ z. ok (equal_bytes a z) ≡ ok true) e (ap ok (equal_bytes_refl a)),
  ),
  (
    λ e. compare_bytes_eq a b (cc),
    λ e. subst (λ z. ok (compare_bytes a z) ≡ ok (pos 0)) e (ap ok (compare_bytes_refl a)),
  ),
  ap ok (compare_bytes_swap a b),
)

-- BufConcat of buffers returns them one after the other.
pub buf_concat_exact :
    (parts : List Bytes) → buf_concat (map array_buffer parts) ≡ ok (flatten parts)
unfolding buf_concat
buf_concat_exact parts = rw (collect-map parts) (ap ok (append_all-flatten [] parts))
