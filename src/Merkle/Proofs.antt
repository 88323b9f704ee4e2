-- ===== src/Merkle/Proofs.antt =====
-- What the proofs that script/extension/merkle.go accepts prove.
use mathlib.Core.List.{flatten, foldl}
use egvm.Prelude.{
  ◌+◌, ◌-◌, ◌*◌, ◌/◌, ◌%◌, ◌≡◌, ◌≢◌, ◌⊎◌, inl, inr, refl, sym, ap, ◌∙◌, true, false, Bool-cases,
  List, [], ◌∷◌, ◌++◌, append_assoc, length, length-append, take-append-length, drop-append-length,
  ◌==◌, ltb, arith, All,
}
use egvm.Outcome.{ok}
use egvm.Bytes.{
  Bytes, equal_bytes, equal_bytes_refl, equal_bytes_sound, is_less_asymm, is_less_connex,
}
use egvm.Goja.{array_buffer}
use egvm.Merkle.{combine_two_hash, slice, climb, verify_merkle_proof}

pub combine_two_hash_comm : (a b : Bytes) → combine_two_hash a b ≡ combine_two_hash b a
unfolding combine_two_hash
combine_two_hash_comm a b = ground (arith, is_less_asymm a b, is_less_asymm b a, is_less_connex a b)

abbrev pub IsNode : Bytes → Type 0
IsNode node = length node ≡ 32

append_injective :
    (xs us ys vs : Bytes) → length xs ≡ length us → xs ++ ys ≡ us ++ vs → (xs ≡ us) × (ys ≡ vs)
append_injective [] [] ys vs l e = (refl, e)
append_injective [] (u ∷ us) ys vs l e = absurd (omega arith)
append_injective (x ∷ xs) [] ys vs l e = absurd (omega arith)
append_injective (x ∷ xs) (u ∷ us) ys vs l e =
    let (front, back) = append_injective xs us ys vs (omega arith) (cc) in (cc (front, e), back)

combine_two_hash_injective :
    (node a b : Bytes)
    → IsNode node
    → length a ≡ 32
    → length b ≡ 32
    → combine_two_hash node a ≡ combine_two_hash node b
    → a ≡ b
unfolding combine_two_hash
combine_two_hash_injective node a b hn ha hb e = ground (
  arith,
  append_injective node node a b,
  append_injective node b a node,
  append_injective a node node b,
  append_injective a b node node,
)

one_node :
    (done node rest : Bytes)
    → IsNode node
    → slice (done ++ (node ++ rest)) (length done) (length done + 32) ≡ ok node
unfolding slice
one_node done node rest h =
    let fits : ltb (length (done ++ (node ++ rest))) (length done + 32) ≡ false =
      ground (arith, length-append done (node ++ rest), length-append node rest) in
    let width : length done + 32 - length done ≡ length node = omega arith in
    rw (fits, width, drop-append-length done (node ++ rest), take-append-length node rest)

length-flatten :
    (nodes : List Bytes) → All IsNode nodes → length (flatten nodes) ≡ 32 * length nodes
unfolding flatten
length-flatten [] h = refl
length-flatten (node ∷ nodes) h =
    rw (length-append node (flatten nodes)) (omega (arith, h.0, length-flatten nodes h.1))

different : (a b : Bytes) → equal_bytes a b ≡ false → a ≢ b
different a b ne eq = cc (equal_bytes_refl a, ap (equal_bytes a) eq)

module _ (hash : Bytes → Bytes) where
  abbrev pub parent : Bytes → Bytes → Bytes
  parent computed node = hash (combine_two_hash node computed)

  -- The hash at the top of a chain of siblings.
  unfoldable pub top : Bytes → List Bytes → Bytes
  top leaf nodes = foldl parent leaf nodes

  climb-nodes :
      (nodes : List Bytes) (done leaf : Bytes)
      → All IsNode nodes
      → climb hash (length nodes) (length done) (done ++ flatten nodes) leaf
        ≡ ok (foldl parent leaf nodes)
  unfolding climb flatten
  climb-nodes [] done leaf h = refl
  climb-nodes (node ∷ nodes) done leaf h =
      let next : length (done ++ node) ≡ length done + 32 =
        omega (arith, length-append done node, h.0) in
      rw (one_node done node (flatten nodes) h.0, climb)
        (rw (← append_assoc done node (flatten nodes), ← next)
          (climb-nodes nodes (done ++ node) (parent leaf node) h.1))

  -- Three buffers whose last is 32 bytes long, and whose second is a row of 32-byte nodes, are
  -- verified by hashing the leaf with one node after the other: the answer says whether the result
  -- is the root.
  pub verify_merkle_proof_exact :
      (root leaf : Bytes) (nodes : List Bytes)
      → IsNode leaf
      → All IsNode nodes
      → verify_merkle_proof hash
          (array_buffer root ∷ array_buffer (flatten nodes) ∷ array_buffer leaf ∷ [])
        ≡ ok (equal_bytes root (top leaf nodes))
  unfolding verify_merkle_proof top
  verify_merkle_proof_exact root leaf nodes hl hn =
      let count : (length (flatten nodes) + 31) / 32 ≡ length nodes =
        omega (arith, length-flatten nodes hn) in
      let good_leaf : (length leaf == 32) ≡ true = ground (arith, hl) in
      let good_proof : (length (flatten nodes) % 32 == 0) ≡ true =
        ground (arith, length-flatten nodes hn) in
      rw good_leaf (rw good_proof (rw (count, climb-nodes nodes [] leaf hn)))

  -- Two different byte strings with one hash.
  abbrev pub Collision : Type 0
  Collision = (a : Bytes) × (b : Bytes) × (a ≢ b) × (hash a ≡ hash b)

  same_top :
      (nodes : List Bytes) (x y : Bytes)
      → ((bz : Bytes) → IsNode (hash bz))
      → All IsNode nodes
      → IsNode x
      → IsNode y
      → foldl parent x nodes ≡ foldl parent y nodes
      → (x ≡ y) ⊎ Collision
  same_top [] x y sized hn hx hy e = inl e
  same_top (node ∷ nodes) x y sized hn hx hy e =
      elim (same_top nodes (parent x node) (parent y node) sized hn.1 (sized _) (sized _) e) [
        | inr c ↦ inr c
        | inl same ↦
            elim (Bool-cases (equal_bytes (combine_two_hash node x) (combine_two_hash node y))) [
              | inl eq ↦
                  inl (combine_two_hash_injective node x y hn.0 hx hy (equal_bytes_sound _ _ eq))
              | inr ne ↦ inr (
                combine_two_hash node x,
                combine_two_hash node y,
                λ eq. different _ _ ne eq,
                same,
              )
            ]
      ]

  -- If two leaves are both accepted with the same proof and the same root, they are equal, or the
  -- hash function has a collision, which is given.
  pub accepted_leaf_unique :
      (root x y : Bytes) (nodes : List Bytes)
      → ((bz : Bytes) → IsNode (hash bz))
      → All IsNode nodes
      → IsNode x
      → IsNode y
      → verify_merkle_proof hash
          (array_buffer root ∷ array_buffer (flatten nodes) ∷ array_buffer x ∷ [])
        ≡ ok true
      → verify_merkle_proof hash
          (array_buffer root ∷ array_buffer (flatten nodes) ∷ array_buffer y ∷ [])
        ≡ ok true
      → (x ≡ y) ⊎ Collision
  unfolding top
  accepted_leaf_unique root x y nodes sized hn hx hy ex ey =
      let rx : root ≡ top x nodes =
        equal_bytes_sound _ _ (cc (verify_merkle_proof_exact root x nodes hx hn)) in
      let ry : root ≡ top y nodes =
        equal_bytes_sound _ _ (cc (verify_merkle_proof_exact root y nodes hy hn)) in
      same_top nodes x y sized hn hx hy (sym rx ∙ ry)
