-- ===== src/Merkle/Trees.antt =====
-- Merkle trees whose proofs script/extension/merkle.go accepts.
use mathlib.Core.List.{flatten, foldl, foldl-append}
use egvm.Prelude.{
  ◌≡◌, refl, ap, ◌∙◌, Bool, true, false, Option, none, some, List, [], ◌∷◌, ◌++◌, arith, All,
}
use egvm.Outcome.{ok}
use egvm.Bytes.{Bytes, equal_bytes_refl}
use egvm.Goja.{array_buffer}
use egvm.Merkle.{combine_two_hash, verify_merkle_proof}
use egvm.Merkle.Proofs.{combine_two_hash_comm, IsNode, parent, top, verify_merkle_proof_exact}

-- A binary tree with data at its leaves.
pub data MerkleTree : Type 0 where
  leaf : Bytes → MerkleTree
  node : MerkleTree → MerkleTree → MerkleTree

module _ (hash : Bytes → Bytes) where
  unfoldable pub root_of : MerkleTree → Bytes
  root_of (leaf x) = x
  root_of (node l r) = hash (combine_two_hash (root_of l) (root_of r))

  abbrev with_sibling : Bytes → Option (Bytes × List Bytes) → Option (Bytes × List Bytes)
  with_sibling s none = none
  with_sibling s (some (x, nodes)) = some (x, nodes ++ (s ∷ []))

  -- The leaf at a path (`false` to the left), with the siblings on the way up from it.
  unfoldable pub proof_at : MerkleTree → List Bool → Option (Bytes × List Bytes)
  proof_at (leaf x) [] = some (x, [])
  proof_at (leaf x) (b ∷ path) = none
  proof_at (node l r) [] = none
  proof_at (node l r) (false ∷ path) = with_sibling (root_of r) (proof_at l path)
  proof_at (node l r) (true ∷ path) = with_sibling (root_of l) (proof_at r path)

  abbrev pub HasNodes : MerkleTree → Type 0
  HasNodes (leaf x) = IsNode x
  HasNodes (node l r) = HasNodes l × HasNodes r

  root_of-IsNode :
      (t : MerkleTree) → ((bz : Bytes) → IsNode (hash bz)) → HasNodes t → IsNode (root_of t)
  unfolding root_of
  root_of-IsNode (leaf x) sized h = h
  root_of-IsNode (node l r) sized h = sized _

  with_sibling-some :
      (s : Bytes) (o : Option (Bytes × List Bytes)) {x : Bytes} {nodes : List Bytes}
      → with_sibling s o ≡ some (x, nodes)
      → (below : List Bytes) × (o ≡ some (x, below)) × (nodes ≡ below ++ (s ∷ []))
  with_sibling-some s none e = cc
  with_sibling-some s (some (x, below)) e = (below, ground arith, ground arith)

  All-append :
      (xs : List Bytes) (s : Bytes) → All IsNode xs → IsNode s → All IsNode (xs ++ (s ∷ []))
  All-append [] s h hs = (hs, tt)
  All-append (x ∷ xs) s h hs = (h.0, All-append xs s h.1 hs)

  -- The proof of a leaf of a tree leads to the root of the tree.
  top-proof_at :
      (t : MerkleTree) (path : List Bool) (x : Bytes) (nodes : List Bytes)
      → ((bz : Bytes) → IsNode (hash bz))
      → HasNodes t
      → proof_at t path ≡ some (x, nodes)
      → (foldl (parent hash) x nodes ≡ root_of t) × IsNode x × All IsNode nodes
  unfolding proof_at
  top-proof_at (leaf y) [] x nodes sized h e =
      let ex : x ≡ y = ground arith in
      let en : nodes ≡ [] = ground arith in rw (en, ex) (unfold root_of in refl, h, tt)
  top-proof_at (leaf y) (b ∷ path) x nodes sized h e = cc
  top-proof_at (node l r) [] x nodes sized h e = cc
  top-proof_at (node l r) (false ∷ path) x nodes sized h e =
      let (below, found, made) = with_sibling-some (root_of r) (proof_at l path) e in
      let (up, hx, hn) = top-proof_at l path x below sized h.0 found in
      (
        rw made (
            foldl-append (parent hash) x below (root_of r ∷ [])
            ∙ ap (λ c. hash (combine_two_hash (root_of r) c)) up
            ∙ ap hash (combine_two_hash_comm (root_of r) (root_of l))
            ∙ unfold root_of in refl),
        hx,
        rw made (All-append below (root_of r) hn (root_of-IsNode r sized h.1)),
      )
  top-proof_at (node l r) (true ∷ path) x nodes sized h e =
      let (below, found, made) = with_sibling-some (root_of l) (proof_at r path) e in
      let (up, hx, hn) = top-proof_at r path x below sized h.1 found in
      (
        rw made (
            foldl-append (parent hash) x below (root_of l ∷ [])
            ∙ ap (λ c. hash (combine_two_hash (root_of l) c)) up
            ∙ unfold root_of in refl),
        hx,
        rw made (All-append below (root_of l) hn (root_of-IsNode l sized h.0)),
      )

  -- Every leaf of a tree of 32-byte leaves, under a hash of 32 bytes, has a proof that is accepted
  -- against the root of the tree: the row of the siblings on its way up, whichever side each is on.
  pub verify_merkle_proof-proof_at :
      (t : MerkleTree) (path : List Bool) (x : Bytes) (nodes : List Bytes)
      → ((bz : Bytes) → IsNode (hash bz))
      → HasNodes t
      → proof_at t path ≡ some (x, nodes)
      → verify_merkle_proof hash
          (array_buffer (root_of t) ∷ array_buffer (flatten nodes) ∷ array_buffer x ∷ [])
        ≡ ok true
  unfolding top
  verify_merkle_proof-proof_at t path x nodes sized h found =
      let (up, hx, hn) = top-proof_at t path x nodes sized h found in
      verify_merkle_proof_exact hash (root_of t) x nodes hx hn
      ∙ rw up (ap ok (equal_bytes_refl (root_of t)))
