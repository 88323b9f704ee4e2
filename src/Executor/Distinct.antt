-- ===== src/Executor/Distinct.antt =====
-- Lists of distinct numbers, for the sandboxes of egvm-invoker/executor/manager.go.
use egvm.Prelude.{ℕ, ◌≡◌, ◌≢◌, sym, List, [], ◌∷◌, ◌++◌, All}

abbrev pub Distinct : List ℕ → Type 0
Distinct [] = Unit
Distinct (x ∷ xs) = All (λ y. y ≢ x) xs × Distinct xs

module _ {P Q : ℕ → Type 0} where
  pub All-map : ((x : ℕ) → P x → Q x) → (xs : List ℕ) → All P xs → All Q xs
  All-map f [] h = tt
  All-map f (x ∷ xs) h = (f x h.0, All-map f xs h.1)

module _ {P Q R : ℕ → Type 0} where
  pub All-map2 : ((x : ℕ) → P x → Q x → R x) → (xs : List ℕ) → All P xs → All Q xs → All R xs
  All-map2 f [] h g = tt
  All-map2 f (x ∷ xs) h g = (f x h.0 g.0, All-map2 f xs h.1 g.1)

module _ (P : ℕ → Type 0) where
  pub All-remove :
      (before after : List ℕ) (b : ℕ)
      → All P (before ++ (b ∷ after))
      → P b × All P (before ++ after)
  All-remove [] after b h = h
  All-remove (x ∷ before) after b h =
      let (pb, rest) = All-remove before after b h.1 in (pb, (h.0, rest))

pub Distinct-remove :
    (before after : List ℕ) (b : ℕ)
    → Distinct (before ++ (b ∷ after))
    → All (λ r. r ≢ b) (before ++ after) × Distinct (before ++ after)
Distinct-remove [] after b h = h
Distinct-remove (x ∷ before) after b h =
    let (bx, others) = All-remove (λ y. y ≢ x) before after b h.0 in
    let (apart, distinct) = Distinct-remove before after b h.1 in
    ((λ (e : x ≡ b). bx (sym e), apart), (others, distinct))
