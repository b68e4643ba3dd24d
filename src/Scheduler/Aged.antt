-- ===== src/Scheduler/Aged.antt =====
-- Lists that differ in their priorities alone.
use awk.Base.{◌≡◌, refl, sym, ◌∙◌, [], ◌∷◌, arith, Ptr}
use awk.KernelList.Chain.{Entries, first, last, has, Distinct}

-- The same nodes and threads, in the same order; priorities may differ.
abbrev pub Aged : Entries → Entries → Type 0
Aged [] [] = Unit {0}
Aged [] (y ∷ ys) = ⊥
Aged (x ∷ xs) [] = ⊥
Aged (x ∷ xs) (y ∷ ys) = (y.at ≡ x.at) × (y.payload ≡ x.payload) × Aged xs ys

pub first-Aged : (xs ys : Entries) (a : Ptr) → Aged xs ys → first xs a ≡ first ys a
first-Aged [] [] a aged = refl
first-Aged [] (y ∷ ys) a aged = absurd aged
first-Aged (x ∷ xs) [] a aged = absurd aged
first-Aged (x ∷ xs) (y ∷ ys) a aged = sym aged.0

pub last-Aged : (b : Ptr) (xs ys : Entries) → Aged xs ys → last b xs ≡ last b ys
last-Aged b [] [] aged = refl
last-Aged b [] (y ∷ ys) aged = absurd aged
last-Aged b (x ∷ xs) [] aged = absurd aged
last-Aged b (x ∷ xs) (y ∷ ys) aged = rw aged.0 (last-Aged x.at xs ys aged.2)

has-Aged : (q : Ptr) (xs ys : Entries) → Aged xs ys → has q ys ≡ has q xs
has-Aged q [] [] aged = refl
has-Aged q [] (y ∷ ys) aged = absurd aged
has-Aged q (x ∷ xs) [] aged = absurd aged
has-Aged q (x ∷ xs) (y ∷ ys) aged = let rest = has-Aged q xs ys aged.2 in rw (rest, aged.0) refl

pub Distinct-Aged : (xs ys : Entries) → Aged xs ys → Distinct xs → Distinct ys
Distinct-Aged [] [] aged distinct = tt
Distinct-Aged [] (y ∷ ys) aged distinct = absurd aged
Distinct-Aged (x ∷ xs) [] aged distinct = absurd aged
Distinct-Aged (x ∷ xs) (y ∷ ys) aged distinct = (
  has-Aged y.at xs ys aged.2 ∙ ground (arith, aged.0, distinct.0),
  Distinct-Aged xs ys aged.2 distinct.1,
)

pub Aged-self : (xs : Entries) → Aged xs xs
Aged-self [] = tt
Aged-self (x ∷ xs) = (refl, refl, Aged-self xs)
