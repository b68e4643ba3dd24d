-- ===== src/Allocator/Ring.antt =====
-- Circular lists: what the links of the chunks stand for, and what the list operations of
-- memory/heap.c make of them.
use awk.Base.{◌≡◌, refl, ap, ◌∙◌, Bool, true, false, ◌||◌, Ptr, List, [], ◌∷◌, ◌++◌, arith, ◌==◌}
use awk.Allocator.{Links, assign}

abbrev pub Ptrs : Type 0
Ptrs = List Ptr

abbrev pub member : Ptr → Ptrs → Bool
member p [] = false
member p (x ∷ xs) = (p == x) || member p xs

abbrev pub Distinct : Ptrs → Type 0
Distinct [] = Unit
Distinct (x ∷ xs) = (member x xs ≡ false) × Distinct xs

abbrev pub first : Ptrs → Ptr → Ptr
first [] after = after
first (x ∷ xs) after = x

abbrev pub last : Ptr → Ptrs → Ptr
last x [] = x
last x (y ∷ ys) = last y ys

-- From `x` along `xs` to `y`, linked both ways.
abbrev pub Chain : (next prev : Ptr → Ptr) → Ptr → Ptrs → Ptr → Type 0
Chain next prev x [] y = (next x ≡ y) × (prev y ≡ x)
Chain next prev x (z ∷ zs) y = (next x ≡ z) × (prev z ≡ x) × Chain next prev z zs y

abbrev pub IsRing : Links → Ptrs → Type 0
IsRing l [] = Unit
IsRing l (x ∷ xs) = Chain l.next l.prev x xs x

pub member-last : (x : Ptr) (xs : Ptrs) → member (last x xs) (x ∷ xs) ≡ true
member-last x [] = ground arith
member-last x (y ∷ ys) = ground (arith, member-last y ys)

pub member-append : (p : Ptr) (xs ys : Ptrs) → member p (xs ++ ys) ≡ (member p xs || member p ys)
member-append p [] ys = refl
member-append p (x ∷ xs) ys = ground (arith, member-append p xs ys)

module _ (next prev : Ptr → Ptr) where
  pub Chain-append :
      (x : Ptr) (xs : Ptrs) (y : Ptr) (ys : Ptrs) (z : Ptr)
      → Chain next prev x xs y
      → Chain next prev y ys z
      → Chain next prev x (xs ++ y ∷ ys) z
  Chain-append x [] y ys z (n, p) k = (n, p, k)
  Chain-append x (w ∷ ws) y ys z (n, p, c) k = (n, p, Chain-append w ws y ys z c k)

  pub Chain-split :
      (x : Ptr) (xs : Ptrs) (y : Ptr) (ys : Ptrs) (z : Ptr)
      → Chain next prev x (xs ++ y ∷ ys) z
      → Chain next prev x xs y × Chain next prev y ys z
  Chain-split x [] y ys z (n, p, c) = ((n, p), c)
  Chain-split x (w ∷ ws) y ys z (n, p, c) =
      let (c1, c2) = Chain-split w ws y ys z c in ((n, p, c1), c2)

  pub Chain-first : (x : Ptr) (xs : Ptrs) (y : Ptr) → Chain next prev x xs y → next x ≡ first xs y
  Chain-first x [] y c = c.0
  Chain-first x (w ∷ ws) y c = c.0

  pub Chain-last : (x : Ptr) (xs : Ptrs) (y : Ptr) → Chain next prev x xs y → prev y ≡ last x xs
  Chain-last x [] y c = c.1
  Chain-last x (w ∷ ws) y c = Chain-last w ws y c.2

  pub Chain-assign_next :
      (p v x : Ptr) (xs : Ptrs) (y : Ptr)
      → member p (x ∷ xs) ≡ false
      → Chain next prev x xs y
      → Chain (assign next p v) prev x xs y
  Chain-assign_next p v x [] y out c = ground arith
  Chain-assign_next p v x (w ∷ ws) y out (n, q, c) =
      (ground arith, q, Chain-assign_next p v w ws y (ground arith) c)

  pub Chain-assign_prev :
      (p v x : Ptr) (xs : Ptrs) (y : Ptr)
      → member p xs ≡ false
      → (p == y) ≡ false
      → Chain next prev x xs y
      → Chain next (assign prev p v) x xs y
  Chain-assign_prev p v x [] y out ne c = ground arith
  Chain-assign_prev p v x (w ∷ ws) y out ne (n, q, c) =
      (n, ground arith, Chain-assign_prev p v w ws y (ground arith) ne c)

  -- The last link led to `z` instead.
  pub Chain-redirect :
      (x : Ptr) (xs : Ptrs) (y z : Ptr)
      → Chain next prev x xs y
      → Distinct (x ∷ xs)
      → member z xs ≡ false
      → Chain (assign next (last x xs) z) (assign prev z (last x xs)) x xs z
  Chain-redirect x [] y z c d out = ground arith
  Chain-redirect x (w ∷ ws) y z (n, q, c) d out =
      (ground (arith, member-last w ws), ground arith, Chain-redirect w ws y z c d.1 (ground arith))

-- The links of other nodes are as before.
abbrev pub SameBut : Ptrs → (l l' : Links) → Type 0
SameBut zs l l' = (p : Ptr) → member p zs ≡ false → (l'.next p ≡ l.next p) × (l'.prev p ≡ l.prev p)

Chain-of_SameBut :
    (zs : Ptrs) {l l' : Links} (x : Ptr) (xs : Ptrs) (y : Ptr)
    → SameBut zs l l'
    → ((p : Ptr) → member p (x ∷ xs) ≡ true → member p zs ≡ false)
    → member y zs ≡ false
    → Chain l.next l.prev x xs y
    → Chain l'.next l'.prev x xs y
Chain-of_SameBut zs x [] y same apart at_y (n, p) =
    ((same x (apart x (ground arith))).0 ∙ n, (same y at_y).1 ∙ p)
Chain-of_SameBut zs x (w ∷ ws) y same apart at_y (n, p, c) = (
  (same x (apart x (ground arith))).0 ∙ n,
  (same w (apart w (ground arith))).1 ∙ p,
  Chain-of_SameBut zs w ws y same (λ q at_q. apart q (ground arith)) at_y c,
)

-- A ring that shares no node with the nodes that may change stays a ring.
pub IsRing-of_SameBut :
    (zs : Ptrs) {l l' : Links} (xs : Ptrs)
    → SameBut zs l l'
    → ((p : Ptr) → member p xs ≡ true → member p zs ≡ false)
    → IsRing l xs
    → IsRing l' xs
IsRing-of_SameBut zs [] same apart r = tt
IsRing-of_SameBut zs (x ∷ xs) same apart r =
    Chain-of_SameBut zs x xs x same apart (apart x (ground arith)) r

append-nil : (xs : Ptrs) → xs ++ [] ≡ xs
append-nil [] = refl
append-nil (x ∷ xs) = ap (◌∷◌ x) (append-nil xs)

-- A ring can be read from any of its nodes on.
pub IsRing-rotate : (l : Links) (xs ys : Ptrs) → IsRing l (xs ++ ys) → IsRing l (ys ++ xs)
IsRing-rotate l [] ys r = rw (append-nil ys) r
IsRing-rotate l (x ∷ xs) [] r = rw (append-nil xs) at r
IsRing-rotate l (x ∷ xs) (y ∷ ys) r =
    let (c, k) = Chain-split l.next l.prev x xs y ys x r in
    Chain-append l.next l.prev y ys x xs y k c
