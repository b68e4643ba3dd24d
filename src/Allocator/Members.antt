-- ===== src/Allocator/Members.antt =====
-- Lists of different chunks: where a member stands, and the list without it.
use awk.Base.{
  ◌≡◌, refl, ap, true, false, inl, inr, Ptr, [], ◌∷◌, ◌++◌, arith, ◌==◌, Bool-cases, if◌then◌else◌,
}
use awk.Allocator.Ring.{Ptrs, member, Distinct, member-append}

-- The list without the first `p`.
abbrev pub erase : Ptr → Ptrs → Ptrs
erase p [] = []
erase p (x ∷ xs) = if p == x then xs else x ∷ erase p xs

-- Where a member stands.
pub record Place (p : Ptr) (xs : Ptrs) : Type 0 where
  pub before : Ptrs
  pub after : Ptrs
  pub whole : xs ≡ before ++ p ∷ after
  pub rest : erase p xs ≡ before ++ after

pub place : (p : Ptr) (xs : Ptrs) → member p xs ≡ true → Place p xs
place p [] m = cc
place p (x ∷ xs) m = elim (Bool-cases (p == x)) [
  | inl here ↦ record { before = []; after = xs; whole = ground arith; rest = rw here refl }
  | inr later ↦
      let at = place p xs (ground arith) in
      record {
        before = x ∷ at.before;
        after = at.after;
        whole = ap (◌∷◌ x) at.whole;
        rest = rw later (ap (◌∷◌ x) at.rest);
      }
]

pub member-erase :
    (p q : Ptr) (xs : Ptrs)
    → Distinct xs
    → member q (erase p xs) ≡ (if q == p then false else member q xs)
member-erase p q [] d = ground arith
member-erase p q (x ∷ xs) d = ground (arith, member-erase p q xs d.1)

pub erase-Distinct : (p : Ptr) (xs : Ptrs) → Distinct xs → Distinct (erase p xs)
erase-Distinct p [] d = tt
erase-Distinct p (x ∷ xs) d = elim (Bool-cases (p == x)) [
  | inl here ↦ rw here d.1
  | inr later ↦ rw later (ground (arith, member-erase p x xs d.1), erase-Distinct p xs d.1)
]

Distinct-append_inv :
    (xs ys : Ptrs)
    → Distinct (xs ++ ys)
    → Distinct xs × Distinct ys × ((p : Ptr) → member p xs ≡ true → member p ys ≡ false)
Distinct-append_inv [] ys d = (tt, d, λ p m. cc)
Distinct-append_inv (x ∷ xs) ys d =
    let (dx, dy, apart) = Distinct-append_inv xs ys d.1 in
    (
      (ground (arith, member-append x xs ys), dx),
      dy,
      λ p m. ground (arith, apart p, member-append x xs ys),
    )

Distinct-append :
    (xs ys : Ptrs)
    → Distinct xs
    → Distinct ys
    → ((p : Ptr) → member p xs ≡ true → member p ys ≡ false)
    → Distinct (xs ++ ys)
Distinct-append [] ys dx dy apart = dy
Distinct-append (x ∷ xs) ys dx dy apart = (
  ground (arith, member-append x xs ys, apart x),
  Distinct-append xs ys dx.1 dy (λ p m. apart p (ground arith)),
)

pub Distinct-rotate : (xs ys : Ptrs) → Distinct (xs ++ ys) → Distinct (ys ++ xs)
Distinct-rotate xs ys d =
    let (dx, dy, apart) = Distinct-append_inv xs ys d in
    Distinct-append ys xs dy dx (λ p m. swapped p m (apart p))
  where
    swapped :
        (p : Ptr)
        → member p ys ≡ true
        → (member p xs ≡ true → member p ys ≡ false)
        → member p xs ≡ false
    swapped p m no_both = elim (Bool-cases (member p xs)) [ inl e ↦ cc (no_both e) | inr e ↦ e ]
