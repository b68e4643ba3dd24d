-- ===== src/KernelList/Splice.antt =====
-- Chains that one node joins or leaves, by what the heap holds at the nodes beside it.
use awk.Base.{◌≡◌, ◌≢◌, true, false, some, [], ◌∷◌, ◌++◌, arith, Ptr, null}
use awk.KernelList.{Node, Heap}
use awk.KernelList.Steps.{Points}
use awk.KernelList.Chain.{
  Entry, Entries, first, last, has, Distinct, Linked, node_of, has-append, Linked-append,
  Linked-of_append, redirect_last, redirect_first, ne_null_of_has, ne-first_of_has, ne-last_of_has,
}

pub Distinct-of_append :
    (xs ys : Entries)
    → Distinct (xs ++ ys)
    → Distinct xs × Distinct ys × ((q : Ptr) → has q xs ≡ true → has q ys ≡ false)
Distinct-of_append [] ys d = (tt, d, λ q i. absurd (ground arith))
Distinct-of_append (x ∷ xs) ys d =
    let rest = Distinct-of_append xs ys d.1 in
    (
      (ground (arith, has-append x.at xs ys), rest.0),
      rest.1,
      λ q i. ground (arith, has-append x.at xs ys, rest.2 q),
    )

pub Distinct-append :
    (xs ys : Entries)
    → Distinct xs
    → Distinct ys
    → ((q : Ptr) → has q xs ≡ true → has q ys ≡ false)
    → Distinct (xs ++ ys)
Distinct-append [] ys d e apart = e
Distinct-append (x ∷ xs) ys d e apart = (
  ground (arith, has-append x.at xs ys, apart x.at),
  Distinct-append xs ys d.1 e λ q i. apart q (ground arith),
)

-- A node between two parts of a list does not stand in either of them.
pub Distinct-insert :
    (xs ys : Entries) (e : Entry)
    → Distinct (xs ++ ys)
    → has e.at (xs ++ ys) ≡ false
    → Distinct (xs ++ e ∷ ys)
Distinct-insert xs ys e d out =
    let parts = Distinct-of_append xs ys d in
    Distinct-append xs (e ∷ ys) parts.0 (ground (arith, has-append e.at xs ys), parts.1)
      λ q i. ground (arith, has-append e.at xs ys, parts.2 q)

-- `redirect_last` for a part that may be empty, on the left of a list.
left_part :
    (h g : Heap) (xs : Entries) (a p : Ptr)
    → Linked h null xs a
    → Distinct xs
    → ((m : Node)
        → Points h (last null xs) m
        → g.node (last null xs) ≡ some (record m { next = p }))
    → ((q : Ptr) → has q xs ≡ true → q ≢ last null xs → g.node q ≡ h.node q)
    → Linked g null xs p
left_part h g [] a p s d left same = tt
left_part h g (x ∷ xs) a p s d left same = redirect_last h g null x xs a p s d left same

-- `redirect_first` for a part that may be empty, on the right of a list.
right_part :
    (h g : Heap) (b : Ptr) (ys : Entries) (p : Ptr)
    → Linked h b ys null
    → Distinct ys
    → ((m : Node)
        → Points h (first ys null) m
        → g.node (first ys null) ≡ some (record m { prev = p }))
    → ((q : Ptr) → has q ys ≡ true → q ≢ first ys null → g.node q ≡ h.node q)
    → Linked g p ys null
right_part h g b [] p s d right same = tt
right_part h g b (y ∷ ys) p s d right same =
    redirect_first h g b p y ys null s right λ q i. same q (ground arith) (ground arith)

-- `e` joins the list between `xs` and `ys`: its node and the two beside it are written, and no
-- other. A neighbour that is not there is `NULL`, at which no node stands.
pub splice :
    (h g : Heap) (xs ys : Entries) (e : Entry)
    → Linked h null (xs ++ ys) null
    → Distinct (xs ++ ys)
    → has e.at (xs ++ ys) ≡ false
    → Points g e.at (node_of (last null xs) e (first ys null))
    → ((m : Node)
        → Points h (last null xs) m
        → g.node (last null xs) ≡ some (record m { next = e.at }))
    → ((m : Node)
        → Points h (first ys null) m
        → g.node (first ys null) ≡ some (record m { prev = e.at }))
    → ((q : Ptr) → q ≢ e.at → q ≢ last null xs → q ≢ first ys null → g.node q ≡ h.node q)
    → Linked g null (xs ++ e ∷ ys) null
splice h g xs ys e s d out new left right same =
    let parts = Distinct-of_append xs ys d in
    let (front, back) = Linked-of_append h null xs ys null s in
    Linked-append g null xs (e ∷ ys) null
      (left_part h g xs (first ys null) e.at front parts.0 left λ q i ne.
        same q (ground (arith, has-append e.at xs ys)) ne
          (ne-first_of_has q ys (ne_null_of_has h null xs (first ys null) q front i) (parts.2 q i)))
      (
        new,
        right_part h g (last null xs) ys e.at back parts.1 right λ q i ne.
            same q (ground (arith, has-append e.at xs ys))
              (ne-last_of_has q xs (ne_null_of_has h (last null xs) ys null q back i)
                (ground (arith, parts.2 q)))
              ne,
      )

-- The entry between `xs` and `ys` leaves the list: its neighbours are led to one another.
pub unsplice :
    (h g : Heap) (xs ys : Entries) (e : Entry)
    → Linked h null (xs ++ e ∷ ys) null
    → Distinct (xs ++ e ∷ ys)
    → ((m : Node)
        → Points h (last null xs) m
        → g.node (last null xs) ≡ some (record m { next = first ys null }))
    → ((m : Node)
        → Points h (first ys null) m
        → g.node (first ys null) ≡ some (record m { prev = last null xs }))
    → ((q : Ptr) → q ≢ e.at → q ≢ last null xs → q ≢ first ys null → g.node q ≡ h.node q)
    → Linked g null (xs ++ ys) null
unsplice h g xs ys e s d left right same =
    let parts = Distinct-of_append xs (e ∷ ys) d in
    let (front, back) = Linked-of_append h null xs (e ∷ ys) null s in
    Linked-append g null xs ys null
      (left_part h g xs e.at (first ys null) front parts.0 left λ q i ne.
        same q (ground (arith, parts.2 q)) ne (
          ne-first_of_has q ys (ne_null_of_has h null xs e.at q front i)
            (ground (arith, parts.2 q))))
      (right_part h g e.at ys (last null xs) back.1 parts.1.1 right λ q i ne.
        same q (ground arith)
          (ne-last_of_has q xs (ne_null_of_has h e.at ys null q back.1 i)
            (ground (arith, parts.2 q)))
          ne)
