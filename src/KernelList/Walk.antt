-- ===== src/KernelList/Walk.antt =====
-- `kernel_list_enlist_data`: the walk to the node's place, and the writes there.
use awk.Base.{
  ℕ, zero, suc, ◌<◌, ◌≡◌, refl, sym, ap, false, [], ◌∷◌, ◌++◌, arith, Ptr, null, ltb, if◌then◌else◌,
  length, Bool-cases, inl, inr,
}
use awk.Run.{ok}
use awk.KernelList.{Node, Heap, skip_higher, place}
use awk.KernelList.Steps.{Points, Heads, not_null, load_node_lem, load_list_lem}
use awk.KernelList.Chain.{
  Entry, Entries, first, last, has, Distinct, Linked, IsList, insert, last-append, Linked-of_append,
  last-Points, has-append, has-last, ne-last_of_has, head_ne,
}
use awk.KernelList.Splice.{Distinct-of_append}
use awk.KernelList.Place.{
  Placed, put_first-Placed, put_head-Placed, put_between-Placed, put_last-Placed,
}

-- The entries that the walk passes, and those it does not.
pub higher : ℕ → Entries → Entries
higher n [] = []
higher n (x ∷ xs) = if ltb n x.priority then x ∷ higher n xs else []

pub lower : ℕ → Entries → Entries
lower n [] = []
lower n (x ∷ xs) = if ltb n x.priority then lower n xs else x ∷ xs

pub higher-append-lower : (n : ℕ) (xs : Entries) → higher n xs ++ lower n xs ≡ xs
unfolding higher lower
higher-append-lower n [] = refl
higher-append-lower n (x ∷ xs) = elim (Bool-cases (ltb n x.priority)) [
  | inl e ↦ rw e (ap (λ ys. x ∷ ys) (higher-append-lower n xs))
  | inr e ↦ rw e
]

pub insert_split :
    (e : Entry) (xs : Entries) → insert e xs ≡ higher e.priority xs ++ e ∷ lower e.priority xs
unfolding insert higher lower
insert_split e [] = refl
insert_split e (x ∷ xs) = elim (Bool-cases (ltb e.priority x.priority)) [
  | inl t ↦ rw t (ap (λ ys. x ∷ ys) (insert_split e xs))
  | inr t ↦ rw t
]

-- The walk stops at the first entry that is not passed.
skip_higher_lem :
    (h : Heap) (n : ℕ) (fuel : ℕ) (b : Ptr) (xs : Entries)
    → Linked h b xs null
    → length xs < fuel
    → skip_higher fuel n (first xs null) h ≡ ok (first (lower n xs) null) h
unfolding skip_higher lower
skip_higher_lem h n zero b xs s k = absurd (omega arith)
skip_higher_lem h n (suc fuel) b [] s k = refl
skip_higher_lem h n (suc fuel) b (x ∷ xs) s k =
    rw (not_null s.0, load_node_lem s.0)
      (elim (Bool-cases (ltb n x.priority)) [
        | inl t ↦ rw t (skip_higher_lem h n fuel x.at xs s.1 (omega arith))
        | inr t ↦ rw t
      ])

pub outside_parts :
    (p : Ptr) (xs ys : Entries) → has p (xs ++ ys) ≡ false → (has p xs ≡ false) × (has p ys ≡ false)
outside_parts p xs ys out = ground (arith, has-append p xs ys)

module _ {h : Heap} {l p : Ptr} {n : ℕ} {m : Node} (at_p : Points h p m) (fuel pr : ℕ) where
  place_split :
      (xs ys : Entries)
      → Linked h null (xs ++ ys) null
      → Distinct (xs ++ ys)
      → has p (xs ++ ys) ≡ false
      → Heads h l (record { head = first (xs ++ ys) null; tail = last null (xs ++ ys); size = n })
      → skip_higher fuel pr (first (xs ++ ys) null) h ≡ ok (first ys null) h
      → (g : Heap) × (place fuel p l pr h ≡ ok tt g) × Placed l p n m xs ys h g
  unfolding place
  place_split [] [] s d out e walk = rw (load_list_lem e) (put_first-Placed at_p e)
  place_split [] (y ∷ ys) s d out e walk =
      rw (load_list_lem e, not_null s.0, walk)
        (rw (not_null s.0) (put_head-Placed at_p y ys _ s.0 refl (ground arith) e))
  place_split (x ∷ xs) [] s d out e walk =
      let (front, back) = Linked-of_append h null (x ∷ xs) [] null s in
      let (b, at_b) = last-Points h null x xs null front in
      let e' : Heads h l (record { head = x.at; tail = last x.at xs; size = n }) =
        rw (last-append x.at xs []) at e in
      rw (load_list_lem e, not_null s.0, walk)
        (put_last-Placed at_p x xs b at_b
          (λ i. ne-last_of_has p (x ∷ xs) at_p.ne_null (outside_parts p (x ∷ xs) [] out).0 (sym i))
          e')
  place_split (x ∷ xs) (y ∷ ys) s d out e walk =
      let parts = Distinct-of_append (x ∷ xs) (y ∷ ys) d in
      let (front, back) = Linked-of_append h null (x ∷ xs) (y ∷ ys) null s in
      let (b, at_b) = last-Points h null x xs y.at front in
      let e' : Heads h l (record { head = x.at; tail = last y.at ys; size = n }) =
        rw (last-append x.at xs (y ∷ ys)) at e in
      let outside = outside_parts p (x ∷ xs) (y ∷ ys) out in
      rw (load_list_lem e, not_null s.0, walk)
        (rw (not_null back.0) (
          put_between-Placed at_p x xs y ys b _ at_b back.0 refl (head_ne p y ys outside.1)
            (λ i. ne-last_of_has p (x ∷ xs) at_p.ne_null (outside.0) (sym i))
            (λ i. head_ne (last x.at xs) y ys (parts.2 (last x.at xs) (has-last x xs)) (sym i)) e'))

  pub place-Placed :
      (xs : Entries)
      → IsList h l xs n
      → has p xs ≡ false
      → length xs < fuel
      → (g : Heap) × (place fuel p l pr h ≡ ok tt g)
        × Placed l p n m (higher pr xs) (lower pr xs) h g
  place-Placed xs is out k =
      let split = higher-append-lower pr xs in
      place_split (higher pr xs) (lower pr xs) (rw split is.chain) (rw split is.distinct)
        (rw split out) (rw split is.header)
        (rw split (skip_higher_lem h pr fuel null xs is.chain k))
