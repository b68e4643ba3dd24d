-- ===== src/Allocator/Relink.antt =====
-- The operations of memory/heap.c on circular lists, each as a change of the list of nodes.
use mathlib.Core.Path.{subst}
use awk.Base.{◌≡◌, refl, ap, sym, false, Ptr, null, [], ◌∷◌, ◌++◌, arith, ◌==◌}
use awk.Allocator.{
  Links, assign, list_init, insert_before, insert_after, remove, push, pop, remove_from,
}
use awk.Allocator.Ring.{
  Ptrs, member, Distinct, first, last, IsRing, SameBut, member-last, member-append, Chain-last,
  Chain-assign_next, Chain-assign_prev, Chain-redirect, IsRing-rotate,
}

-- `list_init` makes a ring of one node.
pub list_init-IsRing :
    (c : Ptr) (l : Links) → IsRing (list_init c l) (c ∷ []) × SameBut (c ∷ []) l (list_init c l)
unfolding list_init
list_init-IsRing c l = (ground arith, λ p out. ground arith)

-- The links with the given new values.
abbrev links_at : Links → (a b : Ptr × Ptr) → (c d : Ptr × Ptr) → Links
links_at l (a, v) (b, w) (c, x) (d, y) = record {
  next = assign (assign l.next a v) b w;
  prev = assign (assign l.prev c x) d y;
}

became :
    (l m n : Links) (ring zs : Ptrs)
    → m ≡ n
    → IsRing n ring × SameBut zs l n
    → IsRing m ring × SameBut zs l m
became l m n ring zs e h = subst (λ k. IsRing k ring × SameBut zs l k) (sym e) h

module _ (l : Links) (c : Ptr) (alone : IsRing l (c ∷ [])) where
  insert_before_eq :
      (x e : Ptr) → l.prev x ≡ e → insert_before x c l ≡ links_at l (e, c) (c, x) (c, e) (x, c)
  unfolding insert_before
  insert_before_eq x e back = rw (back, alone.1)

  insert_after_eq :
      (x e : Ptr) → l.next x ≡ e → insert_after x c l ≡ links_at l (x, c) (c, e) (c, x) (e, c)
  unfolding insert_after
  insert_after_eq x e ahead = rw (ahead, alone.1)

  insert_before-IsRing :
      (x : Ptr) (xs : Ptrs)
      → IsRing l (x ∷ xs)
      → Distinct (c ∷ x ∷ xs)
      → IsRing (insert_before x c l) (c ∷ x ∷ xs) × SameBut (c ∷ x ∷ xs) l (insert_before x c l)
  insert_before-IsRing x xs r d =
      let e = last x xs in
      let moved = Chain-redirect l.next l.prev x xs x c r d.1 (ground arith) in
      let n = assign l.next e c in
      let p = assign l.prev c e in
      let kept =
        Chain-assign_prev (assign n c x) p x c x xs c (ground arith) (ground arith)
          (Chain-assign_next n p c x x xs c (ground arith) moved) in
      became l _ _ (c ∷ x ∷ xs) (c ∷ x ∷ xs)
        (insert_before_eq x e (Chain-last l.next l.prev x xs x r))
        ((ground arith, ground arith, kept), λ q out. ground (arith, member-last x xs))

  -- `push` puts a node at the front.
  pub push-IsRing :
      (xs : Ptrs)
      → IsRing l xs
      → Distinct (c ∷ xs)
      → member null xs ≡ false
      → (links : Links) × (push (first xs null) c l ≡ (c, links))
        × IsRing links (c ∷ xs)
        × SameBut (c ∷ xs) l links
  unfolding push
  push-IsRing [] r d nn = (l, refl, alone, λ p out. (refl, refl))
  push-IsRing (x ∷ xs) r d nn =
      let (ring, same) = insert_before-IsRing x xs r d in
      (insert_before x c l, ground arith, ring, same)

  insert_after_front :
      (x : Ptr) (xs : Ptrs)
      → IsRing l (x ∷ xs)
      → Distinct (c ∷ x ∷ xs)
      → IsRing (insert_after x c l) (x ∷ c ∷ xs) × SameBut (c ∷ x ∷ xs) l (insert_after x c l)
  insert_after_front x [] r d =
      became l _ _ (x ∷ c ∷ []) (c ∷ x ∷ []) (insert_after_eq x x r.0)
        (ground arith, λ q out. ground arith)
  insert_after_front x (y ∷ ys) r d =
      let n = assign l.next x c in
      let p = assign l.prev c x in
      let kept = Chain-assign_prev (assign n c y) p y c y ys x (ground arith) (ground arith) (
        Chain-assign_next n p c y y ys x (ground arith) (
          Chain-assign_next l.next p x c y ys x (ground arith)
            (Chain-assign_prev l.next l.prev c x y ys x (ground arith) (ground arith) r.2))) in
      became l _ _ (x ∷ c ∷ y ∷ ys) (c ∷ x ∷ y ∷ ys) (insert_after_eq x y r.0)
        ((ground arith, ground arith, (ground arith, ground arith, kept)), λ q out. ground arith)

  -- `insert_after` puts a node behind another, wherever that stands in its ring.
  pub insert_after-IsRing :
      (xs : Ptrs) (x : Ptr) (ys : Ptrs)
      → IsRing l (xs ++ x ∷ ys)
      → Distinct (c ∷ x ∷ (ys ++ xs))
      → IsRing (insert_after x c l) (xs ++ x ∷ c ∷ ys)
        × SameBut (c ∷ x ∷ (ys ++ xs)) l (insert_after x c l)
  insert_after-IsRing xs x ys r d =
      let (ring, same) = insert_after_front x (ys ++ xs) (IsRing-rotate l xs (x ∷ ys) r) d in
      (IsRing-rotate (insert_after x c l) (x ∷ c ∷ ys) xs ring, same)

module _ (l : Links) (c : Ptr) where
  remove_eq :
      (b a : Ptr)
      → l.prev c ≡ b
      → l.next c ≡ a
      → (b == c) ≡ false
      → remove c l ≡ links_at l (b, a) (c, c) (a, b) (c, c)
  unfolding remove
  remove_eq b a back ahead ne =
      rw (back, ahead) (ap (λ z. links_at l (b, a) (c, c) (z, b) (c, c)) (ground arith))

  remove_front :
      (xs : Ptrs)
      → IsRing l (c ∷ xs)
      → Distinct (c ∷ xs)
      → IsRing (remove c l) xs × IsRing (remove c l) (c ∷ []) × SameBut (c ∷ xs) l (remove c l)
  unfolding remove
  remove_front [] r d = (tt, ground arith, λ q out. ground arith)
  remove_front (x ∷ xs) r d =
      let e = last x xs in
      let back : l.prev c ≡ e = Chain-last l.next l.prev c (x ∷ xs) c r in
      let apart : (e == c) ≡ false = ground (arith, member-last x xs) in
      let moved = Chain-redirect l.next l.prev x xs c x r.2 d.1 (ground arith) in
      let n = assign l.next e x in
      let p = assign l.prev x e in
      let kept =
        Chain-assign_prev (assign n c c) p c c x xs x (ground arith) (ground arith)
          (Chain-assign_next n p c c x xs x (ground arith) moved) in
      let (ring, same) =
        became l _ _ (x ∷ xs) (c ∷ x ∷ xs) (remove_eq e x back r.0 apart)
          (kept, λ q out. ground (arith, member-last x xs)) in
      (ring, ground arith, same)

  -- `remove` takes a node out of its ring and leaves it alone.
  pub remove-IsRing :
      (xs ys : Ptrs)
      → IsRing l (xs ++ c ∷ ys)
      → Distinct (c ∷ (ys ++ xs))
      → IsRing (remove c l) (xs ++ ys)
        × IsRing (remove c l) (c ∷ [])
        × SameBut (c ∷ (ys ++ xs)) l (remove c l)
  remove-IsRing xs ys r d =
      let (ring, alone, same) = remove_front (ys ++ xs) (IsRing-rotate l xs (c ∷ ys) r) d in
      (IsRing-rotate (remove c l) ys xs ring, alone, same)

  -- `remove_from` also moves the head when that is the node it takes out.
  pub remove_from-IsRing :
      (xs ys : Ptrs)
      → IsRing l (xs ++ c ∷ ys)
      → Distinct (c ∷ (ys ++ xs))
      → remove_from (first (xs ++ c ∷ ys) null) c l ≡ (first (xs ++ ys) null, remove c l)
  unfolding remove_from pop
  remove_from-IsRing [] [] r d = ground arith
  remove_from-IsRing [] (y ∷ ys) r d = ground arith
  remove_from-IsRing (x ∷ xs) ys r d =
      ground (arith, member-append x ys (x ∷ xs), member-append c ys (x ∷ xs))

-- Links of other nodes that the operations leave alone.
pub insert_after-next :
    (l : Links) (x c p : Ptr)
    → l.prev c ≡ c
    → (p == x) ≡ false
    → (p == c) ≡ false
    → (insert_after x c l).next p ≡ l.next p
unfolding insert_after
insert_after-next l x c p alone ne ne' = ground arith

pub remove-next :
    (l : Links) (c p b : Ptr)
    → l.prev c ≡ b
    → (p == b) ≡ false
    → (p == c) ≡ false
    → (remove c l).next p ≡ l.next p
unfolding remove
remove-next l c p b back ne ne' = ground arith

pub remove-prev :
    (l : Links) (c p a : Ptr)
    → l.next c ≡ a
    → (l.prev c == c) ≡ false
    → (p == a) ≡ false
    → (p == c) ≡ false
    → (remove c l).prev p ≡ l.prev p
unfolding remove
remove-prev l c p a ahead apart ne ne' = ground arith
