-- ===== src/Allocator/Between.antt =====
-- Where a chunk of the heap stands, and its neighbours.
use mathlib.Core.List.{append_assoc}
use mathlib.Core.Path.{subst}
use awk.Base.{
  ℕ, ◌+◌, ◌^◌, ◌≤◌, ◌<◌, ◌≡◌, refl, ap, sym, ◌∙◌, true, false, Ptr, [], ◌∷◌, ◌++◌, arith, ◌==◌,
}
use awk.Allocator.{Kheap, memory_chunk_size, chunk_bytes}
use awk.Allocator.Bins.{IsFree}
use awk.Allocator.Ring.{Ptrs, member, last, IsRing, member-append}
use awk.Allocator.Members.{place}
use awk.Allocator.Chunks.{Spaced, Spaced-step, Spaced-between, IsRing-step, chunks, IsMarked}

-- `after` and the last chunk are `next` and the chunks `rest`.
pub record Between (h : Kheap) (inner : Ptrs) (c : Ptr) : Type 0 where
  pub before : Ptrs
  pub after : Ptrs
  pub next : Ptr
  pub rest : Ptrs
  pub whole : inner ≡ before ++ c ∷ after
  pub tail : after ++ h.last_chunk ∷ [] ≡ next ∷ rest

tail_of : (xs : Ptrs) (l : Ptr) → (next : Ptr) × (rest : Ptrs) × (xs ++ l ∷ [] ≡ next ∷ rest)
tail_of [] l = (l, [], refl)
tail_of (x ∷ xs) l = (x, xs ++ l ∷ [], refl)

pub between : (h : Kheap) (inner : Ptrs) (c : Ptr) → member c inner ≡ true → Between h inner c
between h inner c here =
    let at = place c inner here in
    let (next, rest, tail) = tail_of at.after h.last_chunk in
    record {
      before = at.before;
      after = at.after;
      next = next;
      rest = rest;
      whole = at.whole;
      tail = tail;
    }

module _ (h : Kheap) (inner : Ptrs) (c : Ptr) (at : Between h inner c) where
  pub chunks-whole : chunks h inner ≡ (h.first_chunk ∷ at.before) ++ c ∷ at.next ∷ at.rest
  chunks-whole =
      ap (λ (xs : Ptrs). h.first_chunk ∷ (xs ++ h.last_chunk ∷ [])) at.whole
      ∙ ap (◌∷◌ h.first_chunk) (
          append_assoc at.before (c ∷ at.after) (h.last_chunk ∷ [])
          ∙ ap (λ (xs : Ptrs). at.before ++ c ∷ xs) at.tail)

  -- With other chunks in the place of `c`.
  pub chunks-with :
      (xs : Ptrs)
      → chunks h (at.before ++ (xs ++ at.after))
        ≡ (h.first_chunk ∷ at.before) ++ (xs ++ at.next ∷ at.rest)
  chunks-with xs = ap (◌∷◌ h.first_chunk) (
      append_assoc at.before (xs ++ at.after) (h.last_chunk ∷ [])
      ∙ ap (λ (ys : Ptrs). at.before ++ ys)
          (append_assoc xs at.after (h.last_chunk ∷ []) ∙ ap (λ (ys : Ptrs). xs ++ ys) at.tail))

-- A chunk that is not used is neither the first nor the last one.
pub IsMarked-inner :
    (h : Kheap) (used : Ptr → ℕ) (inner : Ptrs) (bs : ℕ → Ptrs) (c : Ptr)
    → IsMarked h used inner bs
    → member c (chunks h inner) ≡ true
    → used c ≡ 0
    → member c inner ≡ true
IsMarked-inner h used inner bs c is at idle =
    ground (arith, member-append c inner (h.last_chunk ∷ []), is.first_used, is.last_used)

-- The invariant from the chunks in a row.
pub IsMarked-row :
    (h : Kheap) (used : Ptr → ℕ) (inner : Ptrs) (bs : ℕ → Ptrs) (cs : Ptrs)
    → chunks h inner ≡ cs
    → IsRing h.all cs
    → Spaced 1 cs
    → IsFree h.free h.free_chunk (memory_chunk_size h.all) used cs bs
    → used h.first_chunk ≡ 1
    → used h.last_chunk ≡ 1
    → IsMarked h used inner bs
IsMarked-row h used inner bs cs e ring spaced bins first_used last_used = record {
  ring = subst (IsRing h.all) (sym e) ring;
  spaced = subst (Spaced 1) (sym e) spaced;
  bins =
      subst (λ (xs : Ptrs). IsFree h.free h.free_chunk (memory_chunk_size h.all) used xs bs) (sym e)
        bins;
  first_used = first_used;
  last_used = last_used;
}

init_of : (x : Ptr) (xs : Ptrs) → (ys : Ptrs) × (x ∷ xs ≡ ys ++ last x xs ∷ [])
init_of x [] = ([], refl)
init_of x (y ∷ xs) = let (ys, e) = init_of y xs in (x ∷ ys, ap (◌∷◌ x) e)

module _ (h : Kheap) (inner : Ptrs) (c : Ptr) (at : Between h inner c) where
  -- The chunk before `c`, and the chunks before that one.
  abbrev pub before_it : Ptr
  before_it = last h.first_chunk at.before

  pub chunks-around : (ys : Ptrs) × (chunks h inner ≡ ys ++ before_it ∷ c ∷ at.next ∷ at.rest)
  chunks-around =
      let (ys, e) = init_of h.first_chunk at.before in
      (
        ys,
        chunks-whole h inner c at
            ∙ ap (λ (xs : Ptrs). xs ++ c ∷ at.next ∷ at.rest) e
            ∙ append_assoc ys (before_it ∷ []) (c ∷ at.next ∷ at.rest),
      )

  -- What the links and the addresses say about a chunk and its neighbours.
  pub neighbours :
      (used : Ptr → ℕ) (bs : ℕ → Ptrs)
      → IsMarked h used inner bs
      → (h.all.prev c ≡ before_it)
        × (h.all.next c ≡ at.next)
        × (before_it + chunk_bytes ≤ c)
        × (c + chunk_bytes ≤ at.next)
        × (at.next < 2 ^ 32)
        × (member before_it (chunks h inner) ≡ true)
        × (member at.next (chunks h inner) ≡ true)
        × (h.all.prev at.next ≡ c)
  neighbours used bs is =
      let (ys, e) = chunks-around in
      let xs = h.first_chunk ∷ at.before in
      let e2 = chunks-whole h inner c at in
      let left =
        IsRing-step h.all ys before_it c (at.next ∷ at.rest) (subst (IsRing h.all) e is.ring) in
      let right = IsRing-step h.all xs c at.next at.rest (subst (IsRing h.all) e2 is.ring) in
      let low = Spaced-step 1 ys before_it c (at.next ∷ at.rest) (subst (Spaced 1) e is.spaced) in
      let high = Spaced-step 1 xs c at.next at.rest (subst (Spaced 1) e2 is.spaced) in
      (
        left.1,
        right.0,
        low.1,
        high.1,
        high.2,
        ground (
          arith,
          ap (member before_it) e,
          member-append before_it ys (before_it ∷ c ∷ at.next ∷ at.rest),
        ),
        ground (arith, ap (member at.next) e2, member-append at.next xs (c ∷ at.next ∷ at.rest)),
        right.1,
      )

  -- No chunk stands between a chunk and its neighbours.
  pub none_between :
      (used : Ptr → ℕ) (bs : ℕ → Ptrs) (x : Ptr)
      → IsMarked h used inner bs
      → member x (chunks h inner) ≡ true
      → before_it < x
      → (x == c) ≡ false
      → at.next ≤ x
  none_between used bs x is there lt ne =
      let (ys, e) = chunks-around in
      let xs = h.first_chunk ∷ at.before in
      let e2 = chunks-whole h inner c at in
      let low =
        Spaced-between 1 ys before_it c (at.next ∷ at.rest) x (subst (Spaced 1) e is.spaced)
          (subst (λ (zs : Ptrs). member x zs ≡ true) e there) lt in
      Spaced-between 1 xs c at.next at.rest x (subst (Spaced 1) e2 is.spaced)
        (subst (λ (zs : Ptrs). member x zs ≡ true) e2 there) (ground arith)
