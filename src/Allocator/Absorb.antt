-- ===== src/Allocator/Absorb.antt =====
-- The steps that `kfree` of memory/heap.c is made of: a chunk leaves its bin, goes into its bin, or is
-- joined to the chunk before it.
use mathlib.Core.Path.{subst}
use awk.Base.{
  ℕ, ◌≡◌, refl, ap, ◌∙◌, true, false, not, ◌&&◌, ◌||◌, Ptr, null, [], ◌∷◌, ◌++◌, arith, ◌==◌,
}
use awk.Allocator.{
  Links, Kheap, assign, header_size, add32, sub32, memory_chunk_size, memory_chunk_slot, remove,
  remove_free, push_free,
}
use awk.Allocator.Ring.{Ptrs, member, Distinct, IsRing, member-append}
use awk.Allocator.Relink.{remove-IsRing, remove-next}
use awk.Allocator.Members.{erase, Distinct-rotate}
use awk.Allocator.Bins.{rebin, IsFree-change, list_push-IsFree, list_remove_from-IsFree}
use awk.Allocator.Chunks.{
  Spaced, Spaced-remove, Spaced-Distinct, memory_chunk_size_eq, chunks, IsMarked,
}
use awk.Allocator.Between.{Between, chunks-whole, chunks-with, before_it, neighbours, IsMarked-row}

module _ (h : Kheap) (used : Ptr → ℕ) (inner : Ptrs) (bs : ℕ → Ptrs) (is : IsMarked h used inner bs)
    (q : Ptr) (here : member q inner ≡ true) where
  abbrev slot : ℕ
  slot = memory_chunk_slot (memory_chunk_size h.all q)

  in_row : member q (chunks h inner) ≡ true
  in_row = ground (arith, member-append q inner (h.last_chunk ∷ []))

  abbrev len : ℕ
  len = sub32 (memory_chunk_size h.all q) header_size

  -- `remove_free` of a chunk that is not in use.
  pub remove_free-IsMarked :
      used q ≡ 0
      → (links : Links) × (heads : ℕ → Ptr) × (bs' : ℕ → Ptrs) × (remove_free q h
          ≡ record h { free = links; free_chunk = heads; mem_free = sub32 h.mem_free len })
        × IsMarked
            (record h { free = links; free_chunk = heads; mem_free = sub32 h.mem_free len })
            (assign used q 1)
            inner
            bs'
        × IsRing links (q ∷ [])
  unfolding remove_free
  remove_free-IsMarked idle =
      let (links, heads, run, free, alone) =
        list_remove_from-IsFree h (memory_chunk_size h.all) used (chunks h inner) bs is.bins q
          in_row idle in
      (
        links,
        heads,
        rebin bs slot (erase q (bs slot)),
        rw run refl,
        record {
          ring = is.ring;
          spaced = is.spaced;
          bins = free;
          first_used = ground (arith, is.first_used);
          last_used = ground (arith, is.last_used);
        },
        alone,
      )

  -- It is neither the first chunk nor the last.
  pub not_ends : ((q == h.first_chunk) ≡ false) × ((q == h.last_chunk) ≡ false)
  not_ends =
      let (d, ds) = Spaced-Distinct 1 (chunks h inner) is.spaced in
      ground (
        arith,
        member-append q inner (h.last_chunk ∷ []),
        member-append h.first_chunk inner (h.last_chunk ∷ []),
        Distinct-rotate inner (h.last_chunk ∷ []) ds,
      )

  -- `push_free` of a chunk that is in use.
  pub push_free-IsMarked :
      (used q == 0) ≡ false
      → IsRing h.free (q ∷ [])
      → (links : Links) × (heads : ℕ → Ptr) × (bs' : ℕ → Ptrs) × (push_free q h
          ≡ record h { free = links; free_chunk = heads; mem_free = add32 h.mem_free len })
        × IsMarked
            (record h { free = links; free_chunk = heads; mem_free = add32 h.mem_free len })
            (assign used q 0)
            inner
            bs'
  unfolding push_free
  push_free-IsMarked busy alone =
      let (links, run, free) =
        list_push-IsFree h (memory_chunk_size h.all) used (chunks h inner) bs is.bins q in_row busy
          alone in
      (
        links,
        assign h.free_chunk slot q,
        rebin bs slot (q ∷ bs slot),
        rw run refl,
        record {
          ring = is.ring;
          spaced = is.spaced;
          bins = free;
          first_used = ground (arith, is.first_used, not_ends);
          last_used = ground (arith, is.last_used, not_ends);
        },
      )

module _ (h : Kheap) (used : Ptr → ℕ) (inner : Ptrs) (bs : ℕ → Ptrs) (is : IsMarked h used inner bs)
    (q : Ptr) (at : Between h inner q) where
  abbrev xs : Ptrs
  xs = h.first_chunk ∷ at.before

  abbrev ys : Ptrs
  ys = at.next ∷ at.rest

  member-row : (p : Ptr) → member p (chunks h inner) ≡ ((p == q) || member p (xs ++ ys))
  member-row p =
      ap (member p) (chunks-whole h inner q at)
      ∙ ground (arith, member-append p xs (q ∷ ys), member-append p xs ys)

  distinct : Distinct (xs ++ q ∷ ys)
  distinct =
      Spaced-Distinct 1 (xs ++ q ∷ ys) (subst (Spaced 1) (chunks-whole h inner q at) is.spaced)

  q_out : member q (xs ++ ys) ≡ false
  q_out =
      ground
        (arith, Distinct-rotate xs (q ∷ ys) distinct, member-append q xs ys, member-append q ys xs)

  -- A chunk in use is joined to the one before it, which is in use too.
  pub remove-IsMarked :
      (used q == 0) ≡ false
      → (used (before_it h inner q at) == 0) ≡ false
      → IsMarked (record h { all = remove q h.all }) used (at.before ++ at.after) bs
  remove-IsMarked busy busy_before =
      let e = chunks-whole h inner q at in
      let back = (neighbours h inner q at used bs is).0 in
      let ring =
        remove-IsRing h.all q xs ys (subst (IsRing h.all) e is.ring)
          (Distinct-rotate xs (q ∷ ys) distinct) in
      let same : (p : Ptr)
          → used p ≡ 0
          → memory_chunk_size (remove q h.all) p ≡ memory_chunk_size h.all p =
        λ p idle.
          memory_chunk_size_eq h.all (remove q h.all) p
            (remove-next h.all q p (before_it h inner q at) back (ground arith) (ground arith)) in
      IsMarked-row (record h { all = remove q h.all }) used (at.before ++ at.after) bs (xs ++ ys)
        (chunks-with h inner q at []) ring.0
        (Spaced-remove 1 xs q ys (subst (Spaced 1) e is.spaced))
        (IsFree-change [] (memory_chunk_size (remove q h.all)) used (xs ++ ys) is.bins
          (λ p o. (refl, refl)) (λ p o i. refl)
          (λ p there idle. (ground (arith, member-row p), idle, same p idle))
          (λ p there idle. (ground (arith, member-row p), idle, same p idle))
          (ground (arith, member-row null, is.bins.nonnull)))
        is.first_used is.last_used

  -- The chunks that are left.
  pub member-left : (p : Ptr) → member p (at.before ++ at.after) ≡ (member p inner && not (p == q))
  member-left p = ground (
    arith,
    ap (member p) at.whole,
    ap (member q) (chunks-with h inner q at []),
    member-append p at.before (q ∷ at.after),
    member-append p at.before at.after,
    member-append q at.before at.after,
    member-append q (at.before ++ at.after) (h.last_chunk ∷ []),
    q_out,
  )
