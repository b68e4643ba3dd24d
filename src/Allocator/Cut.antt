-- ===== src/Allocator/Cut.antt =====
-- Cutting a chunk in two, the part of `kmalloc` of memory/heap.c that keeps what is not asked for.
use awk.Base.{
  ℕ, ◌+◌, ◌^◌, ◌≤◌, ◌<◌, ◌≡◌, refl, ◌∙◌, true, false, ◌||◌, Ptr, null, [], ◌∷◌, ◌++◌, arith, ◌==◌,
  leb,
}
use awk.Allocator.{
  Links, Kheap, assign, chunk_bytes, header_size, list_init, insert_after, memory_chunk_init,
  memory_chunk_size, memory_chunk_slot, split_chunk, add32, sub32,
}
use awk.Allocator.Ring.{Ptrs, member, IsRing, member-append, IsRing-of_SameBut}
use awk.Allocator.Relink.{list_init-IsRing, insert_after-IsRing, insert_after-next}
use awk.Allocator.Members.{Distinct-rotate}
use awk.Allocator.Bins.{IsFree, rebin, list_push-IsFree, IsFree-change}
use awk.Allocator.Chunks.{
  Spaced, Spaced-step, Spaced-insert, Spaced-Distinct, Spaced-below, IsRing-step,
  memory_chunk_size_lem, memory_chunk_size_eq,
}

-- A chunk between two others, marked as used in `used`; the bins hold the chunks not marked.
pub record Held (h : Kheap) (used : Ptr → ℕ) (xs : Ptrs) (c d : Ptr) (ys : Ptrs) (bs : ℕ → Ptrs)
    : Type 0 where
  pub ring : IsRing h.all (xs ++ c ∷ d ∷ ys)
  pub spaced : Spaced 1 (xs ++ c ∷ d ∷ ys)
  pub bins : IsFree h.free h.free_chunk (memory_chunk_size h.all) used (xs ++ c ∷ d ∷ ys) bs
  pub busy : used c ≡ 1

module _ (h : Kheap) (used : Ptr → ℕ) (xs : Ptrs) (c d : Ptr) (ys : Ptrs) (bs : ℕ → Ptrs)
    (held : Held h used xs c d ys bs) (w : ℕ) (least : 8 ≤ w)
    (fits : w + chunk_bytes ≤ memory_chunk_size h.all c) where
  -- The chunk that is cut off, and the links after it is put in.
  abbrev pub cut : Ptr
  cut = c + header_size + w

  abbrev pub relinked : Links
  relinked = insert_after c cut (list_init cut h.all)

  abbrev pub cs : Ptrs
  cs = xs ++ c ∷ d ∷ ys

  far : (1 ≤ c) × (c + chunk_bytes ≤ d) × (d < 2 ^ 32)
  far = Spaced-step 1 xs c d ys held.spaced

  ahead : h.all.next c ≡ d
  ahead = (IsRing-step h.all xs c d ys held.ring).0

  room : memory_chunk_size h.all c + header_size + c ≡ d
  room = memory_chunk_size_lem h.all c d ahead far.1 far.2

  pub Spaced-cut : Spaced 1 (xs ++ c ∷ cut ∷ d ∷ ys) × (member cut cs ≡ false)
  Spaced-cut = Spaced-insert 1 xs c cut d ys held.spaced (omega arith) (omega (arith, room))

  pub IsRing-cut : IsRing relinked (xs ++ c ∷ cut ∷ d ∷ ys)
  IsRing-cut =
      let (alone, same) = list_init-IsRing cut h.all in
      let out = Spaced-cut.1 in
      let kept = IsRing-of_SameBut (cut ∷ []) cs same (λ p at. ground (arith, out)) held.ring in
      (insert_after-IsRing (list_init cut h.all) cut alone xs c (d ∷ ys) kept (
        ground (arith, out, member-append cut xs (c ∷ d ∷ ys), member-append cut (d ∷ ys) xs),
        Distinct-rotate xs (c ∷ d ∷ ys) (Spaced-Distinct 1 cs held.spaced),
      )).0

  pub size_kept :
      (p : Ptr)
      → (p == c) ≡ false
      → (p == cut) ≡ false
      → memory_chunk_size relinked p ≡ memory_chunk_size h.all p
  unfolding list_init
  size_kept p ne ne' =
      memory_chunk_size_eq h.all relinked p
        (insert_after-next (list_init cut h.all) c cut p (ground arith) ne ne' ∙ ground arith)

  abbrev pub cs' : Ptrs
  cs' = xs ++ c ∷ cut ∷ d ∷ ys

  member-cut : (p : Ptr) → member p cs' ≡ ((p == cut) || member p cs)
  member-cut p =
      ground (arith, member-append p xs (c ∷ cut ∷ d ∷ ys), member-append p xs (c ∷ d ∷ ys))

  IsFree-cut :
      IsFree
        (list_init cut h.free)
        h.free_chunk
        (memory_chunk_size relinked)
        (assign used cut 1)
        cs'
        bs
  IsFree-cut =
      IsFree-change (cut ∷ []) (memory_chunk_size relinked) (assign used cut 1) cs' held.bins
        (list_init-IsRing cut h.free).1 (λ p at idle. ground (arith, Spaced-cut.1))
        (λ p at idle. ground (arith, member-cut p, size_kept p, Spaced-cut.1, held.busy))
        (λ p at idle. ground (arith, member-cut p, size_kept p, Spaced-cut.1, held.busy))
        (Spaced-below 1 cs' null Spaced-cut.0 (omega arith))

  -- The size that is left for the chunk is the size asked for.
  pub memory_chunk_size-cut : memory_chunk_size relinked c ≡ w
  memory_chunk_size-cut =
      let gap =
        memory_chunk_size_lem relinked c cut (IsRing-step relinked xs c cut (d ∷ ys) IsRing-cut).0
          (omega arith) (omega (arith, Spaced-step 1 xs c cut (d ∷ ys) Spaced-cut.0)) in
      omega arith

  abbrev pub prepared : Kheap
  prepared = record h { all = relinked; used = assign h.used cut 0; free = list_init cut h.free }

  abbrev pub cut_slot : ℕ
  cut_slot = memory_chunk_slot (memory_chunk_size relinked cut)

  -- The heap after the cut, less the free lists.
  abbrev pub halved : Links → (ℕ → Ptr) → Kheap
  halved links heads = record h {
    all = relinked;
    used = assign h.used cut 0;
    free = links;
    free_chunk = heads;
    mem_meta = add32 h.mem_meta header_size;
    mem_free = add32 h.mem_free (sub32 (memory_chunk_size relinked cut) header_size);
  }

  -- The part that is cut off is a free chunk of its own.
  pub split_chunk_lem :
      (links : Links) × (heads : ℕ → Ptr) × (bs' : ℕ → Ptrs) × (split_chunk c w
          (memory_chunk_size h.all c)
          h
        ≡ (halved links heads, memory_chunk_size relinked cut))
      × IsFree links heads (memory_chunk_size relinked) (assign (assign used cut 1) cut 0) cs' bs'
  unfolding split_chunk memory_chunk_init
  split_chunk_lem =
      let (links, run, is) =
        list_push-IsFree prepared (memory_chunk_size relinked) (assign used cut 1) cs' bs IsFree-cut
          cut (ground (arith, member-cut cut)) (ground arith) (list_init-IsRing cut h.free).0 in
      let test : leb (add32 w chunk_bytes) (memory_chunk_size h.all c) ≡ true =
        ground (arith, room, far.2) in
      (
        links,
        assign h.free_chunk cut_slot cut,
        rebin bs cut_slot (cut ∷ bs cut_slot),
        rw (test, run) refl,
        is,
      )
