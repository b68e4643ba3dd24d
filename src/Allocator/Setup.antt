-- ===== src/Allocator/Setup.antt =====
-- `setup_kheap` of memory/heap.c.
use mathlib.Core.Path.{subst}
use awk.Base.{ℕ, ◌+◌, ◌-◌, ◌*◌, ◌/◌, ◌^◌, ◌≤◌, ◌<◌, ◌≡◌, refl, true, Ptr, null, [], ◌∷◌, arith}
use awk.Allocator.{
  Links, Kheap, assign, align, header_size, chunk_bytes, add32, sub32, list_init, insert_after,
  memory_chunk_init, memory_chunk_size, memory_chunk_slot, setup_kheap,
}
use awk.Allocator.Ring.{Ptrs, member, IsRing, IsRing-of_SameBut}
use awk.Allocator.Relink.{insert_after-IsRing}
use awk.Allocator.Bins.{IsFree, rebin, list_push-IsFree}
use awk.Allocator.Chunks.{memory_chunk_size_lem, IsMarked, IsKheap}
use awk.Allocator.JoinBefore.{IsMarked-agree}

-- The first chunk and the end of the last one.
abbrev pub mem_start : Ptr → Ptr
mem_start heap_start = add32 heap_start (align - 1) / align * align

abbrev pub mem_end : Ptr → Ptr
mem_end heap_end = heap_end / align * align

-- What `setup_kheap` comes to: one free chunk between the first and the last, of all the room there is.
pub record Ready (heap_start heap_end : Ptr) (r : Kheap) : Type 0 where
  pub bs : ℕ → Ptrs
  pub valid : IsKheap r ((mem_start heap_start + chunk_bytes) ∷ []) bs
  pub idle : r.used (mem_start heap_start + chunk_bytes) ≡ 0
  pub size :
      memory_chunk_size r.all (mem_start heap_start + chunk_bytes)
        + (3 * chunk_bytes - 8)
        + mem_start heap_start
      ≡ mem_end heap_end

module _ (l : Links) (a b c : Ptr) (ab : a + chunk_bytes ≤ b) (bc : b + chunk_bytes ≤ c) where
  abbrev started : Links
  started = list_init c (list_init b (list_init a l))

  started-IsRing : IsRing started (a ∷ []) × IsRing started (b ∷ []) × IsRing started (c ∷ [])
  unfolding list_init
  started-IsRing = ground arith

  three-IsRing : IsRing (insert_after b c (insert_after a b started)) (a ∷ b ∷ c ∷ [])
  three-IsRing =
      let (at_a, at_b, at_c) = started-IsRing in
      let (two, same) = insert_after-IsRing started b at_b [] a [] at_a (ground arith) in
      let alone = IsRing-of_SameBut (b ∷ a ∷ []) (c ∷ []) same (λ p there. ground arith) at_c in
      (insert_after-IsRing (insert_after a b started) c alone (a ∷ []) b [] two (ground arith)).0

module _ (h : Kheap) (heap_start heap_end : Ptr) (low : 0 < heap_start)
    (fits : mem_start heap_start + 3 * chunk_bytes ≤ mem_end heap_end)
    (small : heap_start + 3 < 2 ^ 32) (high : heap_end ≤ 2 ^ 32)
    (empty : (n : ℕ) → h.free_chunk n ≡ null) where
  abbrev a : Ptr
  a = mem_start heap_start

  abbrev b : Ptr
  b = a + chunk_bytes

  abbrev c : Ptr
  c = mem_end heap_end - chunk_bytes

  abbrev all' : Links
  all' = insert_after b c (insert_after a b (started h.all a b c (omega arith) (omega arith)))

  abbrev free' : Links
  free' = started h.free a b c (omega arith) (omega arith)

  abbrev used' : Ptr → ℕ
  used' = assign (assign (assign (assign (assign h.used a 0) b 0) c 0) a 1) c 1

  -- The heap before its one free chunk goes into its bin.
  abbrev before : Kheap
  before = record h {
    all = all';
    free = free';
    used = used';
    first_chunk = a;
    last_chunk = c;
    mem_free = 0;
    mem_used = 0;
    mem_meta = 0;
  }

  no_bins : IsFree free' h.free_chunk (memory_chunk_size all') (λ p. 1) (a ∷ b ∷ c ∷ []) (λ n. [])
  no_bins = record {
    head = empty;
    ring = λ n. tt;
    distinct = λ n. tt;
    sound = λ n p at. cc;
    complete = λ p at idle. absurd (omega arith);
    nonnull = ground arith;
  }

  abbrev slot : ℕ
  slot = memory_chunk_slot (memory_chunk_size all' b)

  abbrev bins : ℕ → Ptrs
  bins = rebin (λ n. []) slot (b ∷ [])

  ring' : IsRing all' (a ∷ b ∷ c ∷ [])
  ring' = three-IsRing h.all a b c (omega arith) (omega arith)

  agree : (x : Ptr) → member x (a ∷ b ∷ c ∷ []) ≡ true → assign (λ p. 1) b 0 x ≡ used' x
  agree x there = ground arith

  -- If the heap's area starts above 0, its start plus 3 does not wrap, it ends at most at 2^32, it
  -- has room for three chunks once both ends are aligned, and no bin holds a chunk, `setup_kheap`
  -- makes a sound heap of three chunks: the first and the last are in use, and the one between them
  -- is free and has all the room but for the two others and its header.
  pub setup_kheap-Ready : Ready heap_start heap_end (setup_kheap heap_start heap_end h)
  unfolding setup_kheap memory_chunk_init
  setup_kheap-Ready =
      let (links, run, is) =
        list_push-IsFree before (memory_chunk_size all') (λ p. 1) (a ∷ b ∷ c ∷ []) (λ n. []) no_bins
          b (ground arith) refl (started-IsRing h.free a b c (omega arith) (omega arith)).1 in
      let end = record before {
        free = links;
        free_chunk = assign h.free_chunk slot b;
        mem_free = sub32 (memory_chunk_size all' b) header_size;
        mem_meta = chunk_bytes * 2 + header_size;
      } in
      let m : IsMarked end (assign (λ p. 1) b 0) (b ∷ []) bins = record {
        ring = ring';
        spaced = (omega arith, (omega arith, (omega arith, omega arith)));
        bins = is;
        first_used = ground arith;
        last_used = ground arith;
      } in
      let run' : end ≡ setup_kheap heap_start heap_end h = rw run refl in
      subst (Ready heap_start heap_end) run' (record {
        bs = bins;
        valid = IsMarked-agree end (assign (λ p. 1) b 0) used' (b ∷ []) bins m agree;
        idle = ground arith;
        size = omega (arith, memory_chunk_size_lem all' b c ring'.2.0 (omega arith) (omega arith));
      })
