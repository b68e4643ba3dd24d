-- ===== src/Allocator/Allocated.antt =====
-- What `kmalloc` of memory/heap.c does when it finds a chunk, and the chunk at the front of a bin.
use mathlib.Core.Path.{subst}
use awk.Base.{ℕ, ◌+◌, ◌^◌, ◌≤◌, ◌<◌, ◌≡◌, refl, true, false, Ptr, null, [], ◌∷◌, ◌++◌, arith, ◌==◌}
use awk.Allocator.{Kheap, header_size, memory_chunk_size, remove_from, list_remove_from, list_pop}
use awk.Allocator.Ring.{Ptrs, member, first, IsRing}
use awk.Allocator.Chunks.{Spaced, Spaced-step, IsRing-step, memory_chunk_size_lem, IsKheap}
use awk.Allocator.Between.{between, chunks-whole}

-- What a successful `kmalloc` does: `chunk` was free and is the caller's, with room enough; what was
-- cut off it is a chunk behind it; the others are as before, and the heap is sound.
pub record Allocated (h : Kheap) (inner : Ptrs) (size : ℕ) (r : Ptr × Kheap) : Type 0 where
  pub chunk : Ptr
  pub before : Ptrs
  pub added : Ptrs
  pub after : Ptrs
  pub bs : ℕ → Ptrs
  pub address : r.0 ≡ chunk + header_size
  pub whole : inner ≡ before ++ chunk ∷ after
  pub idle : h.used chunk ≡ 0
  pub valid : IsKheap r.1 (before ++ ((chunk ∷ added) ++ after)) bs
  pub busy : r.1.used chunk ≡ 1
  pub roomy : size ≤ memory_chunk_size r.1.all chunk
  pub others : (p : Ptr) → member p inner ≡ true → (p == chunk) ≡ false → r.1.used p ≡ h.used p

-- The size of a chunk that is not the last.
pub chunk_size_bounds :
    (h : Kheap) (inner : Ptrs) (bs : ℕ → Ptrs) (c : Ptr)
    → IsKheap h inner bs
    → member c inner ≡ true
    → (8 ≤ memory_chunk_size h.all c) × (memory_chunk_size h.all c < 2 ^ 32)
chunk_size_bounds h inner bs c is here =
    let at = between h inner c here in
    let e = chunks-whole h inner c at in
    let xs = h.first_chunk ∷ at.before in
    let step = Spaced-step 1 xs c at.next at.rest (subst (Spaced 1) e is.spaced) in
    let link = IsRing-step h.all xs c at.next at.rest (subst (IsRing h.all) e is.ring) in
    omega (arith, memory_chunk_size_lem h.all c at.next link.0 step.1 step.2)

pub member-first : (xs : Ptrs) → (first xs null == null) ≡ false → member (first xs null) xs ≡ true
member-first [] e = ground arith
member-first (x ∷ xs) e = ground arith

pub member-null :
    (c : Ptr) (xs : Ptrs) → member c xs ≡ true → first xs null ≡ null → member null xs ≡ true
member-null c [] there e = cc
member-null c (x ∷ xs) there e = ground arith

pub list_pop_eq : (h : Kheap) (m : ℕ) → list_pop m h ≡ list_remove_from m (h.free_chunk m) h
unfolding list_pop list_remove_from remove_from
list_pop_eq h m =
    let same : (h.free_chunk m == h.free_chunk m) ≡ true = ground arith in rw same refl
