-- ===== src/Allocator/Calls.antt =====
-- Calls of memory/heap.c one after another.
use mathlib.Core.Path.{subst}
use awk.Base.{
  ℕ, ◌+◌, ◌*◌, ◌^◌, ◌≤◌, ◌<◌, ◌≡◌, sym, true, false, ◌==◌, if◌then◌else◌, inl, inr, Ptr, null, [],
  ◌∷◌, arith,
}
use awk.Allocator.{
  Kheap, chunk_bytes, header_size, memory_chunk_size, wanted, kmalloc, kfree, setup_kheap,
}
use awk.Allocator.Ring.{Ptrs, member, member-append}
use awk.Allocator.Chunks.{memory_chunk_size_lem, chunks, IsKheap}
use awk.Allocator.Allocated.{Allocated}
use awk.Allocator.Kmalloc.{kmalloc_lem}
use awk.Allocator.Kfree.{Freed, kfree_lem}
use awk.Allocator.Absorb.{not_ends}
use awk.Allocator.Between.{Between, between, neighbours, none_between, IsMarked-inner}
use awk.Allocator.Setup.{mem_start, mem_end, setup_kheap-Ready}

-- A free chunk of twice the size is enough for `kmalloc`.
pub kmalloc-succeeds :
    (h : Kheap) (inner : Ptrs) (bs : ℕ → Ptrs) (size : ℕ) (c : Ptr)
    → IsKheap h inner bs
    → size + 3 < 2 ^ 32
    → member c (chunks h inner) ≡ true
    → h.used c ≡ 0
    → 2 * wanted size ≤ memory_chunk_size h.all c
    → Allocated h inner size (kmalloc size h)
kmalloc-succeeds h inner bs size c is small there idle large =
    elim (kmalloc_lem h inner bs is size small) [
      | inl (none_left, all) ↦ absurd (omega (arith, all c there idle))
      | inr done ↦ done
    ]

-- Under the conditions on the heap's area that make `setup_kheap` give a sound heap, a first
-- `kmalloc` after it succeeds if its size is below 2^32 - 3 and twice the size wanted fits in the
-- area next to the 52 bytes of the fixed chunks and headers.
pub kmalloc-setup_kheap :
    (h : Kheap) (heap_start heap_end : Ptr) (size : ℕ)
    → 0 < heap_start
    → mem_start heap_start + 3 * chunk_bytes ≤ mem_end heap_end
    → heap_start + 3 < 2 ^ 32
    → heap_end ≤ 2 ^ 32
    → ((n : ℕ) → h.free_chunk n ≡ null)
    → size + 3 < 2 ^ 32
    → 2 * wanted size + 52 + mem_start heap_start ≤ mem_end heap_end
    → Allocated
        (setup_kheap heap_start heap_end h)
        ((mem_start heap_start + chunk_bytes) ∷ [])
        size
        (kmalloc size (setup_kheap heap_start heap_end h))
kmalloc-setup_kheap h heap_start heap_end size low fits small high empty small' large =
    let ready = setup_kheap-Ready h heap_start heap_end low fits small high empty in
    kmalloc-succeeds (setup_kheap heap_start heap_end h) _ _ size
      (mem_start heap_start + chunk_bytes) ready.valid small' (ground arith) ready.idle
      (omega (arith, ready.size))

-- The chunk that holds a freed one is at least as large.
module _ (h : Kheap) (inner : Ptrs) (bs : ℕ → Ptrs) (c : Ptr) (is : IsKheap h inner bs)
    (here : member c inner ≡ true) (busy : (h.used c == 0) ≡ false) where
  abbrev p : Ptr
  p = h.all.prev c

  abbrev r : Kheap
  r = kfree (c + header_size) h

  abbrev holder : Ptr
  holder = if h.used p == 0 then p else c

  f : Freed h inner c p (h.all.next c) r
  f = kfree_lem h inner bs c is here busy

  at : Between h inner c
  at = between h inner c here

  chunks_left : (x : Ptr) → member x (chunks r f.left) ≡ true → member x (chunks h inner) ≡ true
  chunks_left x there = ground (
    arith,
    f.members x,
    f.ends,
    member-append x f.left (r.last_chunk ∷ []),
    member-append x inner (h.last_chunk ∷ []),
  )

  holder_left : member holder f.left ≡ true
  holder_left =
      let (back, ahead, low, high, _, p_row, _, _) = neighbours h inner c at h.used bs is in
      ground (
        arith,
        f.members holder,
        IsMarked-inner h h.used inner bs p is
            (subst (λ x. member x (chunks h inner) ≡ true) (sym back) p_row),
      )

  holder_below : holder ≤ c
  holder_below =
      let (back, ahead, low, high, _, _, _, _) = neighbours h inner c at h.used bs is in
      ground arith

  holder_next :
      (x : Ptr)
      → member x (chunks r f.left) ≡ true
      → holder + chunk_bytes ≤ x
      → (p < x) × ((x == c) ≡ false)
  holder_next x there above =
      let (back, ahead, low, high, _, _, _, _) = neighbours h inner c at h.used bs is in
      ground (
        arith,
        f.members c,
        f.ends,
        not_ends h h.used inner bs is c here,
        member-append c f.left (r.last_chunk ∷ []),
      )

  holder_size : memory_chunk_size h.all c ≤ memory_chunk_size r.all holder
  holder_size =
      let (back, ahead, low, high, top, _, _, _) = neighbours h inner c at h.used bs is in
      let at' = between r f.left holder holder_left in
      let (back', ahead', low', high', top', _, there, _) =
        neighbours r f.left holder at' r.used f.bs f.valid in
      let (far, ne) = holder_next at'.next there high' in
      let gap =
        none_between h inner c at h.used bs at'.next is (chunks_left at'.next there)
          (subst (λ x. x < at'.next) back far) ne in
      omega (
        arith,
        memory_chunk_size_lem h.all c at.next ahead high top,
        memory_chunk_size_lem r.all holder at'.next ahead' high' top',
        holder_below,
      )

  Allocated-again :
      (size : ℕ)
      → size + 3 < 2 ^ 32
      → 2 * wanted size ≤ memory_chunk_size h.all c
      → Allocated r f.left size (kmalloc size r)
  Allocated-again size small large =
      kmalloc-succeeds r f.left f.bs size holder f.valid small
        (ground (arith, member-append holder f.left (r.last_chunk ∷ []), holder_left)) f.idle
        (omega (arith, holder_size))

-- In a sound heap, after `kfree` of a chunk in use that is neither the first nor the last, a
-- `kmalloc` succeeds whose size, rounded up and doubled, is at most the size of the freed chunk, the
-- size asked for being below 2^32 - 3.
pub kmalloc-kfree :
    (h : Kheap) (inner : Ptrs) (bs : ℕ → Ptrs) (c : Ptr) (size : ℕ)
    → IsKheap h inner bs
    → member c inner ≡ true
    → (h.used c == 0) ≡ false
    → size + 3 < 2 ^ 32
    → 2 * wanted size ≤ memory_chunk_size h.all c
    → (left : Ptrs) × Allocated
        (kfree (c + header_size) h)
        left
        size
        (kmalloc size (kfree (c + header_size) h))
kmalloc-kfree h inner bs c size is here busy small large =
    (_, Allocated-again h inner bs c is here busy size small large)
