-- ===== src/Allocator/Chunks.antt =====
-- The chunks of the heap in the order of their addresses, and the invariant of memory/heap.c.
use native.Mathlib.Decide.{dec_lt}
use awk.Base.{ℕ, ◌+◌, ◌^◌, ◌≤◌, ◌<◌, ◌≡◌, refl, true, false, Ptr, [], ◌∷◌, ◌++◌, arith}
use awk.Allocator.{Links, Kheap, chunk_bytes, header_size, memory_chunk_size}
use awk.Allocator.Ring.{Ptrs, member, Distinct, IsRing, IsRing-rotate}
use awk.Allocator.Bins.{IsFree}

-- Ascending addresses from `low` on, each with room for a chunk and its links.
abbrev pub Spaced : ℕ → Ptrs → Type 0
Spaced low [] = low ≤ 2 ^ 32
Spaced low (c ∷ cs) = (low ≤ c) × Spaced (c + chunk_bytes) cs

pub Spaced-le : (low : ℕ) (cs : Ptrs) → Spaced low cs → low ≤ 2 ^ 32
Spaced-le low [] s = s
Spaced-le low (c ∷ cs) s = omega (arith, Spaced-le (c + chunk_bytes) cs s.1)

pub Spaced-below : (low : ℕ) (cs : Ptrs) (p : Ptr) → Spaced low cs → p < low → member p cs ≡ false
Spaced-below low [] p s h = refl
Spaced-below low (c ∷ cs) p s h = ground (arith, Spaced-below (c + chunk_bytes) cs p s.1)

pub Spaced-Distinct : (low : ℕ) (cs : Ptrs) → Spaced low cs → Distinct cs
Spaced-Distinct low [] s = tt
Spaced-Distinct low (c ∷ cs) s = (
  Spaced-below (c + chunk_bytes) cs c s.1 (omega arith),
  Spaced-Distinct (c + chunk_bytes) cs s.1,
)

-- The distance between neighbours.
pub Spaced-step :
    (low : ℕ) (xs : Ptrs) (c d : Ptr) (ys : Ptrs)
    → Spaced low (xs ++ c ∷ d ∷ ys)
    → (low ≤ c) × (c + chunk_bytes ≤ d) × (d < 2 ^ 32)
Spaced-step low [] c d ys s = omega (arith, Spaced-le (d + chunk_bytes) ys s.1.1)
Spaced-step low (x ∷ xs) c d ys s = omega (arith, Spaced-step (x + chunk_bytes) xs c d ys s.1)

pub Spaced-insert :
    (low : ℕ) (xs : Ptrs) (c e d : Ptr) (ys : Ptrs)
    → Spaced low (xs ++ c ∷ d ∷ ys)
    → c + chunk_bytes ≤ e
    → e + chunk_bytes ≤ d
    → Spaced low (xs ++ c ∷ e ∷ d ∷ ys) × (member e (xs ++ c ∷ d ∷ ys) ≡ false)
Spaced-insert low [] c e d ys s h k =
    ((s.0, (h, (k, s.1.1))), ground (arith, Spaced-below (d + chunk_bytes) ys e s.1.1))
Spaced-insert low (x ∷ xs) c e d ys s h k =
    let (spaced, out) = Spaced-insert (x + chunk_bytes) xs c e d ys s.1 h k in
    let far = Spaced-step (x + chunk_bytes) xs c d ys s.1 in ((s.0, spaced), ground arith)

Spaced-weaken : (low low' : ℕ) (cs : Ptrs) → low ≤ low' → Spaced low' cs → Spaced low cs
Spaced-weaken low low' [] h s = omega arith
Spaced-weaken low low' (c ∷ cs) h s = (omega arith, s.1)

pub Spaced-remove :
    (low : ℕ) (xs : Ptrs) (c : Ptr) (ys : Ptrs) → Spaced low (xs ++ c ∷ ys) → Spaced low (xs ++ ys)
Spaced-remove low [] c ys s = Spaced-weaken low (c + chunk_bytes) ys (omega arith) s.1
Spaced-remove low (x ∷ xs) c ys s = (s.0, Spaced-remove (x + chunk_bytes) xs c ys s.1)

-- Between neighbours there is no chunk.
pub Spaced-between :
    (low : ℕ) (xs : Ptrs) (c d : Ptr) (ys : Ptrs) (x : Ptr)
    → Spaced low (xs ++ c ∷ d ∷ ys)
    → member x (xs ++ c ∷ d ∷ ys) ≡ true
    → c < x
    → d ≤ x
Spaced-between low [] c d ys x s there h = elim (dec_lt x d) [
  | yes lt ↦ absurd (ground (arith, Spaced-below (d + chunk_bytes) ys x s.1.1))
  | no ge ↦ omega arith
]
Spaced-between low (z ∷ xs) c d ys x s there h =
    let far = Spaced-step (z + chunk_bytes) xs c d ys s.1 in
    Spaced-between (z + chunk_bytes) xs c d ys x s.1 (ground arith) h

-- Neighbours in a ring.
pub IsRing-step :
    (l : Links) (xs : Ptrs) (c d : Ptr) (ys : Ptrs)
    → IsRing l (xs ++ c ∷ d ∷ ys)
    → (l.next c ≡ d) × (l.prev d ≡ c)
IsRing-step l xs c d ys r = let k = IsRing-rotate l xs (c ∷ d ∷ ys) r in (k.0, k.1)

-- The size of a chunk is the room between its header and the next chunk.
pub memory_chunk_size_lem :
    (l : Links) (c d : Ptr)
    → l.next c ≡ d
    → c + chunk_bytes ≤ d
    → d < 2 ^ 32
    → memory_chunk_size l c + header_size + c ≡ d
unfolding memory_chunk_size
memory_chunk_size_lem l c d e h k = rw e (omega arith)

abbrev pub chunks : Kheap → Ptrs → Ptrs
chunks h inner = h.first_chunk ∷ (inner ++ h.last_chunk ∷ [])

-- The heap holds its first chunk, the chunks `inner` and its last chunk; the bins `bs` hold the chunks
-- whose mark in `used` is 0.
pub record IsMarked (h : Kheap) (used : Ptr → ℕ) (inner : Ptrs) (bs : ℕ → Ptrs) : Type 0 where
  pub ring : IsRing h.all (chunks h inner)
  pub spaced : Spaced 1 (chunks h inner)
  pub bins : IsFree h.free h.free_chunk (memory_chunk_size h.all) used (chunks h inner) bs
  pub first_used : used h.first_chunk ≡ 1
  pub last_used : used h.last_chunk ≡ 1

-- Between the calls the marks are those of the chunks.
abbrev pub IsKheap : Kheap → Ptrs → (ℕ → Ptrs) → Type 0
IsKheap h inner bs = IsMarked h h.used inner bs

pub memory_chunk_size_eq :
    (l l' : Links) (c : Ptr) → l'.next c ≡ l.next c → memory_chunk_size l' c ≡ memory_chunk_size l c
unfolding memory_chunk_size
memory_chunk_size_eq l l' c e = rw e refl
