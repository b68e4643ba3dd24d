-- ===== src/Allocator/Find.antt =====
-- Which bin `kmalloc` of memory/heap.c takes a chunk from, and for how many bytes.
use native.Mathlib.Decide.{dec_lt}
use awk.Base.{
  ℕ, zero, suc, ◌+◌, ◌-◌, ◌*◌, ◌^◌, ◌%◌, ◌≤◌, ◌<◌, ◌≡◌, refl, ◌⊎◌, inl, inr, true, false, none,
  some, Ptr, null, arith, ◌==◌, Bool-cases,
}
use awk.Allocator.{find_bin, wanted, memory_chunk_slot}
use awk.Allocator.Slot.{pow_suc, pow_mono, memory_chunk_slot_bounds}

-- The bin found is the first one that is not empty.
pub find_bin_lem :
    (left n : ℕ) (heads : ℕ → Ptr)
    → ((find_bin left n heads ≡ none) × ((k : ℕ) → n ≤ k → k < n + left → heads k ≡ null))
      ⊎ ((m : ℕ) × (find_bin left n heads ≡ some m)
          × (n ≤ m)
          × (m < n + left)
          × ((heads m == null) ≡ false))
unfolding find_bin
find_bin_lem zero n heads = inl (refl, λ k low high. absurd (omega arith))
find_bin_lem (suc left) n heads = elim (Bool-cases (heads n == null)) [
  | inl empty ↦ rw empty (later (find_bin_lem left (n + 1) heads) empty)
  | inr full ↦ rw full (inr (n, refl, omega arith, omega arith, full))
]
  where
    later :
        ((find_bin left (n + 1) heads ≡ none)
            × ((k : ℕ) → n + 1 ≤ k → k < n + 1 + left → heads k ≡ null))
          ⊎ ((m : ℕ) × (find_bin left (n + 1) heads ≡ some m)
              × (n + 1 ≤ m)
              × (m < n + 1 + left)
              × ((heads m == null) ≡ false))
        → (heads n == null) ≡ true
        → ((find_bin left (n + 1) heads ≡ none)
            × ((k : ℕ) → n ≤ k → k < n + suc left → heads k ≡ null))
          ⊎ ((m : ℕ) × (find_bin left (n + 1) heads ≡ some m)
              × (n ≤ m)
              × (m < n + suc left)
              × ((heads m == null) ≡ false))
    later (inl (e, all)) empty = inl (
      e,
      λ k low high. elim (Bool-cases (k == n)) [
        | inl same ↦ ground arith
        | inr other ↦ all k (ground arith) (omega arith)
      ],
    )
    later (inr (m, e, low, high, full)) empty = inr (m, e, omega arith, omega arith, full)

-- What is taken is enough, a multiple of 4, and at least the links of a free chunk.
pub wanted_bounds :
    (size : ℕ)
    → size + 3 < 2 ^ 32
    → (size ≤ wanted size)
      × (8 ≤ wanted size)
      × (wanted size < 2 ^ 32)
      × (wanted size % 4 ≡ 0)
      × (wanted size < size + 9)
unfolding wanted
wanted_bounds size h = ground arith

-- `kmalloc` rounds a size of 32 bits up to a multiple of 4 that is at least 8 and less than 9 above
-- it; or the size is one of the last three numbers of 32 bits, the rounding wraps, and 8 bytes are
-- wanted.
pub wanted_cases :
    (size : ℕ)
    → size < 2 ^ 32
    → ((size ≤ wanted size) × (8 ≤ wanted size) × (wanted size < size + 9) × (wanted size % 4 ≡ 0))
      ⊎ ((2 ^ 32 ≤ size + 3) × (wanted size ≡ 8))
unfolding wanted
wanted_cases size h = elim (dec_lt (size + 3) (2 ^ 32)) [
  | yes lt ↦ let (a, b, c, d, e) = wanted_bounds size lt in inl (a, b, e, d)
  | no ge ↦ inr (omega arith, ground arith)
]

-- The first bin that is searched.
abbrev pub start : ℕ → ℕ
start w = memory_chunk_slot (w - 1) + 1

-- A chunk of that bin, or of a later one, has the size that is wanted.
pub start_fits :
    (w size m : ℕ)
    → 8 ≤ w
    → w < 2 ^ 32
    → 0 < size
    → size < 2 ^ 32
    → start w ≤ m
    → memory_chunk_slot size ≡ m
    → w ≤ size
start_fits w size m least b pos b' le e =
    let (x, low, high) = memory_chunk_slot_bounds (w - 1) (omega arith) (omega arith) in
    let (y, low', high') = memory_chunk_slot_bounds size pos b' in
    let mono = pow_mono (suc (memory_chunk_slot (w - 1))) (memory_chunk_slot size) (omega arith) in
    omega arith

-- A chunk of an earlier bin has less than twice that size.
pub start_misses :
    (w size : ℕ)
    → 8 ≤ w
    → w < 2 ^ 32
    → 0 < size
    → size < 2 ^ 32
    → memory_chunk_slot size < start w
    → size < 2 * w
start_misses w size least b pos b' lt =
    let (x, low, high) = memory_chunk_slot_bounds (w - 1) (omega arith) (omega arith) in
    let (y, low', high') = memory_chunk_slot_bounds size pos b' in
    let mono =
      pow_mono (suc (memory_chunk_slot size)) (suc (memory_chunk_slot (w - 1))) (omega arith) in
    omega (arith, pow_suc (memory_chunk_slot (w - 1)))

-- If that bin is one of the 32, the size is at most 2 ^ 31.
pub start_small : (w : ℕ) → 8 ≤ w → w < 2 ^ 32 → start w < 32 → w ≤ 2 ^ 31
start_small w least b lt =
    let (x, low, high) = memory_chunk_slot_bounds (w - 1) (omega arith) (omega arith) in
    let mono = pow_mono (suc (memory_chunk_slot (w - 1))) 31 (omega arith) in omega arith
