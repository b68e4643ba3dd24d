-- ===== src/Allocator/Slot.antt =====
-- The bin of a size, `memory_chunk_slot` of memory/heap.c.
use awk.Base.{
  ℕ, zero, suc, ◌+◌, ◌-◌, ◌*◌, ◌/◌, ◌^◌, ◌≤◌, ◌<◌, ◌≡◌, refl, ◌⊎◌, inl, inr, ◌∙◌, arith, ltb,
  Bool-cases,
}
use native.Mathlib.Nat.{zero-add}
use awk.Allocator.{slot_from, memory_chunk_slot, add32}

pub pow_suc : (k : ℕ) → 2 ^ suc k ≡ 2 * 2 ^ k
pow_suc k = omega arith

pub pow_mono : (j k : ℕ) → j ≤ k → 2 ^ j ≤ 2 ^ k
pow_mono zero zero h = omega arith
pow_mono zero (suc k) h = omega (arith, pow_suc k, pow_mono zero k (omega arith))
pow_mono (suc j) zero h = absurd (omega arith)
pow_mono (suc j) (suc k) h = omega (arith, pow_suc j, pow_suc k, pow_mono j k (omega arith))

-- After `k` rounds `size` is 0.
abbrev Rounds : ℕ → ℕ → Type 0
Rounds size k = ((size ≡ 0) × (k ≡ 0)) ⊎ ((0 < k) × (2 ^ k ≤ 2 * size) × (size < 2 ^ k))

Rounds-halve : (size k : ℕ) → 0 < size → Rounds (size / 2) k → Rounds size (suc k)
Rounds-halve size k pos (inl (e, f)) = inr (rw f (omega arith))
Rounds-halve size k pos (inr (p, low, high)) =
    inr (omega arith, omega (arith, pow_suc k), omega (arith, pow_suc k))

slot_from_lem :
    (rounds n size : ℕ)
    → size < 2 ^ rounds
    → n + rounds < 2 ^ 32
    → (k : ℕ) × (slot_from rounds n size ≡ n + k) × (k ≤ rounds) × Rounds size k
unfolding slot_from
slot_from_lem zero n size h b = (0, omega arith, omega arith, inl (omega arith, refl))
slot_from_lem (suc rounds) n size h b = elim (Bool-cases (ltb 0 size)) [
  | inl more ↦
      let (k, run, le, half) =
        slot_from_lem rounds (add32 n 1) (size / 2) (omega (arith, pow_suc rounds)) (omega arith) in
      (suc k, rw more (omega arith), omega arith, Rounds-halve size k (ground arith) half)
  | inr done ↦ (0, rw done (omega arith), omega arith, inl (ground arith, refl))
]

Rounds-bounds : (size k : ℕ) → 0 < size → Rounds (size / 2) k → (2 ^ k ≤ size) × (size < 2 ^ suc k)
Rounds-bounds size k pos (inl (e, f)) = rw f (omega arith)
Rounds-bounds size k pos (inr (p, low, high)) = (omega arith, omega (arith, pow_suc k))

slot_from-first :
    (rounds size : ℕ)
    → 0 < size
    → slot_from (suc rounds) (2 ^ 32 - 1) size ≡ slot_from rounds 0 (size / 2)
unfolding slot_from
slot_from-first rounds size pos = ground arith

-- For a size other than 0 that fits in 32 bits the loop of `memory_chunk_slot` ends within its 32
-- rounds, and its result is below 32 and is the number of the highest bit of the size.
pub memory_chunk_slot_bounds :
    (size : ℕ)
    → 0 < size
    → size < 2 ^ 32
    → (memory_chunk_slot size < 32)
      × (2 ^ memory_chunk_slot size ≤ size)
      × (size < 2 ^ suc (memory_chunk_slot size))
unfolding memory_chunk_slot
memory_chunk_slot_bounds size pos h =
    let (k, run, le, half) = slot_from_lem 31 0 (size / 2) (omega arith) (omega arith) in
    let (low, high) = Rounds-bounds size k pos half in
    let e : memory_chunk_slot size ≡ k = slot_from-first 31 size pos ∙ run ∙ zero-add k in
    rw e (omega arith, low, high)
