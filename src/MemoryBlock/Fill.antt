-- ===== src/MemoryBlock/Fill.antt =====
-- What `memset` leaves in memory, byte by byte.
use awk.Base.{
  ℕ, zero, suc, ◌+◌, ◌*◌, ◌/◌, ◌%◌, ◌^◌, ◌<◌, ◌≡◌, refl, ◌∙◌, ◌&&◌, arith, Ptr, ltb, leb,
  if◌then◌else◌,
}
use awk.Run.{ok}
use awk.Bytes.{Mem, put}
use awk.MemoryBlock.{stosb, stosl, memset}

-- The memory with `c` in the `n` bytes from `dst` on.
abbrev pub filled : Mem → Ptr → ℕ → ℕ → Mem
filled m dst c n = λ a. if leb dst a && ltb a (dst + n) then c else m a

stosb_lem :
    (count : ℕ) (q : Ptr) (word : ℕ) (m : Mem)
    → (m' : Mem) × (stosb count q word m ≡ ok tt m')
      × ((a : Ptr) → m' a ≡ filled m q (word % 256) count a)
unfolding stosb
stosb_lem zero q word m = (m, refl, λ a. ground arith)
stosb_lem (suc count) q word m =
    let m1 = put m q (word % 256) in
    let (m', run, all) = stosb_lem count (q + 1) word m1 in (m', run, λ a. all a ∙ ground arith)

stosl_lem :
    (count : ℕ) (q : Ptr) (word c : ℕ) (m : Mem)
    → c < 256
    → word ≡ c * 16843009
    → (m' : Mem) × (stosl count q word m ≡ ok tt m')
      × ((a : Ptr) → m' a ≡ filled m q c (4 * count) a)
unfolding stosl
stosl_lem zero q word c m lt all_c = (m, refl, λ a. ground arith)
stosl_lem (suc count) q word c m lt all_c =
    let b0 : word % 256 ≡ c = omega (arith, all_c, lt) in
    let b1 : word / 2 ^ 8 % 256 ≡ c = omega (arith, all_c, lt) in
    let b2 : word / 2 ^ 16 % 256 ≡ c = omega (arith, all_c, lt) in
    let b3 : word / 2 ^ 24 % 256 ≡ c = omega (arith, all_c, lt) in
    let m1 =
      put
        (put (put (put m q (word % 256)) (q + 1) (word / 2 ^ 8 % 256)) (q + 2)
          (word / 2 ^ 16 % 256))
        (q + 3) (word / 2 ^ 24 % 256) in
    let (m', run, all) = stosl_lem count (q + 4) word c m1 lt all_c in
    (m', run, λ a. all a ∙ ground (arith, b0, b1, b2, b3))

-- The words and the bytes that `memset` writes amount to the lowest byte of `c` in the `n` bytes
-- from `dst` on, and every other byte is as before; it returns `dst`.
pub memset_lem :
    (dst : Ptr) (c n : ℕ) (m : Mem)
    → (m' : Mem) × (memset dst c n m ≡ ok dst m') × ((a : Ptr) → m' a ≡ filled m dst (c % 256) n a)
unfolding memset
memset_lem dst c n m =
    let word = c % 256 * 16843009 % 2 ^ 32 in
    let same : word ≡ c % 256 * 16843009 = omega arith in
    let (m1, run1, all1) = stosl_lem (n / 4) dst word (c % 256) m (omega arith) same in
    let (m2, run2, all2) = stosb_lem (n % 4) (dst + 4 * (n / 4)) word m1 in
    let low : word % 256 ≡ c % 256 = omega (arith, same) in
    (m2, rw (run1, run2) refl, λ a. all2 a ∙ ground (arith, all1 a, low))
