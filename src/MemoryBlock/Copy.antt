-- ===== src/MemoryBlock/Copy.antt =====
-- What `memcpy` and `memmove` leave in memory, byte by byte.
use awk.Base.{
  ℕ, zero, suc, ◌+◌, ◌-◌, ◌*◌, ◌/◌, ◌%◌, ◌<◌, ◌≤◌, ◌≡◌, refl, ◌∙◌, ◌⊎◌, inl, inr, ◌&&◌, arith, Ptr,
  ◌==◌, ltb, leb, if◌then◌else◌, Bool-cases,
}
use awk.Run.{ok}
use awk.Bytes.{Mem, put}
use awk.MemoryBlock.{movsb, movsl, movsb_down, memcpy, memmove}

-- The memory with the `n` bytes from `dst` on as they were from `src` on.
abbrev pub copied : Mem → (dst src : Ptr) → ℕ → Mem
copied m dst src n = λ a. if leb dst a && ltb a (dst + n) then m (src + (a - dst)) else m a

copied_up :
    (m : Mem) (p q : Ptr) (count : ℕ) (a : Ptr)
    → m p < 256
    → (q < p) ⊎ (p + suc count ≤ q)
    → copied (put m q (m p % 256)) (q + 1) (p + 1) count a ≡ copied m q p (suc count) a
copied_up m p q count a byte before = elim (Bool-cases (leb (q + 1) a && ltb a (q + 1 + count))) [
  | inl t ↦
      let same : p + 1 + (a - (q + 1)) ≡ p + (a - q) = ground (arith, t) in
      rw same (ground (arith, t, before))
  | inr f ↦ elim (Bool-cases (a == q)) [
    | inl e ↦ let here : p + (a - q) ≡ p = ground (arith, e) in rw here (ground (arith, f, e, byte))
    | inr ne ↦ ground (arith, f, ne)
  ]
]

movsb_lem :
    (count : ℕ) (p q : Ptr) (m : Mem)
    → ((a : Ptr) → m a < 256)
    → (q < p) ⊎ (p + count ≤ q)
    → (m' : Mem) × (movsb count p q m ≡ ok tt m') × ((a : Ptr) → m' a ≡ copied m q p count a)
unfolding movsb
movsb_lem zero p q m bytes before = (m, refl, λ a. ground arith)
movsb_lem (suc count) p q m bytes before =
    let m1 = put m q (m p % 256) in
    let (m', run, all) =
      movsb_lem count (p + 1) (q + 1) m1 (λ a. ground (arith, bytes a)) (ground (arith, before)) in
    (m', run, λ a. all a ∙ copied_up m p q count a (bytes p) before)

copied_down :
    (m : Mem) (p q : Ptr) (count : ℕ) (a : Ptr)
    → m (p + count) < 256
    → p ≤ q
    → copied (put m (q + count) (m (p + count) % 256)) q p count a ≡ copied m q p (suc count) a
copied_down m p q count a byte before = elim (Bool-cases (leb q a && ltb a (q + count))) [
  | inl t ↦ ground (arith, t, before)
  | inr f ↦ elim (Bool-cases (a == q + count)) [
    | inl e ↦
        let here : p + (a - q) ≡ p + count = ground (arith, e) in
        rw here (ground (arith, f, e, byte))
    | inr ne ↦ ground (arith, f, ne)
  ]
]

movsb_down_lem :
    (count : ℕ) (p q : Ptr) (m : Mem)
    → ((a : Ptr) → m a < 256)
    → p ≤ q
    → (m' : Mem) × (movsb_down count (p + count - 1) (q + count - 1) m ≡ ok tt m')
      × ((a : Ptr) → m' a ≡ copied m q p count a)
unfolding movsb_down
movsb_down_lem zero p q m bytes before = (m, refl, λ a. ground arith)
movsb_down_lem (suc count) p q m bytes before =
    let m1 = put m (q + count) (m (p + count) % 256) in
    let from : p + suc count - 1 ≡ p + count = omega arith in
    let to : q + suc count - 1 ≡ q + count = omega arith in
    let (m', run, all) = movsb_down_lem count p q m1 (λ a. ground (arith, bytes a)) before in
    (m', rw (from, to) run, λ a. all a ∙ copied_down m p q count a (bytes (p + count)) before)

-- However the two blocks overlap, `memmove` returns `dst`, and then the bytes from `dst` on are
-- those that were from `src` on, and every other byte is as before; memory holds bytes.
pub memmove_lem :
    (dst src : Ptr) (n : ℕ) (m : Mem)
    → ((a : Ptr) → m a < 256)
    → (m' : Mem) × (memmove dst src n m ≡ ok dst m') × ((a : Ptr) → m' a ≡ copied m dst src n a)
unfolding memmove
memmove_lem dst src n m bytes = elim (Bool-cases (ltb dst src)) [
  | inl t ↦
      let (m', run, all) = movsb_lem n src dst m bytes (inl (ground (arith, t))) in
      (m', rw (t, run) refl, all)
  | inr f ↦
      let (m', run, all) = movsb_down_lem n src dst m bytes (ground (arith, f)) in
      (m', rw (f, run) refl, all)
]

-- The two blocks have no byte in common.
abbrev pub Disjoint : Ptr → Ptr → ℕ → Type 0
Disjoint p q n = (p + n ≤ q) ⊎ (q + n ≤ p)

-- Copying a block and then the one after it.
copied-copied :
    (m m1 : Mem) (p q : Ptr) (n k : ℕ) (a : Ptr)
    → Disjoint p q (n + k)
    → ((b : Ptr) → m1 b ≡ copied m q p n b)
    → copied m1 (q + n) (p + n) k a ≡ copied m q p (n + k) a
copied-copied m m1 p q n k a apart all = elim (Bool-cases (leb (q + n) a && ltb a (q + n + k))) [
  | inl t ↦
      let same : p + n + (a - (q + n)) ≡ p + (a - q) = ground (arith, t) in
      rw same (ground (arith, all (p + (a - q)), t, apart))
  | inr f ↦ ground (arith, f, all a)
]

word_copied :
    (m : Mem) (p q : Ptr)
    → ((a : Ptr) → m a < 256)
    → (b : Ptr)
    → put
        (put (put (put m q (m p % 256)) (q + 1) (m (p + 1) % 256)) (q + 2) (m (p + 2) % 256))
        (q + 3)
        (m (p + 3) % 256)
        b
      ≡ copied m q p 4 b
word_copied m p q bytes b = elim (Bool-cases (leb q b && ltb b (q + 4))) [
  | inr f ↦ ground (arith, f)
  | inl t ↦ elim (Bool-cases (b == q)) [
    | inl e ↦ let at : p + (b - q) ≡ p = ground (arith, e) in rw at (ground (arith, t, e, bytes p))
    | inr e0 ↦ elim (Bool-cases (b == q + 1)) [
      | inl e ↦
          let at : p + (b - q) ≡ p + 1 = ground (arith, e) in
          rw at (ground (arith, t, e, bytes (p + 1)))
      | inr e1 ↦ elim (Bool-cases (b == q + 2)) [
        | inl e ↦
            let at : p + (b - q) ≡ p + 2 = ground (arith, e) in
            rw at (ground (arith, t, e, bytes (p + 2)))
        | inr e2 ↦
            let at : p + (b - q) ≡ p + 3 = ground (arith, t, e0, e1, e2) in
            rw at (ground (arith, t, e0, e1, e2, bytes (p + 3)))
      ]
    ]
  ]
]

movsl_lem :
    (count : ℕ) (p q : Ptr) (m : Mem)
    → ((a : Ptr) → m a < 256)
    → Disjoint p q (4 * count)
    → (m' : Mem) × (movsl count p q m ≡ ok tt m') × ((a : Ptr) → m' a ≡ copied m q p (4 * count) a)
unfolding movsl
movsl_lem zero p q m bytes apart = (m, refl, λ a. ground arith)
movsl_lem (suc count) p q m bytes apart =
    let m1 =
      put (put (put (put m q (m p % 256)) (q + 1) (m (p + 1) % 256)) (q + 2) (m (p + 2) % 256))
        (q + 3) (m (p + 3) % 256) in
    let (m', run, all) =
      movsl_lem count (p + 4) (q + 4) m1 (λ a. ground (arith, bytes a)) (ground (arith, apart)) in
    let more : 4 * suc count ≡ 4 + 4 * count = omega arith in
    (
      m',
      run,
      λ a.
          all a
          ∙ rw more
              (copied-copied m m1 p q 4 (4 * count) a (rw more at apart) (word_copied m p q bytes)),
    )

-- If the two blocks have no byte in common, `memcpy`, which copies words and then bytes, returns
-- `dst`, and then the bytes from `dst` on are those from `src` on, and every other byte is as
-- before; memory holds bytes.
memcpy_lem :
    (dst src : Ptr) (n : ℕ) (m : Mem)
    → ((a : Ptr) → m a < 256)
    → Disjoint src dst n
    → (m' : Mem) × (memcpy dst src n m ≡ ok dst m') × ((a : Ptr) → m' a ≡ copied m dst src n a)
unfolding memcpy
memcpy_lem dst src n m bytes apart =
    let words = 4 * (n / 4) in
    let whole : words + n % 4 ≡ n = omega arith in
    let (m1, run1, all1) = movsl_lem (n / 4) src dst m bytes (ground (arith, apart, whole)) in
    let (m2, run2, all2) =
      movsb_lem (n % 4) (src + words) (dst + words) m1
        (λ a. ground (arith, all1 a, bytes a, bytes (src + (a - dst))))
        (ground (arith, apart, whole)) in
    (
      m2,
      rw (run1, run2) refl,
      λ a.
          all2 a
          ∙ (copied-copied m m1 src dst words (n % 4) a (rw whole apart) all1 ∙ rw whole refl),
    )
