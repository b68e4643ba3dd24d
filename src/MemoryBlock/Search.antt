-- ===== src/MemoryBlock/Search.antt =====
-- `memmem` finds the first place at which a block stands in another one.
use awk.Base.{
  ℕ, zero, suc, ◌+◌, ◌-◌, ◌%◌, ◌^◌, ◌<◌, ◌≤◌, ◌≡◌, ◌≢◌, refl, sym, ap, ◌∙◌, inl, inr, ◌⊎◌, ◌&&◌,
  Bool, true, false, arith, Ptr, null, ◌==◌, ltb, if◌then◌else◌, Bool-cases,
}
use awk.Run.{ok}
use awk.Bytes.{Mem}
use awk.MemoryBlock.{memcmp, memchr, memmem_from, memmem}

abbrev pub same_block : Mem → (s1 s2 : Ptr) → ℕ → Bool
same_block mem s1 s2 zero = true
same_block mem s1 s2 (suc n) = (mem s1 == mem s2) && same_block mem (s1 + 1) (s2 + 1) n

-- The first of the `rounds` places from `p` on where the `m` bytes at `x` stand, or `NULL`.
abbrev pub first_match : Mem → (x : Ptr) → (m rounds : ℕ) → (p : Ptr) → Ptr
first_match mem x m zero p = null
first_match mem x m (suc rounds) p =
    let rest = first_match mem x m rounds (p + 1) in if same_block mem x p m then p else rest

-- The places of `m` bytes among `n`.
abbrev pub places : (n m : ℕ) → ℕ
places n m = if ltb n m then 0 else n + 1 - m

module _ (mem : Mem) (bytes : (a : Ptr) → mem a < 256) where
  memcmp_lem :
      (n : ℕ) (s1 s2 : Ptr)
      → (d : ℕ) × (memcmp s1 s2 n mem ≡ ok d mem) × ((d == 0) ≡ same_block mem s1 s2 n)
  unfolding memcmp
  memcmp_lem zero s1 s2 = (0, refl, refl)
  memcmp_lem (suc n) s1 s2 =
      let (d, run, same) = memcmp_lem n (s1 + 1) (s2 + 1) in
      elim (Bool-cases (mem s1 == mem s2)) [
        | inl t ↦ (d, rw t run, rw t same)
        | inr f ↦
            ((mem s1 + 2 ^ 32 - mem s2) % 2 ^ 32, rw f refl, ground (arith, f, bytes s1, bytes s2))
      ]

  memchr_lem : (n : ℕ) (s x : Ptr) → memchr s (mem x) n mem ≡ ok (first_match mem x 1 n s) mem
  unfolding memchr
  memchr_lem zero s x = refl
  memchr_lem (suc n) s x = ground (arith, memchr_lem n (s + 1) x, bytes x)

  module _ (x : Ptr) (m : ℕ) where
    -- A place where the first two bytes do not stand.
    miss :
        (p : Ptr)
        → (mem x ≢ mem p) ⊎ (mem (x + 1) ≢ mem (p + 1))
        → same_block mem x p (suc (suc m)) ≡ false
    miss p other = ground (arith, other)

    miss_one :
        (rounds : ℕ) (p : Ptr)
        → same_block mem x p (suc (suc m)) ≡ false
        → first_match mem x (suc (suc m)) rounds p
          ≡ first_match mem x (suc (suc m)) (rounds - 1) (p + 1)
    miss_one zero p out = refl
    miss_one (suc rounds) p out = let less : suc rounds - 1 ≡ rounds = omega arith in rw (out, less)

    miss_two :
        (rounds : ℕ) (p : Ptr)
        → same_block mem x p (suc (suc m)) ≡ false
        → same_block mem x (p + 1) (suc (suc m)) ≡ false
        → first_match mem x (suc (suc m)) rounds p
          ≡ first_match mem x (suc (suc m)) (rounds - 2) (p + 2)
    miss_two zero p out next = refl
    miss_two (suc rounds) p out next =
        let two : p + 1 + 1 ≡ p + 2 = omega arith in
        let less : suc rounds - 2 ≡ rounds - 1 = omega arith in
        rw (out, less) (rw two at (miss_one rounds (p + 1) next))

    whole_lem :
        (p : Ptr)
        → same_block mem x p (suc (suc m))
          ≡ (mem x == mem p) && ((mem (x + 1) == mem (p + 1)) && same_block mem (x + 2) (p + 2) m)
    whole_lem p =
        let at_x : x + 1 + 1 ≡ x + 2 = omega arith in
        let at_p : p + 1 + 1 ≡ p + 2 = omega arith in rw (at_x, at_p) refl

    -- Steps of `k` and `l` places jump over no place where the block stands.
    record Jumps (k l : ℕ) : Type 0 where
      some_k : 0 < k
      some_l : 0 < l
      skips :
          (r : ℕ) (p : Ptr)
          → mem (x + 1) ≢ mem (p + 1)
          → first_match mem x (suc (suc m)) r p ≡ first_match mem x (suc (suc m)) (r - k) (p + k)
      steps :
          (r : ℕ) (p : Ptr)
          → mem (x + 1) ≡ mem (p + 1)
          → same_block mem x p (suc (suc m)) ≡ false
          → first_match mem x (suc (suc m)) r p ≡ first_match mem x (suc (suc m)) (r - l) (p + l)

    first_here :
        (r : ℕ) (p : Ptr)
        → same_block mem x p (suc (suc m)) ≡ true
        → first_match mem x (suc (suc m)) (suc r) p ≡ p
    first_here r p found = rw found

    memmem_from_lem :
        (fuel : ℕ) (y : Ptr) (n k l j r : ℕ)
        → Jumps k l
        → suc (suc m) ≤ n
        → r ≡ n + 1 - suc (suc m) - j
        → r < fuel
        → memmem_from fuel y n x (suc (suc m)) k l j mem
          ≡ ok (first_match mem x (suc (suc m)) r (y + j)) mem
    unfolding memmem_from
    memmem_from_lem zero y n k l j r jumps room left enough = absurd (omega arith)
    memmem_from_lem (suc fuel) y n k l j zero jumps room left enough =
        let over : ltb (n - suc (suc m)) j ≡ true = ground (arith, left, room) in rw over refl
    memmem_from_lem (suc fuel) y n k l j (suc r) jumps room left enough =
        let over : ltb (n - suc (suc m)) j ≡ false = ground (arith, left, room) in
        let skip =
          memmem_from_lem fuel y n k l (j + k) (suc r - k) jumps room (omega (arith, left))
            (omega (arith, jumps.some_k, enough)) in
        let step =
          memmem_from_lem fuel y n k l (j + l) (suc r - l) jumps room (omega (arith, left))
            (omega (arith, jumps.some_l, enough)) in
        let at_k : y + (j + k) ≡ y + j + k = omega arith in
        let at_l : y + (j + l) ≡ y + j + l = omega arith in
        let (d, run, same) = memcmp_lem m (x + 2) (y + j + 2) in
        let all = whole_lem (y + j) in
        let two_less : suc (suc m) - 2 ≡ m = omega arith in
        elim (Bool-cases (mem (x + 1) == mem (y + j + 1))) [
          | inr f ↦
              let go : memmem_from (suc fuel) y n x (suc (suc m)) k l j mem
                  ≡ memmem_from fuel y n x (suc (suc m)) k l (j + k) mem =
                rw (over, f) refl in
              let jump = jumps.skips (suc r) (y + j) (ground (arith, f)) in
              go ∙ skip ∙ ap (λ q. ok q mem) (rw at_k (sym jump))
          | inl t ↦ elim (Bool-cases (same_block mem x (y + j) (suc (suc m)))) [
            | inl found ↦
                let here : (d == 0) && (mem x == mem (y + j)) ≡ true =
                  rw same (ground (arith, all, found)) in
                let go : memmem_from (suc fuel) y n x (suc (suc m)) k l j mem ≡ ok (y + j) mem =
                  rw (over, t, two_less) (rw run (rw here refl)) in
                go ∙ ap (λ q. ok q mem) (sym (first_here r (y + j) found))
            | inr missed ↦
                let there : (d == 0) && (mem x == mem (y + j)) ≡ false =
                  rw same (ground (arith, all, missed, t)) in
                let go : memmem_from (suc fuel) y n x (suc (suc m)) k l j mem
                    ≡ memmem_from fuel y n x (suc (suc m)) k l (j + l) mem =
                  rw (over, t, two_less) (rw run (rw there refl)) in
                let jump = jumps.steps (suc r) (y + j) (ground (arith, t)) missed in
                go ∙ step ∙ ap (λ q. ok q mem) (rw at_l (sym jump))
          ]
        ]

  -- The step past a second byte that differs is 2 when the block begins with the same byte twice.
  twice-Jumps : (x : Ptr) (m : ℕ) → mem x ≡ mem (x + 1) → Jumps x m 2 1
  twice-Jumps x m same = record {
    some_k = omega arith;
    some_l = omega arith;
    skips = λ r p ne.
        miss_two x m r p (miss x m p (inr ne)) (miss x m (p + 1) (inl (λ e. ne (sym same ∙ e))));
    steps = λ r p e missed. miss_one x m r p missed;
  }

  once-Jumps : (x : Ptr) (m : ℕ) → mem x ≢ mem (x + 1) → Jumps x m 1 2
  once-Jumps x m other = record {
    some_k = omega arith;
    some_l = omega arith;
    skips = λ r p ne. miss_one x m r p (miss x m p (inr ne));
    steps = λ r p e missed.
        miss_two x m r p missed (miss x m (p + 1) (inl (λ same. other (same ∙ sym e))));
  }

  -- With a block of at least one byte to look for and more fuel than there are places for it,
  -- `memmem` returns what trying every place in turn would: the first place at which the block
  -- stands, or `NULL`; memory holds bytes, and does not change.
  pub memmem-first_match :
      (fuel : ℕ) (y : Ptr) (n : ℕ) (x : Ptr) (m : ℕ)
      → places n m < fuel
      → m ≢ 0
      → memmem fuel y n x m mem ≡ ok (first_match mem x m (places n m) y) mem
  unfolding memmem
  memmem-first_match fuel y n x zero enough some = absurd (some refl)
  memmem-first_match fuel y n x (suc zero) enough some = elim (Bool-cases (ltb n 1)) [
    | inl t ↦ rw t refl
    | inr f ↦
        let all : n + 1 - 1 ≡ n = omega arith in
        let more : (n == 0) ≡ false = ground (arith, f) in rw (f, more, all) (memchr_lem n y x)
  ]
  memmem-first_match fuel y n x (suc (suc m)) enough some =
      elim (Bool-cases (ltb n (suc (suc m)))) [
        | inl t ↦ rw t refl
        | inr f ↦
            let start : y + 0 ≡ y = omega arith in
            let room : suc (suc m) ≤ n = ground (arith, f) in
            let less : n + 1 - suc (suc m) < fuel = ground (arith, enough, f) in
            let count : places n (suc (suc m)) ≡ n + 1 - suc (suc m) = rw f refl in
            elim (Bool-cases (mem x == mem (x + 1))) [
              | inl t ↦
                  let go : memmem fuel y n x (suc (suc m)) mem
                      ≡ memmem_from fuel y n x (suc (suc m)) 2 1 0 mem =
                    ground (arith, f, t) in
                  let found =
                    memmem_from_lem x m fuel y n 2 1 0 (n + 1 - suc (suc m))
                      (twice-Jumps x m (ground (arith, t))) room (omega arith) less in
                  go
                  ∙ (rw start at found
                      ∙ ap (λ r. ok (first_match mem x (suc (suc m)) r y) mem) (sym count))
              | inr ne ↦
                  let go : memmem fuel y n x (suc (suc m)) mem
                      ≡ memmem_from fuel y n x (suc (suc m)) 1 2 0 mem =
                    ground (arith, f, ne) in
                  let found =
                    memmem_from_lem x m fuel y n 1 2 0 (n + 1 - suc (suc m))
                      (once-Jumps x m (ground (arith, ne))) room (omega arith) less in
                  go
                  ∙ (rw start at found
                      ∙ ap (λ r. ok (first_match mem x (suc (suc m)) r y) mem) (sym count))
            ]
      ]
