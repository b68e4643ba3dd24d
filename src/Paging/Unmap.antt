-- ===== src/Paging/Unmap.antt =====
-- `kernel_munmap` of memory/paging.c.
use awk.Base.{
  ℕ, zero, suc, ◌+◌, ◌-◌, ◌*◌, ◌/◌, ◌^◌, ◌<◌, ◌≡◌, refl, ap, ◌∙◌, true, false, Option, none, some,
  arith, ◌==◌, ltb, Bool-cases, inl, inr, if◌then◌else◌,
}
use awk.Run.{ok}
use awk.Err.{no_err, memory_not_mapped}
use awk.Paging.{Paging, unmap_page, unmap_pages, kernel_mmap, kernel_munmap, add32, entry_value}
use awk.Paging.View.{view, unmap_page-view, unmap_page-absent}
use awk.Paging.Map.{within, mapped, page_count, kernel_mmap-maps}

-- The view where the pages from `v` on are not mapped.
abbrev pub unmapped : (ℕ → Option ℕ) → (v n : ℕ) → ℕ → Option ℕ
unmapped f v n j = if within v n j then none else f j

next_page : (v : ℕ) → suc v < 2 ^ 20 → add32 (4096 * v) 4096 ≡ 4096 * suc v
next_page v h = omega arith

-- The first `n` rounds, when every one finds its page.
unmap_pages-prefix :
    (n rounds fuel v end : ℕ) (s : Paging)
    → rounds ≡ n + fuel
    → v + n < 2 ^ 20
    → 4096 * (v + n) < end + 4096
    → ((j : ℕ) → within v n j ≡ true → (x : ℕ) × (view s j ≡ some x))
    → (s' : Paging) × (unmap_pages rounds (4096 * v) end s
        ≡ unmap_pages fuel (4096 * (v + n)) end s')
      × ((j : ℕ) → view s' j ≡ unmapped (view s) v n j)
unfolding unmap_pages
unmap_pages-prefix zero rounds fuel v end s e hv he there =
    let e0 : rounds ≡ fuel = omega arith in
    let ev : v + 0 ≡ v = omega arith in (s, rw (e0, ev) refl, λ j. ground arith)
unmap_pages-prefix (suc n) zero fuel v end s e hv he there = absurd (omega arith)
unmap_pages-prefix (suc n) (suc rounds) fuel v end s e hv he there =
    let (x, at_v) = there v (ground arith) in
    let (s1, run, same) = unmap_page-view s v x at_v in
    let (s2, rest, same2) =
      unmap_pages-prefix n rounds fuel (suc v) end s1 (omega arith) (omega arith) (omega arith)
        (λ j inside.
          let (y, at_j) = there j (in_later j inside) in (y, same j ∙ later j inside at_j)) in
    let test : ltb (4096 * v) end ≡ true = ground arith in
    let ev : suc v + n ≡ v + suc n = omega arith in
    (s2, rw (test, run, next_page v (omega arith)) (rw ev at rest), λ j. same2 j ∙ both j (same j))
  where
    in_later : (j : ℕ) → within (suc v) n j ≡ true → within v (suc n) j ≡ true
    in_later j inside = ground arith

    later :
        (j : ℕ) {o : Option ℕ}
        → within (suc v) n j ≡ true
        → view s j ≡ o
        → (if j == v then none else view s j) ≡ o
    later j inside at_j = ground arith

    both :
        {o : Option ℕ} (j : ℕ)
        → o ≡ (if j == v then none else view s j)
        → (if within (suc v) n j then none else o) ≡ unmapped (view s) v (suc n) j
    both j e' = ground arith

unmap_pages-end :
    (fuel virt end : ℕ) (s : Paging)
    → ltb virt end ≡ false
    → unmap_pages (suc fuel) virt end s ≡ ok no_err s
unfolding unmap_pages
unmap_pages-end fuel virt end s e = rw e refl

unmap_pages-stop :
    (fuel virt end : ℕ) (s : Paging)
    → ltb virt end ≡ true
    → unmap_page virt s ≡ ok false s
    → unmap_pages (suc fuel) virt end s ≡ ok memory_not_mapped s
unfolding unmap_pages
unmap_pages-stop fuel virt end s e stop = rw (e, stop) refl

kernel_munmap-unmap_pages :
    (fuel virt size : ℕ) (s : Paging)
    → virt + size < 2 ^ 32
    → kernel_munmap fuel virt size s ≡ unmap_pages fuel (4096 * (virt / 4096)) (virt + size) s
unfolding kernel_munmap
kernel_munmap-unmap_pages fuel virt size s h =
    let ev : virt / 2 ^ 12 * 2 ^ 12 ≡ 4096 * (virt / 4096) = omega arith in
    let ee : add32 virt size ≡ virt + size = omega arith in
    ap (λ a. unmap_pages fuel a (add32 virt size) s) ev
    ∙ ap (λ a. unmap_pages fuel (4096 * (virt / 4096)) a s) ee

-- When every page of a range is mapped, `kernel_munmap` returns OS_NO_ERR and none of them is mapped any
-- more; the other pages are as they were.
pub kernel_munmap-unmaps :
    (fuel virt_addr size : ℕ) (s : Paging)
    → virt_addr + size + 4095 < 2 ^ 32
    → page_count virt_addr size < fuel
    → ((j : ℕ)
        → within (virt_addr / 4096) (page_count virt_addr size) j ≡ true
        → (x : ℕ) × (view s j ≡ some x))
    → (s' : Paging) × (kernel_munmap fuel virt_addr size s ≡ ok no_err s')
      × ((j : ℕ) → view s' j ≡ unmapped (view s) (virt_addr / 4096) (page_count virt_addr size) j)
kernel_munmap-unmaps fuel virt_addr size s hv hf there =
    let n = page_count virt_addr size in
    let v = virt_addr / 4096 in
    let start = kernel_munmap-unmap_pages fuel virt_addr size s (omega arith) in
    let (s', run, same) =
      unmap_pages-prefix n fuel (suc (fuel - n - 1)) v (virt_addr + size) s (omega arith)
        (omega arith) (omega arith) there in
    let test : ltb (4096 * (v + n)) (virt_addr + size) ≡ false = ground arith in
    (
      s',
      start ∙ run ∙ unmap_pages-end (fuel - n - 1) (4096 * (v + n)) (virt_addr + size) s' test,
      same,
    )

-- If the first page of a range that is not mapped is number `m` of its pages, `kernel_munmap`
-- returns OS_ERR_MEMORY_NOT_MAPPED, given more fuel than there are pages and a range that ends more
-- than a page below 2^32; the `m` pages before it are not mapped any more, and every other page is
-- as it was.
pub kernel_munmap-absent :
    (fuel virt_addr size m : ℕ) (s : Paging)
    → virt_addr + size + 4095 < 2 ^ 32
    → page_count virt_addr size < fuel
    → m < page_count virt_addr size
    → ((j : ℕ) → within (virt_addr / 4096) m j ≡ true → (x : ℕ) × (view s j ≡ some x))
    → view s (virt_addr / 4096 + m) ≡ none
    → (s' : Paging) × (kernel_munmap fuel virt_addr size s ≡ ok memory_not_mapped s')
      × ((j : ℕ) → view s' j ≡ unmapped (view s) (virt_addr / 4096) m j)
kernel_munmap-absent fuel virt_addr size m s hv hf hm there missing =
    let n = page_count virt_addr size in
    let v = virt_addr / 4096 in
    let start = kernel_munmap-unmap_pages fuel virt_addr size s (omega arith) in
    let (s', run, same) =
      unmap_pages-prefix m fuel (suc (fuel - m - 1)) v (virt_addr + size) s (omega arith)
        (omega arith) (omega arith) there in
    let test : ltb (4096 * (v + m)) (virt_addr + size) ≡ true = ground arith in
    let gone : view s' (v + m) ≡ none = same (v + m) ∙ ground arith in
    (
      s',
      start
          ∙ run
          ∙ unmap_pages-stop (fuel - m - 1) (4096 * (v + m)) (virt_addr + size) s' test
              (unmap_page-absent s' (v + m) gone),
      same,
    )

-- If the pages of a range, which ends more than a page below 2^32 as the frames do, are not mapped,
-- then `kernel_mmap` and after it `kernel_munmap` of the range both return OS_NO_ERR, given more
-- fuel than there are pages, and every page has the entry that it had at first, or none as then.
pub kernel_munmap-mmap :
    (fuel virt_addr phys_addr size flags allow_remap : ℕ) (s : Paging)
    → virt_addr + size + 4095 < 2 ^ 32
    → phys_addr / 4096 + page_count virt_addr size < 2 ^ 20
    → page_count virt_addr size < fuel
    → ((j : ℕ) → within (virt_addr / 4096) (page_count virt_addr size) j ≡ true → view s j ≡ none)
    → (s1 s2 : Paging) × (kernel_mmap fuel virt_addr phys_addr size flags allow_remap s
        ≡ ok no_err s1)
      × (kernel_munmap fuel virt_addr size s1 ≡ ok no_err s2)
      × ((j : ℕ) → view s2 j ≡ view s j)
kernel_munmap-mmap fuel virt_addr phys_addr size flags allow_remap s hv hp hf free =
    let n = page_count virt_addr size in
    let v = virt_addr / 4096 in
    let (s1, run, same) =
      kernel_mmap-maps fuel virt_addr phys_addr size flags allow_remap s hv hp hf
        (λ j inside. inl (free j inside)) in
    let (s2, run2, same2) = kernel_munmap-unmaps fuel virt_addr size s1 hv hf (λ j inside.
      (entry_value (4096 * (phys_addr / 4096 + (j - v))) flags, same j ∙ rw inside refl)) in
    (s1, s2, run, run2, λ j. same2 j ∙ restored j (same j) (free j))
  where
    restored :
        {o : Option ℕ} (j : ℕ)
        → o
          ≡ mapped
              (view s)
              (virt_addr / 4096)
              (page_count virt_addr size)
              (phys_addr / 4096)
              flags
              j
        → (within (virt_addr / 4096) (page_count virt_addr size) j ≡ true → view s j ≡ none)
        → (if within (virt_addr / 4096) (page_count virt_addr size) j then none else o) ≡ view s j
    restored j e f = elim (Bool-cases (within (virt_addr / 4096) (page_count virt_addr size) j)) [
      | inl inside ↦ ground (arith, f inside)
      | inr outside ↦ ground arith
    ]
