-- ===== src/Paging/Map.antt =====
-- `kernel_mmap` of memory/paging.c.
use awk.Base.{
  ℕ, zero, suc, ◌+◌, ◌-◌, ◌*◌, ◌/◌, ◌^◌, ◌≤◌, ◌<◌, ◌≡◌, ◌⊎◌, refl, ap, ◌∙◌, Bool, true, false, ◌&&◌,
  Option, none, some, arith, ◌==◌, ltb, leb, inl, if◌then◌else◌,
}
use awk.Run.{ok}
use awk.Err.{no_err, mapping_already_exists}
use awk.Paging.{Paging, entry_value, map_page, map_pages, kernel_mmap, add32}
use awk.Paging.View.{view, map_page-view, map_page-taken}

-- Whether `j` is one of the `n` pages from `v` on.
abbrev pub within : (v n j : ℕ) → Bool
within v n j = leb v j && ltb j (v + n)

-- The view where the pages from `v` on stand for the frames from `p` on.
abbrev pub mapped : (ℕ → Option ℕ) → (v n p flags : ℕ) → ℕ → Option ℕ
mapped f v n p flags j =
    if within v n j then some (entry_value (4096 * (p + (j - v))) flags) else f j

-- The pages that an address range touches.
abbrev pub page_count : (virt_addr size : ℕ) → ℕ
page_count virt_addr size = (virt_addr + size + 4095) / 4096 - virt_addr / 4096

next_page : (v : ℕ) → suc v < 2 ^ 20 → add32 (4096 * v) 4096 ≡ 4096 * suc v
next_page v h = omega arith

-- The first `n` rounds, when none of them is stopped.
map_pages-prefix :
    (n rounds fuel v p end flags allow_remap : ℕ) (s : Paging)
    → rounds ≡ n + fuel
    → v + n < 2 ^ 20
    → p + n < 2 ^ 20
    → 4096 * (v + n) < end + 4096
    → ((j : ℕ) → within v n j ≡ true → (view s j ≡ none) ⊎ ((allow_remap == 0) ≡ false))
    → (s' : Paging) × (map_pages rounds (4096 * v) (4096 * p) end flags allow_remap s
        ≡ map_pages fuel (4096 * (v + n)) (4096 * (p + n)) end flags allow_remap s')
      × ((j : ℕ) → view s' j ≡ mapped (view s) v n p flags j)
unfolding map_pages
map_pages-prefix zero rounds fuel v p end flags allow_remap s e hv hp he free =
    let e0 : rounds ≡ fuel = omega arith in
    let ev : v + 0 ≡ v = omega arith in
    let ep : p + 0 ≡ p = omega arith in (s, rw (e0, ev, ep) refl, λ j. ground arith)
map_pages-prefix (suc n) zero fuel v p end flags allow_remap s e hv hp he free =
    absurd (omega arith)
map_pages-prefix (suc n) (suc rounds) fuel v p end flags allow_remap s e hv hp he free =
    let (s1, run, same) = map_page-view s v (4096 * p) flags allow_remap (free v (ground arith)) in
    let (s2, rest, same2) =
      map_pages-prefix n rounds fuel (suc v) (suc p) end flags allow_remap s1 (omega arith)
        (omega arith) (omega arith) (omega arith) (λ j inside. later j (same j) (free j) inside) in
    let test : ltb (4096 * v) end ≡ true = ground arith in
    let ev : suc v + n ≡ v + suc n = omega arith in
    let ep : suc p + n ≡ p + suc n = omega arith in
    (
      s2,
      rw (test, run, next_page v (omega arith), next_page p (omega arith)) (rw (ev, ep) at rest),
      λ j. same2 j ∙ both j (same j),
    )
  where
    later :
        {o : Option ℕ} (j : ℕ)
        → o ≡ (if j == v then some (entry_value (4096 * p) flags) else view s j)
        → (within v (suc n) j ≡ true → (view s j ≡ none) ⊎ ((allow_remap == 0) ≡ false))
        → within (suc v) n j ≡ true
        → (o ≡ none) ⊎ ((allow_remap == 0) ≡ false)
    later j e' f inside = ground (arith, f (ground arith))

    both :
        {o : Option ℕ} (j : ℕ)
        → o ≡ (if j == v then some (entry_value (4096 * p) flags) else view s j)
        → (if within (suc v) n j
            then some (entry_value (4096 * (suc p + (j - suc v))) flags)
            else o)
          ≡ mapped (view s) v (suc n) p flags j
    both j e' = ground arith

map_pages-end :
    (fuel virt phys end flags allow_remap : ℕ) (s : Paging)
    → ltb virt end ≡ false
    → map_pages (suc fuel) virt phys end flags allow_remap s ≡ ok no_err s
unfolding map_pages
map_pages-end fuel virt phys end flags allow_remap s e = rw e refl

map_pages-stop :
    (fuel virt phys end flags allow_remap : ℕ) (s : Paging)
    → ltb virt end ≡ true
    → map_page virt phys flags allow_remap s ≡ ok false s
    → map_pages (suc fuel) virt phys end flags allow_remap s ≡ ok mapping_already_exists s
unfolding map_pages
map_pages-stop fuel virt phys end flags allow_remap s e stop = rw (e, stop) refl

kernel_mmap-map_pages :
    (fuel virt phys size flags allow_remap : ℕ) (s : Paging)
    → virt + size < 2 ^ 32
    → kernel_mmap fuel virt phys size flags allow_remap s
      ≡ map_pages fuel
          (4096 * (virt / 4096))
          (4096 * (phys / 4096))
          (virt + size)
          flags
          allow_remap
          s
unfolding kernel_mmap
kernel_mmap-map_pages fuel virt phys size flags allow_remap s h =
    let ev : virt / 2 ^ 12 * 2 ^ 12 ≡ 4096 * (virt / 4096) = omega arith in
    let ep : phys / 2 ^ 12 * 2 ^ 12 ≡ 4096 * (phys / 4096) = omega arith in
    let ee : add32 virt size ≡ virt + size = omega arith in
    ap (λ a. map_pages fuel a (phys / 2 ^ 12 * 2 ^ 12) (add32 virt size) flags allow_remap s) ev
    ∙ ap (λ a. map_pages fuel (4096 * (virt / 4096)) a (add32 virt size) flags allow_remap s) ep
    ∙ ap (λ a. map_pages fuel (4096 * (virt / 4096)) (4096 * (phys / 4096)) a flags allow_remap s)
        ee

pub kernel_mmap-maps :
    (fuel virt_addr phys_addr size flags allow_remap : ℕ) (s : Paging)
    → virt_addr + size + 4095 < 2 ^ 32
    → phys_addr / 4096 + page_count virt_addr size < 2 ^ 20
    → page_count virt_addr size < fuel
    → ((j : ℕ)
        → within (virt_addr / 4096) (page_count virt_addr size) j ≡ true
        → (view s j ≡ none) ⊎ ((allow_remap == 0) ≡ false))
    → (s' : Paging) × (kernel_mmap fuel virt_addr phys_addr size flags allow_remap s ≡ ok no_err s')
      × ((j : ℕ)
          → view s' j
            ≡ mapped
                (view s)
                (virt_addr / 4096)
                (page_count virt_addr size)
                (phys_addr / 4096)
                flags
                j)
kernel_mmap-maps fuel virt_addr phys_addr size flags allow_remap s hv hp hf free =
    let n = page_count virt_addr size in
    let v = virt_addr / 4096 in
    let p = phys_addr / 4096 in
    let start =
      kernel_mmap-map_pages fuel virt_addr phys_addr size flags allow_remap s (omega arith) in
    let (s', run, same) =
      map_pages-prefix n fuel (suc (fuel - n - 1)) v p (virt_addr + size) flags allow_remap s
        (omega arith) (omega arith) hp (omega arith) free in
    let test : ltb (4096 * (v + n)) (virt_addr + size) ≡ false = ground arith in
    (
      s',
      start
          ∙ run
          ∙ map_pages-end (fuel - n - 1) (4096 * (v + n)) (4096 * (p + n)) (virt_addr + size) flags
              allow_remap s' test,
      same,
    )

-- If remapping is not allowed and the first page of a range that is mapped is number `m` of its
-- pages, `kernel_mmap` returns OS_ERR_MAPPING_ALREADY_EXISTS, given more fuel than there are pages
-- and a range that ends more than a page below 2^32, as the frames do; the `m` pages before it have
-- been mapped and stay so, and every other page is as it was.
pub kernel_mmap-exists :
    (fuel virt_addr phys_addr size flags allow_remap m x : ℕ) (s : Paging)
    → virt_addr + size + 4095 < 2 ^ 32
    → phys_addr / 4096 + page_count virt_addr size < 2 ^ 20
    → page_count virt_addr size < fuel
    → m < page_count virt_addr size
    → (allow_remap == 0) ≡ true
    → ((j : ℕ) → within (virt_addr / 4096) m j ≡ true → view s j ≡ none)
    → view s (virt_addr / 4096 + m) ≡ some x
    → (s' : Paging) × (kernel_mmap fuel virt_addr phys_addr size flags allow_remap s
        ≡ ok mapping_already_exists s')
      × ((j : ℕ) → view s' j ≡ mapped (view s) (virt_addr / 4096) m (phys_addr / 4096) flags j)
kernel_mmap-exists fuel virt_addr phys_addr size flags allow_remap m x s hv hp hf hm strict free
      taken =
    let n = page_count virt_addr size in
    let v = virt_addr / 4096 in
    let p = phys_addr / 4096 in
    let start =
      kernel_mmap-map_pages fuel virt_addr phys_addr size flags allow_remap s (omega arith) in
    let (s', run, same) =
      map_pages-prefix m fuel (suc (fuel - m - 1)) v p (virt_addr + size) flags allow_remap s
        (omega arith) (omega arith) (omega arith) (omega arith) (λ j inside. inl (free j inside)) in
    let test : ltb (4096 * (v + m)) (virt_addr + size) ≡ true = ground arith in
    let there : view s' (v + m) ≡ some x = same (v + m) ∙ ground arith in
    let stop = map_page-taken s' (v + m) (4096 * (p + m)) flags allow_remap x there strict in
    (
      s',
      start
          ∙ run
          ∙ map_pages-stop (fuel - m - 1) (4096 * (v + m)) (4096 * (p + m)) (virt_addr + size) flags
              allow_remap s' test stop,
      same,
    )

-- If the end of the range wraps at 2^32 and comes to lie at or below the first page, `kernel_mmap`
-- returns OS_NO_ERR and maps nothing.
pub kernel_mmap-wraps :
    (fuel virt_addr phys_addr size flags allow_remap : ℕ) (s : Paging)
    → virt_addr < 2 ^ 32
    → size < 2 ^ 32
    → 2 ^ 32 ≤ virt_addr + size
    → virt_addr + size ≤ 2 ^ 32 + virt_addr / 4096 * 4096
    → kernel_mmap (suc fuel) virt_addr phys_addr size flags allow_remap s ≡ ok no_err s
unfolding kernel_mmap
kernel_mmap-wraps fuel virt_addr phys_addr size flags allow_remap s hv hs wraps short =
    map_pages-end fuel (virt_addr / 2 ^ 12 * 2 ^ 12) (phys_addr / 2 ^ 12 * 2 ^ 12)
      (add32 virt_addr size) flags allow_remap s (ground arith)
