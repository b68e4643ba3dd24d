-- ===== src/Paging/View.antt =====
-- Which entry a page has in the directory and the tables of memory/paging.c, and what one round of the
-- loops does to it.
use awk.Base.{
  ℕ, ◌+◌, ◌*◌, ◌/◌, ◌%◌, ◌≡◌, ◌⊎◌, refl, ◌∙◌, true, false, ◌&&◌, Option, none, some, arith, ◌==◌,
  Bool-cases, inl, inr, if◌then◌else◌,
}
use awk.Run.{ok}
use awk.Paging.{
  Paging, assign, present, empty_entry, entry_value, create_table, map_page, unmap_page,
  pgdir_entry, pgtable_entry,
}
use awk.Paging.Bits.{present-dir_value, present-entry_value, present-empty_entry}

-- The entry of page `k`, if the page is mapped.
unfoldable pub view : Paging → (k : ℕ) → Option ℕ
view s k =
    let x = s.kernel_page_tables (k / 1024) (k % 1024) in
    if present (s.kernel_pgdir (k / 1024)) then if present x then some x else none else none

-- A new table maps nothing.
view-create_table : (d : ℕ) (s : Paging) (j : ℕ) → view (create_table d s) j ≡ view s j
unfolding view create_table
view-create_table d s j = elim (Bool-cases (present (s.kernel_pgdir d))) [
  | inl there ↦ rw there refl
  | inr missing ↦ ground (arith, present-dir_value (s.tables_at + 4096 * d), present-empty_entry)
]

present-create_table : (d : ℕ) (s : Paging) → present ((create_table d s).kernel_pgdir d) ≡ true
unfolding create_table
present-create_table d s = ground (arith, present-dir_value (s.tables_at + 4096 * d))

-- An entry written in a table that is present is the entry of its page, and of no other.
view-write :
    (s : Paging) (k e j : ℕ)
    → present (s.kernel_pgdir (k / 1024)) ≡ true
    → view
        (record s {
          kernel_page_tables =
              assign s.kernel_page_tables
                (k / 1024)
                (assign (s.kernel_page_tables (k / 1024)) (k % 1024) e);
        })
        j
      ≡ (if j == k then if present e then some e else none else view s j)
unfolding view
view-write s k e j there = ground arith

dir_of_page : (k : ℕ) → pgdir_entry (4096 * k) ≡ k / 1024
dir_of_page k = omega arith

index_of_page : (k : ℕ) → pgtable_entry (4096 * k) ≡ k % 1024
index_of_page k = omega arith

absent :
    (s1 : Paging) (k allow_remap : ℕ) {o : Option ℕ}
    → view s1 k ≡ o
    → present (s1.kernel_pgdir (k / 1024)) ≡ true
    → (o ≡ none) ⊎ ((allow_remap == 0) ≡ false)
    → (present (s1.kernel_page_tables (k / 1024) (k % 1024)) && (allow_remap == 0)) ≡ false
unfolding view
absent s1 k allow_remap same there f = ground arith

view-some :
    (s : Paging) (k x : ℕ)
    → view s k ≡ some x
    → (present (s.kernel_pgdir (k / 1024)) ≡ true)
      × (present (s.kernel_page_tables (k / 1024) (k % 1024)) ≡ true)
      × (s.kernel_page_tables (k / 1024) (k % 1024) ≡ x)
unfolding view
view-some s k x there = ground arith

create_table-present :
    (d : ℕ) (s : Paging) → present (s.kernel_pgdir d) ≡ true → create_table d s ≡ s
unfolding create_table
create_table-present d s there = rw there refl

-- A round that maps a page.
pub map_page-view :
    (s : Paging) (k p flags allow_remap : ℕ)
    → (view s k ≡ none) ⊎ ((allow_remap == 0) ≡ false)
    → (s' : Paging) × (map_page (4096 * k) p flags allow_remap s ≡ ok true s')
      × ((j : ℕ) → view s' j ≡ (if j == k then some (entry_value p flags) else view s j))
unfolding map_page
map_page-view s k p flags allow_remap free =
    let s1 = create_table (k / 1024) s in
    let there = present-create_table (k / 1024) s in
    let test : (present (s1.kernel_page_tables (k / 1024) (k % 1024)) && (allow_remap == 0))
        ≡ false =
      free_test (view-create_table (k / 1024) s k) there free in
    (
      record s1 {
        kernel_page_tables =
            assign s1.kernel_page_tables (k / 1024)
              (assign (s1.kernel_page_tables (k / 1024)) (k % 1024) (entry_value p flags));
      },
      rw (dir_of_page k, index_of_page k) (rw test refl),
      λ j.
          view-write s1 k (entry_value p flags) j there
          ∙ same_entry j (present-entry_value p flags) (view-create_table (k / 1024) s j),
    )
  where
    free_test :
        view (create_table (k / 1024) s) k ≡ view s k
        → present ((create_table (k / 1024) s).kernel_pgdir (k / 1024)) ≡ true
        → (view s k ≡ none) ⊎ ((allow_remap == 0) ≡ false)
        → (present ((create_table (k / 1024) s).kernel_page_tables (k / 1024) (k % 1024))
            && (allow_remap == 0))
          ≡ false
    free_test same there f = absent (create_table (k / 1024) s) k allow_remap same there f

    same_entry :
        (j : ℕ)
        → present (entry_value p flags) ≡ true
        → view (create_table (k / 1024) s) j ≡ view s j
        → (if j == k
            then if present (entry_value p flags) then some (entry_value p flags) else none
            else view (create_table (k / 1024) s) j)
          ≡ (if j == k then some (entry_value p flags) else view s j)
    same_entry j e same = ground arith

-- A page that is mapped stops `kernel_mmap` when remapping is not allowed.
pub map_page-taken :
    (s : Paging) (k p flags allow_remap x : ℕ)
    → view s k ≡ some x
    → (allow_remap == 0) ≡ true
    → map_page (4096 * k) p flags allow_remap s ≡ ok false s
unfolding map_page
map_page-taken s k p flags allow_remap x there none_allowed =
    let (dir, entry, _) = view-some s k x there in
    rw (dir_of_page k, index_of_page k, create_table-present (k / 1024) s dir)
      (rw (entry, none_allowed) refl)

-- A round that takes a page out, and one that finds none.
pub unmap_page-view :
    (s : Paging) (k x : ℕ)
    → view s k ≡ some x
    → (s' : Paging) × (unmap_page (4096 * k) s ≡ ok true s')
      × ((j : ℕ) → view s' j ≡ (if j == k then none else view s j))
unfolding unmap_page
unmap_page-view s k x there =
    let (dir, entry, _) = view-some s k x there in
    (
      record s {
        kernel_page_tables =
            assign s.kernel_page_tables (k / 1024)
              (assign (s.kernel_page_tables (k / 1024)) (k % 1024) empty_entry);
      },
      rw (dir_of_page k, index_of_page k) (rw (dir, entry) refl),
      λ j. rw present-empty_entry at (view-write s k empty_entry j dir),
    )

pub unmap_page-absent :
    (s : Paging) (k : ℕ) → view s k ≡ none → unmap_page (4096 * k) s ≡ ok false s
unfolding unmap_page view
unmap_page-absent s k missing = rw (dir_of_page k, index_of_page k) (ground arith)
