-- ===== src/Paging/Tests.antt =====
-- The theorems about memory/paging.c at small inputs.
use awk.Base.{ℕ, ◌<◌, ◌≡◌, refl, ◌&&◌, none, some, List, [], ◌∷◌, arith, ◌==◌, if◌then◌else◌}
use awk.Run.{ok}
use awk.Err.{no_err, mapping_already_exists}
use awk.Paging.{Paging, present, kernel_mmap, kernel_munmap}
use awk.Paging.View.{view}
use awk.Paging.Map.{mapped, kernel_mmap-exists, kernel_mmap-wraps}
use awk.Paging.Unmap.{unmapped, kernel_munmap-unmaps, kernel_munmap-mmap}
use awk.Paging.Start.{MemRange}

-- Nothing is mapped.
abbrev bare : Paging
bare = record {
  kernel_pgdir = λ d. 0;
  kernel_page_tables = λ d i. 0;
  tables_at = 0x200000;
  init = 0;
  enabled = 0;
}

-- Page 3 stands for frame 7.
abbrev page_three : Paging
page_three = record bare {
  kernel_pgdir = λ d. if d == 0 then 3 else 0;
  kernel_page_tables = λ d i. if (d == 0) && (i == 3) then 28675 else 0;
}

bare-view : (j : ℕ) → view bare j ≡ none
unfolding view present
bare-view j = refl

page_three-view : (j : ℕ) → j < 1024 → view page_three j ≡ (if j == 3 then some 28675 else none)
unfolding view present
page_three-view j h = ground arith

kernel_mmap-exists_example :
    (s' : Paging) × (kernel_mmap 4 8192 28672 8192 2 0 page_three ≡ ok mapping_already_exists s')
    × ((j : ℕ) → view s' j ≡ mapped (view page_three) 2 1 7 2 j)
kernel_mmap-exists_example =
    kernel_mmap-exists 4 8192 28672 8192 2 0 1 28675 page_three (omega arith) (omega arith)
      (omega arith) (omega arith) refl (λ j inside. ground (arith, page_three-view j))
      (page_three-view 3 (omega arith))

kernel_munmap-unmaps_example :
    (s' : Paging) × (kernel_munmap 4 12288 4096 page_three ≡ ok no_err s')
    × ((j : ℕ) → view s' j ≡ unmapped (view page_three) 3 1 j)
kernel_munmap-unmaps_example =
    kernel_munmap-unmaps 4 12288 4096 page_three (omega arith) (omega arith)
      (λ j inside. (28675, ground (arith, page_three-view j)))

kernel_munmap-mmap_example :
    (s1 s2 : Paging) × (kernel_mmap 4 12300 28672 4096 2 0 bare ≡ ok no_err s1)
    × (kernel_munmap 4 12300 4096 s1 ≡ ok no_err s2)
    × ((j : ℕ) → view s2 j ≡ view bare j)
kernel_munmap-mmap_example =
    kernel_munmap-mmap 4 12300 28672 4096 2 0 bare (omega arith) (omega arith) (omega arith)
      (λ j inside. bare-view j)

-- The first range starts at 0 and is passed over.
abbrev ranges : List MemRange
ranges =
    record { base = 0; limit = 0x9FC00; type = 1 }
    ∷ record { base = 0x100000; limit = 0x8000000; type = 1 }
    ∷ []

abbrev second_range : MemRange
second_range = record { base = 0x100000; limit = 0x8000000; type = 1 }

kernel_mmap-wraps_example : kernel_mmap 1 0xFEE00000 0xFEE00000 0x1200000 2 0 bare ≡ ok no_err bare
kernel_mmap-wraps_example =
    kernel_mmap-wraps 0 0xFEE00000 0xFEE00000 0x1200000 2 0 bare (omega arith) (omega arith)
      (omega arith) (omega arith)
