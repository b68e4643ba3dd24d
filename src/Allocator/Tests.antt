-- ===== src/Allocator/Tests.antt =====
-- A small heap, and the theorems about memory/heap.c at it.
use awk.Base.{
  suc, ◌+◌, ◌*◌, ◌^◌, ◌≤◌, ◌<◌, ◌≡◌, refl, ◌⊎◌, true, Ptr, null, [], ◌∷◌, arith, ◌==◌,
  if◌then◌else◌,
}
use awk.Allocator.{
  Links, Kheap, memory_chunk_size, memory_chunk_slot, wanted, kmalloc, kfree, setup_kheap,
}
use awk.Allocator.Slot.{memory_chunk_slot_bounds}
use awk.Allocator.Ring.{Ptrs, member}
use awk.Allocator.Chunks.{chunks, IsKheap}
use awk.Allocator.Allocated.{Allocated}
use awk.Allocator.Kmalloc.{kmalloc_lem}
use awk.Allocator.Kfree.{Freed, kfree_lem}
use awk.Allocator.Setup.{Ready, setup_kheap-Ready}
use awk.Allocator.Calls.{kmalloc-setup_kheap, kmalloc-kfree}

abbrev no_links : Links
no_links = record { next = λ p. 0; prev = λ p. 0 }

abbrev blank : Kheap
blank = record {
  all = no_links;
  free = no_links;
  used = λ p. 0;
  free_chunk = λ n. 0;
  first_chunk = 0;
  last_chunk = 0;
  mem_free = 0;
  mem_used = 0;
  mem_meta = 0;
}

-- Three chunks at 4096, 4116 and 4576, all in use.
abbrev full : Kheap
full = record blank {
  all = record {
    next = λ p. if p == 4096 then 4116 else if p == 4116 then 4576 else 4096;
    prev = λ p. if p == 4096 then 4576 else if p == 4116 then 4096 else 4116;
  };
  used = λ p. 1;
  first_chunk = 4096;
  last_chunk = 4576;
}

abbrev middle : Ptrs
middle = 4116 ∷ []

full-IsKheap : IsKheap full middle (λ n. [])
full-IsKheap = record {
  ring = ground arith;
  spaced = (omega arith, (omega arith, (omega arith, omega arith)));
  bins = record {
    head = λ n. refl;
    ring = λ n. tt;
    distinct = λ n. tt;
    sound = λ n c at. cc;
    complete = λ c there idle. absurd (omega arith);
    nonnull = refl;
  };
  first_used = refl;
  last_used = refl;
}

abbrev booted : Kheap
booted = setup_kheap 4094 4599 blank

booted-Ready : Ready 4094 4599 booted
booted-Ready =
    setup_kheap-Ready blank 4094 4599 (omega arith) (omega arith) (omega arith) (omega arith)
      (λ n. refl)

kmalloc_lem_example :
    ((kmalloc 100 booted ≡ (null, booted))
      × ((c : Ptr)
          → member c (chunks booted middle) ≡ true
          → booted.used c ≡ 0
          → memory_chunk_size booted.all c < 2 * wanted 100))
    ⊎ Allocated booted middle 100 (kmalloc 100 booted)
kmalloc_lem_example = kmalloc_lem booted middle booted-Ready.bs booted-Ready.valid 100 (omega arith)

kfree_lem_example : Freed full middle 4116 4096 4576 (kfree 4128 full)
kfree_lem_example = kfree_lem full middle (λ n. []) 4116 full-IsKheap refl refl

kmalloc-kfree_example :
    (left : Ptrs) × Allocated (kfree 4128 full) left 100 (kmalloc 100 (kfree 4128 full))
unfolding wanted memory_chunk_size
kmalloc-kfree_example =
    kmalloc-kfree full middle (λ n. []) 4116 100 full-IsKheap refl refl (omega arith) large
  where
    large : 2 * wanted 100 ≤ memory_chunk_size full.all 4116
    large = omega arith

setup_kheap-Ready_example : Ready 4094 4599 (setup_kheap 4094 4599 blank)
setup_kheap-Ready_example =
    setup_kheap-Ready blank 4094 4599 (omega arith) (omega arith) (omega arith) (omega arith)
      (λ n. refl)

kmalloc-setup_kheap_example :
    Allocated (setup_kheap 4094 4599 blank) middle 100 (kmalloc 100 (setup_kheap 4094 4599 blank))
unfolding wanted
kmalloc-setup_kheap_example =
    kmalloc-setup_kheap blank 4094 4599 100 (omega arith) (omega arith) (omega arith) (omega arith)
      (λ n. refl) (omega arith) large
  where
    large : 2 * wanted 100 + 52 + 4096 ≤ 4596
    large = omega arith

memory_chunk_slot_bounds_example :
    (memory_chunk_slot 100 < 32)
    × (2 ^ memory_chunk_slot 100 ≤ 100)
    × (100 < 2 ^ suc (memory_chunk_slot 100))
memory_chunk_slot_bounds_example = memory_chunk_slot_bounds 100 (omega arith) (omega arith)
