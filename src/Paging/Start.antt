-- ===== src/Paging/Start.antt =====
-- The start of paging in memory/paging.c: `init_paging`, `enable_paging` and `disable_paging`. CR0 and
-- CR3 are left out.
use awk.Base.{
  ℕ, zero, suc, ◌+◌, ◌*◌, ◌/◌, ◌%◌, ◌^◌, ◌&&◌, ◌||◌, not, Option, none, some, List, [], ◌∷◌, Ptr,
  ◌==◌, ltb, leb, if◌then◌else◌,
}
use awk.Run.{Cmd, ok}
use awk.Err.{Err, no_err, paging_not_init, no_more_free_mem}
use awk.Paging.{
  bit_or, Paging, assign, kernel_page_size, flag_read_write, flag_present, flag_none, dir_value,
}

pub record MemRange : Type 0 where
  pub base : ℕ
  pub limit : ℕ
  pub type : ℕ

-- `MULTIBOOT_MEMORY_AVAILABLE`
abbrev pub memory_available : ℕ
memory_available = 1

-- "Get the first range that is free."
unfoldable pub first_free_range : List MemRange → Option MemRange
first_free_range [] = none
first_free_range (r ∷ rs) =
    if not (r.base == 0) && (r.type == memory_available) then some r else first_free_range rs

-- The tables of 4 MB that the kernel takes.
unfoldable pub kernel_memory_size : (user_mem_start : Ptr) → ℕ
kernel_memory_size user_mem_start =
    let tables = user_mem_start / 1024 / kernel_page_size in
    if not (user_mem_start / 1024 % kernel_page_size == 0) then tables + 1 else tables

-- `for (; i < i + rounds; ++i) f[i] = value(i);`
unfoldable pub assign_each {ℓ} : {A : Type ℓ} → (rounds i : ℕ) → (value : ℕ → A) → (ℕ → A) → ℕ → A
assign_each zero i value f = f
assign_each (suc rounds) i value f = assign_each rounds (suc i) value (assign f i (value i))

unfoldable pub absent_dir : ℕ
absent_dir = bit_or (bit_or (bit_or flag_none flag_none) flag_read_write) flag_none

unfoldable pub kernel_entry : (page : ℕ) → ℕ
kernel_entry page = bit_or (bit_or (bit_or (page * 4096) flag_none) flag_read_write) flag_present

unfoldable pub null_entry : ℕ
null_entry = bit_or (bit_or flag_none flag_read_write) flag_none

-- "Map the first MB of the kernel, ID mapped for the kernel."
unfoldable pub map_kernel : (rounds i : ℕ) → Paging → Paging
map_kernel zero i s = s
map_kernel (suc rounds) i s = map_kernel rounds (suc i) (record s {
  kernel_page_tables =
      assign s.kernel_page_tables i
        (assign_each 1024 0 (λ j. kernel_entry (i * 1024 + j)) (s.kernel_page_tables i));
  kernel_pgdir = assign s.kernel_pgdir i (dir_value (s.tables_at + kernel_page_size * i));
})

unfoldable pub enable_paging : Cmd Paging Err
enable_paging s =
    if s.init == 0
    then ok paging_not_init s
    else if s.enabled == 1
    then ok no_err s
    else ok no_err (record s { enabled = 1 })

unfoldable pub disable_paging : Cmd Paging Err
disable_paging s =
    if s.init == 0
    then ok paging_not_init s
    else if s.enabled == 0
    then ok no_err s
    else ok no_err (record s { enabled = 0 })

-- The directory and the tables as `init_paging` leaves them.
unfoldable pub kernel_map : (tables : ℕ) → Paging → Paging
kernel_map tables s =
    let s1 =
      map_kernel tables 0
        (record s { kernel_pgdir = assign_each 1024 0 (λ i. absent_dir) s.kernel_pgdir }) in
    record s1 {
      kernel_page_tables =
          assign s1.kernel_page_tables 0 (assign (s1.kernel_page_tables 0) 0 null_entry);
    }

unfoldable pub init_paging :
    (memory_map_data : List MemRange) → (user_mem_start : Ptr) → Cmd Paging Err
init_paging memory_map_data user_mem_start s = elim (first_free_range memory_map_data) [
  | none ↦ ok no_more_free_mem s
  | some r ↦
      let tables = kernel_memory_size user_mem_start in
      let s1 = kernel_map tables s in
      let next_free_frame = tables * 1024 * 4096 % 2 ^ 32 in
      if ltb next_free_frame r.base || leb r.limit next_free_frame
      then ok no_more_free_mem s1
      else enable_paging (record s1 { enabled = 0; init = 1 })
]
