-- ===== src/Paging.antt =====
-- The page directory and the page tables of memory/paging.c. What the debugging output, CR0, CR3 and
-- the TLB are told is left out. The loops of `kernel_mmap` and `kernel_munmap` go page by page and take
-- fuel, since an address wraps at 2 ^ 32.
pub mod Bits
pub mod View
pub mod Map
pub mod Unmap
pub mod Start
pub mod Identity
mod Tests
pub use awk.Base.{add32, assign}
use awk.Base.{
  ℕ, zero, suc, ◌+◌, ◌*◌, ◌/◌, ◌%◌, ◌^◌, ◌&&◌, Bool, true, false, not, Ptr, ◌==◌, ltb,
  if◌then◌else◌,
}
use awk.Run.{Cmd, ok, out_of_fuel, pure, ◌>>=◌, ◌>>◌}
use awk.Err.{Err, no_err, mapping_already_exists, memory_not_mapped, paging_not_init}

abbrev pub kernel_page_size : ℕ
kernel_page_size = 4096

abbrev pub flag_read_write : ℕ
flag_read_write = 2

abbrev pub flag_present : ℕ
flag_present = 1

-- PAGE_FLAG_SUPER_ACCESS, PAGE_FLAG_READ_ONLY, PAGE_FLAG_NOT_PRESENT and PG_DIR_FLAG_PAGE_SIZE_4KB.
abbrev pub flag_none : ℕ
flag_none = 0

-- The variables of the file. `kernel_page_tables[i]` stands at `tables_at + 4096 * i`.
pub record Paging : Type 0 where
  pub kernel_pgdir : ℕ → ℕ
  pub kernel_page_tables : ℕ → ℕ → ℕ
  pub tables_at : Ptr
  pub init : ℕ
  pub enabled : ℕ

-- `a | b`, bit by bit, for numbers of `width` bits.
unfoldable pub or_bits : (width a b : ℕ) → ℕ
or_bits zero a b = 0
or_bits (suc width) a b =
    or_bits width (a / 2) (b / 2) * 2 + (if (a % 2 == 0) && (b % 2 == 0) then 0 else 1)

unfoldable pub bit_or : (a b : ℕ) → ℕ
bit_or a b = or_bits 32 a b

-- The test of PG_DIR_FLAG_PAGE_PRESENT and of PAGE_FLAG_PRESENT, the lowest bit.
unfoldable pub present : (entry : ℕ) → Bool
present entry = entry % 2 == flag_present

abbrev pub pgdir_entry : (virt_addr : ℕ) → ℕ
pgdir_entry virt_addr = virt_addr / 2 ^ 22

abbrev pub pgtable_entry : (virt_addr : ℕ) → ℕ
pgtable_entry virt_addr = virt_addr / 2 ^ 12 % 2 ^ 10

unfoldable pub empty_entry : ℕ
empty_entry = bit_or (bit_or flag_none flag_none) flag_none

unfoldable pub dir_value : (page_table : Ptr) → ℕ
dir_value page_table =
    bit_or (bit_or (bit_or (bit_or page_table flag_none) flag_none) flag_read_write) flag_present

unfoldable pub entry_value : (phys_addr flags : ℕ) → ℕ
entry_value phys_addr flags = bit_or (bit_or phys_addr flags) flag_present

-- "If page table not present create it."
unfoldable pub create_table : (dir : ℕ) → Paging → Paging
create_table dir s =
    if not (present (s.kernel_pgdir dir))
    then record s {
      kernel_page_tables =
          assign s.kernel_page_tables dir
            (λ i. if ltb i 1024 then empty_entry else s.kernel_page_tables dir i);
      kernel_pgdir = assign s.kernel_pgdir dir (dir_value (s.tables_at + kernel_page_size * dir));
    }
    else s

-- One round of the loop of `kernel_mmap`; whether it goes on.
unfoldable pub map_page : (virt_addr phys_addr flags allow_remap : ℕ) → Cmd Paging Bool
map_page virt_addr phys_addr flags allow_remap s0 =
    let dir = pgdir_entry virt_addr in
    let s = create_table dir s0 in
    let page_table = s.kernel_page_tables dir in
    let i = pgtable_entry virt_addr in
    if present (page_table i) && (allow_remap == 0)
    then ok false s
    else ok true (record s {
      kernel_page_tables =
          assign s.kernel_page_tables dir (assign page_table i (entry_value phys_addr flags));
    })

unfoldable pub map_pages :
    (fuel : ℕ) → (virt_addr phys_addr end_map flags allow_remap : ℕ) → Cmd Paging Err
map_pages zero virt_addr phys_addr end_map flags allow_remap = λ _. out_of_fuel
map_pages (suc fuel) virt_addr phys_addr end_map flags allow_remap =
    let rest =
      map_pages fuel (add32 virt_addr kernel_page_size) (add32 phys_addr kernel_page_size) end_map
        flags allow_remap in
    if ltb virt_addr end_map
    then (do
      mapped ← map_page virt_addr phys_addr flags allow_remap
      if mapped then rest else pure mapping_already_exists)
    else pure no_err

unfoldable pub kernel_mmap :
    (fuel : ℕ) → (virt_addr phys_addr mapping_size flags allow_remap : ℕ) → Cmd Paging Err
kernel_mmap fuel virt_addr phys_addr mapping_size flags allow_remap =
    map_pages fuel (virt_addr / 2 ^ 12 * 2 ^ 12) (phys_addr / 2 ^ 12 * 2 ^ 12)
      (add32 virt_addr mapping_size) flags allow_remap

unfoldable pub unmap_page : (virt_addr : ℕ) → Cmd Paging Bool
unmap_page virt_addr s =
    let dir = pgdir_entry virt_addr in
    let page_table = s.kernel_page_tables dir in
    let i = pgtable_entry virt_addr in
    if not (present (s.kernel_pgdir dir))
    then ok false s
    else if not (present (page_table i))
    then ok false s
    else ok true (record s {
      kernel_page_tables = assign s.kernel_page_tables dir (assign page_table i empty_entry);
    })

unfoldable pub unmap_pages : (fuel : ℕ) → (virt_addr end_map : ℕ) → Cmd Paging Err
unmap_pages zero virt_addr end_map = λ _. out_of_fuel
unmap_pages (suc fuel) virt_addr end_map =
    let rest = unmap_pages fuel (add32 virt_addr kernel_page_size) end_map in
    if ltb virt_addr end_map
    then (do unmapped ← unmap_page virt_addr; if unmapped then rest else pure memory_not_mapped)
    else pure no_err

unfoldable pub kernel_munmap : (fuel : ℕ) → (virt_addr mapping_size : ℕ) → Cmd Paging Err
kernel_munmap fuel virt_addr mapping_size =
    unmap_pages fuel (virt_addr / 2 ^ 12 * 2 ^ 12) (add32 virt_addr mapping_size)
