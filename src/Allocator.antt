-- ===== src/Allocator.antt =====
-- The heap allocator of memory/heap.c. A `list_t` inside a chunk is named by the address of the chunk,
-- so that `CONTAINER` is the identity: one map holds the links `all` of every chunk, another the links
-- `free`. The memory is raw, so that every address can be read. `spinlock_lock` and `spinlock_unlock`
-- change nothing here.
pub mod Slot
pub mod Ring
pub mod Relink
pub mod Members
pub mod Bins
pub mod Chunks
pub mod Cut
pub mod Find
pub mod Between
pub mod Allocated
pub mod Kmalloc
pub mod Absorb
pub mod JoinBefore
pub mod JoinNext
pub mod Kfree
pub mod Setup
pub mod Calls
mod Tests
pub use awk.Base.{add32, sub32, assign}
use awk.Base.{
  ℕ, zero, suc, ◌+◌, ◌-◌, ◌*◌, ◌/◌, ◌%◌, ◌^◌, not, Option, none, some, Ptr, null, ◌==◌, leb, ltb,
  if◌then◌else◌,
}

abbrev pub num_sizes : ℕ
num_sizes = 32

abbrev pub align : ℕ
align = 4

-- The size of a `list_t`.
abbrev pub min_size : ℕ
min_size = 8

-- The offset of `data`: the links `all`, and `used` with three bytes after it.
abbrev pub header_size : ℕ
header_size = 12

-- `sizeof(mem_chunk_t)`
abbrev pub chunk_bytes : ℕ
chunk_bytes = 20

-- The `list_t` of every chunk.
pub record Links : Type 0 where
  pub next : Ptr → Ptr
  pub prev : Ptr → Ptr

unfoldable pub list_init : (node : Ptr) → Links → Links
list_init node l = record { next = assign l.next node node; prev = assign l.prev node node }

unfoldable pub insert_before : (current new : Ptr) → Links → Links
insert_before current new l =
    let current_prev = l.prev current in
    let new_prev = l.prev new in
    record {
      next = assign (assign l.next current_prev new) new_prev current;
      prev = assign (assign l.prev new current_prev) current new_prev;
    }

unfoldable pub insert_after : (current new : Ptr) → Links → Links
insert_after current new l =
    let current_next = l.next current in
    let new_prev = l.prev new in
    record {
      next = assign (assign l.next current new) new_prev current_next;
      prev = assign (assign l.prev new current) current_next new_prev;
    }

-- Each line reads what the lines before it wrote.
unfoldable pub remove : (node : Ptr) → Links → Links
remove node l =
    let next' = assign l.next (l.prev node) (l.next node) in
    let prev' = assign l.prev (next' node) (l.prev node) in
    record { next = assign next' node node; prev = assign prev' node node }

-- The functions that take a `list_t**` return what it points to at the end.
unfoldable pub push : (head node : Ptr) → Links → Ptr × Links
push head node l = (node, if not (head == null) then insert_before head node l else l)

unfoldable pub pop : (head : Ptr) → Links → Ptr × Links
pop head l =
    let next_top = l.next head in (if head == next_top then null else next_top, remove head l)

unfoldable pub remove_from : (head node : Ptr) → Links → Ptr × Links
remove_from head node l = if head == node then pop head l else (head, remove node l)

-- The allocator's variables, and `used` of every chunk.
pub record Kheap : Type 0 where
  pub all : Links
  pub free : Links
  pub used : Ptr → ℕ
  pub free_chunk : ℕ → Ptr
  pub first_chunk : Ptr
  pub last_chunk : Ptr
  pub mem_free : ℕ
  pub mem_used : ℕ
  pub mem_meta : ℕ

unfoldable pub memory_chunk_init : (chunk : Ptr) → Kheap → Kheap
memory_chunk_init chunk h = record h {
  all = list_init chunk h.all;
  used = assign h.used chunk 0;
  free = list_init chunk h.free;
}

unfoldable pub memory_chunk_size : Links → (chunk : Ptr) → ℕ
memory_chunk_size all chunk = sub32 (sub32 (all.next chunk) chunk) header_size

-- `n` is the bit pattern of an `int32_t`. A `uint32_t` is 0 after 32 rounds.
unfoldable pub slot_from : (rounds : ℕ) → (n size : ℕ) → ℕ
slot_from zero n size = n
slot_from (suc rounds) n size =
    let rest = slot_from rounds (add32 n 1) (size / 2) in if ltb 0 size then rest else n

unfoldable pub memory_chunk_slot : (size : ℕ) → ℕ
memory_chunk_slot size = slot_from 32 (2 ^ 32 - 1) size

-- `LIST_REMOVE_FROM`, `LIST_PUSH` and `LIST_POP` on `free_chunk[n]`.
unfoldable pub list_remove_from : (n : ℕ) → (chunk : Ptr) → Kheap → Kheap
list_remove_from n chunk h =
    let (head, links) = remove_from (h.free_chunk n) chunk h.free in
    record h { free = links; free_chunk = assign h.free_chunk n head }

unfoldable pub list_push : (n : ℕ) → (chunk : Ptr) → Kheap → Kheap
list_push n chunk h =
    let (head, links) = push (h.free_chunk n) chunk h.free in
    record h { free = links; free_chunk = assign h.free_chunk n head }

-- The chunk that it returns is `free_chunk[n]`.
unfoldable pub list_pop : (n : ℕ) → Kheap → Kheap
list_pop n h =
    let (head, links) = pop (h.free_chunk n) h.free in
    record h { free = links; free_chunk = assign h.free_chunk n head }

unfoldable pub remove_free : (chunk : Ptr) → Kheap → Kheap
remove_free chunk h =
    let len = memory_chunk_size h.all chunk in
    let h' = list_remove_from (memory_chunk_slot len) chunk h in
    record h' { mem_free = sub32 h.mem_free (sub32 len header_size) }

unfoldable pub push_free : (chunk : Ptr) → Kheap → Kheap
push_free chunk h =
    let len = memory_chunk_size h.all chunk in
    let h' = list_push (memory_chunk_slot len) chunk h in
    record h' { mem_free = add32 h.mem_free (sub32 len header_size) }

-- The state that `setup_kheap` finds: the variables are zero, the memory is arbitrary.
unfoldable pub setup_kheap : (heap_start heap_end : Ptr) → Kheap → Kheap
setup_kheap heap_start heap_end h =
    let mem_start = add32 heap_start (align - 1) / align * align in
    let mem_end = heap_end / align * align in
    let first = mem_start in
    let second = mem_start + chunk_bytes in
    let last = mem_end - chunk_bytes in
    let h1 = record h { mem_free = 0; mem_used = 0; mem_meta = 0 } in
    let h2 = memory_chunk_init last (memory_chunk_init second (memory_chunk_init first h1)) in
    let all' = insert_after second last (insert_after first second h2.all) in
    let len = memory_chunk_size all' second in
    let h3 = record h2 {
      all = all';
      first_chunk = first;
      last_chunk = last;
      used = assign (assign h2.used first 1) last 1;
    } in
    let h4 = list_push (memory_chunk_slot len) second h3 in
    record h4 { mem_free = sub32 len header_size; mem_meta = chunk_bytes * 2 + header_size }

-- `while(free_chunk[n] == 0)`, with the `left` bins from `n` on. None means that `n` reached
-- `NUM_SIZES`.
unfoldable pub find_bin : (left n : ℕ) → (ℕ → Ptr) → Option ℕ
find_bin zero n bins = none
find_bin (suc left) n bins = if bins n == null then find_bin left (n + 1) bins else some n

-- The part of `kmalloc` that cuts a chunk in two when a chunk fits in what is left: the heap, and `len`.
unfoldable pub split_chunk : (chunk : Ptr) → (size size2 : ℕ) → Kheap → Kheap × ℕ
split_chunk chunk size size2 h =
    if leb (add32 size chunk_bytes) size2
    then (let chunk2 = chunk + header_size + size in
        let h1 = memory_chunk_init chunk2 h in
        let h2 = record h1 { all = insert_after chunk chunk2 h1.all } in
        let len = memory_chunk_size h2.all chunk2 in
        let h3 = list_push (memory_chunk_slot len) chunk2 h2 in
        (
          record h3 {
            mem_meta = add32 h.mem_meta header_size;
            mem_free = add32 h.mem_free (sub32 len header_size);
          },
          len,
        ))
    else (h, 0)

-- The size that is asked for, rounded up.
unfoldable pub wanted : (size : ℕ) → ℕ
wanted size =
    let size' = add32 size (align - 1) / align * align in
    if ltb size' min_size then min_size else size'

unfoldable pub kmalloc : (size : ℕ) → Kheap → Ptr × Kheap
kmalloc size h =
    let size' = wanted size in
    let n = memory_chunk_slot (size' - 1) + 1 in
    if leb num_sizes n then (null, h) else elim (find_bin (num_sizes - n) n h.free_chunk) [
      | none ↦ (null, h)
      | some m ↦
          let chunk = h.free_chunk m in
          let h1 = list_pop m h in
          let size2 = memory_chunk_size h1.all chunk in
          let (h2, len) = split_chunk chunk size' size2 h1 in
          (
            chunk + header_size,
            record h2 {
              used = assign h2.used chunk 1;
              mem_free = sub32 h2.mem_free size2;
              mem_used = add32 h2.mem_used (sub32 (sub32 size2 len) header_size);
            },
          )
    ]

-- The two tests of `kfree`.
unfoldable pub merge_next : (next : Ptr) → Kheap → Kheap
merge_next next h =
    if not (h.used next == 0)
    then h
    else let h1 = remove_free next h in
      record h1 {
        all = remove next h1.all;
        mem_meta = sub32 h.mem_meta header_size;
        mem_free = add32 h1.mem_free header_size;
      }

unfoldable pub merge_prev : (prev chunk : Ptr) → Kheap → Kheap
merge_prev prev chunk h =
    if h.used prev == 0
    then (let h1 = remove_free prev h in
        let h2 = push_free prev (record h1 { all = remove chunk h1.all }) in
        record h2 {
          mem_meta = sub32 h.mem_meta header_size;
          mem_free = add32 h2.mem_free header_size;
        })
    else push_free chunk (record h { used = assign h.used chunk 0; free = list_init chunk h.free })

-- The chunks beside `chunk` are read before the first change.
unfoldable pub kfree : (ptr : Ptr) → Kheap → Kheap
kfree ptr h =
    let chunk = ptr - header_size in
    let next = h.all.next chunk in
    let prev = h.all.prev chunk in
    let h1 = record h { mem_used = sub32 h.mem_used (memory_chunk_size h.all chunk) } in
    merge_prev prev chunk (merge_next next h1)
