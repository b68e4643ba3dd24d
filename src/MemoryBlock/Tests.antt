-- ===== src/MemoryBlock/Tests.antt =====
-- The theorems on blocks of memory at a concrete memory.
use awk.Base.{◌≡◌, ◌<◌, arith, Ptr, ◌==◌, if◌then◌else◌}
use awk.Run.{ok}
use awk.Bytes.{Mem}
use awk.MemoryBlock.{memmove, memmem}
use awk.MemoryBlock.Copy.{copied, memmove_lem}
use awk.MemoryBlock.Search.{memmem-first_match}

-- `aabab` at 100, `ab` at 200.
abbrev letters : Mem
letters a =
    if a == 100
    then 97
    else if a == 101
    then 97
    else if a == 102
    then 98
    else if a == 103
    then 97
    else if a == 104
    then 98
    else if a == 200
    then 97
    else if a == 201
    then 98
    else 0

letters_bytes : (a : Ptr) → letters a < 256
letters_bytes a = ground arith

memmove_lem_example :
    (m' : Mem) × (memmove 102 100 3 letters ≡ ok 102 m')
    × ((a : Ptr) → m' a ≡ copied letters 102 100 3 a)
memmove_lem_example = memmove_lem 102 100 3 letters letters_bytes

memmem-first_match_example : memmem 9 100 5 200 2 letters ≡ ok 101 letters
memmem-first_match_example =
    memmem-first_match letters letters_bytes 9 100 5 200 2 (omega arith) (omega arith)
