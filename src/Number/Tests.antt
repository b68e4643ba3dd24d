-- ===== src/Number/Tests.antt =====
-- The theorems on the printing of numbers at concrete numbers.
use awk.Base.{ℕ, List, ◌+◌, ◌^◌, ◌<◌, ◌≤◌, ◌≡◌, ◌≢◌, arith, leb, length}
use awk.Run.{ok}
use awk.Bytes.{Mem, Text, SameOutside}
use awk.Number.{uitoa, itoa}
use awk.Number.Digits.{read, AllDigits, Leads}
use awk.Number.Print.{signed_read, has_sign, magnitude, uitoa_lem, itoa-signed_read}

abbrev blank : Mem
blank a = 0

abbrev shown : ℕ
shown = 48879

-- 48879 in base 16 is `BEEF`; the bit pattern of -12 in base 10.
uitoa_lem_example :
    (cs : List ℕ) × (m' : Mem) × (uitoa 33 blank shown 1000 16 blank ≡ ok tt m')
    × Text m' 1000 cs
    × (read 16 0 cs ≡ shown)
    × AllDigits 16 cs
    × (shown ≢ 0 → Leads cs)
    × (0 < length cs)
    × (length cs ≤ 32)
    × SameOutside blank m' 1000 (1000 + length cs + 1)
uitoa_lem_example =
    uitoa_lem 33 blank shown 1000 16 blank (omega arith) (omega arith) (omega arith) (omega arith)

-- The bit pattern of -12.
abbrev minus_twelve : ℕ
minus_twelve = 4294967284

itoa-signed_read_example :
    (cs : List ℕ) × (m' : Mem) × (itoa 33 blank minus_twelve 1000 10 blank ≡ ok tt m')
    × Text m' 1000 cs
    × (has_sign cs ≡ leb (2 ^ 31) minus_twelve)
    × AllDigits 10 (magnitude cs)
    × (0 < length (magnitude cs))
    × (minus_twelve ≢ 0 → Leads (magnitude cs))
    × (signed_read cs ≡ minus_twelve)
    × (length cs ≤ 33)
    × SameOutside blank m' 1000 (1000 + length cs + 1)
itoa-signed_read_example =
    itoa-signed_read 33 blank minus_twelve 1000 blank (omega arith) (omega arith)
