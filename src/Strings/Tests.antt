-- ===== src/Strings/Tests.antt =====
-- The theorems on texts at a concrete memory.
use awk.Base.{ℕ, List, [], ◌∷◌, ◌++◌, ◌≡◌, ◌<◌, ◌==◌, inr, arith, refl, Ptr, if◌then◌else◌}
use awk.Run.{ok}
use awk.Bytes.{Mem, Text, SameOutside}
use awk.Strings.{strcat}
use awk.Strings.Join.{strcat-append}

-- `aab` at 100, `ab` at 200.
abbrev letters : Mem
letters a =
    if a == 100
    then 97
    else if a == 101
    then 97
    else if a == 102
    then 98
    else if a == 200
    then 97
    else if a == 201
    then 98
    else 0

letters_bytes : (a : Ptr) → letters a < 256
letters_bytes a = ground arith

abbrev aab : List ℕ
aab = 97 ∷ 97 ∷ 98 ∷ []

abbrev ab : List ℕ
ab = 97 ∷ 98 ∷ []

aab-Text : Text letters 100 aab
aab-Text = (refl, omega arith, (refl, omega arith, (refl, omega arith, refl)))

ab-Text : Text letters 200 ab
ab-Text = (refl, omega arith, (refl, omega arith, refl))

strcat-append_example :
    (m' : Mem) × (strcat 9 100 200 letters ≡ ok 100 m')
    × Text m' 100 (aab ++ ab)
    × Text m' 200 ab
    × SameOutside letters m' 103 106
strcat-append_example =
    strcat-append 9 letters 100 200 aab ab letters_bytes aab-Text ab-Text (inr (omega arith))
      (omega arith) (omega arith)
