-- ===== src/Bytes.antt =====
-- The memory of characters that the functions of lib/ work on: one byte at every address. Addresses do
-- not wrap, as an object of C does not.
use awk.Base.{ℕ, ◌+◌, ◌%◌, ◌<◌, ◌≤◌, ◌≡◌, ◌≢◌, List, [], ◌∷◌, Ptr, ◌==◌, if◌then◌else◌}
use awk.Run.{Cmd, ok}

abbrev pub Mem : Type 0
Mem = Ptr → ℕ

abbrev pub put : Mem → Ptr → ℕ → Mem
put m p c = λ a. if a == p then c else m a

abbrev pub load : Ptr → Cmd Mem ℕ
load p m = ok (m p) m

-- `*p = c` for a `char`.
abbrev pub store : Ptr → ℕ → Cmd Mem (Unit {0})
store p c m = ok tt (put m p (c % 256))

-- The characters `cs` and the null character after them stand at `p`.
abbrev pub Text : Mem → Ptr → List ℕ → Type 0
Text m p [] = m p ≡ 0
Text m p (c ∷ cs) = (m p ≡ c) × (c ≢ 0) × Text m (p + 1) cs

-- The bytes from `p` on, below `q`, may differ.
abbrev pub SameOutside : (m m' : Mem) → (p q : Ptr) → Type 0
SameOutside m m' p q = ((a : Ptr) → a < p → m' a ≡ m a) × ((a : Ptr) → q ≤ a → m' a ≡ m a)
