-- ===== src/MemoryBlock.antt =====
-- The functions of lib/string on blocks of memory, as compiled for the i386. A byte is a number below
-- 256 and an `int` or a word its bit pattern. A result that is an address is `NULL` where nothing is found.
pub mod Fill
pub mod Copy
pub mod Search
mod Tests
use awk.Base.{
  ℕ, zero, suc, ◌+◌, ◌-◌, ◌*◌, ◌/◌, ◌%◌, ◌^◌, ◌&&◌, ◌||◌, not, true, false, Ptr, null, ◌==◌, ltb,
  leb, if◌then◌else◌,
}
use awk.Run.{Cmd, ok, out_of_fuel, pure, ◌>>=◌, ◌>>◌}
use awk.Bytes.{Mem, put, load, store}

-- `rep stosb` and `rep stosl` upwards; `stosl` writes the lowest byte of the word first.
unfoldable pub stosb : (count : ℕ) → (q : Ptr) → (word : ℕ) → Cmd Mem (Unit {0})
stosb zero q word = pure tt
stosb (suc count) q word = do store q word; stosb count (q + 1) word

unfoldable pub stosl : (count : ℕ) → (q : Ptr) → (word : ℕ) → Cmd Mem (Unit {0})
stosl zero q word = pure tt
stosl (suc count) q word = do
  store q word
  store (q + 1) (word / 2 ^ 8)
  store (q + 2) (word / 2 ^ 16)
  store (q + 3) (word / 2 ^ 24)
  stosl count (q + 4) word

unfoldable pub memset : (dst : Ptr) → (c n : ℕ) → Cmd Mem Ptr
memset dst c n =
    let word = c % 256 * 16843009 % 2 ^ 32 in
    do stosl (n / 4) dst word; stosb (n % 4) (dst + 4 * (n / 4)) word; pure dst

-- `rep movsb` and `rep movsl` upwards: a word is read as a whole before it is written.
unfoldable pub movsb : (count : ℕ) → (p q : Ptr) → Cmd Mem (Unit {0})
movsb zero p q = pure tt
movsb (suc count) p q = do c ← load p; store q c; movsb count (p + 1) (q + 1)

unfoldable pub movsl : (count : ℕ) → (p q : Ptr) → Cmd Mem (Unit {0})
movsl zero p q = pure tt
movsl (suc count) p q = do
  c0 ← load p
  c1 ← load (p + 1)
  c2 ← load (p + 2)
  c3 ← load (p + 3)
  store q c0
  store (q + 1) c1
  store (q + 2) c2
  store (q + 3) c3
  movsl count (p + 4) (q + 4)

-- `std ; rep movsb`, downwards.
unfoldable pub movsb_down : (count : ℕ) → (p q : Ptr) → Cmd Mem (Unit {0})
movsb_down zero p q = pure tt
movsb_down (suc count) p q = do c ← load p; store q c; movsb_down count (p - 1) (q - 1)

unfoldable pub memcpy : (dst src : Ptr) → (n : ℕ) → Cmd Mem Ptr
memcpy dst src n = do
  movsl (n / 4) src dst
  movsb (n % 4) (src + 4 * (n / 4)) (dst + 4 * (n / 4))
  pure dst

unfoldable pub memmove : (dst src : Ptr) → (n : ℕ) → Cmd Mem Ptr
memmove dst src n = do
  if ltb dst src then movsb n src dst else movsb_down n (src + n - 1) (dst + n - 1)
  pure dst

-- The result is the bit pattern of the difference of the first bytes that differ, or 0.
unfoldable pub memcmp : (s1 s2 : Ptr) → (n : ℕ) → Cmd Mem ℕ
memcmp s1 s2 zero = pure 0
memcmp s1 s2 (suc n) = do
  c1 ← load s1
  c2 ← load s2
  if c1 == c2 then memcmp (s1 + 1) (s2 + 1) n else pure ((c1 + 2 ^ 32 - c2) % 2 ^ 32)

unfoldable pub memchr : (s : Ptr) → (c n : ℕ) → Cmd Mem Ptr
memchr s c zero = pure null
memchr s c (suc n) = do b ← load s; if b == c % 256 then pure s else memchr (s + 1) c n

-- From the last byte down.
unfoldable pub memrchr : (s : Ptr) → (c n : ℕ) → Cmd Mem Ptr
memrchr s c zero = pure null
memrchr s c (suc n) = do b ← load (s + n); if b == c % 256 then pure (s + n) else memrchr s c n

unfoldable pub memswap : (p q : Ptr) → (n : ℕ) → Cmd Mem (Unit {0})
memswap p q zero = pure tt
memswap p q (suc n) = do c ← load p; d ← load q; store p d; store q c; memswap (p + 1) (q + 1) n

unfoldable pub memccpy : (dst src : Ptr) → (c n : ℕ) → Cmd Mem Ptr
memccpy dst src c zero = pure null
memccpy dst src c (suc n) = do
  b ← load src
  store dst b
  if b == c % 256 then pure (dst + 1) else memccpy (dst + 1) (src + 1) c n

-- The loop `while (j <= n - m)`: `k` and `l` are the steps after a mismatch of the second byte and of
-- another one.
unfoldable pub memmem_from :
    (fuel : ℕ) → (y : Ptr) → (n : ℕ) → (x : Ptr) → (m k l j : ℕ) → Cmd Mem Ptr
memmem_from zero y n x m k l j = λ _. out_of_fuel
memmem_from (suc fuel) y n x m k l j =
    let skip = memmem_from fuel y n x m k l (j + k) in
    let step = memmem_from fuel y n x m k l (j + l) in
    if ltb (n - m) j then pure null else do
      x1 ← load (x + 1)
      y1 ← load (y + j + 1)
      if not (x1 == y1) then skip else do
        d ← memcmp (x + 2) (y + j + 2) (m - 2)
        x0 ← load x
        y0 ← load (y + j)
        if (d == 0) && (x0 == y0) then pure (y + j) else step

unfoldable pub memmem :
    (fuel : ℕ) → (haystack : Ptr) → (n : ℕ) → (needle : Ptr) → (m : ℕ) → Cmd Mem Ptr
memmem fuel y n x m =
    if ltb n m || (m == 0) || (n == 0)
    then pure null
    else if not (m == 1)
    then (do
      x0 ← load x
      x1 ← load (x + 1)
      if x0 == x1 then memmem_from fuel y n x m 2 1 0 else memmem_from fuel y n x m 1 2 0)
    else do c ← load x; memchr y c n
