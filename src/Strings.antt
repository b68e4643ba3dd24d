-- ===== src/Strings.antt =====
-- The functions of lib/string on texts that end with a null character. The loops over a text take `fuel`.
-- A byte is a number below 256; an `int` is its bit pattern.
pub mod Length
pub mod Compare
pub mod Join
pub mod Span
mod Tests
use awk.Base.{
  ℕ, zero, suc, ◌+◌, ◌-◌, ◌%◌, ◌^◌, ◌&&◌, ◌||◌, not, true, false, Ptr, null, ◌==◌, ltb,
  if◌then◌else◌,
}
use awk.Run.{Cmd, ok, out_of_fuel, pure, ◌>>=◌, ◌>>◌}
use awk.Bytes.{Mem, put, load, store}
use awk.MemoryBlock.{memset, memmem}

-- The loop of `strlen`.
unfoldable pub end_of : (fuel : ℕ) → (ss : Ptr) → Cmd Mem Ptr
end_of zero ss = λ _. out_of_fuel
end_of (suc fuel) ss = do c ← load ss; if c == 0 then pure ss else end_of fuel (ss + 1)

unfoldable pub strlen : (fuel : ℕ) → (s : Ptr) → Cmd Mem ℕ
strlen fuel s = do ss ← end_of fuel s; pure (ss - s)

unfoldable pub strnlen : (s : Ptr) → (maxlen : ℕ) → Cmd Mem ℕ
strnlen s zero = pure 0
strnlen s (suc maxlen) = do
  c ← load s
  if c == 0 then pure 0 else do n ← strnlen (s + 1) maxlen; pure (n + 1)

unfoldable pub strchr : (fuel : ℕ) → (s : Ptr) → (c : ℕ) → Cmd Mem Ptr
strchr zero s c = λ _. out_of_fuel
strchr (suc fuel) s c = do
  b ← load s
  if b == c % 256 then pure s else if b == 0 then pure null else strchr fuel (s + 1) c

unfoldable pub strrchr_from : (fuel : ℕ) → (s : Ptr) → (c : ℕ) → (found : Ptr) → Cmd Mem Ptr
strrchr_from zero s c found = λ _. out_of_fuel
strrchr_from (suc fuel) s c found = do
  b ← load s
  if b == 0 then pure found else strrchr_from fuel (s + 1) c (if b == c % 256 then s else found)

unfoldable pub strrchr : (fuel : ℕ) → (s : Ptr) → (c : ℕ) → Cmd Mem Ptr
strrchr fuel s c = strrchr_from fuel s c null

unfoldable pub strcmp : (fuel : ℕ) → (s1 s2 : Ptr) → Cmd Mem ℕ
strcmp zero s1 s2 = λ _. out_of_fuel
strcmp (suc fuel) s1 s2 = do
  c1 ← load s1
  c2 ← load s2
  if not (c1 == c2) || (c1 == 0)
      then pure ((c1 + 2 ^ 32 - c2) % 2 ^ 32)
      else strcmp fuel (s1 + 1) (s2 + 1)

unfoldable pub strncmp : (s1 s2 : Ptr) → (n : ℕ) → Cmd Mem ℕ
strncmp s1 s2 zero = pure 0
strncmp s1 s2 (suc n) = do
  c1 ← load s1
  c2 ← load s2
  if not (c1 == c2) || (c1 == 0)
      then pure ((c1 + 2 ^ 32 - c2) % 2 ^ 32)
      else strncmp (s1 + 1) (s2 + 1) n

-- The loop of `strcpy`.
unfoldable pub copy_text : (fuel : ℕ) → (q p : Ptr) → Cmd Mem (Unit {0})
copy_text zero q p = λ _. out_of_fuel
copy_text (suc fuel) q p = do
  c ← load p
  store q c
  if c == 0 then pure tt else copy_text fuel (q + 1) (p + 1)

unfoldable pub strcpy : (fuel : ℕ) → (dst src : Ptr) → Cmd Mem Ptr
strcpy fuel dst src = do copy_text fuel dst src; pure dst

unfoldable pub strcat : (fuel : ℕ) → (dst src : Ptr) → Cmd Mem Ptr
strcat fuel dst src = do q ← strchr fuel dst 0; strcpy fuel q src; pure dst

-- The loop of `strncat`, and the null character after it.
unfoldable pub append_at_most : (q p : Ptr) → (n : ℕ) → Cmd Mem (Unit {0})
append_at_most q p zero = store q 0
append_at_most q p (suc n) = do
  c ← load p
  store q c
  if c == 0 then pure tt else append_at_most (q + 1) (p + 1) n

unfoldable pub strncat : (fuel : ℕ) → (dst src : Ptr) → (n : ℕ) → Cmd Mem Ptr
strncat fuel dst src n = do q ← strchr fuel dst 0; append_at_most q src n; pure dst

-- The loop of `strncpy`, and the call of `memset` after it.
unfoldable pub copy_at_most : (q p : Ptr) → (n : ℕ) → Cmd Mem (Unit {0})
copy_at_most q p zero = do memset q 0 0; pure tt
copy_at_most q p (suc n) = do
  c ← load p
  store q c
  if c == 0 then (do memset (q + 1) 0 n; pure tt) else copy_at_most (q + 1) (p + 1) n

unfoldable pub strncpy : (dst src : Ptr) → (n : ℕ) → Cmd Mem Ptr
strncpy dst src n = do copy_at_most dst src n; pure dst

-- The second loop of `strlcat`. The result: `bytes` and `q`.
unfoldable pub append_below : (fuel : ℕ) → (q p : Ptr) → (bytes size : ℕ) → Cmd Mem (ℕ × Ptr)
append_below zero q p bytes size = λ _. out_of_fuel
append_below (suc fuel) q p bytes size = do
  c ← load p
  if c == 0
      then pure (bytes, q)
      else if ltb (bytes + 1) size
      then (do store q c; append_below fuel (q + 1) (p + 1) (bytes + 1) size)
      else append_below fuel q (p + 1) (bytes + 1) size

unfoldable pub strlcat : (fuel : ℕ) → (dst src : Ptr) → (size : ℕ) → Cmd Mem ℕ
strlcat fuel dst src size = do
  bytes ← strnlen dst size
  if bytes == size
      then (do n ← strlen fuel src; pure (bytes + n))
      else do (bytes, q) ← append_below fuel (dst + bytes) src bytes size; store q 0; pure bytes

-- The two loops of `__strxspn`. `matchmap` is indexed by a byte and so never left.
unfoldable pub fill_matchmap : (fuel : ℕ) → (map : Ptr) → (matchmap : ℕ → ℕ) → Cmd Mem (ℕ → ℕ)
fill_matchmap zero map matchmap = λ _. out_of_fuel
fill_matchmap (suc fuel) map matchmap = do
  c ← load map
  if c == 0 then pure matchmap else fill_matchmap fuel (map + 1) (put matchmap c 1)

unfoldable pub count_span : (fuel : ℕ) → (s : Ptr) → (matchmap : ℕ → ℕ) → (parity : ℕ) → Cmd Mem ℕ
count_span zero s matchmap parity = λ _. out_of_fuel
count_span (suc fuel) s matchmap parity = do
  c ← load s
  if matchmap c == parity
      then pure 0
      else do n ← count_span fuel (s + 1) matchmap parity; pure (n + 1)

unfoldable pub strxspn : (fuel : ℕ) → (s map : Ptr) → (parity : ℕ) → Cmd Mem ℕ
strxspn fuel s map parity = do
  matchmap ← fill_matchmap fuel map (λ _. 0)
  count_span fuel s (put matchmap 0 parity) parity

unfoldable pub strspn : (fuel : ℕ) → (s accept : Ptr) → Cmd Mem ℕ
strspn fuel s accept = strxspn fuel s accept 0

unfoldable pub strcspn : (fuel : ℕ) → (s reject : Ptr) → Cmd Mem ℕ
strcspn fuel s reject = strxspn fuel s reject 1

unfoldable pub strpbrk : (fuel : ℕ) → (s accept : Ptr) → Cmd Mem Ptr
strpbrk fuel s accept = do
  n ← strxspn fuel s accept 1
  c ← load (s + n)
  pure (if c == 0 then null else s + n)

-- The argument `s` is `*stringp`; the second part of the result is what it is afterwards.
unfoldable pub strsep : (fuel : ℕ) → (s delim : Ptr) → Cmd Mem (Ptr × Ptr)
strsep fuel s delim = if s == null then pure (null, null) else do
  e ← strpbrk fuel s delim
  if e == null then pure (s, null) else do store e 0; pure (s, e + 1)

-- `holder` is the static variable, before the call and in the result after it.
unfoldable pub strtok : (fuel : ℕ) → (s delim holder : Ptr) → Cmd Mem (Ptr × Ptr)
strtok fuel s delim holder = strsep fuel (if s == null then holder else s) delim

unfoldable pub strstr : (fuel : ℕ) → (haystack needle : Ptr) → Cmd Mem Ptr
strstr fuel haystack needle = do
  n ← strlen fuel haystack
  m ← strlen fuel needle
  memmem fuel haystack n needle m
