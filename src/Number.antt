-- ===== src/Number.antt =====
-- `uitoa` and `itoa` of lib/stdlib. An `int32_t` is its bit pattern, a number below 2 ^ 32. A write or a
-- read beyond the array `tmp` and a division by 0 are faults.
pub mod Digits
pub mod Print
mod Tests
use awk.Base.{
  ℕ, zero, suc, ◌+◌, ◌-◌, ◌*◌, ◌/◌, ◌%◌, ◌^◌, ◌&&◌, ◌||◌, not, true, false, Option, none, some,
  List, [], ◌∷◌, Ptr, ◌==◌, ltb, leb, if◌then◌else◌, get_elem?,
}
use awk.Run.{Cmd, ok, fault, out_of_fuel, pure, ◌>>=◌, ◌>>◌}
use awk.Bytes.{Mem, put, load, store}

abbrev pub hex_table : List ℕ
hex_table = 48 ∷ 49 ∷ 50 ∷ 51 ∷ 52 ∷ 53 ∷ 54 ∷ 55 ∷ 56 ∷ 57 ∷ 65 ∷ 66 ∷ 67 ∷ 68 ∷ 69 ∷ 70 ∷ []

-- The loop that fills `tmp` from `pos` on. The result: `tmp` and `pos`.
unfoldable pub fill_tmp : (fuel : ℕ) → (i base : ℕ) → (tmp : Mem) → (pos : ℕ) → Cmd Mem (Mem × ℕ)
fill_tmp zero i base tmp pos = λ _. out_of_fuel
fill_tmp (suc fuel) i base tmp pos =
    if i == 0
    then pure (tmp, pos)
    else if (base == 0) || leb 32 pos
    then (λ _. fault)
    else elim (get_elem? hex_table (i % base)) [
      | none ↦ (λ _. fault)
      | some c ↦ fill_tmp fuel (i / base) base (put tmp pos c) (pos + 1)
    ]

-- `for (opos = …; opos < top; --pos, ++opos) buf[opos] = tmp[pos];`, where `rounds` is `top - opos`.
unfoldable pub copy_tmp :
    (rounds : ℕ) → (tmp : Mem) → (pos : ℕ) → (buf : Ptr) → (opos : ℕ) → Cmd Mem ℕ
copy_tmp zero tmp pos buf opos = pure opos
copy_tmp (suc rounds) tmp pos buf opos = if leb 32 pos then (λ _. fault) else do
  store (buf + opos) (tmp pos)
  copy_tmp rounds tmp ((pos + 2 ^ 32 - 1) % 2 ^ 32) buf (opos + 1)

-- `tmp` is the array as it is found on the stack.
unfoldable pub uitoa :
    (fuel : ℕ) → (tmp : Mem) → (i : ℕ) → (buf : Ptr) → (base : ℕ) → Cmd Mem (Unit {0})
uitoa fuel tmp i buf base =
    if (i == 0) || ltb 16 base then (do store buf 48; store (buf + 1) 0) else do
      (tmp, top) ← fill_tmp fuel i base tmp 0
      opos ← copy_tmp top tmp ((top + 2 ^ 32 - 1) % 2 ^ 32) buf 0
      store (buf + opos) 0

-- `i` is negative when its bit pattern is 2 ^ 31 or more. C leaves `i *= -1` undefined for the least
-- `int32_t`; here it is taken to wrap around to itself, as the i386 does.
unfoldable pub itoa :
    (fuel : ℕ) → (tmp : Mem) → (i : ℕ) → (buf : Ptr) → (base : ℕ) → Cmd Mem (Unit {0})
itoa fuel tmp i buf base =
    if ltb 16 base
    then pure tt
    else if (base == 10) && leb (2 ^ 31) i
    then (do store buf 45; uitoa fuel tmp ((2 ^ 32 - i) % 2 ^ 32) (buf + 1) base)
    else uitoa fuel tmp i buf base
