-- ===== src/Number/Print.antt =====
-- `uitoa` and `itoa` as a whole: the text that they leave in the buffer.
use awk.Base.{
  ℕ, zero, suc, ◌+◌, ◌-◌, ◌/◌, ◌%◌, ◌^◌, ◌<◌, ◌≤◌, ◌≡◌, ◌≢◌, refl, sym, ◌∙◌, Bool, false, List, [],
  ◌∷◌, arith, Ptr, ◌==◌, leb, if◌then◌else◌, length, Bool-cases, inl, inr,
}
use awk.Run.{ok, fault}
use awk.Bytes.{Mem, put, Text, SameOutside}
use awk.Number.{fill_tmp, copy_tmp, uitoa, itoa}
use awk.Number.Digits.{read, AllDigits, chars, Leads, fill_tmp_lem}

abbrev Stored : Mem → Ptr → List ℕ → Type 0
Stored m p [] = Unit {0}
Stored m p (c ∷ cs) = (m p ≡ c) × Stored m (p + 1) cs

Text-of_Stored :
    (base : ℕ) (m : Mem) (p : Ptr) (cs : List ℕ)
    → AllDigits base cs
    → Stored m p cs
    → Text (put m (p + length cs) 0) p cs
Text-of_Stored base m p [] digits stored = ground arith
Text-of_Stored base m p (c ∷ cs) digits stored =
    let far : p + length (c ∷ cs) ≡ p + 1 + length cs = omega arith in
    let later = Text-of_Stored base m (p + 1) cs digits.1 stored.1 in
    (ground (arith, stored), (λ e. omega (arith, e, digits.0)), rw (sym far) at later)

length-chars : (tmp : Mem) (q : ℕ) → length (chars tmp q) ≡ q
length-chars tmp zero = refl
length-chars tmp (suc q) = omega (arith, length-chars tmp q)

copy_tmp_lem :
    (base rounds : ℕ) (tmp : Mem) (pos : ℕ) (buf : Ptr) (opos : ℕ) (m : Mem)
    → pos ≡ (rounds + 2 ^ 32 - 1) % 2 ^ 32
    → rounds ≤ 32
    → AllDigits base (chars tmp rounds)
    → (m' : Mem) × (copy_tmp rounds tmp pos buf opos m ≡ ok (opos + rounds) m')
      × Stored m' (buf + opos) (chars tmp rounds)
      × SameOutside m m' (buf + opos) (buf + opos + rounds)
unfolding copy_tmp
copy_tmp_lem base zero tmp pos buf opos m at_pos room digits =
    (m, ground arith, tt, ((λ a lt. refl), λ a le. refl))
copy_tmp_lem base (suc rounds) tmp pos buf opos m at_pos room digits =
    let here : pos ≡ rounds = omega (arith, at_pos, room) in
    let m1 = put m (buf + opos) (tmp pos % 256) in
    let next : buf + (opos + 1) ≡ buf + opos + 1 = omega arith in
    let (m', run, stored, same) =
      copy_tmp_lem base rounds tmp ((pos + 2 ^ 32 - 1) % 2 ^ 32) buf (opos + 1) m1 (rw here)
        (omega (arith, room)) digits.1 in
    (
      m',
      ground (arith, room, here, run),
      (same.0 (buf + opos) (omega arith) ∙ ground (arith, here, digits.0), rw next at stored),
      (
        (λ a lt. same.0 a (omega (arith, lt)) ∙ ground (arith, lt)),
        λ a le. same.1 a (omega (arith, le)) ∙ ground (arith, le),
      ),
    )

-- For a base from 2 to 16 and more fuel than 32, `uitoa` ends, and leaves in the buffer a text of
-- one to 32 digits of that base, `0` to `9` and `A` to `F`, without a leading 0 unless the number is
-- 0, that stand for the bit pattern of its argument; no byte beyond the text and its null character
-- changes.
pub uitoa_lem :
    (fuel : ℕ) (tmp : Mem) (i : ℕ) (buf : Ptr) (base : ℕ) (m : Mem)
    → 2 ≤ base
    → base ≤ 16
    → i < 2 ^ 32
    → 32 < fuel
    → (cs : List ℕ) × (m' : Mem) × (uitoa fuel tmp i buf base m ≡ ok tt m')
      × Text m' buf cs
      × (read base 0 cs ≡ i)
      × AllDigits base cs
      × (i ≢ 0 → Leads cs)
      × (0 < length cs)
      × (length cs ≤ 32)
      × SameOutside m m' buf (buf + length cs + 1)
unfolding uitoa
uitoa_lem fuel tmp zero buf base m two le lt enough = (
  48 ∷ [],
  put (put m buf 48) (buf + 1) 0,
  ground arith,
  (ground arith, ground arith, ground arith),
  ground arith,
  ((ground (arith, two), ground arith, ground arith, inl (omega arith)), tt),
  (λ ne. absurd (ne refl)),
  omega arith,
  omega arith,
  ((λ a below. ground (arith, below)), λ a above. ground (arith, above)),
)
uitoa_lem fuel tmp (suc i) buf base m two le lt enough =
    let (tmp', q, run, filled, from, to, more) =
      fill_tmp_lem 32 fuel (suc i) base tmp 0 m two le lt (omega arith) enough tt
        (λ e. absurd (ground (arith, e))) in
    let (m', run', stored, same) =
      copy_tmp_lem base q tmp' ((q + 2 ^ 32 - 1) % 2 ^ 32) buf 0 m refl (omega (arith, to))
        filled.digits in
    let cs = chars tmp' q in
    let len : length cs ≡ q = length-chars tmp' q in
    let start : buf + 0 ≡ buf = omega arith in
    let end : buf + (0 + q) ≡ buf + length cs = omega (arith, len) in
    (
      cs,
      put m' (buf + length cs) 0,
      rw (sym end) (ground (arith, le, run, run')),
      Text-of_Stored base m' buf cs filled.digits (rw start at stored),
      filled.number,
      filled.digits,
      (λ ne. filled.leads),
      omega (arith, len, more (λ e. ground (arith, e))),
      omega (arith, len, to),
      (
        (λ a below. ground (arith, below) ∙ same.0 a (omega (arith, below))),
        λ a above. ground (arith, above) ∙ same.1 a (omega (arith, above, len)),
      ),
    )

-- Whether a text has the sign of a negative number, the characters behind the sign, and the bit pattern
-- that the text stands for.
abbrev pub has_sign : List ℕ → Bool
has_sign [] = false
has_sign (c ∷ cs) = c == 45

abbrev pub magnitude : List ℕ → List ℕ
magnitude [] = []
magnitude (c ∷ cs) = if c == 45 then cs else c ∷ cs

abbrev pub signed_read : List ℕ → ℕ
signed_read cs = if has_sign cs then 2 ^ 32 - read 10 0 (magnitude cs) else read 10 0 (magnitude cs)

unsigned : (cs : List ℕ) → AllDigits 10 cs → (has_sign cs ≡ false) × (magnitude cs ≡ cs)
unsigned [] digits = (refl, refl)
unsigned (c ∷ cs) digits = (ground (arith, digits.0), ground (arith, digits.0))

-- For base 10 and more fuel than 32, `itoa` ends. The text that it leaves in the buffer starts with
-- `-` exactly when its argument is negative; what follows the sign are decimal digits, at least one
-- and without a leading 0 unless the argument is 0, and with the sign they stand for the argument.
-- The text has at most 33 characters, and no byte beyond it and its null character changes.
pub itoa-signed_read :
    (fuel : ℕ) (tmp : Mem) (i : ℕ) (buf : Ptr) (m : Mem)
    → i < 2 ^ 32
    → 32 < fuel
    → (cs : List ℕ) × (m' : Mem) × (itoa fuel tmp i buf 10 m ≡ ok tt m')
      × Text m' buf cs
      × (has_sign cs ≡ leb (2 ^ 31) i)
      × AllDigits 10 (magnitude cs)
      × (0 < length (magnitude cs))
      × (i ≢ 0 → Leads (magnitude cs))
      × (signed_read cs ≡ i)
      × (length cs ≤ 33)
      × SameOutside m m' buf (buf + length cs + 1)
unfolding itoa
itoa-signed_read fuel tmp i buf m lt enough = elim (Bool-cases (leb (2 ^ 31) i)) [
  | inr f ↦
      let (cs, m', run, text, number, digits, leads, some, few, same) =
        uitoa_lem fuel tmp i buf 10 m (omega arith) (omega arith) lt enough in
      let (plain, whole) = unsigned cs digits in
      (
        cs,
        m',
        rw f run,
        text,
        plain ∙ sym f,
        rw whole digits,
        rw whole some,
        rw whole leads,
        rw (plain, whole) number,
        omega (arith, few),
        same,
      )
  | inl t ↦
      let m1 = put m buf 45 in
      let high : 2 ^ 31 ≤ i = ground (arith, t) in
      let (cs, m', run, text, number, digits, leads, some, few, same) =
        uitoa_lem fuel tmp ((2 ^ 32 - i) % 2 ^ 32) (buf + 1) 10 m1 (omega arith) (omega arith)
          (omega arith) enough in
      (
        45 ∷ cs,
        m',
        rw t run,
        (same.0 buf (omega arith) ∙ ground arith, (λ e. omega (arith, e)), text),
        sym t,
        digits,
        some,
        (λ ne. leads (λ e. omega (arith, e, high, lt))),
        rw number (omega (arith, high, lt)),
        omega (arith, few),
        (
          (λ a below. same.0 a (omega (arith, below)) ∙ ground (arith, below)),
          λ a above. same.1 a (omega (arith, above)) ∙ ground (arith, above),
        ),
      )
]

fill_tmp_faults :
    (k fuel i : ℕ) (tmp : Mem) (pos : ℕ) (m : Mem)
    → i ≢ 0
    → 32 ≤ pos + k
    → k < fuel
    → fill_tmp fuel i 1 tmp pos m ≡ fault
unfolding fill_tmp
fill_tmp_faults k zero i tmp pos m ne room enough = absurd (omega arith)
fill_tmp_faults zero (suc fuel) i tmp pos m ne room enough = ground (arith, ne, room)
fill_tmp_faults (suc k) (suc fuel) i tmp pos m ne room enough =
    let same : i / 1 ≡ i = omega arith in
    let rest =
      fill_tmp_faults k fuel i (put tmp pos 48) (pos + 1) m ne (omega (arith, room))
        (omega (arith, enough)) in
    let none_left : i % 1 ≡ 0 = omega arith in
    let some_left : (i == 0) ≡ false = ground (arith, ne) in
    elim (Bool-cases (leb 32 pos)) [
      | inl t ↦ rw (some_left, t) refl
      | inr f ↦ rw (some_left, f, none_left, same) rest
    ]

-- For a base of 0 or 1 and a number other than 0, with more fuel than 32, `uitoa` comes to a fault:
-- a division by 0, or a write beyond the 32 characters of `tmp`.
pub uitoa_faults :
    (fuel : ℕ) (tmp : Mem) (i : ℕ) (buf : Ptr) (base : ℕ) (m : Mem)
    → i ≢ 0
    → base < 2
    → 32 < fuel
    → uitoa fuel tmp i buf base m ≡ fault
unfolding uitoa fill_tmp
uitoa_faults zero tmp i buf zero m ne small enough = absurd (omega arith)
uitoa_faults (suc fuel) tmp i buf zero m ne small enough = ground (arith, ne)
uitoa_faults fuel tmp i buf (suc zero) m ne small enough =
    ground (arith, ne, fill_tmp_faults 32 fuel i tmp 0 m ne (omega arith) enough)
uitoa_faults fuel tmp i buf (suc (suc b)) m ne small enough = absurd (omega arith)
