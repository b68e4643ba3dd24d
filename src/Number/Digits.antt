-- ===== src/Number/Digits.antt =====
-- What the digits that `uitoa` writes stand for.
use native.Mathlib.Nat.{mod-lt, div-add-mod, div-add-mod', zero-mul, mul-le-mul_right}
use native.Mathlib.Numerals.{add-one}
use awk.Base.{
  ℕ, zero, suc, ◌+◌, ◌-◌, ◌*◌, ◌/◌, ◌%◌, ◌<◌, ◌≤◌, ◌≡◌, ◌≢◌, refl, Bool, true, false, not, ◌&&◌,
  ◌||◌, Option, none, some, List, [], ◌∷◌, arith, ◌==◌, ltb, leb, if◌then◌else◌, get_elem?,
  Bool-cases, inl, inr, ◌⊎◌,
}
use awk.Run.{ok}
use awk.Bytes.{Mem, put}
use awk.Number.{hex_table, fill_tmp}

-- The value of a digit, `0` to `9` and `A` to `F`.
abbrev pub value : ℕ → ℕ
value c = if ltb c 58 then c - 48 else c - 55

-- The number that the digits, the first one first, stand for after `acc`.
abbrev pub read : (base acc : ℕ) → List ℕ → ℕ
read base acc [] = acc
read base acc (c ∷ cs) = read base (acc * base + value c) cs

-- A character of `0` to `9` or `A` to `F` whose value is below the base.
abbrev pub IsDigit : ℕ → ℕ → Type 0
IsDigit base c = (value c < base) × (48 ≤ c) × (c ≤ 70) × ((c ≤ 57) ⊎ (65 ≤ c))

abbrev pub AllDigits : ℕ → List ℕ → Type 0
AllDigits base [] = Unit {0}
AllDigits base (c ∷ cs) = IsDigit base c × AllDigits base cs

-- The digits in `tmp` below `pos`, the last one first.
abbrev pub chars : Mem → ℕ → List ℕ
chars tmp zero = []
chars tmp (suc pos) = tmp pos ∷ chars tmp pos

abbrev pub Leads : List ℕ → Type 0
Leads [] = Unit {0}
Leads (c ∷ cs) = c ≢ 48

chars-put : (tmp : Mem) (pos q c : ℕ) → pos ≤ q → chars (put tmp q c) pos ≡ chars tmp pos
chars-put tmp zero q c le = refl
chars-put tmp (suc pos) q c le =
    let rest = chars-put tmp pos q c (omega arith) in
    let here : put tmp q c pos ≡ tmp pos = ground arith in rw (here, rest)

chars-put_last : (tmp : Mem) (pos c : ℕ) → chars (put tmp pos c) (pos + 1) ≡ c ∷ chars tmp pos
chars-put_last tmp pos c =
    let below = chars-put tmp pos pos c (omega arith) in
    let here : put tmp pos c pos ≡ c = ground arith in rw (add-one pos, here, below)

-- Whether all numbers below `n` pass.
abbrev all_below : ℕ → (ℕ → Bool) → Bool
all_below zero f = true
all_below (suc n) f = f n && all_below n f

all_below-holds : (n : ℕ) (f : ℕ → Bool) (d : ℕ) → all_below n f ≡ true → d < n → f d ≡ true
all_below-holds zero f d all lt = absurd (omega arith)
all_below-holds (suc n) f d all lt = elim (Bool-cases (d == n)) [
  | inl same ↦ let here : d ≡ n = ground arith in rw here (ground (arith, all))
  | inr ne ↦ all_below-holds n f d (ground (arith, all)) (ground arith)
]

abbrev is_digit_of : ℕ → Option ℕ → Bool
is_digit_of d none = false
is_digit_of d (some c) =
    (value c == d) && leb 48 c && leb c 70 && (leb c 57 || leb 65 c) && (not (c == 48) || (d == 0))

-- The table has a digit of every number below 16.
hex_lem :
    (d : ℕ)
    → d < 16
    → (c : ℕ) × (get_elem? hex_table d ≡ some c)
      × (value c ≡ d)
      × (48 ≤ c)
      × (c ≤ 70)
      × ((c ≤ 57) ⊎ (65 ≤ c))
      × (c ≡ 48 → d ≡ 0)
hex_lem d lt =
    found (get_elem? hex_table d)
      (all_below-holds 16 (λ n. is_digit_of n (get_elem? hex_table n)) d refl lt)
  where
    found :
        (o : Option ℕ)
        → is_digit_of d o ≡ true
        → (c : ℕ) × (o ≡ some c)
          × (value c ≡ d)
          × (48 ≤ c)
          × (c ≤ 70)
          × ((c ≤ 57) ⊎ (65 ≤ c))
          × (c ≡ 48 → d ≡ 0)
    found none is = absurd (ground (arith, is))
    found (some c) is = (
      c,
      refl,
      ground (arith, is),
      ground (arith, is),
      ground (arith, is),
      elim (Bool-cases (leb c 57)) [
        | inl t ↦ inl (ground (arith, t))
        | inr f ↦ inr (ground (arith, is, f))
      ],
      λ e. ground (arith, is, e),
    )

-- The numbers of at most `k` bits lie below it.
abbrev pub bits : ℕ → ℕ
bits zero = 1
bits (suc k) = 2 * bits k

halved : (base i k : ℕ) → 2 ≤ base → i < bits (suc k) → i / base < bits k
halved base i k two lt =
    let split = div-add-mod i base in
    let more : 2 * (i / base) ≤ base * (i / base) = mul-le-mul_right (i / base) two in
    omega (arith, split, more)

-- What `fill_tmp` has made of `tmp`: the digits below `q` stand for `n`.
pub record Filled (base n : ℕ) (tmp : Mem) (q : ℕ) : Type 0 where
  pub number : read base 0 (chars tmp q) ≡ n
  pub digits : AllDigits base (chars tmp q)
  pub leads : Leads (chars tmp q)

zero_times : (base q : ℕ) → q ≡ 0 → q * base ≡ 0
zero_times base q e = rw e (zero-mul base)

read_step :
    (base q d n c : ℕ) (cs : List ℕ)
    → value c ≡ d
    → q * base + d ≡ n
    → read base q (c ∷ cs) ≡ read base n cs
read_step base q d n c cs val split = rw (val, split)

pub fill_tmp_lem :
    (k fuel i base : ℕ) (tmp : Mem) (pos : ℕ) (m : Mem)
    → 2 ≤ base
    → base ≤ 16
    → i < bits k
    → pos + k ≤ 32
    → k < fuel
    → AllDigits base (chars tmp pos)
    → (i ≡ 0 → Leads (chars tmp pos))
    → (tmp' : Mem) × (q : ℕ) × (fill_tmp fuel i base tmp pos m ≡ ok (tmp', q) m)
      × Filled base (read base i (chars tmp pos)) tmp' q
      × (pos ≤ q)
      × (q ≤ pos + k)
      × (i ≢ 0 → pos < q)
unfolding fill_tmp
fill_tmp_lem k zero i base tmp pos m two le lt room enough digits leads = absurd (omega arith)
fill_tmp_lem k (suc fuel) zero base tmp pos m two le lt room enough digits leads = (
  tmp,
  pos,
  refl,
  record { number = refl; digits = digits; leads = leads refl },
  omega arith,
  omega arith,
  λ ne. absurd (ne refl),
)
fill_tmp_lem zero (suc fuel) (suc i) base tmp pos m two le lt room enough digits leads =
    absurd (omega arith)
fill_tmp_lem (suc k) (suc fuel) (suc i) base tmp pos m two le lt room enough digits leads =
    let n = suc i in
    let below : n % base < base = mod-lt n (omega (arith, two)) in
    let (c, at_c, val, low, high, kind, nought) = hex_lem (n % base) (omega (arith, below, le)) in
    let split = div-add-mod' n base in
    let tmp1 = put tmp pos c in
    let grown : chars tmp1 (pos + 1) ≡ c ∷ chars tmp pos = chars-put_last tmp pos c in
    let digits1 : AllDigits base (chars tmp1 (pos + 1)) =
      rw grown ((rw val below, low, high, kind), digits) in
    let leads1 : n / base ≡ 0 → Leads (chars tmp1 (pos + 1)) =
      rw grown (λ e i. omega (arith, nought i, e, split, zero_times base (n / base) e)) in
    let (tmp', q, run, filled, from, to, more) =
      fill_tmp_lem k fuel (n / base) base tmp1 (pos + 1) m two le (halved base n k two lt)
        (omega (arith, room)) (omega (arith, enough)) digits1 leads1 in
    let turned : read base (n / base) (chars tmp1 (pos + 1)) ≡ read base n (chars tmp pos) =
      rw grown (read_step base (n / base) (n % base) n c (chars tmp pos) val split) in
    (
      tmp',
      q,
      ground (arith, two, room, at_c, run),
      rw turned at filled,
      omega (arith, from),
      omega (arith, to),
      λ ne. omega (arith, from),
    )
