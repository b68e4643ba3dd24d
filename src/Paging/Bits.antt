-- ===== src/Paging/Bits.antt =====
-- The bits of the entries of memory/paging.c.
use awk.Base.{ℕ, zero, suc, ◌+◌, ◌-◌, ◌*◌, ◌/◌, ◌%◌, ◌^◌, ◌<◌, ◌≡◌, refl, ◌∙◌, true, false, arith}
use awk.Paging.{or_bits, bit_or, present, empty_entry, dir_value, entry_value}

or_bits-lowest : (w x : ℕ) → or_bits (suc w) x 1 % 2 ≡ 1
unfolding or_bits
or_bits-lowest w x = ground arith

-- An entry with its lowest bit set is present.
pub present-bit_or_one : (x : ℕ) → present (bit_or x 1) ≡ true
unfolding present bit_or
present-bit_or_one x = ground (arith, or_bits-lowest 31 x)

pub present-dir_value : (t : ℕ) → present (dir_value t) ≡ true
unfolding dir_value
present-dir_value t = present-bit_or_one (bit_or (bit_or (bit_or t 0) 0) 2)

pub present-entry_value : (p flags : ℕ) → present (entry_value p flags) ≡ true
unfolding entry_value
present-entry_value p flags = present-bit_or_one (bit_or p flags)

pub present-empty_entry : present empty_entry ≡ false
unfolding present empty_entry bit_or or_bits
present-empty_entry = refl

-- A number with room for `n` bits below its own.
abbrev shifted : ℕ → ℕ → ℕ
shifted zero x = x
shifted (suc n) x = 2 * shifted n x

or_bits-zero : (w x : ℕ) → x < 2 ^ w → or_bits w x 0 ≡ x
unfolding or_bits
or_bits-zero zero x h = omega arith
or_bits-zero (suc w) x h = ground (arith, or_bits-zero w (x / 2) (omega arith))

-- `a | b` is a sum where the bits of `b` are below those of `a`.
or_bits-shifted :
    (n w x f : ℕ)
    → f < 2 ^ n
    → shifted n x + f < 2 ^ w
    → or_bits w (shifted n x) f ≡ shifted n x + f
unfolding or_bits
or_bits-shifted zero w x zero h b = or_bits-zero w x (omega arith) ∙ omega arith
or_bits-shifted zero w x (suc f) h b = absurd (omega arith)
or_bits-shifted (suc n) zero x f h b = omega arith
or_bits-shifted (suc n) (suc w) x f h b =
    let half : (2 * shifted n x) / 2 ≡ shifted n x = omega arith in
    let upper = or_bits-shifted n w x (f / 2) (omega arith) (omega arith) in
    rw (half, upper) (ground arith)

-- A page number above the twelve bits of the flags.
pub bit_or_page : (k f : ℕ) → f < 4096 → k < 2 ^ 20 → bit_or (4096 * k) f ≡ 4096 * k + f
unfolding bit_or
bit_or_page k f h b =
    let e : shifted 12 k ≡ 4096 * k = omega arith in
    rw e at (or_bits-shifted 12 32 k f (omega arith) (omega arith))

or_bits-one : (w x : ℕ) → x < 2 ^ suc w → or_bits (suc w) x 1 ≡ x + 1 - x % 2
unfolding or_bits
or_bits-one w x h = ground (arith, or_bits-zero w (x / 2) (omega arith))

-- Setting the lowest bit.
pub bit_or_one : (x : ℕ) → x < 2 ^ 32 → bit_or x 1 ≡ x + 1 - x % 2
unfolding bit_or
bit_or_one x h = or_bits-one 31 x h
