-- ===== src/Run.antt =====
-- Commands over a state: what a call of a kernel function can come to, and their sequence.
-- `fault` is an access through `NULL` or an address that holds no object, `panic` is a call of
-- `kernel_panic` (core/panic.c), `blocked` a thread that waits in `schedule` and is not resumed,
-- and `out_of_fuel` a walk along a list that did not end in the rounds that it was given.
use awk.Base.{◌≡◌, refl}

pub data Run (S A : Type 0) : Type 0 where
  ok : A → S → Run S A
  blocked : S → Run S A
  panic : Run S A
  fault : Run S A
  out_of_fuel : Run S A

abbrev pub Cmd : Type 0 → Type 0 → Type 0
Cmd S A = S → Run S A

abbrev pub pure : {S A : Type 0} → A → Cmd S A
pure = ok

module _ {S A B : Type 0} where
  abbrev pub and_then : Run S A → (A → Cmd S B) → Run S B
  and_then (ok a s) k = k a s
  and_then (blocked s) k = blocked s
  and_then panic k = panic
  and_then fault k = fault
  and_then out_of_fuel k = out_of_fuel

  infixl 5 ◌>>=◌ ◌>>◌
  abbrev pub ◌>>=◌ : Cmd S A → (A → Cmd S B) → Cmd S B
  m >>= k = λ s. and_then (m s) k

  abbrev pub ◌>>◌ : Cmd S A → Cmd S B → Cmd S B
  m >> n = m >>= λ _. n

-- A run that ends normally, with a value and a state that meet `P`.
pub data Returns {S A : Type 0} (P : A → S → Type 0) : Run S A → Type 0 where
  returns : {a : A} {s : S} → P a s → Returns P (ok a s)

module _ {S A : Type 0} {P : A → S → Type 0} where
  pub bind :
      {B : Type 0} {Q : B → S → Type 0} {r : Run S A} {k : A → Cmd S B}
      → Returns P r
      → ((a : A) (s : S) → P a s → Returns Q (k a s))
      → Returns Q (and_then r k)
  bind (returns p) next = next _ _ p

  pub mono :
      {Q : A → S → Type 0} {r : Run S A}
      → Returns P r
      → ((a : A) (s : S) → P a s → Q a s)
      → Returns Q r
  mono (returns p) weaken = returns (weaken _ _ p)

  -- The run itself, and what holds of its end.
  pub outcome : {r : Run S A} → Returns P r → (a : A) × (s : S) × (r ≡ ok a s) × P a s
  outcome (returns {a} {s} p) = (a, s, refl, p)

-- Inversion of a sequence that ends normally.
pub and_then-eq-ok :
    {S A B : Type 0} (r : Run S A) (f : A → Cmd S B) {b : B} {t : S}
    → and_then r f ≡ ok b t
    → (a : A) × (s : S) × (r ≡ ok a s) × (f a s ≡ ok b t)
and_then-eq-ok (ok a s) f e = (a, s, refl, e)
and_then-eq-ok (blocked s) f e = cc
and_then-eq-ok panic f e = cc
and_then-eq-ok fault f e = cc
and_then-eq-ok out_of_fuel f e = cc
