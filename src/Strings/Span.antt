-- ===== src/Strings/Span.antt =====
-- `strspn` and `strcspn` measure the longest start of a text with and without characters of another one.
use awk.Base.{
  ℕ, zero, suc, ◌+◌, ◌<◌, ◌≡◌, ◌≢◌, refl, ap, ◌∙◌, Bool, true, false, not, ◌||◌, List, [], ◌∷◌,
  arith, Ptr, length, ◌==◌, if◌then◌else◌, Bool-cases, inl, inr,
}
use awk.Run.{ok}
use awk.Bytes.{Mem, put, Text}
use awk.Strings.{fill_matchmap, count_span, strxspn, strspn, strcspn}

abbrev pub member : ℕ → List ℕ → Bool
member c [] = false
member c (d ∷ ds) = (c == d) || member c ds

abbrev pub span_length : (ℕ → Bool) → List ℕ → ℕ
span_length p [] = 0
span_length p (c ∷ cs) = let rest = suc (span_length p cs) in if p c then rest else 0

fill_matchmap_lem :
    (fuel : ℕ) (mem : Mem) (map : Ptr) (ds : List ℕ) (f : ℕ → ℕ)
    → Text mem map ds
    → length ds < fuel
    → (g : ℕ → ℕ) × (fill_matchmap fuel map f mem ≡ ok g mem)
      × ((c : ℕ) → g c ≡ (if member c ds then 1 else f c))
unfolding fill_matchmap
fill_matchmap_lem zero mem map ds f text enough = absurd (omega arith)
fill_matchmap_lem (suc fuel) mem map [] f text enough = (f, ground (arith, text), λ c. refl)
fill_matchmap_lem (suc fuel) mem map (d ∷ ds) f text enough =
    let (g, run, all) =
      fill_matchmap_lem fuel mem (map + 1) ds (put f (mem map) 1) text.2 (omega (arith, enough)) in
    (g, ground (arith, text.0, text.1, run), λ c. all c ∙ ground (arith, text.0))

count_span_lem :
    (fuel : ℕ) (mem : Mem) (s : Ptr) (cs : List ℕ) (f : ℕ → ℕ) (parity : ℕ)
    → Text mem s cs
    → f 0 ≡ parity
    → length cs < fuel
    → count_span fuel s f parity mem ≡ ok (span_length (λ c. not (f c == parity)) cs) mem
unfolding count_span
count_span_lem zero mem s cs f parity text stop enough = absurd (omega arith)
count_span_lem (suc fuel) mem s [] f parity text stop enough =
    let here : (f (mem s) == parity) ≡ true = rw text (ground (arith, stop)) in rw here refl
count_span_lem (suc fuel) mem s (c ∷ cs) f parity text stop enough =
    let rest = count_span_lem fuel mem (s + 1) cs f parity text.2 stop (omega (arith, enough)) in
    elim (Bool-cases (f c == parity)) [
      | inl t ↦ rw (text.0, t) refl
      | inr e ↦ rw (text.0, e) (rw rest (ground arith))
    ]

span_ext :
    (mem : Mem) (s : Ptr) (cs : List ℕ) (p q : ℕ → Bool)
    → Text mem s cs
    → ((c : ℕ) → c ≢ 0 → p c ≡ q c)
    → span_length p cs ≡ span_length q cs
span_ext mem s [] p q text same = refl
span_ext mem s (c ∷ cs) p q text same =
    let here = same c text.1 in
    let rest = span_ext mem (s + 1) cs p q text.2 same in rw (here, rest) refl

-- On two texts, with more fuel than either has characters, `strspn` returns the length of the
-- longest start of the first that has only characters of the second, and `strcspn` that of the
-- longest start that has none of them; memory does not change.
pub strspn-span_length :
    (fuel : ℕ) (mem : Mem) (s accept : Ptr) (cs ds : List ℕ)
    → Text mem s cs
    → Text mem accept ds
    → length cs < fuel
    → length ds < fuel
    → (strspn fuel s accept mem ≡ ok (span_length (λ c. member c ds) cs) mem)
      × (strcspn fuel s accept mem ≡ ok (span_length (λ c. not (member c ds)) cs) mem)
unfolding strspn strcspn strxspn
strspn-span_length fuel mem s accept cs ds text text' enough enough' =
    let (g, run, all) = fill_matchmap_lem fuel mem accept ds (λ _. 0) text' enough' in
    let with_0 = count_span_lem fuel mem s cs (put g 0 0) 0 text refl enough in
    let with_1 = count_span_lem fuel mem s cs (put g 0 1) 1 text refl enough in
    let same_0 =
      span_ext mem s cs (λ c. not (put g 0 0 c == 0)) (λ c. member c ds) text
        (λ c ne. ground (arith, ne, all c)) in
    let same_1 =
      span_ext mem s cs (λ c. not (put g 0 1 c == 1)) (λ c. not (member c ds)) text
        (λ c ne. ground (arith, ne, all c)) in
    (rw run (with_0 ∙ ap (λ n. ok n mem) same_0), rw run (with_1 ∙ ap (λ n. ok n mem) same_1))
