-- ===== src/Strings/Join.antt =====
-- `strcpy` and `strcat` on texts that do not overlap.
use awk.Base.{
  ℕ, zero, suc, ◌+◌, ◌%◌, ◌<◌, ◌≤◌, ◌≡◌, ◌∙◌, ◌⊎◌, inl, inr, List, [], ◌∷◌, ◌++◌, arith, Ptr,
  length, length-append,
}
use awk.Run.{ok}
use awk.Bytes.{Mem, put, Text, SameOutside}
use awk.Strings.{copy_text, strcpy, strcat}
use awk.Strings.Length.{strchr_end}

-- A text stands where the bytes are those of another memory in which it stands.
Text-frame :
    (m m' : Mem) (p : Ptr) (cs : List ℕ)
    → Text m p cs
    → ((a : Ptr) → p ≤ a → a ≤ p + length cs → m' a ≡ m a)
    → Text m' p cs
Text-frame m m' p [] text same = same p (omega arith) (omega arith) ∙ text
Text-frame m m' p (c ∷ cs) text same = (
  same p (omega arith) (omega arith) ∙ text.0,
  text.1,
  Text-frame m m' (p + 1) cs text.2
      (λ a low high. same a (omega (arith, low)) (omega (arith, high))),
)

-- No byte of the one range, up to and with its last, is in the other.
abbrev pub Clear : (p : Ptr) (n : ℕ) (q : Ptr) (k : ℕ) → Type 0
Clear p n q k = (p + n < q) ⊎ (q + k < p)

copy_text_lem :
    (fuel : ℕ) (m : Mem) (q p : Ptr) (cs : List ℕ)
    → ((a : Ptr) → m a < 256)
    → Text m p cs
    → Clear p (length cs) q (length cs)
    → length cs < fuel
    → (m' : Mem) × (copy_text fuel q p m ≡ ok tt m')
      × Text m' q cs
      × SameOutside m m' q (q + length cs + 1)
unfolding copy_text
copy_text_lem zero m q p cs bytes text apart enough = absurd (omega arith)
copy_text_lem (suc fuel) m q p [] bytes text apart enough = (
  put m q 0,
  ground (arith, text),
  ground arith,
  ((λ a below. ground (arith, below)), λ a above. ground (arith, above)),
)
copy_text_lem (suc fuel) m q p (c ∷ cs) bytes text apart enough =
    let m1 = put m q (m p % 256) in
    let text1 : Text m1 (p + 1) cs =
      Text-frame m m1 (p + 1) cs text.2 (λ a low high. ground (arith, low, high, apart)) in
    let (m', run, text', same) =
      copy_text_lem fuel m1 (q + 1) (p + 1) cs (λ a. ground (arith, bytes a)) text1
        (ground (arith, apart)) (omega (arith, enough)) in
    (
      m',
      ground (arith, text.0, text.1, run),
      (same.0 q (omega arith) ∙ ground (arith, text.0, bytes p), text.1, text'),
      (
        (λ a below. same.0 a (omega (arith, below)) ∙ ground (arith, below)),
        λ a above. same.1 a (omega (arith, above)) ∙ ground (arith, above),
      ),
    )

Text-append :
    (m : Mem) (p : Ptr) (cs ds : List ℕ) (m0 : Mem)
    → Text m0 p cs
    → ((a : Ptr) → p ≤ a → a < p + length cs → m a ≡ m0 a)
    → Text m (p + length cs) ds
    → Text m p (cs ++ ds)
Text-append m p [] ds m0 text same next = let here : p + 0 ≡ p = omega arith in rw here at next
Text-append m p (c ∷ cs) ds m0 text same next =
    let there : p + length (c ∷ cs) ≡ p + 1 + length cs = omega arith in
    (
      same p (omega arith) (omega arith) ∙ text.0,
      text.1,
      Text-append m (p + 1) cs ds m0 text.2
          (λ a low high. same a (omega (arith, low)) (omega (arith, high))) (rw there at next),
    )

-- `strcat` on two texts, with more fuel than either has characters and the second text apart from
-- the room that the result takes, returns `dst`, where the one text followed by the other then
-- stands; the second text is as before and no byte outside the room behind the first text changes;
-- memory holds bytes.
pub strcat-append :
    (fuel : ℕ) (m : Mem) (dst src : Ptr) (cs ds : List ℕ)
    → ((a : Ptr) → m a < 256)
    → Text m dst cs
    → Text m src ds
    → Clear src (length ds) dst (length (cs ++ ds))
    → length cs < fuel
    → length ds < fuel
    → (m' : Mem) × (strcat fuel dst src m ≡ ok dst m')
      × Text m' dst (cs ++ ds)
      × Text m' src ds
      × SameOutside m m' (dst + length cs) (dst + length (cs ++ ds) + 1)
unfolding strcat strcpy
strcat-append fuel m dst src cs ds bytes text text' apart enough enough' =
    let both = length-append cs ds in
    let (m', run, copy, same) =
      copy_text_lem fuel m (dst + length cs) src ds bytes text' (ground (arith, apart, both))
        enough' in
    (
      m',
      ground (arith, strchr_end fuel m dst cs text enough, run),
      Text-append m' dst cs ds m text (λ a low high. same.0 a high) copy,
      Text-frame m m' src ds text' (λ a low high. elim apart [
        | inl before ↦ same.0 a (omega (arith, before, high))
        | inr behind ↦ same.1 a (omega (arith, behind, low, both))
      ]),
      (same.0, λ a above. same.1 a (omega (arith, above, both))),
    )
