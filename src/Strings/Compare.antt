-- ===== src/Strings/Compare.antt =====
-- `strcmp` tells equal texts from others.
use awk.Base.{
  ℕ, zero, suc, ◌+◌, ◌-◌, ◌%◌, ◌^◌, ◌<◌, ◌≡◌, refl, Bool, true, false, ◌&&◌, List, [], ◌∷◌, arith,
  Ptr, length, ◌==◌, Bool-cases, inl, inr,
}
use awk.Run.{ok}
use awk.Bytes.{Mem, Text}
use awk.Strings.{strcmp}

abbrev pub same_text : List ℕ → List ℕ → Bool
same_text [] [] = true
same_text [] (d ∷ ds) = false
same_text (c ∷ cs) [] = false
same_text (c ∷ cs) (d ∷ ds) = (c == d) && same_text cs ds

-- On two texts, with more fuel than the first has characters, `strcmp` ends, and its result is 0
-- exactly when the texts are the same; memory holds bytes, and does not change.
pub strcmp-same_text :
    (fuel : ℕ) (mem : Mem) (s1 s2 : Ptr) (cs ds : List ℕ)
    → ((a : Ptr) → mem a < 256)
    → Text mem s1 cs
    → Text mem s2 ds
    → length cs < fuel
    → (d : ℕ) × (strcmp fuel s1 s2 mem ≡ ok d mem) × ((d == 0) ≡ same_text cs ds)
unfolding strcmp
strcmp-same_text zero mem s1 s2 cs ds bytes text text' enough = absurd (omega arith)
strcmp-same_text (suc fuel) mem s1 s2 [] [] bytes text text' enough =
    (0, ground (arith, text, text'), refl)
strcmp-same_text (suc fuel) mem s1 s2 [] (d ∷ ds) bytes text text' enough = (
  (mem s1 + 2 ^ 32 - mem s2) % 2 ^ 32,
  ground (arith, text, text'),
  ground (arith, text, text'.0, text'.1, bytes s2),
)
strcmp-same_text (suc fuel) mem s1 s2 (c ∷ cs) [] bytes text text' enough = (
  (mem s1 + 2 ^ 32 - mem s2) % 2 ^ 32,
  ground (arith, text.0, text.1, text'),
  ground (arith, text.0, text.1, text', bytes s1),
)
strcmp-same_text (suc fuel) mem s1 s2 (c ∷ cs) (d ∷ ds) bytes text text' enough =
    elim (Bool-cases (mem s1 == mem s2)) [
      | inl t ↦
          let (e, run, same) =
            strcmp-same_text fuel mem (s1 + 1) (s2 + 1) cs ds bytes text.2 text'.2
              (omega (arith, enough)) in
          (e, ground (arith, t, run, text.0, text.1), ground (arith, same, t, text.0, text'.0))
      | inr f ↦ (
        (mem s1 + 2 ^ 32 - mem s2) % 2 ^ 32,
        ground (arith, f),
        ground (arith, f, text.0, text'.0, bytes s1, bytes s2),
      )
    ]
