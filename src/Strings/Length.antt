-- ===== src/Strings/Length.antt =====
-- `strlen`, `strchr` and `strstr` on texts.
use awk.Base.{ℕ, zero, suc, ◌+◌, ◌<◌, ◌≡◌, ◌≢◌, refl, List, [], ◌∷◌, arith, Ptr, length}
use awk.Run.{ok}
use awk.Bytes.{Mem, Text}
use awk.MemoryBlock.Search.{first_match, places, memmem-first_match}
use awk.Strings.{end_of, strlen, strchr, strstr}

end_of_lem :
    (fuel : ℕ) (mem : Mem) (s : Ptr) (cs : List ℕ)
    → Text mem s cs
    → length cs < fuel
    → end_of fuel s mem ≡ ok (s + length cs) mem
unfolding end_of
end_of_lem zero mem s cs text enough = absurd (omega arith)
end_of_lem (suc fuel) mem s [] text enough = ground (arith, text)
end_of_lem (suc fuel) mem s (c ∷ cs) text enough =
    ground (arith, text.0, text.1, end_of_lem fuel mem (s + 1) cs text.2 (omega (arith, enough)))

-- With more fuel than the text has characters, `strlen` returns their number.
strlen_lem :
    (fuel : ℕ) (mem : Mem) (s : Ptr) (cs : List ℕ)
    → Text mem s cs
    → length cs < fuel
    → strlen fuel s mem ≡ ok (length cs) mem
unfolding strlen
strlen_lem fuel mem s cs text enough = ground (arith, end_of_lem fuel mem s cs text enough)

-- The terminator of a text, as `strcat` looks for it.
pub strchr_end :
    (fuel : ℕ) (mem : Mem) (s : Ptr) (cs : List ℕ)
    → Text mem s cs
    → length cs < fuel
    → strchr fuel s 0 mem ≡ ok (s + length cs) mem
unfolding strchr
strchr_end zero mem s cs text enough = absurd (omega arith)
strchr_end (suc fuel) mem s [] text enough = ground (arith, text)
strchr_end (suc fuel) mem s (c ∷ cs) text enough =
    ground (arith, text.0, text.1, strchr_end fuel mem (s + 1) cs text.2 (omega (arith, enough)))

-- On two texts, of which the second is not empty, with more fuel than the second has characters and
-- than the first has by two, `strstr` returns what trying every place in turn would: the first place
-- at which the second stands in the first, or `NULL`; memory holds bytes, and does not change.
strstr-first_match :
    (fuel : ℕ) (mem : Mem) (haystack needle : Ptr) (cs ds : List ℕ)
    → ((a : Ptr) → mem a < 256)
    → Text mem haystack cs
    → Text mem needle ds
    → length cs + 1 < fuel
    → length ds < fuel
    → ds ≢ []
    → strstr fuel haystack needle mem
      ≡ ok (first_match mem needle (length ds) (places (length cs) (length ds)) haystack) mem
unfolding strstr
strstr-first_match fuel mem haystack needle cs [] bytes text text' enough enough' some =
    absurd (some refl)
strstr-first_match fuel mem haystack needle cs (d ∷ ds) bytes text text' enough enough' some =
    let n = length cs in
    let m = length (d ∷ ds) in
    let found =
      memmem-first_match mem bytes fuel haystack n needle m (ground (arith, enough))
        (λ e. omega (arith, e)) in
    rw
      (
        strlen_lem fuel mem haystack cs text (omega (arith, enough)),
        strlen_lem fuel mem needle (d ∷ ds) text' enough',
      )
      found
