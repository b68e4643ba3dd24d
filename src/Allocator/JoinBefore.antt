-- ===== src/Allocator/JoinBefore.antt =====
-- A freed chunk of memory/heap.c is joined to the free chunk before it.
use mathlib.Core.Path.{subst}
use awk.Base.{ℕ, ◌≡◌, refl, sym, ◌∙◌, true, false, not, ◌&&◌, Ptr, [], ◌∷◌, ◌++◌, arith, ◌==◌}
use awk.Allocator.{
  Links, Kheap, assign, header_size, add32, sub32, memory_chunk_size, remove, push_free,
}
use awk.Allocator.Ring.{Ptrs, member, IsRing, member-append}
use awk.Allocator.Bins.{IsFree-change}
use awk.Allocator.Chunks.{chunks, IsMarked}
use awk.Allocator.Between.{between, neighbours}
use awk.Allocator.Absorb.{push_free-IsMarked, remove-IsMarked, member-left}

-- Marks that agree on the chunks serve as well.
pub IsMarked-agree :
    (h : Kheap) (used used' : Ptr → ℕ) (inner : Ptrs) (bs : ℕ → Ptrs)
    → IsMarked h used inner bs
    → ((x : Ptr) → member x (chunks h inner) ≡ true → used x ≡ used' x)
    → IsMarked h used' inner bs
IsMarked-agree h used used' inner bs is agree = record {
  ring = is.ring;
  spaced = is.spaced;
  bins =
      IsFree-change [] (memory_chunk_size h.all) used' (chunks h inner) is.bins
        (λ p o. (refl, refl)) (λ p o i. refl)
        (λ p there idle. (there, sym (agree p there) ∙ idle, refl))
        (λ p there idle. (there, agree p there ∙ idle, refl)) is.bins.nonnull;
  first_used = ground (arith, agree h.first_chunk, is.first_used);
  last_used = ground (
    arith,
    agree h.last_chunk,
    is.last_used,
    member-append h.last_chunk inner (h.last_chunk ∷ []),
  );
}

-- The chunk `c` is joined to the chunk `p` before it, which then goes into its bin.
pub record JoinedBefore (h : Kheap) (used : Ptr → ℕ) (inner : Ptrs) (p c : Ptr) : Type 0 where
  pub links : Links
  pub heads : ℕ → Ptr
  pub left : Ptrs
  pub bs : ℕ → Ptrs
  pub size : ℕ
  pub run : push_free p (record h { all = remove c h.all }) ≡ record h {
    all = remove c h.all;
    free = links;
    free_chunk = heads;
    mem_free = add32 h.mem_free (sub32 size header_size);
  }
  pub valid :
      IsMarked
        (record h {
          all = remove c h.all;
          free = links;
          free_chunk = heads;
          mem_free = add32 h.mem_free (sub32 size header_size);
        })
        (assign used p 0)
        left
        bs
  pub members : (x : Ptr) → member x left ≡ (member x inner && not (x == c))

pub join_before :
    (h : Kheap) (used : Ptr → ℕ) (inner : Ptrs) (bs : ℕ → Ptrs) (p c : Ptr)
    → IsMarked h used inner bs
    → member c inner ≡ true
    → member p inner ≡ true
    → (c == p) ≡ false
    → (used c == 0) ≡ false
    → (used p == 0) ≡ false
    → h.all.prev c ≡ p
    → IsRing h.free (p ∷ [])
    → JoinedBefore h used inner p c
join_before h used inner bs p c m c_in p_in ne busy_c busy_p back alone =
    let at = between h inner c c_in in
    let back_c = sym (neighbours h inner c at used bs m).0 ∙ back in
    let m3 =
      remove-IsMarked h used inner bs m c at busy_c
        (subst (λ x. (used x == 0) ≡ false) (sym back_c) busy_p) in
    let h3 = record h { all = remove c h.all } in
    let left = at.before ++ at.after in
    let p_left : member p left ≡ true = member-left h used inner bs m c at p ∙ both_true p_in ne in
    let (links, heads, bs4, run, m4) =
      push_free-IsMarked h3 used left bs m3 p p_left busy_p alone in
    record {
      links = links;
      heads = heads;
      left = left;
      bs = bs4;
      size = memory_chunk_size h3.all p;
      run = run;
      valid = m4;
      members = member-left h used inner bs m c at;
    }
  where
    both_true : member p inner ≡ true → (c == p) ≡ false → (member p inner && not (p == c)) ≡ true
    both_true a b = ground arith
