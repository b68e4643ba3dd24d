-- ===== src/Allocator/JoinNext.antt =====
-- A freed chunk of memory/heap.c is joined to the free chunk behind it.
use mathlib.Core.Path.{subst}
use awk.Base.{
  ℕ, ◌≡◌, refl, ◌∙◌, true, false, not, ◌&&◌, Ptr, [], ◌∷◌, ◌++◌, arith, ◌==◌, inl, inr, Bool-cases,
}
use awk.Allocator.{Kheap, assign, header_size, memory_chunk_size, remove, merge_next, sub32, add32}
use awk.Allocator.Ring.{Ptrs, member, member-append}
use awk.Allocator.Relink.{remove-prev}
use awk.Allocator.Chunks.{chunks, IsMarked, IsKheap}
use awk.Allocator.Between.{Between, between, before_it, neighbours, IsMarked-inner}
use awk.Allocator.Absorb.{remove_free-IsMarked, remove-IsMarked, member-left}

-- The heap after the first test of `kfree`: the chunk behind is gone if it was free.
pub record Joined (h : Kheap) (inner : Ptrs) (c p n : Ptr) (h1 : Kheap) : Type 0 where
  pub used : Ptr → ℕ
  pub left : Ptrs
  pub bs : ℕ → Ptrs
  pub valid : IsMarked h1 used left bs
  pub marks : h1.used ≡ h.used
  pub ends : (h1.first_chunk ≡ h.first_chunk) × (h1.last_chunk ≡ h.last_chunk)
  pub back : h1.all.prev c ≡ p
  pub agree : (x : Ptr) → member x (chunks h1 left) ≡ true → used x ≡ h.used x
  pub members : (x : Ptr) → member x left ≡ (member x inner && not ((x == n) && (h.used n == 0)))

module _ (h : Kheap) (inner : Ptrs) (bs : ℕ → Ptrs) (is : IsKheap h inner bs) (c : Ptr)
    (here : member c inner ≡ true) (busy : (h.used c == 0) ≡ false) where
  abbrev at : Between h inner c
  at = between h inner c here

  abbrev p : Ptr
  p = before_it h inner c at

  abbrev n : Ptr
  n = at.next

  pub merge_next-Joined : Joined h inner c p n (merge_next n h)
  unfolding merge_next
  merge_next-Joined =
      let (back, ahead, low, high, top, p_row, n_row, twin) =
        neighbours h inner c at h.used bs is in
      elim (Bool-cases (h.used n == 0)) [
        | inr e ↦ subst (Joined h inner c p n) (rw e refl) (record {
          used = h.used;
          left = inner;
          bs = bs;
          valid = is;
          marks = refl;
          ends = (refl, refl);
          back = back;
          agree = λ x there. refl;
          members = λ x. ground arith;
        })
        | inl e ↦
            let idle : h.used n ≡ 0 = ground arith in
            let n_in = IsMarked-inner h h.used inner bs n is n_row idle in
            let (links, heads, bs1, run, m1, alone) =
              remove_free-IsMarked h h.used inner bs is n n_in idle in
            let u1 = assign h.used n 1 in
            let free = sub32 h.mem_free (sub32 (memory_chunk_size h.all n) header_size) in
            let h1 = record h { free = links; free_chunk = heads; mem_free = free } in
            let h2 = record h1 {
              all = remove n h1.all;
              mem_meta = sub32 h.mem_meta header_size;
              mem_free = add32 free header_size;
            } in
            let at_n = between h1 inner n n_in in
            let (back_n, ahead_n, low_n, high_n, _, _, _, _) =
              neighbours h1 inner n at_n u1 bs1 m1 in
            let m2 =
              remove-IsMarked h1 u1 inner bs1 m1 n at_n (ground arith)
                (ground (arith, busy, back_n, twin)) in
            let run2 : h2 ≡ merge_next n h = rw (e, run) refl in
            subst (Joined h inner c p n) run2 (record {
              used = u1;
              left = at_n.before ++ at_n.after;
              bs = bs1;
              valid = record {
                ring = m2.ring;
                spaced = m2.spaced;
                bins = m2.bins;
                first_used = m2.first_used;
                last_used = m2.last_used;
              };
              marks = refl;
              ends = (refl, refl);
              back =
                  remove-prev h.all n c at_n.next ahead_n (ground (arith, twin)) (ground arith)
                    (ground arith)
                  ∙ back;
              agree = λ x there. ground (
                arith,
                member-left h1 u1 inner bs1 m1 n at_n x,
                member-append x (at_n.before ++ at_n.after) (h.last_chunk ∷ []),
                is.first_used,
                is.last_used,
              );
              members = λ x. ground (arith, member-left h1 u1 inner bs1 m1 n at_n x);
            })
      ]
