-- ===== src/Allocator/Kfree.antt =====
-- `kfree` of memory/heap.c.
use mathlib.Core.Path.{subst}
use awk.Base.{
  ℕ, ◌+◌, ◌-◌, ◌≡◌, refl, ap, sym, ◌∙◌, true, false, not, ◌&&◌, Ptr, [], ◌∷◌, ◌++◌, arith, ◌==◌,
  inl, inr, Bool-cases, if◌then◌else◌,
}
use awk.Allocator.{
  Kheap, assign, header_size, list_init, memory_chunk_size, remove, merge_next, merge_prev, kfree,
  sub32, add32,
}
use awk.Allocator.Ring.{Ptrs, member, member-append}
use awk.Allocator.Relink.{list_init-IsRing}
use awk.Allocator.Bins.{IsFree-change}
use awk.Allocator.Chunks.{chunks, IsMarked, IsKheap}
use awk.Allocator.Between.{Between, between, before_it, neighbours, IsMarked-inner}
use awk.Allocator.Absorb.{remove_free-IsMarked, push_free-IsMarked}
use awk.Allocator.JoinBefore.{IsMarked-agree, join_before}
use awk.Allocator.JoinNext.{Joined, merge_next-Joined}

-- What `kfree` of the chunk `c`, between `p` and `n`, does: the chunk that now holds it is free, a free
-- neighbour is one chunk with it, the others are as before, and the heap is sound.
pub record Freed (h : Kheap) (inner : Ptrs) (c p n : Ptr) (r : Kheap) : Type 0 where
  pub left : Ptrs
  pub bs : ℕ → Ptrs
  pub valid : IsKheap r left bs
  pub idle : r.used (if h.used p == 0 then p else c) ≡ 0
  pub ends : (r.first_chunk ≡ h.first_chunk) × (r.last_chunk ≡ h.last_chunk)
  pub same : (x : Ptr) → (x == c) ≡ false → r.used x ≡ h.used x
  pub members :
      (x : Ptr)
      → member x left
        ≡ (member x inner && not ((x == n) && (h.used n == 0)) && not ((x == c) && (h.used p == 0)))

subst2 : (P : Ptr → Ptr → Type 0) {a a' b b' : Ptr} → a ≡ a' → b ≡ b' → P a b → P a' b'
subst2 P {a' = a'} {b = b} e e' x = subst (P a') e' (subst (λ z. P z b) e x)

module _ (h : Kheap) (inner : Ptrs) (bs : ℕ → Ptrs) (is : IsKheap h inner bs) (c : Ptr)
    (here : member c inner ≡ true) (busy : (h.used c == 0) ≡ false) where
  abbrev at : Between h inner c
  at = between h inner c here

  abbrev p : Ptr
  p = before_it h inner c at

  abbrev n : Ptr
  n = at.next

  -- What `merge_prev` comes to.
  abbrev holder : Ptr
  holder = if h.used p == 0 then p else c

  module _ (h1 : Kheap) (j : Joined h inner c p n h1) where
    c_left : member c j.left ≡ true
    c_left =
        let (back, ahead, low, high, _, _, _, _) = neighbours h inner c at h.used bs is in
        ground (arith, j.members c)

    c_row : member c (chunks h1 j.left) ≡ true
    c_row = ground (arith, c_left, member-append c j.left (h1.last_chunk ∷ []))

    c_busy : (j.used c == 0) ≡ false
    c_busy = ground (arith, j.agree c c_row)

    alone_again : (h.used p == 0) ≡ false → Freed h inner c p n (merge_prev p c h1)
    unfolding merge_prev
    alone_again e =
        let m = j.valid in
        let (alone, same) = list_init-IsRing c h1.free in
        let h2 = record h1 { used = assign h1.used c 0; free = list_init c h1.free } in
        let m2 : IsMarked h2 j.used j.left j.bs = record {
          ring = m.ring;
          spaced = m.spaced;
          bins =
              IsFree-change (c ∷ []) (memory_chunk_size h1.all) j.used (chunks h1 j.left) m.bins
                same (λ x there idle. ground (arith, c_busy)) (λ x there idle. (there, idle, refl))
                (λ x there idle. (there, idle, refl)) m.bins.nonnull;
          first_used = m.first_used;
          last_used = m.last_used;
        } in
        let (links, heads, bs3, run, m3) =
          push_free-IsMarked h2 j.used j.left j.bs m2 c c_left c_busy alone in
        let h3 = record h2 {
          free = links;
          free_chunk = heads;
          mem_free = add32 h2.mem_free (sub32 (memory_chunk_size h2.all c) header_size);
        } in
        let test : (h1.used p == 0) ≡ false = rw j.marks e in
        let run3 : h3 ≡ merge_prev p c h1 = rw (test, run) refl in
        let agree : (x : Ptr)
            → member x (chunks h1 j.left) ≡ true
            → assign j.used c 0 x ≡ assign h1.used c 0 x =
          λ x there. ground (arith, j.agree x there, ap (λ f. f x) j.marks) in
        subst (Freed h inner c p n) run3 (record {
          left = j.left;
          bs = bs3;
          valid = IsMarked-agree h3 (assign j.used c 0) h3.used j.left bs3 m3 agree;
          idle = ground arith;
          ends = j.ends;
          same = λ x ne. ground (arith, ap (λ f. f x) j.marks);
          members = λ x. ground (arith, j.members x);
        })

    p_facts :
        h.used p ≡ 0
        → (member p j.left ≡ true)
          × (j.used p ≡ 0)
          × ((c == p) ≡ false)
          × ((h1.used p == 0) ≡ true)
          × (h1.used p ≡ 0)
    p_facts e =
        let (back, ahead, low, high, top, p_row, _, _) = neighbours h inner c at h.used bs is in
        ground (
          arith,
          IsMarked-inner h h.used inner bs p is p_row e,
          j.members p,
          j.agree p,
          member-append p j.left (h1.last_chunk ∷ []),
          ap (λ f. f p) j.marks,
        )

    agree_before :
        (left : Ptrs)
        → ((x : Ptr) → member x left ≡ (member x j.left && not (x == c)))
        → h.used p ≡ 0
        → (x : Ptr) → member x (h1.first_chunk ∷ (left ++ h1.last_chunk ∷ [])) ≡ true
        → assign (assign j.used p 1) p 0 x ≡ h1.used x
    agree_before left members e x there = ground (
      arith,
      j.agree x,
      members x,
      ap (λ f. f x) j.marks,
      member-append x left (h1.last_chunk ∷ []),
      member-append x j.left (h1.last_chunk ∷ []),
    )

    joined_before : h.used p ≡ 0 → Freed h inner c p n (merge_prev p c h1)
    unfolding merge_prev
    joined_before e =
        let (p_left, idle, ne, test, idle1) = p_facts e in
        let (links, heads, bs2, run, m2, alone) =
          remove_free-IsMarked h1 j.used j.left j.bs j.valid p p_left idle in
        let free = sub32 h1.mem_free (sub32 (memory_chunk_size h1.all p) header_size) in
        let h2 = record h1 { free = links; free_chunk = heads; mem_free = free } in
        let b =
          join_before h2 (assign j.used p 1) j.left bs2 p c m2 c_left p_left ne (still_busy ne)
            (marked p) j.back alone in
        let free4 = add32 free (sub32 b.size header_size) in
        let h4 = record h2 {
          all = remove c h1.all;
          free = b.links;
          free_chunk = b.heads;
          mem_free = free4;
        } in
        let h5 = record h4 {
          mem_meta = sub32 h1.mem_meta header_size;
          mem_free = add32 free4 header_size;
        } in
        let run5 : h5 ≡ merge_prev p c h1 = rw (test, run, b.run) refl in
        let m5 =
          IsMarked-agree h4 (assign (assign j.used p 1) p 0) h4.used b.left b.bs b.valid
            (agree_before b.left b.members e) in
        subst (Freed h inner c p n) run5 (record {
          left = b.left;
          bs = b.bs;
          valid = record {
            ring = m5.ring;
            spaced = m5.spaced;
            bins = m5.bins;
            first_used = m5.first_used;
            last_used = m5.last_used;
          };
          idle = held e idle1;
          ends = j.ends;
          same = λ x ne. ap (λ f. f x) j.marks;
          members = λ x. b.members x ∙ members_both x e (j.members x);
        })
      where
        still_busy : (c == p) ≡ false → (assign j.used p 1 c == 0) ≡ false
        still_busy ne = ground (arith, c_busy)

        marked : (q : Ptr) → (assign j.used q 1 q == 0) ≡ false
        marked q = ground arith

        held : h.used p ≡ 0 → h1.used p ≡ 0 → h1.used holder ≡ 0
        held e i = ground arith

        members_both :
            (x : Ptr)
            → h.used p ≡ 0
            → member x j.left ≡ (member x inner && not ((x == n) && (h.used n == 0)))
            → (member x j.left && not (x == c)) ≡ (
                member x inner
                && not ((x == n) && (h.used n == 0))
                && not ((x == c) && (h.used p == 0)))
        members_both x e m = ground arith

  merge_prev-Freed :
      (h1 : Kheap) → Joined h inner c p n h1 → Freed h inner c p n (merge_prev p c h1)
  merge_prev-Freed h1 j = elim (Bool-cases (h.used p == 0)) [
    | inl e ↦ joined_before h1 j (ground arith)
    | inr e ↦ alone_again h1 j e
  ]

  both_joined :
      Freed h inner c
        (h.all.prev c)
        (h.all.next c)
        (merge_prev (h.all.prev c) c (merge_next (h.all.next c) h))
  both_joined =
      let near = neighbours h inner c at h.used bs is in
      subst2 (λ (a b : Ptr). Freed h inner c a b (merge_prev a c (merge_next b h))) (sym near.0)
        (sym near.1)
        (merge_prev-Freed (merge_next n h) (merge_next-Joined h inner bs is c here busy))

-- In a sound heap, `kfree` of the data of a chunk in use that is neither the first nor the last
-- keeps the heap sound. The chunk is no chunk of its own any more if the chunk before it was free,
-- and the chunk behind it is not if that one was free; every other chunk stays. The chunk that holds
-- the freed one is free, and all chunks but the freed one are marked as used or free as before.
pub kfree_lem :
    (h : Kheap) (inner : Ptrs) (bs : ℕ → Ptrs) (c : Ptr)
    → IsKheap h inner bs
    → member c inner ≡ true
    → (h.used c == 0) ≡ false
    → Freed h inner c (h.all.prev c) (h.all.next c) (kfree (c + header_size) h)
unfolding kfree
kfree_lem h inner bs c is here busy =
    let h0 = record h { mem_used = sub32 h.mem_used (memory_chunk_size h.all c) } in
    let is0 : IsKheap h0 inner bs = record {
      ring = is.ring;
      spaced = is.spaced;
      bins = is.bins;
      first_used = is.first_used;
      last_used = is.last_used;
    } in
    let f = both_joined h0 inner bs is0 c here busy in
    let base : c + header_size - header_size ≡ c = omega arith in
    rw base (record {
      left = f.left;
      bs = f.bs;
      valid = f.valid;
      idle = f.idle;
      ends = f.ends;
      same = f.same;
      members = f.members;
    })
