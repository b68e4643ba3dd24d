-- ===== src/Allocator/Kmalloc.antt =====
-- `kmalloc` of memory/heap.c.
use mathlib.Core.Path.{subst}
use native.Mathlib.Decide.{dec_lt}
use awk.Base.{
  ℕ, ◌+◌, ◌-◌, ◌*◌, ◌^◌, ◌≤◌, ◌<◌, ◌≡◌, refl, ap, sym, ◌∙◌, ◌⊎◌, inl, inr, true, false, some, Ptr,
  null, [], ◌∷◌, ◌++◌, arith, ◌==◌, leb, Bool-cases,
}
use awk.Allocator.{
  Links, Kheap, assign, num_sizes, header_size, chunk_bytes, add32, sub32, memory_chunk_size,
  memory_chunk_slot, list_remove_from, list_pop, split_chunk, find_bin, wanted, kmalloc,
}
use awk.Allocator.Ring.{Ptrs, member, IsRing, member-append}
use awk.Allocator.Members.{erase}
use awk.Allocator.Bins.{IsFree, rebin, IsFree-change, list_remove_from-IsFree}
use awk.Allocator.Chunks.{Spaced, chunks, IsKheap}
use awk.Allocator.Cut
use awk.Allocator.Cut.{Held}
use awk.Allocator.Slot.{memory_chunk_slot_bounds}
use awk.Allocator.Find.{find_bin_lem, wanted_bounds, start, start_fits, start_misses, start_small}
use awk.Allocator.Between.{
  Between, between, chunks-whole, chunks-with, IsMarked-inner, IsMarked-row,
}
use awk.Allocator.Allocated.{Allocated, chunk_size_bounds, member-first, member-null, list_pop_eq}

module _ (h : Kheap) (inner : Ptrs) (bs : ℕ → Ptrs) (is : IsKheap h inner bs) (size : ℕ)
    (small : size + 3 < 2 ^ 32) where
  abbrev w : ℕ
  w = wanted size

  -- The chunk that a bin which is not empty gives.
  front :
      (m : ℕ)
      → (h.free_chunk m == null) ≡ false
      → let c = h.free_chunk m in
        (member c inner ≡ true)
        × (h.used c ≡ 0)
        × (memory_chunk_slot (memory_chunk_size h.all c) ≡ m)
  front m full =
      let at : member (h.free_chunk m) (bs m) ≡ true =
        ground (arith, is.bins.head m, member-first (bs m)) in
      let (there, idle, slot) = is.bins.sound m (h.free_chunk m) at in
      (IsMarked-inner h h.used inner bs (h.free_chunk m) is there idle, idle, slot)

  module _ (m : ℕ) (full : (h.free_chunk m == null) ≡ false) (enough : start w ≤ m) where
    abbrev c : Ptr
    c = h.free_chunk m

    at : Between h inner c
    at = between h inner c (front m full).0

    abbrev xs : Ptrs
    xs = h.first_chunk ∷ at.before

    row : chunks h inner ≡ xs ++ c ∷ at.next ∷ at.rest
    row = chunks-whole h inner c at

    abbrev rest_bins : ℕ → Ptrs
    rest_bins =
        let slot = memory_chunk_slot (memory_chunk_size h.all c) in
        rebin bs slot (erase c (bs slot))

    -- The heap when the chunk is out of its bin.
    popped :
        (links : Links) × (heads : ℕ → Ptr) × (list_pop m h
          ≡ record h { free = links; free_chunk = heads })
        × Held
            (record h { free = links; free_chunk = heads })
            (assign h.used c 1)
            xs
            c
            at.next
            at.rest
            rest_bins
        × IsFree links heads
            (memory_chunk_size h.all)
            (assign h.used c 1)
            (chunks h inner)
            rest_bins
    popped =
        let (here, idle, slot) = front m full in
        let in_row : member c (chunks h inner) ≡ true =
          ground (arith, member-append c inner (h.last_chunk ∷ [])) in
        let (links, heads, run, free, alone) =
          list_remove_from-IsFree h (memory_chunk_size h.all) h.used (chunks h inner) bs is.bins c
            in_row idle in
        (
          links,
          heads,
          list_pop_eq h m ∙ ap (λ k. list_remove_from k c h) (sym slot) ∙ run,
          record {
            ring = subst (IsRing h.all) row is.ring;
            spaced = subst (Spaced 1) row is.spaced;
            bins =
                subst
                  (λ (cs : Ptrs).
                    IsFree links heads (memory_chunk_size h.all) (assign h.used c 1) cs rest_bins)
                  row free;
            busy = ground arith;
          },
          free,
        )

    -- The result from the heap after the cut.
    taken : Kheap → (len : ℕ) → Ptr × Kheap
    taken h2 len = (
      c + header_size,
      record h2 {
        used = assign h2.used c 1;
        mem_free = sub32 h2.mem_free (memory_chunk_size h.all c);
        mem_used = add32 h2.mem_used (sub32 (sub32 (memory_chunk_size h.all c) len) header_size);
      },
    )

    module _ (links : Links) (heads : ℕ → Ptr)
        (run : list_pop m h ≡ record h { free = links; free_chunk = heads })
        (low : leb num_sizes (start w) ≡ false)
        (found : find_bin (num_sizes - start w) (start w) h.free_chunk ≡ some m) where
      kmalloc_step :
          (h2 : Kheap) (len : ℕ)
          → split_chunk c w
              (memory_chunk_size h.all c)
              (record h { free = links; free_chunk = heads })
            ≡ (h2, len)
          → kmalloc size h ≡ taken h2 len
      unfolding kmalloc taken
      kmalloc_step h2 len cut = rw (low, found, run, cut) refl

      fits_w : w ≤ memory_chunk_size h.all c
      fits_w =
          let (here, idle, slot) = front m full in
          let (a, b) = chunk_size_bounds h inner bs c is here in
          let (x, y, z, _, _) = wanted_bounds size small in
          start_fits w (memory_chunk_size h.all c) m y z (omega arith) b enough slot

      whole_chunk :
          IsFree links heads
            (memory_chunk_size h.all)
            (assign h.used c 1)
            (chunks h inner)
            rest_bins
          → leb (add32 w chunk_bytes) (memory_chunk_size h.all c) ≡ false
          → Allocated h inner size (kmalloc size h)
      unfolding taken split_chunk
      whole_chunk free small_rest =
          let h1 = record h { free = links; free_chunk = heads } in
          let cut : split_chunk c w (memory_chunk_size h.all c) h1 ≡ (h1, 0) = rw small_rest refl in
          subst (Allocated h inner size) (sym (kmalloc_step h1 0 cut)) (record {
            chunk = c;
            before = at.before;
            added = [];
            after = at.after;
            bs = rest_bins;
            address = refl;
            whole = at.whole;
            idle = (front m full).1;
            valid =
                subst (λ (ys : Ptrs). IsKheap (taken h1 0).1 ys rest_bins) at.whole
                  (record {
                    ring = is.ring;
                    spaced = is.spaced;
                    bins = free;
                    first_used = ground (arith, is.first_used);
                    last_used = ground (arith, is.last_used);
                  });
            busy = ground arith;
            roomy = omega (arith, fits_w, (wanted_bounds size small).0);
            others = λ p there ne. ground arith;
          })

      cut_chunk :
          Held
            (record h { free = links; free_chunk = heads })
            (assign h.used c 1)
            xs
            c
            at.next
            at.rest
            rest_bins
          → leb (add32 w chunk_bytes) (memory_chunk_size h.all c) ≡ true
          → Allocated h inner size (kmalloc size h)
      unfolding taken
      cut_chunk held room =
          let h1 = record h { free = links; free_chunk = heads } in
          let (here, idle, slot) = front m full in
          let (enough_w, least, below, _, _) = wanted_bounds size small in
          let within = chunk_size_bounds h inner bs c is here in
          let fits : w + chunk_bytes ≤ memory_chunk_size h.all c =
            ground (arith, start_small w least below (ground arith), within.1) in
          let used1 = assign h.used c 1 in
          let e = c + header_size + w in
          let links' = Cut.relinked h1 used1 xs c at.next at.rest rest_bins held w least fits in
          let (free2, heads2, bs2, run2, is2) =
            Cut.split_chunk_lem h1 used1 xs c at.next at.rest rest_bins held w least fits in
          let h2 =
            Cut.halved h1 used1 xs c at.next at.rest rest_bins held w least fits free2 heads2 in
          let out = (Cut.Spaced-cut h1 used1 xs c at.next at.rest rest_bins held w least fits).1 in
          let spaced =
            (Cut.Spaced-cut h1 used1 xs c at.next at.rest rest_bins held w least fits).0 in
          let in_row : (p : Ptr) → member p (chunks h inner) ≡ true → (p == e) ≡ false =
            λ p there. ground (arith, ap (member p) row, ap (member e) row, out) in
          let result = taken h2 (memory_chunk_size links' e) in
          let final = assign (assign h.used e 0) c 1 in
          subst (Allocated h inner size) (sym (kmalloc_step h2 (memory_chunk_size links' e) run2))
            (record {
              chunk = c;
              before = at.before;
              added = e ∷ [];
              after = at.after;
              bs = bs2;
              address = refl;
              whole = at.whole;
              idle = idle;
              valid =
                  IsMarked-row result.1 final (at.before ++ ((c ∷ e ∷ []) ++ at.after)) bs2
                    (xs ++ c ∷ e ∷ at.next ∷ at.rest) (chunks-with h inner c at (c ∷ e ∷ []))
                    (Cut.IsRing-cut h1 used1 xs c at.next at.rest rest_bins held w least fits)
                    spaced
                    (IsFree-change [] (memory_chunk_size links') final
                      (xs ++ c ∷ e ∷ at.next ∷ at.rest) is2 (λ p o. (refl, refl)) (λ p o i. refl)
                      (λ p there free. (there, ground arith, refl))
                      (λ p there free. (there, ground arith, refl)) is2.nonnull)
                    (ground (arith, is.first_used, in_row h.first_chunk))
                    (ground (
                      arith,
                      is.last_used,
                      in_row h.last_chunk,
                      member-append h.last_chunk inner (h.last_chunk ∷ []),
                    ));
              busy = ground arith;
              roomy = omega (
                arith,
                Cut.memory_chunk_size-cut h1 used1 xs c at.next at.rest rest_bins held w least fits,
              );
              others =
                  λ p there ne. ground (arith, in_row p, member-append p inner (h.last_chunk ∷ []));
            })

  -- A free chunk whose bin is not searched, or that is searched in vain, is small.
  not_found :
      ((k : ℕ) → start w ≤ k → k < 32 → h.free_chunk k ≡ null)
      → (c : Ptr) → member c (chunks h inner) ≡ true
      → h.used c ≡ 0
      → memory_chunk_size h.all c < 2 * w
  not_found empty c there idle =
      let (a, b) =
        chunk_size_bounds h inner bs c is (IsMarked-inner h h.used inner bs c is there idle) in
      let (x, least, below, _, _) = wanted_bounds size small in
      let slot = memory_chunk_slot (memory_chunk_size h.all c) in
      let binned = is.bins.complete c there idle in
      let slots = memory_chunk_slot_bounds (memory_chunk_size h.all c) (omega arith) b in
      start_misses w (memory_chunk_size h.all c) least below (omega arith) b
        (elim (dec_lt slot (start w)) [
          | yes lt ↦ lt
          | no ge ↦
              let e : h.free_chunk slot ≡ null = empty slot (omega arith) slots.0 in
              let both =
                is.bins.sound slot null
                  (member-null c (bs slot) binned (sym (is.bins.head slot) ∙ e)) in
              cc (both.0, is.bins.nonnull)
        ])

  -- In a sound heap (the chunks in one ring in the order of their addresses, each free chunk and no
  -- other in the bin of its size), `kmalloc` of a size below 2^32 - 3 has one of two outcomes. It
  -- returns `NULL`, changes nothing, and every free chunk has less than twice the bytes wanted. Or
  -- it returns the data of a chunk that was free: the chunk is now in use, has at least the size
  -- asked for, any new chunk stands directly behind it, the other chunks are used or free as before,
  -- and the heap is sound.
  pub kmalloc_lem :
      ((kmalloc size h ≡ (null, h))
        × ((c : Ptr)
            → member c (chunks h inner) ≡ true
            → h.used c ≡ 0
            → memory_chunk_size h.all c < 2 * wanted size))
      ⊎ Allocated h inner size (kmalloc size h)
  unfolding kmalloc
  kmalloc_lem = elim (Bool-cases (leb num_sizes (start w))) [
    | inl high ↦ inl (rw high refl, not_found (λ k low b. absurd (ground arith)))
    | inr low ↦ elim (find_bin_lem (num_sizes - start w) (start w) h.free_chunk) [
      | inl (found, empty) ↦
          inl (rw (low, found) refl, not_found (λ k at b. empty k at (ground arith)))
      | inr (m, found, le, lt, full) ↦
          let (links, heads, run, held, free) = popped m full le in
          inr
            (elim (Bool-cases
              (leb (add32 w chunk_bytes) (memory_chunk_size h.all (h.free_chunk m)))) [
                | inl room ↦ cut_chunk m full le links heads run low found held room
                | inr small_rest ↦ whole_chunk m full le links heads run low found free small_rest
              ])
    ]
  ]
