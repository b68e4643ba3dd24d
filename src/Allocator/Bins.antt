-- ===== src/Allocator/Bins.antt =====
-- The free lists of memory/heap.c: bin `n` holds the chunks that are not used and whose slot is `n`.
use awk.Base.{
  ℕ, ◌≡◌, refl, ap, ◌∙◌, true, false, inl, inr, Ptr, null, [], ◌∷◌, ◌++◌, arith, ◌==◌, Bool-cases,
  if◌then◌else◌,
}
use awk.Allocator.{Links, Kheap, assign, memory_chunk_slot, remove, list_remove_from, list_push}
use awk.Allocator.Ring.{
  Ptrs, member, Distinct, first, IsRing, SameBut, member-append, IsRing-of_SameBut,
}
use awk.Allocator.Relink.{push-IsRing, remove-IsRing, remove_from-IsRing}
use awk.Allocator.Members.{erase, place, member-erase, erase-Distinct, Distinct-rotate}

-- The bins `bs`, of the chunks `cs` with the given sizes and marks.
pub record IsFree (free : Links) (heads : ℕ → Ptr) (size used : Ptr → ℕ) (cs : Ptrs) (bs : ℕ → Ptrs)
    : Type 0 where
  pub head : (n : ℕ) → heads n ≡ first (bs n) null
  pub ring : (n : ℕ) → IsRing free (bs n)
  pub distinct : (n : ℕ) → Distinct (bs n)
  pub sound :
      (n : ℕ) (c : Ptr)
      → member c (bs n) ≡ true
      → (member c cs ≡ true) × (used c ≡ 0) × (memory_chunk_slot (size c) ≡ n)
  pub complete :
      (c : Ptr)
      → member c cs ≡ true
      → used c ≡ 0
      → member c (bs (memory_chunk_slot (size c))) ≡ true
  pub nonnull : member null cs ≡ false

abbrev pub rebin : (ℕ → Ptrs) → ℕ → Ptrs → ℕ → Ptrs
rebin bs n xs m = if m == n then xs else bs m

member-rebin :
    (bs : ℕ → Ptrs) (s : ℕ) (xs : Ptrs) (n : ℕ) (p : Ptr)
    → member p (rebin bs s xs n) ≡ (if n == s then member p xs else member p (bs n))
member-rebin bs s xs n p = elim (Bool-cases (n == s)) [ inl e ↦ rw e refl | inr e ↦ rw e refl ]

module _ (h : Kheap) (size used : Ptr → ℕ) (cs : Ptrs) (bs : ℕ → Ptrs)
    (is : IsFree h.free h.free_chunk size used cs bs) (c : Ptr) (here : member c cs ≡ true) where
  -- The slot of the chunk.
  abbrev slot : ℕ
  slot = memory_chunk_slot (size c)

  bins_apart :
      (m : ℕ)
      → (m == slot) ≡ false
      → (p : Ptr) → member p (bs m) ≡ true
      → member p (bs slot) ≡ false
  bins_apart m ne p at = elim (Bool-cases (member p (bs slot))) [
    | inl e ↦ ground (arith, is.sound m p at, is.sound slot p e)
    | inr e ↦ e
  ]

  null_out : (n : ℕ) → member null (bs n) ≡ false
  null_out n = elim (Bool-cases (member null (bs n))) [
    | inl e ↦ cc ((is.sound n null e).0, is.nonnull)
    | inr e ↦ e
  ]

  -- `LIST_PUSH` of a chunk that was in use puts it in its bin.
  pub list_push-IsFree :
      (used c == 0) ≡ false
      → IsRing h.free (c ∷ [])
      → (links : Links) × (list_push slot c h
          ≡ record h { free = links; free_chunk = assign h.free_chunk slot c })
        × IsFree links
            (assign h.free_chunk slot c)
            size
            (assign used c 0)
            cs
            (rebin bs slot (c ∷ bs slot))
  unfolding list_push
  list_push-IsFree busy alone =
      let out : (m : ℕ) → member c (bs m) ≡ false = λ m. elim (Bool-cases (member c (bs m))) [
        | inl e ↦ ground (arith, is.sound m c e)
        | inr e ↦ e
      ] in
      let (links, run, ring, same) =
        push-IsRing h.free c alone (bs slot) (is.ring slot) (out slot, is.distinct slot)
          (null_out slot) in
      (
        links,
        rw (is.head slot, run) refl,
        record {
          head = λ n. ground (arith, is.head n);
          ring = λ n. elim (Bool-cases (n == slot)) [
            | inl e ↦ rw e ring
            | inr e ↦ rw e (
                IsRing-of_SameBut (c ∷ bs slot) (bs n) same
                  (λ p at. ground (arith, bins_apart n e p at, out n)) (is.ring n))
          ];
          distinct = λ n. elim (Bool-cases (n == slot)) [
            | inl e ↦ rw e (out slot, is.distinct slot)
            | inr e ↦ rw e (is.distinct n)
          ];
          sound = λ n p at.
              ground (arith, member-rebin bs slot (c ∷ bs slot) n p, is.sound n p, is.sound slot p);
          complete = λ p at free. ground (
            arith,
            member-rebin bs slot (c ∷ bs slot) (memory_chunk_slot (size p)) p,
            is.complete p at,
          );
          nonnull = is.nonnull;
        },
      )

  -- `LIST_REMOVE_FROM` takes a chunk that is not in use out of its bin, and leaves it alone.
  pub list_remove_from-IsFree :
      used c ≡ 0
      → (links : Links) × (heads : ℕ → Ptr) × (list_remove_from slot c h
          ≡ record h { free = links; free_chunk = heads })
        × IsFree links heads size (assign used c 1) cs (rebin bs slot (erase c (bs slot)))
        × IsRing links (c ∷ [])
  unfolding list_remove_from
  list_remove_from-IsFree idle =
      let at = place c (bs slot) (is.complete c here idle) in
      let ys = at.before in
      let zs = at.after in
      let once : Distinct (c ∷ (zs ++ ys)) =
        Distinct-rotate ys (c ∷ zs) (rw at.whole at (is.distinct slot)) in
      let r : IsRing h.free (ys ++ c ∷ zs) = rw at.whole at (is.ring slot) in
      let (ring, alone, same) = remove-IsRing h.free c ys zs r once in
      let run = remove_from-IsRing h.free c ys zs r once in
      let first_of : h.free_chunk slot ≡ first (ys ++ c ∷ zs) null =
        is.head slot ∙ ap (λ (xs : Ptrs). first xs null) at.whole in
      let heads = assign h.free_chunk slot (first (ys ++ zs) null) in
      let changed : (p : Ptr) → member p (bs slot) ≡ false → member p (c ∷ (zs ++ ys)) ≡ false =
        λ p out.
          ground
            (arith, ap (member p) at.whole, member-append p ys (c ∷ zs), member-append p zs ys) in
      (
        remove c h.free,
        heads,
        rw (first_of, run) refl,
        record {
          head = λ n. elim (Bool-cases (n == slot)) [
            | inl e ↦ rw (e, at.rest) refl
            | inr e ↦ rw e (is.head n)
          ];
          ring = λ n. elim (Bool-cases (n == slot)) [
            | inl e ↦ rw (e, at.rest) ring
            | inr e ↦ rw e (
                IsRing-of_SameBut (c ∷ (zs ++ ys)) (bs n) same
                  (λ p at. changed p (bins_apart n e p at)) (is.ring n))
          ];
          distinct = λ n. elim (Bool-cases (n == slot)) [
            | inl e ↦ rw e (erase-Distinct c (bs slot) (is.distinct slot))
            | inr e ↦ rw e (is.distinct n)
          ];
          sound = λ n p at. ground (
            arith,
            member-rebin bs slot (erase c (bs slot)) n p,
            member-erase c p (bs slot) (is.distinct slot),
            is.sound n p,
            is.sound slot p,
          );
          complete = λ p at free. ground (
            arith,
            member-rebin bs slot (erase c (bs slot)) (memory_chunk_slot (size p)) p,
            member-erase c p (bs slot) (is.distinct slot),
            is.complete p at,
          );
          nonnull = is.nonnull;
        },
        alone,
      )

-- The bins serve a heap whose other links, sizes, marks and chunks differ only outside of them.
pub IsFree-change :
    (zs : Ptrs) {free free' : Links} {heads : ℕ → Ptr} {size used : Ptr → ℕ} {cs : Ptrs}
    {bs : ℕ → Ptrs} (size' used' : Ptr → ℕ) (cs' : Ptrs)
    → IsFree free heads size used cs bs
    → SameBut zs free free'
    → ((p : Ptr) → member p cs ≡ true → used p ≡ 0 → member p zs ≡ false)
    → ((p : Ptr)
        → member p cs ≡ true
        → used p ≡ 0
        → (member p cs' ≡ true) × (used' p ≡ 0) × (size' p ≡ size p))
    → ((p : Ptr)
        → member p cs' ≡ true
        → used' p ≡ 0
        → (member p cs ≡ true) × (used p ≡ 0) × (size' p ≡ size p))
    → member null cs' ≡ false
    → IsFree free' heads size' used' cs' bs
IsFree-change zs size' used' cs' is same apart to from nn = record {
  head = is.head;
  ring = λ n.
      IsRing-of_SameBut zs _ same (λ p at. apart p (is.sound n p at).0 (is.sound n p at).1)
        (is.ring n);
  distinct = is.distinct;
  sound = λ n p at.
      let s = is.sound n p at in let t = to p s.0 s.1 in (t.0, t.1, ap memory_chunk_slot t.2 ∙ s.2);
  complete = λ p at idle. let t = from p at idle in rw t.2 (is.complete p t.0 t.1);
  nonnull = nn;
}
