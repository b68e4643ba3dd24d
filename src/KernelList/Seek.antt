-- ===== src/KernelList/Seek.antt =====
-- The walk of `kernel_list_remove_node_from` to the node.
use awk.Base.{
  ℕ, zero, suc, ◌<◌, ◌≡◌, refl, true, false, [], ◌∷◌, ◌++◌, arith, Ptr, null, ◌==◌, length,
}
use awk.Run.{ok}
use awk.KernelList.{Heap, seek}
use awk.KernelList.Steps.{not_null, load_node_lem}
use awk.KernelList.Chain.{Entry, Entries, first, has, Linked}

module _ (h : Heap) where
  -- The walk finds the entry's node.
  pub seek_found :
      (fuel : ℕ) (b : Ptr) (xs : Entries) (e : Entry) (ys : Entries)
      → Linked h b (xs ++ e ∷ ys) null
      → has e.at xs ≡ false
      → length xs < fuel
      → seek fuel e.at (first (xs ++ e ∷ ys) null) h ≡ ok e.at h
  unfolding seek
  seek_found zero b xs e ys s out k = absurd (omega arith)
  seek_found (suc fuel) b [] e ys s out k = ground (arith, s.0.ne_null)
  seek_found (suc fuel) b (x ∷ xs) e ys s out k =
      let skip : (x.at == e.at) ≡ false = ground arith in
      rw (not_null s.0, skip, load_node_lem s.0)
        (seek_found fuel x.at xs e ys s.1 (ground arith) (omega arith))

  -- The walk passes a list that has no node at `p`.
  pub seek_missing :
      (fuel : ℕ) (p b : Ptr) (xs : Entries)
      → Linked h b xs null
      → has p xs ≡ false
      → length xs < fuel
      → seek fuel p (first xs null) h ≡ ok null h
  unfolding seek
  seek_missing zero p b xs s out k = absurd (omega arith)
  seek_missing (suc fuel) p b [] s out k = refl
  seek_missing (suc fuel) p b (x ∷ xs) s out k =
      let skip : (x.at == p) ≡ false = ground arith in
      rw (not_null s.0, skip, load_node_lem s.0)
        (seek_missing fuel p x.at xs s.1 (ground arith) (omega arith))

-- A node of the right part is not in the left one.
pub not_before :
    (p : Ptr) (xs ys : Entries)
    → ((q : Ptr) → has q xs ≡ true → has q ys ≡ false)
    → has p ys ≡ true
    → has p xs ≡ false
not_before p xs ys apart i = ground (arith, apart p)
