-- ===== src/KernelList/Find.antt =====
-- `kernel_list_find_node` finds the first node that carries a pointer.
use awk.Base.{
  ℕ, zero, suc, ◌<◌, ◌≡◌, refl, [], ◌∷◌, arith, Ptr, null, ◌==◌, if◌then◌else◌, length, Bool-cases,
  inl, inr,
}
use awk.Run.{ok}
use awk.Err.{no_err, no_such_id}
use awk.KernelList.{Heap, find_from, find_node}
use awk.KernelList.Steps.{list_not_null, load_list_lem, not_null, load_node_lem}
use awk.KernelList.Chain.{Entries, first, Linked, IsList}

-- The address of the first entry that carries `payload`, or `NULL`.
unfoldable pub carrier : Ptr → Entries → Ptr
carrier payload [] = null
carrier payload (x ∷ xs) = if x.payload == payload then x.at else carrier payload xs

module _ (h : Heap) where
  find_from_lem :
      (fuel : ℕ) (payload b : Ptr) (xs : Entries)
      → Linked h b xs null
      → length xs < fuel
      → find_from fuel payload (first xs null) h ≡ ok (carrier payload xs) h
  unfolding find_from carrier
  find_from_lem zero payload b xs s k = absurd (omega arith)
  find_from_lem (suc fuel) payload b [] s k = refl
  find_from_lem (suc fuel) payload b (x ∷ xs) s k =
      rw (not_null s.0, load_node_lem s.0)
        (elim (Bool-cases (x.payload == payload)) [
          | inl t ↦ rw t
          | inr t ↦ rw t (find_from_lem fuel payload x.at xs s.1 (omega arith))
        ])

-- With more fuel than the list has entries, `kernel_list_find_node` returns the first node from
-- `head` on that carries the pointer, with no error, or `NULL` and OS_ERR_NO_SUCH_ID if none does;
-- it changes nothing.
pub find_lem :
    {h : Heap} {l : Ptr} {n : ℕ} (fuel : ℕ) (payload : Ptr) (xs : Entries)
    → IsList h l xs n
    → length xs < fuel
    → find_node fuel l payload h
      ≡ ok (carrier payload xs, if carrier payload xs == null then no_such_id else no_err) h
unfolding find_node
find_lem {h} fuel payload xs is k =
    rw
      (
        list_not_null is.header,
        load_list_lem is.header,
        find_from_lem h fuel payload null xs is.chain k,
      )
      (ground arith)
