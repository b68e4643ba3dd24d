-- ===== src/KernelList/Delist.antt =====
-- `kernel_list_delist_data` takes the last entry, which is the one served first.
use awk.Base.{ℕ, ◌+◌, ◌-◌, ◌%◌, ◌^◌, ◌≡◌, refl, sym, [], ◌∷◌, ◌++◌, Ptr, null}
use awk.Run.{ok, Returns, returns}
use awk.Err.{no_err}
use awk.KernelList.{Heap, delist_data}
use awk.KernelList.Steps.{Heads, list_not_null, load_list_lem}
use awk.KernelList.Chain.{
  Entry, Entries, last, IsList, last-append, Linked-of_append, last-Points, has-last, head_ne,
}
use awk.KernelList.Splice.{Distinct-of_append}
use awk.KernelList.Unlink.{Unlinked, Removed, Unlinked-Removed, delist_one, delist_several}

module _ {h : Heap} {l : Ptr} {n : ℕ} where
  delist-Unlinked :
      (xs : Entries) (e : Entry)
      → IsList h l (xs ++ e ∷ []) n
      → (g : Heap) × (delist_data l h ≡ ok (e.at, no_err) g)
        × Unlinked l e xs [] ((n + 2 ^ 32 - 1) % 2 ^ 32) h g
  delist-Unlinked [] e is = delist_one e is.header is.chain.0
  delist-Unlinked (x ∷ xs) e is =
      let (front, back) = Linked-of_append h null (x ∷ xs) (e ∷ []) null is.chain in
      let (b, at_b) = last-Points h null x xs e.at front in
      let parts = Distinct-of_append (x ∷ xs) (e ∷ []) is.distinct in
      let at_l : Heads h l (record { head = x.at; tail = e.at; size = n }) =
        rw (last-append x.at xs (e ∷ [])) at (is.header) in
      delist_several x xs e b at_l front.0.ne_null at_b
        (λ i. head_ne (last x.at xs) e [] (parts.2 (last x.at xs) (has-last x xs)) (sym i)) back.0

  -- `kernel_list_delist_data` on a list that is not empty: the last entry leaves it, its address is
  -- returned with no error, the others stay in order, and `size` is one less modulo 2^32.
  pub delist-last :
      (xs : Entries) (e : Entry)
      → IsList h l (xs ++ e ∷ []) n
      → Returns
          (λ (p, r) g.
            (p ≡ e.at) × (r ≡ no_err) × Removed l e xs [] ((n + 2 ^ 32 - 1) % 2 ^ 32) h g)
          (delist_data l h)
  delist-last xs e is =
      let (g, run, gone) = delist-Unlinked xs e is in
      rw run (returns (refl, refl, Unlinked-Removed l e xs [] n _ h g is gone))

  -- On an empty list it returns `NULL` with no error, and changes nothing.
  pub delist-nil : IsList h l [] n → delist_data l h ≡ ok (null, no_err) h
  unfolding delist_data
  delist-nil is = rw (list_not_null is.header, load_list_lem is.header)
