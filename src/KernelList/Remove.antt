-- ===== src/KernelList/Remove.antt =====
-- `kernel_list_remove_node_from` takes an entry out of the middle of a list.
use awk.Base.{
  ℕ, ◌<◌, ◌≡◌, refl, sym, ◌≢◌, false, some, [], ◌∷◌, ◌++◌, arith, Ptr, null, ◌==◌, length,
}
use awk.Run.{ok, Cmd, pure, ◌>>◌, Returns, returns}
use awk.Err.{Err, no_err, no_such_id}
use awk.KernelList.{Node, Heap, unlink, remove_node_from, load_node, set_node, set_list, load_list}
use awk.KernelList.Steps.{
  Points, Heads, with_node, with_list, list_not_null, load_list_lem, not_null,
}
use awk.KernelList.Chain.{
  Entry, Entries, last, has, IsList, node_of, last-append, Linked-of_append, last-Points, has-last,
  head_ne,
}
use awk.KernelList.Splice.{Distinct-of_append}
use awk.KernelList.Unlink.{Unlinked, Removed, Unlinked-Removed, loose}
use awk.KernelList.Seek.{seek_found, seek_missing, not_before}

-- Managing the links, and the writes behind it.
abbrev detach : Ptr → Ptr → Cmd Heap Err
detach l p = do
  unlink l p
  set_node p (λ n. record n { next = null; prev = null; enlisted = 0 })
  pure no_err

module _ {h : Heap} {l : Ptr} {n : ℕ} (e : Entry) where
  detach_one :
      Heads h l (record { head = e.at; tail = e.at; size = n })
      → Points h e.at (node_of null e null)
      → (g : Heap) × (detach l e.at h ≡ ok no_err g) × Unlinked l e [] [] n h g
  unfolding unlink set_node set_list load_node load_list
  detach_one at_l at_e = (
    with_node (with_list h l (some (record { head = null; tail = null; size = n }))) e.at
        (some (loose e)),
    ground arith,
    record {
      cleared = ground arith;
      left = λ k at_k. absurd (at_k.ne_null refl);
      right = λ k at_k. absurd (at_k.ne_null refl);
      same = λ q a b c. ground arith;
      header = ground arith;
      lists = λ k ne. ground arith;
      mallocs = refl;
    },
  )

  detach_first :
      (y : Entry) (ys : Entries) (c : Node)
      → Heads h l (record { head = e.at; tail = last y.at ys; size = n })
      → Points h y.at c
      → y.at ≢ e.at
      → Points h e.at (node_of null e y.at)
      → (g : Heap) × (detach l e.at h ≡ ok no_err g) × Unlinked l e [] (y ∷ ys) n h g
  unfolding unlink set_node set_list load_node load_list
  detach_first y ys c at_l at_c ne at_e = (
    with_node
        (with_node (with_list h l (some (record { head = y.at; tail = last y.at ys; size = n })))
          y.at (some (record c { prev = null })))
        e.at (some (loose e)),
    ground arith,
    record {
      cleared = ground arith;
      left = λ k at_k. absurd (at_k.ne_null refl);
      right = λ k at_k. ground arith;
      same = λ q a b c. ground arith;
      header = ground arith;
      lists = λ k ne. ground arith;
      mallocs = refl;
    },
  )

  detach-last :
      (x : Entry) (xs : Entries) (b : Node)
      → Heads h l (record { head = x.at; tail = e.at; size = n })
      → Points h (last x.at xs) b
      → last x.at xs ≢ e.at
      → Points h e.at (node_of (last x.at xs) e null)
      → (g : Heap) × (detach l e.at h ≡ ok no_err g) × Unlinked l e (x ∷ xs) [] n h g
  unfolding unlink set_node set_list load_node load_list
  detach-last x xs b at_l at_b ne at_e = (
    with_node
        (with_node (with_list h l (some (record { head = x.at; tail = last x.at xs; size = n })))
          (last x.at xs) (some (record b { next = null })))
        e.at (some (loose e)),
    ground arith,
    record {
      cleared = ground arith;
      left = λ k at_k. ground arith;
      right = λ k at_k. absurd (at_k.ne_null refl);
      same = λ q a b c. ground arith;
      header = ground arith;
      lists = λ k ne. ground arith;
      mallocs = refl;
    },
  )

  detach_middle :
      (x : Entry) (xs : Entries) (y : Entry) (ys : Entries) (b c : Node)
      → Heads h l (record { head = x.at; tail = last y.at ys; size = n })
      → Points h (last x.at xs) b
      → Points h y.at c
      → last x.at xs ≢ e.at
      → y.at ≢ e.at
      → last x.at xs ≢ y.at
      → Points h e.at (node_of (last x.at xs) e y.at)
      → (g : Heap) × (detach l e.at h ≡ ok no_err g) × Unlinked l e (x ∷ xs) (y ∷ ys) n h g
  unfolding unlink set_node set_list load_node load_list
  detach_middle x xs y ys b c at_l at_b at_c ne ne' apart at_e = (
    with_node
        (with_node (with_node h (last x.at xs) (some (record b { next = y.at }))) y.at
          (some (record c { prev = last x.at xs })))
        e.at (some (loose e)),
    ground arith,
    record {
      cleared = ground arith;
      left = λ k at_k. ground arith;
      right = λ k at_k. ground arith;
      same = λ q a b c. ground arith;
      header = ground arith;
      lists = λ k ne. ground arith;
      mallocs = refl;
    },
  )

  detach-Unlinked :
      (xs ys : Entries)
      → IsList h l (xs ++ e ∷ ys) n
      → (g : Heap) × (detach l e.at h ≡ ok no_err g) × Unlinked l e xs ys n h g
  detach-Unlinked [] [] is = detach_one is.header is.chain.0
  detach-Unlinked [] (y ∷ ys) is =
      detach_first y ys _ is.header is.chain.1.0 (head_ne e.at y ys is.distinct.0) is.chain.0
  detach-Unlinked (x ∷ xs) [] is =
      let (front, back) = Linked-of_append h null (x ∷ xs) (e ∷ []) null is.chain in
      let (b, at_b) = last-Points h null x xs e.at front in
      let parts = Distinct-of_append (x ∷ xs) (e ∷ []) is.distinct in
      let at_l : Heads h l (record { head = x.at; tail = e.at; size = n }) =
        rw (last-append x.at xs (e ∷ [])) at (is.header) in
      detach-last x xs b at_l at_b
        (λ i. head_ne (last x.at xs) e [] (parts.2 (last x.at xs) (has-last x xs)) (sym i)) back.0
  detach-Unlinked (x ∷ xs) (y ∷ ys) is =
      let (front, back) = Linked-of_append h null (x ∷ xs) (e ∷ y ∷ ys) null is.chain in
      let (b, at_b) = last-Points h null x xs e.at front in
      let parts = Distinct-of_append (x ∷ xs) (e ∷ y ∷ ys) is.distinct in
      let out = parts.2 (last x.at xs) (has-last x xs) in
      let at_l : Heads h l (record { head = x.at; tail = last y.at ys; size = n }) =
        rw (last-append x.at xs (e ∷ y ∷ ys)) at (is.header) in
      detach_middle x xs y ys b _ at_l at_b back.1.0
        (λ i. head_ne (last x.at xs) e (y ∷ ys) out (sym i)) (head_ne e.at y ys parts.1.0)
        (λ i. head_ne (last x.at xs) y ys (beyond (last x.at xs) out) (sym i)) back.0
    where
      beyond : (q : Ptr) → has q (e ∷ y ∷ ys) ≡ false → has q (y ∷ ys) ≡ false
      beyond q o = ground arith

  -- For a node of the list with fewer entries before it than there is fuel,
  -- `kernel_list_remove_node_from` returns no error; the node leaves the list and is cleared, the
  -- others stay in order and linked, every other node and list is as before, and the list's `size`
  -- field keeps its value.
  pub remove_lem :
      (fuel : ℕ) (xs ys : Entries)
      → IsList h l (xs ++ e ∷ ys) n
      → length xs < fuel
      → Returns (λ r g. (r ≡ no_err) × Removed l e xs ys n h g) (remove_node_from fuel l e.at h)
  unfolding remove_node_from
  remove_lem fuel xs ys is k =
      let (g, run, gone) = detach-Unlinked xs ys is in
      let at_e = (Linked-of_append h null xs (e ∷ ys) null is.chain).1.0 in
      let parts = Distinct-of_append xs (e ∷ ys) is.distinct in
      let out : has e.at xs ≡ false = not_before e.at xs (e ∷ ys) parts.2 (ground arith) in
      rw
        (
          list_not_null is.header,
          not_null at_e,
          load_list_lem is.header,
          seek_found h fuel null xs e ys is.chain out k,
        )
        (rw (not_null at_e, run) (returns (refl, Unlinked-Removed l e xs ys n n h g is gone)))

module _ {h : Heap} {l : Ptr} {n : ℕ} where
  -- With a node other than `NULL` that is not in the list, and more fuel than the list has entries,
  -- `kernel_list_remove_node_from` returns OS_ERR_NO_SUCH_ID and changes nothing.
  remove_missing :
      (fuel : ℕ) (xs : Entries) (p : Ptr)
      → IsList h l xs n
      → p ≢ null
      → has p xs ≡ false
      → length xs < fuel
      → remove_node_from fuel l p h ≡ ok no_such_id h
  unfolding remove_node_from
  remove_missing fuel xs p is p_ne out k =
      let p_test : (p == null) ≡ false = ground arith in
      rw (
        list_not_null is.header,
        p_test,
        load_list_lem is.header,
        seek_missing h fuel p null xs is.chain out k,
      )
