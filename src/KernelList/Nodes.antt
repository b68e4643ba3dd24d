-- ===== src/KernelList/Nodes.antt =====
-- Creation and deletion of nodes and lists.
use awk.Base.{ℕ, ◌≡◌, ◌≢◌, some, none, List, [], ◌∷◌, ◌++◌, arith, Ptr, null}
use awk.Run.{ok}
use awk.Err.{no_err, malloc_failed, unauthorized_action}
use awk.KernelList.{Heap, kmalloc, load_node, create_node, delete_node, create_list, delete_list}
use awk.KernelList.Steps.{
  Points, with_node, with_list, not_null, load_node_lem, list_not_null, load_list_lem,
}
use awk.KernelList.Chain.{Entry, Entries, IsList, Linked-of_append}

-- The heap after `kmalloc` has returned the first of its results.
abbrev pub allocated : Heap → List Ptr → Heap
allocated h ps = record h { mallocs = ps }

module _ (h : Heap) {p : Ptr} {ps : List Ptr} (given : h.mallocs ≡ p ∷ ps) where
  -- `kernel_list_create_list` gives an empty list, or `NULL` and OS_ERR_MALLOC.
  pub create_list-IsList :
      p ≢ null
      → (create_list h
          ≡ ok
              (p, no_err)
              (with_list (allocated h ps) p (some (record { head = null; tail = null; size = 0 }))))
        × IsList
            (with_list (allocated h ps) p (some (record { head = null; tail = null; size = 0 })))
            p
            []
            0
  unfolding create_list kmalloc
  create_list-IsList ne =
      (ground arith, record { header = ground arith; chain = tt; distinct = tt })

  -- If the next result of `kmalloc` is not `NULL`, `kernel_list_create_node` returns it with no
  -- error as a node in no list that carries the pointer given, and `kernel_list_delete_node` then
  -- deletes that node and sets the pointer to it to `NULL`.
  delete-create_node :
      (payload : Ptr)
      → p ≢ null
      → (g : Heap) × (create_node payload h ≡ ok (p, no_err) g)
        × Points g p
            (record { next = null; prev = null; priority = 0; enlisted = 0; payload = payload })
        × (delete_node p g ≡ ok (no_err, null) (with_node g p none))
  unfolding create_node delete_node kmalloc load_node
  delete-create_node payload ne = (
    with_node (allocated h ps) p
        (some (record { next = null; prev = null; priority = 0; enlisted = 0; payload = payload })),
    ground arith,
    ground arith,
    ground arith,
  )

-- When `kmalloc` fails, both creations report OS_ERR_MALLOC and give `NULL`.
pub create_fails :
    (h : Heap) (payload : Ptr)
    → h.mallocs ≡ []
    → (create_node payload h ≡ ok (null, malloc_failed) h)
      × (create_list h ≡ ok (null, malloc_failed) h)
unfolding create_node create_list kmalloc
create_fails h payload none_left = ground arith

module _ {h : Heap} {l : Ptr} {n : ℕ} where
  -- A node that is in a list is not deleted by `kernel_list_delete_node`, and a list that has a node
  -- is not deleted by `kernel_list_delete_list`: both return OS_ERR_UNAUTHORIZED_ACTION, keep the
  -- pointer and change nothing.
  delete_refused :
      (xs : Entries) (e : Entry) (ys : Entries)
      → IsList h l (xs ++ e ∷ ys) n
      → (delete_node e.at h ≡ ok (unauthorized_action, e.at) h)
        × (delete_list l h ≡ ok (unauthorized_action, l) h)
  unfolding delete_node delete_list
  delete_refused xs e ys is =
      let at_e = (Linked-of_append h null xs (e ∷ ys) null is.chain).1.0 in
      (rw (not_null at_e, load_node_lem at_e), in_use xs is)
    where
      in_use :
          (xs : Entries)
          → IsList h l (xs ++ e ∷ ys) n
          → delete_list l h ≡ ok (unauthorized_action, l) h
      in_use [] is = rw (list_not_null is.header, load_list_lem is.header, not_null (is.chain.0))
      in_use (x ∷ xs) is =
          rw (list_not_null is.header, load_list_lem is.header, not_null (is.chain.0))

  -- An empty list is deleted.
  pub delete_nil : IsList h l [] n → delete_list l h ≡ ok (no_err, null) (with_list h l none)
  unfolding delete_list
  delete_nil is = rw (list_not_null is.header, load_list_lem is.header)
