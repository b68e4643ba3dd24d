-- ===== src/KernelList/Place.antt =====
-- `kernel_list_enlist_data`, the writes of each branch.
use awk.Base.{ℕ, ◌≡◌, refl, ◌≢◌, some, [], ◌∷◌, arith, Ptr, null}
use awk.Run.{ok}
use awk.KernelList.{
  Node, Heap, load_node, load_list, set_node, set_list, put_before, put_last, put_first,
}
use awk.KernelList.Steps.{Points, Heads, with_list, with_node}
use awk.KernelList.Chain.{Entry, Entries, first, last}

-- `g` is `h` after the node `m` at `p` was put between `xs` and `ys`.
pub record Placed (l p : Ptr) (n : ℕ) (m : Node) (xs ys : Entries) (h g : Heap) : Type 0 where
  pub new : g.node p ≡ some (record m { next = first ys null; prev = last null xs })
  pub left :
      (k : Node) → Points h (last null xs) k → g.node (last null xs) ≡ some (record k { next = p })
  pub right :
      (k : Node)
      → Points h (first ys null) k
      → g.node (first ys null) ≡ some (record k { prev = p })
  pub same : (q : Ptr) → q ≢ p → q ≢ last null xs → q ≢ first ys null → g.node q ≡ h.node q
  pub header : g.list l ≡ some (record { head = first xs p; tail = last p ys; size = n })
  pub lists : (k : Ptr) → k ≢ l → g.list k ≡ h.list k
  pub mallocs : g.mallocs ≡ h.mallocs

module _ {h : Heap} {l p : Ptr} {n : ℕ} {m : Node} (at_p : Points h p m) where
  pub put_first-Placed :
      Heads h l (record { head = null; tail = null; size = n })
      → (g : Heap) × (put_first p l h ≡ ok tt g) × Placed l p n m [] [] h g
  unfolding put_first set_node set_list load_node load_list
  put_first-Placed e = (
    with_node
        (with_node
          (with_list (with_list h l (some (record { head = p; tail = null; size = n }))) l
            (some (record { head = p; tail = p; size = n })))
          p (some (record m { next = null })))
        p (some (record m { next = null; prev = null })),
    ground arith,
    record {
      new = ground arith;
      left = λ k at_k. absurd (at_k.ne_null refl);
      right = λ k at_k. absurd (at_k.ne_null refl);
      same = λ q a b c. ground arith;
      header = ground arith;
      lists = λ k ne. ground arith;
      mallocs = refl;
    },
  )

  -- In front of the first node.
  pub put_head-Placed :
      (y : Entry) (ys : Entries) (c : Node)
      → Points h y.at c
      → c.prev ≡ null
      → y.at ≢ p
      → Heads h l (record { head = y.at; tail = last y.at ys; size = n })
      → (g : Heap) × (put_before y.at p l h ≡ ok tt g) × Placed l p n m [] (y ∷ ys) h g
  unfolding put_before set_node set_list load_node load_list
  put_head-Placed y ys c at_c front ne e = (
    with_list
        (with_node
          (with_node (with_node h p (some (record m { next = y.at }))) p
            (some (record m { next = y.at; prev = null })))
          y.at (some (record c { prev = p })))
        l (some (record { head = p; tail = last y.at ys; size = n })),
    ground arith,
    record {
      new = ground arith;
      left = λ k at_k. absurd (at_k.ne_null refl);
      right = λ k at_k. ground arith;
      same = λ q a b c. ground arith;
      header = ground arith;
      lists = λ k ne. ground arith;
      mallocs = refl;
    },
  )

  -- Between two nodes.
  pub put_between-Placed :
      (x : Entry) (xs : Entries) (y : Entry) (ys : Entries) (b c : Node)
      → Points h (last x.at xs) b
      → Points h y.at c
      → c.prev ≡ last x.at xs
      → y.at ≢ p
      → last x.at xs ≢ p
      → last x.at xs ≢ y.at
      → Heads h l (record { head = x.at; tail = last y.at ys; size = n })
      → (g : Heap) × (put_before y.at p l h ≡ ok tt g) × Placed l p n m (x ∷ xs) (y ∷ ys) h g
  unfolding put_before set_node set_list load_node load_list
  put_between-Placed x xs y ys b c at_b at_c front ne ne' apart e = (
    with_node
        (with_node
          (with_node (with_node h p (some (record m { next = y.at }))) p
            (some (record m { next = y.at; prev = last x.at xs })))
          y.at (some (record c { prev = p })))
        (last x.at xs) (some (record b { next = p })),
    ground arith,
    record {
      new = ground arith;
      left = λ k at_k. ground arith;
      right = λ k at_k. ground arith;
      same = λ q a b c. ground arith;
      header = ground arith;
      lists = λ k ne. ground arith;
      mallocs = refl;
    },
  )

  -- Behind the last node.
  pub put_last-Placed :
      (x : Entry) (xs : Entries) (b : Node)
      → Points h (last x.at xs) b
      → last x.at xs ≢ p
      → Heads h l (record { head = x.at; tail = last x.at xs; size = n })
      → (g : Heap) × (put_last p l h ≡ ok tt g) × Placed l p n m (x ∷ xs) [] h g
  unfolding put_last set_node set_list load_node load_list
  put_last-Placed x xs b at_b ne e = (
    with_list
        (with_node
          (with_node (with_node h p (some (record m { prev = last x.at xs }))) p
            (some (record m { next = null; prev = last x.at xs })))
          (last x.at xs) (some (record b { next = p })))
        l (some (record { head = x.at; tail = p; size = n })),
    ground arith,
    record {
      new = ground arith;
      left = λ k at_k. ground arith;
      right = λ k at_k. absurd (at_k.ne_null refl);
      same = λ q a b c. ground arith;
      header = ground arith;
      lists = λ k ne. ground arith;
      mallocs = refl;
    },
  )
