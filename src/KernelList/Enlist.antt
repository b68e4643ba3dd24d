-- ===== src/KernelList/Enlist.antt =====
-- `kernel_list_enlist_data` puts the node at its place by priority.
use awk.Base.{
  ℕ, ◌+◌, ◌%◌, ◌^◌, ◌<◌, ◌≡◌, refl, sym, ◌∙◌, ◌≢◌, false, some, [], ◌∷◌, ◌++◌, arith, Ptr, null,
  length,
}
use awk.Run
use awk.Run.{Cmd, ◌>>=◌, ok, pure, ◌>>◌, Returns, returns}
use awk.Err.{Err, no_err}
use awk.KernelList.{Node, Heap, check_links, enlist_data, load_node, set_node, set_list, load_list}
use awk.KernelList.Steps.{
  Points, with_node, with_list, not_null, set_node_lem, list_not_null, Points-self, Heads-with_node,
}
use awk.KernelList.Chain.{
  Entry, Entries, first, last, has, Distinct, Linked, IsList, insert, node_of, last-append,
  first-append, Linked-frame, has-last, ne-last_of_has, ne-first_of_has,
}
use awk.KernelList.Splice.{Distinct-of_append, Distinct-insert, splice}
use awk.KernelList.Place.{Placed}
use awk.KernelList.Walk.{
  higher, lower, higher-append-lower, insert_split, outside_parts, place-Placed,
}

-- `xs` became `ys` as `e` joined it; every other node and list is as before.
pub record Enlisted (l : Ptr) (e : Entry) (xs ys : Entries) (n : ℕ) (h g : Heap) : Type 0 where
  pub list : IsList g l ys ((n + 1) % 2 ^ 32)
  pub nodes : (q : Ptr) → q ≢ null → q ≢ e.at → has q xs ≡ false → g.node q ≡ h.node q
  pub lists : (k : Ptr) → k ≢ l → g.list k ≡ h.list k
  pub mallocs : g.mallocs ≡ h.mallocs

-- The neighbours of a new node differ, so that the code's last check passes.
neighbours_ne :
    (h : Heap) (xs ys : Entries)
    → Linked h null (xs ++ ys) null
    → Distinct (xs ++ ys)
    → first ys null ≢ null
    → first ys null ≢ last null xs
neighbours_ne h [] ys s d ne = ne
neighbours_ne h (x ∷ xs) [] s d ne = absurd (ne refl)
neighbours_ne h (x ∷ xs) (y ∷ ys) s d ne =
    ground (arith, (Distinct-of_append (x ∷ xs) (y ∷ ys) d).2 (last x.at xs) (has-last x xs))

-- The writes behind `place`, on a list that has the new node.
abbrev finish : (l p : Ptr) → Cmd Heap Err
finish l p = do
  set_list l (λ l. record l { size = (l.size + 1) % 2 ^ 32 })
  set_node p (λ n. record n { enlisted = 1 })
  check_links p
  pure no_err

module _ (g : Heap) (l p : Ptr) (n : ℕ) (m : Node) (hd tl a b : Ptr) where
  abbrev done : Heap
  done =
      with_node (with_list g l (some (record { head = hd; tail = tl; size = (n + 1) % 2 ^ 32 }))) p
        (some (record m { next = a; prev = b; enlisted = 1 }))

  finish_lem :
      p ≢ null
      → l ≢ null
      → g.node p ≡ some (record m { next = a; prev = b })
      → g.list l ≡ some (record { head = hd; tail = tl; size = n })
      → (a ≢ null → a ≢ b)
      → finish l p g ≡ ok no_err done
  unfolding set_list set_node load_list load_node check_links
  finish_lem p_ne l_ne at_p at_l ne = ground (arith, ne)

-- The entry that the node `m` at `p` carries once it is enlisted.
abbrev pub entry : Ptr → Node → ℕ → Entry
entry p m pr = record { at = p; priority = pr % 2 ^ 16; payload = m.payload }

-- The header field `size` is set, and the node is marked; `f` is `g` otherwise.
record Finished (l : Ptr) (e : Entry) (xs ys : Entries) (n : ℕ) (g f : Heap) : Type 0 where
  new : f.node e.at ≡ some (node_of (last null xs) e (first ys null))
  nodes : (q : Ptr) → q ≢ e.at → f.node q ≡ g.node q
  header :
      f.list l
      ≡ some (record { head = first xs e.at; tail = last e.at ys; size = (n + 1) % 2 ^ 32 })
  lists : (k : Ptr) → k ≢ l → f.list k ≡ g.list k
  mallocs : f.mallocs ≡ g.mallocs

module _ (l : Ptr) (e : Entry) (m : Node) (xs ys : Entries) (n : ℕ) (h g : Heap) (l_ne : l ≢ null)
    (e_ne : e.at ≢ null) (s : Linked h null (xs ++ ys) null) (d : Distinct (xs ++ ys))
    (out : has e.at (xs ++ ys) ≡ false) (placed : Placed l e.at n m xs ys h g) where
  Finished-IsList :
      (f : Heap) → Finished l e xs ys n g f → IsList f l (xs ++ e ∷ ys) ((n + 1) % 2 ^ 32)
  Finished-IsList f done = record {
    header = record {
      ne_null = l_ne;
      holds = rw (first-append xs (e ∷ ys) null, last-append null xs (e ∷ ys)) done.header;
    };
    chain =
        splice h f xs ys e s d out (record { ne_null = e_ne; holds = done.new })
          (λ k at_k.
            done.nodes (last null xs) (λ i. ne-last_of_has e.at xs e_ne apart.0 (sym i))
            ∙ placed.left k at_k)
          (λ k at_k.
            done.nodes (first ys null) (λ i. ne-first_of_has e.at ys e_ne apart.1 (sym i))
            ∙ placed.right k at_k)
          (λ q a b c. done.nodes q a ∙ placed.same q a b c);
    distinct = Distinct-insert xs ys e d out;
  }
    where
      apart : (has e.at xs ≡ false) × (has e.at ys ≡ false)
      apart = outside_parts e.at xs ys out

  -- A node that is not of the list is as before.
  Finished-nodes :
      (f : Heap)
      → Finished l e xs ys n g f
      → (q : Ptr) → q ≢ null
      → q ≢ e.at
      → has q (xs ++ ys) ≡ false
      → f.node q ≡ h.node q
  Finished-nodes f done q q_ne ne o =
      let apart = outside_parts q xs ys o in
      done.nodes q ne
      ∙ placed.same q ne (ne-last_of_has q xs q_ne apart.0) (ne-first_of_has q ys q_ne apart.1)

  finish-Enlisted :
      m.priority ≡ e.priority
      → m.payload ≡ e.payload
      → Returns
          (λ r f. (r ≡ no_err) × Enlisted l e (xs ++ ys) (xs ++ e ∷ ys) n h f)
          (finish l e.at g)
  finish-Enlisted pr_eq pay_eq =
      let f = done g l e.at n m (first xs e.at) (last e.at ys) (first ys null) (last null xs) in
      let is_done : Finished l e xs ys n g f = record {
        new = ground arith;
        nodes = λ q ne. ground arith;
        header = ground arith;
        lists = λ k ne. ground arith;
        mallocs = refl;
      } in
      rw
        (finish_lem g l e.at n m (first xs e.at) (last e.at ys) (first ys null) (last null xs) e_ne
          l_ne placed.new placed.header (neighbours_ne h xs ys s d))
        (returns {s = f} (
          refl,
          record {
            list = Finished-IsList f is_done;
            nodes = Finished-nodes f is_done;
            lists = λ k ne. is_done.lists k ne ∙ placed.lists k ne;
            mallocs = placed.mallocs;
          },
        ))

module _ {h : Heap} {l p : Ptr} {n : ℕ} {m : Node} (at_p : Points h p m) (fuel pr : ℕ) where
  -- The first write, of the priority, is outside the list.
  ready :
      (xs : Entries)
      → IsList h l xs n
      → has p xs ≡ false
      → IsList (with_node h p (some (record m { priority = pr % 2 ^ 16 }))) l xs n
  ready xs is out = record {
    header = Heads-with_node is.header p _;
    chain = Linked-frame h _ null xs null is.chain (λ q i. ground arith);
    distinct = is.distinct;
  }

  -- For a list of the entries `xs`, a node outside it and more fuel than it has entries,
  -- `kernel_list_enlist_data` returns no error; the list then holds the node's entry at its place by
  -- priority (behind all of a higher number, before those of the same), linked both ways, with
  -- `size` one more modulo 2^32, and every other node and list is as before.
  pub enlist-insert :
      (xs : Entries)
      → IsList h l xs n
      → has p xs ≡ false
      → length xs < fuel
      → Returns
          (λ r g. (r ≡ no_err) × Enlisted l (entry p m pr) xs (insert (entry p m pr) xs) n h g)
          (enlist_data fuel p l pr h)
  unfolding enlist_data
  enlist-insert xs is out k =
      let m1 = record m { priority = pr % 2 ^ 16 } in
      let h1 = with_node h p (some m1) in
      let is1 : IsList h1 l xs n = ready xs is out in
      let (g, run, placed) =
        place-Placed {h = h1} {m = m1} (Points-self at_p m1) fuel (pr % 2 ^ 16) xs is1 out k in
      let split = higher-append-lower (pr % 2 ^ 16) xs in
      rw (not_null at_p, list_not_null is.header, set_node_lem at_p, run)
        (Run.mono
          (finish-Enlisted l (entry p m pr) m1 (higher (pr % 2 ^ 16) xs) (lower (pr % 2 ^ 16) xs) n
            h1 g is.header.ne_null at_p.ne_null (rw split is1.chain) (rw split is.distinct)
            (rw split out) placed refl refl)
          λ r f (fine, after). (
            fine,
            record {
              list = rw (insert_split (entry p m pr) xs) after.list;
              nodes = λ q q_ne ne o. after.nodes q q_ne ne (rw split o) ∙ ground arith;
              lists = after.lists;
              mallocs = after.mallocs;
            },
          ))
