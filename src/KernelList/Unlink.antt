-- ===== src/KernelList/Unlink.antt =====
-- `kernel_list_delist_data` and the part of `kernel_list_remove_node_from` that manages the links:
-- the writes when an entry leaves a list, and the list that is left.
use awk.Base.{ℕ, ◌+◌, ◌-◌, ◌%◌, ◌^◌, ◌≡◌, refl, ◌≢◌, false, some, [], ◌∷◌, ◌++◌, arith, Ptr, null}
use awk.Run.{ok}
use awk.Err.{no_err}
use awk.KernelList.{Node, Heap, delist_data, load_node, set_node, set_list, load_list}
use awk.KernelList.Steps.{Points, Heads, with_node, with_list}
use awk.KernelList.Chain.{
  Entry, Entries, first, last, has, IsList, node_of, last-append, first-append, Linked-of_append,
  has-append, ne-last_of_has, ne-first_of_has,
}
use awk.KernelList.Splice.{Distinct-of_append, Distinct-append, unsplice}

-- The node of an entry that is in no list.
abbrev pub loose : Entry → Node
loose e = record {
  next = null;
  prev = null;
  priority = e.priority;
  enlisted = 0;
  payload = e.payload;
}

-- `g` is `h` after the entry `e` between `xs` and `ys` was taken out.
pub record Unlinked (l : Ptr) (e : Entry) (xs ys : Entries) (n : ℕ) (h g : Heap) : Type 0 where
  pub cleared : g.node e.at ≡ some (loose e)
  pub left :
      (k : Node)
      → Points h (last null xs) k
      → g.node (last null xs) ≡ some (record k { next = first ys null })
  pub right :
      (k : Node)
      → Points h (first ys null) k
      → g.node (first ys null) ≡ some (record k { prev = last null xs })
  pub same : (q : Ptr) → q ≢ e.at → q ≢ last null xs → q ≢ first ys null → g.node q ≡ h.node q
  pub header :
      g.list l
      ≡ some (record { head = first xs (first ys null); tail = last (last null xs) ys; size = n })
  pub lists : (k : Ptr) → k ≢ l → g.list k ≡ h.list k
  pub mallocs : g.mallocs ≡ h.mallocs

-- What is left when `e` has gone: the list of the others, `e`'s node loose, all else as before.
pub record Removed (l : Ptr) (e : Entry) (xs ys : Entries) (n : ℕ) (h g : Heap) : Type 0 where
  pub list : IsList g l (xs ++ ys) n
  pub node : Points g e.at (loose e)
  pub nodes : (q : Ptr) → q ≢ null → q ≢ e.at → has q (xs ++ ys) ≡ false → g.node q ≡ h.node q
  pub lists : (k : Ptr) → k ≢ l → g.list k ≡ h.list k
  pub mallocs : g.mallocs ≡ h.mallocs

pub Unlinked-Removed :
    (l : Ptr) (e : Entry) (xs ys : Entries) (n n' : ℕ) (h g : Heap)
    → IsList h l (xs ++ e ∷ ys) n
    → Unlinked l e xs ys n' h g
    → Removed l e xs ys n' h g
Unlinked-Removed l e xs ys n n' h g is gone =
    let parts = Distinct-of_append xs (e ∷ ys) is.distinct in
    record {
      list = record {
        header = record {
          ne_null = is.header.ne_null;
          holds = rw (first-append xs ys null, last-append null xs ys) gone.header;
        };
        chain = unsplice h g xs ys e is.chain is.distinct gone.left gone.right gone.same;
        distinct = Distinct-append xs ys parts.0 parts.1.1 λ q i. ground (arith, parts.2 q i);
      };
      node = record {
        ne_null = (Linked-of_append h null xs (e ∷ ys) null is.chain).1.0.ne_null;
        holds = gone.cleared;
      };
      nodes = λ q q_ne ne o.
          gone.same q ne (ne-last_of_has q xs q_ne (ground (arith, has-append q xs ys)))
            (ne-first_of_has q ys q_ne (ground (arith, has-append q xs ys)));
      lists = gone.lists;
      mallocs = gone.mallocs;
    }

module _ {h : Heap} {l : Ptr} {n : ℕ} where
  -- The only entry.
  pub delist_one :
      (e : Entry)
      → Heads h l (record { head = e.at; tail = e.at; size = n })
      → Points h e.at (node_of null e null)
      → (g : Heap) × (delist_data l h ≡ ok (e.at, no_err) g)
        × Unlinked l e [] [] ((n + 2 ^ 32 - 1) % 2 ^ 32) h g
  unfolding delist_data set_node set_list load_node load_list
  delist_one e at_l at_e = (
    with_node
        (with_list (with_list h l (some (record { head = null; tail = null; size = n }))) l
          (some (record { head = null; tail = null; size = (n + 2 ^ 32 - 1) % 2 ^ 32 })))
        e.at (some (loose e)),
    ground arith,
    record {
      cleared = ground arith;
      left = λ k at_k. absurd (at_k.ne_null refl);
      right = λ k at_k. absurd (at_k.ne_null refl);
      same = λ q a b c. ground arith;
      header = ground arith;
      lists = λ k ne. ground arith;
      mallocs = refl;
    },
  )

  -- The last entry of several.
  pub delist_several :
      (x : Entry) (xs : Entries) (e : Entry) (b : Node)
      → Heads h l (record { head = x.at; tail = e.at; size = n })
      → x.at ≢ null
      → Points h (last x.at xs) b
      → last x.at xs ≢ e.at
      → Points h e.at (node_of (last x.at xs) e null)
      → (g : Heap) × (delist_data l h ≡ ok (e.at, no_err) g)
        × Unlinked l e (x ∷ xs) [] ((n + 2 ^ 32 - 1) % 2 ^ 32) h g
  unfolding delist_data set_node set_list load_node load_list
  delist_several x xs e b at_l x_ne at_b ne at_e = (
    with_node
        (with_list
          (with_list (with_node h (last x.at xs) (some (record b { next = null }))) l
            (some (record { head = x.at; tail = last x.at xs; size = n })))
          l (some (record { head = x.at; tail = last x.at xs; size = (n + 2 ^ 32 - 1) % 2 ^ 32 })))
        e.at (some (loose e)),
    ground arith,
    record {
      cleared = ground arith;
      left = λ k at_k. ground arith;
      right = λ k at_k. absurd (at_k.ne_null refl);
      same = λ q a b c. ground arith;
      header = ground arith;
      lists = λ k ne. ground arith;
      mallocs = refl;
    },
  )
