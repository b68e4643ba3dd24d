-- ===== src/KernelList/Steps.antt =====
-- The accesses of core/kernel_list.c at an object that is there.
use awk.Base.{◌≡◌, ◌≢◌, false, Option, some, arith, Ptr, null, ◌==◌, update}
use awk.Run.{ok}
use awk.KernelList.{Node, KernelList, Heap, load_node, load_list, set_node, set_list}

-- `p` is the address of the node `n`.
pub record Points (h : Heap) (p : Ptr) (n : Node) : Type 0 where
  pub ne_null : p ≢ null
  pub holds : h.node p ≡ some n

-- `l` is the address of the list header `x`.
pub record Heads (h : Heap) (l : Ptr) (x : KernelList) : Type 0 where
  pub ne_null : l ≢ null
  pub holds : h.list l ≡ some x

abbrev pub with_node : Heap → Ptr → Option Node → Heap
with_node h p c = record h { node = update h.node p c }

abbrev pub with_list : Heap → Ptr → Option KernelList → Heap
with_list h l c = record h { list = update h.list l c }

module _ {h : Heap} {p : Ptr} {n : Node} (e : Points h p n) where
  pub not_null : (p == null) ≡ false
  not_null = ground arith

  pub load_node_lem : load_node p h ≡ ok n h
  unfolding load_node
  load_node_lem = rw (not_null, e.holds)

  pub set_node_lem : (f : Node → Node) → set_node p f h ≡ ok tt (with_node h p (some (f n)))
  unfolding set_node
  set_node_lem f = rw load_node_lem

  -- What stands at `p` after a write to it.
  pub Points-self : (m : Node) → Points (with_node h p (some m)) p m
  Points-self m = ground arith

  -- A write elsewhere leaves the node.
  Points-other : (q : Ptr) (m : Option Node) → p ≢ q → Points (with_node h q m) p n
  Points-other q m ne = ground arith

  Points-with_list : (l : Ptr) (x : Option KernelList) → Points (with_list h l x) p n
  Points-with_list l x = record { ne_null = e.ne_null; holds = e.holds }

module _ {h : Heap} {l : Ptr} {x : KernelList} (e : Heads h l x) where
  pub list_not_null : (l == null) ≡ false
  list_not_null = ground arith

  pub load_list_lem : load_list l h ≡ ok x h
  unfolding load_list
  load_list_lem = rw (list_not_null, e.holds)

  set_list_lem : (f : KernelList → KernelList) → set_list l f h ≡ ok tt (with_list h l (some (f x)))
  unfolding set_list
  set_list_lem f = rw load_list_lem

  Heads-self : (y : KernelList) → Heads (with_list h l (some y)) l y
  Heads-self y = ground arith

  pub Heads-with_node : (p : Ptr) (m : Option Node) → Heads (with_node h p m) l x
  Heads-with_node p m = record { ne_null = e.ne_null; holds = e.holds }
