-- ===== src/ThreadLife/Create.antt =====
-- `create_thread` when every `kmalloc` succeeds.
use awk.Base.{
  ℕ, ◌+◌, ◌%◌, ◌^◌, ◌<◌, ◌≡◌, ◌≢◌, false, some, List, [], ◌∷◌, Ptr, null, update, length,
}
use awk.Run
use awk.KernelList.{Heap, Node}
use awk.KernelList.Steps.{Points}
use awk.KernelList.Chain.{Entries, has, insert, IsList}
use awk.KernelList.Enlist.{entry}
use awk.Kernel.{Thread, Kernel}
use awk.Blocking.Wake.{Apart}

-- The addresses that `kmalloc` gives: the thread, its first node, its list of children, its other
-- nodes. No two nodes are the same.
pub record Places : Type 0 where
  pub thread : Ptr
  pub node : Ptr
  pub children : Ptr
  pub second : Ptr
  pub child : Ptr

abbrev pub carries : Ptr → Node
carries t = record { next = null; prev = null; priority = 0; enlisted = 0; payload = t }

-- The heap with the new nodes and the new list.
abbrev pub made : Heap → Places → List Ptr → Heap
made h a ps = record {
  node =
      update
        (update (update h.node a.node (some (carries a.thread))) a.second (some (carries a.thread)))
        a.child (some (carries a.thread));
  list = update h.list a.children (some (record { head = null; tail = null; size = 0 }));
  mallocs = ps;
}

-- No node of the list is one of the new ones.
abbrev pub Fresh : Places → Entries → Type 0
Fresh a xs = (has a.node xs ≡ false) × (has a.second xs ≡ false) × (has a.child xs ≡ false)

module _ {S : Type 0} where
  -- The running thread `x` has the children `cs`; `ys` are ready and `gs` are all threads.
  pub record Creates (k : Kernel S) (a : Places) (ps : List Ptr) (x : Thread) (ys gs cs : Entries)
      (n n' c : ℕ) (fuel : ℕ) : Type 0 where
    pub given : k.heap.mallocs ≡ a.thread ∷ a.node ∷ a.children ∷ a.second ∷ a.child ∷ ps
    pub thread_ne_null : a.thread ≢ null
    pub node_ne_null : a.node ≢ null
    pub children_ne_null : a.children ≢ null
    pub second_ne_null : a.second ≢ null
    pub child_ne_null : a.child ≢ null
    pub node_ne_second : a.node ≢ a.second
    pub node_ne_child : a.node ≢ a.child
    pub second_ne_child : a.second ≢ a.child
    pub ne_null : k.active_thread ≢ null
    pub other : k.active_thread ≢ a.thread
    pub holds : k.thread k.active_thread ≡ some x
    pub active : IsList k.heap k.active_threads_table ys n
    pub all : IsList k.heap k.global_threads_table gs n'
    pub siblings : IsList k.heap x.children cs c
    pub active_ne_all : k.active_threads_table ≢ k.global_threads_table
    pub active_ne_siblings : k.active_threads_table ≢ x.children
    pub all_ne_siblings : k.global_threads_table ≢ x.children
    pub new_list :
        (k.active_threads_table ≢ a.children)
        × (k.global_threads_table ≢ a.children)
        × (x.children ≢ a.children)
    pub fresh_active : Fresh a ys
    pub fresh_all : Fresh a gs
    pub fresh_siblings : Fresh a cs
    pub active_apart_all : Apart ys gs
    pub all_apart_active : Apart gs ys
    pub siblings_apart : Apart cs ys × Apart cs gs
    pub active_apart_siblings : Apart ys cs
    pub all_apart_siblings : Apart gs cs
    pub room : (length ys < fuel) × (length gs < fuel) × (length cs < fuel)

module _ {S : Type 0} where
  -- The new thread has joined the three lists.
  pub record Enrolled (k : Kernel S) (a : Places) (x : Thread) (ys gs cs : Entries) (priority : ℕ)
      (n n' c : ℕ) (h : Heap) : Type 0 where
    pub active :
        IsList h k.active_threads_table
          (insert (entry a.node (carries a.thread) priority) ys)
          ((n + 1) % 2 ^ 32)
    pub all :
        IsList h k.global_threads_table
          (insert (entry a.second (carries a.thread) priority) gs)
          ((n' + 1) % 2 ^ 32)
    pub siblings :
        IsList h x.children (insert (entry a.child (carries a.thread) 0) cs) ((c + 1) % 2 ^ 32)
    pub children : IsList h a.children [] 0

  -- The three lists and the new nodes that are in none of them yet.
  record Started (k : Kernel S) (a : Places) (x : Thread) (ys gs cs : Entries) (n n' c : ℕ)
      (g : Heap) : Type 0 where
    active : IsList g k.active_threads_table ys n
    all : IsList g k.global_threads_table gs n'
    siblings : IsList g x.children cs c
    children : IsList g a.children [] 0
    node : Points g a.node (carries a.thread)
    second : Points g a.second (carries a.thread)
    child : Points g a.child (carries a.thread)
