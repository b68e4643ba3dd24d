-- ===== src/ThreadExit/Orphan.antt =====
-- `thread_exit` of a thread that has children which nobody waits for.
use awk.Base.{
  refl, ℕ, zero, suc, ◌<◌, ◌≡◌, ◌≢◌, sym, false, some, [], ◌∷◌, ◌++◌, arith, null, length,
}
use awk.Run
use awk.Run.{ok, fault}
use awk.Err.{no_err}
use awk.KernelList.{Heap, Node, load_node, enlist_data, delist_data}
use awk.KernelList.Steps.{Points}
use awk.KernelList.Chain.{Entry, Entries, has, IsList, ne_null_of_has}
use awk.KernelList.Enlist.{enlist-insert}
use awk.KernelList.Delist.{delist-last}
use awk.Kernel.{
  Thread, Kernel, Switch, disable_local_interrupt, enable_local_interrupt, load_thread, set_thread,
  schedule,
}
use awk.Blocking.Wake.{IsList-frame, Apart}
use awk.ThreadExit.{inherit, release_joining, thread_exit}

module _ {S : Type 0} where
  -- The running thread `x`, whose node is `m`, is not `init` and nobody waits for it. `z` is the first
  -- of its children that `thread_exit` comes to, the last of the list: nobody waits for it either.
  pub record Leaves (k : Kernel S) (x : Thread) (m : Node) (i z : Thread) (cs : Entries) (e : Entry)
      (zs : Entries) (n c : ℕ) (fuel : ℕ) : Type 0 where
    pub ne_null : k.active_thread ≢ null
    pub ne_init : k.active_thread ≢ k.init_thread
    pub holds : k.thread k.active_thread ≡ some x
    pub alone : x.joining_thread ≡ null
    pub node : Points k.heap k.active_thread_node m
    pub ended : IsList k.heap k.zombie_threads_table zs n
    pub out : has k.active_thread_node zs ≡ false
    pub children : IsList k.heap x.children (cs ++ e ∷ []) c
    pub ended_ne_children : k.zombie_threads_table ≢ x.children
    pub no_child : has k.active_thread_node (cs ++ e ∷ []) ≡ false
    pub apart : Apart (cs ++ e ∷ []) zs
    pub room : length zs < fuel
    pub init_ne_null : k.init_thread ≢ null
    pub init : k.thread k.init_thread ≡ some i
    pub child_ne_null : e.payload ≢ null
    pub child_other : (e.payload ≢ k.active_thread) × (e.payload ≢ k.init_thread)
    pub child : k.thread e.payload ≡ some z
    pub unwaited : z.joining_thread ≡ null

  first_child :
      (k : Kernel S) (x : Thread) (m : Node) (i z : Thread) (cs : Entries) (e : Entry)
      (zs : Entries) {n c : ℕ} (fuel : ℕ)
      → Leaves k x m i z cs e zs n c fuel
      → (g h : Heap) × (enlist_data fuel k.active_thread_node k.zombie_threads_table 0 k.heap
          ≡ ok no_err g)
        × (delist_data x.children g ≡ ok (e.at, no_err) h)
        × ((j : Node) × Points h e.at j × (j.payload ≡ e.payload))
  first_child k x m i z cs e zs {n} {c} fuel s =
      let (r, g, run, (fine, put)) =
        Run.outcome (enlist-insert s.node fuel 0 zs s.ended s.out s.room) in
      let children : IsList g x.children (cs ++ e ∷ []) c =
        IsList-frame k.heap g x.children (cs ++ e ∷ []) c s.children
          (λ q i.
            put.nodes q (ne_null_of_has k.heap null (cs ++ e ∷ []) null q s.children.chain i)
              (λ same. absurd (ground (arith, s.no_child, same, i))) (s.apart q i))
          (put.lists x.children (λ i. s.ended_ne_children (sym i))) in
      let (pr, h, run', (at_e, fine', gone)) = Run.outcome (delist-last cs e children) in
      (g, h, cc, cc, (_, gone.node, refl))

  -- When a thread that is not `init` and that nobody waits for ends and has a child that nobody
  -- waits for, at the end of its list of children that is served first, `thread_exit` reads through
  -- `NULL`: it looks at the child's `joining_thread` without a test. The lists are apart, `init` and
  -- the child exist and differ from the thread, and there is enough fuel.
  pub thread_exit_faults :
      (k : Kernel S) (x : Thread) (m : Node) (i z : Thread) (cs : Entries) (e : Entry)
      (zs : Entries) {n c : ℕ} (fuel rounds : ℕ) (switch : Switch S)
      → Leaves k x m i z cs e zs n c fuel
      → 0 < rounds
      → thread_exit fuel rounds switch k ≡ fault
  unfolding thread_exit disable_local_interrupt enable_local_interrupt load_thread set_thread
      schedule inherit release_joining load_node
  thread_exit_faults k x m i z cs e zs fuel zero switch s some_rounds = absurd (omega arith)
  thread_exit_faults k x m i z cs e zs fuel (suc rounds) switch s some_rounds =
      let (g, h, buried, taken, (j, at_e, own)) = first_child k x m i z cs e zs fuel s in
      ground (arith, s, buried, taken, at_e.holds, at_e.ne_null, own)
