-- ===== src/ThreadExit/Release.antt =====
-- `thread_exit` of a thread without children that another one waits for.
use awk.Base.{
  ℕ, zero, suc, refl, ◌+◌, ◌%◌, ◌^◌, ◌<◌, ◌≡◌, ◌≢◌, sym, ◌∙◌, true, false, Option, none, some, [],
  arith, Ptr, null, update, length,
}
use awk.Run
use awk.Run.{ok}
use awk.Err.{no_err}
use awk.KernelList.{Heap, Node, enlist_data}
use awk.KernelList.Steps.{Points, with_list, load_node_lem}
use awk.KernelList.Chain.{Entries, has, insert, IsList}
use awk.Blocking.Waiters.{has-insert}
use awk.KernelList.Enlist.{entry, enlist-insert}
use awk.KernelList.Delist.{delist-nil}
use awk.KernelList.Nodes.{delete_nil}
use awk.Kernel.{
  ThreadState, Thread, Kernel, Switch, disable_local_interrupt, enable_local_interrupt, load_thread,
  set_thread, schedule,
}
use awk.Blocking.Wake.{IsList-frame}
use awk.Blocking.Frame.{IsList-enlisted, Points-enlisted, Apart-insert}
use awk.Scheduler.Sleepers.{with_threads}
use awk.ThreadExit.{is_joining, inherit, release_joining, thread_exit}

module _ {S : Type 0} where
  -- The running thread `x`, whose node is `m`, is not `init`. The thread `y`, whose node is `jm`, waits
  -- for its end. `ys` are ready and `zs` have ended.
  pub record Ends (k : Kernel S) (x : Thread) (m : Node) (y : Thread) (jm : Node) (ys zs : Entries)
      (n n' c : ℕ) (fuel : ℕ) : Type 0 where
    pub ne_null : k.active_thread ≢ null
    pub ne_init : k.active_thread ≢ k.init_thread
    pub holds : k.thread k.active_thread ≡ some x
    pub node : Points k.heap k.active_thread_node m
    pub joiner_node : Points k.heap x.joining_thread jm
    pub joiner_ne_null : jm.payload ≢ null
    pub joiner_other : jm.payload ≢ k.active_thread
    pub joiner : k.thread jm.payload ≡ some y
    pub joins : is_joining y.state ≡ true
    pub other_node : x.joining_thread ≢ k.active_thread_node
    pub active : IsList k.heap k.active_threads_table ys n
    pub ended : IsList k.heap k.zombie_threads_table zs n'
    pub no_children : IsList k.heap x.children [] c
    pub active_ne_ended : k.active_threads_table ≢ k.zombie_threads_table
    pub active_ne_children : k.active_threads_table ≢ x.children
    pub ended_ne_children : k.zombie_threads_table ≢ x.children
    pub out_active : (has x.joining_thread ys ≡ false) × (has k.active_thread_node ys ≡ false)
    pub out_ended : (has x.joining_thread zs ≡ false) × (has k.active_thread_node zs ≡ false)
    pub apart : (q : Ptr) → has q zs ≡ true → has q ys ≡ false
    pub room : (length ys < fuel) × (length zs < fuel)

  -- The waiting thread is ready, and this one has ended.
  pub record Released (k : Kernel S) (x : Thread) (m : Node) (y : Thread) (jm : Node)
      (ys zs : Entries) (n n' : ℕ) (u : Kernel S) : Type 0 where
    pub joiner : u.thread jm.payload ≡ some (record y { state = ThreadState.ready })
    pub ender :
        u.thread k.active_thread ≡ some (record x { state = ThreadState.zombie; children = null })
    pub others : (q : Ptr) → q ≢ jm.payload → q ≢ k.active_thread → u.thread q ≡ k.thread q
    pub active :
        IsList u.heap k.active_threads_table
          (insert (entry x.joining_thread jm y.priority) ys)
          ((n + 1) % 2 ^ 32)
    pub ended :
        IsList u.heap k.zombie_threads_table
          (insert (entry k.active_thread_node m 0) zs)
          ((n' + 1) % 2 ^ 32)
    pub no_children : u.heap.list x.children ≡ none

  -- The two enlistings of `thread_exit`, and the heap between them.
  pub record Moves (k : Kernel S) (x : Thread) (m : Node) (y : Thread) (jm : Node) (ys zs : Entries)
      (n n' c : ℕ) (fuel : ℕ) (g h : Heap) : Type 0 where
    pub woken :
        enlist_data fuel x.joining_thread k.active_threads_table y.priority k.heap ≡ ok no_err g
    pub buried : enlist_data fuel k.active_thread_node k.zombie_threads_table 0 g ≡ ok no_err h
    pub active :
        IsList h k.active_threads_table
          (insert (entry x.joining_thread jm y.priority) ys)
          ((n + 1) % 2 ^ 32)
    pub ended :
        IsList h k.zombie_threads_table
          (insert (entry k.active_thread_node m 0) zs)
          ((n' + 1) % 2 ^ 32)
    pub no_children : IsList h x.children [] c

  moves_lem :
      (k : Kernel S) (x : Thread) (m : Node) (y : Thread) (jm : Node) (ys zs : Entries) {n n' c : ℕ}
      (fuel : ℕ)
      → Ends k x m y jm ys zs n n' c fuel
      → (g h : Heap) × Moves k x m y jm ys zs n n' c fuel g h
  moves_lem k x m y jm ys zs {n} {n'} {c} fuel s =
      let j = x.joining_thread in
      let (r, g, run, (fine, put)) =
        Run.outcome
          (enlist-insert s.joiner_node fuel y.priority ys s.active s.out_active.0 s.room.0) in
      let ended =
        IsList-enlisted put k.zombie_threads_table zs n' s.ended (λ i. s.active_ne_ended (sym i))
          s.out_ended.0 s.apart in
      let node =
        Points-enlisted put k.active_thread_node m s.node (λ i. s.other_node (sym i))
          s.out_active.1 in
      let (r', h, run', (fine', put')) =
        Run.outcome (enlist-insert node fuel 0 zs ended s.out_ended.1 s.room.1) in
      let e = entry j jm y.priority in
      (
        g,
        h,
        record {
          woken = cc;
          buried = cc;
          active =
              IsList-enlisted put' k.active_threads_table (insert e ys) ((n + 1) % 2 ^ 32) put.list
                s.active_ne_ended
                (ground (arith, has-insert k.active_thread_node e ys, s.out_active, s.other_node))
                (Apart-insert e ys zs s.out_ended.0 (λ q i. ground (arith, s.apart q, i)));
          ended = put'.list;
          no_children =
              IsList-frame k.heap h x.children [] c s.no_children
                (λ q i. absurd (ground (arith, i)))
                (put'.lists x.children (λ i. s.ended_ne_children (sym i))
                  ∙ put.lists x.children (λ i. s.active_ne_children (sym i)));
        },
      )

  -- When a thread that is not `init` ends, has no children and is waited for by a thread in the
  -- state JOINING, `thread_exit` makes that thread ready and puts its node at its priority in the
  -- table of active threads, marks the ending thread as a zombie, puts its node in the table of
  -- ended threads, deletes its empty list of children and then gives way; the other threads are as
  -- before. Interrupts are enabled, the three lists are apart, neither node is in one of them, and
  -- there is enough fuel.
  pub thread_exit-releases :
      (k : Kernel S) (x : Thread) (m : Node) (y : Thread) (jm : Node) (ys zs : Entries) {n n' c : ℕ}
      (fuel rounds : ℕ) (switch : Switch S)
      → Ends k x m y jm ys zs n n' c fuel
      → k.int_lock_nesting ≡ 0
      → 0 < rounds
      → (h : Heap) × (th : Ptr → Option Thread) × (thread_exit fuel rounds switch k
          ≡ ok tt (switch (with_threads k h th)))
        × Released k x m y jm ys zs n n' (with_threads k h th)
  unfolding thread_exit disable_local_interrupt enable_local_interrupt load_thread set_thread
      schedule inherit release_joining
  thread_exit-releases k x m y jm ys zs fuel zero switch s nest some_rounds = absurd (omega arith)
  thread_exit-releases k x m y jm ys zs {n} {n'} fuel (suc rounds) switch s nest some_rounds =
      let (g, h, moves) = moves_lem k x m y jm ys zs fuel s in
      let h' = with_list h x.children none in
      let th1 = update k.thread jm.payload (some (record y { state = ThreadState.ready })) in
      let th2 = update th1 k.active_thread (some (record x { state = ThreadState.zombie })) in
      let th =
        update th2 k.active_thread
          (some (record x { state = ThreadState.zombie; children = null })) in
      let e = entry x.joining_thread jm y.priority in
      (
        h',
        th,
        ground (
          arith,
          s,
          moves,
          nest,
          load_node_lem s.joiner_node,
          s.joiner_node.ne_null,
          delist-nil moves.no_children,
          delete_nil moves.no_children,
        ),
        record {
          joiner = ground (arith, s.joiner_other);
          ender = ground arith;
          others = λ q a b. ground (arith, a, b);
          active =
              IsList-frame h h' k.active_threads_table (insert e ys) ((n + 1) % 2 ^ 32) moves.active
                (λ q i. refl) (ground (arith, s.active_ne_children));
          ended =
              IsList-frame h h' k.zombie_threads_table (insert (entry k.active_thread_node m 0) zs)
                ((n' + 1) % 2 ^ 32) moves.ended (λ q i. refl) (ground (arith, s.ended_ne_children));
          no_children = ground arith;
        },
      )
