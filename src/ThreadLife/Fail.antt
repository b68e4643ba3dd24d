-- ===== src/ThreadLife/Fail.antt =====
-- `create_thread` when a `kmalloc` fails.
use awk.Base.{
  ℕ, ◌+◌, ◌-◌, ◌%◌, ◌^◌, ◌<◌, ◌≤◌, ◌≡◌, ◌≢◌, Option, some, none, List, [], ◌∷◌, arith, Ptr, null,
  update, length,
}
use awk.Run.{ok}
use awk.Err.{malloc_failed}
use awk.KernelList.{
  Heap, kmalloc, load_node, load_list, create_node, create_list, delete_node, delete_list,
}
use awk.KernelList.Steps.{Points}
use awk.Kernel.{
  Thread, Kernel, disable_local_interrupt, enable_local_interrupt, load_thread, set_thread,
}
use awk.ThreadLife.{new_thread, create_thread}
use awk.ThreadLife.Create.{carries}

abbrev pub Differs : Ptr → List Ptr → Type 0
Differs p [] = Unit {0}
Differs p (q ∷ qs) = (p ≢ q) × Differs p qs

module _ {S : Type 0} where
  -- Nothing stands at the addresses, which differ.
  abbrev pub Unused : Kernel S → List Ptr → Type 0
  Unused k [] = Unit {0}
  Unused k (p ∷ ps) =
      (p ≢ null)
      × (k.heap.node p ≡ none)
      × (k.heap.list p ≡ none)
      × (k.thread p ≡ none)
      × Differs p ps
      × Unused k ps

  -- The same nodes, lists and threads.
  pub record Same (k : Kernel S) (h : Heap) (th : Ptr → Option Thread) : Type 0 where
    pub nodes : (q : Ptr) → h.node q ≡ k.heap.node q
    pub lists : (q : Ptr) → h.list q ≡ k.heap.list q
    pub threads : (q : Ptr) → th q ≡ k.thread q

  -- When `kmalloc` gives fewer than five addresses and then `NULL`, `create_thread` with an allowed
  -- priority returns OS_ERR_MALLOC and no thread, and every node, list and thread, the number of
  -- threads and the interrupts' nesting are as before, whatever was made being deleted again.
  -- Nothing stands at the addresses, which differ; the running thread exists, and the interrupts'
  -- nesting is below its bound.
  pub create_thread-undone :
      (k : Kernel S) (x : Thread) (ps : List Ptr) (fuel priority : ℕ)
      → k.heap.mallocs ≡ ps
      → length ps < 5
      → Unused k ps
      → k.active_thread ≢ null
      → k.thread k.active_thread ≡ some x
      → priority ≤ 64
      → k.int_lock_nesting < 2 ^ 32 - 1
      → (h : Heap) × (th : Ptr → Option Thread) × (pid : ℕ) × (create_thread fuel priority k
          ≡ ok (malloc_failed, null) (record k { heap = h; thread = th; last_given_pid = pid }))
        × Same k h th
  unfolding create_thread create_node create_list delete_node delete_list kmalloc load_node
      load_list disable_local_interrupt enable_local_interrupt load_thread set_thread
  create_thread-undone k x [] fuel priority given few unused ne holds low nest = (
    record { node = k.heap.node; list = k.heap.list; mallocs = [] },
    k.thread,
    k.last_given_pid,
    ground (arith, given, unused),
    record {
      nodes = λ q. ground (arith, unused);
      lists = λ q. ground (arith, unused);
      threads = λ q. ground (arith, unused);
    },
  )
  create_thread-undone k x (t ∷ []) fuel priority given few unused ne holds low nest = (
    record { node = k.heap.node; list = k.heap.list; mallocs = [] },
    (update k.thread t none),
    k.last_given_pid,
    ground (arith, given, unused),
    record {
      nodes = λ q. ground (arith, unused);
      lists = λ q. ground (arith, unused);
      threads = λ q. ground (arith, unused);
    },
  )
  create_thread-undone k x (t ∷ n ∷ []) fuel priority given few unused ne holds low nest = (
    record {
      node = (update (update k.heap.node n (some (carries t))) n none);
      list = k.heap.list;
      mallocs = [];
    },
    (update
        (update
          (update k.thread t (some (new_thread ((k.last_given_pid + 1) % 2 ^ 32) x.pid priority))) t
          (some (record (new_thread ((k.last_given_pid + 1) % 2 ^ 32) x.pid priority) {
            children = null;
          })))
        t none),
    ((k.last_given_pid + 1) % 2 ^ 32),
    ground (arith, given, unused),
    record {
      nodes = λ q. ground (arith, unused);
      lists = λ q. ground (arith, unused);
      threads = λ q. ground (arith, unused);
    },
  )
  create_thread-undone k x (t ∷ n ∷ l ∷ []) fuel priority given few unused ne holds low nest = (
    record {
      node = (update (update k.heap.node n (some (carries t))) n none);
      list =
          (update (update k.heap.list l (some (record { head = null; tail = null; size = 0 }))) l
            none);
      mallocs = [];
    },
    (update
        (update
          (update k.thread t (some (new_thread ((k.last_given_pid + 1) % 2 ^ 32) x.pid priority))) t
          (some (record (new_thread ((k.last_given_pid + 1) % 2 ^ 32) x.pid priority) {
            children = l;
          })))
        t none),
    ((k.last_given_pid + 1) % 2 ^ 32),
    ground (arith, given, unused),
    record {
      nodes = λ q. ground (arith, unused);
      lists = λ q. ground (arith, unused);
      threads = λ q. ground (arith, unused);
    },
  )
  create_thread-undone k x (t ∷ n ∷ l ∷ m ∷ []) fuel priority given few unused ne holds low nest = (
    record {
      node =
          (update
            (update (update (update k.heap.node n (some (carries t))) m (some (carries t))) n none)
            m none);
      list =
          (update (update k.heap.list l (some (record { head = null; tail = null; size = 0 }))) l
            none);
      mallocs = [];
    },
    (update
        (update
          (update k.thread t (some (new_thread ((k.last_given_pid + 1) % 2 ^ 32) x.pid priority))) t
          (some (record (new_thread ((k.last_given_pid + 1) % 2 ^ 32) x.pid priority) {
            children = l;
          })))
        t none),
    ((k.last_given_pid + 1) % 2 ^ 32),
    ground (arith, given, unused),
    record {
      nodes = λ q. ground (arith, unused);
      lists = λ q. ground (arith, unused);
      threads = λ q. ground (arith, unused);
    },
  )
  create_thread-undone k x (t ∷ n ∷ l ∷ m ∷ c ∷ ps) fuel priority given few unused ne holds low
        nest =
      absurd (omega arith)

  -- When `kmalloc` fails for the new thread but then gives a node, `create_thread` with an allowed
  -- priority returns OS_ERR_MALLOC and no thread, and the node stays allocated; the interrupts'
  -- nesting is below its bound.
  pub create_thread_leaks :
      (k : Kernel S) (n : Ptr) (ps : List Ptr) (fuel priority : ℕ)
      → k.heap.mallocs ≡ null ∷ n ∷ ps
      → n ≢ null
      → priority ≤ 64
      → k.int_lock_nesting < 2 ^ 32 - 1
      → (h : Heap) × (create_thread fuel priority k
          ≡ ok (malloc_failed, null) (record k { heap = h }))
        × Points h n (carries null)
  unfolding create_thread create_node kmalloc disable_local_interrupt enable_local_interrupt
  create_thread_leaks k n ps fuel priority given ne low nest = (
    record { node = update k.heap.node n (some (carries null)); list = k.heap.list; mallocs = ps },
    ground (arith, given),
    ground arith,
  )
