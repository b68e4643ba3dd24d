-- ===== src/Blocking/Wake.antt =====
-- Waking a thread: `unlock_thread` after `kernel_list_delist_data`.
use mathlib.Core.List.{append-nil}
use awk.Base.{
  ℕ, ◌+◌, ◌-◌, ◌%◌, ◌^◌, ◌<◌, ◌≡◌, sym, ◌∙◌, ◌≢◌, true, false, some, [], ◌∷◌, ◌++◌, arith, Ptr,
  null, update, length,
}
use awk.Run
use awk.Run.{ok, Returns, returns}
use awk.Err.{no_err}
use awk.KernelList.{Heap, enlist_data, delist_data}
use awk.KernelList.Steps.{Points, load_node_lem}
use awk.KernelList.Chain.{
  Entry, Entries, has, IsList, insert, Linked-frame, has-append, ne_null_of_has, head_ne,
}
use awk.KernelList.Splice.{Distinct-of_append}
use awk.KernelList.Unlink.{loose, Removed}
use awk.KernelList.Enlist.{entry, enlist-insert}
use awk.KernelList.Delist.{delist-last}
use awk.Kernel.{
  ThreadState, BlockType, Thread, Kernel, disable_local_interrupt, enable_local_interrupt,
  load_thread, set_thread,
}
use awk.Blocking.{is_blocked, same_type, make_ready}

-- `x` is the thread that the entry carries, and it is blocked for reason `b`.
pub record Blocked {S : Type 0} (k : Kernel S) (b : BlockType) (e : Entry) (x : Thread)
    : Type 0 where
  pub ne_null : e.payload ≢ null
  pub ne_idle : e.payload ≢ k.idle_thread
  pub holds : k.thread e.payload ≡ some x
  pub blocked : is_blocked x.state ≡ true
  pub reason : same_type x.block_type b ≡ true

-- The thread ready, at its own priority, in the table of active threads.
abbrev pub readied : {S : Type 0} → Kernel S → Entry → Thread → Heap → Kernel S
readied k e x g = record k {
  heap = g;
  thread = update k.thread e.payload (some (record x { state = ThreadState.ready }));
}

pub IsList-frame :
    (h g : Heap) (l : Ptr) (xs : Entries) (n : ℕ)
    → IsList h l xs n
    → ((q : Ptr) → has q xs ≡ true → g.node q ≡ h.node q)
    → g.list l ≡ h.list l
    → IsList g l xs n
IsList-frame h g l xs n is nodes list = record {
  header = record { ne_null = is.header.ne_null; holds = list ∙ is.header.holds };
  chain = Linked-frame h g null xs null is.chain nodes;
  distinct = is.distinct;
}

module _ {S : Type 0} (k : Kernel S) (b : BlockType) (e : Entry) (x : Thread) (fuel : ℕ)
    (is_b : Blocked k b e x) (nest : k.int_lock_nesting < 2 ^ 32 - 1) where
  make_ready_lem :
      (g : Heap)
      → Points k.heap e.at (loose e)
      → enlist_data fuel e.at k.active_threads_table x.priority k.heap ≡ ok no_err g
      → make_ready fuel e.at b k ≡ ok no_err (readied k e x g)
  unfolding make_ready disable_local_interrupt enable_local_interrupt load_thread set_thread
  make_ready_lem g at_e run = ground (arith, load_node_lem at_e, run, is_b)

-- The last entry of one list has moved to its place by priority in another.
pub record Moved (l act : Ptr) (e : Entry) (pr : ℕ) (xs ys : Entries) (n m : ℕ) (h g : Heap)
    : Type 0 where
  pub from : IsList g l xs ((n + 2 ^ 32 - 1) % 2 ^ 32)
  pub to : IsList g act (insert (entry e.at (loose e) pr) ys) ((m + 1) % 2 ^ 32)
  pub nodes :
      (q : Ptr) → q ≢ null → q ≢ e.at → has q xs ≡ false → has q ys ≡ false → g.node q ≡ h.node q
  pub lists : (q : Ptr) → q ≢ l → q ≢ act → g.list q ≡ h.list q
  pub mallocs : g.mallocs ≡ h.mallocs

-- No node is in both lists.
abbrev pub Apart : Entries → Entries → Type 0
Apart xs ys = (q : Ptr) → has q xs ≡ true → has q ys ≡ false

-- The first half of the move is over: `e` is in neither list.
pub record Taken (l act : Ptr) (e : Entry) (xs ys : Entries) (n m : ℕ) (h g : Heap) : Type 0 where
  pub run : delist_data l h ≡ ok (e.at, no_err) g
  pub gone : Removed l e xs [] ((n + 2 ^ 32 - 1) % 2 ^ 32) h g
  pub rest : IsList g act ys m
  pub out : has e.at ys ≡ false

module _ (h : Heap) (l act : Ptr) (xs : Entries) (e : Entry) (ys : Entries) (n m : ℕ)
    (waiting : IsList h l (xs ++ e ∷ []) n) (ready : IsList h act ys m) (ne : act ≢ l)
    (apart : Apart (xs ++ e ∷ []) ys) where
  not_waiting : (q : Ptr) → has q ys ≡ true → (q ≢ e.at) × (has q (xs ++ []) ≡ false)
  not_waiting q i = ground (arith, apart q, has-append q xs (e ∷ []), has-append q xs [])

  not_ready : has e.at ys ≡ false
  not_ready = apart e.at (ground (arith, has-append e.at xs (e ∷ [])))

  stays : (q : Ptr) → has q xs ≡ true → (q ≢ null) × (q ≢ e.at) × (has q ys ≡ false)
  stays q i =
      let both : has q (xs ++ e ∷ []) ≡ true = ground (arith, has-append q xs (e ∷ [])) in
      let other = (Distinct-of_append xs (e ∷ []) waiting.distinct).2 q i in
      (
        ne_null_of_has h null (xs ++ e ∷ []) null q waiting.chain both,
        (λ j. head_ne q e [] other (sym j)),
        apart q both,
      )

  pub take_last : (g : Heap) × Taken l act e xs ys n m h g
  take_last =
      let (pr, g, run, (at_e, fine, gone)) = Run.outcome (delist-last xs e waiting) in
      (
        g,
        record {
          run = cc;
          gone = gone;
          rest =
              IsList-frame h g act ys m ready
                (λ q i.
                  gone.nodes q (ne_null_of_has h null ys null q ready.chain i) (not_waiting q i).0
                    (not_waiting q i).1)
                (gone.lists act ne);
          out = not_ready;
        },
      )

  -- `kernel_list_delist_data` on the one list and `kernel_list_enlist_data` on the other, at a
  -- priority of 16 bits.
  pub move_last :
      (fuel pr : ℕ)
      → length ys < fuel
      → (g1 g2 : Heap) × (delist_data l h ≡ ok (e.at, no_err) g1)
        × Points g1 e.at (loose e)
        × (enlist_data fuel e.at act pr g1 ≡ ok no_err g2)
        × Moved l act e pr xs ys n m h g2
  move_last fuel pr k =
      let (g1, taken) = take_last in
      let (r, g2, run, (fine, put)) =
        Run.outcome (enlist-insert taken.gone.node fuel pr ys taken.rest taken.out k) in
      (
        g1,
        g2,
        taken.run,
        taken.gone.node,
        cc,
        record {
          from =
              IsList-frame g1 g2 l xs ((n + 2 ^ 32 - 1) % 2 ^ 32)
                (rw append-nil at (taken.gone.list))
                (λ q i. put.nodes q (stays q i).0 (stays q i).1 (stays q i).2)
                (put.lists l λ i. ne (sym i));
          to = put.list;
          nodes = λ q q_ne ne o o'.
              put.nodes q q_ne ne o' ∙ taken.gone.nodes q q_ne ne (rw append-nil o);
          lists = λ q a b. put.lists q b ∙ taken.gone.lists q a;
          mallocs = put.mallocs ∙ taken.gone.mallocs;
        },
      )

-- The state in which a primitive finds a thread to wake: `e` waits longest in `l`, behind `xs`, its
-- thread `x` is blocked for reason `b`, and `ys` are the entries of the table of active threads.
pub record Wakeable {S : Type 0} (k : Kernel S) (l : Ptr) (b : BlockType) (xs : Entries) (e : Entry)
    (x : Thread) (ys : Entries) (n m fuel : ℕ) : Type 0 where
  pub waiting : IsList k.heap l (xs ++ e ∷ []) n
  pub active : IsList k.heap k.active_threads_table ys m
  pub ne : k.active_threads_table ≢ l
  pub apart : Apart (xs ++ e ∷ []) ys
  pub thread : Blocked k b e x
  pub room : length ys < fuel

module _ {S : Type 0} {k : Kernel S} {l : Ptr} {b : BlockType} {xs : Entries} {e : Entry}
    {x : Thread} {ys : Entries} {n m fuel : ℕ} (w : Wakeable k l b xs e x ys n m fuel) where
  -- The thread is taken from the waiting threads and made ready. Between the two the nesting of
  -- disabled interrupts and the object may change.
  pub wake_last :
      (g1 g2 : Heap) × (delist_data l k.heap ≡ ok (e.at, no_err) g1)
      × (e.at ≢ null)
      × ((c : ℕ) (s : S)
          → c < 2 ^ 32 - 1
          → make_ready fuel e.at b (record k { heap = g1; int_lock_nesting = c; self = s })
            ≡ ok no_err (readied (record k { heap = g1; int_lock_nesting = c; self = s }) e x g2))
      × Moved l k.active_threads_table e x.priority xs ys n m k.heap g2
  wake_last =
      let (g1, g2, took, at_e, put, moved) =
        move_last k.heap l k.active_threads_table xs e ys n m w.waiting w.active w.ne w.apart fuel
          x.priority w.room in
      (
        g1,
        g2,
        took,
        at_e.ne_null,
        (λ c s small.
            make_ready_lem (record k { heap = g1; int_lock_nesting = c; self = s }) b e x fuel
              (record {
                ne_null = w.thread.ne_null;
                ne_idle = w.thread.ne_idle;
                holds = w.thread.holds;
                blocked = w.thread.blocked;
                reason = w.thread.reason;
              })
              small g2 at_e put),
        moved,
      )
