-- ===== src/Scheduler/Next.antt =====
-- `select_thread` as a whole, for a running thread and for one that waits.
use awk.Base.{
  ℕ, ◌+◌, ◌%◌, ◌^◌, ◌<◌, ◌≡◌, ◌≢◌, sym, ◌∙◌, Bool-cases, inl, inr, false, Option, some, [], ◌∷◌,
  ◌++◌, arith, Ptr, null, update, length, ◌==◌,
}
use awk.Run
use awk.Run.{ok}
use awk.Err.{no_err}
use awk.KernelList.{Heap, Node, enlist_data}
use awk.KernelList.Chain.{Entry, Entries, insert, ne_null_of_has, Descending}
use awk.KernelList.Enlist.{entry, enlist-insert}
use awk.KernelList.Order.{AtLeast, AtLeast-of_Descending, insert-Descending}
use awk.Kernel.{ThreadState, Thread, Kernel, load_thread, set_thread}
use awk.Blocking.Wake.{IsList-frame}
use awk.Blocking.Waiters.{Waiters, queue_of, Other, joined, length-insert, has-insert}
use awk.Scheduler.{is_running, is_sleeping, requeue, select_thread}
use awk.Scheduler.Sleepers.{AllHeld, AllDue, Early, Sleepers, with_threads}
use awk.Scheduler.Live.{Live, Live-frame, Live-insert, joined-Descending}
use awk.Scheduler.Select.{Runs, Chosen, switched, choose_lem}

module _ {S : Type 0} where
  -- The running thread ready again.
  abbrev pub preempted : Kernel S → Thread → Heap → Kernel S
  preempted k x g =
      with_threads k g
        (update k.thread k.active_thread (some (record x { state = ThreadState.ready })))

  AllHeld-Other :
      (k : Kernel S) (x : Thread) (g : Heap) (es : Waiters)
      → Other k.active_thread es
      → AllHeld k es
      → AllHeld (preempted k x g) es
  AllHeld-Other k x g [] o all = tt
  AllHeld-Other k x g ((e, y) ∷ es) o (ne, holds, other, all) =
      (ne, ground (arith, o.0, holds), other, AllHeld-Other k x g es o.1 all)

  requeue_lem :
      (fuel : ℕ) (k : Kernel S) (x : Thread) (m : Node) (es : Waiters) (ys : Entries) {n n' : ℕ}
      → Runs k x m es ys
      → Sleepers k es ys n n' fuel
      → length ys + length es + 1 < fuel
      → Live k ys
      → (g : Heap) × (requeue fuel k ≡ ok tt (preempted k x g))
        × Sleepers
            (preempted k x g)
            es
            (insert (entry k.active_thread_node m x.priority) ys)
            n
            ((n' + 1) % 2 ^ 32)
            fuel
        × Live (preempted k x g) (insert (entry k.active_thread_node m x.priority) ys)
  unfolding requeue load_thread set_thread
  requeue_lem fuel k x m es ys {n} {n'} r s room live =
      let p = k.active_thread_node in
      let (e, g, run, (fine, put)) =
        Run.outcome (enlist-insert r.node fuel x.priority ys s.active r.out (omega arith)) in
      let run' : enlist_data fuel p k.active_threads_table x.priority k.heap ≡ ok no_err g = cc in
      (
        g,
        ground (arith, run', r),
        record {
          asleep =
              IsList-frame k.heap g k.sleeping_threads_table (queue_of es) n s.asleep
                (λ q i.
                  put.nodes q (ne_null_of_has k.heap null (queue_of es) null q s.asleep.chain i)
                    (λ same. absurd (ground (arith, r.awake, same, i))) (s.apart q i))
                (put.lists k.sleeping_threads_table (λ i. s.ne (sym i)));
          active = put.list;
          ne = s.ne;
          apart =
              λ q i. ground (arith, s.apart q, r.awake, i, has-insert q (entry p m x.priority) ys);
          threads = AllHeld-Other k x g es r.other s.threads;
          room = omega (arith, room, length-insert (entry p m x.priority) ys);
        },
        Live-insert (preempted k x g) (entry p m x.priority) ys
            (record x { state = ThreadState.ready }) (λ i. r.ne_null (sym (r.own) ∙ i))
            (ground (arith, r.own))
            (Live-frame k (preempted k x g) ys (λ q t holds. keeps q t holds) live),
      )
    where
      keeps :
          (q : Ptr) (t : Thread)
          → k.thread q ≡ some t
          → (t' : Thread) × (update k.thread k.active_thread
                (some (record x { state = ThreadState.ready }))
                q
              ≡ some t')
      keeps q t holds = elim (Bool-cases (q == k.active_thread)) [
        | inl same ↦ (record x { state = ThreadState.ready }, rw same)
        | inr ne ↦ (t, rw ne holds)
      ]

-- When the running thread is to run on, `select_thread` makes it ready and puts it at its priority
-- in the table of active threads; then it makes ready, from the end that is served first, the
-- sleeping threads whose wake-up time is over, moves each to that table at its own priority, and
-- leaves the others asleep, of which only the first is looked at. The last entry of the table leaves
-- it and its thread becomes the running one; no entry left has a smaller priority number, and no
-- other thread has changed. The table is in order of priority, the lists are apart, every entry has
-- a thread, the sleeping threads differ from each other and from the running one, and there are more
-- rounds than sleeping threads whose time is over and enough fuel for the table with all threads in
-- it.
pub select_thread-picks :
    {S : Type 0} (fuel rounds t : ℕ) (k : Kernel S) (x : Thread) (m : Node) (due rest : Waiters)
    (ys : Entries) {n n' : ℕ}
    → Runs k x m (due ++ rest) ys
    → Sleepers k (due ++ rest) ys n n' fuel
    → length ys + length (due ++ rest) + 1 < fuel
    → AllDue t due
    → Early t rest
    → length due < rounds
    → Live k ys
    → Descending ys
    → (vs : Entries) × (e : Entry) × (y : Thread) × (h : Heap) × (th : Ptr → Option Thread)
      × (joined due (insert (entry k.active_thread_node m x.priority) ys) ≡ vs ++ e ∷ [])
      × (select_thread fuel rounds t k ≡ ok tt (switched k e h th))
      × Chosen (preempted k x k.heap) e y due vs rest (switched k e h th)
      × AtLeast e.priority vs
unfolding select_thread
select_thread-picks fuel rounds t k x m due rest ys r s room all early enough live d =
    let old = entry k.active_thread_node m x.priority in
    let (g, back, s', live') = requeue_lem fuel k x m (due ++ rest) ys r s room live in
    let (vs, e, y, h, th, split, run, chosen) =
      choose_lem fuel rounds t (preempted k x g) due rest (insert old ys) s' all early enough live'
        (omega (arith, length-insert old ys)) in
    let ordered : Descending (vs ++ e ∷ []) =
      rw split at (joined-Descending due (insert old ys) (insert-Descending old ys d)) in
    (
      vs,
      e,
      y,
      h,
      th,
      split,
      rw back run,
      record {
        before = chosen.before;
        ready = chosen.ready;
        others = chosen.others;
        was = chosen.was;
        runs = chosen.runs;
        active = chosen.active;
        asleep = chosen.asleep;
      },
      AtLeast-of_Descending vs e ordered,
    )

-- When the running thread neither runs on nor sleeps, because it waits or has ended, `select_thread`
-- puts it in no list; then it moves the sleeping threads whose wake-up time is over, each ready at
-- its own priority, to the table of active threads, the last entry of the table leaves it and its
-- thread runs, and no entry left has a smaller priority number. A thread is ready, the table is in
-- order of priority, the lists are apart, every entry has a thread, the sleeping threads differ, and
-- there are enough rounds and fuel.
pub select_thread-leaves :
    {S : Type 0} (fuel rounds t : ℕ) (k : Kernel S) (x : Thread) (due rest : Waiters) (ys : Entries)
    {n n' : ℕ}
    → k.active_thread ≢ null
    → k.thread k.active_thread ≡ some x
    → is_running x.state ≡ false
    → is_sleeping x.state ≡ false
    → Sleepers k (due ++ rest) ys n n' fuel
    → AllDue t due
    → Early t rest
    → length due < rounds
    → Live k ys
    → 0 < length ys
    → Descending ys
    → (vs : Entries) × (e : Entry) × (y : Thread) × (h : Heap) × (th : Ptr → Option Thread)
      × (joined due ys ≡ vs ++ e ∷ [])
      × (select_thread fuel rounds t k ≡ ok tt (switched k e h th))
      × Chosen k e y due vs rest (switched k e h th)
      × AtLeast e.priority vs
unfolding select_thread requeue load_thread
select_thread-leaves fuel rounds t k x due rest ys ne holds awake restless s all early enough live
      some_ready d =
    let (vs, e, y, h, th, split, run, chosen) =
      choose_lem fuel rounds t k due rest ys s all early enough live some_ready in
    let stays : requeue fuel k ≡ ok tt k = ground arith in
    (
      vs,
      e,
      y,
      h,
      th,
      split,
      rw stays run,
      chosen,
      AtLeast-of_Descending vs e (rw split at (joined-Descending due ys d)),
    )
