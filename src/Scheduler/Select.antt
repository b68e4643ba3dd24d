-- ===== src/Scheduler/Select.antt =====
-- `select_thread` as a whole: which thread runs next.
use mathlib.Core.List.{append-nil}
use awk.Base.{
  ℕ, ◌<◌, ◌≡◌, refl, sym, ◌≢◌, true, false, Option, some, [], ◌∷◌, ◌++◌, arith, Ptr, null, update,
  length, ◌==◌, if◌then◌else◌,
}
use awk.Run
use awk.Run.{ok}
use awk.Err.{no_err}
use awk.KernelList.{Heap, Node, delist_data}
use awk.KernelList.Steps.{Points, load_node_lem}
use awk.KernelList.Chain.{Entry, Entries, IsList, has, has-append, ne_null_of_has}
use awk.KernelList.Delist.{delist-last}
use awk.Kernel.{ThreadState, Thread, Kernel, load_thread, set_thread}
use awk.Blocking.Wake.{Apart, IsList-frame}
use awk.Blocking.Waiters.{Waiters, queue_of, Other, AllReady, joined}
use awk.Scheduler.{is_running, wake_sleepers, take_next}
use awk.Scheduler.Sleepers.{AllDue, Early, put_back, Sleepers, with_threads, wake_sleepers_lem}
use awk.Scheduler.Live.{
  Live, Live-frame, Live-joined, Live-last, AllHeld-init, Awake-Keeps, length-joined, last_split,
}

-- The threads of `es` are ready.
abbrev pub ReadyIn : (Ptr → Option Thread) → Waiters → Type 0
ReadyIn f [] = Unit {0}
ReadyIn f ((e, x) ∷ es) =
    (f e.payload ≡ some (record x { state = ThreadState.ready })) × ReadyIn f es

module _ {S : Type 0} where
  -- The thread `x` runs; its node `m` is not in the lists of the ready threads `ys` and of the sleeping
  -- ones, `es`.
  pub record Runs (k : Kernel S) (x : Thread) (m : Node) (es : Waiters) (ys : Entries)
      : Type 0 where
    pub ne_null : k.active_thread ≢ null
    pub holds : k.thread k.active_thread ≡ some x
    pub running : is_running x.state ≡ true
    pub node : Points k.heap k.active_thread_node m
    pub own : m.payload ≡ k.active_thread
    pub out : has k.active_thread_node ys ≡ false
    pub awake : has k.active_thread_node (queue_of es) ≡ false
    pub other : Other k.active_thread es

  -- The processor has gone to the thread of `e`.
  abbrev pub switched : Kernel S → Entry → Heap → (Ptr → Option Thread) → Kernel S
  switched k e h th = record k {
    heap = h;
    thread = th;
    active_thread = e.payload;
    active_thread_node = e.at;
  }

  ReadyIn-AllReady : (u : Kernel S) (es : Waiters) → AllReady u es → ReadyIn u.thread es
  ReadyIn-AllReady u [] all = tt
  ReadyIn-AllReady u ((e, x) ∷ es) (holds, all) = (holds, ReadyIn-AllReady u es all)

  -- Out of the state `k` the threads of `due` became ready and no other thread changed; then the thread
  -- `x` of the entry `e` became the running one, and again no other changed. The entries `vs` are left in
  -- the table of active threads, and `rest` among the sleeping ones.
  pub record Chosen (k : Kernel S) (e : Entry) (x : Thread) (due : Waiters) (vs : Entries)
      (rest : Waiters) (u : Kernel S) : Type 0 where
    pub before : Ptr → Option Thread
    pub ready : ReadyIn before due
    pub others : (p : Ptr) → Other p due → before p ≡ k.thread p
    pub was : before e.payload ≡ some x
    pub runs :
        (p : Ptr)
        → u.thread p
          ≡ (if p == e.payload then some (record x { state = ThreadState.running }) else before p)
    pub active : (n : ℕ) × IsList u.heap k.active_threads_table vs n
    pub asleep : (n : ℕ) × IsList u.heap k.sleeping_threads_table (put_back rest) n

  take_next_lem :
      (k : Kernel S) (vs : Entries) (e : Entry) (x : Thread) (rest : Waiters) (n : ℕ)
      → IsList k.heap k.active_threads_table (vs ++ e ∷ []) n
      → ((n : ℕ) × IsList k.heap k.sleeping_threads_table (put_back rest) n)
      → k.active_threads_table ≢ k.sleeping_threads_table
      → Apart (put_back rest) (vs ++ e ∷ [])
      → e.payload ≢ null
      → k.thread e.payload ≡ some x
      → (h : Heap) × (take_next k
          ≡ ok tt (
              switched k e h
                (update k.thread e.payload (some (record x { state = ThreadState.running })))))
        × ((n : ℕ) × IsList h k.active_threads_table vs n)
        × ((n : ℕ) × IsList h k.sleeping_threads_table (put_back rest) n)
  unfolding take_next load_thread set_thread
  take_next_lem k vs e x rest n ready (n', asleep) ne apart live holds =
      let (pr, g, run, (at_e, fine, gone)) = Run.outcome (delist-last vs e ready) in
      let run' : delist_data k.active_threads_table k.heap ≡ ok (e.at, no_err) g = cc in
      (
        g,
        ground (arith, run', gone.node.ne_null, load_node_lem gone.node),
        (_, rw append-nil at (gone.list)),
        (
          n',
          IsList-frame k.heap g k.sleeping_threads_table (put_back rest) n' asleep
              (λ q i.
                gone.nodes q (ne_null_of_has k.heap null (put_back rest) null q asleep.chain i)
                  (ground (arith, apart q i, has-append q vs (e ∷ [])))
                  (ground (arith, apart q i, has-append q vs (e ∷ []), has-append q vs [])))
              (gone.lists k.sleeping_threads_table (λ i. ne (sym i))),
        ),
      )

  -- Waking the sleeping threads and taking the next one.
  pub choose_lem :
      (fuel rounds t : ℕ) (k : Kernel S) (due rest : Waiters) (ys : Entries) {n m : ℕ}
      → Sleepers k (due ++ rest) ys n m fuel
      → AllDue t due
      → Early t rest
      → length due < rounds
      → Live k ys
      → 0 < length ys
      → (vs : Entries) × (e : Entry) × (x : Thread) × (h : Heap) × (th : Ptr → Option Thread)
        × (joined due ys ≡ vs ++ e ∷ [])
        × (Run.and_then (wake_sleepers fuel rounds t k) (λ _. take_next)
            ≡ ok tt (switched k e h th))
        × Chosen k e x due vs rest (switched k e h th)
  choose_lem fuel rounds t k due rest ys s all early enough live some_ready =
      let (h, th, woke, awake) = wake_sleepers_lem fuel rounds t k due rest ys s all early enough in
      let l = with_threads k h th in
      let (vs, e, split) =
        last_split (joined due ys) (omega (arith, length-joined due ys, some_ready)) in
      let live' : Live l (joined due ys) =
        Live-frame k l (joined due ys) (Awake-Keeps k l due rest ys awake)
          (Live-joined k due ys (AllHeld-init k due rest s.threads) live) in
      let (ne, (x, holds)) = Live-last l vs e (rw split at live') in
      let (n, active) = awake.active in
      let (h', took, ready, sleep) =
        take_next_lem l vs e x rest n (rw split at active) awake.asleep s.ne
          (rw split at (awake.apart)) ne holds in
      (
        vs,
        e,
        x,
        h',
        update l.thread e.payload (some (record x { state = ThreadState.running })),
        split,
        rw woke took,
        record {
          before = l.thread;
          ready = ReadyIn-AllReady l due awake.ready;
          others = awake.others;
          was = holds;
          runs = λ p. refl;
          active = ready;
          asleep = sleep;
        },
      )
