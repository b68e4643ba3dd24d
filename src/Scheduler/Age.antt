-- ===== src/Scheduler/Age.antt =====
-- The dynamic priorities of `schedule_int`: what the loop over the table of active threads leaves.
use awk.Base.{
  ℕ, zero, suc, ◌<◌, ◌≡◌, ◌≢◌, refl, sym, ◌∙◌, true, false, ◌||◌, Option, some, Bool, [], ◌∷◌,
  arith, if◌then◌else◌, Ptr, null, update, length, ◌==◌, Bool-cases, inl, inr,
}
use awk.Run.{ok}
use awk.KernelList.{Heap}
use awk.KernelList.Steps.{Points, load_node_lem, load_list_lem}
use awk.KernelList.Chain.{
  Entries, first, last, has, Linked, Linked-frame, Distinct, node_of, IsList,
}
use awk.Kernel.{Thread, Kernel, load_thread, set_thread}
use awk.Scheduler.{age, update_priorities}
use awk.Scheduler.Round.{Keeps-update, age_one_lem}
use awk.Scheduler.Sleepers.{with_threads}
use awk.Scheduler.Live.{Live, Keeps, Live-frame}
use awk.Scheduler.Aging.{
  ages, OneEach, aged_entries, aged_threads, aged_entries-first, older_if-false, counted_anew,
  table_after, threads_after, aged_threads-first,
}
use awk.Scheduler.Aged.{Aged, Aged-self, first-Aged, last-Aged, Distinct-Aged}

module _ {S : Type 0} where
  -- The rest of the loop, from the first of `xs` on.
  record Rounds (fuel : ℕ) (k : Kernel S) (b : Ptr) (xs ys : Entries) (h : Heap)
      (th : Ptr → Option Thread) : Type 0 where
    run : age fuel (first xs null) k ≡ ok tt (with_threads k h th)
    chain : Linked h b ys null
    aged : Aged xs ys
    nodes : (q : Ptr) → has q xs ≡ false → h.node q ≡ k.heap.node q
    lists : (q : Ptr) → h.list q ≡ k.heap.list q
    keeps : Keeps k (with_threads k h th)
    entries : ys ≡ aged_entries k k.thread xs
    threads : (q : Ptr) → th q ≡ aged_threads k xs k.thread q

  age_lem :
      (fuel : ℕ) (k : Kernel S) (b : Ptr) (xs : Entries)
      → Linked k.heap b xs null
      → Distinct xs
      → Live k xs
      → length xs < fuel
      → OneEach xs
      → (ys : Entries) × (h : Heap) × (th : Ptr → Option Thread) × Rounds fuel k b xs ys h th
  unfolding age
  age_lem zero k b xs chain distinct live enough once = absurd (omega arith)
  age_lem (suc fuel) k b [] chain distinct live enough once = (
    [],
    k.heap,
    k.thread,
    record {
      run = refl;
      chain = tt;
      aged = tt;
      nodes = λ q out. refl;
      lists = λ q. refl;
      keeps = λ q t holds. (t, holds);
      entries = refl;
      threads = λ q. sym (older_if-false (k.thread q));
    },
  )
  age_lem (suc fuel) k b (x ∷ xs) chain distinct live enough once =
      let (t, holds) = live.1 in
      let (h1, th1, p, r) = age_one_lem k b (first xs null) x t chain.0 live.0 holds in
      let l = with_threads k h1 th1 in
      let chain1 : Linked h1 x.at xs null =
        Linked-frame k.heap h1 x.at xs null chain.1
          (λ q i. r.nodes q (λ e. absurd (ground (arith, distinct.0, e, i)))) in
      let (ys, h, th, rest) =
        age_lem fuel l x.at xs chain1 distinct.1 (Live-frame k l xs r.keeps live.2)
          (omega (arith, enough)) once.1 in
      let same : first xs null ≡ first ys null = first-Aged xs ys null rest.aged in
      let node : Points h x.at (node_of b (record x { priority = p }) (first xs null)) = record {
        ne_null = r.node.ne_null;
        holds = rest.nodes x.at distinct.0 ∙ r.node.holds;
      } in
      (
        record x { priority = p } ∷ ys,
        h,
        th,
        record {
          run = ground (arith, load_node_lem (chain.0), chain.0.ne_null, r.run, rest.run);
          chain = (rw same at node, rest.chain);
          aged = (refl, refl, rest.aged);
          nodes =
              λ q out. rest.nodes q (ground (arith, out)) ∙ r.nodes q (λ e. ground (arith, e, out));
          lists = λ q. rest.lists q ∙ r.lists q;
          keeps = λ q t holds. let (t', holds') = r.keeps q t holds in rest.keeps q t' holds';
          entries =
              rw (r.prio, rest.entries, aged_entries-first k k.thread th1 x xs once.0 r.threads)
                refl;
          threads =
              λ q. rest.threads q ∙ aged_threads-first k k.thread th1 x xs q once.0 (r.threads q);
        },
      )

  Live-Aged : (k : Kernel S) (xs ys : Entries) → Aged xs ys → Live k xs → Live k ys
  Live-Aged k [] [] aged live = tt
  Live-Aged k [] (y ∷ ys) aged live = absurd aged
  Live-Aged k (x ∷ xs) [] aged live = absurd aged
  Live-Aged k (x ∷ xs) (y ∷ ys) aged live =
      (rw (aged.1) (live.0), rw (aged.1) (live.1), Live-Aged k xs ys aged.2 live.2)

  -- The loop, and the write to the running thread behind it.
  record Updates (fuel : ℕ) (k : Kernel S) (xs ys : Entries) (n : ℕ) (h : Heap)
      (th th' : Ptr → Option Thread) : Type 0 where
    run : age fuel (first xs null) k ≡ ok tt (with_threads k h th)
    reset :
        set_thread k.active_thread (λ t. record t { last_sched = 0 }) (with_threads k h th)
        ≡ ok tt (with_threads k h th')
    list : IsList h k.active_threads_table ys n
    aged : Aged xs ys
    live : Live (with_threads k h th') ys
    entries : ys ≡ aged_entries k k.thread xs
    threads :
        (q : Ptr)
        → th' q ≡ (
            if q == k.active_thread
            then counted_anew (aged_threads k xs k.thread q)
            else aged_threads k xs k.thread q)

  updates_lem :
      (k : Kernel S) (fuel : ℕ) (x : Thread) (xs : Entries) (n : ℕ)
      → IsList k.heap k.active_threads_table xs n
      → Live k xs
      → length xs < fuel
      → k.active_thread ≢ null
      → k.thread k.active_thread ≡ some x
      → OneEach xs
      → (ys : Entries) × (h : Heap) × (th th' : Ptr → Option Thread) × Updates fuel k xs ys n h th
          th'
  unfolding load_thread set_thread
  updates_lem k fuel x xs n is live enough ne holds once =
      let (ys, h, th, r) = age_lem fuel k null xs is.chain is.distinct live enough once in
      let (t, runs) = r.keeps k.active_thread x holds in
      let t' = record t { last_sched = 0 } in
      let u = with_threads k h th in
      let th' = update th k.active_thread (some t') in
      let ends : (first xs null ≡ first ys null) × (last null xs ≡ last null ys) =
        (first-Aged xs ys null r.aged, last-Aged null xs ys r.aged) in
      (
        ys,
        h,
        th,
        th',
        record {
          run = r.run;
          reset = ground (arith, ne, runs);
          list = record {
            header = record {
              ne_null = is.header.ne_null;
              holds =
                  rw (sym ends.0, sym ends.1) (r.lists k.active_threads_table ∙ is.header.holds);
            };
            chain = r.chain;
            distinct = Distinct-Aged xs ys r.aged is.distinct;
          };
          aged = r.aged;
          live =
              Live-frame u (with_threads k h th') ys (Keeps-update u k.active_thread t' h)
                (Live-Aged u xs ys r.aged (Live-frame k u xs r.keeps live));
          entries = r.entries;
          threads = λ q. elim (Bool-cases (q == k.active_thread)) [
            | inl e ↦
                let same : q ≡ k.active_thread = ground arith in
                let here : aged_threads k xs k.thread q ≡ some t =
                  sym (r.threads q) ∙ rw same runs in
                rw (e, here) refl
            | inr e ↦ rw e (r.threads q)
          ];
        },
      )

  -- With more fuel than the table of active threads has entries, the part of `schedule_int` that
  -- changes priorities ends. It does nothing while the idle thread or the first one runs. Otherwise
  -- the running thread gets its first priority back if its time slice is used up, and its count of
  -- the rounds that it was passed over is 0. Each thread in the table but the idle thread, the first
  -- one and the running one is counted once more or, in the 25th round, counted anew, with a
  -- priority number lower by one in the thread and in its node unless the thread's is 0. No other
  -- thread changes, and the table keeps its order. The table's entries have threads, none has two,
  -- and the running thread exists.
  pub update_priorities-Aged :
      (k : Kernel S) (fuel : ℕ) (time_slice : Bool) (x : Thread) (xs : Entries) (n : ℕ)
      → IsList k.heap k.active_threads_table xs n
      → Live k xs
      → OneEach xs
      → length xs < fuel
      → k.active_thread ≢ null
      → k.thread k.active_thread ≡ some x
      → (h : Heap) × (th : Ptr → Option Thread) × (update_priorities fuel time_slice k
          ≡ ok tt (with_threads k h th))
        × IsList h k.active_threads_table (table_after k time_slice x xs) n
        × ((q : Ptr) → th q ≡ threads_after k time_slice x xs q)
        × Aged xs (table_after k time_slice x xs)
        × Live (with_threads k h th) (table_after k time_slice x xs)
  unfolding update_priorities load_thread set_thread
  update_priorities-Aged k fuel false x xs n is live once enough ne holds =
      elim (Bool-cases ((k.active_thread == k.idle_thread) || (k.active_thread == k.init_thread))) [
        | inl apart ↦
            let off : ages k k.active_thread ≡ false = rw apart refl in
            (
              k.heap,
              k.thread,
              ground (arith, apart),
              rw off is,
              (λ q. rw off refl),
              rw off (Aged-self xs),
              rw off live,
            )
        | inr mine ↦
            let on : ages k k.active_thread ≡ true = rw mine refl in
            let (ys, h, th, th', r) = updates_lem k fuel x xs n is live enough ne holds once in
            (
              h,
              th',
              ground (arith, mine, ne, holds, load_list_lem is.header, r.run, r.reset),
              rw on (rw r.entries at r.list),
              (λ q. rw on (r.threads q)),
              rw on (rw r.entries at r.aged),
              rw on (rw r.entries at r.live),
            )
      ]
  update_priorities-Aged k fuel true x xs n is live once enough ne holds =
      elim (Bool-cases ((k.active_thread == k.idle_thread) || (k.active_thread == k.init_thread))) [
        | inl apart ↦
            let off : ages k k.active_thread ≡ false = rw apart refl in
            (
              k.heap,
              k.thread,
              ground (arith, apart),
              rw off is,
              (λ q. rw off refl),
              rw off (Aged-self xs),
              rw off live,
            )
        | inr mine ↦
            let on : ages k k.active_thread ≡ true = rw mine refl in
            let x1 = record x { priority = x.init_prio } in
            let k1 = with_threads k k.heap (update k.thread k.active_thread (some x1)) in
            let live1 = Live-frame k k1 xs (Keeps-update k k.active_thread x1 k.heap) live in
            let (ys, h, th, th', r) =
              updates_lem k1 fuel x1 xs n is live1 enough ne (ground arith) once in
            (
              h,
              th',
              ground (arith, mine, ne, holds, load_list_lem is.header, r.run, r.reset),
              rw on (rw r.entries at r.list),
              (λ q. rw on (r.threads q)),
              rw on (rw r.entries at r.aged),
              rw on (rw r.entries at r.live),
            )
      ]
