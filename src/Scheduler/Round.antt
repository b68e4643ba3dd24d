-- ===== src/Scheduler/Round.antt =====
-- One round of the loop over the table of active threads in `schedule_int`.
use awk.Base.{
  ℕ, ◌+◌, ◌-◌, ◌%◌, ◌^◌, ◌≡◌, ◌≢◌, refl, true, false, ◌&&◌, ◌||◌, Option, some, arith, Ptr, null,
  update, ltb, ◌==◌, Bool-cases, inl, inr,
}
use awk.Run.{ok}
use awk.KernelList.{Heap}
use awk.KernelList.Steps.{Points, with_node, load_node_lem, set_node_lem}
use awk.KernelList.Chain.{Entry, node_of}
use awk.Kernel.{Thread, Kernel, load_thread, set_thread}
use awk.Scheduler.{age_one}
use awk.Scheduler.Sleepers.{with_threads}
use awk.Scheduler.Live.{Keeps}
use awk.Scheduler.Aging.{older_if, priority_if, ages, apart_thread, aged_thread}

module _ {S : Type 0} where
  pub Keeps-update :
      (k : Kernel S) (p : Ptr) (x : Thread) (h : Heap)
      → Keeps k (with_threads k h (update k.thread p (some x)))
  Keeps-update k p x h q t holds = elim (Bool-cases (q == p)) [
    | inl e ↦ (x, rw e refl)
    | inr ne ↦ (t, rw ne holds)
  ]

  -- One round, at the node of `x`.
  pub record Round (k : Kernel S) (b a : Ptr) (x : Entry) (h : Heap) (th : Ptr → Option Thread)
      (p : ℕ) : Type 0 where
    pub run : age_one x.at k ≡ ok tt (with_threads k h th)
    pub node : Points h x.at (node_of b (record x { priority = p }) a)
    pub nodes : (q : Ptr) → q ≢ x.at → h.node q ≡ k.heap.node q
    pub lists : (q : Ptr) → h.list q ≡ k.heap.list q
    pub keeps : Keeps k (with_threads k h th)
    pub prio : p ≡ priority_if (ages k x.payload) (k.thread x.payload) x.priority
    pub threads : (q : Ptr) → th q ≡ older_if ((q == x.payload) && ages k q) (k.thread q)

  pub age_one_lem :
      (k : Kernel S) (b a : Ptr) (x : Entry) (t : Thread)
      → Points k.heap x.at (node_of b x a)
      → x.payload ≢ null
      → k.thread x.payload ≡ some t
      → (h : Heap) × (th : Ptr → Option Thread) × (p : ℕ) × Round k b a x h th p
  unfolding age_one load_thread set_thread
  age_one_lem k b a x t node ne holds =
      elim (Bool-cases ((x.payload == k.idle_thread) || (x.payload == k.init_thread))) [
        | inl apart ↦
            let not_mine : ages k x.payload ≡ false = rw apart refl in
            (
              k.heap,
              k.thread,
              x.priority,
              record {
                run = ground (arith, load_node_lem node, apart);
                node = node;
                nodes = λ q ne. refl;
                lists = λ q. refl;
                keeps = λ q t holds. (t, holds);
                prio = rw (holds, not_mine) refl;
                threads = λ q. apart_thread k k.thread x.payload q not_mine;
              },
            )
        | inr mine ↦
            let in_turn : ages k x.payload ≡ true = rw mine refl in
            elim (Bool-cases (ltb ((t.last_sched + 1) % 2 ^ 32) 25)) [
              | inl early ↦
                  let t' = record t { last_sched = (t.last_sched + 1) % 2 ^ 32 } in
                  (
                    k.heap,
                    update k.thread x.payload (some t'),
                    x.priority,
                    record {
                      run = ground (arith, load_node_lem node, mine, ne, holds, early);
                      node = node;
                      nodes = λ q ne. refl;
                      lists = λ q. refl;
                      keeps = Keeps-update k x.payload t' k.heap;
                      prio = rw (holds, in_turn, early) refl;
                      threads = λ q.
                          aged_thread k k.thread x.payload q t t' in_turn holds (rw early refl);
                    },
                  )
              | inr late ↦ elim (Bool-cases (ltb 0 t.priority)) [
                | inl some_left ↦
                    let t' = record t { priority = t.priority - 1; last_sched = 0 } in
                    let p = (x.priority + 2 ^ 16 - 1) % 2 ^ 16 in
                    let h =
                      with_node k.heap x.at (some (node_of b (record x { priority = p }) a)) in
                    (
                      h,
                      update k.thread x.payload (some t'),
                      p,
                      record {
                        run = ground (
                          arith,
                          load_node_lem node,
                          mine,
                          ne,
                          holds,
                          late,
                          some_left,
                          set_node_lem node
                              (λ m. record m { priority = (m.priority + 2 ^ 16 - 1) % 2 ^ 16 }),
                        );
                        node = ground (arith, node.ne_null);
                        nodes = λ q ne. ground (arith, ne);
                        lists = λ q. refl;
                        keeps = Keeps-update k x.payload t' h;
                        prio = rw (holds, in_turn, late, some_left) refl;
                        threads = λ q.
                            aged_thread k k.thread x.payload q t t' in_turn holds
                              (rw (late, some_left) refl);
                      },
                    )
                | inr none_left ↦
                    let t' = record t { last_sched = 0 } in
                    (
                      k.heap,
                      update k.thread x.payload (some t'),
                      x.priority,
                      record {
                        run = ground (arith, load_node_lem node, mine, ne, holds, late, none_left);
                        node = node;
                        nodes = λ q ne. refl;
                        lists = λ q. refl;
                        keeps = Keeps-update k x.payload t' k.heap;
                        prio = rw (holds, in_turn, late, none_left) refl;
                        threads = λ q.
                            aged_thread k k.thread x.payload q t t' in_turn holds
                              (rw (late, none_left) refl);
                      },
                    )
              ]
            ]
      ]
