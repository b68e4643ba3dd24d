-- ===== src/Scheduler/Tests.antt =====
-- The theorems on the choice of the next thread at the sample kernel.
use awk.Base.{ℕ, [], ◌∷◌, ◌++◌, arith, ◌≡◌, refl, true, false, Option, Ptr}
use awk.Run.{ok}
use awk.KernelList.{Heap}
use awk.KernelList.Chain.{Entry, Entries, insert, has, IsList}
use awk.KernelList.Enlist.{entry}
use awk.KernelList.Order.{AtLeast}
use awk.Kernel.{ThreadState, Thread, Kernel}
use awk.Blocking.Waiters.{Waiters, queue_of, joined}
use awk.Scheduler.{select_thread, wake_sleepers, update_priorities}
use awk.Scheduler.Sleepers.{Sleepers, Awake, with_threads, wake_sleepers_lem}
use awk.Scheduler.Aged.{Aged}
use awk.Scheduler.Aging.{table_after, threads_after}
use awk.Scheduler.Age.{update_priorities-Aged}
use awk.Scheduler.Live.{Live}
use awk.Scheduler.Select.{Runs, Chosen, switched}
use awk.Scheduler.Next.{preempted, select_thread-picks}
use awk.ThreadSamples.{
  low, high, later, sooner, running_node, thread_of, late_thread, life_kernel, ready-IsList,
  asleep-IsList, running_node-Points,
}

abbrev runner : Thread
runner = thread_of ThreadState.running

abbrev waiter : Thread
waiter = thread_of ThreadState.blocked_state

abbrev kernel : Kernel ℕ
kernel = life_kernel runner 0

-- The same with a running thread that is about to wait.
abbrev waiting : Kernel ℕ
waiting = life_kernel waiter 0

abbrev due : Waiters
due = (sooner, thread_of ThreadState.sleeping) ∷ []

abbrev rest : Waiters
rest = (later, late_thread) ∷ []

abbrev readies : Entries
readies = low ∷ high ∷ []

apart_lem : (q : Ptr) → has q (queue_of (due ++ rest)) ≡ true → has q readies ≡ false
apart_lem q i = ground arith

Sleepers-of : (x : Thread) → Sleepers {S = ℕ} (life_kernel x 0) (due ++ rest) readies 2 2 9
Sleepers-of x = record {
  asleep = asleep-IsList;
  active = ready-IsList;
  ne = omega arith;
  apart = apart_lem;
  threads = (omega arith, refl, (omega arith, tt), (omega arith, refl, tt, tt));
  room = omega arith;
}

kernel-Runs : Runs kernel runner running_node (due ++ rest) readies
kernel-Runs = record {
  ne_null = omega arith;
  holds = refl;
  running = refl;
  node = running_node-Points;
  own = refl;
  out = refl;
  awake = refl;
  other = (omega arith, (omega arith, tt));
}

wake_sleepers_lem_example :
    (h : Heap) × (th : Ptr → Option Thread) × (wake_sleepers 9 2 500 kernel
      ≡ ok tt (with_threads kernel h th))
    × Awake kernel due rest readies (with_threads kernel h th)
wake_sleepers_lem_example =
    wake_sleepers_lem 9 2 500 kernel due rest readies (Sleepers-of runner) (omega arith, tt)
      (omega arith) (omega arith)

select_thread-picks_example :
    (vs : Entries) × (e : Entry) × (y : Thread) × (h : Heap) × (th : Ptr → Option Thread) × (joined
        due
        (insert (entry 5 running_node 6) readies)
      ≡ vs ++ e ∷ [])
    × (select_thread 9 2 500 kernel ≡ ok tt (switched kernel e h th))
    × Chosen (preempted kernel runner kernel.heap) e y due vs rest (switched kernel e h th)
    × AtLeast e.priority vs
select_thread-picks_example =
    select_thread-picks 9 2 500 kernel runner running_node due rest readies kernel-Runs
      (Sleepers-of runner) (omega arith) (omega arith, tt) (omega arith) (omega arith)
      (
        omega arith,
        (thread_of ThreadState.ready, refl),
        (omega arith, (thread_of ThreadState.ready, refl), tt),
      )
      ((omega arith, tt), (tt, tt))

update_priorities-Aged_example :
    (h : Heap) × (th : Ptr → Option Thread) × (update_priorities 3 true kernel
      ≡ ok tt (with_threads kernel h th))
    × IsList h 20 (table_after kernel true runner readies) 2
    × ((q : Ptr) → th q ≡ threads_after kernel true runner readies q)
    × Aged readies (table_after kernel true runner readies)
    × Live (with_threads kernel h th) (table_after kernel true runner readies)
update_priorities-Aged_example =
    update_priorities-Aged kernel 3 true runner readies 2 ready-IsList
      (
        omega arith,
        (thread_of ThreadState.ready, refl),
        (omega arith, (thread_of ThreadState.ready, refl), tt),
      )
      (refl, (refl, tt)) (omega arith) (omega arith) refl
