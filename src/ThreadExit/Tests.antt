-- ===== src/ThreadExit/Tests.antt =====
-- The theorems on the end of a thread at the sample kernel.
use awk.Base.{ℕ, [], ◌∷◌, arith, ◌≡◌, refl, true, false, Option, Ptr}
use awk.Run.{ok, fault}
use awk.KernelList.{Heap}
use awk.KernelList.Chain.{has}
use awk.Kernel.{ThreadState, Thread, Kernel}
use awk.Scheduler.Sleepers.{with_threads}
use awk.ThreadExit.{thread_exit}
use awk.ThreadExit.Release.{Ends, Released, thread_exit-releases}
use awk.ThreadExit.Orphan.{Leaves, thread_exit_faults}
use awk.Samples.{no_switch}
use awk.ThreadSamples.{
  low, high, ended, child, running_node, joiner_node, thread_of, life_kernel, ready-IsList,
  ended-IsList, children-IsList, childless-IsList, running_node-Points, joiner_node-Points,
}

-- A thread without children that 107 waits for, and one with a child that nobody waits for.
abbrev awaited : Thread
awaited = record (thread_of ThreadState.running) { joining_thread = 7; children = 80 }

abbrev parent : Thread
parent = thread_of ThreadState.running

abbrev joiner : Thread
joiner = thread_of ThreadState.joining

abbrev awaited_kernel : Kernel ℕ
awaited_kernel = life_kernel awaited 0

abbrev parent_kernel : Kernel ℕ
parent_kernel = life_kernel parent 0

not_ready : (q : Ptr) → has q (ended ∷ []) ≡ true → has q (low ∷ high ∷ []) ≡ false
not_ready q i = ground arith

not_ended : (q : Ptr) → has q (child ∷ []) ≡ true → has q (ended ∷ []) ≡ false
not_ended q i = ground arith

awaited-Ends :
    Ends awaited_kernel awaited running_node joiner joiner_node
      (low ∷ high ∷ [])
      (ended ∷ [])
      2
      1
      0
      3
awaited-Ends = record {
  ne_null = omega arith;
  ne_init = omega arith;
  holds = refl;
  node = running_node-Points;
  joiner_node = joiner_node-Points;
  joiner_ne_null = omega arith;
  joiner_other = omega arith;
  joiner = refl;
  joins = refl;
  other_node = omega arith;
  active = ready-IsList;
  ended = ended-IsList;
  no_children = childless-IsList;
  active_ne_ended = omega arith;
  active_ne_children = omega arith;
  ended_ne_children = omega arith;
  out_active = (refl, refl);
  out_ended = (refl, refl);
  apart = not_ready;
  room = (omega arith, omega arith);
}

parent-Leaves :
    Leaves parent_kernel parent running_node
      (thread_of ThreadState.ready)
      (thread_of ThreadState.zombie)
      []
      child
      (ended ∷ [])
      1
      1
      3
parent-Leaves = record {
  ne_null = omega arith;
  ne_init = omega arith;
  holds = refl;
  alone = refl;
  node = running_node-Points;
  ended = ended-IsList;
  out = refl;
  children = children-IsList;
  ended_ne_children = omega arith;
  no_child = refl;
  apart = not_ended;
  room = omega arith;
  init_ne_null = omega arith;
  init = refl;
  child_ne_null = omega arith;
  child_other = (omega arith, omega arith);
  child = refl;
  unwaited = refl;
}

thread_exit-releases_example :
    (h : Heap) × (th : Ptr → Option Thread) × (thread_exit 3 1 no_switch awaited_kernel
      ≡ ok tt (no_switch (with_threads awaited_kernel h th)))
    × Released awaited_kernel awaited running_node joiner joiner_node
        (low ∷ high ∷ [])
        (ended ∷ [])
        2
        1
        (with_threads awaited_kernel h th)
thread_exit-releases_example =
    thread_exit-releases awaited_kernel awaited running_node joiner joiner_node (low ∷ high ∷ [])
      (ended ∷ []) 3 1 no_switch awaited-Ends refl (omega arith)

thread_exit_faults_example : thread_exit 3 1 no_switch parent_kernel ≡ fault
thread_exit_faults_example =
    thread_exit_faults parent_kernel parent running_node (thread_of ThreadState.ready)
      (thread_of ThreadState.zombie) [] child (ended ∷ []) 3 1 no_switch parent-Leaves (omega arith)
