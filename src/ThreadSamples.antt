-- ===== src/ThreadSamples.antt =====
-- Test data: a kernel whose running thread, 105, has ended children, sleeping threads and ready ones
-- beside it, and one that waits for it to end.
use awk.Base.{[], ◌∷◌, arith, refl, some, none, Option, Ptr, null, ◌==◌, if◌then◌else◌}
use awk.KernelList.{Node, KernelList, Heap}
use awk.KernelList.Steps.{Points}
use awk.KernelList.Chain.{Entry, IsList}
use awk.Kernel.{ThreadState, BlockType, Thread, Kernel}

-- In the table of active threads.
abbrev pub low : Entry
low = record { at = 3; priority = 7; payload = 103 }

abbrev pub high : Entry
high = record { at = 4; priority = 3; payload = 104 }

-- In the table of sleeping threads.
abbrev pub later : Entry
later = record { at = 1; priority = 900; payload = 101 }

abbrev pub sooner : Entry
sooner = record { at = 2; priority = 100; payload = 102 }

-- The thread 106 has ended: its nodes in the table of ended threads, in that of all threads and in the
-- list of the children of 105; 105 stands in the table of all threads behind it.
abbrev pub ended : Entry
ended = record { at = 6; priority = 0; payload = 106 }

abbrev pub known : Entry
known = record { at = 11; priority = 5; payload = 106 }

abbrev pub known_runner : Entry
known_runner = record { at = 12; priority = 5; payload = 105 }

abbrev pub child : Entry
child = record { at = 16; priority = 0; payload = 106 }

-- The nodes of the running thread and of the one that waits for it.
abbrev pub running_node : Node
running_node = record { next = null; prev = null; priority = 5; enlisted = 0; payload = 105 }

abbrev pub joiner_node : Node
joiner_node = record { next = null; prev = null; priority = 4; enlisted = 0; payload = 107 }

abbrev life_nodes : Ptr → Option Node
life_nodes p =
    if p == 1
    then some (record { next = 2; prev = 0; priority = 900; enlisted = 1; payload = 101 })
    else if p == 2
    then some (record { next = 0; prev = 1; priority = 100; enlisted = 1; payload = 102 })
    else if p == 3
    then some (record { next = 4; prev = 0; priority = 7; enlisted = 1; payload = 103 })
    else if p == 4
    then some (record { next = 0; prev = 3; priority = 3; enlisted = 1; payload = 104 })
    else if p == 5
    then some running_node
    else if p == 6
    then some (record { next = 0; prev = 0; priority = 0; enlisted = 1; payload = 106 })
    else if p == 7
    then some joiner_node
    else if p == 11
    then some (record { next = 12; prev = 0; priority = 5; enlisted = 1; payload = 106 })
    else if p == 12
    then some (record { next = 0; prev = 11; priority = 5; enlisted = 1; payload = 105 })
    else if p == 16
    then some (record { next = 0; prev = 0; priority = 0; enlisted = 1; payload = 106 })
    else none

abbrev life_lists : Ptr → Option KernelList
life_lists p =
    if p == 20
    then some (record { head = 3; tail = 4; size = 2 })
    else if p == 30
    then some (record { head = 1; tail = 2; size = 2 })
    else if p == 50
    then some (record { head = 6; tail = 6; size = 1 })
    else if p == 60
    then some (record { head = 11; tail = 12; size = 2 })
    else if p == 70
    then some (record { head = 16; tail = 16; size = 1 })
    else if p == 80
    then some (record { head = 0; tail = 0; size = 0 })
    else none

abbrev pub life_heap : Heap
life_heap = record { node = life_nodes; list = life_lists; mallocs = 40 ∷ 41 ∷ 42 ∷ 43 ∷ 44 ∷ [] }

abbrev pub thread_of : (state : ThreadState) → Thread
thread_of state = record {
  pid = 5;
  ppid = 1;
  init_prio = 6;
  priority = 6;
  ret_val = 77;
  state = state;
  wakeup_time = 100;
  block_type = BlockType.sem;
  joining_thread = null;
  children = 70;
  last_sched = 0;
}

abbrev pub late_thread : Thread
late_thread = record (thread_of ThreadState.sleeping) { wakeup_time = 900 }

-- The kernel with `x` for its running thread.
abbrev pub life_kernel : {S : Type 0} → Thread → S → Kernel S
life_kernel x s = record {
  heap = life_heap;
  thread = λ p.
      if p == 101
      then some late_thread
      else if p == 102
      then some (thread_of ThreadState.sleeping)
      else if p == 103
      then some (thread_of ThreadState.ready)
      else if p == 104
      then some (thread_of ThreadState.ready)
      else if p == 105
      then some x
      else if p == 106
      then some (thread_of ThreadState.zombie)
      else if p == 107
      then some (thread_of ThreadState.joining)
      else none;
  active_thread = 105;
  active_thread_node = 5;
  idle_thread = 103;
  init_thread = 104;
  active_threads_table = 20;
  zombie_threads_table = 50;
  sleeping_threads_table = 30;
  global_threads_table = 60;
  last_given_pid = 5;
  thread_count = 2;
  int_lock_nesting = 0;
  self = s;
}

pub ready-IsList : IsList life_heap 20 (low ∷ high ∷ []) 2
ready-IsList = record {
  header = record { ne_null = omega arith; holds = refl };
  chain = (
    record { ne_null = omega arith; holds = refl },
    (record { ne_null = omega arith; holds = refl }, tt),
  );
  distinct = (refl, (refl, tt));
}

pub asleep-IsList : IsList life_heap 30 (later ∷ sooner ∷ []) 2
asleep-IsList = record {
  header = record { ne_null = omega arith; holds = refl };
  chain = (
    record { ne_null = omega arith; holds = refl },
    (record { ne_null = omega arith; holds = refl }, tt),
  );
  distinct = (refl, (refl, tt));
}

pub ended-IsList : IsList life_heap 50 (ended ∷ []) 1
ended-IsList = record {
  header = record { ne_null = omega arith; holds = refl };
  chain = (record { ne_null = omega arith; holds = refl }, tt);
  distinct = (refl, tt);
}

pub all-IsList : IsList life_heap 60 (known ∷ known_runner ∷ []) 2
all-IsList = record {
  header = record { ne_null = omega arith; holds = refl };
  chain = (
    record { ne_null = omega arith; holds = refl },
    (record { ne_null = omega arith; holds = refl }, tt),
  );
  distinct = (refl, (refl, tt));
}

pub children-IsList : IsList life_heap 70 (child ∷ []) 1
children-IsList = record {
  header = record { ne_null = omega arith; holds = refl };
  chain = (record { ne_null = omega arith; holds = refl }, tt);
  distinct = (refl, tt);
}

pub childless-IsList : IsList life_heap 80 [] 0
childless-IsList = record {
  header = record { ne_null = omega arith; holds = refl };
  chain = tt;
  distinct = tt;
}

pub running_node-Points : Points life_heap 5 running_node
running_node-Points = record { ne_null = omega arith; holds = refl }

pub joiner_node-Points : Points life_heap 7 joiner_node
joiner_node-Points = record { ne_null = omega arith; holds = refl }
