-- ===== src/Samples.antt =====
-- Test data: a heap with two lists of two nodes, an empty list and a node in no list, and a kernel
-- around it.
use awk.Base.{
  [], ◌∷◌, arith, ◌≡◌, refl, true, false, some, none, Option, Ptr, null, ◌==◌, if◌then◌else◌,
}
use awk.KernelList.{Node, KernelList, Heap}
use awk.KernelList.Steps.{Points}
use awk.KernelList.Chain.{Entry, has, IsList}
use awk.Kernel.{ThreadState, BlockType, Thread, Kernel, Switch}
use awk.Blocking.{same_type}
use awk.Blocking.Block.{CanBlock}
use awk.Blocking.Waiters.{Waiters, Waits}
use awk.Blocking.Wake.{Wakeable}

-- Two threads wait in the list at 10, two are ready in the list at 20; the list at 30 is empty.
abbrev pub waiter : Entry
waiter = record { at = 1; priority = 0; payload = 101 }

abbrev pub oldest_waiter : Entry
oldest_waiter = record { at = 2; priority = 0; payload = 102 }

abbrev pub low : Entry
low = record { at = 3; priority = 7; payload = 103 }

abbrev pub high : Entry
high = record { at = 4; priority = 3; payload = 104 }

-- The node at 5, of the running thread, is in no list.
abbrev pub free_node : Node
free_node = record { next = null; prev = null; priority = 5; enlisted = 0; payload = 105 }

abbrev sample_nodes : Ptr → Option Node
sample_nodes p =
    if p == 1
    then some (record { next = 2; prev = 0; priority = 0; enlisted = 1; payload = 101 })
    else if p == 2
    then some (record { next = 0; prev = 1; priority = 0; enlisted = 1; payload = 102 })
    else if p == 3
    then some (record { next = 4; prev = 0; priority = 7; enlisted = 1; payload = 103 })
    else if p == 4
    then some (record { next = 0; prev = 3; priority = 3; enlisted = 1; payload = 104 })
    else if p == 5
    then some free_node
    else none

abbrev sample_lists : Ptr → Option KernelList
sample_lists p =
    if p == 10
    then some (record { head = 1; tail = 2; size = 2 })
    else if p == 20
    then some (record { head = 3; tail = 4; size = 2 })
    else if p == 30
    then some (record { head = 0; tail = 0; size = 0 })
    else none

abbrev pub sample_heap : Heap
sample_heap = record { node = sample_nodes; list = sample_lists; mallocs = 40 ∷ 41 ∷ 42 ∷ [] }

waiting-IsList : IsList sample_heap 10 (waiter ∷ oldest_waiter ∷ []) 2
waiting-IsList = record {
  header = record { ne_null = omega arith; holds = refl };
  chain = (
    record { ne_null = omega arith; holds = refl },
    (record { ne_null = omega arith; holds = refl }, tt),
  );
  distinct = (refl, (refl, tt));
}

pub active-IsList : IsList sample_heap 20 (low ∷ high ∷ []) 2
active-IsList = record {
  header = record { ne_null = omega arith; holds = refl };
  chain = (
    record { ne_null = omega arith; holds = refl },
    (record { ne_null = omega arith; holds = refl }, tt),
  );
  distinct = (refl, (refl, tt));
}

pub empty-IsList : IsList sample_heap 30 [] 0
empty-IsList = record {
  header = record { ne_null = omega arith; holds = refl };
  chain = tt;
  distinct = tt;
}

pub free-Points : Points sample_heap 5 free_node
free-Points = record { ne_null = omega arith; holds = refl }

abbrev pub runner : Thread
runner = record {
  pid = 5;
  ppid = 1;
  init_prio = 5;
  priority = 5;
  ret_val = null;
  state = ThreadState.running;
  wakeup_time = 0;
  block_type = BlockType.sem;
  joining_thread = null;
  children = 30;
  last_sched = 0;
}

abbrev pub sleeper : BlockType → Thread
sleeper b = record {
  pid = 2;
  ppid = 1;
  init_prio = 6;
  priority = 6;
  ret_val = null;
  state = ThreadState.blocked_state;
  wakeup_time = 0;
  block_type = b;
  joining_thread = null;
  children = 30;
  last_sched = 0;
}

abbrev pub late_sleeper : BlockType → Thread
late_sleeper b = record (sleeper b) { pid = 1 }

abbrev pub sleepers : BlockType → Waiters
sleepers b = (oldest_waiter, sleeper b) ∷ (waiter, late_sleeper b) ∷ []

-- The thread at 105 runs; those at 101 and 102 are blocked for the reason `b`.
abbrev pub sample_kernel : {S : Type 0} → BlockType → S → Kernel S
sample_kernel b s = record {
  heap = sample_heap;
  thread = λ p.
      if p == 101
      then some (late_sleeper b)
      else if p == 102
      then some (sleeper b)
      else if p == 105
      then some runner
      else none;
  active_thread = 105;
  active_thread_node = 5;
  idle_thread = 103;
  init_thread = 104;
  active_threads_table = 20;
  zombie_threads_table = 50;
  sleeping_threads_table = 30;
  global_threads_table = 60;
  last_given_pid = 5;
  thread_count = 5;
  int_lock_nesting = 0;
  self = s;
}

-- Nothing happens while the thread is away.
abbrev pub no_switch : {S : Type 0} → Switch S
no_switch k = k

module _ {S : Type 0} (b : BlockType) (s : S) where
  pub waiting-CanBlock :
      CanBlock (sample_kernel b s) 10 runner free_node (waiter ∷ oldest_waiter ∷ []) 2 3
  waiting-CanBlock = record {
    ne_idle = omega arith;
    ne_null = omega arith;
    holds = refl;
    node = free-Points;
    waiting = waiting-IsList;
    out = refl;
    room = omega arith;
  }

apart_lem : (q : Ptr) → has q (waiter ∷ oldest_waiter ∷ []) ≡ true → has q (low ∷ high ∷ []) ≡ false
apart_lem q i = ground arith

module _ {S : Type 0} (b : BlockType) (s : S) where
  pub waiting-Wakeable :
      same_type b b ≡ true
      → Wakeable
          (sample_kernel b s)
          10
          b
          (waiter ∷ [])
          oldest_waiter
          (sleeper b)
          (low ∷ high ∷ [])
          2
          2
          3
  waiting-Wakeable same = record {
    waiting = waiting-IsList;
    active = active-IsList;
    ne = omega arith;
    apart = apart_lem;
    thread = record {
      ne_null = omega arith;
      ne_idle = omega arith;
      holds = refl;
      blocked = refl;
      reason = same;
    };
    room = omega arith;
  }

  pub sleepers-Waits :
      same_type b b ≡ true → Waits (sample_kernel b s) 10 b (sleepers b) (low ∷ high ∷ []) 2 2 5
  sleepers-Waits same = record {
    waiting = waiting-IsList;
    active = active-IsList;
    ne = omega arith;
    apart = apart_lem;
    threads = (
      record {
        ne_null = omega arith;
        ne_idle = omega arith;
        holds = refl;
        blocked = refl;
        reason = same;
      },
      (omega arith, tt),
      (
        record {
          ne_null = omega arith;
          ne_idle = omega arith;
          holds = refl;
          blocked = refl;
          reason = same;
        },
        tt,
        tt,
      ),
    );
    room = omega arith;
  }
