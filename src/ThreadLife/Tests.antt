-- ===== src/ThreadLife/Tests.antt =====
-- The theorems on the creation and the joining of threads at the sample kernel.
use awk.Base.{ℕ, [], ◌∷◌, arith, ◌≡◌, ◌≢◌, refl, true, false, some, none, Option, Ptr, null}
use awk.Run.{ok}
use awk.Err.{no_err, malloc_failed}
use awk.KernelList.{Heap}
use awk.KernelList.Chain.{Entries, has}
use awk.Kernel.{ThreadState, Thread, Kernel}
use awk.ThreadLife.{create_thread, wait_thread}
use awk.ThreadLife.Create.{Places}
use awk.ThreadLife.Fail.{Same, create_thread-undone}
use awk.ThreadLife.Join.{Lists, Cleaned, wait_thread-joins}
use awk.Samples.{no_switch}
use awk.ThreadSamples.{
  low, high, ended, known, known_runner, child, thread_of, life_kernel, life_heap, ended-IsList,
  all-IsList, children-IsList,
}

abbrev parent : Thread
parent = thread_of ThreadState.running

abbrev kernel : Kernel ℕ
kernel = life_kernel parent 0

-- The same with other results of `kmalloc`.
abbrev left : Kernel ℕ
left = record kernel { heap = record life_heap { mallocs = 40 ∷ 41 ∷ 42 ∷ 43 ∷ [] } }

abbrev short : Kernel ℕ
short = record kernel { heap = record life_heap { mallocs = null ∷ 41 ∷ [] } }

abbrev places : Places
places = record { thread = 40; node = 41; children = 42; second = 43; child = 44 }

abbrev readies : Entries
readies = low ∷ high ∷ []

abbrev alls : Entries
alls = known ∷ known_runner ∷ []

abbrev children : Entries
children = child ∷ []

abbrev zombies : Entries
zombies = ended ∷ []

child_known : (q : Ptr) → has q children ≡ true → has q alls ≡ false
child_known q i = ground arith

known_child : (q : Ptr) → has q alls ≡ true → has q children ≡ false
known_child q i = ground arith

child_ended : (q : Ptr) → has q children ≡ true → has q zombies ≡ false
child_ended q i = ground arith

ended_child : (q : Ptr) → has q zombies ≡ true → has q children ≡ false
ended_child q i = ground arith

ended_known : (q : Ptr) → has q zombies ≡ true → has q alls ≡ false
ended_known q i = ground arith

known_ended : (q : Ptr) → has q alls ≡ true → has q zombies ≡ false
known_ended q i = ground arith

kernel-Lists : Lists kernel parent children zombies alls 1 1 2 3
kernel-Lists = record {
  ne_null = omega arith;
  holds = refl;
  children = children-IsList;
  ended = ended-IsList;
  all = all-IsList;
  children_ne_ended = omega arith;
  children_ne_all = omega arith;
  ended_ne_all = omega arith;
  children_apart = (child_ended, child_known);
  ended_apart = (ended_child, ended_known);
  all_apart = (known_child, known_ended);
  room = (omega arith, omega arith, omega arith);
}

create_thread-undone_example :
    (h : Heap) × (th : Ptr → Option Thread) × (pid : ℕ) × (create_thread 4 9 left
      ≡ ok (malloc_failed, null) (record left { heap = h; thread = th; last_given_pid = pid }))
    × Same left h th
create_thread-undone_example =
    create_thread-undone left parent (40 ∷ 41 ∷ 42 ∷ 43 ∷ []) 4 9 refl (omega arith)
      (
        omega arith,
        refl,
        refl,
        refl,
        (omega arith, (omega arith, (omega arith, tt))),
        (
          omega arith,
          refl,
          refl,
          refl,
          (omega arith, (omega arith, tt)),
          (
            omega arith,
            refl,
            refl,
            refl,
            (omega arith, tt),
            (omega arith, refl, refl, refl, tt, tt),
          ),
        ),
      )
      (omega arith) refl (omega arith) (omega arith)

wait_thread-joins_example :
    (h : Heap) × (th : Ptr → Option Thread) × (wait_thread 3 no_switch 106 kernel
      ≡ ok (no_err, some 77) (record kernel { heap = h; thread = th; thread_count = 1 }))
    × (th 106 ≡ none)
    × ((q : Ptr) → q ≢ 106 → th q ≡ kernel.thread q)
    × Cleaned kernel 106 parent children zombies alls 1 1 2 h
wait_thread-joins_example =
    wait_thread-joins kernel 106 parent (thread_of ThreadState.zombie) children zombies alls 3
      no_switch kernel-Lists (omega arith) (omega arith) refl refl (omega arith)
