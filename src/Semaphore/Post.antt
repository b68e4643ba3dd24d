-- ===== src/Semaphore/Post.antt =====
-- `sem_post`: giving a unit back.
use awk.Base.{List, ℕ, ◌+◌, ◌-◌, ◌^◌, ◌<◌, ◌≡◌, [], arith}
use awk.Run.{ok, ◌>>◌}
use awk.Err.{no_err}
use awk.KernelList.{Heap}
use awk.KernelList.Chain.{Entry, Entries, IsList}
use awk.KernelList.Delist.{delist-nil}
use awk.Kernel.{BlockType, Thread, Kernel, object, Switch, spinlock_lock, spinlock_unlock}
use awk.Blocking.{unlock_thread}
use awk.Blocking.Wake.{Wakeable, Moved, readied, wake_last}
use awk.Semaphore.{Semaphore, sem_post, sem_pend}
use awk.Semaphore.Pend.{sem_pend-takes}

-- With no thread waiting the level grows by one, and nothing else changes.
sem_post-gives :
    (k : Kernel Semaphore) (fuel : ℕ) {n : ℕ}
    → k.int_lock_nesting < 2 ^ 32 - 1
    → k.self.init ≡ 1
    → k.self.sem_level + 1 < 2 ^ 32
    → IsList k.heap k.self.waiting_threads [] n
    → sem_post fuel object k
      ≡ ok no_err (record k { self = record (k.self) { sem_level = k.self.sem_level + 1 } })
unfolding sem_post spinlock_lock spinlock_unlock
sem_post-gives k fuel nest init level waiting = ground (arith, delist-nil waiting)

-- When threads wait for an initialised semaphore whose level becomes positive, `sem_post` adds one
-- to the level, takes the thread that waits longest from the waiting threads and puts it, ready, at
-- its own priority in the table of active threads; nothing else changes. The lists are apart, the
-- thread is blocked on a semaphore, and the interrupts' nesting is below its bound.
pub sem_post-wakes :
    {k : Kernel Semaphore} {xs : Entries} {e : Entry} {x : Thread} {ys : Entries} {n m fuel : ℕ}
    → Wakeable k k.self.waiting_threads BlockType.sem xs e x ys n m fuel
    → k.int_lock_nesting < 2 ^ 32 - 1
    → k.self.init ≡ 1
    → k.self.sem_level + 1 < 2 ^ 31
    → (g : Heap) × (sem_post fuel object k
        ≡ ok no_err (
            readied
              (record k { self = record (k.self) { sem_level = k.self.sem_level + 1 } })
              e
              x
              g))
      × Moved k.self.waiting_threads k.active_threads_table e x.priority xs ys n m k.heap g
unfolding sem_post spinlock_lock spinlock_unlock unlock_thread
sem_post-wakes {k} w nest init level =
    let (g1, g2, took, e_ne, woken, moved) = wake_last w in
    let new = record (k.self) { sem_level = k.self.sem_level + 1 } in
    (g2, ground (arith, took, e_ne, woken k.int_lock_nesting new nest), moved)

-- On an initialised semaphore that no thread waits for and whose level plus one is below 2^31,
-- `sem_post` followed by `sem_pend` succeeds and leaves the kernel exactly as it was, from a level
-- of 0 on.
sem_pend-post :
    (k : Kernel Semaphore) (fuel : ℕ) (switches : List (Switch Semaphore)) {n : ℕ}
    → k.int_lock_nesting < 2 ^ 32 - 1
    → k.self.init ≡ 1
    → k.self.sem_level + 1 < 2 ^ 31
    → IsList k.heap k.self.waiting_threads [] n
    → (do sem_post fuel object; sem_pend fuel switches object) k ≡ ok no_err k
sem_pend-post k fuel switches nest init level waiting = ground (
  arith,
  sem_post-gives k fuel nest init (omega arith) waiting,
  sem_pend-takes (record k { self = record (k.self) { sem_level = k.self.sem_level + 1 } }) fuel
      switches nest init (omega arith, level),
)
