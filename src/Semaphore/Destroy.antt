-- ===== src/Semaphore/Destroy.antt =====
-- `sem_destroy`: the end of a semaphore.
use awk.Base.{ℕ, ◌+◌, ◌-◌, ◌^◌, ◌<◌, ◌≡◌, refl, arith, length}
use awk.Run.{ok}
use awk.Err.{no_err}
use awk.KernelList.Chain.{Entries}
use awk.Kernel.{BlockType, Kernel, object, spinlock_lock, spinlock_unlock}
use awk.Blocking.Waiters.{Waiters, Waits, Woken, Waits-still, AllReady-frame}
use awk.Blocking.WakeAll.{wake_all_lem}
use awk.Semaphore.{Semaphore, sem_destroy}

-- The semaphore marked as not initialised.
abbrev pub closed : Kernel Semaphore → Kernel Semaphore
closed k = record k { self = record (k.self) { init = 0 } }

-- On an initialised semaphore, with more rounds than threads that wait and enough fuel for the table
-- of active threads with all of them, `sem_destroy` succeeds: every waiting thread is ready and, in
-- the order of waiting, put at its own priority in the table of active threads; none waits, the
-- semaphore is not initialised, and the other threads and the interrupts' nesting are as before. The
-- waiting threads are different, blocked on a semaphore and not idle, the lists are apart, and the
-- nesting is below its bound.
pub sem_destroy-wakes :
    (k : Kernel Semaphore) (es : Waiters) (ys : Entries) {n m fuel : ℕ} (rounds : ℕ)
    → Waits k k.self.waiting_threads BlockType.sem es ys n m fuel
    → k.int_lock_nesting < 2 ^ 32 - 2
    → k.self.init ≡ 1
    → length es < rounds
    → (t : Kernel Semaphore) × (sem_destroy fuel rounds object k ≡ ok no_err t)
      × Woken (closed k) k.self.waiting_threads es ys t
unfolding sem_destroy spinlock_lock spinlock_unlock
sem_destroy-wakes k es ys {fuel} rounds w nest init enough =
    let new = record (k.self) { init = 0 } in
    let (t, run, end) =
      wake_all_lem k.self.waiting_threads BlockType.sem fuel rounds
        (record k { int_lock_nesting = k.int_lock_nesting + 1; self = new }) es ys
        (Waits-still k (k.int_lock_nesting + 1) new w) (omega arith) enough in
    let u = record t { int_lock_nesting = t.int_lock_nesting - 1 } in
    (
      u,
      ground (arith, run),
      record {
        waiting = end.waiting;
        active = end.active;
        ready = AllReady-frame t u es refl end.ready;
        others = end.others;
        nesting = omega (arith, end.nesting);
        self = end.self;
      },
    )
