-- ===== src/Mutex/Post.antt =====
-- `mutex_post`: releasing a mutex.
use awk.Base.{List, ℕ, ◌-◌, ◌^◌, ◌<◌, ◌≡◌, [], arith}
use awk.Run.{ok, ◌>>◌}
use awk.Err.{no_err}
use awk.KernelList.{Heap}
use awk.KernelList.Chain.{Entry, Entries, IsList}
use awk.KernelList.Delist.{delist-nil}
use awk.Kernel.{
  BlockType, Thread, Kernel, object, Switch, Switch, spinlock_lock, spinlock_unlock, schedule,
}
use awk.Blocking.{unlock_thread_and_schedule}
use awk.Blocking.Wake.{Wakeable, Moved, readied, wake_last}
use awk.Mutex.{Mutex, mutex_post, mutex_pend}
use awk.Mutex.Pend.{Calls, taken_by, mutex_pend-takes}

-- With no thread waiting the mutex becomes free, and nothing else changes.
mutex_post-frees :
    (k : Kernel Mutex) (fuel : ℕ) (switch : Switch Mutex) {n : ℕ}
    → k.int_lock_nesting < 2 ^ 32 - 1
    → k.self.init ≡ 1
    → IsList k.heap k.self.waiting_threads [] n
    → mutex_post fuel switch object k
      ≡ ok no_err (record k { self = record (k.self) { state = 1 } })
unfolding mutex_post spinlock_lock spinlock_unlock
mutex_post-frees k fuel switch nest init waiting = ground (arith, delist-nil waiting)

-- When threads wait for an initialised mutex and interrupts are enabled, `mutex_post` makes the
-- mutex free, takes the thread that waits longest from the waiting threads, puts it, ready, at its
-- own priority in the table of active threads, and then gives way. The lists are apart and the
-- thread is blocked on a mutex.
pub mutex_post-wakes :
    {k : Kernel Mutex} {xs : Entries} {e : Entry} {x : Thread} {ys : Entries} {n m fuel : ℕ}
    (switch : Switch Mutex)
    → Wakeable k k.self.waiting_threads BlockType.mutex xs e x ys n m fuel
    → k.int_lock_nesting ≡ 0
    → k.self.init ≡ 1
    → (g : Heap) × (mutex_post fuel switch object k
        ≡ ok no_err (switch (readied (record k { self = record (k.self) { state = 1 } }) e x g)))
      × Moved k.self.waiting_threads k.active_threads_table e x.priority xs ys n m k.heap g
unfolding mutex_post spinlock_lock spinlock_unlock unlock_thread_and_schedule schedule
mutex_post-wakes {k} switch w free init =
    let (g1, g2, took, e_ne, woken, moved) = wake_last w in
    let new = record (k.self) { state = 1 } in
    (g2, ground (arith, took, e_ne, woken k.int_lock_nesting new (omega arith)), moved)

-- On an initialised, free mutex that no thread waits for, `mutex_pend` followed by `mutex_post`
-- succeeds and leaves the mutex free; all that differs is that the calling thread's identifier stays
-- in `locker_pid`.
mutex_post-pend :
    (k : Kernel Mutex) {x : Thread} (fuel : ℕ) (switches : List (Switch Mutex))
    (switch : Switch Mutex) {n : ℕ}
    → Calls k x
    → k.int_lock_nesting < 2 ^ 32 - 1
    → k.self.init ≡ 1
    → k.self.state ≡ 1
    → IsList k.heap k.self.waiting_threads [] n
    → (do mutex_pend fuel switches object; mutex_post fuel switch object) k
      ≡ ok no_err (record k { self = record (k.self) { locker_pid = x.pid } })
mutex_post-pend k {x} fuel switches switch c nest init free waiting = ground (
  arith,
  mutex_pend-takes k fuel switches c nest init free,
  mutex_post-frees (taken_by x k) fuel switch nest init waiting,
)
