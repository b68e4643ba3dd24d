-- ===== src/Mutex/Destroy.antt =====
-- `mutex_destroy`: the end of a mutex.
use awk.Base.{ℕ, ◌+◌, ◌-◌, ◌^◌, ◌<◌, ◌≡◌, refl, arith, length, null, none, Ptr}
use awk.Run.{ok}
use awk.Err.{no_err}
use awk.KernelList.Steps.{with_list}
use awk.KernelList.Chain.{Entries, IsList}
use awk.KernelList.Nodes.{delete_nil}
use awk.Kernel.{BlockType, Kernel, object, spinlock_lock, spinlock_unlock}
use awk.Blocking.Waiters.{Waiters, Waits, Waits-still, Other, AllReady, joined, AllReady-frame}
use awk.Blocking.WakeAll.{wake_all_lem}
use awk.Blocking.Wake.{IsList-frame}
use awk.Mutex.{Mutex, mutex_destroy}

-- On an initialised mutex, with more rounds than threads that wait and enough fuel for the table of
-- active threads with all of them, `mutex_destroy` succeeds: every waiting thread is ready and, in
-- the order of waiting, put at its own priority in the table of active threads; the list of waiting
-- threads is deleted, the mutex is not initialised, and the other threads and the interrupts'
-- nesting are as before. The waiting threads are different, blocked on a mutex and not idle, the
-- lists are apart, and the nesting is below its bound.
pub mutex_destroy-wakes :
    (k : Kernel Mutex) (es : Waiters) (ys : Entries) {n m fuel : ℕ} (rounds : ℕ)
    → Waits k k.self.waiting_threads BlockType.mutex es ys n m fuel
    → k.int_lock_nesting < 2 ^ 32 - 2
    → k.self.init ≡ 1
    → length es < rounds
    → (t : Kernel Mutex) × (mutex_destroy fuel rounds object k ≡ ok no_err t)
      × (t.self ≡ record (k.self) { waiting_threads = null; init = 0 })
      × (t.heap.list k.self.waiting_threads ≡ none)
      × ((m : ℕ) × IsList t.heap k.active_threads_table (joined es ys) m)
      × AllReady t es
      × ((p : Ptr) → Other p es → t.thread p ≡ k.thread p)
      × (t.int_lock_nesting ≡ k.int_lock_nesting)
unfolding mutex_destroy spinlock_lock spinlock_unlock
mutex_destroy-wakes k es ys {fuel} rounds w nest init enough =
    let l = k.self.waiting_threads in
    let (t, run, end) =
      wake_all_lem l BlockType.mutex fuel rounds
        (record k { int_lock_nesting = k.int_lock_nesting + 1 }) es ys
        (Waits-still k (k.int_lock_nesting + 1) k.self w) (omega arith) enough in
    let (n, empty) = end.waiting in
    let (m, active) = end.active in
    let u = record t {
      heap = with_list t.heap l none;
      self = record (k.self) { waiting_threads = null; init = 0 };
      int_lock_nesting = t.int_lock_nesting - 1;
    } in
    (
      u,
      ground (arith, run, delete_nil empty, end.self),
      refl,
      ground arith,
      (
        m,
        IsList-frame t.heap u.heap k.active_threads_table (joined es ys) m active (λ q i. refl)
            (ground (arith, w.ne)),
      ),
      AllReady-frame t u es refl end.ready,
      end.others,
      omega (arith, end.nesting),
    )
