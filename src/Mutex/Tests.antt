-- ===== src/Mutex/Tests.antt =====
-- The theorems on mutexes at concrete mutexes.
use awk.Base.{ℕ, null, none, Ptr, ◌-◌, ◌≡◌, ◌⊎◌, refl, true, some, [], ◌∷◌, arith}
use awk.Run.{ok}
use awk.Err.{no_err}
use awk.KernelList.{Heap}
use awk.KernelList.Chain.{IsList}
use awk.Kernel.{BlockType, Kernel, Thread, object}
use awk.Blocking.Wake.{Moved, readied}
use awk.Mutex.{Mutex, is_recursive, mutex_pend, mutex_post, mutex_destroy}
use awk.Blocking.Resume.{nested, Resumed}
use awk.Mutex.Pend.{Calls, taken_by, mutex_pend-takes, mutex_pend_exclusive}
use awk.Mutex.Post.{mutex_post-wakes}
use awk.Mutex.Destroy.{mutex_destroy-wakes}
use awk.Blocking.Waiters.{joined, AllReady, Other}
use awk.Samples.{
  sleepers, sleepers-Waits, sample_kernel, sample_heap, waiter, oldest_waiter, low, high, runner,
  sleeper, no_switch, waiting-Wakeable,
}

-- A free mutex, and one that another thread holds.
abbrev free : Mutex
free = record { waiting_threads = 30; state = 1; flags = 0; locker_pid = 0; init = 1 }

abbrev held : Mutex
held = record { waiting_threads = 10; state = 0; flags = 0; locker_pid = 9; init = 1 }

abbrev kernel : Mutex → Kernel Mutex
kernel m = sample_kernel BlockType.mutex m

runner-Calls : (m : Mutex) → Calls (kernel m) runner
runner-Calls m = record { ne_null = omega arith; holds = refl }

mutex_pend_exclusive_example :
    (l : Kernel Mutex) × (x : Thread) × Resumed
      (λ later. mutex_pend 3 later object)
      []
      (kernel free)
      l
    × (l.self.init ≡ 1)
    × (l.thread l.active_thread ≡ some x)
    × ((l.self.state ≡ 1) ⊎ ((is_recursive l.self ≡ true) × (l.self.locker_pid ≡ x.pid)))
    × (taken_by runner (kernel free)
        ≡ record (taken_by x l) { int_lock_nesting = (nested l).int_lock_nesting - 1 })
mutex_pend_exclusive_example =
    mutex_pend_exclusive 3 [] (kernel free) (taken_by runner (kernel free))
      (mutex_pend-takes (kernel free) 3 [] (runner-Calls free) (omega arith) refl refl)

mutex_post-wakes_example :
    (g : Heap) × (mutex_post 3 no_switch object (kernel held)
      ≡ ok no_err
          (readied (kernel (record held { state = 1 })) oldest_waiter (sleeper BlockType.mutex) g))
    × Moved 10 20 oldest_waiter 6 (waiter ∷ []) (low ∷ high ∷ []) 2 2 sample_heap g
mutex_post-wakes_example =
    mutex_post-wakes {k = kernel held} no_switch (waiting-Wakeable BlockType.mutex held refl) refl
      refl

mutex_destroy-wakes_example :
    (t : Kernel Mutex) × (mutex_destroy 5 3 object (kernel held) ≡ ok no_err t)
    × (t.self ≡ record held { waiting_threads = null; init = 0 })
    × (t.heap.list 10 ≡ none)
    × ((m : ℕ) × IsList t.heap 20 (joined (sleepers BlockType.mutex) (low ∷ high ∷ [])) m)
    × AllReady t (sleepers BlockType.mutex)
    × ((p : Ptr) → Other p (sleepers BlockType.mutex) → t.thread p ≡ (kernel held).thread p)
    × (t.int_lock_nesting ≡ 0)
mutex_destroy-wakes_example =
    mutex_destroy-wakes (kernel held) (sleepers BlockType.mutex) (low ∷ high ∷ []) 3
      (sleepers-Waits BlockType.mutex held refl) (omega arith) refl (omega arith)
