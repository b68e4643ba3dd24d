-- ===== src/Semaphore/Tests.antt =====
-- The theorems on semaphores at concrete semaphores.
use awk.Base.{◌-◌, ◌^◌, ◌<◌, ◌≡◌, refl, [], ◌∷◌, arith}
use awk.Run.{ok}
use awk.Err.{no_err}
use awk.KernelList.{Heap}
use awk.Kernel.{BlockType, Kernel, object}
use awk.Blocking.Wake.{Moved, readied}
use awk.Semaphore.{Semaphore, sem_pend, sem_destroy, sem_post}
use awk.Blocking.Resume.{nested, Resumed}
use awk.Semaphore.Pend.{sem_pend-takes, sem_pend_takes_one}
use awk.Semaphore.Post.{sem_post-wakes}
use awk.Semaphore.Destroy.{closed, sem_destroy-wakes}
use awk.Blocking.Waiters.{Woken}
use awk.Samples.{
  sleepers, sleepers-Waits, sample_kernel, sample_heap, waiter, oldest_waiter, low, high, sleeper,
  waiting-Wakeable,
}

-- A semaphore with one unit, one without, and one that is not initialised.
abbrev one_unit : Semaphore
one_unit = record { waiting_threads = 30; sem_level = 1; init = 1 }

abbrev no_unit : Semaphore
no_unit = record { waiting_threads = 10; sem_level = 0; init = 1 }

abbrev dead : Semaphore
dead = record { waiting_threads = 0; sem_level = 1; init = 0 }

abbrev kernel : Semaphore → Kernel Semaphore
kernel s = sample_kernel BlockType.sem s

sem_pend_takes_one_example :
    (l : Kernel Semaphore) × Resumed (λ later. sem_pend 3 later object) [] (kernel one_unit) l
    × (l.self.init ≡ 1)
    × (0 < l.self.sem_level)
    × (l.self.sem_level < 2 ^ 31)
    × (kernel (record one_unit { sem_level = 0 }) ≡ record l {
      self = record (l.self) { sem_level = l.self.sem_level - 1 };
      int_lock_nesting = (nested l).int_lock_nesting - 1;
    })
sem_pend_takes_one_example =
    sem_pend_takes_one 3 [] (kernel one_unit) (kernel (record one_unit { sem_level = 0 }))
      (sem_pend-takes (kernel one_unit) 3 [] (omega arith) refl (omega arith, omega arith))

sem_post-wakes_example :
    (g : Heap) × (sem_post 3 object (kernel no_unit)
      ≡ ok no_err (
          readied
            (kernel (record no_unit { sem_level = 1 }))
            oldest_waiter
            (sleeper BlockType.sem)
            g))
    × Moved 10 20 oldest_waiter 6 (waiter ∷ []) (low ∷ high ∷ []) 2 2 sample_heap g
sem_post-wakes_example =
    sem_post-wakes {k = kernel no_unit} (waiting-Wakeable BlockType.sem no_unit refl) (omega arith)
      refl (omega arith)

sem_destroy-wakes_example :
    (t : Kernel Semaphore) × (sem_destroy 5 3 object (kernel no_unit) ≡ ok no_err t)
    × Woken (closed (kernel no_unit)) 10 (sleepers BlockType.sem) (low ∷ high ∷ []) t
sem_destroy-wakes_example =
    sem_destroy-wakes (kernel no_unit) (sleepers BlockType.sem) (low ∷ high ∷ []) 3
      (sleepers-Waits BlockType.sem no_unit refl) (omega arith) refl (omega arith)
