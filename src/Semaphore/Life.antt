-- ===== src/Semaphore/Life.antt =====
-- Creation of a semaphore, and calls with a `NULL` argument or on one that is not initialised.
use awk.Base.{ℕ, ◌-◌, ◌^◌, ◌<◌, ◌≡◌, refl, ◌≢◌, none, some, List, [], ◌∷◌, arith, Ptr, null}
use awk.Run.{ok}
use awk.Err.{no_err, malloc_failed, sem_uninitialized}
use awk.KernelList.Steps.{with_list}
use awk.KernelList.Chain.{IsList}
use awk.KernelList.Nodes.{allocated, create_list-IsList, create_fails}
use awk.Kernel.{BlockType, Kernel, object, Switch, spinlock_lock, spinlock_unlock}
use awk.Blocking.Call.{call-refused}
use awk.Semaphore.{
  Semaphore, sem_init, sem_destroy, sem_pend, sem_post, sem_try_pend, sem_must_wait, sem_is_live,
  sem_refuse, sem_take,
}

-- If the next result of `kmalloc` is not `NULL`, `sem_init` succeeds: the semaphore is initialised
-- with the level asked for, and its list of waiting threads is an empty list at that address.
sem_init-IsList :
    (k : Kernel Semaphore) (init_level : ℕ) {p : Ptr} {ps : List Ptr}
    → k.heap.mallocs ≡ p ∷ ps
    → p ≢ null
    → (t : Kernel Semaphore) × (sem_init object init_level k ≡ ok no_err t)
      × (t.self ≡ record { waiting_threads = p; sem_level = init_level; init = 1 })
      × IsList t.heap p [] 0
unfolding sem_init
sem_init-IsList k init_level {p} {ps} given ne =
    let (run, empty) = create_list-IsList k.heap given ne in
    (
      record k {
        heap =
            with_list (allocated k.heap ps) p
              (some (record { head = null; tail = null; size = 0 }));
        self = record { waiting_threads = p; sem_level = init_level; init = 1 };
      },
      rw run,
      refl,
      empty,
    )

-- With no memory for the list `sem_init` reports that, and the semaphore is not initialised.
sem_init_fails :
    (k : Kernel Semaphore) (init_level : ℕ)
    → k.heap.mallocs ≡ []
    → sem_init object init_level k
      ≡ ok malloc_failed
          (record k { self = record { waiting_threads = null; sem_level = init_level; init = 0 } })
unfolding sem_init
sem_init_fails k init_level none_left = rw (create_fails k.heap null none_left).1

-- On a semaphore that is not initialised, with the interrupts' nesting below its bound, `sem_pend`,
-- `sem_post`, `sem_try_pend` and `sem_destroy` all return OS_ERR_SEM_UNINITIALIZED and leave the
-- kernel as it was.
pub sem_uninitialized_lem :
    (k : Kernel Semaphore) (fuel rounds : ℕ) (switches : List (Switch Semaphore))
    → k.int_lock_nesting < 2 ^ 32 - 1
    → k.self.init ≢ 1
    → (sem_pend fuel switches object k ≡ ok sem_uninitialized k)
      × (sem_post fuel object k ≡ ok sem_uninitialized k)
      × (sem_try_pend object object k ≡ ok (sem_uninitialized, none) k)
      × (sem_destroy fuel rounds object k ≡ ok sem_uninitialized k)
unfolding sem_pend sem_post sem_try_pend sem_destroy spinlock_lock spinlock_unlock
sem_uninitialized_lem k fuel rounds switches nest dead = (
  ground (
    arith,
    call-refused fuel sem_must_wait (λ s. s.waiting_threads) BlockType.sem sem_is_live sem_refuse
        sem_take switches k nest (ground arith),
  ),
  ground arith,
  ground arith,
  ground arith,
)
