-- ===== src/Semaphore/Pend.antt =====
-- `sem_pend` and `sem_try_pend`: taking a unit of a semaphore.
use awk.Base.{ℕ, ◌-◌, ◌%◌, ◌^◌, ◌<◌, ◌≤◌, ◌≡◌, ◌⊎◌, inl, inr, Bool, some, List, [], ◌∷◌, arith}
use awk.Run.{ok, blocked}
use awk.Err.{no_err, sem_locked}
use awk.KernelList.{Node, Heap}
use awk.KernelList.Chain.{Entries, insert}
use awk.KernelList.Enlist.{entry, Enlisted}
use awk.Kernel.{BlockType, Thread, Kernel, object, Switch, spinlock_lock, spinlock_unlock}
use awk.Blocking.Block.{CanBlock, put_to_wait}
use awk.Blocking.Call.{call-goes_on, call-waits}
use awk.Blocking.Resume.{nested, Resumed, call-Resumed}
use awk.Semaphore.{
  Semaphore, sem_is_live, sem_refuse, sem_take, sem_pend, sem_try_pend, sem_must_wait,
}

-- A level between 1 and 2^31 - 1.
abbrev pub Positive : ℕ → Type 0
Positive level = (0 < level) × (level < 2 ^ 31)

-- A level of 0 or less.
abbrev pub NotPositive : ℕ → Type 0
NotPositive level = (level ≡ 0) ⊎ (2 ^ 31 ≤ level)

-- A semaphore with a unit left gives it at once: no thread is blocked, nothing else changes, and the
-- interrupts are as disabled as before.
pub sem_pend-takes :
    (k : Kernel Semaphore) (fuel : ℕ) (switches : List (Switch Semaphore))
    → k.int_lock_nesting < 2 ^ 32 - 1
    → k.self.init ≡ 1
    → Positive k.self.sem_level
    → sem_pend fuel switches object k
      ≡ ok no_err (record k { self = record (k.self) { sem_level = k.self.sem_level - 1 } })
unfolding sem_pend spinlock_unlock
sem_pend-takes k fuel switches nest init level = ground (
  arith,
  call-goes_on fuel sem_must_wait (λ s. s.waiting_threads) BlockType.sem sem_is_live sem_refuse
      sem_take switches k nest (ground arith) (ground arith),
)

-- With interrupts enabled and a level of 0 or less, `sem_pend` of a thread that may be blocked marks
-- it as blocked on a semaphore and joins its node to the waiting threads. Not resumed, it does not
-- return; resumed, it does what a new call would do in the state it is resumed in.
sem_pend-waits :
    {k : Kernel Semaphore} {x : Thread} {m : Node} {xs : Entries} {n fuel : ℕ}
    → CanBlock k k.self.waiting_threads x m xs n fuel
    → k.int_lock_nesting ≡ 0
    → k.self.init ≡ 1
    → NotPositive k.self.sem_level
    → (g : Heap) × Enlisted k.self.waiting_threads
        (entry k.active_thread_node m 0)
        xs
        (insert (entry k.active_thread_node m 0) xs)
        n
        k.heap
        g
      × (sem_pend fuel [] object k ≡ blocked (put_to_wait k BlockType.sem x g))
      × ((switch : Switch Semaphore) (switches : List (Switch Semaphore))
          → sem_pend fuel (switch ∷ switches) object k
            ≡ sem_pend fuel switches object (switch (put_to_wait k BlockType.sem x g)))
unfolding sem_pend
sem_pend-waits {fuel} c free init level =
    call-waits fuel sem_must_wait (λ s. s.waiting_threads) BlockType.sem sem_is_live sem_refuse
      sem_take (λ k dead. ground arith) c free (ground arith) (ground arith)

sem_must_wait-reads : (k l : Kernel Semaphore) (w : Bool) → sem_must_wait k ≡ ok w l → l ≡ k
sem_must_wait-reads k l w e = cc

-- Whatever the other threads do while the caller waits, a call of `sem_pend` that succeeds has come
-- to a state `l`: the one it was made in, or, if it blocked the calling thread, the one that it was
-- resumed in at last. There the semaphore is initialised and its level positive, and the call ends
-- in `l` with the level one less, and with the interrupts' nesting of `l`, or one less if that is at
-- its bound.
pub sem_pend_takes_one :
    (fuel : ℕ) (switches : List (Switch Semaphore)) (k t : Kernel Semaphore)
    → sem_pend fuel switches object k ≡ ok no_err t
    → (l : Kernel Semaphore) × Resumed (λ later. sem_pend fuel later object) switches k l
      × (l.self.init ≡ 1)
      × (0 < l.self.sem_level)
      × (l.self.sem_level < 2 ^ 31)
      × (t ≡ record l {
        self = record (l.self) { sem_level = l.self.sem_level - 1 };
        int_lock_nesting = (nested l).int_lock_nesting - 1;
      })
unfolding sem_pend spinlock_unlock
sem_pend_takes_one fuel switches k t e =
    let (l, from, cases) =
      call-Resumed fuel sem_must_wait (λ s. s.waiting_threads) BlockType.sem sem_is_live sem_refuse
        sem_take (λ k dead. ground arith) sem_must_wait-reads switches k t no_err e in
    elim cases [
      | inl refused ↦ absurd (ground (arith, refused))
      | inr (alive, free, taken) ↦ (l, from, ground arith, ground arith, ground arith, ground arith)
    ]

-- `sem_try_pend` takes a unit if there is one, and reports the level that is left, cut to 8 bits.
sem_try_pend-takes :
    (k : Kernel Semaphore)
    → k.int_lock_nesting < 2 ^ 32 - 1
    → k.self.init ≡ 1
    → Positive k.self.sem_level
    → sem_try_pend object object k
      ≡ ok
          (no_err, some ((k.self.sem_level - 1) % 2 ^ 8))
          (record k { self = record (k.self) { sem_level = k.self.sem_level - 1 } })
unfolding sem_try_pend spinlock_lock spinlock_unlock
sem_try_pend-takes k nest init level = ground arith

-- With no unit left `sem_try_pend` does not wait: it reports OS_SEM_LOCKED and the level, cut to 8
-- bits, and changes nothing.
sem_try_pend_locked :
    (k : Kernel Semaphore)
    → k.int_lock_nesting < 2 ^ 32 - 1
    → k.self.init ≡ 1
    → NotPositive k.self.sem_level
    → sem_try_pend object object k ≡ ok (sem_locked, some (k.self.sem_level % 2 ^ 8)) k
unfolding sem_try_pend spinlock_lock spinlock_unlock
sem_try_pend_locked k nest init level = ground arith
