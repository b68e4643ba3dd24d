-- ===== src/Mutex/Pend.antt =====
-- `mutex_pend` and `mutex_try_pend`: taking a mutex.
use awk.Base.{
  ℕ, ◌-◌, ◌^◌, ◌<◌, ◌≡◌, refl, ◌≢◌, ◌⊎◌, inl, inr, Bool, true, false, Option, some, none, List, [],
  ◌∷◌, arith, null,
}
use awk.Run
use awk.Run.{Cmd, ok, blocked, pure, ◌>>=◌, ◌>>◌}
use awk.Err.{no_err, mutex_locked}
use awk.KernelList.{Node, Heap}
use awk.KernelList.Chain.{Entries, insert}
use awk.KernelList.Enlist.{entry, Enlisted}
use awk.Kernel.{
  BlockType, Thread, Kernel, object, Switch, spinlock_lock, spinlock_unlock, get_pid, get_self,
  set_self, load_thread,
}
use awk.Blocking.Block.{CanBlock, put_to_wait}
use awk.Blocking.Call.{call-goes_on, call-waits}
use awk.Blocking.Resume.{nested, Resumed, call-Resumed}
use awk.Mutex.{
  Mutex, is_recursive, mutex_is_live, mutex_refuse, mutex_take, mutex_pend, mutex_try_pend,
  mutex_must_wait,
}

-- `x` is the calling thread.
pub record Calls (k : Kernel Mutex) (x : Thread) : Type 0 where
  pub ne_null : k.active_thread ≢ null
  pub holds : k.thread k.active_thread ≡ some x

-- The mutex taken by the thread `x`.
abbrev pub taken_by : Thread → Kernel Mutex → Kernel Mutex
taken_by x k = record k { self = record (k.self) { state = 0; locker_pid = x.pid } }

-- A free mutex is taken at once: it is not free afterwards, the calling thread is its holder, and
-- nothing else changes.
pub mutex_pend-takes :
    (k : Kernel Mutex) {x : Thread} (fuel : ℕ) (switches : List (Switch Mutex))
    → Calls k x
    → k.int_lock_nesting < 2 ^ 32 - 1
    → k.self.init ≡ 1
    → k.self.state ≡ 1
    → mutex_pend fuel switches object k ≡ ok no_err (taken_by x k)
unfolding mutex_pend spinlock_unlock get_pid load_thread
mutex_pend-takes k fuel switches c nest init free = ground (
  arith,
  c,
  call-goes_on fuel mutex_must_wait (λ m. m.waiting_threads) BlockType.mutex mutex_is_live
      mutex_refuse mutex_take switches k nest (ground arith) (ground arith),
)

-- The holder of an initialised recursive mutex takes it again at once by `mutex_pend`, and nothing
-- changes: the code does not count how often the mutex is held.
mutex_pend_again :
    (k : Kernel Mutex) {x : Thread} (fuel : ℕ) (switches : List (Switch Mutex))
    → Calls k x
    → k.int_lock_nesting < 2 ^ 32 - 1
    → k.self.init ≡ 1
    → k.self.state ≡ 0
    → is_recursive k.self ≡ true
    → k.self.locker_pid ≡ x.pid
    → mutex_pend fuel switches object k ≡ ok no_err k
unfolding mutex_pend spinlock_unlock get_pid load_thread
mutex_pend_again k fuel switches c nest init held recursive mine = ground (
  arith,
  c,
  call-goes_on fuel mutex_must_wait (λ m. m.waiting_threads) BlockType.mutex mutex_is_live
      mutex_refuse mutex_take switches k nest (ground arith) (ground (arith, c)),
)

-- With interrupts enabled, `mutex_pend` on an initialised mutex that is not recursive and not free,
-- whichever thread holds it, marks the calling thread as blocked on a mutex and joins its node to
-- the waiting threads. Not resumed, it does not return; resumed, it does what a new call would do in
-- the state it is resumed in.
pub mutex_pend-waits :
    {k : Kernel Mutex} {x : Thread} {m : Node} {xs : Entries} {n fuel : ℕ}
    → CanBlock k k.self.waiting_threads x m xs n fuel
    → k.int_lock_nesting ≡ 0
    → k.self.init ≡ 1
    → k.self.state ≢ 1
    → is_recursive k.self ≡ false
    → (g : Heap) × Enlisted k.self.waiting_threads
        (entry k.active_thread_node m 0)
        xs
        (insert (entry k.active_thread_node m 0) xs)
        n
        k.heap
        g
      × (mutex_pend fuel [] object k ≡ blocked (put_to_wait k BlockType.mutex x g))
      × ((switch : Switch Mutex) (switches : List (Switch Mutex))
          → mutex_pend fuel (switch ∷ switches) object k
            ≡ mutex_pend fuel switches object (switch (put_to_wait k BlockType.mutex x g)))
unfolding mutex_pend
mutex_pend-waits {fuel} c free init held plain =
    call-waits fuel mutex_must_wait (λ m. m.waiting_threads) BlockType.mutex mutex_is_live
      mutex_refuse mutex_take (λ k dead. ground arith) c free (ground arith) (ground arith)

get_pid-reads : (k l : Kernel Mutex) (p : ℕ) → get_pid k ≡ ok p l → l ≡ k
unfolding get_pid load_thread
get_pid-reads k l p e = ground arith

get_pid-eq-ok :
    (k : Kernel Mutex) {l : Kernel Mutex} {p : ℕ}
    → get_pid k ≡ ok p l
    → (x : Thread) × (k.thread k.active_thread ≡ some x) × (x.pid ≡ p) × (l ≡ k)
unfolding get_pid load_thread
get_pid-eq-ok k {l} {p} e = held (k.thread k.active_thread) refl
  where
    held :
        (t : Option Thread)
        → k.thread k.active_thread ≡ t
        → (x : Thread) × (k.thread k.active_thread ≡ some x) × (x.pid ≡ p) × (l ≡ k)
    held none t = absurd (ground arith)
    held (some x) t = (x, t, ground arith, ground arith)

mutex_must_wait-reads : (k l : Kernel Mutex) (w : Bool) → mutex_must_wait k ≡ ok w l → l ≡ k
unfolding get_pid load_thread
mutex_must_wait-reads k l w e = ground arith

-- Whatever the other threads do while the caller waits, a call of `mutex_pend` that succeeds has
-- come to a state `l`: the one it was made in, or, if it blocked the calling thread, the one that it
-- was resumed in at last. There the mutex is initialised, and it is free or, if it is recursive,
-- held by the calling thread; the call ends in `l` with the mutex taken, the calling thread as its
-- holder, and the interrupts' nesting of `l`, or one less if that is at its bound.
pub mutex_pend_exclusive :
    (fuel : ℕ) (switches : List (Switch Mutex)) (k t : Kernel Mutex)
    → mutex_pend fuel switches object k ≡ ok no_err t
    → (l : Kernel Mutex) × (x : Thread) × Resumed
        (λ later. mutex_pend fuel later object)
        switches
        k
        l
      × (l.self.init ≡ 1)
      × (l.thread l.active_thread ≡ some x)
      × ((l.self.state ≡ 1) ⊎ ((is_recursive l.self ≡ true) × (l.self.locker_pid ≡ x.pid)))
      × (t ≡ record (taken_by x l) { int_lock_nesting = (nested l).int_lock_nesting - 1 })
unfolding mutex_pend spinlock_unlock get_pid load_thread
mutex_pend_exclusive fuel switches k t e =
    let (l, from, cases) =
      call-Resumed fuel mutex_must_wait (λ m. m.waiting_threads) BlockType.mutex mutex_is_live
        mutex_refuse mutex_take (λ k dead. ground arith) mutex_must_wait-reads switches k t no_err
        e in
    elim cases [
      | inl refused ↦ absurd (ground (arith, refused))
      | inr (alive, free, taken) ↦
          let (_, _, read, _) =
            Run.and_then-eq-ok (get_pid (nested l))
              (λ pid. do
                m ← get_self
                set_self (record m { state = 0; locker_pid = pid })
                spinlock_unlock
                pure no_err)
              taken in
          let (x, runs, mine, same) = get_pid-eq-ok (nested l) read in
          (l, x, from, ground arith, runs, ground (arith, read), ground (arith, read))
    ]

-- `mutex_try_pend` takes a free mutex, but does not note the caller as its holder.
mutex_try_pend-takes :
    (k : Kernel Mutex)
    → k.int_lock_nesting < 2 ^ 32 - 1
    → k.self.init ≡ 1
    → k.self.state ≡ 1
    → mutex_try_pend object object k
      ≡ ok (no_err, none) (record k { self = record (k.self) { state = 0 } })
unfolding mutex_try_pend spinlock_lock spinlock_unlock
mutex_try_pend-takes k nest init free = ground arith

-- On a held mutex it does not wait: it reports OS_MUTEX_LOCKED and changes nothing.
mutex_try_pend_locked :
    (k : Kernel Mutex)
    → k.int_lock_nesting < 2 ^ 32 - 1
    → k.self.init ≡ 1
    → k.self.state ≢ 1
    → mutex_try_pend object object k ≡ ok (mutex_locked, some k.self.state) k
unfolding mutex_try_pend spinlock_lock spinlock_unlock
mutex_try_pend_locked k nest init held = ground arith
