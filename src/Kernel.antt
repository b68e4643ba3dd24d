-- ===== src/Kernel.antt =====
-- The kernel's state as the synchronisation and communication primitives see it: the heap of lists
-- (core/kernel_list.c), the threads (core/kernel_thread.h), the scheduler's variables
-- (core/scheduler.c), the nesting of disabled interrupts (core/interrupts.c), and `self`, the
-- object that the primitive at hand works on.
use awk.Base.{ℕ, ◌+◌, ◌-◌, ◌^◌, Option, none, some, Ptr, null, ◌==◌, ltb, if◌then◌else◌, update}
use awk.Run.{Run, ok, blocked, panic, fault, out_of_fuel, Cmd, pure, ◌>>=◌}
use awk.KernelList.{Heap}

-- THREAD_STATE_E and BLOCK_TYPE_E.
pub data ThreadState : Type 0 where
  running ready sleeping dead zombie joining blocked_state : ThreadState

pub data BlockType : Type 0 where
  sem mutex queue io_keyboard : BlockType

-- The fields of `kernel_thread_t`, less the registers, the stack, the name, the routine with its
-- argument, and the statistics but `last_sched`.
pub record Thread : Type 0 where
  pub pid : ℕ
  pub ppid : ℕ
  pub init_prio : ℕ
  pub priority : ℕ
  pub ret_val : Ptr
  pub state : ThreadState
  pub wakeup_time : ℕ
  pub block_type : BlockType
  pub joining_thread : Ptr
  pub children : Ptr
  pub last_sched : ℕ

-- The variables of core/scheduler.c, less those for its start, and what they point at.
pub record Kernel (S : Type 0) : Type 0 where
  pub heap : Heap
  pub thread : Ptr → Option Thread
  pub active_thread : Ptr
  pub active_thread_node : Ptr
  pub idle_thread : Ptr
  pub init_thread : Ptr
  pub active_threads_table : Ptr
  pub zombie_threads_table : Ptr
  pub sleeping_threads_table : Ptr
  pub global_threads_table : Ptr
  pub last_given_pid : ℕ
  pub thread_count : ℕ
  pub int_lock_nesting : ℕ
  pub self : S

-- The pointer argument of a primitive: `NULL`, or the object that `self` models.
pub data Arg : Type 0 where
  nothing object : Arg

-- What happens from a call of `schedule` until the calling thread runs again: the scheduler's
-- choice of threads (`select_thread`) and all that the other threads do.
abbrev pub Switch : Type 0 → Type 0
Switch S = Kernel S → Kernel S

module _ {S : Type 0} where
  -- A function of core/kernel_list.c, called with the kernel's heap.
  abbrev pub with_heap : {A : Type 0} → Kernel S → Run Heap A → Run (Kernel S) A
  with_heap k (ok a h) = ok a (record k { heap = h })
  with_heap k (blocked h) = blocked (record k { heap = h })
  with_heap k panic = panic
  with_heap k fault = fault
  with_heap k out_of_fuel = out_of_fuel

  abbrev pub in_heap : {A : Type 0} → Cmd Heap A → Cmd (Kernel S) A
  in_heap m k = with_heap k (m k.heap)

  abbrev pub get_self : Cmd (Kernel S) S
  get_self k = ok k.self k

  abbrev pub set_self : S → Cmd (Kernel S) (Unit {0})
  set_self x k = ok tt (record k { self = x })

  abbrev pub kernel_panic : {A : Type 0} → Cmd (Kernel S) A
  kernel_panic k = panic

  -- `disable_local_interrupt` and `enable_local_interrupt`. The processor takes interrupts exactly
  -- when the nesting is 0.
  unfoldable pub disable_local_interrupt : Cmd (Kernel S) (Unit {0})
  disable_local_interrupt k = ok tt (record k {
    int_lock_nesting =
        if ltb k.int_lock_nesting (2 ^ 32 - 1) then k.int_lock_nesting + 1 else k.int_lock_nesting;
  })

  unfoldable pub enable_local_interrupt : Cmd (Kernel S) (Unit {0})
  enable_local_interrupt k = ok tt (record k { int_lock_nesting = k.int_lock_nesting - 1 })

  -- sync/lock.c, as compiled with KERNEL_MONOCORE_SYNC, on the lock inside an object: the fields of
  -- the lock are not used.
  unfoldable pub spinlock_lock : Cmd (Kernel S) (Unit {0})
  unfolding disable_local_interrupt
  spinlock_lock = disable_local_interrupt

  unfoldable pub spinlock_unlock : Cmd (Kernel S) (Unit {0})
  unfolding enable_local_interrupt
  spinlock_unlock = enable_local_interrupt

  unfoldable pub load_thread : Ptr → Cmd (Kernel S) Thread
  load_thread t k =
      if t == null then fault else elim (k.thread t) [ none ↦ fault | some x ↦ ok x k ]

  unfoldable pub set_thread : Ptr → (Thread → Thread) → Cmd (Kernel S) (Unit {0})
  unfolding load_thread
  set_thread t f = do
    x ← load_thread t
    λ k. ok tt (record k { thread = update k.thread t (some (f x)) })

  -- The scheduling interrupt: `schedule_int` panics if it comes while interrupts are disabled.
  unfoldable pub schedule : Switch S → Cmd (Kernel S) (Unit {0})
  schedule switch k = if k.int_lock_nesting == 0 then ok tt (switch k) else panic

  -- The same for a thread that is not resumed.
  unfoldable pub schedule_away : {A : Type 0} → Cmd (Kernel S) A
  schedule_away k = if k.int_lock_nesting == 0 then blocked k else panic

  unfoldable pub get_pid : Cmd (Kernel S) ℕ
  unfolding load_thread
  get_pid = do k ← λ k. ok k k; t ← load_thread k.active_thread; pure t.pid
