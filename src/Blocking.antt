-- ===== src/Blocking.antt =====
-- How core/scheduler.c blocks and wakes threads for the primitives, and the loops that the
-- primitives share: waiting until there is something to take, waking one thread, waking all.
pub mod Frame
pub mod Wake
pub mod WakeOne
pub mod Waiters
pub mod WakeAll
pub mod Block
pub mod Call
pub mod Resume
use awk.Base.{
  ℕ, zero, suc, Bool, true, false, ◌&&◌, ◌||◌, not, List, [], ◌∷◌, Ptr, null, ◌==◌, if◌then◌else◌,
}
use awk.Run.{Cmd, ok, out_of_fuel, pure, ◌>>=◌, ◌>>◌}
use awk.Err.{
  Err, no_err, null_pointer, no_such_id, no_sem_blocked, no_mutex_blocked, no_queue_blocked,
}
use awk.KernelList.{load_node, enlist_data, delist_data}
use awk.Kernel.{
  ThreadState, BlockType, Thread, Kernel, Switch, in_heap, get_self, kernel_panic,
  disable_local_interrupt, enable_local_interrupt, spinlock_lock, spinlock_unlock, load_thread,
  set_thread, schedule, schedule_away,
}

abbrev pub is_no_err : Err → Bool
is_no_err no_err = true
is_no_err _ = false

abbrev pub is_blocked : ThreadState → Bool
is_blocked ThreadState.blocked_state = true
is_blocked _ = false

abbrev pub same_type : BlockType → BlockType → Bool
same_type BlockType.sem BlockType.sem = true
same_type BlockType.mutex BlockType.mutex = true
same_type BlockType.queue BlockType.queue = true
same_type BlockType.io_keyboard BlockType.io_keyboard = true
same_type _ _ = false

-- What `unlock_thread` returns for a thread that is not blocked for that reason.
abbrev pub not_blocked : BlockType → Err
not_blocked BlockType.sem = no_sem_blocked
not_blocked BlockType.mutex = no_mutex_blocked
not_blocked BlockType.queue = no_queue_blocked
not_blocked BlockType.io_keyboard = null_pointer

module _ {S : Type 0} where
  unfoldable pub lock_thread : BlockType → Cmd (Kernel S) Ptr
  unfolding disable_local_interrupt enable_local_interrupt set_thread
  lock_thread block_type k =
      if k.active_thread == k.idle_thread
      then ok null k
      else (do
        disable_local_interrupt
        set_thread k.active_thread
            (λ t. record t { state = ThreadState.blocked_state; block_type = block_type })
        enable_local_interrupt
        pure k.active_thread_node)
          k

  -- The part of `unlock_thread` before `if(do_schedule)`.
  unfoldable pub make_ready : (fuel : ℕ) → Ptr → BlockType → Cmd (Kernel S) Err
  unfolding disable_local_interrupt enable_local_interrupt load_thread set_thread
  make_ready fuel node block_type = do
    n ← in_heap (load_node node)
    k ← λ k. ok k k
    if (n.payload == null) || (n.payload == k.idle_thread) then pure no_such_id else do
      t ← load_thread n.payload
      if not (is_blocked t.state) || not (same_type t.block_type block_type)
          then pure (not_blocked block_type)
          else do
            disable_local_interrupt
            set_thread n.payload (λ t. record t { state = ThreadState.ready })
            err ← in_heap (enlist_data fuel node k.active_threads_table t.priority)
            enable_local_interrupt
            if is_no_err err then pure no_err else kernel_panic

  -- `unlock_thread(node, block_type, 0)`, and with the last argument 1: the caller gives way once
  -- the thread is ready.
  unfoldable pub unlock_thread : (fuel : ℕ) → Ptr → BlockType → Cmd (Kernel S) Err
  unfolding make_ready
  unlock_thread fuel node block_type = make_ready fuel node block_type

  unfoldable pub unlock_thread_and_schedule :
      (fuel : ℕ) → Switch S → Ptr → BlockType → Cmd (Kernel S) Err
  unfolding make_ready schedule
  unlock_thread_and_schedule fuel switch node block_type = do
    err ← make_ready fuel node block_type
    if is_no_err err then (do schedule switch; pure no_err) else pure err

  -- The body of the waiting loops, up to `schedule()`: the calling thread is blocked and joins the
  -- waiting threads of the object, whose lock is given up.
  unfoldable pub block_on : (fuel : ℕ) → (S → Ptr) → BlockType → Cmd (Kernel S) (Unit {0})
  unfolding lock_thread spinlock_unlock
  block_on fuel waiters block_type = do
    node ← lock_thread block_type
    if node == null then kernel_panic else do
      x ← get_self
      err ← in_heap (enlist_data fuel node (waiters x) 0)
      if is_no_err err then spinlock_unlock else kernel_panic

  -- `while(<must wait>) { block; schedule(); lock }`. The list says what happens at each call of
  -- `schedule`; a thread that waits once more is not resumed.
  unfoldable pub wait_while :
      (fuel : ℕ)
      → Cmd (Kernel S) Bool
      → (S → Ptr)
      → BlockType
      → List (Switch S)
      → Cmd (Kernel S) (Unit {0})
  unfolding block_on schedule schedule_away spinlock_lock
  wait_while fuel must_wait waiters block_type [] = do
    waits ← must_wait
    if waits then (do block_on fuel waiters block_type; schedule_away) else pure tt
  wait_while fuel must_wait waiters block_type (switch ∷ switches) = do
    waits ← must_wait
    if waits
        then (do
          block_on fuel waiters block_type
          schedule switch
          spinlock_lock
          wait_while fuel must_wait waiters block_type switches)
        else pure tt

  -- The common course of the functions that wait: lock the object, refuse if it is not initialised,
  -- wait, refuse if it was destroyed meanwhile, and go on with the lock held.
  unfoldable pub blocking_call :
      {A : Type 0} (fuel : ℕ)
      → Cmd (Kernel S) Bool
      → (S → Ptr)
      → BlockType
      → (live : S → Bool) → (refuse go_on : Cmd (Kernel S) A) → List (Switch S)
      → Cmd (Kernel S) A
  blocking_call fuel must_wait waiters block_type live refuse go_on switches = do
    spinlock_lock
    x ← get_self
    if not (live x) then refuse else do
      wait_while fuel must_wait waiters block_type switches
      x ← get_self
      if not (live x) then refuse else go_on

  -- The end of the posting and pending functions of comm/: one thread that waits in `list`, if any,
  -- is made ready, and the caller gives way to it.
  unfoldable pub wake_one :
      (fuel : ℕ) → Switch S → (list : Ptr) → BlockType → Cmd (Kernel S) (Unit {0})
  unfolding spinlock_unlock unlock_thread_and_schedule
  wake_one fuel switch list block_type = do
    (node, err) ← in_heap (delist_data list)
    spinlock_unlock
    if not (node == null) && is_no_err err
        then (do
          err ← unlock_thread_and_schedule fuel switch node block_type
          if is_no_err err then pure tt else kernel_panic)
        else if is_no_err err
        then pure tt
        else kernel_panic

  -- The loops of the destroying functions: every thread that waits in `list` is made ready. `rounds`
  -- is one more than the threads that may wait.
  unfoldable pub wake_all : (fuel rounds : ℕ) → (list : Ptr) → BlockType → Cmd (Kernel S) (Unit {0})
  unfolding unlock_thread
  wake_all fuel zero list block_type = λ _. out_of_fuel
  wake_all fuel (suc rounds) list block_type = do
    (node, err) ← in_heap (delist_data list)
    if not (node == null) && is_no_err err
        then (do
          err ← unlock_thread fuel node block_type
          if is_no_err err then wake_all fuel rounds list block_type else kernel_panic)
        else if is_no_err err
        then pure tt
        else kernel_panic
