-- ===== src/Scheduler.antt =====
-- The choice of the next thread in core/scheduler.c: `sleep`, `schedule_int` and `select_thread`.
-- `current_time` stands for what `get_current_uptime` returns. Registers, stacks, the tick of the timer
-- and the end-of-interrupt signal are left out, and `schedule_int` is that of every call but the first.
pub mod Sleepers
pub mod Live
pub mod Select
pub mod Next
pub mod Aged
pub mod Aging
pub mod Round
pub mod Age
mod Tests
use awk.Base.{
  ℕ, zero, suc, ◌+◌, ◌-◌, ◌%◌, ◌^◌, Bool, true, false, not, ◌||◌, Ptr, null, ◌==◌, ltb,
  if◌then◌else◌,
}
use awk.Run.{Cmd, ok, out_of_fuel, pure, ◌>>=◌, ◌>>◌}
use awk.Err.{Err, no_err, unauthorized_action}
use awk.KernelList.{load_node, load_list, set_node, enlist_data, delist_data}
use awk.Kernel.{
  ThreadState, Thread, Kernel, Switch, in_heap, kernel_panic, load_thread, set_thread, schedule,
}
use awk.Blocking.{is_no_err}

-- KERNEL_LOWEST_PRIORITY and KERNEL_HIGHEST_PRIORITY.
abbrev pub lowest_priority : ℕ
lowest_priority = 64

abbrev pub highest_priority : ℕ
highest_priority = 0

abbrev pub is_running : ThreadState → Bool
is_running ThreadState.running = true
is_running _ = false

abbrev pub is_sleeping : ThreadState → Bool
is_sleeping ThreadState.sleeping = true
is_sleeping _ = false

module _ {S : Type 0} where
  abbrev pub get_kernel : Cmd (Kernel S) (Kernel S)
  get_kernel k = ok k k

  -- `kernel_list_enlist_data`, whose errors are fatal.
  abbrev pub enlist_or_panic : (fuel : ℕ) → (node list : Ptr) → ℕ → Cmd (Kernel S) (Unit {0})
  enlist_or_panic fuel node list priority = do
    err ← in_heap (enlist_data fuel node list priority)
    if is_no_err err then pure tt else kernel_panic

  -- `select_thread`, to the end of its second branch: the running thread goes back to a table, unless
  -- it waits for something else.
  unfoldable pub requeue : (fuel : ℕ) → Cmd (Kernel S) (Unit {0})
  unfolding load_thread set_thread
  requeue fuel = do
    k ← get_kernel
    old ← load_thread k.active_thread
    if is_running old.state
        then (do
          enlist_or_panic fuel k.active_thread_node k.active_threads_table old.priority
          set_thread k.active_thread (λ t. record t { state = ThreadState.ready }))
        else if is_sleeping old.state
        then enlist_or_panic fuel k.active_thread_node k.sleeping_threads_table old.wakeup_time
        else pure tt

  -- The loop that wakes the sleeping threads. `rounds` is one more than the threads that sleep.
  unfoldable pub wake_sleepers : (fuel rounds : ℕ) → (current_time : ℕ) → Cmd (Kernel S) (Unit {0})
  unfolding load_thread set_thread
  wake_sleepers fuel zero current_time = λ _. out_of_fuel
  wake_sleepers fuel (suc rounds) current_time =
      let again = wake_sleepers fuel rounds current_time in
      do
        k ← get_kernel
        (node, err) ← in_heap (delist_data k.sleeping_threads_table)
        if not (is_no_err err) then kernel_panic else if node == null then pure tt else do
          n ← in_heap (load_node node)
          if n.payload == null then again else do
            t ← load_thread n.payload
            if ltb t.wakeup_time current_time
                then (do
                  enlist_or_panic fuel node k.active_threads_table t.priority
                  set_thread n.payload (λ t. record t { state = ThreadState.ready })
                  again)
                else enlist_or_panic fuel node k.sleeping_threads_table t.wakeup_time

  -- The rest of `select_thread`: the new thread.
  unfoldable pub take_next : Cmd (Kernel S) (Unit {0})
  unfolding load_thread set_thread
  take_next = do
    k ← get_kernel
    (node, err) ← in_heap (delist_data k.active_threads_table)
    if (node == null) || not (is_no_err err) then kernel_panic else do
      n ← in_heap (load_node node)
      if n.payload == null then kernel_panic else do
        k ← get_kernel
        λ _. ok tt (record k { active_thread = n.payload; active_thread_node = node })
        set_thread n.payload (λ t. record t { state = ThreadState.running })

  unfoldable pub select_thread : (fuel rounds : ℕ) → (current_time : ℕ) → Cmd (Kernel S) (Unit {0})
  select_thread fuel rounds current_time = do
    requeue fuel
    wake_sleepers fuel rounds current_time
    take_next

  -- One round of the loop over the table of active threads in `schedule_int`: the priority of a thread
  -- that was not run for 25 rounds is raised, that is, its number lowered.
  unfoldable pub age_one : (cursor : Ptr) → Cmd (Kernel S) (Unit {0})
  unfolding load_thread set_thread
  age_one cursor = do
    k ← get_kernel
    n ← in_heap (load_node cursor)
    if (n.payload == k.idle_thread) || (n.payload == k.init_thread) then pure tt else do
      t ← load_thread n.payload
      if ltb ((t.last_sched + 1) % 2 ^ 32) 25
          then set_thread n.payload (λ t. record t { last_sched = (t.last_sched + 1) % 2 ^ 32 })
          else if ltb highest_priority t.priority
          then (do
            set_thread n.payload (λ t. record t { priority = t.priority - 1; last_sched = 0 })
            in_heap
                (set_node cursor (λ m. record m { priority = (m.priority + 2 ^ 16 - 1) % 2 ^ 16 })))
          else set_thread n.payload (λ t. record t { last_sched = 0 })

  unfoldable pub age : (fuel : ℕ) → (cursor : Ptr) → Cmd (Kernel S) (Unit {0})
  age zero cursor = λ _. out_of_fuel
  age (suc fuel) cursor =
      if cursor == null
      then pure tt
      else do n ← in_heap (load_node cursor); age_one cursor; age fuel n.next

  -- `time_slice` says whether the interrupt's line is that of the PIT.
  unfoldable pub update_priorities : (fuel : ℕ) → (time_slice : Bool) → Cmd (Kernel S) (Unit {0})
  unfolding set_thread
  update_priorities fuel time_slice = do
    k ← get_kernel
    if (k.active_thread == k.idle_thread) || (k.active_thread == k.init_thread) then pure tt else do
      if time_slice
          then set_thread k.active_thread (λ t. record t { priority = t.init_prio })
          else pure tt
      l ← in_heap (load_list k.active_threads_table)
      age fuel l.head
      set_thread k.active_thread (λ t. record t { last_sched = 0 })

  unfoldable pub schedule_int :
      (fuel rounds : ℕ) → (time_slice : Bool) → (current_time : ℕ) → Cmd (Kernel S) (Unit {0})
  schedule_int fuel rounds time_slice current_time = do
    k ← get_kernel
    if not (k.int_lock_nesting == 0)
        then kernel_panic
        else do update_priorities fuel time_slice; select_thread fuel rounds current_time

  unfoldable pub sleep : (current_time time_ms : ℕ) → Switch S → Cmd (Kernel S) Err
  unfolding set_thread schedule
  sleep current_time time_ms switch = do
    k ← get_kernel
    if k.active_thread == k.idle_thread then pure unauthorized_action else do
      set_thread k.active_thread (λ t. record t {
        wakeup_time = (current_time + time_ms) % 2 ^ 32;
        state = ThreadState.sleeping;
      })
      schedule switch
      pure no_err
