-- ===== src/ThreadLife.antt =====
-- Creation and joining of threads in core/scheduler.c. The start of a thread (its stack and its
-- registers), its name, its argument and its times are left out. `kfree` of a thread makes its address
-- one that holds no thread.
pub mod Create
pub mod Forget
pub mod Join
mod Tests
pub mod Fail
use awk.Base.{
  ℕ, zero, suc, ◌+◌, ◌-◌, ◌%◌, ◌^◌, Bool, true, false, not, ◌&&◌, ◌||◌, Option, none, some, Ptr,
  null, ◌==◌, ltb, if◌then◌else◌, update,
}
use awk.Run.{Cmd, ok, out_of_fuel, pure, ◌>>=◌, ◌>>◌}
use awk.Err.{Err, no_err, null_pointer, no_such_id, malloc_failed, forbidden_priority}
use awk.KernelList.{
  kmalloc, load_node, set_node, create_node, delete_node, create_list, delete_list, enlist_data,
  delist_data, find_node, remove_node_from,
}
use awk.Kernel.{
  ThreadState, BlockType, Thread, Kernel, Switch, in_heap, kernel_panic, disable_local_interrupt,
  enable_local_interrupt, load_thread, set_thread, schedule,
}
use awk.Blocking.{is_no_err}
use awk.Scheduler.{lowest_priority, get_kernel, enlist_or_panic}

abbrev pub is_no_such_id : Err → Bool
is_no_such_id no_such_id = true
is_no_such_id _ = false

abbrev pub is_dead : ThreadState → Bool
is_dead ThreadState.dead = true
is_dead _ = false

abbrev pub is_zombie : ThreadState → Bool
is_zombie ThreadState.zombie = true
is_zombie _ = false

-- The state of the fields that the model has, after `memset` and the settings of `create_thread`.
abbrev pub new_thread : (pid ppid priority : ℕ) → Thread
new_thread pid ppid priority = record {
  pid = pid;
  ppid = ppid;
  init_prio = priority;
  priority = priority;
  ret_val = null;
  state = ThreadState.ready;
  wakeup_time = 0;
  block_type = BlockType.sem;
  joining_thread = null;
  children = null;
  last_sched = 0;
}

module _ {S : Type 0} where
  -- `*p = …` for a whole thread, and `kfree(p)`.
  abbrev pub put_thread : Ptr → Option Thread → Cmd (Kernel S) (Unit {0})
  put_thread p t k = ok tt (record k { thread = update k.thread p t })

  -- The ways out of `create_thread` after an error: what was made is deleted, and errors in that are
  -- not looked at.
  abbrev pub drop_node : Ptr → Cmd (Kernel S) (Unit {0})
  drop_node p = do (_, _) ← in_heap (delete_node p); pure tt

  abbrev pub drop_list : Ptr → Cmd (Kernel S) (Unit {0})
  drop_list l = do (_, _) ← in_heap (delete_list l); pure tt

  abbrev pub give_up : Ptr → Err → Cmd (Kernel S) (Err × Ptr)
  give_up t err = do put_thread t none; enable_local_interrupt; pure (err, null)

  abbrev pub undo : (t l node second child : Ptr) → Err → Cmd (Kernel S) (Err × Ptr)
  undo t l node second child err = do
    drop_list l
    drop_node child
    drop_node node
    drop_node second
    give_up t err

  -- The part of `create_thread` that puts the nodes of the new thread in their lists.
  unfoldable pub enroll :
      (fuel : ℕ) → (thread list node second child : Ptr) → ℕ → Cmd (Kernel S) (Err × Ptr)
  unfolding enable_local_interrupt load_thread set_thread
  enroll fuel t l node second child priority = do
    k ← get_kernel
    err ← in_heap (enlist_data fuel node k.active_threads_table priority)
    if not (is_no_err err) then undo t l node second child err else do
      x ← load_thread t
      err ← in_heap (enlist_data fuel second k.global_threads_table x.priority)
      if not (is_no_err err) then undo t l node second child err else do
        parent ← load_thread k.active_thread
        err ← in_heap (enlist_data fuel child parent.children 0)
        if not (is_no_err err) then undo t l node second child err else do
          k ← get_kernel
          λ _. ok tt (record k { thread_count = (k.thread_count + 1) % 2 ^ 32 })
          enable_local_interrupt
          pure (no_err, t)

  -- The second part of the result is what `*thread` holds afterwards.
  unfoldable pub create_thread : (fuel : ℕ) → (priority : ℕ) → Cmd (Kernel S) (Err × Ptr)
  unfolding disable_local_interrupt enable_local_interrupt load_thread set_thread enroll
  create_thread fuel priority =
      if ltb lowest_priority priority then pure (forbidden_priority, null) else do
        disable_local_interrupt
        t ← in_heap kmalloc
        (node, err) ← in_heap (create_node t)
        if not (is_no_err err) || (t == null)
            then (do
              if not (t == null) then put_thread t none else pure tt
              enable_local_interrupt
              pure (if is_no_err err then malloc_failed else err, null))
            else do
              k ← get_kernel
              parent ← load_thread k.active_thread
              let pid = (k.last_given_pid + 1) % 2 ^ 32
              λ _. ok tt (record k { last_given_pid = pid })
              put_thread t (some (new_thread pid parent.pid priority))
              (l, err) ← in_heap create_list
              set_thread t (λ x. record x { children = l })
              if not (is_no_err err) then (do drop_node node; give_up t err) else do
                (second, err) ← in_heap (create_node t)
                if not (is_no_err err) then (do drop_list l; drop_node node; give_up t err) else do
                  (child, err) ← in_heap (create_node t)
                  if not (is_no_err err)
                      then (do drop_list l; drop_node node; drop_node second; give_up t err)
                      else enroll fuel t l node second child priority

  -- One of the three parts of `clean_joined_thread`.
  unfoldable pub forget_in : (fuel : ℕ) → (list thread : Ptr) → Cmd (Kernel S) (Unit {0})
  forget_in fuel list thread = do
    (node, err) ← in_heap (find_node fuel list thread)
    if not (is_no_err err) && not (is_no_such_id err)
        then kernel_panic
        else if not (node == null) && is_no_err err
        then (do
          err ← in_heap (remove_node_from fuel list node)
          if not (is_no_err err) then kernel_panic else do
            (err, _) ← in_heap (delete_node node)
            if not (is_no_err err) then kernel_panic else pure tt)
        else pure tt

  unfoldable pub clean_joined_thread : (fuel : ℕ) → (thread : Ptr) → Cmd (Kernel S) (Unit {0})
  unfolding load_thread forget_in
  clean_joined_thread fuel thread = do
    k ← get_kernel
    parent ← load_thread k.active_thread
    forget_in fuel parent.children thread
    forget_in fuel k.zombie_threads_table thread
    forget_in fuel k.global_threads_table thread
    put_thread thread none
    k ← get_kernel
    λ _. ok tt (record k { thread_count = (k.thread_count + 2 ^ 32 - 1) % 2 ^ 32 })

  -- The second part of the result is what is written through `ret_val`, if it is not `NULL`.
  unfoldable pub wait_thread :
      (fuel : ℕ) → Switch S → (thread : Ptr) → Cmd (Kernel S) (Err × Option Ptr)
  unfolding disable_local_interrupt enable_local_interrupt load_thread set_thread schedule
      clean_joined_thread
  wait_thread fuel switch thread = if thread == null then pure (null_pointer, none) else do
    disable_local_interrupt
    t ← load_thread thread
    if is_dead t.state
        then (do enable_local_interrupt; pure (no_such_id, none))
        else if is_zombie t.state
        then (do
          set_thread thread (λ t. record t { state = ThreadState.dead })
          clean_joined_thread fuel thread
          enable_local_interrupt
          pure (no_err, some t.ret_val))
        else do
          k ← get_kernel
          set_thread thread (λ t. record t { joining_thread = k.active_thread_node })
          set_thread k.active_thread (λ t. record t { state = ThreadState.joining })
          enable_local_interrupt
          schedule switch
          disable_local_interrupt
          t ← load_thread thread
          clean_joined_thread fuel thread
          enable_local_interrupt
          pure (no_err, some t.ret_val)
