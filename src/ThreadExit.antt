-- ===== src/ThreadExit.antt =====
-- The end of a thread in core/scheduler.c: `thread_exit`.
pub mod Release
pub mod Orphan
mod Tests
use awk.Base.{
  ℕ, zero, suc, ◌+◌, ◌-◌, ◌%◌, ◌^◌, Bool, true, false, not, ◌&&◌, ◌||◌, Option, none, some, Ptr,
  null, ◌==◌, ltb, if◌then◌else◌, update,
}
use awk.Run.{Cmd, ok, out_of_fuel, pure, ◌>>=◌, ◌>>◌}
use awk.Err.{Err, no_err}
use awk.KernelList.{load_node, set_node, delete_list, enlist_data, delist_data}
use awk.Kernel.{
  ThreadState, Thread, Kernel, Switch, in_heap, kernel_panic, disable_local_interrupt,
  enable_local_interrupt, load_thread, set_thread, schedule,
}
use awk.Blocking.{is_no_err}
use awk.Scheduler.{get_kernel, enlist_or_panic}

abbrev pub is_joining : ThreadState → Bool
is_joining ThreadState.joining = true
is_joining _ = false

module _ {S : Type 0} where
  -- The loop of `thread_exit` over the children: `init_thread` inherits them. `rounds` is one more than
  -- they are. A child is taken to have a joining thread: its `joining_thread` is read through.
  unfoldable pub inherit : (fuel rounds : ℕ) → (children : Ptr) → Cmd (Kernel S) (Unit {0})
  unfolding load_thread set_thread
  inherit fuel zero children = λ _. out_of_fuel
  inherit fuel (suc rounds) children =
      let again = inherit fuel rounds children in
      do
        (node, err) ← in_heap (delist_data children)
        if not (is_no_err err) then kernel_panic else if node == null then pure tt else do
          k ← get_kernel
          n ← in_heap (load_node node)
          heir ← load_thread k.init_thread
          set_thread n.payload (λ t. record t { ppid = heir.pid })
          t ← load_thread n.payload
          j ← in_heap (load_node t.joining_thread)
          if j.payload == k.active_thread
              then in_heap (set_node t.joining_thread (λ m. record m { payload = null }))
              else pure tt
          heir ← load_thread k.init_thread
          enlist_or_panic fuel node heir.children 0
          again

  -- The thread that waits for this one, if one does, is made ready.
  unfoldable pub release_joining : (fuel : ℕ) → Thread → Cmd (Kernel S) (Unit {0})
  unfolding load_thread set_thread
  release_joining fuel x = if x.joining_thread == null then pure tt else do
    n ← in_heap (load_node x.joining_thread)
    if n.payload == null then pure tt else do
      j ← load_thread n.payload
      if not (is_joining j.state) then pure tt else do
        set_thread n.payload (λ t. record t { state = ThreadState.ready })
        k ← get_kernel
        enlist_or_panic fuel x.joining_thread k.active_threads_table j.priority

  unfoldable pub thread_exit : (fuel rounds : ℕ) → Switch S → Cmd (Kernel S) (Unit {0})
  unfolding disable_local_interrupt enable_local_interrupt load_thread set_thread schedule inherit
      release_joining
  thread_exit fuel rounds switch = do
    disable_local_interrupt
    k ← get_kernel
    if k.active_thread == k.init_thread
        then (do
          set_thread k.active_thread (λ t. record t { state = ThreadState.zombie })
          enable_local_interrupt
          schedule switch)
        else do
          x ← load_thread k.active_thread
          release_joining fuel x
          set_thread k.active_thread (λ t. record t { state = ThreadState.zombie })
          enlist_or_panic fuel k.active_thread_node k.zombie_threads_table 0
          x ← load_thread k.active_thread
          inherit fuel rounds x.children
          (err, l) ← in_heap (delete_list x.children)
          set_thread k.active_thread (λ t. record t { children = l })
          if not (is_no_err err) then kernel_panic else do enable_local_interrupt; schedule switch
