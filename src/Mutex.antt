-- ===== src/Mutex.antt =====
-- sync/mutex.c. The lock's own fields are not used (sync/lock.h defines KERNEL_MONOCORE_SYNC) and are
-- left out.
pub mod Pend
pub mod Post
pub mod Destroy
mod Tests
use awk.Base.{
  ℕ, ◌%◌, ◌^◌, Bool, true, false, ◌&&◌, not, List, Ptr, null, ◌==◌, if◌then◌else◌, Option, some,
  none,
}
use awk.Run.{Cmd, ok, pure, ◌>>=◌, ◌>>◌}
use awk.Err.{Err, no_err, null_pointer, mutex_uninitialized, mutex_locked}
use awk.KernelList.{create_list, delete_list, delist_data}
use awk.Kernel.{
  BlockType, Kernel, Arg, nothing, object, Switch, in_heap, get_self, set_self, kernel_panic,
  spinlock_lock, spinlock_unlock, get_pid,
}
use awk.Blocking.{is_no_err, unlock_thread_and_schedule, blocking_call, wake_all}

pub record Mutex : Type 0 where
  pub waiting_threads : Ptr
  pub state : ℕ
  pub flags : ℕ
  pub locker_pid : ℕ
  pub init : ℕ

-- `flags & MUTEX_FLAG_RECURSIVE`, the lowest bit.
abbrev pub is_recursive : Mutex → Bool
is_recursive m = not (m.flags % 2 == 0)

unfoldable pub mutex_init : Arg → ℕ → Cmd (Kernel Mutex) Err
mutex_init nothing flags = pure null_pointer
mutex_init object flags = do
  set_self (record { waiting_threads = null; state = 1; flags = flags; locker_pid = 0; init = 0 })
  (l, err) ← in_heap create_list
  m ← get_self
  set_self (record m { waiting_threads = l })
  if not (is_no_err err)
      then pure err
      else do m ← get_self; set_self (record m { init = 1 }); pure no_err

unfoldable pub mutex_destroy : (fuel rounds : ℕ) → Arg → Cmd (Kernel Mutex) Err
mutex_destroy fuel rounds nothing = pure null_pointer
mutex_destroy fuel rounds object = do
  spinlock_lock
  m ← get_self
  if not (m.init == 1) then (do spinlock_unlock; pure mutex_uninitialized) else do
    wake_all fuel rounds m.waiting_threads BlockType.mutex
    (err, l) ← in_heap (delete_list m.waiting_threads)
    set_self (record m { waiting_threads = l; init = 0 })
    spinlock_unlock
    pure no_err

-- `mutex->init == 1 && mutex->state != 1`, less the `break` of a recursive mutex's holder.
abbrev pub mutex_must_wait : Cmd (Kernel Mutex) Bool
mutex_must_wait = do
  m ← get_self
  if not ((m.init == 1) && not (m.state == 1))
      then pure false
      else if not (is_recursive m)
      then pure true
      else do pid ← get_pid; pure (not (pid == m.locker_pid))

abbrev pub mutex_is_live : Mutex → Bool
mutex_is_live m = m.init == 1

abbrev pub mutex_refuse : Cmd (Kernel Mutex) Err
mutex_refuse = do spinlock_unlock; pure mutex_uninitialized

-- `mutex_pend` behind its loop.
abbrev pub mutex_take : Cmd (Kernel Mutex) Err
mutex_take = do
  pid ← get_pid
  m ← get_self
  set_self (record m { state = 0; locker_pid = pid })
  spinlock_unlock
  pure no_err

unfoldable pub mutex_pend : (fuel : ℕ) → List (Switch Mutex) → Arg → Cmd (Kernel Mutex) Err
mutex_pend fuel switches nothing = pure null_pointer
mutex_pend fuel switches object =
    blocking_call fuel mutex_must_wait (λ m. m.waiting_threads) BlockType.mutex mutex_is_live
      mutex_refuse mutex_take switches

unfoldable pub mutex_post : (fuel : ℕ) → Switch Mutex → Arg → Cmd (Kernel Mutex) Err
mutex_post fuel switch nothing = pure null_pointer
mutex_post fuel switch object = do
  spinlock_lock
  m ← get_self
  if not (m.init == 1) then (do spinlock_unlock; pure mutex_uninitialized) else do
    set_self (record m { state = 1 })
    (node, err) ← in_heap (delist_data m.waiting_threads)
    if not (node == null)
        then (if not (is_no_err err) then kernel_panic else do
          spinlock_unlock
          err ← unlock_thread_and_schedule fuel switch node BlockType.mutex
          if is_no_err err then pure no_err else kernel_panic)
        else if not (is_no_err err)
        then kernel_panic
        else (do spinlock_unlock; pure no_err)

-- The second part of the result is what is written through `value`, if anything is.
unfoldable pub mutex_try_pend : Arg → (value : Arg) → Cmd (Kernel Mutex) (Err × Option ℕ)
mutex_try_pend nothing value = pure (null_pointer, none)
mutex_try_pend object nothing = pure (null_pointer, none)
mutex_try_pend object object = do
  spinlock_lock
  m ← get_self
  if not (m.init == 1)
      then (do spinlock_unlock; pure (mutex_uninitialized, none))
      else if not (m.state == 1)
      then (do spinlock_unlock; pure (mutex_locked, some m.state))
      else if m.init == 1
      then (do set_self (record m { state = 0 }); spinlock_unlock; pure (no_err, none))
      else (do spinlock_unlock; pure (mutex_uninitialized, none))
