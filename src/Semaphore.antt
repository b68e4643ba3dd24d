-- ===== src/Semaphore.antt =====
-- sync/semaphore.c. `sem_level` is an `int32_t`, kept as its bit pattern. The lock's own fields are
-- not used (sync/lock.h defines KERNEL_MONOCORE_SYNC) and are left out.
pub mod Pend
pub mod Post
pub mod Life
pub mod Destroy
mod Tests
use awk.Base.{
  ℕ, ◌+◌, ◌-◌, ◌%◌, ◌^◌, Bool, true, false, ◌&&◌, not, List, Ptr, null, ◌==◌, ltb, leb,
  if◌then◌else◌, Option, some, none, ◌||◌,
}
use awk.Run.{Cmd, ok, pure, ◌>>=◌, ◌>>◌}
use awk.Err.{Err, no_err, null_pointer, sem_uninitialized, sem_locked}
use awk.KernelList.{create_list, delist_data}
use awk.Kernel.{
  BlockType, Kernel, Arg, nothing, object, Switch, in_heap, get_self, set_self, kernel_panic,
  spinlock_lock, spinlock_unlock,
}
use awk.Blocking.{is_no_err, unlock_thread, blocking_call, wake_all}

pub record Semaphore : Type 0 where
  pub waiting_threads : Ptr
  pub sem_level : ℕ
  pub init : ℕ

-- `level < 1` and `level > 0` of the signed number.
abbrev pub below_one : ℕ → Bool
below_one level = (level == 0) || leb (2 ^ 31) level

abbrev pub above_zero : ℕ → Bool
above_zero level = not (level == 0) && ltb level (2 ^ 31)

-- `++level` and `--level`, which wrap.
abbrev pub increment : ℕ → ℕ
increment level = (level + 1) % 2 ^ 32

abbrev pub decrement : ℕ → ℕ
decrement level = (level + 2 ^ 32 - 1) % 2 ^ 32

-- The `memset` clears every field before the others are set.
unfoldable pub sem_init : Arg → ℕ → Cmd (Kernel Semaphore) Err
sem_init nothing init_level = pure null_pointer
sem_init object init_level = do
  set_self (record { waiting_threads = null; sem_level = init_level; init = 0 })
  (l, err) ← in_heap create_list
  s ← get_self
  set_self (record s { waiting_threads = l })
  if not (is_no_err err)
      then pure err
      else do s ← get_self; set_self (record s { init = 1 }); pure no_err

unfoldable pub sem_destroy : (fuel rounds : ℕ) → Arg → Cmd (Kernel Semaphore) Err
sem_destroy fuel rounds nothing = pure null_pointer
sem_destroy fuel rounds object = do
  spinlock_lock
  s ← get_self
  if not (s.init == 1) then (do spinlock_unlock; pure sem_uninitialized) else do
    set_self (record s { init = 0 })
    wake_all fuel rounds s.waiting_threads BlockType.sem
    spinlock_unlock
    pure no_err

-- `sem->init == 1 && sem->sem_level < 1`
abbrev pub sem_must_wait : Cmd (Kernel Semaphore) Bool
sem_must_wait = do s ← get_self; pure ((s.init == 1) && below_one s.sem_level)

abbrev pub sem_is_live : Semaphore → Bool
sem_is_live s = s.init == 1

abbrev pub sem_refuse : Cmd (Kernel Semaphore) Err
sem_refuse = do spinlock_unlock; pure sem_uninitialized

-- `sem_pend` behind its loop.
abbrev pub sem_take : Cmd (Kernel Semaphore) Err
sem_take = do
  s ← get_self
  set_self (record s { sem_level = decrement s.sem_level })
  spinlock_unlock
  pure no_err

unfoldable pub sem_pend : (fuel : ℕ) → List (Switch Semaphore) → Arg → Cmd (Kernel Semaphore) Err
sem_pend fuel switches nothing = pure null_pointer
sem_pend fuel switches object =
    blocking_call fuel sem_must_wait (λ s. s.waiting_threads) BlockType.sem sem_is_live sem_refuse
      sem_take switches

unfoldable pub sem_post : (fuel : ℕ) → Arg → Cmd (Kernel Semaphore) Err
sem_post fuel nothing = pure null_pointer
sem_post fuel object = do
  spinlock_lock
  s ← get_self
  if not (s.init == 1) then (do spinlock_unlock; pure sem_uninitialized) else do
    set_self (record s { sem_level = increment s.sem_level })
    if not (above_zero (increment s.sem_level)) then (do spinlock_unlock; pure no_err) else do
      (node, err) ← in_heap (delist_data s.waiting_threads)
      if not (node == null)
          then (if not (is_no_err err) then kernel_panic else do
            spinlock_unlock
            err ← unlock_thread fuel node BlockType.sem
            if is_no_err err then pure no_err else kernel_panic)
          else if not (is_no_err err)
          then kernel_panic
          else (do spinlock_unlock; pure no_err)

-- The second part of the result is what is written through `value`, an `int8_t`, if anything is.
unfoldable pub sem_try_pend : Arg → (value : Arg) → Cmd (Kernel Semaphore) (Err × Option ℕ)
sem_try_pend nothing value = pure (null_pointer, none)
sem_try_pend object nothing = pure (null_pointer, none)
sem_try_pend object object = do
  spinlock_lock
  s ← get_self
  if not (s.init == 1)
      then (do spinlock_unlock; pure (sem_uninitialized, none))
      else if below_one s.sem_level
      then (do spinlock_unlock; pure (sem_locked, some (s.sem_level % 2 ^ 8)))
      else if s.init == 1
      then (do
        set_self (record s { sem_level = decrement s.sem_level })
        spinlock_unlock
        pure (no_err, some (decrement s.sem_level % 2 ^ 8)))
      else (do spinlock_unlock; pure (sem_uninitialized, none))
