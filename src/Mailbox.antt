-- ===== src/Mailbox.antt =====
-- comm/mailbox.c: a box for one pointer. The lock's own fields are not used (sync/lock.h defines
-- KERNEL_MONOCORE_SYNC) and are left out. The functions that report through an `OS_RETURN_E*`
-- return the reported state beside their value.
pub mod Pass
pub mod Wait
mod Tests
use awk.Base.{
  ℕ, Bool, true, false, ◌&&◌, not, Option, none, some, List, Ptr, null, ◌==◌, if◌then◌else◌,
}
use awk.Run.{Cmd, ok, pure, ◌>>=◌, ◌>>◌}
use awk.Err.{Err, no_err, null_pointer, mailbox_non_initialized}
use awk.KernelList.{create_list, delete_list}
use awk.Kernel.{
  BlockType, Kernel, Arg, nothing, object, Switch, in_heap, get_self, set_self, kernel_panic,
  spinlock_lock, spinlock_unlock,
}
use awk.Blocking.{is_no_err, blocking_call, wake_one, wake_all}

pub record Mailbox : Type 0 where
  pub value : Ptr
  pub init : ℕ
  pub state : ℕ
  pub read_waiting_threads : Ptr
  pub write_waiting_threads : Ptr

unfoldable pub mailbox_init : Arg → Cmd (Kernel Mailbox) Err
mailbox_init nothing = pure null_pointer
mailbox_init object = do
  set_self (record {
    value = null;
    init = 0;
    state = 0;
    read_waiting_threads = null;
    write_waiting_threads = null;
  })
  (r, err) ← in_heap create_list
  m ← get_self
  set_self (record m { read_waiting_threads = r })
  if not (is_no_err err) then pure err else do
    (w, err) ← in_heap create_list
    m ← get_self
    set_self (record m { write_waiting_threads = w })
    if not (is_no_err err)
        then (do
          (_, r') ← in_heap (delete_list r)
          m ← get_self
          set_self (record m { read_waiting_threads = r' })
          pure err)
        else do m ← get_self; set_self (record m { init = 1 }); pure no_err

-- `mailbox->init == 1 && mailbox->state == 0`
abbrev pub mailbox_is_empty_wait : Cmd (Kernel Mailbox) Bool
mailbox_is_empty_wait = do m ← get_self; pure ((m.init == 1) && (m.state == 0))

-- `mailbox->init == 1 && mailbox->state == 1`
abbrev pub mailbox_is_full_wait : Cmd (Kernel Mailbox) Bool
mailbox_is_full_wait = do m ← get_self; pure ((m.init == 1) && (m.state == 1))

abbrev pub mailbox_is_live : Mailbox → Bool
mailbox_is_live m = m.init == 1

-- `mailbox_pend` and `mailbox_post` behind their loops. `switch` is for the call of `schedule` that
-- follows the waking of a thread.
abbrev pub mailbox_take : (fuel : ℕ) → Switch Mailbox → Cmd (Kernel Mailbox) (Ptr × Err)
mailbox_take fuel switch = do
  m ← get_self
  set_self (record m { state = 0 })
  wake_one fuel switch m.write_waiting_threads BlockType.queue
  pure (m.value, no_err)

abbrev pub mailbox_fill : (fuel : ℕ) → Switch Mailbox → Ptr → Cmd (Kernel Mailbox) Err
mailbox_fill fuel switch element = do
  m ← get_self
  set_self (record m { value = element; state = 1 })
  wake_one fuel switch m.read_waiting_threads BlockType.queue
  pure no_err

unfoldable pub mailbox_pend :
    (fuel : ℕ) → List (Switch Mailbox) → Switch Mailbox → Arg → Cmd (Kernel Mailbox) (Ptr × Err)
mailbox_pend fuel switches switch nothing = pure (null, null_pointer)
mailbox_pend fuel switches switch object =
    blocking_call fuel mailbox_is_empty_wait (λ m. m.read_waiting_threads) BlockType.queue
      mailbox_is_live (do spinlock_unlock; pure (null, mailbox_non_initialized))
      (mailbox_take fuel switch) switches

unfoldable pub mailbox_post :
    (fuel : ℕ) → List (Switch Mailbox) → Switch Mailbox → Arg → Ptr → Cmd (Kernel Mailbox) Err
mailbox_post fuel switches switch nothing element = pure null_pointer
mailbox_post fuel switches switch object element =
    blocking_call fuel mailbox_is_full_wait (λ m. m.write_waiting_threads) BlockType.queue
      mailbox_is_live (do spinlock_unlock; pure mailbox_non_initialized)
      (mailbox_fill fuel switch element) switches

unfoldable pub mailbox_destroy : (fuel rounds : ℕ) → Arg → Cmd (Kernel Mailbox) Err
mailbox_destroy fuel rounds nothing = pure null_pointer
mailbox_destroy fuel rounds object = do
  spinlock_lock
  m ← get_self
  if not (m.init == 1) then (do spinlock_unlock; pure mailbox_non_initialized) else do
    wake_all fuel rounds m.read_waiting_threads BlockType.queue
    wake_all fuel rounds m.write_waiting_threads BlockType.queue
    (err, r) ← in_heap (delete_list m.read_waiting_threads)
    if not (is_no_err err) then kernel_panic else do
      (err, w) ← in_heap (delete_list m.write_waiting_threads)
      if not (is_no_err err) then kernel_panic else do
        set_self
            (record m { read_waiting_threads = r; write_waiting_threads = w; init = 0; state = 0 })
        spinlock_unlock
        pure no_err

-- `none` stands for the result -1.
unfoldable pub mailbox_isempty : Arg → Cmd (Kernel Mailbox) (Option Bool × Err)
mailbox_isempty nothing = pure (none, null_pointer)
mailbox_isempty object = do
  spinlock_lock
  m ← get_self
  if not (m.init == 1)
      then (do spinlock_unlock; pure (none, mailbox_non_initialized))
      else do spinlock_unlock; pure (some (m.state == 0), no_err)
