-- ===== src/Interrupts.antt =====
-- The table of interrupt handlers of core/interrupts.c. The kernel's `self` is the table, and a handler
-- is the address of a function. `panic` and `spurious_handler` are the addresses of theirs. What a
-- handler does, and the choice of the interrupt controller, are left out.
pub mod Register
pub mod Reach
mod Tests
use awk.Base.{ℕ, ◌&&◌, ◌||◌, not, Ptr, null, ◌==◌, ltb, leb, if◌then◌else◌}
use awk.Run.{Cmd, ok, pure, ◌>>=◌, ◌>>◌}
use awk.Err.{
  Err, no_err, null_pointer, unauthorized_interrupt_line, interrupt_already_registered,
  interrupt_not_registered,
}
use awk.Kernel.{Kernel, get_self, set_self, spinlock_lock, spinlock_unlock}

pub record CustomHandler : Type 0 where
  pub enabled : ℕ
  pub handler : Ptr

abbrev pub Handlers : Type 0
Handlers = ℕ → CustomHandler

abbrev pub min_interrupt_line : ℕ
min_interrupt_line = 32

abbrev pub idt_entry_count : ℕ
idt_entry_count = 256

abbrev pub max_interrupt_line : ℕ
max_interrupt_line = 254

abbrev pub spurious_int_line : ℕ
spurious_int_line = 255

abbrev pub scheduler_sw_int_line : ℕ
scheduler_sw_int_line = 33

abbrev pub panic_int_line : ℕ
panic_int_line = 42

-- `kernel_interrupt_handlers[line] = …`
abbrev pub put_handler : Handlers → ℕ → CustomHandler → Handlers
put_handler t line x = λ l. if l == line then x else t l

-- The table after `init_kernel_interrupt`, which also sets the nesting to 1.
unfoldable pub init_kernel_interrupt : (panic spurious_handler : Ptr) → Cmd (Kernel Handlers) Err
init_kernel_interrupt panic spurious_handler k = ok no_err (record k {
  self =
      put_handler
        (put_handler
          (λ l.
            if ltb l 32
            then record { enabled = 1; handler = panic }
            else record { enabled = 0; handler = null })
          panic_int_line (record { enabled = 1; handler = panic }))
        spurious_int_line (record { enabled = 1; handler = spurious_handler });
  int_lock_nesting = 1;
})

unfoldable pub register_interrupt_handler : (line : ℕ) → (handler : Ptr) → Cmd (Kernel Handlers) Err
unfolding spinlock_lock spinlock_unlock
register_interrupt_handler line handler =
    if ltb line min_interrupt_line || ltb max_interrupt_line line
    then pure unauthorized_interrupt_line
    else if handler == null
    then pure null_pointer
    else do
      spinlock_lock
      t ← get_self
      if not ((t line).handler == null)
          then (do spinlock_unlock; pure interrupt_already_registered)
          else do
            set_self (put_handler t line (record { enabled = 1; handler = handler }))
            spinlock_unlock
            pure no_err

unfoldable pub remove_interrupt_handler : (line : ℕ) → Cmd (Kernel Handlers) Err
unfolding spinlock_lock spinlock_unlock
remove_interrupt_handler line =
    if ltb line min_interrupt_line || ltb max_interrupt_line line
    then pure unauthorized_interrupt_line
    else do
      spinlock_lock
      t ← get_self
      if (t line).handler == null then (do spinlock_unlock; pure interrupt_not_registered) else do
        set_self (put_handler t line (record { enabled = 0; handler = null }))
        spinlock_unlock
        pure no_err

-- What `kernel_interrupt_handler` does: nothing, or a call.
pub data Dispatch : Type 0 where
  ignored panics : Dispatch
  calls : Ptr → Dispatch

unfoldable pub kernel_interrupt_handler : (int_id : ℕ) → Kernel Handlers → Dispatch
kernel_interrupt_handler int_id k =
    if ltb 0 k.int_lock_nesting
      && not (int_id == panic_int_line)
      && not (int_id == scheduler_sw_int_line)
      && leb min_interrupt_line int_id
    then ignored
    else if ltb int_id idt_entry_count
        && ((k.self int_id).enabled == 1)
        && not ((k.self int_id).handler == null)
    then calls (k.self int_id).handler
    else panics
