-- ===== src/Interrupts/Register.antt =====
-- Registering a handler and removing it.
use awk.Base.{ℕ, ◌≤◌, ◌≡◌, ◌≢◌, arith, Ptr, null}
use awk.Run.{ok}
use awk.Err.{no_err}
use awk.Kernel.{
  Kernel, disable_local_interrupt, enable_local_interrupt, spinlock_lock, spinlock_unlock,
}
use awk.Interrupts.{
  Handlers, put_handler, register_interrupt_handler, remove_interrupt_handler, calls, panics,
  kernel_interrupt_handler,
}

-- For a line from 32 to 254 without a handler, and interrupts enabled, `register_interrupt_handler`
-- with a handler that is not `NULL` succeeds, and an interrupt on the line then calls that handler;
-- `remove_interrupt_handler` then succeeds, an interrupt on the line panics, and the table is as it
-- was at every line.
pub register_interrupt_handler-calls :
    (k : Kernel Handlers) (line : ℕ) (h : Ptr)
    → 32 ≤ line
    → line ≤ 254
    → h ≢ null
    → k.self line ≡ record { enabled = 0; handler = null }
    → k.int_lock_nesting ≡ 0
    → (t u : Handlers) × (register_interrupt_handler line h k ≡ ok no_err (record k { self = t }))
      × (kernel_interrupt_handler line (record k { self = t }) ≡ calls h)
      × (remove_interrupt_handler line (record k { self = t }) ≡ ok no_err (record k { self = u }))
      × (kernel_interrupt_handler line (record k { self = u }) ≡ panics)
      × ((l : ℕ) → u l ≡ k.self l)
unfolding register_interrupt_handler remove_interrupt_handler kernel_interrupt_handler spinlock_lock
    spinlock_unlock disable_local_interrupt enable_local_interrupt
register_interrupt_handler-calls k line h low high ne blank enabled =
    let t = put_handler k.self line (record { enabled = 1; handler = h }) in
    let u = put_handler t line (record { enabled = 0; handler = null }) in
    (
      t,
      u,
      ground (arith, blank, enabled),
      ground (arith, enabled),
      ground (arith, enabled),
      ground (arith, enabled),
      λ l. ground (arith, blank),
    )
