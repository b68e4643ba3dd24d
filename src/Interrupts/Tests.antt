-- ===== src/Interrupts/Tests.antt =====
-- The theorems on interrupt handlers at a kernel with the first table.
use awk.Base.{ℕ, ◌≡◌, refl, arith}
use awk.Run.{ok}
use awk.Err.{no_err}
use awk.Kernel.{
  BlockType, Kernel, spinlock_lock, spinlock_unlock, disable_local_interrupt,
  enable_local_interrupt,
}
use awk.Interrupts.{
  put_handler, Handlers, calls, panics, init_kernel_interrupt, register_interrupt_handler,
  remove_interrupt_handler, kernel_interrupt_handler,
}
use awk.Interrupts.Register.{register_interrupt_handler-calls}
use awk.Interrupts.Reach.{
  Reach, registered, here, IsSound, init_kernel_interrupt-IsSound, first_handlers,
}
use awk.Samples.{sample_kernel}

abbrev blank : Kernel Handlers
blank = sample_kernel BlockType.sem (first_handlers 700 701)

-- The kernel behind the start, and behind the registration of a handler.
abbrev started : Kernel Handlers
started = record blank { int_lock_nesting = 1 }

abbrev watched : Kernel Handlers
watched = record started {
  self = put_handler (first_handlers 700 701) 48 (record { enabled = 1; handler = 800 });
}

watched-Reach : Reach started watched
unfolding register_interrupt_handler spinlock_lock spinlock_unlock disable_local_interrupt
    enable_local_interrupt
watched-Reach = registered 48 800 no_err here refl

register_interrupt_handler-calls_example :
    (t u : Handlers) × (register_interrupt_handler 48 800 blank
      ≡ ok no_err (record blank { self = t }))
    × (kernel_interrupt_handler 48 (record blank { self = t }) ≡ calls 800)
    × (remove_interrupt_handler 48 (record blank { self = t })
        ≡ ok no_err (record blank { self = u }))
    × (kernel_interrupt_handler 48 (record blank { self = u }) ≡ panics)
    × ((l : ℕ) → u l ≡ blank.self l)
register_interrupt_handler-calls_example =
    register_interrupt_handler-calls blank 48 800 (omega arith) (omega arith) (omega arith) refl
      refl

start : init_kernel_interrupt 700 701 blank ≡ ok no_err started
unfolding init_kernel_interrupt
start = refl

init_kernel_interrupt-IsSound_example : (no_err ≡ no_err) × IsSound 700 watched.self
init_kernel_interrupt-IsSound_example =
    init_kernel_interrupt-IsSound blank started watched 700 701 no_err (omega arith) (omega arith)
      start watched-Reach
