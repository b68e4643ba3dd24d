-- ===== src/ThreadInfo.antt =====
-- `get_threads_info` of core/scheduler.c. The names and the times are left out.
pub mod Fill
mod Tests
use awk.Base.{ℕ, zero, suc, ◌+◌, ◌%◌, ◌^◌, List, [], ◌∷◌, Ptr, null, ◌==◌, ltb, if◌then◌else◌}
use awk.Run.{Cmd, ok, pure, ◌>>=◌, ◌>>◌}
use awk.Err.{Err, no_err, null_pointer}
use awk.KernelList.{load_node, load_list}
use awk.Kernel.{
  ThreadState, Thread, Kernel, Arg, nothing, object, in_heap, disable_local_interrupt,
  enable_local_interrupt, load_thread,
}
use awk.Scheduler.{get_kernel}

pub record ThreadInfo : Type 0 where
  pub pid : ℕ
  pub ppid : ℕ
  pub priority : ℕ
  pub state : ThreadState

abbrev pub info_of : Thread → ThreadInfo
info_of t = record { pid = t.pid; ppid = t.ppid; priority = t.priority; state = t.state }

-- `*size` after it was cut to the number of threads; both are bit patterns of an `int32_t`.
abbrev pub cut_size : (size thread_count : ℕ) → ℕ
cut_size size thread_count =
    if ltb ((thread_count + 2 ^ 31) % 2 ^ 32) ((size + 2 ^ 31) % 2 ^ 32) then thread_count else size

-- The rounds of the loop `for(i = 0; cursor != NULL && i < *size; ++i)` that the second test allows.
abbrev pub rounds_for : ℕ → ℕ
rounds_for size = if ltb size (2 ^ 31) then size else 0

module _ {S : Type 0} where
  unfoldable pub fill :
      (rounds : ℕ) → (cursor cursor_thread : Ptr) → Cmd (Kernel S) (List ThreadInfo)
  unfolding load_thread
  fill zero cursor cursor_thread = pure []
  fill (suc rounds) cursor cursor_thread = if cursor == null then pure [] else do
    t ← load_thread cursor_thread
    c ← in_heap (load_node cursor)
    next ← in_heap (load_node c.next)
    rest ← fill rounds c.next next.payload
    pure (info_of t ∷ rest)

  -- `n` is `*size`. The result: the error, what is written through `threads`, and `*size` afterwards.
  unfoldable pub get_threads_info :
      (threads size : Arg) → ℕ → Cmd (Kernel S) (Err × List ThreadInfo × ℕ)
  unfolding disable_local_interrupt enable_local_interrupt load_thread fill
  get_threads_info nothing size n = pure (null_pointer, [], n)
  get_threads_info object nothing n = pure (null_pointer, [], n)
  get_threads_info object object n = do
    disable_local_interrupt
    k ← get_kernel
    let n' = cut_size n k.thread_count
    l ← in_heap (load_list k.global_threads_table)
    first ← in_heap (load_node l.head)
    infos ← fill (rounds_for n') l.head first.payload
    enable_local_interrupt
    pure (no_err, infos, n')
