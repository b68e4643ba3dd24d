-- ===== src/Queue.antt =====
-- comm/queue.c: a queue of pointers in an array. The lock's own fields are not used (sync/lock.h
-- defines KERNEL_MONOCORE_SYNC) and are left out. The functions that report through an
-- `OS_RETURN_E*` return the reported state beside their value.
pub mod Content
pub mod Pass
pub mod Fifo
pub mod Wait
pub mod Wake
pub mod Init
mod Tests
use awk.Base.{
  ℕ, ◌+◌, ◌-◌, ◌*◌, ◌/◌, ◌%◌, ◌^◌, Bool, ◌&&◌, not, Option, none, some, List, [], Ptr, null, ◌==◌,
  ltb, leb, if◌then◌else◌, length as list_length, get_elem?, set, replicate,
}
use awk.Run.{Cmd, ok, fault, pure, ◌>>=◌, ◌>>◌}
use awk.Err.{Err, no_err, null_pointer, malloc_failed, queue_non_initialized}
use awk.KernelList.{kmalloc, create_list, delete_list}
use awk.Kernel.{
  BlockType, Kernel, Arg, nothing, object, Switch, in_heap, get_self, set_self, kernel_panic,
  spinlock_lock, spinlock_unlock,
}
use awk.Blocking.{is_no_err, blocking_call, wake_one, wake_all}

-- `slots` is the memory that `container` points at: as many pointers as were allocated.
pub record Queue : Type 0 where
  pub head : ℕ
  pub tail : ℕ
  pub max_length : ℕ
  pub length : ℕ
  pub container : Ptr
  pub slots : List Ptr
  pub init : ℕ
  pub read_waiting_threads : Ptr
  pub write_waiting_threads : Ptr

-- `container[i]`, read and written. Beyond the allocated memory both are faults.
unfoldable pub read_slot : ℕ → Cmd (Kernel Queue) Ptr
read_slot i k = elim (get_elem? (k.self.slots) i) [ none ↦ fault | some v ↦ ok v k ]

unfoldable pub write_slot : ℕ → Ptr → Cmd (Kernel Queue) (Unit {0})
write_slot i v k =
    if ltb i (list_length k.self.slots)
    then ok tt (record k { self = record (k.self) { slots = set k.self.slots i v } })
    else fault

-- `sizeof(void*) * length`, in 32 bits, over the size of a pointer: how many pointers `kmalloc`
-- is asked for.
abbrev pub slots_for : ℕ → ℕ
slots_for length = (4 * length) % 2 ^ 32 / 4

-- Managing an index after its use.
abbrev pub advance : (index max_length : ℕ) → ℕ
advance index max_length = if leb max_length index then 0 else index + 1

abbrev pub cleared_queue : Queue
cleared_queue = record {
  head = 0;
  tail = 0;
  max_length = 0;
  length = 0;
  container = null;
  slots = [];
  init = 0;
  read_waiting_threads = null;
  write_waiting_threads = null;
}

-- `garbage` is what the allocated memory holds.
unfoldable pub queue_init : (garbage : Ptr) → Arg → ℕ → Cmd (Kernel Queue) Err
queue_init garbage nothing length = pure null_pointer
queue_init garbage object length = do
  set_self cleared_queue
  c ← in_heap kmalloc
  if c == null then pure malloc_failed else do
    set_self (record cleared_queue {
      container = c;
      slots = replicate (slots_for length) garbage;
      max_length = length;
    })
    (r, err) ← in_heap create_list
    q ← get_self
    set_self (record q { read_waiting_threads = r })
    if not (is_no_err err) then pure err else do
      (w, err) ← in_heap create_list
      q ← get_self
      set_self (record q { write_waiting_threads = w })
      if not (is_no_err err)
          then (do
            (_, r') ← in_heap (delete_list r)
            q ← get_self
            set_self (record q { read_waiting_threads = r' })
            pure err)
          else do q ← get_self; set_self (record q { init = 1 }); pure no_err

-- `queue->init == 1 && queue->length == 0`
abbrev pub queue_is_empty_wait : Cmd (Kernel Queue) Bool
queue_is_empty_wait = do q ← get_self; pure ((q.init == 1) && (q.length == 0))

-- `queue->init == 1 && queue->length == queue->max_length`
abbrev pub queue_is_full_wait : Cmd (Kernel Queue) Bool
queue_is_full_wait = do q ← get_self; pure ((q.init == 1) && (q.length == q.max_length))

abbrev pub queue_is_live : Queue → Bool
queue_is_live q = q.init == 1

-- `queue_pend` and `queue_post` behind their loops. `switch` is for the call of `schedule` that
-- follows the waking of a thread.
abbrev pub queue_take : (fuel : ℕ) → Switch Queue → Cmd (Kernel Queue) (Ptr × Err)
queue_take fuel switch = do
  q ← get_self
  v ← read_slot q.tail
  set_self
      (record q { tail = advance q.tail q.max_length; length = (q.length + 2 ^ 32 - 1) % 2 ^ 32 })
  wake_one fuel switch q.write_waiting_threads BlockType.queue
  pure (v, no_err)

abbrev pub queue_fill : (fuel : ℕ) → Switch Queue → Ptr → Cmd (Kernel Queue) Err
queue_fill fuel switch element = do
  q ← get_self
  write_slot q.head element
  q ← get_self
  set_self (record q { head = advance q.head q.max_length; length = (q.length + 1) % 2 ^ 32 })
  wake_one fuel switch q.read_waiting_threads BlockType.queue
  pure no_err

unfoldable pub queue_pend :
    (fuel : ℕ) → List (Switch Queue) → Switch Queue → Arg → Cmd (Kernel Queue) (Ptr × Err)
queue_pend fuel switches switch nothing = pure (null, null_pointer)
queue_pend fuel switches switch object =
    blocking_call fuel queue_is_empty_wait (λ q. q.read_waiting_threads) BlockType.queue
      queue_is_live (do spinlock_unlock; pure (null, queue_non_initialized))
      (queue_take fuel switch) switches

unfoldable pub queue_post :
    (fuel : ℕ) → List (Switch Queue) → Switch Queue → Arg → Ptr → Cmd (Kernel Queue) Err
queue_post fuel switches switch nothing element = pure null_pointer
queue_post fuel switches switch object element =
    blocking_call fuel queue_is_full_wait (λ q. q.write_waiting_threads) BlockType.queue
      queue_is_live (do spinlock_unlock; pure queue_non_initialized)
      (queue_fill fuel switch element) switches

-- `kfree(queue->container)` gives the memory back; the pointer keeps its value.
unfoldable pub queue_destroy : (fuel rounds : ℕ) → Arg → Cmd (Kernel Queue) Err
queue_destroy fuel rounds nothing = pure null_pointer
queue_destroy fuel rounds object = do
  spinlock_lock
  q ← get_self
  if not (q.init == 1) then (do spinlock_unlock; pure queue_non_initialized) else do
    wake_all fuel rounds q.read_waiting_threads BlockType.queue
    wake_all fuel rounds q.write_waiting_threads BlockType.queue
    (err, r) ← in_heap (delete_list q.read_waiting_threads)
    if not (is_no_err err) then kernel_panic else do
      (err, w) ← in_heap (delete_list q.write_waiting_threads)
      if not (is_no_err err) then kernel_panic else do
        set_self (record cleared_queue {
          container = q.container;
          read_waiting_threads = r;
          write_waiting_threads = w;
        })
        spinlock_unlock
        pure no_err

-- `none` stands for the result -1; the number is the bit pattern of the `int32_t`.
unfoldable pub queue_length : Arg → Cmd (Kernel Queue) (Option ℕ × Err)
queue_length nothing = pure (none, null_pointer)
queue_length object = do
  spinlock_lock
  q ← get_self
  if not (q.init == 1)
      then (do spinlock_unlock; pure (none, queue_non_initialized))
      else do spinlock_unlock; pure (some q.length, no_err)

-- A length of 2^32 - 1 reads as -1.
unfoldable pub queue_isempty : Arg → Cmd (Kernel Queue) (Option Bool × Err)
unfolding queue_length
queue_isempty queue = do
  (size, err) ← queue_length queue
  pure (elim size [ none ↦ none | some n ↦ if n == 2 ^ 32 - 1 then none else some (n == 0) ], err)
