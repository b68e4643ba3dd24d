-- ===== src/Queue/Pass.antt =====
-- `queue_post` and `queue_pend`: passing pointers through a queue.
use awk.Base.{ℕ, ◌-◌, ◌^◌, ◌<◌, ◌≡◌, List, [], ◌∷◌, ◌++◌, arith, Ptr, null, length as list_length}
use awk.Run.{Cmd, ok, fault, pure, ◌>>◌}
use awk.Err.{Err, no_err, queue_non_initialized}
use awk.KernelList.Chain.{IsList}
use awk.Kernel.{BlockType, Kernel, object, Switch, spinlock_unlock}
use awk.Blocking.{wake_one}
use awk.Blocking.Block.{locked}
use awk.Blocking.Call.{call-goes_on}
use awk.Blocking.WakeOne.{wake_one-nil}
use awk.Queue.{
  Queue, read_slot, write_slot, queue_is_empty_wait, queue_is_full_wait, queue_is_live, queue_take,
  queue_fill, queue_pend, queue_post,
}
use awk.Queue.Content.{
  Contains, with_last, without_first, with_last-Contains, without_first-Contains,
}

abbrev pub refuse_pend : Cmd (Kernel Queue) (Ptr × Err)
refuse_pend = do spinlock_unlock; pure (null, queue_non_initialized)

abbrev pub refuse_post : Cmd (Kernel Queue) Err
refuse_post = do spinlock_unlock; pure queue_non_initialized

-- A call of another function on the queue may be made, and the queue contains `vs`.
pub record Ready (k : Kernel Queue) (vs : List Ptr) : Type 0 where
  pub nest : k.int_lock_nesting < 2 ^ 32 - 1
  pub init : k.self.init ≡ 1
  pub contains : Contains k.self vs

abbrev pub posted : Ptr → Kernel Queue → Kernel Queue
posted v k = record k { self = with_last v k.self }

abbrev pub pended : Kernel Queue → Kernel Queue
pended k = record k { self = without_first k.self }

module _ {k : Kernel Queue} (fuel : ℕ) (switches : List (Switch Queue))
    (switch : Switch Queue) where
  -- What the two functions do with the queue before they look for a thread to wake.
  pub post_puts :
      (v : Ptr) {vs : List Ptr}
      → Ready k vs
      → k.self.head < k.self.max_length
      → queue_post fuel switches switch object v k
        ≡ (do wake_one fuel switch k.self.read_waiting_threads BlockType.queue; pure no_err)
            (posted v (locked k))
  unfolding queue_post write_slot
  post_puts v r room = ground (
    arith,
    r,
    r.contains,
    call-goes_on fuel queue_is_full_wait (λ q. q.write_waiting_threads) BlockType.queue
        queue_is_live refuse_post (queue_fill fuel switch v) switches k r.nest (ground (arith, r))
        (ground (arith, r, r.contains)),
  )

  pub pend_gets :
      {v : Ptr} {vs : List Ptr}
      → Ready k (v ∷ vs)
      → queue_pend fuel switches switch object k
        ≡ (do wake_one fuel switch k.self.write_waiting_threads BlockType.queue; pure (v, no_err))
            (pended (locked k))
  unfolding queue_pend read_slot
  pend_gets r = ground (
    arith,
    r,
    r.contains,
    r.contains.lie,
    call-goes_on fuel queue_is_empty_wait (λ q. q.read_waiting_threads) BlockType.queue
        queue_is_live refuse_pend (queue_take fuel switch) switches k r.nest (ground (arith, r))
        (ground (arith, r, r.contains)),
  )

  -- If the queue contains `vs`, its head is before the end of the array and no thread waits to read,
  -- `queue_post` succeeds at once, and the queue then contains `vs` and the element behind them;
  -- nothing else changes.
  pub queue_post-appends :
      (v : Ptr) {vs : List Ptr} {n : ℕ}
      → Ready k vs
      → IsList k.heap k.self.read_waiting_threads [] n
      → k.self.head < k.self.max_length
      → (queue_post fuel switches switch object v k ≡ ok no_err (posted v k))
        × Ready (posted v k) (vs ++ v ∷ [])
  queue_post-appends v r waiting room = (
    ground (
      arith,
      post_puts v r room,
      wake_one-nil (posted v (locked k)) fuel switch BlockType.queue waiting,
    ),
    record { nest = r.nest; init = r.init; contains = with_last-Contains v r.contains room },
  )

  -- If the queue contains a pointer `v` and then `vs`, and no thread waits to post, `queue_pend`
  -- returns `v` at once with no error, and the queue then contains `vs`; nothing else changes.
  pub queue_pend-first :
      {v : Ptr} {vs : List Ptr} {n : ℕ}
      → Ready k (v ∷ vs)
      → IsList k.heap k.self.write_waiting_threads [] n
      → (queue_pend fuel switches switch object k ≡ ok (v, no_err) (pended k)) × Ready (pended k) vs
  queue_pend-first r waiting = (
    ground
        (arith, pend_gets r, wake_one-nil (pended (locked k)) fuel switch BlockType.queue waiting),
    record { nest = r.nest; init = r.init; contains = without_first-Contains r.contains },
  )

  -- The code wraps its indices one too late: a queue that is not full but whose head has reached the
  -- length of the array is written to beyond the allocated memory.
  pub queue_post_overflows :
      (v : Ptr) {vs : List Ptr}
      → Ready k vs
      → k.self.head ≡ k.self.max_length
      → list_length vs < k.self.max_length
      → queue_post fuel switches switch object v k ≡ fault
  unfolding queue_post write_slot
  queue_post_overflows v r end room = ground (
    arith,
    r,
    r.contains,
    call-goes_on fuel queue_is_full_wait (λ q. q.write_waiting_threads) BlockType.queue
        queue_is_live refuse_post (queue_fill fuel switch v) switches k r.nest (ground (arith, r))
        (ground (arith, r, r.contains)),
  )
