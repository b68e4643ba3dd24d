-- ===== src/Queue/Wake.antt =====
-- `queue_post` and `queue_pend` on a queue that other threads wait for.
use awk.Base.{ℕ, ◌<◌, ◌≡◌, refl, List, ◌∷◌, arith, Ptr}
use awk.Run.{ok}
use awk.Err.{no_err}
use awk.KernelList.{Heap}
use awk.KernelList.Chain.{Entry, Entries}
use awk.Kernel.{BlockType, Thread, Kernel, object, Switch}
use awk.Blocking.Wake.{Wakeable, Moved, readied}
use awk.Blocking.WakeOne.{Wakeable-still, wake_one-last}
use awk.Queue.{Queue, queue_pend, queue_post}
use awk.Queue.Content.{with_last, without_first}
use awk.Queue.Pass.{Ready, posted, pended, post_puts, pend_gets}

module _ {k : Kernel Queue} {xs : Entries} {e : Entry} {x : Thread} {ys : Entries} {n m fuel : ℕ}
    (switches : List (Switch Queue)) (switch : Switch Queue)
    (enabled : k.int_lock_nesting ≡ 0) where
  -- When threads wait to read a queue whose head is before the end of the array, and interrupts are
  -- enabled, `queue_post` puts the element in, moves the thread that waits longest, ready, to its
  -- place by priority in the table of active threads, and then gives way. The lists are apart and
  -- the thread is blocked for a queue.
  queue_post-wakes :
      (v : Ptr) {vs : List Ptr}
      → Wakeable k k.self.read_waiting_threads BlockType.queue xs e x ys n m fuel
      → Ready k vs
      → k.self.head < k.self.max_length
      → (g : Heap) × (queue_post fuel switches switch object v k
          ≡ ok no_err (switch (readied (posted v k) e x g)))
        × Moved k.self.read_waiting_threads k.active_threads_table e x.priority xs ys n m k.heap g
  queue_post-wakes v w r room =
      let (g, woken, moved) = wake_one-last (Wakeable-still w 1 (with_last v k.self)) switch refl in
      (g, ground (arith, woken, post_puts {k = k} fuel switches switch v r room), moved)

  -- When threads wait to post to a queue that is not empty, and interrupts are enabled, `queue_pend`
  -- returns the oldest pointer and takes it out, moves the thread that waits longest, ready, to its
  -- place by priority in the table of active threads, and then gives way. The lists are apart and
  -- the thread is blocked for a queue.
  queue_pend-wakes :
      {v : Ptr} {vs : List Ptr}
      → Wakeable k k.self.write_waiting_threads BlockType.queue xs e x ys n m fuel
      → Ready k (v ∷ vs)
      → (g : Heap) × (queue_pend fuel switches switch object k
          ≡ ok (v, no_err) (switch (readied (pended k) e x g)))
        × Moved k.self.write_waiting_threads k.active_threads_table e x.priority xs ys n m k.heap g
  queue_pend-wakes w r =
      let (g, woken, moved) =
        wake_one-last (Wakeable-still w 1 (without_first k.self)) switch refl in
      (g, ground (arith, woken, pend_gets {k = k} fuel switches switch r), moved)
