-- ===== src/Queue/Wait.antt =====
-- The loops of `queue_pend` and `queue_post`: waiting for an element and for room.
use awk.Base.{
  ℕ, ◌-◌, ◌^◌, ◌<◌, ◌≡◌, ◌≢◌, refl, inl, inr, Bool, List, [], ◌∷◌, arith, Ptr, ◌+◌, ◌%◌, Option,
  some, none, get_elem?, set, length as list_length,
}
use awk.Run
use awk.Run.{Cmd, ok, blocked, pure, ◌>>=◌, ◌>>◌}
use awk.Err.{Err, no_err}
use awk.KernelList.{Node, Heap}
use awk.KernelList.Chain.{Entries, insert}
use awk.KernelList.Enlist.{entry, Enlisted}
use awk.Kernel.{BlockType, Thread, Kernel, object, Switch, spinlock_unlock}
use awk.Blocking.{wake_one}
use awk.Blocking.Block.{CanBlock, put_to_wait}
use awk.Blocking.Call.{call-waits, call_ends}
use awk.Queue.{
  Queue, queue_is_empty_wait, queue_is_full_wait, queue_is_live, queue_take, queue_fill, queue_pend,
  queue_post, advance, read_slot, write_slot,
}
use awk.Queue.Pass.{refuse_pend, refuse_post}

module _ {k : Kernel Queue} {x : Thread} {m : Node} {xs : Entries} {n fuel : ℕ}
    (enabled : k.int_lock_nesting ≡ 0) (init : k.self.init ≡ 1) where
  -- With interrupts enabled, `queue_pend` on an initialised, empty queue marks the calling thread as
  -- blocked and joins its node to the threads that wait to read. Not resumed, it does not return;
  -- resumed, it does what a new call would do in the state it is resumed in.
  queue_pend-waits :
      CanBlock k k.self.read_waiting_threads x m xs n fuel
      → k.self.length ≡ 0
      → (switch : Switch Queue)
      → (g : Heap) × Enlisted k.self.read_waiting_threads
          (entry k.active_thread_node m 0)
          xs
          (insert (entry k.active_thread_node m 0) xs)
          n
          k.heap
          g
        × (queue_pend fuel [] switch object k ≡ blocked (put_to_wait k BlockType.queue x g))
        × ((s : Switch Queue) (switches : List (Switch Queue))
            → queue_pend fuel (s ∷ switches) switch object k
              ≡ queue_pend fuel switches switch object (s (put_to_wait k BlockType.queue x g)))
  unfolding queue_pend
  queue_pend-waits c empty switch =
      call-waits fuel queue_is_empty_wait (λ q. q.read_waiting_threads) BlockType.queue
        queue_is_live refuse_pend (queue_take fuel switch) (λ k dead. ground arith) c enabled
        (ground arith) (ground arith)

  -- With interrupts enabled, `queue_post` on an initialised queue whose length is its maximum marks
  -- the calling thread as blocked and joins its node to the threads that wait to post. Not resumed,
  -- it does not return; resumed, it does what a new call would do in the state it is resumed in.
  queue_post-waits :
      CanBlock k k.self.write_waiting_threads x m xs n fuel
      → k.self.length ≡ k.self.max_length
      → (switch : Switch Queue) (v : Ptr)
      → (g : Heap) × Enlisted k.self.write_waiting_threads
          (entry k.active_thread_node m 0)
          xs
          (insert (entry k.active_thread_node m 0) xs)
          n
          k.heap
          g
        × (queue_post fuel [] switch object v k ≡ blocked (put_to_wait k BlockType.queue x g))
        × ((s : Switch Queue) (switches : List (Switch Queue))
            → queue_post fuel (s ∷ switches) switch object v k
              ≡ queue_post fuel switches switch object v (s (put_to_wait k BlockType.queue x g)))
  unfolding queue_post
  queue_post-waits c full switch v =
      call-waits fuel queue_is_full_wait (λ q. q.write_waiting_threads) BlockType.queue
        queue_is_live refuse_post (queue_fill fuel switch v) (λ k dead. ground arith) c enabled
        (ground arith) (ground arith)

queue_is_empty_wait-reads : (k l : Kernel Queue) (w : Bool) → queue_is_empty_wait k ≡ ok w l → l ≡ k
queue_is_empty_wait-reads k l w e = cc

queue_is_full_wait-reads : (k l : Kernel Queue) (w : Bool) → queue_is_full_wait k ≡ ok w l → l ≡ k
queue_is_full_wait-reads k l w e = cc

-- The queue after its tail has moved on, and after `v` is written at its head.
abbrev pub moved_on : Kernel Queue → Kernel Queue
moved_on k = record k {
  self = record (k.self) {
    tail = advance k.self.tail k.self.max_length;
    length = (k.self.length + 2 ^ 32 - 1) % 2 ^ 32;
  };
}

abbrev pub written : Ptr → Kernel Queue → Kernel Queue
written v k = record k {
  self = record (k.self) {
    slots = set k.self.slots k.self.head v;
    head = advance k.self.head k.self.max_length;
    length = (k.self.length + 1) % 2 ^ 32;
  };
}

queue_take-eq-ok :
    (fuel : ℕ) (switch : Switch Queue) (k : Kernel Queue) {t : Kernel Queue} {v : Ptr}
    → queue_take fuel switch k ≡ ok (v, no_err) t
    → (get_elem? k.self.slots k.self.tail ≡ some v)
      × (wake_one fuel switch k.self.write_waiting_threads BlockType.queue (moved_on k) ≡ ok tt t)
unfolding read_slot
queue_take-eq-ok fuel switch k {t} {v} e = held (get_elem? k.self.slots k.self.tail) refl
  where
    held :
        (u : Option Ptr)
        → get_elem? k.self.slots k.self.tail ≡ u
        → (get_elem? k.self.slots k.self.tail ≡ some v)
          × (wake_one fuel switch k.self.write_waiting_threads BlockType.queue (moved_on k)
              ≡ ok tt t)
    held none h = absurd (cc)
    held (some u) h =
        let step : Run.and_then {B = Ptr × Err}
              (wake_one fuel switch k.self.write_waiting_threads BlockType.queue (moved_on k))
              (λ _. pure (u, no_err))
            ≡ ok (v, no_err) t =
          cc in
        let (_, t', woken, end) =
          Run.and_then-eq-ok
            (wake_one fuel switch k.self.write_waiting_threads BlockType.queue (moved_on k))
            (λ _. pure (u, no_err)) step in
        (ground (arith, end), ground (arith, end))

queue_fill-eq-ok :
    (fuel : ℕ) (switch : Switch Queue) (v : Ptr) (k : Kernel Queue) {t : Kernel Queue}
    → queue_fill fuel switch v k ≡ ok no_err t
    → (k.self.head < list_length k.self.slots)
      × (wake_one fuel switch k.self.read_waiting_threads BlockType.queue (written v k) ≡ ok tt t)
unfolding write_slot
queue_fill-eq-ok fuel switch v k {t} e =
    let room : k.self.head < list_length k.self.slots = ground arith in
    let (_, t', woken, end) =
      Run.and_then-eq-ok
        (wake_one fuel switch k.self.read_waiting_threads BlockType.queue (written v k))
        (λ _. pure no_err) {b = no_err} {t = t} (ground arith) in
    (room, cc)

-- Whatever the other threads do while the caller waits, a call of `queue_pend` that succeeds found
-- the queue initialised and not empty in some state, returns what the slot at its tail held there,
-- and ends as the waking of a writer ends once tail and length are moved on.
pub queue_pend_reads :
    (fuel : ℕ) (switches : List (Switch Queue)) (switch : Switch Queue) (k t : Kernel Queue)
    (v : Ptr)
    → queue_pend fuel switches switch object k ≡ ok (v, no_err) t
    → (l : Kernel Queue) × (l.self.init ≡ 1)
      × (l.self.length ≢ 0)
      × (get_elem? l.self.slots l.self.tail ≡ some v)
      × (wake_one fuel switch l.self.write_waiting_threads BlockType.queue (moved_on l) ≡ ok tt t)
unfolding queue_pend spinlock_unlock
queue_pend_reads fuel switches switch k t v e =
    let (l, cases) =
      call_ends fuel queue_is_empty_wait (λ q. q.read_waiting_threads) BlockType.queue queue_is_live
        refuse_pend (queue_take fuel switch) queue_is_empty_wait-reads switches k t (v, no_err) e in
    elim cases [
      | inl refused ↦ absurd (ground (arith, refused))
      | inr (alive, free, taken) ↦
          let (held, woken) = queue_take-eq-ok fuel switch l taken in
          (l, ground arith, ground arith, held, woken)
    ]

-- Whatever the other threads do while the caller waits, a call of `queue_post` that succeeds found
-- the queue initialised and not full in some state, with a slot at its head, and ends as the waking
-- of a reader ends once the element is in that slot and head and length are moved on.
queue_post_writes :
    (fuel : ℕ) (switches : List (Switch Queue)) (switch : Switch Queue) (v : Ptr)
    (k t : Kernel Queue)
    → queue_post fuel switches switch object v k ≡ ok no_err t
    → (l : Kernel Queue) × (l.self.init ≡ 1)
      × (l.self.length ≢ l.self.max_length)
      × (l.self.head < list_length l.self.slots)
      × (wake_one fuel switch l.self.read_waiting_threads BlockType.queue (written v l) ≡ ok tt t)
unfolding queue_post spinlock_unlock
queue_post_writes fuel switches switch v k t e =
    let (l, cases) =
      call_ends fuel queue_is_full_wait (λ q. q.write_waiting_threads) BlockType.queue queue_is_live
        refuse_post (queue_fill fuel switch v) queue_is_full_wait-reads switches k t no_err e in
    elim cases [
      | inl refused ↦ absurd (ground (arith, refused))
      | inr (alive, free, put) ↦
          let (room, woken) = queue_fill-eq-ok fuel switch v l put in
          (l, ground arith, ground arith, room, woken)
    ]
