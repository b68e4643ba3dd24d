-- ===== src/Mailbox/Wait.antt =====
-- The loops of `mailbox_pend` and `mailbox_post`: waiting for a full and for an empty box.
use awk.Base.{ℕ, ◌-◌, ◌^◌, ◌<◌, ◌≡◌, ◌≢◌, inl, inr, Bool, List, [], ◌∷◌, arith, Ptr, null}
use awk.Run
use awk.Run.{Cmd, ok, blocked, pure, ◌>>=◌, ◌>>◌}
use awk.Err.{no_err, mailbox_non_initialized}
use awk.KernelList.{Node, Heap}
use awk.KernelList.Chain.{Entries, insert}
use awk.KernelList.Enlist.{entry, Enlisted}
use awk.Kernel.{BlockType, Thread, Kernel, object, Switch, spinlock_unlock}
use awk.Blocking.{wake_one}
use awk.Blocking.Block.{CanBlock, put_to_wait}
use awk.Blocking.Call.{call-refused, call-waits, call_ends}
use awk.Mailbox.{
  Mailbox, mailbox_is_empty_wait, mailbox_is_full_wait, mailbox_is_live, mailbox_take, mailbox_fill,
  mailbox_pend, mailbox_post,
}
use awk.Mailbox.Pass.{filled, emptied, refuse_pend, refuse_post}

module _ {k : Kernel Mailbox} {x : Thread} {m : Node} {xs : Entries} {n fuel : ℕ}
    (enabled : k.int_lock_nesting ≡ 0) (init : k.self.init ≡ 1) where
  -- With interrupts enabled, `mailbox_pend` on an initialised, empty mailbox marks the calling
  -- thread as blocked and joins its node to the threads that wait to read. Not resumed, it does not
  -- return; resumed, it does what a new call would do in the state it is resumed in.
  mailbox_pend-waits :
      CanBlock k k.self.read_waiting_threads x m xs n fuel
      → k.self.state ≡ 0
      → (switch : Switch Mailbox)
      → (g : Heap) × Enlisted k.self.read_waiting_threads
          (entry k.active_thread_node m 0)
          xs
          (insert (entry k.active_thread_node m 0) xs)
          n
          k.heap
          g
        × (mailbox_pend fuel [] switch object k ≡ blocked (put_to_wait k BlockType.queue x g))
        × ((s : Switch Mailbox) (switches : List (Switch Mailbox))
            → mailbox_pend fuel (s ∷ switches) switch object k
              ≡ mailbox_pend fuel switches switch object (s (put_to_wait k BlockType.queue x g)))
  unfolding mailbox_pend
  mailbox_pend-waits c empty switch =
      call-waits fuel mailbox_is_empty_wait (λ m. m.read_waiting_threads) BlockType.queue
        mailbox_is_live refuse_pend (mailbox_take fuel switch) (λ k dead. ground arith) c enabled
        (ground arith) (ground arith)

  -- With interrupts enabled, `mailbox_post` on an initialised, full mailbox marks the calling thread
  -- as blocked and joins its node to the threads that wait to fill it. Not resumed, it does not
  -- return; resumed, it does what a new call would do in the state it is resumed in.
  mailbox_post-waits :
      CanBlock k k.self.write_waiting_threads x m xs n fuel
      → k.self.state ≡ 1
      → (switch : Switch Mailbox) (v : Ptr)
      → (g : Heap) × Enlisted k.self.write_waiting_threads
          (entry k.active_thread_node m 0)
          xs
          (insert (entry k.active_thread_node m 0) xs)
          n
          k.heap
          g
        × (mailbox_post fuel [] switch object v k ≡ blocked (put_to_wait k BlockType.queue x g))
        × ((s : Switch Mailbox) (switches : List (Switch Mailbox))
            → mailbox_post fuel (s ∷ switches) switch object v k
              ≡ mailbox_post fuel switches switch object v (s (put_to_wait k BlockType.queue x g)))
  unfolding mailbox_post
  mailbox_post-waits c full switch v =
      call-waits fuel mailbox_is_full_wait (λ m. m.write_waiting_threads) BlockType.queue
        mailbox_is_live refuse_post (mailbox_fill fuel switch v) (λ k dead. ground arith) c enabled
        (ground arith) (ground arith)

mailbox_is_empty_wait-reads :
    (k l : Kernel Mailbox) (w : Bool) → mailbox_is_empty_wait k ≡ ok w l → l ≡ k
mailbox_is_empty_wait-reads k l w e = cc

mailbox_is_full_wait-reads :
    (k l : Kernel Mailbox) (w : Bool) → mailbox_is_full_wait k ≡ ok w l → l ≡ k
mailbox_is_full_wait-reads k l w e = cc

-- Whatever the other threads do while the caller waits, a call of `mailbox_pend` that succeeds found
-- the mailbox initialised and not empty in some state, returns the pointer that was in it there, and
-- ends as the waking of a writer ends once the mailbox is marked as empty.
pub mailbox_pend_reads :
    (fuel : ℕ) (switches : List (Switch Mailbox)) (switch : Switch Mailbox) (k t : Kernel Mailbox)
    (v : Ptr)
    → mailbox_pend fuel switches switch object k ≡ ok (v, no_err) t
    → (l : Kernel Mailbox) × (l.self.init ≡ 1)
      × (l.self.state ≢ 0)
      × (v ≡ l.self.value)
      × (wake_one fuel switch l.self.write_waiting_threads BlockType.queue (emptied l) ≡ ok tt t)
unfolding mailbox_pend spinlock_unlock
mailbox_pend_reads fuel switches switch k t v e =
    let (l, cases) =
      call_ends fuel mailbox_is_empty_wait (λ m. m.read_waiting_threads) BlockType.queue
        mailbox_is_live refuse_pend (mailbox_take fuel switch) mailbox_is_empty_wait-reads switches
        k t (v, no_err) e in
    elim cases [
      | inl refused ↦ absurd (ground (arith, refused))
      | inr (alive, free, taken) ↦
          let (_, t', woken, end) =
            Run.and_then-eq-ok
              (wake_one fuel switch l.self.write_waiting_threads BlockType.queue (emptied l))
              (λ _. pure (l.self.value, no_err)) taken in
          (l, ground arith, ground arith, ground (arith, end), ground (arith, end))
    ]

-- Whatever the other threads do while the caller waits, a call of `mailbox_post` that succeeds found
-- the mailbox initialised and not full in some state, and ends as the waking of a reader ends once
-- the element is in the mailbox and the mailbox is marked as full.
mailbox_post_writes :
    (fuel : ℕ) (switches : List (Switch Mailbox)) (switch : Switch Mailbox) (v : Ptr)
    (k t : Kernel Mailbox)
    → mailbox_post fuel switches switch object v k ≡ ok no_err t
    → (l : Kernel Mailbox) × (l.self.init ≡ 1)
      × (l.self.state ≢ 1)
      × (wake_one fuel switch l.self.read_waiting_threads BlockType.queue (filled v l) ≡ ok tt t)
unfolding mailbox_post spinlock_unlock
mailbox_post_writes fuel switches switch v k t e =
    let (l, cases) =
      call_ends fuel mailbox_is_full_wait (λ m. m.write_waiting_threads) BlockType.queue
        mailbox_is_live refuse_post (mailbox_fill fuel switch v) mailbox_is_full_wait-reads switches
        k t no_err e in
    elim cases [
      | inl refused ↦ absurd (ground (arith, refused))
      | inr (alive, free, put) ↦
          let (_, t', woken, end) =
            Run.and_then-eq-ok
              (wake_one fuel switch l.self.read_waiting_threads BlockType.queue (filled v l))
              (λ _. pure no_err) put in
          (l, ground arith, ground arith, ground (arith, end))
    ]

-- On a mailbox that is not initialised, with the interrupts' nesting below its bound, `mailbox_pend`
-- and `mailbox_post` return OS_ERR_MAILBOX_NON_INITIALIZED, the former with `NULL`, and leave the
-- kernel as it was.
mailbox_uninitialized_lem :
    (k : Kernel Mailbox) (fuel : ℕ) (switches : List (Switch Mailbox)) (switch : Switch Mailbox)
    (v : Ptr)
    → k.int_lock_nesting < 2 ^ 32 - 1
    → k.self.init ≢ 1
    → (mailbox_pend fuel switches switch object k ≡ ok (null, mailbox_non_initialized) k)
      × (mailbox_post fuel switches switch object v k ≡ ok mailbox_non_initialized k)
unfolding mailbox_pend mailbox_post spinlock_unlock
mailbox_uninitialized_lem k fuel switches switch v nest dead = (
  ground (
    arith,
    call-refused fuel mailbox_is_empty_wait (λ m. m.read_waiting_threads) BlockType.queue
        mailbox_is_live refuse_pend (mailbox_take fuel switch) switches k nest (ground arith),
  ),
  ground (
    arith,
    call-refused fuel mailbox_is_full_wait (λ m. m.write_waiting_threads) BlockType.queue
        mailbox_is_live refuse_post (mailbox_fill fuel switch v) switches k nest (ground arith),
  ),
)
