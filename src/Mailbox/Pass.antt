-- ===== src/Mailbox/Pass.antt =====
-- `mailbox_post` and `mailbox_pend`: passing a pointer through the box.
use awk.Base.{ℕ, ◌-◌, ◌^◌, ◌<◌, ◌≡◌, refl, List, [], arith, Ptr, null}
use awk.Run.{Cmd, ok, pure, ◌>>◌}
use awk.Err.{Err, no_err, mailbox_non_initialized}
use awk.KernelList.{Heap}
use awk.KernelList.Chain.{Entry, Entries, IsList}
use awk.Kernel.{BlockType, Thread, Kernel, object, Switch, spinlock_unlock}
use awk.Blocking.Block.{locked}
use awk.Blocking.Call.{call-goes_on}
use awk.Blocking.Wake.{Wakeable, Moved, readied}
use awk.Blocking.WakeOne.{Wakeable-still, wake_one-last, wake_one-nil}
use awk.Mailbox.{
  Mailbox, mailbox_is_empty_wait, mailbox_is_full_wait, mailbox_is_live, mailbox_take, mailbox_fill,
  mailbox_pend, mailbox_post,
}

-- The mailbox with a pointer in it, and the mailbox with its pointer taken.
abbrev pub filled : Ptr → Kernel Mailbox → Kernel Mailbox
filled v k = record k { self = record (k.self) { value = v; state = 1 } }

abbrev pub emptied : Kernel Mailbox → Kernel Mailbox
emptied k = record k { self = record (k.self) { state = 0 } }

abbrev pub refuse_pend : Cmd (Kernel Mailbox) (Ptr × Err)
refuse_pend = do spinlock_unlock; pure (null, mailbox_non_initialized)

abbrev pub refuse_post : Cmd (Kernel Mailbox) Err
refuse_post = do spinlock_unlock; pure mailbox_non_initialized

module _ (k : Kernel Mailbox) (fuel : ℕ) (switches : List (Switch Mailbox))
    (switch : Switch Mailbox) (init : k.self.init ≡ 1) where
  -- An empty mailbox that no thread waits to read is filled, and nothing else changes.
  mailbox_post-fills :
      (v : Ptr) {n : ℕ}
      → k.int_lock_nesting < 2 ^ 32 - 1
      → k.self.state ≡ 0
      → IsList k.heap k.self.read_waiting_threads [] n
      → mailbox_post fuel switches switch object v k ≡ ok no_err (filled v k)
  unfolding mailbox_post
  mailbox_post-fills v nest empty waiting = ground (
    arith,
    wake_one-nil (filled v (locked k)) fuel switch BlockType.queue waiting,
    call-goes_on fuel mailbox_is_full_wait (λ m. m.write_waiting_threads) BlockType.queue
        mailbox_is_live refuse_post (mailbox_fill fuel switch v) switches k nest (ground arith)
        (ground arith),
  )

  -- A full mailbox gives its pointer, and is empty then; no thread waits to fill it.
  pub mailbox_pend-takes :
      {n : ℕ}
      → k.int_lock_nesting < 2 ^ 32 - 1
      → k.self.state ≡ 1
      → IsList k.heap k.self.write_waiting_threads [] n
      → mailbox_pend fuel switches switch object k ≡ ok (k.self.value, no_err) (emptied k)
  unfolding mailbox_pend
  mailbox_pend-takes nest full waiting = ground (
    arith,
    wake_one-nil (emptied (locked k)) fuel switch BlockType.queue waiting,
    call-goes_on fuel mailbox_is_empty_wait (λ m. m.read_waiting_threads) BlockType.queue
        mailbox_is_live refuse_pend (mailbox_take fuel switch) switches k nest (ground arith)
        (ground arith),
  )

-- On an initialised, empty mailbox that no thread waits for, `mailbox_post` followed by
-- `mailbox_pend` returns the pointer that was posted with no error, and leaves the mailbox as empty
-- as before; only the stale pointer in it differs.
pub mailbox_pend-post :
    (k : Kernel Mailbox) (fuel : ℕ) (switches : List (Switch Mailbox)) (switch : Switch Mailbox)
    (v : Ptr) {r w : ℕ}
    → k.int_lock_nesting < 2 ^ 32 - 1
    → k.self.init ≡ 1
    → k.self.state ≡ 0
    → IsList k.heap k.self.read_waiting_threads [] r
    → IsList k.heap k.self.write_waiting_threads [] w
    → (do mailbox_post fuel switches switch object v; mailbox_pend fuel switches switch object) k
      ≡ ok (v, no_err) (record k { self = record (k.self) { value = v } })
mailbox_pend-post k fuel switches switch v nest init empty readers writers = ground (
  arith,
  mailbox_post-fills k fuel switches switch init v nest empty readers,
  mailbox_pend-takes (filled v k) fuel switches switch init nest refl writers,
)

module _ {k : Kernel Mailbox} {xs : Entries} {e : Entry} {x : Thread} {ys : Entries} {n m fuel : ℕ}
    (switches : List (Switch Mailbox)) (switch : Switch Mailbox) (init : k.self.init ≡ 1)
    (enabled : k.int_lock_nesting ≡ 0) where
  -- When threads wait to read an initialised, empty mailbox and interrupts are enabled,
  -- `mailbox_post` fills it, moves the thread that waits longest, ready, to its place by priority in
  -- the table of active threads, and then gives way. The lists are apart and the thread is blocked
  -- for a queue.
  mailbox_post-wakes :
      (v : Ptr)
      → Wakeable k k.self.read_waiting_threads BlockType.queue xs e x ys n m fuel
      → k.self.state ≡ 0
      → (g : Heap) × (mailbox_post fuel switches switch object v k
          ≡ ok no_err (switch (readied (filled v k) e x g)))
        × Moved k.self.read_waiting_threads k.active_threads_table e x.priority xs ys n m k.heap g
  unfolding mailbox_post
  mailbox_post-wakes v w empty =
      let new = record (k.self) { value = v; state = 1 } in
      let (g, woken, moved) = wake_one-last (Wakeable-still w 1 new) switch refl in
      (
        g,
        ground (
          arith,
          woken,
          call-goes_on fuel mailbox_is_full_wait (λ m. m.write_waiting_threads) BlockType.queue
              mailbox_is_live refuse_post (mailbox_fill fuel switch v) switches k (omega arith)
              (ground arith) (ground arith),
        ),
        moved,
      )

  -- When threads wait to fill an initialised, full mailbox and interrupts are enabled,
  -- `mailbox_pend` returns its pointer and empties it, moves the thread that waits longest, ready,
  -- to its place by priority in the table of active threads, and then gives way. The lists are apart
  -- and the thread is blocked for a queue.
  mailbox_pend-wakes :
      Wakeable k k.self.write_waiting_threads BlockType.queue xs e x ys n m fuel
      → k.self.state ≡ 1
      → (g : Heap) × (mailbox_pend fuel switches switch object k
          ≡ ok (k.self.value, no_err) (switch (readied (emptied k) e x g)))
        × Moved k.self.write_waiting_threads k.active_threads_table e x.priority xs ys n m k.heap g
  unfolding mailbox_pend
  mailbox_pend-wakes w full =
      let new = record (k.self) { state = 0 } in
      let (g, woken, moved) = wake_one-last (Wakeable-still w 1 new) switch refl in
      (
        g,
        ground (
          arith,
          woken,
          call-goes_on fuel mailbox_is_empty_wait (λ m. m.read_waiting_threads) BlockType.queue
              mailbox_is_live refuse_pend (mailbox_take fuel switch) switches k (omega arith)
              (ground arith) (ground arith),
        ),
        moved,
      )
