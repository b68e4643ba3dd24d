-- ===== src/Blocking/WakeAll.antt =====
-- `wake_all`: the loops of the destroying functions.
use awk.Base.{ℕ, zero, suc, ◌+◌, ◌-◌, ◌%◌, ◌^◌, ◌<◌, ◌≡◌, refl, ◌∙◌, [], ◌∷◌, arith, Ptr, length}
use awk.Run.{ok}
use awk.KernelList.{Heap}
use awk.KernelList.Chain.{Entry, Entries, insert}
use awk.KernelList.Splice.{Distinct-of_append}
use awk.KernelList.Unlink.{loose}
use awk.KernelList.Enlist.{entry}
use awk.KernelList.Delist.{delist-nil}
use awk.Kernel.{BlockType, Thread, Kernel}
use awk.Blocking.{wake_all, unlock_thread}
use awk.Blocking.Wake.{readied, Wakeable, Moved, wake_last}
use awk.Blocking.Waiters.{
  Waiters, queue_of, Waits, Woken, AllBlocked-frame, length-insert, still-Apart,
}

module _ {S : Type 0} (l : Ptr) (b : BlockType) (fuel : ℕ) where
  -- The state after the first of the waiting threads has become ready.
  next_Waits :
      (k : Kernel S) (e : Entry) (x : Thread) (es : Waiters) (ys : Entries) (n m : ℕ) (g : Heap)
      → Waits k l b ((e, x) ∷ es) ys n m fuel
      → Moved l k.active_threads_table e x.priority (queue_of es) ys n m k.heap g
      → Waits
          (readied k e x g)
          l
          b
          es
          (insert (entry e.at (loose e) x.priority) ys)
          ((n + 2 ^ 32 - 1) % 2 ^ 32)
          ((m + 1) % 2 ^ 32)
          fuel
  next_Waits k e x es ys n m g w moved = record {
    waiting = moved.from;
    active = moved.to;
    ne = w.ne;
    apart =
        still-Apart e x.priority (queue_of es) ys
          (ground (arith, (Distinct-of_append (queue_of es) (e ∷ []) w.waiting.distinct).2 e.at))
          w.apart;
    threads = AllBlocked-frame k b e x g es w.threads.1 w.threads.2;
    room = omega (arith, w.room, length-insert (entry e.at (loose e) x.priority) ys);
  }

  first_Wakeable :
      (k : Kernel S) (e : Entry) (x : Thread) (es : Waiters) (ys : Entries) (n m : ℕ)
      → Waits k l b ((e, x) ∷ es) ys n m fuel
      → Wakeable k l b (queue_of es) e x ys n m fuel
  first_Wakeable k e x es ys n m w = record {
    waiting = w.waiting;
    active = w.active;
    ne = w.ne;
    apart = w.apart;
    thread = w.threads.0;
    room = omega (arith, w.room);
  }

  -- With more rounds than threads that wait, the loop ends: every waiting thread is ready, in the order
  -- of waiting put at its own priority in the table of active threads, and none waits; the other
  -- threads, the nesting of disabled interrupts and the object are as before.
  pub wake_all_lem :
      (rounds : ℕ) (k : Kernel S) (es : Waiters) (ys : Entries) {n m : ℕ}
      → Waits k l b es ys n m fuel
      → k.int_lock_nesting < 2 ^ 32 - 1
      → length es < rounds
      → (t : Kernel S) × (wake_all fuel rounds l b k ≡ ok tt t) × Woken k l es ys t
  unfolding wake_all unlock_thread
  wake_all_lem zero k es ys w nest enough = absurd (omega arith)
  wake_all_lem (suc rounds) k [] ys {n} {m} w nest enough = (
    k,
    rw (delist-nil w.waiting),
    record {
      waiting = (n, w.waiting);
      active = (m, w.active);
      ready = tt;
      others = λ p o. refl;
      nesting = refl;
      self = refl;
    },
  )
  wake_all_lem (suc rounds) k ((e, x) ∷ es) ys {n} {m} w nest enough =
      let (g1, g, took, e_ne, woken, moved) = wake_last (first_Wakeable k e x es ys n m w) in
      let (t, run, end) =
        wake_all_lem rounds (readied k e x g) es (insert (entry e.at (loose e) x.priority) ys)
          (next_Waits k e x es ys n m g w moved) nest (omega arith) in
      (
        t,
        ground (arith, took, e_ne, woken k.int_lock_nesting k.self nest, run),
        record {
          waiting = end.waiting;
          active = end.active;
          ready = (end.others e.payload w.threads.1 ∙ ground arith, end.ready);
          others = λ p o. end.others p o.1 ∙ ground (arith, o.0);
          nesting = end.nesting;
          self = end.self;
        },
      )
