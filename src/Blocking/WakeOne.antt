-- ===== src/Blocking/WakeOne.antt =====
-- `wake_one`: the end of the posting and pending functions of comm/.
use awk.Base.{ℕ, ◌-◌, ◌≡◌, [], arith, Ptr}
use awk.Run.{ok}
use awk.KernelList.{Heap}
use awk.KernelList.Chain.{Entry, Entries, IsList}
use awk.KernelList.Delist.{delist-nil}
use awk.Kernel.{BlockType, Thread, Kernel, Switch, schedule}
use awk.Blocking.{wake_one}
use awk.Blocking.Wake.{Wakeable, Moved, readied, wake_last}

module _ {S : Type 0} {k : Kernel S} {l : Ptr} {b : BlockType} {xs : Entries} {e : Entry}
    {x : Thread} {ys : Entries} {n m fuel : ℕ} (w : Wakeable k l b xs e x ys n m fuel) where
  -- What a thread to wake is does not depend on the nesting of disabled interrupts nor on the object.
  pub Wakeable-still :
      (c : ℕ) (s : S)
      → Wakeable (record k { int_lock_nesting = c; self = s }) l b xs e x ys n m fuel
  Wakeable-still c s = record {
    waiting = w.waiting;
    active = w.active;
    ne = w.ne;
    apart = w.apart;
    thread = record {
      ne_null = w.thread.ne_null;
      ne_idle = w.thread.ne_idle;
      holds = w.thread.holds;
      blocked = w.thread.blocked;
      reason = w.thread.reason;
    };
    room = w.room;
  }

  -- `wake_one` with a thread that waits.
  pub wake_one-last :
      (switch : Switch S)
      → k.int_lock_nesting ≡ 1
      → (g : Heap) × (wake_one fuel switch l b k
          ≡ ok tt (switch (readied (record k { int_lock_nesting = 0 }) e x g)))
        × Moved l k.active_threads_table e x.priority xs ys n m k.heap g
  unfolding wake_one schedule
  wake_one-last switch once =
      let (g1, g2, took, e_ne, woken, moved) = wake_last w in
      (g2, ground (arith, took, e_ne, woken 0 k.self (omega arith)), moved)

-- `wake_one` with none.
pub wake_one-nil :
    {S : Type 0} (k : Kernel S) {l : Ptr} {n : ℕ} (fuel : ℕ) (switch : Switch S) (b : BlockType)
    → IsList k.heap l [] n
    → wake_one fuel switch l b k ≡ ok tt (record k { int_lock_nesting = k.int_lock_nesting - 1 })
unfolding wake_one
wake_one-nil k fuel switch b waiting = rw (delist-nil waiting)
