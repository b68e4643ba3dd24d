-- ===== src/Blocking/Block.antt =====
-- Blocking the calling thread, and the waiting loop.
use awk.Base.{
  ℕ, ◌+◌, ◌-◌, ◌^◌, ◌<◌, ◌≡◌, ◌≢◌, Bool, true, false, some, List, [], ◌∷◌, arith, Ptr, null, update,
  length, if◌then◌else◌,
}
use awk.Run
use awk.Run.{Cmd, ok, blocked, pure, ◌>>◌}
use awk.Err.{no_err}
use awk.KernelList.{Node, Heap, enlist_data}
use awk.KernelList.Steps.{Points}
use awk.KernelList.Chain.{Entries, has, IsList, insert}
use awk.KernelList.Enlist.{entry, Enlisted, enlist-insert}
use awk.Kernel.{
  ThreadState, BlockType, Thread, Kernel, Switch, schedule, schedule_away, spinlock_lock,
}
use awk.Blocking.{lock_thread, block_on, wait_while}

-- The state in which a thread can be blocked: the calling thread `x` is not the idle thread, its
-- node `m` is in no list, and `xs` wait in the list `l` already.
pub record CanBlock {S : Type 0} (k : Kernel S) (l : Ptr) (x : Thread) (m : Node) (xs : Entries)
    (n fuel : ℕ) : Type 0 where
  pub ne_idle : k.active_thread ≢ k.idle_thread
  pub ne_null : k.active_thread ≢ null
  pub holds : k.thread k.active_thread ≡ some x
  pub node : Points k.heap k.active_thread_node m
  pub waiting : IsList k.heap l xs n
  pub out : has k.active_thread_node xs ≡ false
  pub room : length xs < fuel

-- The kernel with an object's lock held.
abbrev pub locked : {S : Type 0} → Kernel S → Kernel S
locked k = record k { int_lock_nesting = k.int_lock_nesting + 1 }

pub lock_lem :
    {S : Type 0} (k : Kernel S)
    → k.int_lock_nesting < 2 ^ 32 - 1
    → spinlock_lock k ≡ ok tt (locked k)
unfolding spinlock_lock
lock_lem k nest = ground arith

-- The calling thread is blocked for reason `b`, and the lists are those of `g`.
abbrev pub put_to_wait : {S : Type 0} → Kernel S → BlockType → Thread → Heap → Kernel S
put_to_wait k b x g = record k {
  heap = g;
  thread =
      update k.thread k.active_thread
        (some (record x { state = ThreadState.blocked_state; block_type = b }));
}

module _ {S : Type 0} {k : Kernel S} {x : Thread} {m : Node} {xs : Entries} {n fuel : ℕ}
    (waiters : S → Ptr) (b : BlockType) (c : CanBlock k (waiters k.self) x m xs n fuel)
    (nest : k.int_lock_nesting < 2 ^ 32 - 2) where
  block_on_lem :
      (g : Heap) × (block_on fuel waiters b (locked k) ≡ ok tt (put_to_wait k b x g))
      × Enlisted
          (waiters k.self)
          (entry k.active_thread_node m 0)
          xs
          (insert (entry k.active_thread_node m 0) xs)
          n
          k.heap
          g
  unfolding block_on lock_thread
  block_on_lem =
      let (r, g, run, (fine, put)) =
        Run.outcome (enlist-insert c.node fuel 0 xs c.waiting c.out c.room) in
      let run' : enlist_data fuel k.active_thread_node (waiters k.self) 0 k.heap ≡ ok no_err g =
        cc in
      (g, ground (arith, run', c, c.node.ne_null), put)

module _ {S : Type 0} (fuel : ℕ) (must_wait : Cmd (Kernel S) Bool) (waiters : S → Ptr)
    (b : BlockType) {k : Kernel S} where
  -- Nothing to wait for.
  pub wait_while-false :
      (switches : List (Switch S))
      → must_wait k ≡ ok false k
      → wait_while fuel must_wait waiters b switches k ≡ ok tt k
  unfolding wait_while
  wait_while-false [] e = rw e
  wait_while-false (switch ∷ switches) e = rw e

  -- A thread that has to wait is blocked; once resumed, it locks the object and tests again.
  wait_while-true :
      {w : Kernel S}
      → must_wait k ≡ ok true k
      → block_on fuel waiters b k ≡ ok tt w
      → w.int_lock_nesting ≡ 0
      → (wait_while fuel must_wait waiters b [] k ≡ blocked w)
        × ((switch : Switch S) (switches : List (Switch S))
            → wait_while fuel must_wait waiters b (switch ∷ switches) k
              ≡ Run.and_then
                  (spinlock_lock (switch w))
                  (λ _. wait_while fuel must_wait waiters b switches))
  unfolding wait_while schedule schedule_away
  wait_while-true e blocks free = (rw (e, blocks, free), λ switch switches. rw (e, blocks, free))

-- The two together: a thread that locks the object and has to wait.
pub locked_wait :
    {S : Type 0} {k : Kernel S} {x : Thread} {m : Node} {xs : Entries} {n fuel : ℕ}
    (must_wait : Cmd (Kernel S) Bool) (waiters : S → Ptr) (b : BlockType)
    → CanBlock k (waiters k.self) x m xs n fuel
    → k.int_lock_nesting ≡ 0
    → must_wait (locked k) ≡ ok true (locked k)
    → (g : Heap) × Enlisted
        (waiters k.self)
        (entry k.active_thread_node m 0)
        xs
        (insert (entry k.active_thread_node m 0) xs)
        n
        k.heap
        g
      × (wait_while fuel must_wait waiters b [] (locked k) ≡ blocked (put_to_wait k b x g))
      × ((switch : Switch S) (switches : List (Switch S))
          → wait_while fuel must_wait waiters b (switch ∷ switches) (locked k)
            ≡ Run.and_then
                (spinlock_lock (switch (put_to_wait k b x g)))
                (λ _. wait_while fuel must_wait waiters b switches))
locked_wait {k} {fuel} must_wait waiters b c free waits =
    let (g, blocks, put) = block_on_lem waiters b c (omega arith) in
    let loop = wait_while-true fuel must_wait waiters b {k = locked k} waits blocks free in
    (g, put, loop.0, loop.1)

pub away-ne-ok : {S A : Type 0} (k l : Kernel S) (a : A) → schedule_away k ≢ ok a l
unfolding schedule_away
away-ne-ok k l a = ground arith

-- The loop is left only when there is nothing to wait for, whatever the other threads do meanwhile.
module _ {S : Type 0} (fuel : ℕ) (must_wait : Cmd (Kernel S) Bool) (waiters : S → Ptr)
    (b : BlockType) (reads : (k l : Kernel S) (w : Bool) → must_wait k ≡ ok w l → l ≡ k) where
  stopped :
      (k k1 l : Kernel S)
      → must_wait k ≡ ok false k1
      → pure {S = Kernel S} {A = Unit {0}} tt k1 ≡ ok tt l
      → must_wait l ≡ ok false l
  stopped k k1 l tested e = cc (reads k k1 false tested)

  pub wait_while_ends :
      (switches : List (Switch S)) (k l : Kernel S)
      → wait_while fuel must_wait waiters b switches k ≡ ok tt l
      → must_wait l ≡ ok false l
  unfolding wait_while
  wait_while_ends [] k l e =
      let (w, k1, tested, rest) = Run.and_then-eq-ok (must_wait k) _ e in leave w k1 tested rest
    where
      leave :
          (w : Bool) (k1 : Kernel S)
          → must_wait k ≡ ok w k1
          → (if w then (block_on fuel waiters b >> schedule_away) else pure tt) k1 ≡ ok tt l
          → must_wait l ≡ ok false l
      leave true k1 tested rest =
          let (_, k2, _, gone) =
            Run.and_then-eq-ok (block_on fuel waiters b k1) (λ _. schedule_away) rest in
          absurd (away-ne-ok k2 l tt gone)
      leave false k1 tested rest = stopped k k1 l tested rest
  wait_while_ends (switch ∷ switches) k l e =
      let (w, k1, tested, rest) = Run.and_then-eq-ok (must_wait k) _ e in
      leave w k1 tested rest λ k2 again. wait_while_ends switches k2 l again
    where
      leave :
          (w : Bool) (k1 : Kernel S)
          → must_wait k ≡ ok w k1
          → (if w
                then (block_on fuel waiters b
                    >> (schedule switch
                        >> (spinlock_lock >> wait_while fuel must_wait waiters b switches)))
                else pure tt)
              k1
            ≡ ok tt l
          → ((k2 : Kernel S)
              → wait_while fuel must_wait waiters b switches k2 ≡ ok tt l
              → must_wait l ≡ ok false l)
          → must_wait l ≡ ok false l
      leave true k1 tested rest again =
          let loop = wait_while fuel must_wait waiters b switches in
          let (_, k2, _, r2) =
            Run.and_then-eq-ok (block_on fuel waiters b k1)
              (λ _. schedule switch >> (spinlock_lock >> loop)) rest in
          let (_, k3, _, r3) =
            Run.and_then-eq-ok (schedule switch k2) (λ _. spinlock_lock >> loop) r2 in
          let (_, k4, _, r4) = Run.and_then-eq-ok (spinlock_lock k3) (λ _. loop) r3 in again k4 r4
      leave false k1 tested rest again = stopped k k1 l tested rest
