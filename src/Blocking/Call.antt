-- ===== src/Blocking/Call.antt =====
-- What a call that waits comes to.
use awk.Base.{
  ℕ, ◌+◌, ◌-◌, ◌^◌, ◌<◌, ◌≡◌, refl, Bool, true, false, not, List, ◌∷◌, [], arith, Ptr, Bool-cases,
  ◌⊎◌, inl, inr, if◌then◌else◌, ltb,
}
use awk.Run
use awk.Run.{Cmd, ok, blocked, ◌>>◌}
use awk.KernelList.{Node, Heap}
use awk.KernelList.Chain.{Entries, insert}
use awk.KernelList.Enlist.{entry, Enlisted}
use awk.Kernel.{BlockType, Thread, Kernel, Switch, spinlock_lock}
use awk.Blocking.{wait_while, blocking_call}
use awk.Blocking.Block.{
  CanBlock, put_to_wait, locked, lock_lem, locked_wait, wait_while-false, wait_while_ends,
}

module _ {S A : Type 0} (fuel : ℕ) (must_wait : Cmd (Kernel S) Bool) (waiters : S → Ptr)
    (b : BlockType) (live : S → Bool) (refuse go_on : Cmd (Kernel S) A) where
  -- An object that is not initialised is refused.
  pub call-refused :
      (switches : List (Switch S)) (k : Kernel S)
      → k.int_lock_nesting < 2 ^ 32 - 1
      → live k.self ≡ false
      → blocking_call fuel must_wait waiters b live refuse go_on switches k ≡ refuse (locked k)
  unfolding blocking_call
  call-refused switches k nest dead = rw (lock_lem k nest, dead)

  -- Where there is nothing to wait for the call goes on at once.
  pub call-goes_on :
      (switches : List (Switch S)) (k : Kernel S)
      → k.int_lock_nesting < 2 ^ 32 - 1
      → live k.self ≡ true
      → must_wait (locked k) ≡ ok false (locked k)
      → blocking_call fuel must_wait waiters b live refuse go_on switches k ≡ go_on (locked k)
  unfolding blocking_call
  call-goes_on switches k nest alive free = rw (
    lock_lem k nest,
    alive,
    wait_while-false fuel must_wait waiters b {k = locked k} switches free,
    alive,
  )

  -- A call that is resumed in the state `k` goes on as a new call does. An object that was destroyed
  -- is not waited for.
  pub call_again :
      (switches : List (Switch S)) (k : Kernel S)
      → ((k : Kernel S) → live k.self ≡ false → must_wait k ≡ ok false k)
      → Run.and_then
          (Run.and_then (spinlock_lock k) (λ _. wait_while fuel must_wait waiters b switches))
          (λ _ l. (if not (live l.self) then refuse else go_on) l)
        ≡ blocking_call fuel must_wait waiters b live refuse go_on switches k
  unfolding blocking_call spinlock_lock
  call_again switches k gone = elim (Bool-cases (live k.self)) [
    | inl t ↦ rw t
    | inr t ↦
        let k' = record k {
          int_lock_nesting =
              if ltb k.int_lock_nesting (2 ^ 32 - 1)
              then k.int_lock_nesting + 1
              else k.int_lock_nesting;
        } in
        rw (wait_while-false fuel must_wait waiters b {k = k'} switches (gone k' t), t)
  ]

  -- A call that has to wait blocks the calling thread and joins it to the waiting threads. It does not
  -- return before it is resumed; then it does what a new call would do.
  pub call-waits :
      {k : Kernel S} {x : Thread} {m : Node} {xs : Entries} {n : ℕ}
      → ((k : Kernel S) → live k.self ≡ false → must_wait k ≡ ok false k)
      → CanBlock k (waiters k.self) x m xs n fuel
      → k.int_lock_nesting ≡ 0
      → live k.self ≡ true
      → must_wait (locked k) ≡ ok true (locked k)
      → (g : Heap) × Enlisted
          (waiters k.self)
          (entry k.active_thread_node m 0)
          xs
          (insert (entry k.active_thread_node m 0) xs)
          n
          k.heap
          g
        × (blocking_call fuel must_wait waiters b live refuse go_on [] k
            ≡ blocked (put_to_wait k b x g))
        × ((switch : Switch S) (switches : List (Switch S))
            → blocking_call fuel must_wait waiters b live refuse go_on (switch ∷ switches) k
              ≡ blocking_call fuel must_wait waiters b live refuse go_on switches
                  (switch (put_to_wait k b x g)))
  unfolding blocking_call
  call-waits {k} {x} gone c free alive waits =
      let (g, put, stays, resumed) = locked_wait must_wait waiters b c free waits in
      (
        g,
        put,
        rw (lock_lem k (omega arith), alive, stays),
        λ switch switches.
            rw (lock_lem k (omega arith), alive, resumed)
              (call_again switches (switch (put_to_wait k b x g)) gone),
      )

  -- A call that returns was refused, or went on in a state in which the object was initialised and
  -- there was nothing to wait for.
  pub call_ends :
      ((k l : Kernel S) (w : Bool) → must_wait k ≡ ok w l → l ≡ k)
      → (switches : List (Switch S)) (k t : Kernel S) (a : A)
      → blocking_call fuel must_wait waiters b live refuse go_on switches k ≡ ok a t
      → (l : Kernel S) × (((live l.self ≡ false) × (refuse l ≡ ok a t))
          ⊎ ((live l.self ≡ true) × (must_wait l ≡ ok false l) × (go_on l ≡ ok a t)))
  unfolding blocking_call
  call_ends reads switches k t a e =
      let (_, k1, _, r1) =
        Run.and_then-eq-ok (spinlock_lock k)
          (λ _ l.
            (if not (live l.self)
                then refuse
                else (wait_while fuel must_wait waiters b switches >> tail))
              l)
          e in
      enter (live k1.self) k1 refl r1
    where
      tail : Cmd (Kernel S) A
      tail l = (if not (live l.self) then refuse else go_on) l

      leave :
          (w : Bool) (l : Kernel S)
          → live l.self ≡ w
          → must_wait l ≡ ok false l
          → (if not w then refuse else go_on) l ≡ ok a t
          → (l : Kernel S) × (((live l.self ≡ false) × (refuse l ≡ ok a t))
              ⊎ ((live l.self ≡ true) × (must_wait l ≡ ok false l) × (go_on l ≡ ok a t)))
      leave true l alive free r = (l, inr (alive, free, r))
      leave false l dead free r = (l, inl (dead, r))

      enter :
          (w : Bool) (l : Kernel S)
          → live l.self ≡ w
          → (if not w then refuse else (wait_while fuel must_wait waiters b switches >> tail)) l
            ≡ ok a t
          → (l : Kernel S) × (((live l.self ≡ false) × (refuse l ≡ ok a t))
              ⊎ ((live l.self ≡ true) × (must_wait l ≡ ok false l) × (go_on l ≡ ok a t)))
      enter false l dead r = (l, inl (dead, r))
      enter true l alive r =
          let (_, l2, waited, r2) =
            Run.and_then-eq-ok (wait_while fuel must_wait waiters b switches l) (λ _. tail) r in
          leave (live l2.self) l2 refl
            (wait_while_ends fuel must_wait waiters b reads switches l l2 waited) r2
