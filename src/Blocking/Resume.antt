-- ===== src/Blocking/Resume.antt =====
-- From which state a call that waited has gone on.
use awk.Base.{
  ℕ, ◌+◌, ◌-◌, ◌^◌, ◌≡◌, ◌≢◌, refl, sym, ◌∙◌, ◌⊎◌, inl, inr, Bool, true, false, List, [], ◌∷◌,
  arith, Ptr, Bool-cases, ltb, ◌==◌, if◌then◌else◌, not,
}
use awk.Run
use awk.Run.{Run, Cmd, ok, blocked, ◌>>◌}
use awk.Kernel.{
  BlockType, Kernel, Switch, spinlock_lock, schedule, disable_local_interrupt, schedule_away,
}
use awk.Blocking.{block_on, wait_while, blocking_call}
use awk.Blocking.Block.{wait_while-false, away-ne-ok}
use awk.Blocking.Call.{call_again}

-- With the lock of an object held.
abbrev pub nested : {S : Type 0} → Kernel S → Kernel S
nested k = record k {
  int_lock_nesting =
      if ltb k.int_lock_nesting (2 ^ 32 - 1) then k.int_lock_nesting + 1 else k.int_lock_nesting;
}

-- A call that is made in `k` and resumed as the switches say comes to be in `l`: it has not blocked, or
-- it blocked the calling thread in a state `s`, the first switch resumed it in `switch s`, and it came
-- from there to be in `l`.
pub data Resumed {S A : Type 0} (call : List (Switch S) → Cmd (Kernel S) A)
    : List (Switch S) → Kernel S → Kernel S → Type 0 where
  at_once : {switches : List (Switch S)} {k : Kernel S} → Resumed call switches k k
  later :
      {switch : Switch S} {switches : List (Switch S)} {k s l : Kernel S}
      → call [] k ≡ blocked s
      → Resumed call switches (switch s) l
      → Resumed call (switch ∷ switches) k l

module _ {S A : Type 0} (fuel : ℕ) (must_wait : Cmd (Kernel S) Bool) (waiters : S → Ptr)
    (b : BlockType) (live : S → Bool) (refuse go_on : Cmd (Kernel S) A)
    (gone : (k : Kernel S) → live k.self ≡ false → must_wait k ≡ ok false k)
    (reads : (k l : Kernel S) (w : Bool) → must_wait k ≡ ok w l → l ≡ k) where
  abbrev call : List (Switch S) → Cmd (Kernel S) A
  call = blocking_call fuel must_wait waiters b live refuse go_on

  -- The call was refused in `l`, or went on there.
  abbrev pub EndsIn : Kernel S → A → Kernel S → Type 0
  EndsIn l a t =
      ((live l.self ≡ false) × (refuse (nested l) ≡ ok a t))
      ⊎ ((live l.self ≡ true)
          × (must_wait (nested l) ≡ ok false (nested l))
          × (go_on (nested l) ≡ ok a t))

  refused_call :
      (switches : List (Switch S)) (k : Kernel S)
      → live k.self ≡ false
      → call switches k ≡ refuse (nested k)
  unfolding blocking_call spinlock_lock disable_local_interrupt
  refused_call switches k dead = rw dead refl

  free_call :
      (switches : List (Switch S)) (k : Kernel S)
      → live k.self ≡ true
      → must_wait (nested k) ≡ ok false (nested k)
      → call switches k ≡ go_on (nested k)
  unfolding blocking_call spinlock_lock disable_local_interrupt
  free_call switches k alive free =
      rw (alive, wait_while-false fuel must_wait waiters b {k = nested k} switches free, alive) refl

  stuck_call :
      (k k2 : Kernel S)
      → live k.self ≡ true
      → must_wait (nested k) ≡ ok true (nested k)
      → block_on fuel waiters b (nested k) ≡ ok tt k2
      → (k2.int_lock_nesting == 0) ≡ true
      → call [] k ≡ blocked k2
  unfolding blocking_call wait_while spinlock_lock disable_local_interrupt schedule_away
  stuck_call k k2 alive waits blocks opened = rw (alive, waits, blocks, opened) refl

  resumed_call :
      (switch : Switch S) (switches : List (Switch S)) (k k2 : Kernel S)
      → live k.self ≡ true
      → must_wait (nested k) ≡ ok true (nested k)
      → block_on fuel waiters b (nested k) ≡ ok tt k2
      → (k2.int_lock_nesting == 0) ≡ true
      → call (switch ∷ switches) k ≡ call switches (switch k2)
  unfolding blocking_call wait_while spinlock_lock disable_local_interrupt schedule
  resumed_call switch switches k k2 alive waits blocks opened =
      rw (alive, waits, blocks, opened)
        (call_again fuel must_wait waiters b live refuse go_on switches (switch k2) gone)

  -- A call that has to wait and yet returns has blocked the calling thread.
  blocked_first :
      (switch : Switch S) (switches : List (Switch S)) (k t : Kernel S) (a : A)
      → live k.self ≡ true
      → must_wait (nested k) ≡ ok true (nested k)
      → call (switch ∷ switches) k ≡ ok a t
      → (k2 : Kernel S) × (block_on fuel waiters b (nested k) ≡ ok tt k2)
        × ((k2.int_lock_nesting == 0) ≡ true)
  unfolding blocking_call wait_while spinlock_lock disable_local_interrupt schedule
  blocked_first switch switches k t a alive waits e =
      let (_, k4, r, _) =
        Run.and_then-eq-ok
          (Run.and_then (block_on fuel waiters b (nested k)) (λ _.
            schedule switch >> (spinlock_lock >> wait_while fuel must_wait waiters b switches)))
          (λ _ l. (if not (live l.self) then refuse else go_on) l) (rw (alive, waits) at e) in
      let (_, k2, blocks, r2) =
        Run.and_then-eq-ok (block_on fuel waiters b (nested k))
          (λ _. schedule switch >> (spinlock_lock >> wait_while fuel must_wait waiters b switches))
          r in
      let (_, k3, sched, _) =
        Run.and_then-eq-ok (schedule switch k2)
          (λ _. spinlock_lock >> wait_while fuel must_wait waiters b switches) r2 in
      (k2, blocks, ground (arith, sched))

  never_blocked :
      (k t : Kernel S) (a : A)
      → live k.self ≡ true
      → must_wait (nested k) ≡ ok true (nested k)
      → call [] k ≢ ok a t
  unfolding blocking_call wait_while spinlock_lock disable_local_interrupt schedule_away
  never_blocked k t a alive waits e =
      let (_, k4, r, _) =
        Run.and_then-eq-ok (Run.and_then (block_on fuel waiters b (nested k)) (λ _. schedule_away))
          (λ _ l. (if not (live l.self) then refuse else go_on) l) (rw (alive, waits) at e) in
      let (_, k2, _, away) =
        Run.and_then-eq-ok (block_on fuel waiters b (nested k)) (λ _. schedule_away) r in
      away-ne-ok k2 k4 tt away

  asked :
      (switches : List (Switch S)) (k l : Kernel S)
      → wait_while fuel must_wait waiters b switches k ≡ ok tt l
      → (w : Bool) × (k' : Kernel S) × (must_wait k ≡ ok w k')
  unfolding wait_while
  asked [] k l e = let (w, k', asks, _) = Run.and_then-eq-ok (must_wait k) _ e in (w, k', asks)
  asked (switch ∷ switches) k l e =
      let (w, k', asks, _) = Run.and_then-eq-ok (must_wait k) _ e in (w, k', asks)

  tested :
      (switches : List (Switch S)) (k t : Kernel S) (a : A)
      → live k.self ≡ true
      → call switches k ≡ ok a t
      → (must_wait (nested k) ≡ ok true (nested k)) ⊎ (must_wait (nested k) ≡ ok false (nested k))
  unfolding blocking_call spinlock_lock disable_local_interrupt
  tested switches k t a alive e =
      let (_, l, waited, _) =
        Run.and_then-eq-ok (wait_while fuel must_wait waiters b switches (nested k))
          (λ _ l. (if not (live l.self) then refuse else go_on) l) (rw alive at e) in
      let (w, k', asks) = asked switches (nested k) l waited in
      either w (rw (reads (nested k) k' w asks) at asks)
    where
      either :
          (w : Bool)
          → must_wait (nested k) ≡ ok w (nested k)
          → (must_wait (nested k) ≡ ok true (nested k))
            ⊎ (must_wait (nested k) ≡ ok false (nested k))
      either true e = inl e
      either false e = inr e

  -- A call that returns was refused or went on in a state in which it had come to be.
  pub call-Resumed :
      (switches : List (Switch S)) (k t : Kernel S) (a : A)
      → call switches k ≡ ok a t
      → (l : Kernel S) × Resumed call switches k l × EndsIn l a t
  call-Resumed [] k t a e = elim (Bool-cases (live k.self)) [
    | inr dead ↦ (k, at_once, inl (dead, sym (refused_call [] k dead) ∙ e))
    | inl alive ↦ elim (tested [] k t a alive e) [
      | inl waits ↦ absurd (never_blocked k t a alive waits e)
      | inr free ↦ (k, at_once, inr (alive, free, sym (free_call [] k alive free) ∙ e))
    ]
  ]
  call-Resumed (switch ∷ switches) k t a e = elim (Bool-cases (live k.self)) [
    | inr dead ↦ (k, at_once, inl (dead, sym (refused_call (switch ∷ switches) k dead) ∙ e))
    | inl alive ↦ elim (tested (switch ∷ switches) k t a alive e) [
      | inr free ↦
          (k, at_once, inr (alive, free, sym (free_call (switch ∷ switches) k alive free) ∙ e))
      | inl waits ↦
          let (s, blocks, out) = blocked_first switch switches k t a alive waits e in
          let again = resumed_call switch switches k s alive waits blocks out in
          let (l, from, ends) = call-Resumed switches (switch s) t a (sym again ∙ e) in
          (l, later (stuck_call k s alive waits blocks out) from, ends)
    ]
  ]
