-- ===== src/Blocking/Waiters.antt =====
-- Threads that wait in a list for the same reason, and what is left to say of them once all are woken.
use awk.Base.{
  ℕ, suc, ◌+◌, ◌<◌, ◌≡◌, refl, ◌≢◌, false, some, List, [], ◌∷◌, ◌++◌, arith, Ptr, ◌==◌, length,
  ◌||◌, ltb, Bool-cases, inl, inr,
}
use awk.KernelList.{Heap}
use awk.KernelList.Chain.{Entry, Entries, has, IsList, insert, has-append}
use awk.KernelList.Unlink.{loose}
use awk.KernelList.Enlist.{entry}
use awk.Kernel.{ThreadState, BlockType, Thread, Kernel}
use awk.Blocking.Wake.{Blocked, readied, Apart}

-- Waiting threads with their entries, the longest waiting first, and the list that has them.
abbrev pub Waiters : Type 0
Waiters = List (Entry × Thread)

abbrev pub queue_of : Waiters → Entries
queue_of [] = []
queue_of ((e, x) ∷ es) = queue_of es ++ e ∷ []

-- No thread of the waiting ones lies at `p`.
abbrev pub Other : Ptr → Waiters → Type 0
Other p [] = Unit {0}
Other p ((e, x) ∷ es) = (e.payload ≢ p) × Other p es

-- The table of active threads after all have joined it.
abbrev pub joined : Waiters → Entries → Entries
joined [] ys = ys
joined ((e, x) ∷ es) ys = joined es (insert (entry e.at (loose e) x.priority) ys)

module _ {S : Type 0} where
  abbrev pub AllBlocked : Kernel S → BlockType → Waiters → Type 0
  AllBlocked k b [] = Unit {0}
  AllBlocked k b ((e, x) ∷ es) = Blocked k b e x × Other e.payload es × AllBlocked k b es

  abbrev pub AllReady : Kernel S → Waiters → Type 0
  AllReady k [] = Unit {0}
  AllReady k ((e, x) ∷ es) =
      (k.thread e.payload ≡ some (record x { state = ThreadState.ready })) × AllReady k es

  pub record Waits (k : Kernel S) (l : Ptr) (b : BlockType) (es : Waiters) (ys : Entries)
      (n m fuel : ℕ) : Type 0 where
    pub waiting : IsList k.heap l (queue_of es) n
    pub active : IsList k.heap k.active_threads_table ys m
    pub ne : k.active_threads_table ≢ l
    pub apart : Apart (queue_of es) ys
    pub threads : AllBlocked k b es
    pub room : length ys + length es < fuel

  -- `t` is `k` after all the threads have become ready.
  pub record Woken (k : Kernel S) (l : Ptr) (es : Waiters) (ys : Entries) (t : Kernel S)
      : Type 0 where
    pub waiting : (n : ℕ) × IsList t.heap l [] n
    pub active : (m : ℕ) × IsList t.heap k.active_threads_table (joined es ys) m
    pub ready : AllReady t es
    pub others : (p : Ptr) → Other p es → t.thread p ≡ k.thread p
    pub nesting : t.int_lock_nesting ≡ k.int_lock_nesting
    pub self : t.self ≡ k.self

  pub AllBlocked-frame :
      (k : Kernel S) (b : BlockType) (e : Entry) (x : Thread) (g : Heap) (es : Waiters)
      → Other e.payload es
      → AllBlocked k b es
      → AllBlocked (readied k e x g) b es
  AllBlocked-frame k b e x g [] o all = tt
  AllBlocked-frame k b e x g ((f, y) ∷ es) o (is_b, other, all) = (
    record {
      ne_null = is_b.ne_null;
      ne_idle = is_b.ne_idle;
      holds = ground (arith, o.0, is_b.holds);
      blocked = is_b.blocked;
      reason = is_b.reason;
    },
    other,
    AllBlocked-frame k b e x g es o.1 all,
  )

pub has-insert :
    (q : Ptr) (e : Entry) (xs : Entries) → has q (insert e xs) ≡ ((q == e.at) || has q xs)
unfolding insert
has-insert q e [] = refl
has-insert q e (x ∷ xs) = elim (Bool-cases (ltb e.priority x.priority)) [
  | inl t ↦ rw t (ground (arith, has-insert q e xs))
  | inr t ↦ rw t
]

pub length-insert : (e : Entry) (xs : Entries) → length (insert e xs) ≡ suc (length xs)
unfolding insert
length-insert e [] = refl
length-insert e (x ∷ xs) = elim (Bool-cases (ltb e.priority x.priority)) [
  | inl t ↦ rw t (omega (arith, length-insert e xs))
  | inr t ↦ rw t
]

-- An entry that has left the waiting list does not come back, so the lists stay apart.
pub still-Apart :
    (e : Entry) (pr : ℕ) (xs ys : Entries)
    → has e.at xs ≡ false
    → Apart (xs ++ e ∷ []) ys
    → Apart xs (insert (entry e.at (loose e) pr) ys)
still-Apart e pr xs ys out apart q i = ground (
  arith,
  out,
  i,
  apart q (ground (arith, has-append q xs (e ∷ []))),
  has-insert q (entry e.at (loose e) pr) ys,
)

module _ {S : Type 0} (k : Kernel S) (c : ℕ) (s : S) where
  AllBlocked-still :
      (b : BlockType) (es : Waiters)
      → AllBlocked k b es
      → AllBlocked (record k { int_lock_nesting = c; self = s }) b es
  AllBlocked-still b [] all = tt
  AllBlocked-still b ((e, x) ∷ es) (is_b, other, all) = (
    record {
      ne_null = is_b.ne_null;
      ne_idle = is_b.ne_idle;
      holds = is_b.holds;
      blocked = is_b.blocked;
      reason = is_b.reason;
    },
    other,
    AllBlocked-still b es all,
  )

  -- The nesting of disabled interrupts and the object do not matter for the threads that wait.
  pub Waits-still :
      {l : Ptr} {b : BlockType} {es : Waiters} {ys : Entries} {n m fuel : ℕ}
      → Waits k l b es ys n m fuel
      → Waits (record k { int_lock_nesting = c; self = s }) l b es ys n m fuel
  Waits-still {b} {es} w = record {
    waiting = w.waiting;
    active = w.active;
    ne = w.ne;
    apart = w.apart;
    threads = AllBlocked-still b es w.threads;
    room = w.room;
  }

-- The threads do not depend on the lists nor on the nesting and the object.
pub AllReady-frame :
    {S : Type 0} (k t : Kernel S) (es : Waiters)
    → t.thread ≡ k.thread
    → AllReady k es
    → AllReady t es
AllReady-frame k t [] same all = tt
AllReady-frame k t ((e, x) ∷ es) same all =
    (ground (arith, same, all.0), AllReady-frame k t es same all.1)
