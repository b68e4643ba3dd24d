-- ===== src/Scheduler/Sleepers.antt =====
-- The loop of `select_thread` that wakes the sleeping threads.
use awk.Base.{
  ℕ, zero, suc, ◌+◌, ◌-◌, ◌%◌, ◌^◌, ◌<◌, ◌≤◌, ◌≡◌, refl, ◌∙◌, ◌≢◌, Option, some, [], ◌∷◌, ◌++◌,
  arith, Ptr, null, length, length-append, true, false,
}
use awk.Run
use awk.Run.{ok}
use awk.Err.{no_err}
use mathlib.Core.List.{append-nil}
use awk.KernelList.{Heap, enlist_data}
use awk.KernelList.Steps.{load_node_lem}
use awk.KernelList.Chain.{Entry, Entries, IsList, insert, has, has-append, ne_null_of_has}
use awk.KernelList.Splice.{Distinct-of_append}
use awk.KernelList.Unlink.{loose}
use awk.KernelList.Enlist.{entry, enlist-insert}
use awk.KernelList.Delist.{delist-nil}
use awk.Kernel.{Thread, Kernel, load_thread, set_thread}
use awk.Blocking.Wake.{readied, Apart, move_last, take_last, IsList-frame}
use awk.Blocking.Waiters.{
  Waiters, queue_of, Other, joined, AllReady, length-insert, still-Apart, has-insert,
}
use awk.Scheduler.{wake_sleepers}

-- Every entry carries its thread, and the threads are different.
abbrev pub AllHeld : {S : Type 0} → Kernel S → Waiters → Type 0
AllHeld k [] = Unit {0}
AllHeld k ((e, x) ∷ es) =
    (e.payload ≢ null) × (k.thread e.payload ≡ some x) × Other e.payload es × AllHeld k es

-- The wake-up time of every thread is over.
abbrev pub AllDue : ℕ → Waiters → Type 0
AllDue t [] = Unit {0}
AllDue t ((e, x) ∷ es) = (x.wakeup_time < t) × AllDue t es

-- That of the first is not.
abbrev pub Early : ℕ → Waiters → Type 0
Early t [] = Unit {0}
Early t ((e, x) ∷ es) = t ≤ x.wakeup_time

-- The sleeping threads that are left: the first was taken out, and put back by its wake-up time.
abbrev pub put_back : Waiters → Entries
put_back [] = []
put_back ((e, x) ∷ es) = insert (entry e.at (loose e) x.wakeup_time) (queue_of es)

pub Other-append : (p : Ptr) (xs ys : Waiters) → Other p (xs ++ ys) → Other p xs
Other-append p [] ys o = tt
Other-append p ((e, x) ∷ xs) ys o = (o.0, Other-append p xs ys o.1)

length-queue_of : (es : Waiters) → length (queue_of es) ≡ length es
length-queue_of [] = refl
length-queue_of ((e, x) ∷ es) =
    omega (arith, length-append (queue_of es) (e ∷ []), length-queue_of es)

abbrev pub with_threads : {S : Type 0} → Kernel S → Heap → (Ptr → Option Thread) → Kernel S
with_threads k h th = record k { heap = h; thread = th }

module _ {S : Type 0} where
  -- `es` sleep, the first to be looked at first, and `ys` are ready.
  pub record Sleepers (k : Kernel S) (es : Waiters) (ys : Entries) (n m fuel : ℕ) : Type 0 where
    pub asleep : IsList k.heap k.sleeping_threads_table (queue_of es) n
    pub active : IsList k.heap k.active_threads_table ys m
    pub ne : k.active_threads_table ≢ k.sleeping_threads_table
    pub apart : Apart (queue_of es) ys
    pub threads : AllHeld k es
    pub room : length ys + length es < fuel

  -- `u` is `k` after `due` have become ready and `rest` sleep on.
  pub record Awake (k : Kernel S) (due rest : Waiters) (ys : Entries) (u : Kernel S) : Type 0 where
    pub asleep : (n : ℕ) × IsList u.heap k.sleeping_threads_table (put_back rest) n
    pub active : (m : ℕ) × IsList u.heap k.active_threads_table (joined due ys) m
    pub apart : Apart (put_back rest) (joined due ys)
    pub ready : AllReady u due
    pub others : (p : Ptr) → Other p due → u.thread p ≡ k.thread p

  AllHeld-frame :
      (k : Kernel S) (e : Entry) (x : Thread) (g : Heap) (es : Waiters)
      → Other e.payload es
      → AllHeld k es
      → AllHeld (readied k e x g) es
  AllHeld-frame k e x g [] o all = tt
  AllHeld-frame k e x g ((f, y) ∷ es) o (ne, holds, other, all) =
      (ne, ground (arith, o.0, holds), other, AllHeld-frame k e x g es o.1 all)

  module _ (fuel : ℕ) (k : Kernel S) (e : Entry) (x : Thread) (es : Waiters) (ys : Entries)
      (n m : ℕ) (s : Sleepers k ((e, x) ∷ es) ys n m fuel) where
    out_of_rest : (pr : ℕ) → Apart (queue_of es) (insert (entry e.at (loose e) pr) ys)
    out_of_rest pr =
        still-Apart e pr (queue_of es) ys
          (ground (arith, (Distinct-of_append (queue_of es) (e ∷ []) s.asleep.distinct).2 e.at))
          s.apart

    -- One round with a thread whose time is over.
    wake_due :
        (t rounds : ℕ)
        → x.wakeup_time < t
        → (g : Heap) × (wake_sleepers fuel (suc rounds) t k
            ≡ wake_sleepers fuel rounds t (readied k e x g))
          × Sleepers
              (readied k e x g)
              es
              (insert (entry e.at (loose e) x.priority) ys)
              ((n + 2 ^ 32 - 1) % 2 ^ 32)
              ((m + 1) % 2 ^ 32)
              fuel
    unfolding wake_sleepers load_thread set_thread
    wake_due t rounds due =
        let (g1, g2, took, at_e, put, moved) =
          move_last k.heap k.sleeping_threads_table k.active_threads_table (queue_of es) e ys n m
            s.asleep s.active s.ne s.apart fuel x.priority (omega (arith, s.room)) in
        (
          g2,
          ground (arith, took, at_e.ne_null, load_node_lem at_e, put, s.threads),
          record {
            asleep = moved.from;
            active = moved.to;
            ne = s.ne;
            apart = out_of_rest x.priority;
            threads = AllHeld-frame k e x g2 es s.threads.2 s.threads.3;
            room = omega (arith, s.room, length-insert (entry e.at (loose e) x.priority) ys);
          },
        )

    -- One round with a thread whose time is not over: it goes back to its list.
    wake_early :
        (t rounds : ℕ)
        → t ≤ x.wakeup_time
        → (g : Heap) × (wake_sleepers fuel (suc rounds) t k ≡ ok tt (record k { heap = g }))
          × ((n : ℕ) × IsList g k.sleeping_threads_table (put_back ((e, x) ∷ es)) n)
          × IsList g k.active_threads_table ys m
    unfolding wake_sleepers load_thread
    wake_early t rounds early =
        let l = k.sleeping_threads_table in
        let act = k.active_threads_table in
        let xs = queue_of es in
        let parts = Distinct-of_append xs (e ∷ []) s.asleep.distinct in
        let (g1, taken) = take_last k.heap l act xs e ys n m s.asleep s.active s.ne s.apart in
        let out : has e.at xs ≡ false = ground (arith, parts.2 e.at) in
        let left : IsList g1 l xs ((n + 2 ^ 32 - 1) % 2 ^ 32) =
          rw append-nil at (taken.gone.list) in
        let (r, g2, run, (fine, put)) = Run.outcome (
          enlist-insert taken.gone.node fuel x.wakeup_time xs left out
            (omega (arith, s.room, length-queue_of es))) in
        let run' : enlist_data fuel e.at l x.wakeup_time g1 ≡ ok no_err g2 = cc in
        (
          g2,
          ground (
            arith,
            taken.run,
            taken.gone.node.ne_null,
            load_node_lem taken.gone.node,
            run',
            s.threads,
          ),
          (((n + 2 ^ 32 - 1) % 2 ^ 32 + 1) % 2 ^ 32, put.list),
          IsList-frame g1 g2 act ys m taken.rest
              (λ q i.
                put.nodes q (ne_null_of_has g1 null ys null q taken.rest.chain i)
                  (ground (arith, taken.out)) (outside q i))
              (put.lists act s.ne),
        )
      where
        outside : (q : Ptr) → has q ys ≡ true → has q (queue_of es) ≡ false
        outside q i = ground (arith, s.apart q, has-append q (queue_of es) (e ∷ []))

  -- If the sleeping threads are, from the end that is served first, some whose wake-up time is over
  -- and then one whose time is not over with any threads behind it, or none, the loop of
  -- `select_thread` that wakes threads makes the former ready, each at its own priority in the table
  -- of active threads, and leaves all behind them asleep, whatever their wake-up times; the first of
  -- these is put back by its wake-up time. The threads differ, the lists are apart, there are more
  -- rounds than threads to wake and enough fuel.
  pub wake_sleepers_lem :
      (fuel rounds t : ℕ) (k : Kernel S) (due rest : Waiters) (ys : Entries) {n m : ℕ}
      → Sleepers k (due ++ rest) ys n m fuel
      → AllDue t due
      → Early t rest
      → length due < rounds
      → (h : Heap) × (th : Ptr → Option Thread) × (wake_sleepers fuel rounds t k
          ≡ ok tt (with_threads k h th))
        × Awake k due rest ys (with_threads k h th)
  unfolding wake_sleepers
  wake_sleepers_lem fuel zero t k due rest ys s all early enough = absurd (omega arith)
  wake_sleepers_lem fuel (suc rounds) t k [] [] ys {n} {m} s all early enough = (
    k.heap,
    k.thread,
    rw (delist-nil s.asleep),
    record {
      asleep = (n, s.asleep);
      active = (m, s.active);
      apart = λ q i. absurd (cc);
      ready = tt;
      others = λ p o. refl;
    },
  )
  wake_sleepers_lem fuel (suc rounds) t k [] ((e, x) ∷ es) ys {n} {m} s all early enough =
      let (g, run, asleep, active) = wake_early fuel k e x es ys n m s t rounds early in
      (
        g,
        k.thread,
        run,
        record {
          asleep = asleep;
          active = (m, active);
          apart = λ q i. ground (
            arith,
            s.apart q,
            has-append q (queue_of es) (e ∷ []),
            has-insert q (entry e.at (loose e) x.wakeup_time) (queue_of es),
          );
          ready = tt;
          others = λ p o. refl;
        },
      )
  wake_sleepers_lem fuel (suc rounds) t k ((e, x) ∷ due) rest ys {n} {m} s all early enough =
      let (g, step, next) = wake_due fuel k e x (due ++ rest) ys n m s t rounds all.0 in
      let (h, th, run, end) =
        wake_sleepers_lem fuel rounds t (readied k e x g) due rest
          (insert (entry e.at (loose e) x.priority) ys) next all.1 early (omega arith) in
      (
        h,
        th,
        step ∙ run,
        record {
          asleep = end.asleep;
          active = end.active;
          apart = end.apart;
          ready = (
            end.others e.payload (Other-append e.payload due rest s.threads.2) ∙ ground arith,
            end.ready,
          );
          others = λ p o. end.others p o.1 ∙ ground (arith, o.0);
        },
      )
