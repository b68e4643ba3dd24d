-- ===== src/Scheduler/Aging.antt =====
-- What the loop of `schedule_int` over the table of active threads means for a thread, for an entry of
-- the table and for all of them, when no thread has two entries.
use awk.Base.{
  ℕ, ◌+◌, ◌-◌, ◌%◌, ◌^◌, ◌≡◌, ◌∙◌, refl, sym, inl, inr, Bool-cases, update, ◌&&◌, ◌||◌, true, false,
  not, Bool, Option, some, none, [], ◌∷◌, arith, Ptr, ltb, ◌==◌, if◌then◌else◌,
}
use awk.KernelList.Chain.{Entry, Entries}
use awk.Kernel.{Thread, Kernel}
use awk.Scheduler.Aged.{Aged}

-- The thread was passed over for fewer than 25 rounds, this one included.
abbrev pub is_early : Thread → Bool
is_early t = ltb ((t.last_sched + 1) % 2 ^ 32) 25

-- A thread that was passed over once more: it is counted, or, after 25 rounds, counted anew and its
-- priority number one lower if it is not the lowest.
abbrev pub older : Thread → Thread
older t =
    if is_early t
    then record t { last_sched = (t.last_sched + 1) % 2 ^ 32 }
    else if ltb 0 t.priority
    then record t { priority = t.priority - 1; last_sched = 0 }
    else record t { last_sched = 0 }

abbrev pub older_if : Bool → Option Thread → Option Thread
older_if counts none = none
older_if counts (some t) = if counts then some (older t) else some t

-- The priority of the node of the thread, a number of 16 bits, goes with the thread's.
abbrev pub priority_if : Bool → Option Thread → ℕ → ℕ
priority_if counts none p = p
priority_if counts (some t) p =
    if counts && not (is_early t) && ltb 0 t.priority then (p + 2 ^ 16 - 1) % 2 ^ 16 else p

-- Whether `q` is the thread of an entry.
abbrev pub carried : Ptr → Entries → Bool
carried q [] = false
carried q (x ∷ xs) = (q == x.payload) || carried q xs

-- No thread has two entries.
abbrev pub OneEach : Entries → Type 0
OneEach [] = Unit {0}
OneEach (x ∷ xs) = (carried x.payload xs ≡ false) × OneEach xs

pub older_if-false : (v : Option Thread) → older_if false v ≡ v
older_if-false none = refl
older_if-false (some t) = refl

module _ {S : Type 0} (k : Kernel S) where
  -- The idle thread and the first one do not age.
  abbrev pub ages : Ptr → Bool
  ages q = not ((q == k.idle_thread) || (q == k.init_thread))

  abbrev pub aged_entry : (Ptr → Option Thread) → Entry → Entry
  aged_entry f x = record x { priority = priority_if (ages x.payload) (f x.payload) x.priority }

  abbrev pub aged_entries : (Ptr → Option Thread) → Entries → Entries
  aged_entries f [] = []
  aged_entries f (x ∷ xs) = aged_entry f x ∷ aged_entries f xs

  abbrev pub aged_threads : Entries → (Ptr → Option Thread) → Ptr → Option Thread
  aged_threads xs f q = older_if (carried q xs && ages q) (f q)

  pub aged_entries-Aged : (f : Ptr → Option Thread) (xs : Entries) → Aged xs (aged_entries f xs)
  aged_entries-Aged f [] = tt
  aged_entries-Aged f (x ∷ xs) = (refl, refl, aged_entries-Aged f xs)

  -- Only the threads of the entries matter.
  pub aged_entries-same :
      (f g : Ptr → Option Thread) (xs : Entries)
      → ((q : Ptr) → carried q xs ≡ true → f q ≡ g q)
      → aged_entries f xs ≡ aged_entries g xs
  aged_entries-same f g [] same = refl
  aged_entries-same f g (x ∷ xs) same =
      let here : f x.payload ≡ g x.payload = same x.payload (ground arith) in
      rw (here, aged_entries-same f g xs (λ q i. same q (ground (arith, i)))) refl

  -- The first entry ages first.
  pub aged_threads-first :
      (f f1 : Ptr → Option Thread) (x : Entry) (xs : Entries) (q : Ptr)
      → carried x.payload xs ≡ false
      → f1 q ≡ older_if ((q == x.payload) && ages q) (f q)
      → aged_threads xs f1 q ≡ aged_threads (x ∷ xs) f q
  aged_threads-first f f1 x xs q once first = rw first (two (f q) (q == x.payload) (ages q) refl)
    where
      two :
          (v : Option Thread) (c a : Bool)
          → (q == x.payload) ≡ c
          → older_if (carried q xs && a) (older_if (c && a) v)
            ≡ older_if ((c || carried q xs) && a) v
      two none c a e = refl
      two (some t) true true e =
          let same : q ≡ x.payload = ground arith in
          let out : carried q xs ≡ false = rw same once in rw out refl
      two (some t) true false e =
          let same : q ≡ x.payload = ground arith in
          let out : carried q xs ≡ false = rw same once in rw out refl
      two (some t) false a e = refl

  -- The threads after one round, at the entry of `p`.
  pub apart_thread :
      (f : Ptr → Option Thread) (p q : Ptr)
      → ages p ≡ false
      → f q ≡ older_if ((q == p) && ages q) (f q)
  apart_thread f p q apart = elim (Bool-cases (q == p)) [
    | inl e ↦
        let same : q ≡ p = ground arith in
        let out : ages q ≡ false = rw same apart in rw (e, out) (sym (older_if-false (f q)))
    | inr e ↦ rw e (sym (older_if-false (f q)))
  ]

  pub aged_thread :
      (f : Ptr → Option Thread) (p q : Ptr) (t t' : Thread)
      → ages p ≡ true
      → f p ≡ some t
      → older t ≡ t'
      → update f p (some t') q ≡ older_if ((q == p) && ages q) (f q)
  aged_thread f p q t t' mine holds old = elim (Bool-cases (q == p)) [
    | inl e ↦
        let same : q ≡ p = ground arith in
        let here : f q ≡ some t = rw same holds in
        let in_turn : ages q ≡ true = rw same mine in rw (e, in_turn, here, old) refl
    | inr e ↦ rw e (sym (older_if-false (f q)))
  ]

  pub aged_entries-first :
      (f f1 : Ptr → Option Thread) (x : Entry) (xs : Entries)
      → carried x.payload xs ≡ false
      → ((q : Ptr) → f1 q ≡ older_if ((q == x.payload) && ages q) (f q))
      → aged_entries f1 xs ≡ aged_entries f xs
  aged_entries-first f f1 x xs once first =
      aged_entries-same f1 f xs (λ q i. first q ∙ untouched q i)
    where
      untouched :
          (q : Ptr) → carried q xs ≡ true → older_if ((q == x.payload) && ages q) (f q) ≡ f q
      untouched q i = elim (Bool-cases (q == x.payload)) [
        | inl e ↦ let same : q ≡ x.payload = ground arith in absurd (ground (arith, same, i, once))
        | inr e ↦ rw e (older_if-false (f q))
      ]

-- A thread that has run is not passed over.
abbrev pub counted_anew : Option Thread → Option Thread
counted_anew none = none
counted_anew (some t) = some (record t { last_sched = 0 })

module _ {S : Type 0} (k : Kernel S) (time_slice : Bool) (x : Thread) (xs : Entries) where
  -- The running thread `x` has its first priority again when its time slice is used up.
  abbrev pub renewed : Ptr → Option Thread
  renewed =
      if time_slice
      then update k.thread k.active_thread (some (record x { priority = x.init_prio }))
      else k.thread

  -- The entries of the table and the threads after the priorities were updated. Nothing changes while
  -- the idle thread or the first one runs.
  abbrev pub table_after : Entries
  table_after = if ages k k.active_thread then aged_entries k renewed xs else xs

  abbrev pub threads_after : Ptr → Option Thread
  threads_after q =
      if ages k k.active_thread
      then (if q == k.active_thread
          then counted_anew (aged_threads k xs renewed q)
          else aged_threads k xs renewed q)
      else k.thread q
