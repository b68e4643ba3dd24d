-- ===== src/Scheduler/Live.antt =====
-- The entries of a list carry threads, and keep them while threads wake.
use awk.Base.{
  ◌+◌, ◌<◌, ◌≡◌, refl, ◌∙◌, ◌≢◌, some, [], ◌∷◌, ◌++◌, arith, Ptr, null, length, ltb, ◌==◌,
  Bool-cases, inl, inr, ◌⊎◌,
}
use awk.KernelList.Chain.{Entry, Entries, insert, Descending}
use awk.KernelList.Unlink.{loose}
use awk.KernelList.Enlist.{entry}
use awk.KernelList.Order.{insert-Descending}
use awk.Kernel.{ThreadState, Thread, Kernel}
use awk.Blocking.Waiters.{Waiters, Other, joined, AllReady, length-insert}
use awk.Scheduler.Sleepers.{AllHeld, Awake, Other-append}

module _ {S : Type 0} where
  -- Every entry carries a thread.
  abbrev pub Live : Kernel S → Entries → Type 0
  Live k [] = Unit {0}
  Live k (y ∷ ys) = (y.payload ≢ null) × ((t : Thread) × (k.thread y.payload ≡ some t)) × Live k ys

  -- No thread of `k` is gone in `u`.
  abbrev pub Keeps : Kernel S → Kernel S → Type 0
  Keeps k u = (p : Ptr) (t : Thread) → k.thread p ≡ some t → (t' : Thread) × (u.thread p ≡ some t')

  pub Live-frame : (k u : Kernel S) (ys : Entries) → Keeps k u → Live k ys → Live u ys
  Live-frame k u [] keeps live = tt
  Live-frame k u (y ∷ ys) keeps (ne, (t, holds), live) =
      (ne, keeps y.payload t holds, Live-frame k u ys keeps live)

  pub Live-insert :
      (k : Kernel S) (e : Entry) (ys : Entries) (t : Thread)
      → e.payload ≢ null
      → k.thread e.payload ≡ some t
      → Live k ys
      → Live k (insert e ys)
  unfolding insert
  Live-insert k e [] t ne holds live = (ne, (t, holds), tt)
  Live-insert k e (y ∷ ys) t ne holds live = elim (Bool-cases (ltb e.priority y.priority)) [
    | inl f ↦ rw f (live.0, live.1, Live-insert k e ys t ne holds live.2)
    | inr f ↦ rw f (ne, (t, holds), live)
  ]

  pub Live-joined :
      (k : Kernel S) (es : Waiters) (ys : Entries)
      → AllHeld k es
      → Live k ys
      → Live k (joined es ys)
  Live-joined k [] ys all live = live
  Live-joined k ((e, x) ∷ es) ys (ne, holds, other, all) live =
      Live-joined k es (insert (entry e.at (loose e) x.priority) ys) all
        (Live-insert k (entry e.at (loose e) x.priority) ys x ne holds live)

  pub Live-last :
      (k : Kernel S) (xs : Entries) (e : Entry)
      → Live k (xs ++ e ∷ [])
      → (e.payload ≢ null) × ((t : Thread) × (k.thread e.payload ≡ some t))
  Live-last k [] e live = (live.0, live.1)
  Live-last k (x ∷ xs) e live = Live-last k xs e live.2

  pub AllHeld-init : (k : Kernel S) (xs ys : Waiters) → AllHeld k (xs ++ ys) → AllHeld k xs
  AllHeld-init k [] ys all = tt
  AllHeld-init k ((e, x) ∷ xs) ys (ne, holds, other, all) =
      (ne, holds, Other-append e.payload xs ys other, AllHeld-init k xs ys all)

  ready_or_Other :
      (u : Kernel S) (es : Waiters) (p : Ptr)
      → AllReady u es
      → ((t : Thread) × (u.thread p ≡ some t)) ⊎ Other p es
  ready_or_Other u [] p all = inr tt
  ready_or_Other u ((e, x) ∷ es) p (holds, all) = elim (ready_or_Other u es p all) [
    | inl here ↦ inl here
    | inr other ↦ elim (Bool-cases (e.payload == p)) [
      | inl same ↦ inl (record x { state = ThreadState.ready }, ground (arith, holds, same))
      | inr ne ↦ inr (ground (arith, ne), other)
    ]
  ]

  pub Awake-Keeps :
      (k u : Kernel S) (due rest : Waiters) (ys : Entries) → Awake k due rest ys u → Keeps k u
  Awake-Keeps k u due rest ys a p t holds = elim (ready_or_Other u due p a.ready) [
    | inl here ↦ here
    | inr other ↦ (t, a.others p other ∙ holds)
  ]

pub joined-Descending : (es : Waiters) (ys : Entries) → Descending ys → Descending (joined es ys)
joined-Descending [] ys d = d
joined-Descending ((e, x) ∷ es) ys d =
    joined-Descending es (insert (entry e.at (loose e) x.priority) ys)
      (insert-Descending (entry e.at (loose e) x.priority) ys d)

-- A list that is not empty has a last entry.
pub length-joined : (es : Waiters) (ys : Entries) → length (joined es ys) ≡ length es + length ys
length-joined [] ys = omega arith
length-joined ((e, x) ∷ es) ys = omega (
  arith,
  length-joined es (insert (entry e.at (loose e) x.priority) ys),
  length-insert (entry e.at (loose e) x.priority) ys,
)

pub last_split : (xs : Entries) → 0 < length xs → (vs : Entries) × (e : Entry) × (xs ≡ vs ++ e ∷ [])
last_split [] h = absurd (omega arith)
last_split (x ∷ []) h = ([], x, refl)
last_split (x ∷ y ∷ ys) h =
    let (vs, e, same) = last_split (y ∷ ys) (omega arith) in (x ∷ vs, e, rw same)
