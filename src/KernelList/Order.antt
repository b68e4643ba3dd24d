-- ===== src/KernelList/Order.antt =====
-- Lists that are kept by `kernel_list_enlist_data` are in order of priority, and first come, first
-- served among equals.
use awk.Base.{
  ℕ, ◌≤◌, ◌<◌, ◌+◌, ◌-◌, ◌%◌, ◌^◌, Ptr, ◌≡◌, refl, true, false, [], ◌∷◌, ◌++◌, arith, ltb,
  if◌then◌else◌, length, Bool-cases, inl, inr, ◌==◌,
}
use awk.Run
use awk.Run.{Returns}
use awk.Err.{no_err}
use awk.KernelList.{Node, Heap, enlist_data, delist_data}
use awk.KernelList.Steps.{Points}
use awk.KernelList.Enlist.{entry, enlist-insert}
use awk.KernelList.Unlink.{Removed}
use awk.KernelList.Delist.{delist-last}
use awk.KernelList.Chain.{IsList, Entry, Entries, Bounded, Descending, insert, has}
use mathlib.Core.List.{Perm}
use mathlib.Core.List.Perm

Bounded-weaken : (m n : ℕ) (xs : Entries) → m ≤ n → Bounded m xs → Bounded n xs
Bounded-weaken m n [] le b = tt
Bounded-weaken m n (x ∷ xs) le b = (omega arith, Bounded-weaken m n xs le b.1)

Bounded-insert :
    (n : ℕ) (e : Entry) (xs : Entries) → e.priority ≤ n → Bounded n xs → Bounded n (insert e xs)
unfolding insert
Bounded-insert n e [] le b = (le, tt)
Bounded-insert n e (x ∷ xs) le b = elim (Bool-cases (ltb e.priority x.priority)) [
  | inl t ↦ rw t (b.0, Bounded-insert n e xs le b.1)
  | inr t ↦ rw t (le, b)
]

-- Insertion keeps the order.
pub insert-Descending : (e : Entry) (xs : Entries) → Descending xs → Descending (insert e xs)
unfolding insert
insert-Descending e [] d = (tt, tt)
insert-Descending e (x ∷ xs) d = elim (Bool-cases (ltb e.priority x.priority)) [
  | inl t ↦ rw t (Bounded-insert x.priority e xs (ground arith) d.0, insert-Descending e xs d.1)
  | inr t ↦ rw t ((ground arith, Bounded-weaken x.priority e.priority xs (ground arith) d.0), d)
]

-- It adds the entry and nothing else.
insert-perm : (e : Entry) (xs : Entries) → Perm (insert e xs) (e ∷ xs)
unfolding insert
insert-perm e [] = Perm.refl (e ∷ [])
insert-perm e (x ∷ xs) = elim (Bool-cases (ltb e.priority x.priority)) [
  | inl t ↦ rw t (Perm.trans (Perm.cons x (insert-perm e xs)) (Perm.swap e x xs))
  | inr t ↦ rw t (Perm.refl (e ∷ x ∷ xs))
]

-- The entries of one priority, from `head` to `tail`.
unfoldable pub of_priority : ℕ → Entries → Entries
of_priority n [] = []
of_priority n (x ∷ xs) = if x.priority == n then x ∷ of_priority n xs else of_priority n xs

-- Among equals the new entry comes at the far end from `tail`: it is served last.
of_priority-insert :
    (e : Entry) (xs : Entries)
    → of_priority e.priority (insert e xs) ≡ e ∷ of_priority e.priority xs
unfolding insert of_priority
of_priority-insert e [] = ground arith
of_priority-insert e (x ∷ xs) = elim (Bool-cases (ltb e.priority x.priority)) [
  | inl t ↦
      let other : (x.priority == e.priority) ≡ false = ground arith in
      rw (t, other) (of_priority-insert e xs)
  | inr t ↦ let self : (e.priority == e.priority) ≡ true = ground arith in rw (t, self)
]

-- Where all entries have priority 0, a new one of priority 0 goes to the front.
abbrev pub AllZero : Entries → Type 0
AllZero [] = Unit
AllZero (x ∷ xs) = (x.priority ≡ 0) × AllZero xs

insert-AllZero : (e : Entry) (xs : Entries) → e.priority ≡ 0 → AllZero xs → insert e xs ≡ e ∷ xs
unfolding insert
insert-AllZero e [] z all = refl
insert-AllZero e (x ∷ xs) z all =
    let below : ltb e.priority x.priority ≡ false = ground arith in rw below

AllZero-of_append : (xs ys : Entries) → AllZero (xs ++ ys) → AllZero xs
AllZero-of_append [] ys all = tt
AllZero-of_append (x ∷ xs) ys all = (all.0, AllZero-of_append xs ys all.1)

-- In a list in order the last entry has the least number.
abbrev pub AtLeast : ℕ → Entries → Type 0
AtLeast n [] = Unit
AtLeast n (x ∷ xs) = (n ≤ x.priority) × AtLeast n xs

Bounded-last : (n : ℕ) (xs : Entries) (e : Entry) → Bounded n (xs ++ e ∷ []) → e.priority ≤ n
Bounded-last n [] e b = b.0
Bounded-last n (x ∷ xs) e b = Bounded-last n xs e b.1

pub AtLeast-of_Descending :
    (xs : Entries) (e : Entry) → Descending (xs ++ e ∷ []) → AtLeast e.priority xs
AtLeast-of_Descending [] e d = tt
AtLeast-of_Descending (x ∷ xs) e d =
    (Bounded-last x.priority xs e d.0, AtLeast-of_Descending xs e d.1)

Bounded-init : (n : ℕ) (xs ys : Entries) → Bounded n (xs ++ ys) → Bounded n xs
Bounded-init n [] ys b = tt
Bounded-init n (x ∷ xs) ys b = (b.0, Bounded-init n xs ys b.1)

Descending-init : (xs ys : Entries) → Descending (xs ++ ys) → Descending xs
Descending-init [] ys d = tt
Descending-init (x ∷ xs) ys d = (Bounded-init x.priority xs ys d.0, Descending-init xs ys d.1)

-- Enlisting a node from outside in a list in order of priority, with more fuel than entries, leaves
-- it in order: the list has the new entry and its old ones and no other, and of the entries of the
-- new one's priority (its lower 16 bits) the new one stands farthest from the end that is served
-- first.
pub enlist_order :
    {h : Heap} {l p : Ptr} {n : ℕ} {m : Node} (fuel pr : ℕ) (xs : Entries)
    → Points h p m
    → IsList h l xs n
    → has p xs ≡ false
    → length xs < fuel
    → Descending xs
    → Returns
        (λ r g.
          (r ≡ no_err)
          × ((ys : Entries) × IsList g l ys ((n + 1) % 2 ^ 32)
              × Descending ys
              × Perm ys (entry p m pr ∷ xs)
              × (of_priority (pr % 2 ^ 16) ys ≡ entry p m pr ∷ of_priority (pr % 2 ^ 16) xs)))
        (enlist_data fuel p l pr h)
enlist_order {p} {m} fuel pr xs at_p is out k d =
    Run.mono (enlist-insert at_p fuel pr xs is out k) λ r g (fine, after). (
      fine,
      (
        insert (entry p m pr) xs,
        after.list,
        insert-Descending (entry p m pr) xs d,
        insert-perm (entry p m pr) xs,
        of_priority-insert (entry p m pr) xs,
      ),
    )

-- `kernel_list_delist_data` on a list in order of priority that is not empty returns, without error,
-- the node of an entry whose priority number none of the others is below; that node leaves the list
-- and is cleared, and the others stay in order.
pub delist_order :
    {h : Heap} {l : Ptr} {n : ℕ} (xs : Entries) (e : Entry)
    → IsList h l (xs ++ e ∷ []) n
    → Descending (xs ++ e ∷ [])
    → Returns
        (λ (p, r) g.
          (p ≡ e.at)
          × (r ≡ no_err)
          × Removed l e xs [] ((n + 2 ^ 32 - 1) % 2 ^ 32) h g
          × AtLeast e.priority xs
          × Descending xs)
        (delist_data l h)
delist_order xs e is d = Run.mono (delist-last xs e is) λ (p, r) g (at_e, fine, gone).
    (at_e, fine, gone, AtLeast-of_Descending xs e d, Descending-init xs (e ∷ []) d)
