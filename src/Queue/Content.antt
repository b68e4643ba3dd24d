-- ===== src/Queue/Content.antt =====
-- What a queue of comm/queue.c contains.
use awk.Base.{
  ℕ, ◌+◌, ◌-◌, ◌^◌, ◌<◌, ◌≤◌, ◌≡◌, ◌∙◌, some, List, [], ◌∷◌, ◌++◌, arith, Ptr, get_elem?, set,
  length as list_length, length-set, length-append, get_elem?-set_self, get_elem?-set_ne,
}
use awk.Queue.{Queue}

-- `vs` lie in the slots from index `i` on.
abbrev pub Lie : List Ptr → ℕ → List Ptr → Type 0
Lie slots i [] = Unit {0}
Lie slots i (v ∷ vs) = (get_elem? slots i ≡ some v) × Lie slots (i + 1) vs

-- The queue contains `vs`, the oldest first. A queue whose indices have not reached the end of the
-- array has them in one run of slots.
pub record Contains (q : Queue) (vs : List Ptr) : Type 0 where
  pub allocated : list_length q.slots ≡ q.max_length
  pub small : q.max_length < 2 ^ 30
  pub count : q.length ≡ list_length vs
  pub ends : q.head ≡ q.tail + list_length vs
  pub inside : q.head ≤ q.max_length
  pub lie : Lie q.slots q.tail vs

Lie-set :
    (slots : List Ptr) (i j : ℕ) (v : Ptr) (vs : List Ptr)
    → i + list_length vs ≤ j
    → Lie slots i vs
    → Lie (set slots j v) i vs
Lie-set slots i j v [] le lie = tt
Lie-set slots i j v (w ∷ vs) le (here, rest) = (
  get_elem?-set_ne slots v (λ e. omega (arith, e)) ∙ here,
  Lie-set slots (i + 1) j v vs (omega arith) rest,
)

Lie-append :
    (slots : List Ptr) (i j : ℕ) (vs : List Ptr) (v : Ptr)
    → j ≡ i + list_length vs
    → Lie slots i vs
    → get_elem? slots j ≡ some v
    → Lie slots i (vs ++ v ∷ [])
Lie-append slots i j [] v e lie here = (ground (arith, e, here), tt)
Lie-append slots i j (w ∷ vs) v e (first, rest) here =
    (first, Lie-append slots (i + 1) j vs v (omega (arith, e)) rest here)

-- The queue after `element` is put in, and after the oldest pointer is taken out.
abbrev pub with_last : Ptr → Queue → Queue
with_last element q = record q {
  slots = set q.slots q.head element;
  head = q.head + 1;
  length = q.length + 1;
}

abbrev pub without_first : Queue → Queue
without_first q = record q { tail = q.tail + 1; length = q.length - 1 }

module _ {q : Queue} {vs : List Ptr} where
  pub with_last-Contains :
      (v : Ptr) → Contains q vs → q.head < q.max_length → Contains (with_last v q) (vs ++ v ∷ [])
  with_last-Contains v c room = record {
    allocated = length-set q.slots q.head v ∙ c.allocated;
    small = c.small;
    count = omega (arith, c.count, length-append vs (v ∷ []));
    ends = omega (arith, c.ends, length-append vs (v ∷ []));
    inside = omega (arith, room);
    lie =
        Lie-append (set q.slots q.head v) q.tail q.head vs v c.ends
          (Lie-set q.slots q.tail q.head v vs (omega (arith, c.ends)) c.lie)
          (get_elem?-set_self q.slots q.head v (omega (arith, room, c.allocated)));
  }

  pub without_first-Contains : {v : Ptr} → Contains q (v ∷ vs) → Contains (without_first q) vs
  without_first-Contains c = record {
    allocated = c.allocated;
    small = c.small;
    count = omega (arith, c.count);
    ends = omega (arith, c.ends);
    inside = c.inside;
    lie = c.lie.1;
  }
