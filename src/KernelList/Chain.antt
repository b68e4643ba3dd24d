-- ===== src/KernelList/Chain.antt =====
-- What a list of core/kernel_list.c stands for: the entries that its nodes carry, from `head` to
-- `tail`, and the shape of the nodes in the heap.
use awk.Base.{
  ℕ, ◌≤◌, ◌≡◌, refl, ◌∙◌, ◌≢◌, Bool, true, false, ◌||◌, some, List, [], ◌∷◌, ◌++◌, arith, Ptr, null,
  ◌==◌, ltb, if◌then◌else◌, ◌⊎◌, inr,
}
use awk.KernelList.{Node, Heap}
use awk.KernelList.Steps.{Points, Heads}

-- A node in a list: its address, its priority and the pointer that it carries.
pub record Entry : Type 0 where
  pub at : Ptr
  pub priority : ℕ
  pub payload : Ptr

abbrev pub Entries : Type 0
Entries = List Entry

-- The address of the first node, or `after` if there is none; of the last one, or `before`.
abbrev pub first : Entries → Ptr → Ptr
first [] after = after
first (x ∷ xs) after = x.at

abbrev pub last : Ptr → Entries → Ptr
last before [] = before
last before (x ∷ xs) = last x.at xs

-- Whether one of the nodes stands at `p`.
abbrev pub has : Ptr → Entries → Bool
has p [] = false
has p (x ∷ xs) = (p == x.at) || has p xs

abbrev pub Distinct : Entries → Type 0
Distinct [] = Unit
Distinct (x ∷ xs) = (has x.at xs ≡ false) × Distinct xs

-- The node that carries `x` between `before` and `after`.
abbrev pub node_of : Ptr → Entry → Ptr → Node
node_of before x after = record {
  next = after;
  prev = before;
  priority = x.priority;
  enlisted = 1;
  payload = x.payload;
}

-- The nodes of `xs`, linked both ways, from `before` on the left to `after` on the right.
abbrev pub Linked : Heap → Ptr → Entries → Ptr → Type 0
Linked h before [] after = Unit
Linked h before (x ∷ xs) after =
    Points h x.at (node_of before x (first xs after)) × Linked h x.at xs after

-- `l` is a list of the entries `xs` whose `size` field is `n`.
pub record IsList (h : Heap) (l : Ptr) (xs : Entries) (n : ℕ) : Type 0 where
  pub header : Heads h l (record { head = first xs null; tail = last null xs; size = n })
  pub chain : Linked h null xs null
  pub distinct : Distinct xs

-- From `head` on priorities do not grow, so `tail` is served first.
abbrev pub Bounded : ℕ → Entries → Type 0
Bounded n [] = Unit
Bounded n (x ∷ xs) = (x.priority ≤ n) × Bounded n xs

abbrev pub Descending : Entries → Type 0
Descending [] = Unit
Descending (x ∷ xs) = Bounded x.priority xs × Descending xs

-- Behind all entries of a higher number, before those of the same.
unfoldable pub insert : Entry → Entries → Entries
insert e [] = e ∷ []
insert e (x ∷ xs) = if ltb e.priority x.priority then x ∷ insert e xs else e ∷ x ∷ xs

pub first-append : (xs ys : Entries) (a : Ptr) → first (xs ++ ys) a ≡ first xs (first ys a)
first-append [] ys a = refl
first-append (x ∷ xs) ys a = refl

pub last-append : (b : Ptr) (xs ys : Entries) → last b (xs ++ ys) ≡ last (last b xs) ys
last-append b [] ys = refl
last-append b (x ∷ xs) ys = last-append x.at xs ys

pub has-append : (p : Ptr) (xs ys : Entries) → has p (xs ++ ys) ≡ (has p xs || has p ys)
has-append p [] ys = refl
has-append p (x ∷ xs) ys = ground (arith, has-append p xs ys)

-- The last node of a list is one of its nodes.
last_cases : (b : Ptr) (xs : Entries) → (has (last b xs) xs ≡ true) ⊎ (last b xs ≡ b)
last_cases b [] = inr refl
last_cases b (x ∷ xs) = ground (arith, last_cases x.at xs)

module _ (h : Heap) where
  pub Linked-append :
      (b : Ptr) (xs ys : Entries) (a : Ptr)
      → Linked h b xs (first ys a)
      → Linked h (last b xs) ys a
      → Linked h b (xs ++ ys) a
  Linked-append b [] ys a s t = t
  Linked-append b (x ∷ xs) ys a s t =
      (rw (first-append xs ys a) s.0, Linked-append x.at xs ys a s.1 t)

  pub Linked-of_append :
      (b : Ptr) (xs ys : Entries) (a : Ptr)
      → Linked h b (xs ++ ys) a
      → Linked h b xs (first ys a) × Linked h (last b xs) ys a
  Linked-of_append b [] ys a s = (tt, s)
  Linked-of_append b (x ∷ xs) ys a s =
      let rest = Linked-of_append x.at xs ys a s.1 in
      ((rw (first-append xs ys a) at (s.0), rest.0), rest.1)

  -- A chain survives any change that spares its nodes.
  pub Linked-frame :
      (g : Heap) (b : Ptr) (xs : Entries) (a : Ptr)
      → Linked h b xs a
      → ((q : Ptr) → has q xs ≡ true → g.node q ≡ h.node q)
      → Linked g b xs a
  Linked-frame g b [] a s same = tt
  Linked-frame g b (x ∷ xs) a s same = (
    record { ne_null = s.0.ne_null; holds = same x.at (ground arith) ∙ s.0.holds },
    Linked-frame g x.at xs a s.1 λ q i. same q (ground arith),
  )

  -- The last node has a place in the heap.
  pub last-Points :
      (b : Ptr) (x : Entry) (xs : Entries) (a : Ptr)
      → Linked h b (x ∷ xs) a
      → (m : Node) × Points h (last x.at xs) m
  last-Points b x [] a s = (_, s.0)
  last-Points b x (y ∷ xs) a s = last-Points x.at y xs a s.1

  -- With its last node's `next` redirected, and no other node changed, a chain leads elsewhere.
  pub redirect_last :
      (g : Heap) (b : Ptr) (x : Entry) (xs : Entries) (a a' : Ptr)
      → Linked h b (x ∷ xs) a
      → Distinct (x ∷ xs)
      → ((m : Node)
          → Points h (last x.at xs) m
          → g.node (last x.at xs) ≡ some (record m { next = a' }))
      → ((q : Ptr) → has q (x ∷ xs) ≡ true → q ≢ last x.at xs → g.node q ≡ h.node q)
      → Linked g b (x ∷ xs) a'
  redirect_last g b x [] a a' s d new same =
      (record { ne_null = s.0.ne_null; holds = new _ s.0 }, tt)
  redirect_last g b x (y ∷ xs) a a' s d new same = (
    record {
      ne_null = s.0.ne_null;
      holds = same x.at (ground arith) (ground (arith, last_cases y.at xs)) ∙ s.0.holds;
    },
    redirect_last g x.at y xs a a' s.1 d.1 new λ q i ne. same q (ground arith) ne,
  )

  -- The same with the first node's `prev`.
  pub redirect_first :
      (g : Heap) (b b' : Ptr) (x : Entry) (xs : Entries) (a : Ptr)
      → Linked h b (x ∷ xs) a
      → ((m : Node) → Points h x.at m → g.node x.at ≡ some (record m { prev = b' }))
      → ((q : Ptr) → has q xs ≡ true → g.node q ≡ h.node q)
      → Linked g b' (x ∷ xs) a
  redirect_first g b b' x xs a s new same =
      (record { ne_null = s.0.ne_null; holds = new _ s.0 }, Linked-frame g x.at xs a s.1 same)

  -- No node of a list stands at `NULL`.
  pub ne_null_of_has :
      (b : Ptr) (xs : Entries) (a q : Ptr) → Linked h b xs a → has q xs ≡ true → q ≢ null
  ne_null_of_has b [] a q s i = cc
  ne_null_of_has b (x ∷ xs) a q s i = ground (arith, ne_null_of_has x.at xs a q s.1)

-- An address that is in the one part of a list only is not where the other part begins or ends.
pub ne-first_of_has : (q : Ptr) (xs : Entries) → q ≢ null → has q xs ≡ false → q ≢ first xs null
ne-first_of_has q [] n o = n
ne-first_of_has q (x ∷ xs) n o = ground arith

pub ne-last_of_has : (q : Ptr) (xs : Entries) → q ≢ null → has q xs ≡ false → q ≢ last null xs
ne-last_of_has q xs n o = ground (arith, last_cases null xs)

pub has-last : (x : Entry) (xs : Entries) → has (last x.at xs) (x ∷ xs) ≡ true
has-last x xs = ground (arith, last_cases x.at xs)

-- The first node is not one that stands outside.
pub head_ne : (p : Ptr) (y : Entry) (ys : Entries) → has p (y ∷ ys) ≡ false → y.at ≢ p
head_ne p y ys out = ground arith
