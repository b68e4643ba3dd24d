-- ===== src/KernelList.antt =====
-- The priority lists of core/kernel_list.c over an explicit heap: doubly linked nodes, and list
-- headers that point at both ends. A walk along a list takes `fuel`, one more than the nodes that
-- it may pass. A function that reports through an `OS_RETURN_E*` returns the reported state beside
-- its value; nothing in the code depends on whether that pointer is `NULL`.
pub mod Steps
pub mod Chain
pub mod Splice
pub mod Place
pub mod Walk
pub mod Enlist
pub mod Unlink
pub mod Delist
pub mod Seek
pub mod Remove
pub mod Find
pub mod Nodes
pub mod Order
mod Tests
use awk.Base.{
  ℕ, zero, suc, ◌+◌, ◌-◌, ◌%◌, ◌^◌, ◌&&◌, ◌||◌, not, Option, none, some, List, [], ◌∷◌, ltb, ◌==◌,
  if◌then◌else◌, Ptr, null, update,
}
use awk.Run.{ok, panic, fault, out_of_fuel, Cmd, pure, ◌>>=◌, ◌>>◌}
use awk.Err.{Err, no_err, null_pointer, no_such_id, malloc_failed, unauthorized_action}

pub record Node : Type 0 where
  pub next : Ptr
  pub prev : Ptr
  pub priority : ℕ
  pub enlisted : ℕ
  pub payload : Ptr

pub record KernelList : Type 0 where
  pub head : Ptr
  pub tail : Ptr
  pub size : ℕ

-- The objects that the lists are made of, by type, and what the next calls of `kmalloc` return.
pub record Heap : Type 0 where
  pub node : Ptr → Option Node
  pub list : Ptr → Option KernelList
  pub mallocs : List Ptr

-- `kmalloc`: `NULL` once the listed results are used up.
unfoldable pub kmalloc : Cmd Heap Ptr
kmalloc h = elim (h.mallocs) [ [] ↦ ok null h | p ∷ ps ↦ ok p (record h { mallocs = ps }) ]

unfoldable pub load_node : Ptr → Cmd Heap Node
load_node p h = if p == null then fault else elim (h.node p) [ none ↦ fault | some n ↦ ok n h ]

unfoldable pub load_list : Ptr → Cmd Heap KernelList
load_list l h = if l == null then fault else elim (h.list l) [ none ↦ fault | some n ↦ ok n h ]

abbrev pub put_node : Ptr → Option Node → Cmd Heap (Unit {0})
put_node p c h = ok tt (record h { node = update h.node p c })

abbrev pub put_list : Ptr → Option KernelList → Cmd Heap (Unit {0})
put_list l c h = ok tt (record h { list = update h.list l c })

-- Writes to fields of `*p`.
unfoldable pub set_node : Ptr → (Node → Node) → Cmd Heap (Unit {0})
set_node p f = do n ← load_node p; put_node p (some (f n))

unfoldable pub set_list : Ptr → (KernelList → KernelList) → Cmd Heap (Unit {0})
set_list l f = do x ← load_list l; put_list l (some (f x))

unfoldable pub create_node : Ptr → Cmd Heap (Ptr × Err)
create_node payload = do
  p ← kmalloc
  if p == null then pure (null, malloc_failed) else do
    put_node p
        (some (record { next = null; prev = null; priority = 0; enlisted = 0; payload = payload }))
    pure (p, no_err)

-- The argument is `*node`; the result's second part is what `*node` holds afterwards.
unfoldable pub delete_node : Ptr → Cmd Heap (Err × Ptr)
delete_node p = if p == null then pure (null_pointer, null) else do
  n ← load_node p
  if not (n.enlisted == 0)
      then pure (unauthorized_action, p)
      else do put_node p none; pure (no_err, null)

unfoldable pub create_list : Cmd Heap (Ptr × Err)
create_list = do
  l ← kmalloc
  if l == null
      then pure (null, malloc_failed)
      else do put_list l (some (record { head = null; tail = null; size = 0 })); pure (l, no_err)

-- As `delete_node`.
unfoldable pub delete_list : Ptr → Cmd Heap (Err × Ptr)
delete_list l = if l == null then pure (null_pointer, null) else do
  x ← load_list l
  if not (x.head == null) || not (x.tail == null)
      then pure (unauthorized_action, l)
      else do put_list l none; pure (no_err, null)

-- `while(cursor != NULL && cursor->priority > priority) cursor = cursor->next;`
pub skip_higher : (fuel : ℕ) → ℕ → Ptr → Cmd Heap Ptr
skip_higher zero priority cursor = λ _. out_of_fuel
skip_higher (suc fuel) priority cursor = if cursor == null then pure null else do
  c ← load_node cursor
  if ltb priority c.priority then skip_higher fuel priority c.next else pure cursor

-- The branch `cursor != NULL`.
pub put_before : (cursor node list : Ptr) → Cmd Heap (Unit {0})
put_before cursor node list = do
  set_node node (λ n. record n { next = cursor })
  c ← load_node cursor
  set_node node (λ n. record n { prev = c.prev })
  set_node cursor (λ n. record n { prev = node })
  n ← load_node node
  if n.prev == null
      then set_list list (λ l. record l { head = node })
      else set_node n.prev (λ m. record m { next = node })

-- The branch `cursor == NULL`: just put on the tail.
pub put_last : (node list : Ptr) → Cmd Heap (Unit {0})
put_last node list = do
  l ← load_list list
  set_node node (λ n. record n { prev = l.tail })
  set_node node (λ n. record n { next = null })
  set_node l.tail (λ n. record n { next = node })
  set_list list (λ l. record l { tail = node })

-- The first item of an empty list.
pub put_first : (node list : Ptr) → Cmd Heap (Unit {0})
put_first node list = do
  set_list list (λ l. record l { head = node })
  set_list list (λ l. record l { tail = node })
  set_node node (λ n. record n { next = null })
  set_node node (λ n. record n { prev = null })

pub place : (fuel : ℕ) → (node list : Ptr) → ℕ → Cmd Heap (Unit {0})
place fuel node list priority = do
  l ← load_list list
  if l.head == null then put_first node list else do
    cursor ← skip_higher fuel priority l.head
    if cursor == null then put_last node list else put_before cursor node list

-- The code's last check: it panics if both neighbours are one node.
pub check_links : Ptr → Cmd Heap (Unit {0})
check_links node = do
  n ← load_node node
  if not (n.next == null) && not (n.prev == null) && (n.next == n.prev)
      then (λ _. panic)
      else pure tt

-- The priority is a `uint16_t`.
pub enlist_data : (fuel : ℕ) → (node list : Ptr) → ℕ → Cmd Heap Err
enlist_data fuel node list priority =
    let priority' = priority % 2 ^ 16 in
    if (node == null) || (list == null) then pure null_pointer else do
      set_node node (λ n. record n { priority = priority' })
      place fuel node list priority'
      set_list list (λ l. record l { size = (l.size + 1) % 2 ^ 32 })
      set_node node (λ n. record n { enlisted = 1 })
      check_links node
      pure no_err

-- `--list->size` wraps.
pub delist_data : Ptr → Cmd Heap (Ptr × Err)
delist_data list = if list == null then pure (null, null_pointer) else do
  l ← load_list list
  if l.head == null then pure (null, no_err) else do
    n ← load_node l.tail
    if n.prev == null then set_list list (λ x. record x { head = null; tail = null }) else (do
      set_node n.prev (λ m. record m { next = null })
      set_list list (λ x. record x { tail = n.prev }))
    set_list list (λ x. record x { size = (x.size + 2 ^ 32 - 1) % 2 ^ 32 })
    set_node l.tail (λ m. record m { next = null; prev = null; enlisted = 0 })
    pure (l.tail, no_err)

-- `while(node != NULL && node->data != data) node = node->next;`
pub find_from : (fuel : ℕ) → Ptr → Ptr → Cmd Heap Ptr
find_from zero payload node = λ _. out_of_fuel
find_from (suc fuel) payload node = if node == null then pure null else do
  n ← load_node node
  if n.payload == payload then pure node else find_from fuel payload n.next

pub find_node : (fuel : ℕ) → (list payload : Ptr) → Cmd Heap (Ptr × Err)
find_node fuel list payload = if list == null then pure (null, null_pointer) else do
  l ← load_list list
  p ← find_from fuel payload l.head
  if p == null then pure (null, no_such_id) else pure (p, no_err)

-- `while(cursor != NULL && cursor != node) cursor = cursor->next;`
pub seek : (fuel : ℕ) → (node cursor : Ptr) → Cmd Heap Ptr
seek zero node cursor = λ _. out_of_fuel
seek (suc fuel) node cursor =
    if cursor == null
    then pure null
    else if cursor == node
    then pure cursor
    else do c ← load_node cursor; seek fuel node c.next

-- Manage link.
pub unlink : (list cursor : Ptr) → Cmd Heap (Unit {0})
unlink list cursor = do
  c ← load_node cursor
  if not (c.prev == null) && not (c.next == null)
      then (do
        set_node c.prev (λ m. record m { next = c.next })
        set_node c.next (λ m. record m { prev = c.prev }))
      else if (c.prev == null) && not (c.next == null)
      then (do
        set_list list (λ l. record l { head = c.next })
        set_node c.next (λ m. record m { prev = null }))
      else if not (c.prev == null) && (c.next == null)
      then (do
        set_list list (λ l. record l { tail = c.prev })
        set_node c.prev (λ m. record m { next = null }))
      else set_list list (λ l. record l { head = null; tail = null })

pub remove_node_from : (fuel : ℕ) → (list node : Ptr) → Cmd Heap Err
remove_node_from fuel list node = if (list == null) || (node == null) then pure null_pointer else do
  l ← load_list list
  cursor ← seek fuel node l.head
  if cursor == null then pure no_such_id else do
    unlink list cursor
    set_node node (λ n. record n { next = null; prev = null; enlisted = 0 })
    pure no_err
