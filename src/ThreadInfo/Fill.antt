-- ===== src/ThreadInfo/Fill.antt =====
-- The walk of `get_threads_info` along the table of all threads.
use awk.Base.{
  ℕ, zero, suc, ◌+◌, ◌-◌, ◌^◌, ◌<◌, ◌≤◌, ◌≡◌, ◌≢◌, refl, some, List, [], ◌∷◌, arith, Ptr, null,
  length, take,
}
use awk.Run.{ok, fault}
use awk.Err.{no_err}
use awk.KernelList.{load_node}
use awk.KernelList.Steps.{load_node_lem, load_list_lem}
use awk.KernelList.Chain.{Entry, Entries, Linked, IsList}
use awk.Kernel.{
  Thread, Kernel, object, load_thread, disable_local_interrupt, enable_local_interrupt,
}
use awk.Blocking.Waiters.{Waiters}
use awk.ThreadInfo.{ThreadInfo, info_of, cut_size, rounds_for, fill, get_threads_info}

-- Entries with their threads, from the head of a list to its tail.
abbrev pub entries_of : Waiters → Entries
entries_of [] = []
entries_of ((e, x) ∷ ws) = e ∷ entries_of ws

abbrev pub infos_of : Waiters → List ThreadInfo
infos_of [] = []
infos_of ((e, x) ∷ ws) = info_of x ∷ infos_of ws

module _ {S : Type 0} where
  abbrev pub AllCarried : Kernel S → Waiters → Type 0
  AllCarried k [] = Unit {0}
  AllCarried k ((e, x) ∷ ws) = (e.payload ≢ null) × (k.thread e.payload ≡ some x) × AllCarried k ws

  fill-take :
      (k : Kernel S) (b : Ptr) (rounds : ℕ) (e : Entry) (x : Thread) (ws : Waiters)
      → Linked k.heap b (entries_of ((e, x) ∷ ws)) null
      → AllCarried k ((e, x) ∷ ws)
      → rounds ≤ length ws
      → fill rounds e.at e.payload k ≡ ok (take rounds (infos_of ((e, x) ∷ ws))) k
  unfolding fill load_thread
  fill-take k b zero e x ws s all le = refl
  fill-take k b (suc rounds) e x [] s all le = absurd (omega arith)
  fill-take k b (suc rounds) e x ((f, y) ∷ ws) s all le = ground (
    arith,
    load_node_lem s.0,
    load_node_lem (s.1.0),
    s.0.ne_null,
    all,
    fill-take k e.at rounds f y ws s.1 all.2 (omega arith),
  )

  fill_faults :
      (k : Kernel S) (b : Ptr) (rounds : ℕ) (e : Entry) (x : Thread) (ws : Waiters)
      → Linked k.heap b (entries_of ((e, x) ∷ ws)) null
      → AllCarried k ((e, x) ∷ ws)
      → length ws < rounds
      → fill rounds e.at e.payload k ≡ fault
  unfolding fill load_thread load_node
  fill_faults k b zero e x ws s all lt = absurd (omega arith)
  fill_faults k b (suc rounds) e x [] s all lt = ground (arith, s.0, all)
  fill_faults k b (suc rounds) e x ((f, y) ∷ ws) s all lt =
      ground (arith, s.0, s.1.0, all, fill_faults k e.at rounds f y ws s.1 all.2 (omega arith))

  AllCarried-nest :
      (k : Kernel S) (n : ℕ) (ws : Waiters)
      → AllCarried k ws
      → AllCarried (record k { int_lock_nesting = n }) ws
  AllCarried-nest k n [] all = tt
  AllCarried-nest k n ((e, x) ∷ ws) all = (all.0, all.1, AllCarried-nest k n ws all.2)

module _ {S : Type 0} (k : Kernel S) (n : ℕ) (e : Entry) (x : Thread) (ws : Waiters) {m : ℕ}
    (is : IsList k.heap k.global_threads_table (entries_of ((e, x) ∷ ws)) m)
    (all : AllCarried k ((e, x) ∷ ws)) (nest : k.int_lock_nesting < 2 ^ 32 - 1) where
  abbrev locked : Kernel S
  locked = record k { int_lock_nesting = k.int_lock_nesting + 1 }

  -- If the entries that are asked for, after the number is cut to that of the threads, are fewer
  -- than the table of all threads has, `get_threads_info` returns no error, the identifiers,
  -- priorities and states of as many threads from the head of the table on, and that number; the
  -- kernel is as before. Every entry has a thread, and the interrupts' nesting is below its bound.
  pub get_threads_info-take :
      rounds_for (cut_size n k.thread_count) ≤ length ws
      → get_threads_info object object n k
        ≡ ok
            (
              no_err,
              take (rounds_for (cut_size n k.thread_count)) (infos_of ((e, x) ∷ ws)),
              cut_size n k.thread_count,
            )
            k
  unfolding get_threads_info disable_local_interrupt enable_local_interrupt
  get_threads_info-take le = ground (
    arith,
    load_list_lem is.header,
    load_node_lem (is.chain.0),
    is.chain.0.ne_null,
    fill-take locked null (rounds_for (cut_size n k.thread_count)) e x ws is.chain
        (AllCarried-nest k (k.int_lock_nesting + 1) ((e, x) ∷ ws) all) le,
  )

  -- If the table of all threads has as many entries as there are threads, and at least so many are
  -- asked for, `get_threads_info` reads through `NULL` after the last entry. The number asked for is
  -- below 2^31, every entry has a thread, and the interrupts' nesting is below its bound.
  pub get_threads_info_all :
      k.thread_count ≡ length ((e, x) ∷ ws)
      → k.thread_count ≤ n
      → n < 2 ^ 31
      → get_threads_info object object n k ≡ fault
  unfolding get_threads_info disable_local_interrupt enable_local_interrupt
  get_threads_info_all count enough small = ground (
    arith,
    load_list_lem is.header,
    load_node_lem (is.chain.0),
    is.chain.0.ne_null,
    fill_faults locked null (rounds_for (cut_size n k.thread_count)) e x ws is.chain
        (AllCarried-nest k (k.int_lock_nesting + 1) ((e, x) ∷ ws) all) (ground arith),
  )
