-- ===== src/ThreadLife/Join.antt =====
-- `wait_thread` for a thread that has ended.
use awk.Base.{
  [], ◌∷◌, Bool-cases, inl, inr, ◌==◌, ℕ, ◌+◌, ◌-◌, ◌%◌, ◌^◌, ◌<◌, ◌≡◌, ◌≢◌, sym, true, Option,
  some, none, arith, Ptr, null, update, length,
}
use awk.Run.{ok}
use awk.Err.{no_err}
use awk.KernelList.{Heap}
use awk.KernelList.Chain.{Entries, has, IsList, ne_null_of_has}
use awk.Kernel.{
  ThreadState, Thread, Kernel, Switch, disable_local_interrupt, enable_local_interrupt, load_thread,
  set_thread,
}
use awk.Blocking.Wake.{IsList-frame, Apart}
use awk.ThreadLife.{is_zombie, clean_joined_thread, wait_thread}
use awk.ThreadLife.Forget.{forget, forget_in_lem, Forgotten}

-- A list in which the thread was not looked for.
IsList-forgotten :
    {l t : Ptr} {xs : Entries} {n : ℕ} {h g : Heap}
    → Forgotten l t xs n h g
    → (l' : Ptr) (ys : Entries) (m : ℕ) → IsList h l' ys m
    → l' ≢ l
    → Apart ys xs
    → IsList g l' ys m
IsList-forgotten {h} {g} gone l' ys m is ne apart =
    IsList-frame h g l' ys m is
      (λ q i. gone.nodes q (ne_null_of_has h null ys null q is.chain i) (apart q i))
      (gone.lists l' ne)

has-forget : (t q : Ptr) (xs : Entries) → has q (forget t xs) ≡ true → has q xs ≡ true
unfolding forget
has-forget t q [] i = i
has-forget t q (x ∷ xs) i = elim (Bool-cases (x.payload == t)) [
  | inl f ↦ ground (arith, i, f)
  | inr f ↦ ground (arith, i, f, has-forget t q xs)
]

Apart-forget : (t : Ptr) (xs ys : Entries) → Apart xs ys → Apart (forget t xs) ys
Apart-forget t xs ys apart q i = apart q (has-forget t q xs i)

module _ {S : Type 0} where
  -- The three lists of which the thread `t` is taken: the children of the running thread `x`, the
  -- threads that have ended and all threads.
  pub record Lists (k : Kernel S) (x : Thread) (cs zs gs : Entries) (c n n' : ℕ) (fuel : ℕ)
      : Type 0 where
    pub ne_null : k.active_thread ≢ null
    pub holds : k.thread k.active_thread ≡ some x
    pub children : IsList k.heap x.children cs c
    pub ended : IsList k.heap k.zombie_threads_table zs n
    pub all : IsList k.heap k.global_threads_table gs n'
    pub children_ne_ended : x.children ≢ k.zombie_threads_table
    pub children_ne_all : x.children ≢ k.global_threads_table
    pub ended_ne_all : k.zombie_threads_table ≢ k.global_threads_table
    pub children_apart : Apart cs zs × Apart cs gs
    pub ended_apart : Apart zs cs × Apart zs gs
    pub all_apart : Apart gs cs × Apart gs zs
    pub room : (length cs < fuel) × (length zs < fuel) × (length gs < fuel)

  -- None of the three lists has the thread.
  pub record Cleaned (k : Kernel S) (t : Ptr) (x : Thread) (cs zs gs : Entries) (c n n' : ℕ)
      (h : Heap) : Type 0 where
    pub children : IsList h x.children (forget t cs) c
    pub ended : IsList h k.zombie_threads_table (forget t zs) n
    pub all : IsList h k.global_threads_table (forget t gs) n'

  clean_joined_thread_lem :
      (k : Kernel S) (t : Ptr) (x : Thread) (cs zs gs : Entries) {c n n' : ℕ} (fuel : ℕ)
      → Lists k x cs zs gs c n n' fuel
      → (h : Heap) × (clean_joined_thread fuel t k
          ≡ ok tt (record k {
            heap = h;
            thread = update k.thread t none;
            thread_count = (k.thread_count + 2 ^ 32 - 1) % 2 ^ 32;
          }))
        × Cleaned k t x cs zs gs c n n' h
  unfolding clean_joined_thread load_thread
  clean_joined_thread_lem k t x cs zs gs {c} {n} {n'} fuel s =
      let (h1, run1, gone1) = forget_in_lem k fuel x.children t cs c s.children s.room.0 in
      let k1 = record k { heap = h1 } in
      let ended1 =
        IsList-forgotten gone1 k.zombie_threads_table zs n s.ended
          (λ i. s.children_ne_ended (sym i)) s.ended_apart.0 in
      let all1 =
        IsList-forgotten gone1 k.global_threads_table gs n' s.all (λ i. s.children_ne_all (sym i))
          s.all_apart.0 in
      let (h2, run2, gone2) = forget_in_lem k1 fuel k.zombie_threads_table t zs n ended1 s.room.1 in
      let k2 = record k { heap = h2 } in
      let children2 =
        IsList-forgotten gone2 x.children (forget t cs) c gone1.list s.children_ne_ended
          (Apart-forget t cs zs s.children_apart.0) in
      let all2 =
        IsList-forgotten gone2 k.global_threads_table gs n' all1 (λ i. s.ended_ne_all (sym i))
          s.all_apart.1 in
      let (h3, run3, gone3) = forget_in_lem k2 fuel k.global_threads_table t gs n' all2 s.room.2 in
      (
        h3,
        ground (arith, s.ne_null, s.holds, run1, run2, run3),
        record {
          children =
              IsList-forgotten gone3 x.children (forget t cs) c children2 s.children_ne_all
                (Apart-forget t cs gs s.children_apart.1);
          ended =
              IsList-forgotten gone3 k.zombie_threads_table (forget t zs) n gone2.list
                s.ended_ne_all (Apart-forget t zs gs s.ended_apart.1);
          all = gone3.list;
        },
      )

  -- `wait_thread` for a thread that has ended returns no error and the value that the thread
  -- returned; its entry leaves the caller's children, the table of ended threads and that of all
  -- threads, the others staying in order, the thread is freed, the number of threads is one less
  -- modulo 2^32, and no other thread changes. The thread is not the caller, the lists are apart, the
  -- fuel is more than the entries of each, and the interrupts' nesting is below its bound.
  pub wait_thread-joins :
      (k : Kernel S) (t : Ptr) (x y : Thread) (cs zs gs : Entries) {c n n' : ℕ} (fuel : ℕ)
      (switch : Switch S)
      → Lists k x cs zs gs c n n' fuel
      → t ≢ null
      → t ≢ k.active_thread
      → k.thread t ≡ some y
      → is_zombie y.state ≡ true
      → k.int_lock_nesting < 2 ^ 32 - 1
      → (h : Heap) × (th : Ptr → Option Thread) × (wait_thread fuel switch t k
          ≡ ok
              (no_err, some y.ret_val)
              (record k {
                heap = h;
                thread = th;
                thread_count = (k.thread_count + 2 ^ 32 - 1) % 2 ^ 32;
              }))
        × (th t ≡ none)
        × ((q : Ptr) → q ≢ t → th q ≡ k.thread q)
        × Cleaned k t x cs zs gs c n n' h
  unfolding wait_thread disable_local_interrupt enable_local_interrupt load_thread set_thread
  wait_thread-joins k t x y cs zs gs {c} {n} {n'} fuel switch s ne other holds over nest =
      let dead = some (record y { state = ThreadState.dead }) in
      let k1 = record k {
        thread = update k.thread t dead;
        int_lock_nesting = k.int_lock_nesting + 1;
      } in
      let s1 : Lists k1 x cs zs gs c n n' fuel = record {
        ne_null = s.ne_null;
        holds = ground (arith, s.holds, other);
        children = s.children;
        ended = s.ended;
        all = s.all;
        children_ne_ended = s.children_ne_ended;
        children_ne_all = s.children_ne_all;
        ended_ne_all = s.ended_ne_all;
        children_apart = s.children_apart;
        ended_apart = s.ended_apart;
        all_apart = s.all_apart;
        room = s.room;
      } in
      let (h, run, cleaned) = clean_joined_thread_lem k1 t x cs zs gs fuel s1 in
      (
        h,
        update (update k.thread t dead) t none,
        ground (arith, run),
        ground arith,
        (λ q ne'. ground (arith, ne')),
        record { children = cleaned.children; ended = cleaned.ended; all = cleaned.all },
      )
