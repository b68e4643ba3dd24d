-- ===== src/Queue/Init.antt =====
-- `queue_init`, and the refusals of the other functions.
use awk.Base.{
  ℕ, ◌-◌, ◌^◌, ◌<◌, ◌≡◌, ◌≢◌, refl, none, some, List, [], ◌∷◌, arith, Ptr, null, replicate,
  length-replicate, ◌∙◌,
}
use awk.Run.{ok}
use awk.Err.{no_err, queue_non_initialized}
use awk.KernelList.{kmalloc}
use awk.KernelList.Steps.{with_list}
use awk.KernelList.Chain.{IsList}
use awk.KernelList.Nodes.{allocated, create_list-IsList}
use awk.Kernel.{BlockType, Kernel, object, Switch, spinlock_lock, spinlock_unlock}
use awk.Blocking.Call.{call-refused}
use awk.Queue.{
  Queue, queue_init, queue_pend, queue_post, queue_length, queue_isempty, queue_is_empty_wait,
  queue_is_full_wait, queue_is_live, queue_take, queue_fill, slots_for,
}
use awk.Queue.Content.{Contains}
use awk.Queue.Pass.{refuse_pend, refuse_post}

slots_for_lem : (length : ℕ) → length < 2 ^ 30 → slots_for length ≡ length
slots_for_lem length small = omega arith

-- If `kmalloc` returns three addresses, none of them `NULL` and the last two different, `queue_init`
-- with a length below 2^30 succeeds: the queue is initialised, contains nothing, has an array of
-- that many slots whatever was in the memory, and no thread waits in either of its lists.
queue_init-Contains :
    (k : Kernel Queue) (garbage : Ptr) (length : ℕ) {c r w : Ptr} {ps : List Ptr}
    → k.heap.mallocs ≡ c ∷ r ∷ w ∷ ps
    → c ≢ null
    → r ≢ null
    → w ≢ null
    → r ≢ w
    → length < 2 ^ 30
    → (t : Kernel Queue) × (queue_init garbage object length k ≡ ok no_err t)
      × (t.self.init ≡ 1)
      × (t.self.max_length ≡ length)
      × (t.int_lock_nesting ≡ k.int_lock_nesting)
      × Contains t.self []
      × IsList t.heap t.self.read_waiting_threads [] 0
      × IsList t.heap t.self.write_waiting_threads [] 0
unfolding queue_init kmalloc
queue_init-Contains k garbage length {c} {r} {w} {ps} given c_ne r_ne w_ne ne small = (
  record k {
    heap =
        with_list
          (with_list (allocated k.heap ps) r (some (record { head = null; tail = null; size = 0 })))
          w (some (record { head = null; tail = null; size = 0 }));
    self = record {
      head = 0;
      tail = 0;
      max_length = length;
      length = 0;
      container = c;
      slots = replicate (slots_for length) garbage;
      init = 1;
      read_waiting_threads = r;
      write_waiting_threads = w;
    };
  },
  ground (
    arith,
    (create_list-IsList (allocated k.heap (r ∷ w ∷ ps)) refl r_ne).0,
    (create_list-IsList
        (with_list (allocated k.heap (w ∷ ps)) r
          (some (record { head = null; tail = null; size = 0 })))
        refl w_ne).0,
  ),
  refl,
  refl,
  refl,
  record {
    allocated = length-replicate (slots_for length) garbage ∙ slots_for_lem length small;
    small = small;
    count = refl;
    ends = refl;
    inside = omega arith;
    lie = tt;
  },
  record { header = ground arith; chain = tt; distinct = tt },
  record { header = ground arith; chain = tt; distinct = tt },
)

-- On a queue that is not initialised, with the interrupts' nesting below its bound, `queue_pend`,
-- `queue_post`, `queue_length` and `queue_isempty` report OS_ERR_QUEUE_NON_INITIALIZED, the first
-- with `NULL`, and leave the kernel as it was.
queue_uninitialized_lem :
    (k : Kernel Queue) (fuel : ℕ) (switches : List (Switch Queue)) (switch : Switch Queue) (v : Ptr)
    → k.int_lock_nesting < 2 ^ 32 - 1
    → k.self.init ≢ 1
    → (queue_pend fuel switches switch object k ≡ ok (null, queue_non_initialized) k)
      × (queue_post fuel switches switch object v k ≡ ok queue_non_initialized k)
      × (queue_length object k ≡ ok (none, queue_non_initialized) k)
      × (queue_isempty object k ≡ ok (none, queue_non_initialized) k)
unfolding queue_pend queue_post queue_length queue_isempty spinlock_lock spinlock_unlock
queue_uninitialized_lem k fuel switches switch v nest dead = (
  ground (
    arith,
    call-refused fuel queue_is_empty_wait (λ q. q.read_waiting_threads) BlockType.queue
        queue_is_live refuse_pend (queue_take fuel switch) switches k nest (ground arith),
  ),
  ground (
    arith,
    call-refused fuel queue_is_full_wait (λ q. q.write_waiting_threads) BlockType.queue
        queue_is_live refuse_post (queue_fill fuel switch v) switches k nest (ground arith),
  ),
  ground arith,
  ground arith,
)
