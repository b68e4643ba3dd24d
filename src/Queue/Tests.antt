-- ===== src/Queue/Tests.antt =====
-- The theorems on queues at concrete queues.
use awk.Base.{◌≡◌, refl, [], ◌∷◌, arith, Ptr}
use awk.Run.{ok, fault, ◌>>◌}
use awk.Kernel.{BlockType, Kernel, object}
use awk.Queue.{Queue, queue_pend, queue_post}
use awk.Queue.Pass.{Ready}
use awk.Queue.Fifo.{Alone, post_all, pend_all, queue_fifo, queue_post_after_full}
use awk.Samples.{sample_kernel, no_switch, empty-IsList}

-- Queues of three slots, the threads that wait for them in the list `l`.
abbrev one : Ptr → Queue
one l = record {
  head = 1;
  tail = 0;
  max_length = 3;
  length = 1;
  container = 50;
  slots = 71 ∷ 0 ∷ 0 ∷ [];
  init = 1;
  read_waiting_threads = l;
  write_waiting_threads = l;
}

abbrev full : Ptr → Queue
full l = record (one l) { head = 3; length = 3; slots = 71 ∷ 72 ∷ 73 ∷ [] }

abbrev empty : Ptr → Queue
empty l = record (one l) { head = 0; length = 0 }

abbrev kernel : Queue → Kernel Queue
kernel q = sample_kernel BlockType.queue q

one-Ready : (l : Ptr) → Ready (kernel (one l)) (71 ∷ [])
one-Ready l = record {
  nest = omega arith;
  init = refl;
  contains = record {
    allocated = refl;
    small = omega arith;
    count = refl;
    ends = refl;
    inside = omega arith;
    lie = (refl, tt);
  };
}

full-Ready : Ready (kernel (full 30)) (71 ∷ 72 ∷ 73 ∷ [])
full-Ready = record {
  nest = omega arith;
  init = refl;
  contains = record {
    allocated = refl;
    small = omega arith;
    count = refl;
    ends = refl;
    inside = omega arith;
    lie = (refl, (refl, (refl, tt)));
  };
}

queue_fifo_example :
    (l : Kernel Queue) × ((post_all 3 [] no_switch (72 ∷ 73 ∷ []) >> pend_all 3 [] no_switch 3)
        (kernel (one 30))
      ≡ ok (71 ∷ 72 ∷ 73 ∷ []) l)
    × Alone l 0 0 []
queue_fifo_example =
    queue_fifo 3 [] no_switch (kernel (one 30)) (71 ∷ []) (72 ∷ 73 ∷ [])
      (record { ready = one-Ready 30; no_reader = empty-IsList; no_writer = empty-IsList })
      (omega arith)

queue_post_after_full_example :
    (queue_pend 3 [] no_switch object >> queue_post 3 [] no_switch object 74) (kernel (full 30))
    ≡ fault
queue_post_after_full_example =
    queue_post_after_full 3 [] no_switch (kernel (full 30)) 71 (72 ∷ 73 ∷ []) 74
      (record { ready = full-Ready; no_reader = empty-IsList; no_writer = empty-IsList }) refl
