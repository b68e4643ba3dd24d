-- ===== src/Queue/Fifo.antt =====
-- Series of calls on a queue that no other thread uses.
use awk.Base.{
  ℕ, zero, suc, ◌+◌, ◌≤◌, ◌≡◌, refl, sym, List, [], ◌∷◌, ◌++◌, arith, Ptr, length as list_length,
  length-append,
}
use mathlib.Core.List.{append-nil, append_assoc}
use awk.Run.{Cmd, ok, fault, pure, ◌>>=◌, ◌>>◌}
use awk.KernelList.Chain.{IsList}
use awk.Kernel.{Kernel, object, Switch}
use awk.Queue.{Queue, queue_pend, queue_post}
use awk.Queue.Pass.{
  Ready, posted, pended, queue_post-appends, queue_pend-first, queue_post_overflows,
}

-- `queue_post` for each pointer of a list, and `queue_pend` a number of times.
unfoldable pub post_all :
    (fuel : ℕ) → List (Switch Queue) → Switch Queue → List Ptr → Cmd (Kernel Queue) (Unit {0})
post_all fuel switches switch [] = pure tt
post_all fuel switches switch (v ∷ vs) = do
  queue_post fuel switches switch object v
  post_all fuel switches switch vs

unfoldable pub pend_all :
    (fuel : ℕ) → List (Switch Queue) → Switch Queue → ℕ → Cmd (Kernel Queue) (List Ptr)
pend_all fuel switches switch zero = pure []
pend_all fuel switches switch (suc n) = do
  (v, _) ← queue_pend fuel switches switch object
  vs ← pend_all fuel switches switch n
  pure (v ∷ vs)

-- The queue may be used, contains `vs` and has no thread waiting for it.
pub record Alone (k : Kernel Queue) (r w : ℕ) (vs : List Ptr) : Type 0 where
  pub ready : Ready k vs
  pub no_reader : IsList k.heap k.self.read_waiting_threads [] r
  pub no_writer : IsList k.heap k.self.write_waiting_threads [] w

module _ (fuel : ℕ) (switches : List (Switch Queue)) (switch : Switch Queue) {r w : ℕ} where
  post_all-appends :
      (k : Kernel Queue) (vs ws : List Ptr)
      → Alone k r w vs
      → k.self.head + list_length ws ≤ k.self.max_length
      → (l : Kernel Queue) × (post_all fuel switches switch ws k ≡ ok tt l)
        × Alone l r w (vs ++ ws)
        × (l.self.max_length ≡ k.self.max_length)
  unfolding post_all
  post_all-appends k vs [] a room = (k, refl, rw append-nil a, refl)
  post_all-appends k vs (v ∷ ws) a room =
      let (put, next) =
        queue_post-appends {k = k} fuel switches switch v a.ready a.no_reader (omega arith) in
      let (l, run, at_end, same) =
        post_all-appends (posted v k) (vs ++ v ∷ []) ws
          (record { ready = next; no_reader = a.no_reader; no_writer = a.no_writer })
          (omega arith) in
      (l, rw (put, run), rw append_assoc at at_end, same)

  pend_all-gives :
      (k : Kernel Queue) (vs : List Ptr)
      → Alone k r w vs
      → (l : Kernel Queue) × (pend_all fuel switches switch (list_length vs) k ≡ ok vs l)
        × Alone l r w []
  unfolding pend_all
  pend_all-gives k [] a = (k, refl, a)
  pend_all-gives k (v ∷ vs) a =
      let (got, next) = queue_pend-first {k = k} fuel switches switch a.ready a.no_writer in
      let (l, run, at_end) =
        pend_all-gives (pended k) vs
          (record { ready = next; no_reader = a.no_reader; no_writer = a.no_writer }) in
      (l, rw (got, run), at_end)

  -- On a queue that contains `vs` and that no thread waits for, as many pointers `ws` as the array
  -- has slots left behind its head can be posted by `queue_post`, and as many calls of `queue_pend`
  -- as there are pointers then return `vs` and `ws` in that order; the queue is empty afterwards.
  pub queue_fifo :
      (k : Kernel Queue) (vs ws : List Ptr)
      → Alone k r w vs
      → k.self.head + list_length ws ≤ k.self.max_length
      → (l : Kernel Queue) × ((do
        post_all fuel switches switch ws
        pend_all fuel switches switch (list_length vs + list_length ws))
            k
          ≡ ok (vs ++ ws) l)
        × Alone l r w []
  queue_fifo k vs ws a room =
      let (l, put, full, _) = post_all-appends k vs ws a room in
      let (t, got, empty) = pend_all-gives l (vs ++ ws) full in
      (t, rw (put, sym (length-append vs ws), got), empty)

  -- A full queue that no thread waits for, read once by `queue_pend` and then posted to by
  -- `queue_post`, is written to beyond the allocated array, though its first slot is free.
  pub queue_post_after_full :
      (k : Kernel Queue) (v : Ptr) (vs : List Ptr) (element : Ptr)
      → Alone k r w (v ∷ vs)
      → list_length (v ∷ vs) ≡ k.self.max_length
      → (do queue_pend fuel switches switch object; queue_post fuel switches switch object element)
          k
        ≡ fault
  queue_post_after_full k v vs element a full =
      let (got, next) = queue_pend-first {k = k} fuel switches switch a.ready a.no_writer in
      rw (got) (
        queue_post_overflows {k = pended k} fuel switches switch element next
          (omega (arith, full, a.ready.contains.ends, a.ready.contains.inside))
          (omega (arith, full)))
