-- ===== src/KernelList/Tests.antt =====
-- The theorems on lists at concrete lists.
use awk.Base.{◌≡◌, refl, [], ◌∷◌, arith}
use mathlib.Core.List.{Perm}
use awk.Run.{Returns}
use awk.Err.{no_err}
use awk.KernelList.{enlist_data, delist_data, remove_node_from}
use awk.KernelList.Chain.{Entries, IsList, Descending, insert}
use awk.KernelList.Enlist.{entry, Enlisted, enlist-insert}
use awk.KernelList.Unlink.{Removed}
use awk.KernelList.Order.{of_priority, enlist_order}
use awk.KernelList.Delist.{delist-last}
use awk.KernelList.Remove.{remove_lem}
use awk.Samples.{sample_heap, low, high, free_node, active-IsList, free-Points}

abbrev actives : Entries
actives = low ∷ high ∷ []

-- The node at 5 with priority 5, and with priority 7.
enlist-insert_example :
    Returns
      (λ r g.
        (r ≡ no_err)
        × Enlisted 20
            (entry 5 free_node 5)
            actives
            (low ∷ entry 5 free_node 5 ∷ high ∷ [])
            2
            sample_heap
            g)
      (enlist_data 3 5 20 5 sample_heap)
unfolding insert
enlist-insert_example = enlist-insert free-Points 3 5 actives active-IsList refl (omega arith)

enlist_order_example :
    Returns
      (λ r g.
        (r ≡ no_err)
        × ((ys : Entries) × IsList g 20 ys 3
            × Descending ys
            × Perm ys (entry 5 free_node 7 ∷ actives)
            × (of_priority 7 ys ≡ entry 5 free_node 7 ∷ of_priority 7 actives)))
      (enlist_data 3 5 20 7 sample_heap)
enlist_order_example =
    enlist_order 3 7 actives free-Points active-IsList refl (omega arith)
      ((omega arith, tt), (tt, tt))

delist-last_example :
    Returns
      (λ (p, r) g. (p ≡ 4) × (r ≡ no_err) × Removed 20 high (low ∷ []) [] 1 sample_heap g)
      (delist_data 20 sample_heap)
delist-last_example = delist-last (low ∷ []) high active-IsList

remove_lem_example :
    Returns
      (λ r g. (r ≡ no_err) × Removed 20 low [] (high ∷ []) 2 sample_heap g)
      (remove_node_from 3 20 3 sample_heap)
remove_lem_example = remove_lem low 3 [] (high ∷ []) active-IsList (omega arith)
