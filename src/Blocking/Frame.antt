-- ===== src/Blocking/Frame.antt =====
-- A list while a node joins another one.
use awk.Base.{ℕ, ◌≡◌, ◌≢◌, ◌∙◌, false, arith, Ptr, null}
use awk.KernelList.{Heap, Node}
use awk.KernelList.Steps.{Points}
use awk.KernelList.Chain.{Entry, Entries, has, insert, IsList, ne_null_of_has}
use awk.KernelList.Enlist.{Enlisted}
use awk.Blocking.Wake.{IsList-frame, Apart}
use awk.Blocking.Waiters.{has-insert}

module _ {l : Ptr} {e : Entry} {xs zs : Entries} {n : ℕ} {h g : Heap}
    (put : Enlisted l e xs zs n h g) where
  pub IsList-enlisted :
      (l' : Ptr) (ys : Entries) (m : ℕ)
      → IsList h l' ys m
      → l' ≢ l
      → has e.at ys ≡ false
      → Apart ys xs
      → IsList g l' ys m
  IsList-enlisted l' ys m is ne out apart =
      IsList-frame h g l' ys m is
        (λ q i.
          put.nodes q (ne_null_of_has h null ys null q is.chain i)
            (λ same. absurd (ground (arith, out, same, i))) (apart q i))
        (put.lists l' ne)

  pub Points-enlisted :
      (p : Ptr) (m : Node) → Points h p m → p ≢ e.at → has p xs ≡ false → Points g p m
  Points-enlisted p m at_p ne out = record {
    ne_null = at_p.ne_null;
    holds = put.nodes p at_p.ne_null ne out ∙ at_p.holds;
  }

pub Apart-insert :
    (e : Entry) (xs ys : Entries) → has e.at ys ≡ false → Apart xs ys → Apart (insert e xs) ys
Apart-insert e xs ys out apart q i = ground (arith, has-insert q e xs, out, apart q, i)
