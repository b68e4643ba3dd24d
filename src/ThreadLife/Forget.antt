-- ===== src/ThreadLife/Forget.antt =====
-- `clean_joined_thread`: a thread leaves the lists that carry it.
use awk.Base.{
  ℕ, ◌<◌, ◌≡◌, ◌≢◌, refl, sym, ◌∙◌, false, none, [], ◌∷◌, ◌++◌, arith, Ptr, null, length,
  length-append, ◌==◌, if◌then◌else◌, Bool-cases, inl, inr, ◌⊎◌,
}
use awk.Run
use awk.Run.{ok}
use awk.Err.{no_err}
use awk.KernelList.{Heap, load_node, delete_node, remove_node_from}
use awk.KernelList.Steps.{with_node}
use awk.KernelList.Chain.{Entry, Entries, has, has-append, IsList}
use awk.KernelList.Splice.{Distinct-of_append}
use awk.KernelList.Find.{carrier, find_lem}
use awk.KernelList.Remove.{remove_lem}
use awk.Kernel.{Kernel}
use awk.Blocking.Wake.{IsList-frame}
use awk.ThreadLife.{forget_in}

-- The list without the first entry that carries the thread `t`.
unfoldable pub forget : Ptr → Entries → Entries
forget t [] = []
forget t (x ∷ xs) = if x.payload == t then xs else x ∷ forget t xs

-- An entry `e` carries `t`, and none before it does.
pub record Carried (t : Ptr) (xs : Entries) : Type 0 where
  pub before : Entries
  pub e : Entry
  pub after : Entries
  pub split : xs ≡ before ++ e ∷ after
  pub at_e : carrier t xs ≡ e.at
  pub rest : forget t xs ≡ before ++ after

Carried-or_not :
    (t : Ptr) (xs : Entries) → Carried t xs ⊎ ((carrier t xs ≡ null) × (forget t xs ≡ xs))
unfolding carrier forget
Carried-or_not t [] = inr (refl, refl)
Carried-or_not t (x ∷ xs) = elim (Bool-cases (x.payload == t)) [
  | inl f ↦ inl (record { before = []; e = x; after = xs; split = refl; at_e = rw f; rest = rw f })
  | inr f ↦ elim (Carried-or_not t xs) [
    | inl c ↦ inl (record {
      before = x ∷ c.before;
      e = c.e;
      after = c.after;
      split = rw (sym c.split);
      at_e = rw f c.at_e;
      rest = rw (f, c.rest);
    })
    | inr (absent, same) ↦ inr (rw f absent, rw (f, same))
  ]
]

-- The list at `l` has lost the entry of `t`; other nodes and lists are as before.
pub record Forgotten (l t : Ptr) (xs : Entries) (n : ℕ) (h g : Heap) : Type 0 where
  pub list : IsList g l (forget t xs) n
  pub gone : carrier t xs ≢ null → g.node (carrier t xs) ≡ none
  pub nodes : (q : Ptr) → q ≢ null → has q xs ≡ false → g.node q ≡ h.node q
  pub lists : (q : Ptr) → q ≢ l → g.list q ≡ h.list q

outside :
    (q : Ptr) (xs : Entries) (e : Entry) (ys : Entries)
    → has q (xs ++ e ∷ ys) ≡ false
    → (q ≢ e.at) × (has q (xs ++ ys) ≡ false)
outside q xs e ys out = (
  ground (arith, out, has-append q xs (e ∷ ys)),
  ground (arith, out, has-append q xs (e ∷ ys), has-append q xs ys),
)

module _ {S : Type 0} where
  forget-Carried :
      (k : Kernel S) (fuel : ℕ) (l t : Ptr) (xs : Entries) (n : ℕ)
      → IsList k.heap l xs n
      → length xs < fuel
      → Carried t xs
      → (g : Heap) × (forget_in fuel l t k ≡ ok tt (record k { heap = g }))
        × Forgotten l t xs n k.heap g
  unfolding forget_in delete_node load_node
  forget-Carried k fuel l t xs n is room c =
      let is' : IsList k.heap l (c.before ++ c.e ∷ c.after) n = rw c.split at is in
      let len = length-append c.before (c.e ∷ c.after) in
      let (r, g, run, (fine, gone)) =
        Run.outcome
          (remove_lem c.e fuel c.before c.after is' (ground (arith, room, c.split, len))) in
      let run' : remove_node_from fuel l c.e.at k.heap ≡ ok no_err g = cc in
      let found = find_lem fuel t xs is room in
      let parts = Distinct-of_append c.before (c.e ∷ c.after) is'.distinct in
      let out : has c.e.at (c.before ++ c.after) ≡ false =
        ground (arith, parts, parts.2 c.e.at, has-append c.e.at c.before c.after) in
      let h = with_node g c.e.at none in
      (
        h,
        ground (arith, found, run', c.at_e, gone.node.holds, gone.node.ne_null),
        record {
          list = rw (c.rest) (
              IsList-frame g h l (c.before ++ c.after) n gone.list (λ q i. ground (arith, out, i))
                refl);
          gone = λ ne. rw (c.at_e) (ground arith);
          nodes = λ q ne absent.
              let (ne', absent') = outside q c.before c.e c.after (rw c.split at absent) in
              ground (arith, ne') ∙ gone.nodes q ne ne' absent';
          lists = λ q ne. gone.lists q ne;
        },
      )

  pub forget_in_lem :
      (k : Kernel S) (fuel : ℕ) (l t : Ptr) (xs : Entries) (n : ℕ)
      → IsList k.heap l xs n
      → length xs < fuel
      → (g : Heap) × (forget_in fuel l t k ≡ ok tt (record k { heap = g }))
        × Forgotten l t xs n k.heap g
  unfolding forget_in delete_node load_node
  forget_in_lem k fuel l t xs n is room =
      let found = find_lem fuel t xs is room in
      elim (Carried-or_not t xs) [
        | inr (absent, same) ↦ (
          k.heap,
          ground (arith, found, absent),
          record {
            list = rw same is;
            gone = λ ne. absurd (ne absent);
            nodes = λ q ne out. refl;
            lists = λ q ne. refl;
          },
        )
        | inl c ↦ forget-Carried k fuel l t xs n is room c
      ]
