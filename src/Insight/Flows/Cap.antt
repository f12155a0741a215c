-- ===== src/Insight/Flows/Cap.antt =====
-- What is left out of a capped list of findings.
use mathlib.Core.Path.{subst}
use mathlib.Core.List.Permᴰ
use mathlib.Core.List.{Permᴰ}
use illumio_k8s_utility_oper.Prelude.{
  ℕ, ◌≤◌, ◌<◌, ◌≡◌, ◌↔◌, refl, sym, true, ◌||◌, List, [], ◌++◌, length, take, All, leb,
  if◌then◌else◌, Bool-cases, inl, inr, arith, ◌==◌, nat_eq,
}
use Prim.Native.Nat.{compare}
use illumio_k8s_utility_oper.Prelude.Int.{pos, signed_rank}
use illumio_k8s_utility_oper.Prelude.Order.{
  at_most, IsOrder, Sorter, SorterIsLawful, sort-IsOrder, compare-IsOrder, then_by-IsOrder,
  on-IsOrder, swap-IsOrder, text_compare-IsOrder, text_compare,
}
use illumio_k8s_utility_oper.Prelude.Order.Perm.{perm-length}
use illumio_k8s_utility_oper.Prelude.Order.Split.{
  drop, take-drop, length-take, ascending-split, All-impl, All-always,
}
use illumio_k8s_utility_oper.Api.Insight.{FlowFinding}
use illumio_k8s_utility_oper.Insight.Flows.{peer_key, by_connections, cap_findings}

module _ (sorter : Sorter) where
  by_connections-IsOrder : IsOrder (by_connections sorter)
  by_connections-IsOrder =
      then_by-IsOrder
        (swap-IsOrder (λ a b. compare (signed_rank a.connections) (signed_rank b.connections))
          (on-IsOrder (λ (f : FlowFinding). signed_rank f.connections) compare compare-IsOrder))
        (then_by-IsOrder
          (on-IsOrder (λ (f : FlowFinding). peer_key sorter f.peer f.peer_ip) text_compare
            text_compare-IsOrder)
          (on-IsOrder (λ (f : FlowFinding). f.port) compare compare-IsOrder))

  by_connections_ge :
      (a b : FlowFinding)
      → at_most (by_connections sorter a b) ≡ true
      → signed_rank b.connections ≤ signed_rank a.connections
  by_connections_ge a b h = ground arith

  abbrev pub NotMore : List FlowFinding → FlowFinding → Type 0
  NotMore left kept =
      All (λ (f : FlowFinding). signed_rank f.connections ≤ signed_rank kept.connections) left

  -- For a positive bound and a sort that sorts: the list is reported as truncated exactly if it is longer
  -- than the bound; then the result has the length of the bound, and otherwise that of the list. What is kept and what is left out make up the
  -- findings, and no finding that is left out has more connections than one that is kept,
  -- as the code compares them: as signed numbers.
  pub cap_findings_lem :
      SorterIsLawful sorter
      → (found : List FlowFinding) (n : ℕ) → 0 < n
      → let (kept, truncated) = cap_findings sorter found (pos n) in
        ((truncated ≡ true) ↔ (n < length found))
        × (length kept ≤ n)
        × (length kept ≡ (if truncated then n else length found))
        × ((left : List FlowFinding) × Permᴰ (kept ++ left) found × All (NotMore left) kept)
  unfolding cap_findings
  cap_findings_lem lawful found n positive = elim (Bool-cases (n == 0 || leb (length found) n)) [
    | inl fits ↦ rw fits (
      ground (arith, fits),
      ground (arith, fits),
      refl,
      ([], Permᴰ.append-nil found, All-always (NotMore []) found (λ x. tt)),
    )
    | inr long ↦
        let sorted = sorter.sort (by_connections sorter) found in
        let perm = lawful.sort-perm (by_connections sorter) found in
        let whole : take n sorted ++ drop n sorted ≡ sorted = take-drop n sorted in
        let longer : n < length found = ground (arith, long) in
        rw long (
          (λ _. longer, λ _. refl),
          omega (arith, length-take n sorted (omega (arith, perm-length perm, longer))),
          omega (arith, length-take n sorted (omega (arith, perm-length perm, longer))),
          (
            drop n sorted,
            subst (λ l. Permᴰ l found) (sym whole) perm,
            All-impl (λ x. All (λ y. at_most (by_connections sorter x y) ≡ true) (drop n sorted))
                (NotMore (drop n sorted)) (take n sorted)
                (λ x h.
                  All-impl (λ y. at_most (by_connections sorter x y) ≡ true)
                    (λ (y : FlowFinding). signed_rank y.connections ≤ signed_rank x.connections)
                    (drop n sorted) (λ y. by_connections_ge x y) h)
                (ascending-split (by_connections sorter) n sorted (
                  sort-IsOrder sorter lawful (by_connections sorter) found by_connections-IsOrder)),
          ),
        )
  ]
