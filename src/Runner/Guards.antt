-- ===== src/Runner/Guards.antt =====
-- What the guards of a run promise: the wall clock, and the money that is left.
use mathlib.Core.Path.{subst}
use sleeper_service.Base.{
  ℕ, ◌≤◌, ◌<◌, ◌≡◌, ◌⊎◌, String, Option, some, List, [], ◌∷◌, ◌++◌, arith, inl, inr, refl, ap, sym,
}
use sleeper_service.Base.Tests.{leb, Bool-cases, Option-cases, leb→le}
use sleeper_service.Base.Lists.{All}
use sleeper_service.Services.{Usage, Node, Ending}
use sleeper_service.Runner.Finalize.{calc_cost}
use sleeper_service.Runner.Loop.{Stop, timed_out, crossed, ended, run_nodes}

module _ (price : Usage → String → Option ℕ) (name : String) (budget : Option ℕ)
    (timeout_s ended_at : ℕ) (ending : Ending) where
  abbrev pub cost_at : Usage → ℕ
  cost_at u = (calc_cost price u name).0

  -- The node is reached in time and, where there is a budget, costs less than it.
  abbrev pub Passed : Node → Type 0
  Passed n = (n.elapsed < timeout_s) × ((left : ℕ) → budget ≡ some left → cost_at n.usage < left)

  -- What each way to stop says of the nodes.
  abbrev pub Stopped : List Node → Stop → Type 0
  Stopped ns (ended e) = (e ≡ ending) × (ended_at < timeout_s) × All Passed ns
  Stopped ns (crossed cost left usage) =
      (before : List Node) × (n : Node) × (after : List Node) × (ns ≡ before ++ n ∷ after)
      × All Passed before
      × (n.elapsed < timeout_s)
      × (budget ≡ some left)
      × (n.usage ≡ usage)
      × (cost ≡ cost_at usage)
      × (left ≤ cost)
  Stopped ns timed_out =
      ((timeout_s ≤ ended_at) × All Passed ns)
      ⊎ ((before : List Node) × (n : Node) × (after : List Node) × (ns ≡ before ++ n ∷ after)
          × All Passed before
          × (timeout_s ≤ n.elapsed))

  Stopped-later :
      (n : Node) (ns : List Node) (s : Stop) → Passed n → Stopped ns s → Stopped (n ∷ ns) s
  Stopped-later n ns (ended e) p (same, lt, all) = (same, lt, (p, all))
  Stopped-later n ns (crossed cost left usage) p (before, m, after, e, all, lt, b, u, c, le) =
      (n ∷ before, m, after, ap (λ xs. n ∷ xs) e, (p, all), lt, b, u, c, le)
  Stopped-later n ns timed_out p (inl (le, all)) = inl (le, (p, all))
  Stopped-later n ns timed_out p (inr (before, m, after, e, all, late)) =
      inr (n ∷ before, m, after, ap (λ xs. n ∷ xs) e, (p, all), late)

  abbrev run : List Node → Stop
  run ns = run_nodes price name budget timeout_s ns ended_at ending

  as_stop : (ns : List Node) (s : Stop) → run ns ≡ s → Stopped ns s → Stopped ns (run ns)
  as_stop ns s e h = subst (Stopped ns) (sym e) h

  -- A run that is let to its end has ended in time, and no node of it had cost as much as the budget has left. A run
  -- that the budget stops is stopped at the first node whose cost reaches what is left, and one that the clock stops
  -- had cost less than that at every node before.
  pub run_nodes-Stopped :
      (ns : List Node) → Stopped ns (run_nodes price name budget timeout_s ns ended_at ending)
  unfolding run_nodes
  run_nodes-Stopped [] = elim (Bool-cases (leb timeout_s ended_at)) [
    | inl late ↦ rw late (inl (leb→le _ _ late, tt))
    | inr early ↦ rw early (refl, ground arith, tt)
  ]
  run_nodes-Stopped (n ∷ ns) = elim (Bool-cases (leb timeout_s n.elapsed)) [
    | inl late ↦ rw late (inr ([], n, ns, refl, tt, leb→le _ _ late))
    | inr early ↦
        let lt : n.elapsed < timeout_s = ground arith in
        let rest = run_nodes-Stopped ns in
        elim (Option-cases budget) [
          | inl e ↦
              as_stop (n ∷ ns) (run ns) (ground arith)
                (Stopped-later n ns (run ns) (lt, λ left b. absurd (cc)) rest)
          | inr (left, e) ↦ elim (Bool-cases (leb left (cost_at n.usage))) [
            | inl reached ↦
                as_stop (n ∷ ns) (crossed (cost_at n.usage) left n.usage) (ground arith)
                  ([], n, ns, refl, tt, lt, e, refl, refl, leb→le left (cost_at n.usage) reached)
            | inr under ↦
                as_stop (n ∷ ns) (run ns) (ground arith)
                  (Stopped-later n ns (run ns) (lt, λ l b. ground arith) rest)
          ]
        ]
  ]
