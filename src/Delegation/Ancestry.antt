-- ===== src/Delegation/Ancestry.antt =====
-- What the walk up the chain of parents finds, and that it ends.
use sleeper_service.Base.{
  ℕ, zero, suc, ◌+◌, ◌≤◌, ◌<◌, ◌≡◌, refl, ap, ◌∙◌, sym, arith, inl, inr, Bool, true, false, Option,
  none, some, List, [], ◌∷◌, not,
}
use sleeper_service.Base.Tests.{Bool-cases, Option-cases, ◌==◌, ==_iff}
use sleeper_service.Base.Lists.{count, length, All}
use sleeper_service.Base.Table.{find, find_by_passes}
use sleeper_service.Models.Jobs.{Job, job_keyed}
use sleeper_service.Delegation.{has, climb_ancestry, ancestry}

-- The job so many parents above another.
abbrev pub climb : List Job → ℕ → Job → Option Job
climb jobs zero j = some j
climb jobs (suc n) j = elim j.parent_job_id [
  | none ↦ none
  | some p ↦ elim (find p jobs) [ none ↦ none | some parent ↦ climb jobs n parent ]
]

-- A job is created after its parent, and its id is the greater.
abbrev pub HasOlderParents : List Job → Type 0
HasOlderParents jobs =
    (i p : ℕ) (j : Job) → find i jobs ≡ some j → j.parent_job_id ≡ some p → p < j.id

abbrev unvisited : List ℕ → Job → Bool
unvisited visited j = not (has j.id visited)

count-fewer :
    (i : ℕ) (visited : List ℕ) (jobs : List Job)
    → count (unvisited (i ∷ visited)) jobs ≤ count (unvisited visited) jobs
count-fewer i visited [] = omega arith
count-fewer i visited (j ∷ js) = ground (arith, count-fewer i visited js)

count-visit :
    (p : ℕ) (visited : List ℕ) (jobs : List Job) {j : Job}
    → find p jobs ≡ some j
    → has p visited ≡ false
    → count (unvisited (j.id ∷ visited)) jobs < count (unvisited visited) jobs
count-visit p visited [] e h = absurd (cc)
count-visit p visited (k ∷ ks) {j} e h = elim (Bool-cases (k.id == p)) [
  | inl same ↦
      let at : k.id ≡ p = (==_iff k.id p).0 same in
      let is_k : k ≡ j = ground arith in
      let new : has k.id visited ≡ false = ap (λ i. has i visited) at ∙ h in
      let seen : has k.id (j.id ∷ visited) ≡ true = ground arith in
      ground (arith, new, seen, count-fewer j.id visited ks)
  | inr other ↦
      let rest = count-visit p visited ks {j = j} (rw other at e) h in ground (arith, rest)
]

-- The walk ends.
climb_ancestry_total :
    (jobs : List Job) (fuel : ℕ) (visited : List ℕ) (depth : ℕ) (agents : List ℕ) (j : Job)
    → count (unvisited visited) jobs < fuel
    → (r : ℕ × List ℕ) × (climb_ancestry jobs fuel visited depth agents j ≡ some r)
unfolding climb_ancestry
climb_ancestry_total jobs zero visited depth agents j h = absurd (omega arith)
climb_ancestry_total jobs (suc fuel) visited depth agents j h =
    elim (Option-cases j.parent_job_id) [
      | inl n ↦ ((depth, agents), rw (climb_ancestry, n) refl)
      | inr (p, e) ↦ elim (Bool-cases (has p visited)) [
        | inl seen ↦ ((depth, agents), rw (climb_ancestry, e, seen) refl)
        | inr new ↦ elim (Option-cases (find p jobs)) [
          | inl n ↦ ((depth, agents), rw (climb_ancestry, e, new, n) refl)
          | inr (parent, f) ↦
              let (r, q) =
                climb_ancestry_total jobs fuel (parent.id ∷ visited) (suc depth)
                  (parent.agent_id ∷ agents) parent
                  (omega (arith, count-visit p visited jobs {j = parent} f new)) in
              (r, rw (climb_ancestry, e, new, f) q)
        ]
      ]
    ]

above_older : (is : List ℕ) (i k : ℕ) → All (λ v. i ≤ v) is → k < i → has k is ≡ false
above_older [] i k h lt = refl
above_older (v ∷ is) i k (le, h) lt = ground (arith, above_older is i k h lt)

All-weaken : (is : List ℕ) (i k : ℕ) → All (λ v. i ≤ v) is → k ≤ i → All (λ v. k ≤ v) is
All-weaken [] i k h le = tt
All-weaken (v ∷ is) i k (l, h) le = (omega arith, All-weaken is i k h le)

-- An agent that was found stays found.
climb_ancestry-keeps :
    (jobs : List Job) (fuel : ℕ) (visited : List ℕ) (depth : ℕ) (agents : List ℕ) (j : Job) (d : ℕ)
    (found : List ℕ) (x : ℕ)
    → climb_ancestry jobs fuel visited depth agents j ≡ some (d, found)
    → has x agents ≡ true
    → (has x found ≡ true) × (depth ≤ d)
unfolding climb_ancestry
climb_ancestry-keeps jobs zero visited depth agents j d found x e h = absurd (cc)
climb_ancestry-keeps jobs (suc fuel) visited depth agents j d found x e h =
    elim (Option-cases j.parent_job_id) [
      | inl n ↦ (ground arith, ground arith)
      | inr (p, q) ↦ elim (Bool-cases (has p visited)) [
        | inl seen ↦ (ground arith, ground arith)
        | inr new ↦ elim (Option-cases (find p jobs)) [
          | inl n ↦ (ground arith, ground arith)
          | inr (parent, f) ↦
              let later : climb_ancestry jobs fuel (parent.id ∷ visited) (suc depth)
                    (parent.agent_id ∷ agents) parent
                  ≡ some (d, found) =
                rw (climb_ancestry, q, new, f) at e in
              let (kept, le) =
                climb_ancestry-keeps jobs fuel (parent.id ∷ visited) (suc depth)
                  (parent.agent_id ∷ agents) parent d found x later (ground arith) in
              (kept, omega arith)
        ]
      ]
    ]

climb-up :
    (jobs : List Job) (n : ℕ) (j : Job) (p : ℕ) (parent : Job)
    → j.parent_job_id ≡ some p
    → find p jobs ≡ some parent
    → climb jobs (suc n) j ≡ climb jobs n parent
climb-up jobs n j p parent q f = rw (climb, q, f) refl

count-le : (p : Job → Bool) (jobs : List Job) → count p jobs ≤ length jobs
count-le p [] = omega arith
count-le p (j ∷ js) = ground (arith, count-le p js)

module _ (jobs : List Job) (older : HasOlderParents jobs) where
  -- Every job above is counted, and its agent is found.
  climb_ancestry-finds :
      (fuel : ℕ) (visited : List ℕ) (depth : ℕ) (agents : List ℕ) (j : Job) (d : ℕ) (found : List ℕ)
      → find j.id jobs ≡ some j
      → All (λ v. j.id ≤ v) visited
      → has j.agent_id agents ≡ true
      → climb_ancestry jobs fuel visited depth agents j ≡ some (d, found)
      → (n : ℕ) {a : Job} → climb jobs n j ≡ some a
      → (has a.agent_id found ≡ true) × (depth + n ≤ d)
  unfolding climb_ancestry
  climb_ancestry-finds zero visited depth agents j d found here min_id own e n c = absurd (cc)
  climb_ancestry-finds (suc fuel) visited depth agents j d found here min_id own e zero {a} c =
      let same : j ≡ a = ground arith in
      let (kept, le) =
        climb_ancestry-keeps jobs (suc fuel) visited depth agents j d found j.agent_id e own in
      (ap (λ (k : Job). has k.agent_id found) (sym same) ∙ kept, omega arith)
  climb_ancestry-finds (suc fuel) visited depth agents j d found here min_id own e (suc n) {a} c =
      elim (Option-cases j.parent_job_id) [
        | inl no_parent ↦ absurd (ground arith)
        | inr (p, q) ↦ elim (Option-cases (find p jobs)) [
          | inl missing ↦ absurd (ground arith)
          | inr (parent, f) ↦
              let id : parent.id ≡ p =
                (==_iff parent.id p).0 (find_by_passes (λ (k : Job). k.id == p) jobs f) in
              let lt : p < j.id = older j.id p j here q in
              let new : has p visited ≡ false = above_older visited j.id p min_id lt in
              let later : climb_ancestry jobs fuel (parent.id ∷ visited) (suc depth)
                    (parent.agent_id ∷ agents) parent
                  ≡ some (d, found) =
                rw (climb_ancestry, q, new, f) at e in
              let (seen, le) =
                climb_ancestry-finds fuel (parent.id ∷ visited) (suc depth)
                  (parent.agent_id ∷ agents) parent d found (ap (λ i. find i jobs) id ∙ f)
                  (omega arith, All-weaken visited j.id parent.id min_id (omega arith))
                  (ground arith) later n {a = a} (sym (climb-up jobs n j p parent q f) ∙ c) in
              (seen, omega arith)
        ]
      ]

  -- Where every job has a greater id than its parent, the walk from a job ends, finds the agents of the job and of
  -- every job above it, and counts at least as many as are above it.
  pub ancestry_finds :
      (job : Job)
      → find job.id jobs ≡ some job
      → (d : ℕ) × (found : List ℕ) × (ancestry jobs job ≡ some (d, found))
        × ((n : ℕ) (a : Job) → climb jobs n job ≡ some a → (has a.agent_id found ≡ true) × (n ≤ d))
  unfolding ancestry
  ancestry_finds job here =
      let start = job.id ∷ [] in
      let own : has job.agent_id (job.agent_id ∷ []) ≡ true = ground arith in
      let (r, e) =
        climb_ancestry_total jobs (suc (length jobs)) start 0 (job.agent_id ∷ []) job
          (omega (arith, count-le (unvisited start) jobs)) in
      (
        r.0,
        r.1,
        e,
        λ n a c.
            let (seen, le) =
              climb_ancestry-finds (suc (length jobs)) start 0 (job.agent_id ∷ []) job r.0 r.1 here
                (omega arith, tt) own e n {a = a} c in
            (seen, omega arith),
      )
