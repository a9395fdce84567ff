-- ===== src/Base/Table.antt =====
-- A database table as a list of rows in the order of insertion. A query by a unique key gives the first
-- row that fits, and an assignment or a delete concerns that row alone.
use Prim.Native.Nat.{ℕ, ◌+◌, ◌≤◌}
use mathlib.Core.Path.{◌≡◌, refl, subst}
use mathlib.Core.Logic.{◌≢◌, inl, inr}
use mathlib.Core.Bool.{Bool, true, false}
use mathlib.Core.Option.{Option, none, some}
use mathlib.Core.List.{List, [], ◌∷◌, ◌++◌}
use native.Mathlib.Omega.{arith}
use sleeper_service.Base.Tests.{if◌then◌else◌, ◌==◌, Bool-cases}
use sleeper_service.Base.Lists.{All, count}

module _ {ℓ} {A : Type ℓ} where
  -- `await db.scalar(select(Row).where(p))`
  abbrev pub find_by : (A → Bool) → List A → Option A
  find_by p [] = none
  find_by p (x ∷ xs) = if p x then some x else find_by p xs

  -- Assignments to the attributes of that row.
  abbrev pub modify_by : (A → Bool) → (A → A) → List A → List A
  modify_by p f [] = []
  modify_by p f (x ∷ xs) = let rest = modify_by p f xs in if p x then f x ∷ xs else x ∷ rest

  -- `await db.delete(row)`
  abbrev pub discard_by : (A → Bool) → List A → List A
  discard_by p [] = []
  discard_by p (x ∷ xs) = let rest = discard_by p xs in if p x then xs else x ∷ rest

  pub find_by-append :
      (p : A → Bool) (xs ys : List A)
      → find_by p (xs ++ ys) ≡ elim (find_by p xs) [ none ↦ find_by p ys | some x ↦ some x ]
  find_by-append p [] ys = refl
  find_by-append p (x ∷ xs) ys = ground (arith, find_by-append p xs ys)

  pub find_by_passes : (p : A → Bool) (xs : List A) {x : A} → find_by p xs ≡ some x → p x ≡ true
  find_by_passes p [] e = absurd (cc)
  find_by_passes p (y ∷ ys) {x} e = ground (arith, find_by_passes p ys {x = x})

  pub All-find_by {κ} :
      (P : A → Type κ) (p : A → Bool) (xs : List A) {x : A} → All P xs → find_by p xs ≡ some x → P x
  All-find_by P p [] h e = absurd (cc)
  All-find_by P p (y ∷ ys) {x} h e = elim (Bool-cases (p y)) [
    | inl t ↦ let same : y ≡ x = ground arith in subst P same h.0
    | inr f ↦ All-find_by P p ys h.1 (rw f at e)
  ]

  pub All-modify_by {κ} :
      (P : A → Type κ) (p : A → Bool) (f : A → A)
      → ((x : A) → P x → P (f x))
      → (xs : List A) → All P xs
      → All P (modify_by p f xs)
  All-modify_by P p f keep [] h = tt
  All-modify_by P p f keep (x ∷ xs) h = elim (Bool-cases (p x)) [
    | inl t ↦ rw t (keep x h.0, h.1)
    | inr e ↦ rw e (h.0, All-modify_by P p f keep xs h.1)
  ]

  pub All-modify_by_test {κ} :
      (P : A → Type κ) (p : A → Bool) (f : A → A)
      → ((x : A) → p x ≡ true → P x → P (f x))
      → (xs : List A) → All P xs
      → All P (modify_by p f xs)
  All-modify_by_test P p f keep [] h = tt
  All-modify_by_test P p f keep (x ∷ xs) h = elim (Bool-cases (p x)) [
    | inl t ↦ rw t (keep x t h.0, h.1)
    | inr e ↦ rw e (h.0, All-modify_by_test P p f keep xs h.1)
  ]

  pub All-discard_by {κ} :
      (P : A → Type κ) (p : A → Bool) (xs : List A) → All P xs → All P (discard_by p xs)
  All-discard_by P p [] h = tt
  All-discard_by P p (x ∷ xs) h = elim (Bool-cases (p x)) [
    | inl t ↦ rw t h.1
    | inr e ↦ rw e (h.0, All-discard_by P p xs h.1)
  ]

  pub count-modify_by :
      (q p : A → Bool) (f : A → A) (xs : List A) {x : A}
      → find_by p xs ≡ some x
      → count q (modify_by p f xs) + (if q x then 1 else 0)
        ≡ count q xs + (if q (f x) then 1 else 0)
  count-modify_by q p f [] e = absurd (cc)
  count-modify_by q p f (y ∷ ys) {x} e = ground (arith, count-modify_by q p f ys {x = x})

  pub count-discard_by :
      (q p : A → Bool) (xs : List A) {x : A}
      → find_by p xs ≡ some x
      → count q (discard_by p xs) + (if q x then 1 else 0) ≡ count q xs
  count-discard_by q p [] e = absurd (cc)
  count-discard_by q p (y ∷ ys) {x} e = ground (arith, count-discard_by q p ys {x = x})

module _ {ℓ} {A : Type ℓ} (p : A → Bool) where
  pub count-discard_by_le : (q : A → Bool) (xs : List A) → count q (discard_by p xs) ≤ count q xs
  count-discard_by_le q [] = omega arith
  count-discard_by_le q (x ∷ xs) = ground (arith, count-discard_by_le q xs)

  pub find_by-modify_by :
      (f : A → A)
      → ((x : A) → p (f x) ≡ p x)
      → (xs : List A)
      → find_by p (modify_by p f xs) ≡ elim (find_by p xs) [ none ↦ none | some x ↦ some (f x) ]
  find_by-modify_by f same [] = refl
  find_by-modify_by f same (x ∷ xs) = ground (arith, same x, find_by-modify_by f same xs)

  pub find_by-none_count : (xs : List A) → find_by p xs ≡ none → count p xs ≡ 0
  find_by-none_count [] e = refl
  find_by-none_count (x ∷ xs) e = ground (arith, find_by-none_count xs)

  pub find_by-count_none : (xs : List A) → count p xs ≡ 0 → find_by p xs ≡ none
  find_by-count_none [] e = refl
  find_by-count_none (x ∷ xs) e = ground (arith, find_by-count_none xs)

  pub find_by-discard_by : (xs : List A) → count p xs ≤ 1 → find_by p (discard_by p xs) ≡ none
  find_by-discard_by [] h = refl
  find_by-discard_by (x ∷ xs) h = ground (arith, find_by-count_none xs, find_by-discard_by xs)

  module _ (q : A → Bool) (apart : (x : A) → p x ≡ true → q x ≡ false) where
    pub find_by-modify_by_other :
        (f : A → A)
        → ((x : A) → q (f x) ≡ q x)
        → (xs : List A) → find_by q (modify_by p f xs) ≡ find_by q xs
    find_by-modify_by_other f same [] = refl
    find_by-modify_by_other f same (x ∷ xs) =
        ground (arith, same x, apart x, find_by-modify_by_other f same xs)

    pub find_by-discard_by_other : (xs : List A) → find_by q (discard_by p xs) ≡ find_by q xs
    find_by-discard_by_other [] = refl
    find_by-discard_by_other (x ∷ xs) = ground (arith, apart x, find_by-discard_by_other xs)

-- A primary key is a native number: a UUID is only ever compared.
pub record Keyed {ℓ} (A : Type ℓ) : Type ℓ where
  pub key : A → ℕ

module _ {ℓ} {A : Type ℓ} ⦃k : Keyed A⦄ where
  -- `await db.get(Row, id)`
  abbrev pub find : ℕ → List A → Option A
  find i = find_by (λ x. k.key x == i)

  abbrev pub modify : ℕ → (A → A) → List A → List A
  modify i = modify_by (λ x. k.key x == i)

  pub find-modify :
      (i j : ℕ) (f : A → A)
      → ((x : A) → k.key (f x) ≡ k.key x)
      → (xs : List A)
      → find j (modify i f xs)
        ≡ (if i == j then elim (find j xs) [ none ↦ none | some x ↦ some (f x) ] else find j xs)
  find-modify i j f same [] = ground arith
  find-modify i j f same (x ∷ xs) = ground (arith, same x, find-modify i j f same xs)

  pub find-modify_self :
      (i : ℕ) (f : A → A)
      → ((x : A) → k.key (f x) ≡ k.key x)
      → (xs : List A) {x : A} → find i xs ≡ some x
      → find i (modify i f xs) ≡ some (f x)
  find-modify_self i f same xs e = ground (arith, find-modify i i f same xs)

  pub find-modify_ne :
      (i j : ℕ) (f : A → A)
      → ((x : A) → k.key (f x) ≡ k.key x)
      → (xs : List A) → i ≢ j
      → find j (modify i f xs) ≡ find j xs
  find-modify_ne i j f same xs ne = ground (arith, find-modify i j f same xs)
