-- ===== src/Evals/Score.antt =====
-- The pass rate and the baseline. The score of a run is compared as an exact quotient with a baseline that the
-- database has rounded to four decimals.
use native.Mathlib.Nat.{
  div-add-mod, mod-lt, mul-le-mul_right, mul_comm, mul_assoc, suc-mul, zero-lt-suc,
}
use sleeper_service.Base.{
  false, ℕ, zero, suc, ◌+◌, ◌*◌, ◌/◌, ◌%◌, ◌≤◌, ◌<◌, ◌≡◌, ◌⊎◌, ◌↔◌, ◌∙◌, ap, true, arith, inl, inr,
  sym,
}
use sleeper_service.Base.Tests.{ltb, leb, leb→le, ltb→lt, lt→ltb, Bool-cases}
use sleeper_service.Evals.Run.{to_scale, is_regression}

-- A quotient times its divisor, and the remainder.
divided : (a n : ℕ) → (a ≡ (a / suc n) * suc n + a % suc n) × (a % suc n < suc n)
divided a n = (
  sym (div-add-mod a (suc n)) ∙ ap (λ x. x + a % suc n) (mul_comm (suc n) (a / suc n)),
  mod-lt a (zero-lt-suc n),
)

le_or_above : (m n : ℕ) → (m ≤ n) ⊎ (suc n ≤ m)
le_or_above m n = elim (Bool-cases (leb m n)) [
  | inl t ↦ inl (leb→le m n t)
  | inr f ↦ inr (ground arith)
]

module _ (p n : ℕ) where
  abbrev rounded : ℕ
  rounded = (2 * (10000 * p) + suc n) / (2 * suc n)

  -- Rounding to the scale moves a quotient by half a unit at most.
  within :
      (2 * (rounded * suc n) ≤ 2 * (10000 * p) + suc n)
      × (2 * (10000 * p) < 2 * (rounded * suc n) + suc n)
  within =
      let a = 2 * (10000 * p) + suc n in
      let e = div-add-mod a (2 * suc n) in
      let lt : a % (2 * suc n) < 2 * suc n = mod-lt a (omega arith) in
      let x : (2 * suc n) * rounded ≡ 2 * (rounded * suc n) =
        mul_assoc 2 (suc n) rounded ∙ ap (λ y. 2 * y) (mul_comm (suc n) rounded) in
      (omega (arith, e, lt, x), omega (arith, e, lt, x))

  drop : (q : ℕ) → q < p → suc n < 20000 → is_regression q (suc n) (to_scale p (suc n)) ≡ true
  unfolding is_regression to_scale
  drop q lt small = lt→ltb _ _ (omega (arith, within, lt, small))

  rise : (q : ℕ) → p < q → suc n < 20000 → is_regression q (suc n) (to_scale p (suc n)) ≡ false
  unfolding is_regression to_scale
  rise q lt small = elim (Bool-cases (ltb (10000 * q) (rounded * suc n))) [
    | inr f ↦ f
    | inl t ↦ absurd (omega (arith, within, lt, small, ltb→lt _ _ t))
  ]

  same_score :
      (is_regression p (suc n) (to_scale p (suc n)) ≡ true) ↔ (suc n ≤ 2 * (10000 * p % suc n))
  unfolding is_regression to_scale
  same_score =
      let (e, lt) = divided (10000 * p) n in
      let q = 10000 * p / suc n in
      elim (le_or_above rounded q) [
        | inl below ↦
            let m = mul-le-mul_right (suc n) below in
            (
              λ h. absurd (omega (arith, ltb→lt _ _ h, e, m)),
              λ h. absurd (omega (arith, within, e, lt, m, h)),
            )
        | inr above ↦
            let m : q * suc n + suc n ≤ rounded * suc n =
              omega (arith, suc-mul q (suc n), mul-le-mul_right (suc n) above) in
            (λ h. omega (arith, within, e, lt, m), λ h. lt→ltb _ _ (omega (arith, e, lt, m)))
      ]

-- Against the stored pass rate of a run of as many cases, fewer than 20000, a run in which fewer cases passed is a
-- regression, and one in which more passed is none.
pub drop-is_regression :
    (passed total before : ℕ)
    → 0 < total
    → total < 20000
    → (passed < before → is_regression passed total (to_scale before total) ≡ true)
      × (before < passed → is_regression passed total (to_scale before total) ≡ false)
drop-is_regression passed zero before pos small = absurd (omega arith)
drop-is_regression passed (suc n) before pos small =
    (λ lt. drop before n passed lt small, λ lt. rise before n passed lt small)

-- A run that scores exactly what its baseline scored, on as many cases, is taken for a regression exactly if the
-- quotient was rounded up when the baseline was stored with four decimals, as 2/3 is.
pub same_score-is_regression :
    (passed total : ℕ)
    → 0 < total
    → (is_regression passed total (to_scale passed total) ≡ true)
      ↔ (total ≤ 2 * (10000 * passed % total))
same_score-is_regression passed zero pos = absurd (omega arith)
same_score-is_regression passed (suc n) pos = same_score passed n
