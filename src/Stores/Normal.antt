-- ===== src/Stores/Normal.antt =====
-- What `posixpath.normpath` makes of a relative path: components without a slash, of which `..` stands at
-- the front alone.
use mathlib.Core.List.{reverse, reverse-cons}
use sleeper_service.Base.{
  Bool, true, false, List, [], ◌∷◌, ◌++◌, ◌≡◌, refl, arith, ◌∙◌, ap, inl, inr, ◌⊎◌,
}
use sleeper_service.Base.Tests.{Bool-cases}
use sleeper_service.Base.Lists.{All, All-append}
use sleeper_service.Base.Text.{Text}
use sleeper_service.Stores.Paths.{is_parent, top_is_parent, is_bottom, pop, norm_step, norm_loop}

abbrev pub NotParent : Text → Type 0
NotParent w = is_parent w ≡ false

abbrev IsParent : Text → Type 0
IsParent w = is_parent w ≡ true

-- Below a `..` there are only others.
abbrev pub ParentsLowest : List Text → Type 0
ParentsLowest [] = Unit
ParentsLowest (w ∷ ws) = ParentsLowest ws × (is_parent w ≡ true → All IsParent ws)

-- A component is passed over, kept, or takes the one above it away. A relative path keeps a `..` only at the
-- front or above another.
norm_step_cases :
    (absolute : Bool) (kept : List Text) (w : Text)
    → (norm_step absolute kept w ≡ kept)
      ⊎ ((norm_step absolute kept w ≡ w ∷ kept)
          × (is_parent w ≡ true
              → (absolute ≡ false)
              → (is_bottom kept ≡ true) ⊎ (top_is_parent kept ≡ true)))
      ⊎ (norm_step absolute kept w ≡ pop kept)
unfolding norm_step
norm_step_cases absolute kept w = ground arith

norm_step-ParentsLowest :
    (kept : List Text) (w : Text) → ParentsLowest kept → ParentsLowest (norm_step false kept w)
norm_step-ParentsLowest [] w h = elim (norm_step_cases false [] w) [
  | inl e ↦ rw e h
  | inr (inl e) ↦ rw e.0 (tt, λ _. tt)
  | inr (inr e) ↦ rw e h
]
norm_step-ParentsLowest (v ∷ vs) w h = elim (norm_step_cases false (v ∷ vs) w) [
  | inl e ↦ rw e h
  | inr (inl e) ↦ rw e.0 (
    h,
    λ parent. let top : is_parent v ≡ true = ground (arith, e.1 parent refl) in (top, h.1 top),
  )
  | inr (inr e) ↦ rw e h.0
]

pub norm_loop-ParentsLowest :
    (kept ws : List Text) → ParentsLowest kept → ParentsLowest (norm_loop false kept ws)
unfolding norm_loop
norm_loop-ParentsLowest kept [] h = h
norm_loop-ParentsLowest kept (w ∷ ws) h =
    norm_loop-ParentsLowest (norm_step false kept w) ws (norm_step-ParentsLowest kept w h)

All-pop {κ} : (P : Text → Type κ) (kept : List Text) → All P kept → All P (pop kept)
All-pop P [] h = h
All-pop P (v ∷ vs) h = h.1

norm_step-All {κ} :
    (P : Text → Type κ) (absolute : Bool) (kept : List Text) (w : Text)
    → P w
    → All P kept
    → All P (norm_step absolute kept w)
norm_step-All P absolute kept w pw h = elim (norm_step_cases absolute kept w) [
  | inl e ↦ rw e h
  | inr (inl e) ↦ rw e.0 (pw, h)
  | inr (inr e) ↦ rw e (All-pop P kept h)
]

-- What holds of every component that is read holds of every one that is kept.
pub norm_loop-All {κ} :
    (P : Text → Type κ) (absolute : Bool) (kept ws : List Text)
    → All P ws
    → All P kept
    → All P (norm_loop absolute kept ws)
unfolding norm_loop
norm_loop-All P absolute kept [] hw h = h
norm_loop-All P absolute kept (w ∷ ws) hw h =
    norm_loop-All P absolute (norm_step absolute kept w) ws hw.1
      (norm_step-All P absolute kept w hw.0 h)

abbrev pub bottom : Text → List Text → Text
bottom w [] = w
bottom w (v ∷ vs) = bottom v vs

pub ParentsLowest-NotParent :
    (w : Text) (ws : List Text)
    → ParentsLowest (w ∷ ws)
    → NotParent (bottom w ws)
    → All NotParent (w ∷ ws)
ParentsLowest-NotParent w [] h b = (b, tt)
ParentsLowest-NotParent w (v ∷ vs) h b =
    let rest = ParentsLowest-NotParent v vs h.0 b in
    (
      elim (Bool-cases (is_parent w)) [
        | inl e ↦ absurd (ground (arith, (h.1 e).0, rest.0))
        | inr e ↦ e
      ],
      rest,
    )

pub All-reverse {ℓ κ} : {A : Type ℓ} (P : A → Type κ) (xs : List A) → All P xs → All P (reverse xs)
All-reverse P [] h = h
All-reverse P (x ∷ xs) h =
    rw reverse-cons (All-append P (reverse xs) (x ∷ []) (All-reverse P xs h.1) (h.0, tt))

-- The first component of the path is the lowest one kept.
pub reverse-bottom :
    (w : Text) (ws : List Text) → (rest : List Text) × (reverse (w ∷ ws) ≡ bottom w ws ∷ rest)
reverse-bottom w [] = ([], refl)
reverse-bottom w (v ∷ vs) =
    let (rest, e) = reverse-bottom v vs in
    (rest ++ w ∷ [], reverse-cons w (v ∷ vs) ∙ ap (λ t. t ++ w ∷ []) e)
