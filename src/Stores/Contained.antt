-- ===== src/Stores/Contained.antt =====
-- Where a resolved path leads: below the granted prefix, whatever path the model gives.
use mathlib.Core.Path.{subst}
use mathlib.Core.List.{reverse, append_assoc, append-nil}
use sleeper_service.Base.{
  true, false, List, [], ◌∷◌, ◌++◌, ◌≡◌, refl, sym, arith, ◌∙◌, ap, inl, inr, ◌⊎◌, ◌||◌,
}
use sleeper_service.Base.Tests.{Bool-cases, if◌then◌else◌}
use sleeper_service.Base.Lists.{All, All-drop}
use sleeper_service.Base.Text.{
  Text, text_eq, text_eq_sound, starts_with, starts_with_sound, split, join, Lacks, split-join,
  split-Lacks, split-append_all,
}
use sleeper_service.Stores.{StoreGrant, ok, resolve, escaped, is_nil}
use sleeper_service.Stores.Paths.{
  slash, dot, parent_dir, parent_slash, lstrip, posix_join, normpath, is_parent, is_void, norm_loop,
  or_dot,
}
use sleeper_service.Stores.Normal.{
  NotParent, norm_loop-ParentsLowest, norm_loop-All, ParentsLowest-NotParent, All-reverse,
  reverse-bottom, bottom, ParentsLowest,
}

-- How a file system follows a path: the directory, as the list of the names down to it with the innermost
-- first, after the components. `..` goes up, and stays at the root.
pub walk : List Text → List Text → List Text
walk at [] = at
walk [] (w ∷ ws) = walk (if is_void w || is_parent w then [] else w ∷ []) ws
walk (d ∷ ds) (w ∷ ws) =
    walk (if is_void w then d ∷ ds else if is_parent w then ds else w ∷ d ∷ ds) ws

walk-append : (at us vs : List Text) → walk at (us ++ vs) ≡ walk (walk at us) vs
unfolding walk
walk-append at [] vs = refl
walk-append [] (w ∷ ws) vs = walk-append (if is_void w || is_parent w then [] else w ∷ []) ws vs
walk-append (d ∷ ds) (w ∷ ws) vs =
    walk-append (if is_void w then d ∷ ds else if is_parent w then ds else w ∷ d ∷ ds) ws vs

-- The first list of names lies in the directory of the second, or is that directory.
abbrev pub IsBelow : List Text → List Text → Type 0
IsBelow inner outer = (names : List Text) × (inner ≡ names ++ outer)

IsBelow-walk : (at ws : List Text) → All NotParent ws → IsBelow (walk at ws) at
unfolding walk
IsBelow-walk at [] h = ([], refl)
IsBelow-walk [] (w ∷ ws) h = (walk [] (w ∷ ws), sym (append-nil _))
IsBelow-walk (d ∷ ds) (w ∷ ws) h = elim (Bool-cases (is_void w)) [
  | inl e ↦ rw e (IsBelow-walk (d ∷ ds) ws h.1)
  | inr e ↦
      let (names, below) = IsBelow-walk (w ∷ d ∷ ds) ws h.1 in
      rw (e, h.0) (names ++ w ∷ [], below ∙ sym (append_assoc names (w ∷ []) (d ∷ ds)))
]

or_dot_cases : (t : Text) → (or_dot t ≡ dot) ⊎ (or_dot t ≡ t)
or_dot_cases [] = inl refl
or_dot_cases (x ∷ xs) = inr refl

dot-NotParent : All NotParent (split slash dot)
unfolding split
dot-NotParent = (refl, tt)

-- A joined path whose first component is `..` is told by the two tests on its text.
join_parent :
    (rest : List Text)
    → (text_eq (join slash (parent_dir ∷ rest)) parent_dir ≡ true)
      ⊎ (starts_with parent_slash (join slash (parent_dir ∷ rest)) ≡ true)
join_parent [] = inl refl
join_parent (v ∷ vs) = inr refl

first-NotParent :
    (b : Text) (rest : List Text)
    → text_eq (join slash (b ∷ rest)) parent_dir ≡ false
    → starts_with parent_slash (join slash (b ∷ rest)) ≡ false
    → NotParent b
first-NotParent b rest no_dir no_slash = elim (Bool-cases (is_parent b)) [
  | inr e ↦ e
  | inl e ↦
      let same : parent_dir ≡ b = text_eq_sound parent_dir b e in
      elim (join_parent rest) [
        | inl d ↦
            absurd
              (ground (arith, no_dir, ap (λ t. text_eq (join slash (t ∷ rest)) parent_dir) same))
        | inr d ↦ absurd (
            ground
              (arith, no_slash, ap (λ t. starts_with parent_slash (join slash (t ∷ rest))) same))
      ]
]

abbrev path_of : List Text → Text
path_of kept = or_dot (join slash (reverse kept))

path_of-NotParent :
    (kept : List Text)
    → ParentsLowest kept
    → All (Lacks slash) kept
    → text_eq (path_of kept) parent_dir ≡ false
    → starts_with parent_slash (path_of kept) ≡ false
    → All NotParent (split slash (path_of kept))
path_of-NotParent [] low lacks no_dir no_slash = dot-NotParent
path_of-NotParent (w ∷ ws) low lacks no_dir no_slash =
    let (rest, e) = reverse-bottom w ws in
    elim (or_dot_cases (join slash (reverse (w ∷ ws)))) [
      | inl d ↦ rw d dot-NotParent
      | inr d ↦
          let no_dir' : text_eq (join slash (bottom w ws ∷ rest)) parent_dir ≡ false =
            rw (← e) (rw (← d) no_dir) in
          let no_slash' : starts_with parent_slash (join slash (bottom w ws ∷ rest)) ≡ false =
            rw (← e) (rw (← d) no_slash) in
          let all_kept =
            ParentsLowest-NotParent w ws low (first-NotParent _ rest no_dir' no_slash') in
          rw (d, e)
            (rw
              (split-join slash (bottom w ws) rest
                (rw e at (All-reverse (Lacks slash) (w ∷ ws) lacks)))
              (rw e at (All-reverse NotParent (w ∷ ws) all_kept)))
    ]

relative_normpath :
    (t : Text)
    → starts_with (slash ∷ []) t ≡ false
    → normpath t ≡ path_of (norm_loop false [] (split slash t))
unfolding normpath
relative_normpath t h = rw h refl

absolute_normpath :
    (t : Text) → starts_with (slash ∷ []) t ≡ true → starts_with (slash ∷ []) (normpath t) ≡ true
unfolding normpath
absolute_normpath t h = ground arith

normpath-NotParent :
    (t : Text)
    → starts_with (slash ∷ []) (normpath t) ≡ false
    → text_eq (normpath t) parent_dir ≡ false
    → starts_with parent_slash (normpath t) ≡ false
    → All NotParent (split slash (normpath t))
normpath-NotParent t no_root no_dir no_slash = elim (Bool-cases (starts_with (slash ∷ []) t)) [
  | inl e ↦ absurd (ground (arith, absolute_normpath t e))
  | inr e ↦
      let shape = relative_normpath t e in
      rw shape (
        path_of-NotParent (norm_loop false [] (split slash t))
          (norm_loop-ParentsLowest [] (split slash t) tt)
          (norm_loop-All (Lacks slash) false [] (split slash t) (split-Lacks slash t) tt)
          (rw shape at no_dir) (rw shape at no_slash))
]

-- What the checks of `resolve` leave.
record Accepted (prefix c : Text) : Type 0 where
  no_root : starts_with (slash ∷ []) c ≡ false
  no_dir : text_eq c parent_dir ≡ false
  no_slash : starts_with parent_slash c ≡ false
  under :
      (is_nil prefix ≡ true)
      ⊎ (text_eq c prefix ≡ true)
      ⊎ (starts_with (prefix ++ slash ∷ []) c ≡ true)

escaped-Accepted : (prefix c : Text) → escaped prefix c ≡ false → Accepted prefix c
unfolding escaped
escaped-Accepted prefix c h = record {
  no_root = ground arith;
  no_dir = ground arith;
  no_slash = ground arith;
  under = ground arith;
}

resolve-Accepted :
    (g : StoreGrant) (path : Text) {c : Text}
    → resolve g path ≡ ok c
    → (c ≡ normpath (posix_join g.prefix (lstrip slash path))) × Accepted g.prefix c
unfolding resolve
resolve-Accepted g path {c} h =
    let candidate = normpath (posix_join g.prefix (lstrip slash path)) in
    elim (Bool-cases (escaped g.prefix candidate)) [
      | inl e ↦ absurd (ground arith)
      | inr e ↦
          let same : candidate ≡ c = ground arith in
          (sym same, subst (Accepted g.prefix) same (escaped-Accepted g.prefix candidate e))
    ]

-- A path that starts with the prefix and a slash goes through the prefix.
split_under :
    (p rest : Text) → split slash ((p ++ slash ∷ []) ++ rest) ≡ split slash p ++ split slash rest
split_under p rest = rw append_assoc (split-append_all slash p rest)

is_nil_eq : (t : Text) → is_nil t ≡ true → t ≡ []
is_nil_eq [] h = refl
is_nil_eq (x ∷ xs) h = cc

walk-split_nil : (at : List Text) → walk at (split slash []) ≡ at
unfolding walk split
walk-split_nil [] = refl
walk-split_nil (d ∷ ds) = refl

IsBelow-of_under :
    (prefix c : Text) (at : List Text)
    → All NotParent (split slash c)
    → Accepted prefix c
    → IsBelow (walk at (split slash c)) (walk at (split slash prefix))
IsBelow-of_under prefix c at names a = elim a.under [
  | inl e ↦ rw (is_nil_eq prefix e, walk-split_nil at) (IsBelow-walk at (split slash c) names)
  | inr (inl e) ↦ ([], ap (λ t. walk at (split slash t)) (text_eq_sound c prefix e))
  | inr (inr e) ↦
      let (rest, q) = starts_with_sound (prefix ++ slash ∷ []) c e in
      let parts : split slash c ≡ split slash prefix ++ split slash rest =
        rw q (split_under prefix rest) in
      rw (parts, walk-append at (split slash prefix) (split slash rest))
        (IsBelow-walk (walk at (split slash prefix)) (split slash rest)
          (All-drop NotParent (split slash prefix) (split slash rest) (rw parts at names)))
]

-- A path that `resolve` accepts leads, from any directory, to the directory to which the granted prefix
-- leads from there or to a place below it, whatever the path that the model gave.
pub resolve-IsBelow :
    (g : StoreGrant) (path : Text) {c : Text} (at : List Text)
    → resolve g path ≡ ok c
    → IsBelow (walk at (split slash c)) (walk at (split slash g.prefix))
resolve-IsBelow g path {c} at h =
    let (e, a) = resolve-Accepted g path h in
    let names : All NotParent (split slash c) = rw e (
      normpath-NotParent (posix_join g.prefix (lstrip slash path)) (rw e at a.no_root)
        (rw e at a.no_dir) (rw e at a.no_slash)) in
    IsBelow-of_under g.prefix c at names a
