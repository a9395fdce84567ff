-- ===== src/Base/Text.antt =====
-- Texts as lists of code points, for code that walks, splits or joins them.
use Prim.Native.Char.{code}
use Prim.Native.String.{String}
use Prim.Native.Nat.{ℕ}
use mathlib.Core.Path.{◌≡◌, refl, ap, sym, ◌∙◌}
use mathlib.Core.Logic.{inl, inr}
use mathlib.Core.Bool.{Bool, true, false, ◌&&◌, ◌||◌}
use mathlib.Core.List.{List, [], ◌∷◌, ◌++◌}
use native.Mathlib.Omega.{arith}
use sleeper_service.Base.Tests.{if◌then◌else◌, ◌==◌, ==_refl, Bool-cases}
use sleeper_service.Base.Lists.{All}

abbrev pub Text : Type 0
Text = List ℕ

abbrev pub codes : String → Text
codes String.[] = []
codes (String.◌∷◌ c s) = code c ∷ codes s

abbrev pub text_eq : Text → Text → Bool
text_eq [] [] = true
text_eq [] (y ∷ ys) = false
text_eq (x ∷ xs) [] = false
text_eq (x ∷ xs) (y ∷ ys) = x == y && text_eq xs ys

pub text_eq_sound : (s t : Text) → text_eq s t ≡ true → s ≡ t
text_eq_sound [] [] h = refl
text_eq_sound [] (y ∷ ys) h = absurd (cc)
text_eq_sound (x ∷ xs) [] h = absurd (cc)
text_eq_sound (x ∷ xs) (y ∷ ys) h = ground (arith, text_eq_sound xs ys)

pub text_eq_refl : (s : Text) → text_eq s s ≡ true
text_eq_refl [] = refl
text_eq_refl (x ∷ xs) = ground (arith, text_eq_refl xs)

-- `s.startswith(p)`
abbrev pub starts_with : Text → Text → Bool
starts_with [] s = true
starts_with (x ∷ xs) [] = false
starts_with (x ∷ xs) (y ∷ ys) = x == y && starts_with xs ys

pub starts_with_sound : (p s : Text) → starts_with p s ≡ true → (rest : Text) × (s ≡ p ++ rest)
starts_with_sound [] s h = (s, refl)
starts_with_sound (x ∷ xs) [] h = absurd (cc)
starts_with_sound (x ∷ xs) (y ∷ ys) h =
    let (rest, e) = starts_with_sound xs ys (ground arith) in (rest, ground arith)

pub starts_with_append : (p s : Text) → starts_with p (p ++ s) ≡ true
starts_with_append [] s = refl
starts_with_append (x ∷ xs) s = ground (arith, starts_with_append xs s)

-- `s.endswith(p)`: some end of the text is `p`.
abbrev pub ends_with : Text → Text → Bool
ends_with p [] = text_eq p []
ends_with p (x ∷ xs) = let rest = ends_with p xs in text_eq p (x ∷ xs) || rest

pub ends_with_sound : (p s : Text) → ends_with p s ≡ true → (front : Text) × (s ≡ front ++ p)
ends_with_sound p [] h = ([], sym (text_eq_sound p [] h))
ends_with_sound p (x ∷ xs) h = elim (Bool-cases (text_eq p (x ∷ xs))) [
  | inl e ↦ ([], sym (text_eq_sound p (x ∷ xs) e))
  | inr e ↦ let (front, q) = ends_with_sound p xs (ground arith) in (x ∷ front, ap (λ t. x ∷ t) q)
]

pub ends_with_append : (p s : Text) → ends_with p (s ++ p) ≡ true
ends_with_append [] [] = refl
ends_with_append (y ∷ ys) [] = ground (arith, text_eq_refl (y ∷ ys))
ends_with_append p (x ∷ xs) = ground (arith, ends_with_append p xs)

-- `p in s`: the text is a part of the other.
abbrev pub occurs : Text → Text → Bool
occurs p [] = starts_with p []
occurs p (c ∷ cs) = let rest = occurs p cs in starts_with p (c ∷ cs) || rest

-- `s.split(c)`, which has at least one part.
push : ℕ → List Text → List Text
push x [] = (x ∷ []) ∷ []
push x (w ∷ ws) = (x ∷ w) ∷ ws

unfoldable pub split : ℕ → Text → List Text
unfolding push
split c [] = [] ∷ []
split c (x ∷ xs) = let rest = split c xs in if x == c then [] ∷ rest else push x rest

-- `c.join(parts)`
abbrev pub join : ℕ → List Text → Text
join c [] = []
join c (w ∷ []) = w
join c (w ∷ v ∷ ws) = w ++ c ∷ join c (v ∷ ws)

-- No part has the separator in it.
abbrev pub Lacks : ℕ → Text → Type 0
Lacks c w = All (λ x. (x == c) ≡ false) w

split-Lacks_one : (c : ℕ) (w : Text) → Lacks c w → split c w ≡ w ∷ []
unfolding split
split-Lacks_one c [] h = refl
split-Lacks_one c (x ∷ xs) h = rw (h.0, split-Lacks_one c xs h.1)

split-append : (c : ℕ) (w s : Text) → Lacks c w → split c (w ++ c ∷ s) ≡ w ∷ split c s
unfolding split
split-append c [] s h = rw (==_refl c)
split-append c (x ∷ xs) s h = rw (h.0, split-append c xs s h.1)

-- Parts without the separator come back from the joined text.
pub split-join :
    (c : ℕ) (w : Text) (ws : List Text)
    → All (Lacks c) (w ∷ ws)
    → split c (join c (w ∷ ws)) ≡ w ∷ ws
split-join c w [] h = split-Lacks_one c w h.0
split-join c w (v ∷ vs) h =
    split-append c w (join c (v ∷ vs)) h.0 ∙ ap (λ t. w ∷ t) (split-join c v vs h.1)

push-append :
    (x : ℕ) (us vs : List Text) (v : Text) → push x ((v ∷ us) ++ vs) ≡ push x (v ∷ us) ++ vs
unfolding push
push-append x us vs v = refl

split-cons : (c : ℕ) (s : Text) → (w : Text) × (ws : List Text) × (split c s ≡ w ∷ ws)
unfolding split
split-cons c [] = ([], [], refl)
split-cons c (x ∷ xs) = elim (Bool-cases (x == c)) [
  | inl e ↦ ([], split c xs, rw e)
  | inr e ↦ let (w, ws, q) = split-cons c xs in (x ∷ w, ws, rw (e, q))
]

-- A separator ends a part, whatever the text before it.
pub split-append_all : (c : ℕ) (s t : Text) → split c (s ++ c ∷ t) ≡ split c s ++ split c t
unfolding split
split-append_all c [] t = rw (==_refl c)
split-append_all c (x ∷ xs) t = elim (Bool-cases (x == c)) [
  | inl e ↦ rw e (ap (λ r. [] ∷ r) (split-append_all c xs t))
  | inr e ↦ let (w, ws, q) = split-cons c xs in rw (e, split-append_all c xs t, q)
]

push-Lacks :
    (c x : ℕ) (ws : List Text) → (x == c) ≡ false → All (Lacks c) ws → All (Lacks c) (push x ws)
unfolding push
push-Lacks c x [] e h = ((e, tt), tt)
push-Lacks c x (w ∷ ws) e h = ((e, h.0), h.1)

pub split-Lacks : (c : ℕ) (s : Text) → All (Lacks c) (split c s)
unfolding split
split-Lacks c [] = (tt, tt)
split-Lacks c (x ∷ xs) = elim (Bool-cases (x == c)) [
  | inl e ↦ rw e (tt, split-Lacks c xs)
  | inr e ↦ rw e (push-Lacks c x (split c xs) e (split-Lacks c xs))
]

join-push : (c x : ℕ) (w : Text) (ws : List Text) → join c (push x (w ∷ ws)) ≡ x ∷ join c (w ∷ ws)
unfolding push
join-push c x w [] = refl
join-push c x w (v ∷ vs) = refl

pub join-split : (c : ℕ) (s : Text) → join c (split c s) ≡ s
unfolding split
join-split c [] = refl
join-split c (x ∷ xs) = elim (Bool-cases (x == c)) [
  | inl e ↦
      let (w, ws, q) = split-cons c xs in rw (e, q) (ground (arith, join-split c xs, ap (join c) q))
  | inr e ↦
      let (w, ws, q) = split-cons c xs in
      rw (e, q) (join-push c x w ws ∙ ap (λ t. x ∷ t) (rw (← q) (join-split c xs)))
]
