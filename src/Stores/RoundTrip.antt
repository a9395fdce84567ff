-- ===== src/Stores/RoundTrip.antt =====
-- Listings and inputs share one coordinate system: what `relative` makes of a key below the prefix resolves to
-- that key again.
use mathlib.Core.List.{reverse, reverse-cons, reverse-reverse, append_assoc, append-nil}
use sleeper_service.Base.{
  ℕ, Bool, true, false, List, [], ◌∷◌, ◌++◌, ◌≡◌, refl, sym, arith, ◌∙◌, ap, inl, inr, ◌⊎◌, some,
}
use sleeper_service.Base.Tests.{Bool-cases, ==_refl}
use sleeper_service.Base.Lists.{All, All-append}
use sleeper_service.Base.Text.{
  Text, text_eq, text_eq_sound, starts_with, starts_with_sound, starts_with_append, split,
  join-split, split-append_all,
}
use sleeper_service.Stores.{
  StoreGrant, ok, new_grant, resolve, relative, escaped, is_nil, after_prefix, remove_prefix,
}
use sleeper_service.Stores.Paths.{
  slash, parent_dir, parent_slash, strip, lstrip, rstrip, posix_join, ends_slash, keep_unless_last,
  normpath, is_parent, is_void, norm_step, norm_loop, or_dot,
}

-- A name of a file or a directory.
abbrev pub IsName : Text → Type 0
IsName w = (is_void w ≡ false) × (is_parent w ≡ false)

norm_loop_names :
    (absolute : Bool) (kept ws : List Text)
    → All IsName ws
    → norm_loop absolute kept ws ≡ reverse ws ++ kept
unfolding norm_loop norm_step
norm_loop_names absolute kept [] h = refl
norm_loop_names absolute kept (w ∷ ws) h =
    rw (h.0.0, h.0.1, reverse-cons, append_assoc) (norm_loop_names absolute (w ∷ kept) ws h.1)

split-parent_slash :
    (rest : Text) → split slash (parent_slash ++ rest) ≡ parent_dir ∷ split slash rest
unfolding split
split-parent_slash rest = refl

or_dot_text : (t : Text) → All IsName (split slash t) → or_dot t ≡ t
unfolding split
or_dot_text [] names = absurd (ground (arith, names.0))
or_dot_text (x ∷ xs) names = refl

module _ (t : Text) (names : All IsName (split slash t)) where
  names_no_root : starts_with (slash ∷ []) t ≡ false
  names_no_root = elim (Bool-cases (starts_with (slash ∷ []) t)) [
    | inr e ↦ e
    | inl e ↦
        let (rest, q) = starts_with_sound (slash ∷ []) t e in
        absurd (unfold split in ground (arith, (rw q at names).0))
  ]

  names_no_dir : text_eq t parent_dir ≡ false
  names_no_dir = elim (Bool-cases (text_eq t parent_dir)) [
    | inr e ↦ e
    | inl e ↦
        absurd (unfold split in ground (arith, (rw (text_eq_sound t parent_dir e) at names).0))
  ]

  names_no_slash : starts_with parent_slash t ≡ false
  names_no_slash = elim (Bool-cases (starts_with parent_slash t)) [
    | inr e ↦ e
    | inl e ↦
        let (rest, q) = starts_with_sound parent_slash t e in
        absurd (ground (arith, (rw (q, split-parent_slash rest) at names).0))
  ]

  names_normpath : normpath t ≡ t
  unfolding normpath
  names_normpath =
      rw
        (
          names_no_root,
          norm_loop_names false [] (split slash t) names,
          append-nil,
          reverse-reverse,
          join-split slash t,
        )
        (or_dot_text t names)

lstrip_other : (s : Text) → starts_with (slash ∷ []) s ≡ false → lstrip slash s ≡ s
unfolding lstrip
lstrip_other [] h = refl
lstrip_other (x ∷ xs) h = ground arith

EndsPlain : Text → Type 0
EndsPlain s = (s ≡ []) ⊎ (ends_slash s ≡ false)

keep_unless_last-EndsPlain :
    (x : ℕ) (r : Text) → EndsPlain r → EndsPlain (keep_unless_last slash x r)
unfolding EndsPlain
keep_unless_last-EndsPlain x [] h = ground arith
keep_unless_last-EndsPlain x (y ∷ ys) h = ground arith

rstrip-EndsPlain : (s : Text) → EndsPlain (rstrip slash s)
unfolding EndsPlain rstrip
rstrip-EndsPlain [] = inl refl
rstrip-EndsPlain (x ∷ xs) = keep_unless_last-EndsPlain x (rstrip slash xs) (rstrip-EndsPlain xs)

after_prefix-append : (p s : Text) → after_prefix p (p ++ s) ≡ some s
after_prefix-append [] s = refl
after_prefix-append (x ∷ xs) s = rw ==_refl (after_prefix-append xs s)

-- A key below the prefix, from its parts.
abbrev pub key_of : Text → Text → Text
key_of p x = p ++ slash ∷ x

remove_prefix-append : (p s : Text) → remove_prefix p (p ++ s) ≡ s
remove_prefix-append p s = ground (arith, after_prefix-append p s)

remove_prefix-key_of : (p x : Text) → remove_prefix (p ++ slash ∷ []) (key_of p x) ≡ x
remove_prefix-key_of p x =
    ap (remove_prefix (p ++ slash ∷ [])) (sym (append_assoc p (slash ∷ []) x))
    ∙ remove_prefix-append (p ++ slash ∷ []) x

relative-key_of :
    (g : StoreGrant) (root x : Text)
    → is_nil g.prefix ≡ false
    → relative g (key_of root (key_of g.prefix x)) root ≡ x
unfolding relative
relative-key_of g root x h = rw h (
    ap (remove_prefix (g.prefix ++ slash ∷ [])) (remove_prefix-key_of root (key_of g.prefix x))
    ∙ remove_prefix-key_of g.prefix x)

names-not_nil : (t : Text) → All IsName (split slash t) → is_nil t ≡ false
unfolding split
names-not_nil [] names = absurd (ground (arith, names.0))
names-not_nil (x ∷ xs) names = refl

new_grant-plain :
    (root prefix : Text) (mode : Bool)
    → is_nil (new_grant root prefix mode).prefix ≡ false
    → ends_slash (new_grant root prefix mode).prefix ≡ false
unfolding new_grant strip EndsPlain
new_grant-plain root prefix mode h = ground (arith, rstrip-EndsPlain (lstrip slash prefix))

module _ (g : StoreGrant) (x : Text) (plain : ends_slash g.prefix ≡ false)
    (prefix_names : All IsName (split slash g.prefix)) (names : All IsName (split slash x)) where
  key_names : All IsName (split slash (key_of g.prefix x))
  key_names =
      rw split-append_all
        (All-append IsName (split slash g.prefix) (split slash x) prefix_names names)

  posix_join-key_of : posix_join g.prefix (lstrip slash x) ≡ key_of g.prefix x
  unfolding posix_join
  posix_join-key_of = rw (lstrip_other x (names_no_root x names), names_no_root x names, plain) refl

  not_escaped : escaped g.prefix (key_of g.prefix x) ≡ false
  unfolding escaped
  not_escaped =
      let e : starts_with (g.prefix ++ slash ∷ []) (key_of g.prefix x) ≡ true =
        rw (sym (append_assoc g.prefix (slash ∷ []) x))
          (starts_with_append (g.prefix ++ slash ∷ []) x) in
      ground
        (arith, e, names_no_root _ key_names, names_no_dir _ key_names, names_no_slash _ key_names)

  resolve-key_of : resolve g x ≡ ok (key_of g.prefix x)
  unfolding resolve
  resolve-key_of = rw (posix_join-key_of, names_normpath _ key_names, not_escaped) refl

-- For a grant whose prefix is not empty and has none but proper names in it, and for any path of proper names
-- below the prefix: the key of that path in the store, made relative by the listing, is accepted when it is
-- passed back, and resolves to the path under the prefix.
pub resolve-relative :
    (root prefix : Text) (mode : Bool) (x : Text)
    → All IsName (split slash (new_grant root prefix mode).prefix)
    → All IsName (split slash x)
    → let g = new_grant root prefix mode in
      resolve g (relative g (key_of root (key_of g.prefix x)) root) ≡ ok (key_of g.prefix x)
resolve-relative root prefix mode x prefix_names names =
    let g = new_grant root prefix mode in
    let not_nil = names-not_nil g.prefix prefix_names in
    rw (relative-key_of g root x not_nil)
      (resolve-key_of g x (new_grant-plain root prefix mode not_nil) prefix_names names)
