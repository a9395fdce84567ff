-- ===== src/Versions/Aliases.antt =====
-- The table of aliases as the map from an agent and a name to a version.
use mathlib.Core.Path.{subst, fun_ext}
use sleeper_service.Base.{
  ℕ, ◌≤◌, ◌≡◌, ◌&&◌, String, true, false, Option, none, some, List, [], ◌∷◌, arith, refl, ap, inl,
  inr,
}
use sleeper_service.Base.Tests.{
  ◌==◌, ==_iff, ==_refl, str_eq, str_eq_iff, if◌then◌else◌, Bool-cases, Option-cases,
}
use sleeper_service.Base.Lists.{count, count-append}
use sleeper_service.Base.Table.{
  find_by, discard_by, find_by-append, find_by-modify_by, find_by-modify_by_other,
  find_by-discard_by, find_by-discard_by_other, find_by-none_count, count-modify_by,
  count-discard_by_le,
}
use sleeper_service.Models.Agents.{VersionAlias}
use sleeper_service.Versions.{is_alias, repoint, put_alias}

-- The abstract view: a map that forgets the rows and their order.
abbrev pub AliasMap : Type 0
AliasMap = ℕ → String → Option ℕ

abbrev pub pointed : Option VersionAlias → Option ℕ
pointed none = none
pointed (some r) = some r.agent_version_id

abbrev pub alias_view : List VersionAlias → AliasMap
alias_view rows i s = pointed (find_by (is_alias i s) rows)

abbrev pub assign : AliasMap → ℕ → String → Option ℕ → AliasMap
assign m i s v j t = if i == j && str_eq s t then v else m j t

-- The primary key of the table.
abbrev pub HasKeys : List VersionAlias → Type 0
HasKeys rows = (i : ℕ) (s : String) → count (is_alias i s) rows ≤ 1

-- Two keys that are not the same have no row in common.
apart :
    (i : ℕ) (s : String) (j : ℕ) (t : String)
    → (i == j && str_eq s t) ≡ false
    → (r : VersionAlias) → is_alias i s r ≡ true
    → is_alias j t r ≡ false
apart i s j t h r e =
    ground (arith, ==_iff i j, str_eq_iff s t, str_eq_iff r.alias s, str_eq_iff r.alias t)

pub same_key :
    (i : ℕ) (s : String) (j : ℕ) (t : String) → (i == j && str_eq s t) ≡ true → (i ≡ j) × (s ≡ t)
same_key i s j t h = ground (arith, ==_iff i j, str_eq_iff s t)

module _ (i : ℕ) (s : String) (rows : List VersionAlias) where
  abbrev added_row : ℕ → List VersionAlias
  added_row v = record { agent_id = i; alias = s; agent_version_id = v } ∷ []

  alias_view-put_alias_self : (v : ℕ) → alias_view (put_alias i s v rows) i s ≡ some v
  unfolding put_alias
  alias_view-put_alias_self v = elim (Option-cases (find_by (is_alias i s) rows)) [
    | inl e ↦
        rw (e, find_by-append (is_alias i s) rows (added_row v))
          (rw (e, ==_refl i, (str_eq_iff s s).1 refl) refl)
    | inr (r, e) ↦ rw (e, find_by-modify_by (is_alias i s) (repoint v) (λ x. refl) rows) (rw e refl)
  ]

  module _ (j : ℕ) (t : String) (other : (i == j && str_eq s t) ≡ false) where
    alias_view-put_alias_other :
        (v : ℕ) → alias_view (put_alias i s v rows) j t ≡ alias_view rows j t
    unfolding put_alias
    alias_view-put_alias_other v = elim (Option-cases (find_by (is_alias i s) rows)) [
      | inl e ↦
          rw (e, find_by-append (is_alias j t) rows (added_row v))
            (elim (Option-cases (find_by (is_alias j t) rows)) [
              | inl z ↦ rw (z, other) refl
              | inr (r, z) ↦ rw z refl
            ])
      | inr (r, e) ↦
          rw
            (
              e,
              find_by-modify_by_other (is_alias i s) (is_alias j t) (apart i s j t other)
                  (repoint v) (λ x. refl) rows,
            )
            refl
    ]

    alias_view-discard_other : alias_view (discard_by (is_alias i s) rows) j t ≡ alias_view rows j t
    alias_view-discard_other =
        ap pointed
          (find_by-discard_by_other (is_alias i s) (is_alias j t) (apart i s j t other) rows)

  -- Setting an alias is the assignment of its key.
  pub alias_view-put_alias :
      (v : ℕ) → alias_view (put_alias i s v rows) ≡ assign (alias_view rows) i s (some v)
  alias_view-put_alias v = fun_ext λ j. fun_ext λ t. elim (Bool-cases (i == j && str_eq s t)) [
    | inl e ↦
        let (ij, st) = same_key i s j t e in
        rw e (
          subst (λ k. alias_view (put_alias i s v rows) k t ≡ some v) ij
            (subst (λ k. alias_view (put_alias i s v rows) i k ≡ some v) st
              (alias_view-put_alias_self v)))
    | inr e ↦ rw e (alias_view-put_alias_other j t e v)
  ]

  -- Deleting the row of an alias removes its key.
  pub alias_view-discard :
      HasKeys rows → alias_view (discard_by (is_alias i s) rows) ≡ assign (alias_view rows) i s none
  alias_view-discard h = fun_ext λ j. fun_ext λ t. elim (Bool-cases (i == j && str_eq s t)) [
    | inl e ↦
        let (ij, st) = same_key i s j t e in
        let gone = ap pointed (find_by-discard_by (is_alias i s) rows (h i s)) in
        rw e (
          subst (λ k. alias_view (discard_by (is_alias i s) rows) k t ≡ none) ij
            (subst (λ k. alias_view (discard_by (is_alias i s) rows) i k ≡ none) st gone))
    | inr e ↦ rw e (alias_view-discard_other j t e)
  ]

  pub HasKeys-put_alias : (v : ℕ) → HasKeys rows → HasKeys (put_alias i s v rows)
  unfolding put_alias
  HasKeys-put_alias v h j t = elim (Option-cases (find_by (is_alias i s) rows)) [
    | inl e ↦
        rw (e, count-append (is_alias j t) rows (added_row v))
          (elim (Bool-cases (i == j && str_eq s t)) [
            | inl b ↦
                let (ij, st) = same_key i s j t b in
                let zero : count (is_alias j t) rows ≡ 0 =
                  subst (λ k. count (is_alias k t) rows ≡ 0) ij
                    (subst (λ k. count (is_alias i k) rows ≡ 0) st
                      (find_by-none_count (is_alias i s) rows e)) in
                rw (b, zero) (omega arith)
            | inr b ↦ rw b (omega (arith, h j t))
          ])
    | inr (r, e) ↦
        rw e
          (omega (arith, count-modify_by (is_alias j t) (is_alias i s) (repoint v) rows e, h j t))
  ]

  pub HasKeys-discard : HasKeys rows → HasKeys (discard_by (is_alias i s) rows)
  HasKeys-discard h j t =
      omega (arith, count-discard_by_le (is_alias i s) (is_alias j t) rows, h j t)
