-- ===== src/Teams/Owners.antt =====
-- Every team keeps an owner.
use mathlib.Core.Path.{subst}
use sleeper_service.Base.{
  ℕ, ◌<◌, ◌≡◌, String, true, Option, some, List, [], ◌∷◌, arith, inl, inr, sym, refl,
}
use sleeper_service.Base.Tests.{Option-cases}
use sleeper_service.Base.Lists.{count, count-append, All, All-append, All-map}
use sleeper_service.Base.Table.{
  find_by, find_by_passes, discard_by, count-modify_by, count-discard_by,
}
use sleeper_service.Base.Result.{Result, ok, err}
use sleeper_service.Models.Auth.{Role, is_owner, Team, TeamMember}
use sleeper_service.Access.{UserPrincipal}
use sleeper_service.Teams.{
  Directory, is_member, owns, forbid_removing_last_owner, create_team, set_member, remove_member,
  change_role, insert_team, get_or_else,
}

-- The number of owners of a team.
abbrev pub owners : Directory → ℕ → ℕ
owners d t = count (owns t) d.members

-- Every team has an owner, and the next id is that of no team.
pub record IsOwned (d : Directory) : Type 0 where
  pub owned : All (λ (t : Team). 0 < owners d t.id) d.teams
  pub fresh : All (λ (t : Team). t.id < d.next_id) d.teams

-- No other member counts as an owner of the team after a change of one row.
module _ (d : Directory) (team_id user_id : ℕ) where
  owners-change_role :
      (m : TeamMember) (role : Role) {d' : Directory}
      → find_by (is_member user_id team_id) d.members ≡ some m
      → change_role d team_id user_id m role ≡ ok d'
      → (t : ℕ) → 0 < owners d t
      → 0 < owners d' t
  unfolding change_role
  owners-change_role m role e h t pos = ground (
    arith,
    find_by_passes (is_member user_id team_id) d.members {x = m},
    count-modify_by (owns t) (is_member user_id team_id)
        (λ (r : TeamMember). record r { role = role }) d.members {x = m},
  )

  owners-discard :
      {m : TeamMember} {d' : Directory}
      → find_by (is_member user_id team_id) d.members ≡ some m
      → d' ≡ record d { members = discard_by (is_member user_id team_id) d.members }
      → (is_owner m.role ≡ true → forbid_removing_last_owner d team_id ≡ ok tt)
      → (t : ℕ) → 0 < owners d t
      → 0 < owners d' t
  unfolding forbid_removing_last_owner
  owners-discard {m} e e' h t pos = ground (
    arith,
    find_by_passes (is_member user_id team_id) d.members {x = m},
    count-discard_by (owns t) (is_member user_id team_id) d.members {x = m},
  )

module _ (d : Directory) (p : UserPrincipal) where
  owners-set_member :
      (team_id user_id : ℕ) (role : Role) {d' : Directory}
      → set_member d p team_id user_id role ≡ ok d'
      → (t : ℕ) → 0 < owners d t
      → 0 < owners d' t
  unfolding set_member
  owners-set_member team_id user_id role {d'} h t pos =
      elim (Option-cases (find_by (is_member user_id team_id) d.members)) [
        | inl e ↦ ground (
          arith,
          count-append (owns t) d.members
              (record { user_id = user_id; team_id = team_id; role = role } ∷ []),
        )
        | inr (m, e) ↦ owners-change_role d team_id user_id m role {d' = d'} e (ground arith) t pos
      ]

  owners-remove_member :
      (team_id user_id : ℕ) {d' : Directory}
      → remove_member d p team_id user_id ≡ ok d'
      → (t : ℕ) → 0 < owners d t
      → 0 < owners d' t
  unfolding remove_member
  owners-remove_member team_id user_id {d'} h t pos =
      elim (Option-cases (find_by (is_member user_id team_id) d.members)) [
        | inl e ↦ absurd (ground arith)
        | inr (m, e) ↦
            owners-discard d team_id user_id {m = m} {d' = d'} e (ground arith) (λ o. ground arith)
              t pos
      ]

  teams-set_member :
      (team_id user_id : ℕ) (role : Role) {d' : Directory}
      → set_member d p team_id user_id role ≡ ok d'
      → (d'.teams ≡ d.teams) × (d'.next_id ≡ d.next_id)
  unfolding set_member
  teams-set_member team_id user_id role h = ground arith

  teams-remove_member :
      (team_id user_id : ℕ) {d' : Directory}
      → remove_member d p team_id user_id ≡ ok d'
      → (d'.teams ≡ d.teams) × (d'.next_id ≡ d.next_id)
  unfolding remove_member
  teams-remove_member team_id user_id h = ground arith

-- A change of members alone, after which no team has lost its owners.
IsOwned-members :
    {d d' : Directory}
    → d'.teams ≡ d.teams
    → d'.next_id ≡ d.next_id
    → ((t : ℕ) → 0 < owners d t → 0 < owners d' t)
    → IsOwned d
    → IsOwned d'
IsOwned-members {d} {d'} same next keep v = record {
  owned = rw same (
      All-map (λ (t : Team). 0 < owners d t.id) (λ (t : Team). 0 < owners d' t.id) (λ t. keep t.id)
        d.teams v.owned);
  fresh = rw (same, next) v.fresh;
}

IsOwned-insert_team :
    (d : Directory) (tenant_id : ℕ) (name : String) (owner_id : ℕ)
    → IsOwned d
    → IsOwned (insert_team d tenant_id name owner_id)
unfolding insert_team
IsOwned-insert_team d tenant_id name owner_id v =
    let member : TeamMember = record {
      user_id = owner_id;
      team_id = d.next_id;
      role = Role.owner;
    } in
    record {
      owned =
          All-append _ d.teams _
            (All-map (λ (t : Team). 0 < owners d t.id) _
              (λ t h. rw (count-append (owns t.id) d.members (member ∷ [])) (omega arith)) d.teams
              v.owned)
            (rw (count-append (owns d.next_id) d.members (member ∷ [])) (ground arith), tt);
      fresh =
          All-append _ d.teams _
            (All-map (λ (t : Team). t.id < d.next_id) _ (λ t h. omega arith) d.teams v.fresh)
            (omega arith, tt);
    }

create_team-IsOwned :
    (d : Directory) (p : UserPrincipal) (tenant_id : ℕ) (name : String) (owner : Option ℕ)
    {d' : Directory}
    → create_team d p tenant_id name owner ≡ ok d'
    → IsOwned d
    → IsOwned d'
unfolding create_team
create_team-IsOwned d p tenant_id name owner {d'} h v =
    let same : d' ≡ insert_team d tenant_id name (get_or_else owner p.user.id) = ground arith in
    subst IsOwned (sym same) (IsOwned-insert_team d tenant_id name (get_or_else owner p.user.id) v)

-- The requests that change teams and members, each by its principal.
pub data Request : Type 0 where
  create : UserPrincipal → ℕ → String → Option ℕ → Request
  set : UserPrincipal → ℕ → ℕ → Role → Request
  remove : UserPrincipal → ℕ → ℕ → Request

pub act : Directory → Request → Result Directory
act d (create p tenant_id name owner) = create_team d p tenant_id name owner
act d (set p team_id user_id role) = set_member d p team_id user_id role
act d (remove p team_id user_id) = remove_member d p team_id user_id

-- A refused request is rolled back: the tables stay.
abbrev pub settle : Directory → Result Directory → Directory
settle d (ok d') = d'
settle d (err e) = d

pub serve : Directory → List Request → Directory
serve d [] = d
serve d (r ∷ rs) = serve (settle d (act d r)) rs

act-IsOwned :
    (d : Directory) (r : Request) {d' : Directory} → act d r ≡ ok d' → IsOwned d → IsOwned d'
unfolding act
act-IsOwned d (create p tenant_id name owner) h v = create_team-IsOwned d p tenant_id name owner h v
act-IsOwned d (set p team_id user_id role) h v =
    let (teams, next) = teams-set_member d p team_id user_id role h in
    IsOwned-members teams next (owners-set_member d p team_id user_id role h) v
act-IsOwned d (remove p team_id user_id) h v =
    let (teams, next) = teams-remove_member d p team_id user_id h in
    IsOwned-members teams next (owners-remove_member d p team_id user_id h) v

settle-IsOwned :
    (d : Directory) (r : Result Directory)
    → ((d' : Directory) → r ≡ ok d' → IsOwned d')
    → IsOwned d
    → IsOwned (settle d r)
settle-IsOwned d (ok d') h v = h d' refl
settle-IsOwned d (err e) h v = v

-- Where every team has an owner, every team has one after any sequence of requests to create teams and
-- to set and remove members, whoever makes them; the teams that the requests create are among them.
pub serve-IsOwned : (d : Directory) (rs : List Request) → IsOwned d → IsOwned (serve d rs)
unfolding serve
serve-IsOwned d [] v = v
serve-IsOwned d (r ∷ rs) v =
    serve-IsOwned (settle d (act d r)) rs
      (settle-IsOwned d (act d r) (λ d' h. act-IsOwned d r h v) v)
