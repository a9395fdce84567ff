-- ===== src/Keys/Revoked.antt =====
-- A key that is revoked, as the authentication of Access sees it.
use sleeper_service.Base.{
  ℕ, Bool, true, false, some, List, [], ◌∷◌, ◌≡◌, ◌≢◌, ◌<◌, ◌≤◌, ◌⊎◌, refl, ap, ◌∙◌, inl, inr,
  arith,
}
use sleeper_service.Base.Tests.{◌==◌, ==_iff, Bool-cases}
use sleeper_service.Base.Lists.{count}
use sleeper_service.Base.Table.{Keyed, find, find_by, modify}
use sleeper_service.Base.Result.{
  Result, ok, err, unauthorized, bind_ok, or_raise, or_raise_ok, not_found,
}
use sleeper_service.Models.Auth.{KeyScope, User, TeamMember, ApiKey}
use sleeper_service.State.{Db}
use sleeper_service.Access.{UserPrincipal, Principal, Counter, get_principal}
use sleeper_service.Keys.{api_key_keyed, require_scope_admin, scope_of, revoke, revoke_invoke_key}

module _ {ℓ} {A : Type ℓ} ⦃k : Keyed A⦄ (p : A → Bool) where
  found_counts : (i : ℕ) (xs : List A) {x : A} → find i xs ≡ some x → p x ≡ true → 0 < count p xs
  found_counts i [] e h = absurd (cc)
  found_counts i (y ∷ ys) {x} e h = ground (arith, found_counts i ys {x = x})

  -- A row that alone passes a test, and is changed through its key, is the one that passes it then.
  find_by-modify_only :
      (i : ℕ) (f : A → A)
      → ((y : A) → p (f y) ≡ p y)
      → (xs : List A) {x : A} → count p xs ≤ 1
      → find i xs ≡ some x
      → p x ≡ true
      → find_by p (modify i f xs) ≡ some (f x)
  find_by-modify_only i f same [] c e h = absurd (cc)
  find_by-modify_only i f same (y ∷ ys) {x} c e h =
      ground (arith, same y, found_counts i ys {x = x}, find_by-modify_only i f same ys {x = x})

  find_by-modify_absent :
      (i : ℕ) (f : A → A)
      → ((y : A) → p (f y) ≡ p y)
      → (xs : List A) {x : A} → find i xs ≡ some x
      → p x ≡ false
      → find_by p (modify i f xs) ≡ find_by p xs
  find_by-modify_absent i f same [] e h = refl
  find_by-modify_absent i f same (y ∷ ys) {x} e h =
      ground (arith, same y, find_by-modify_absent i f same ys {x = x})

abbrev pub has_hash : ℕ → ApiKey → Bool
has_hash h k = k.key_hash == h

-- The unique constraint on the hashes.
abbrev pub HasHashes : List ApiKey → Type 0
HasHashes keys = (h : ℕ) → count (has_hash h) keys ≤ 1

same_hash : (h : ℕ) (db : Db) (k : ApiKey) → has_hash h (revoke db k) ≡ has_hash h k
same_hash h db k = ground arith

module _ (users : List User) (members : List TeamMember) where
  revoked_refuses :
      (db : Db) (key_id : ℕ) (keys : List ApiKey) {key : ApiKey}
      → HasHashes keys
      → find key_id keys ≡ some key
      → (now : ℕ) (counters : List Counter)
      → get_principal
          (modify key_id (revoke db) keys)
          users
          members
          now
          (some key.key_hash)
          counters
        ≡ (counters, err unauthorized)
  unfolding get_principal
  revoked_refuses db key_id keys {key} unique e now counters =
      let found =
        find_by-modify_only (has_hash key.key_hash) key_id (revoke db) (same_hash key.key_hash db)
          keys (unique key.key_hash) e ((==_iff key.key_hash key.key_hash).1 refl) in
      rw (get_principal, found) (ground arith)

  others_stay :
      (db : Db) (key_id : ℕ) (keys : List ApiKey) {key : ApiKey}
      → find key_id keys ≡ some key
      → (h : ℕ) → h ≢ key.key_hash
      → (now : ℕ) (counters : List Counter)
      → get_principal (modify key_id (revoke db) keys) users members now (some h) counters
        ≡ get_principal keys users members now (some h) counters
  unfolding get_principal
  others_stay db key_id keys {key} e h ne now counters =
      let same =
        find_by-modify_absent (has_hash h) key_id (revoke db) (same_hash h db) keys {x = key} e
          (ground (arith, ne, ==_iff key.key_hash h)) in
      rw (get_principal, same) refl

  -- The key was the one with the id, and an invoke key of a scope that the principal administers.
  abbrev pub MayRevoke : Db → UserPrincipal → ℕ → List ApiKey → ApiKey → Type 0
  MayRevoke db p key_id keys key =
      (find key_id keys ≡ some key)
      × ((scope : KeyScope × ℕ) × (scope_of key.shape ≡ some scope)
          × (require_scope_admin db p scope.0 scope.1 ≡ ok tt))

  revoke_ok :
      (db : Db) (p : UserPrincipal) (key_id : ℕ) (keys : List ApiKey) {keys' : List ApiKey}
      → revoke_invoke_key db p key_id keys ≡ ok keys'
      → (key : ApiKey) × MayRevoke db p key_id keys key × (keys' ≡ modify key_id (revoke db) keys)
  unfolding revoke_invoke_key
  revoke_ok db p key_id keys {keys'} h =
      let (key, k, h1) = bind_ok (or_raise (find key_id keys) not_found) _ h in
      let (scope, sc, h2) = bind_ok (or_raise (scope_of key.shape) not_found) _ h1 in
      let (u, admin, h3) = bind_ok (require_scope_admin db p scope.0 scope.1) _ h2 in
      let same : keys' ≡ modify key_id (revoke db) keys = cc in
      (
        key,
        (
          or_raise_ok (find key_id keys) not_found k,
          (scope, or_raise_ok (scope_of key.shape) not_found sc, admin),
        ),
        same,
      )

  -- A key is revoked only by an administrator of its scope. A request with the key is refused from then on, whatever
  -- the users, the teams, the time and the counters are, and a request with any other key is answered as before. The
  -- hashes of the keys are taken to be distinct.
  pub revoke_invoke_key-IsRefused :
      (db : Db) (p : UserPrincipal) (key_id : ℕ) (keys : List ApiKey) (h now : ℕ)
      (counters : List Counter) {keys' : List ApiKey}
      → HasHashes keys
      → revoke_invoke_key db p key_id keys ≡ ok keys'
      → (key : ApiKey) × MayRevoke db p key_id keys key
        × (((h ≡ key.key_hash)
              × (get_principal keys' users members now (some h) counters
                  ≡ (counters, err unauthorized)))
            ⊎ ((h ≢ key.key_hash)
                × (get_principal keys' users members now (some h) counters
                    ≡ get_principal keys users members now (some h) counters)))
  revoke_invoke_key-IsRefused db p key_id keys h now counters {keys'} unique r =
      let (key, may, same) = revoke_ok db p key_id keys r in
      let answers : List ApiKey → List Counter × Result Principal =
        λ ks. get_principal ks users members now (some h) counters in
      (
        key,
        may,
        elim (Bool-cases (h == key.key_hash)) [
          | inl e ↦
              let is_key = (==_iff h key.key_hash).0 e in
              inl (
                is_key,
                ap answers same
                    ∙ (ap
                          (λ x.
                            get_principal (modify key_id (revoke db) keys) users members now
                              (some x) counters)
                          is_key
                        ∙ revoked_refuses db key_id keys unique may.0 now counters),
              )
          | inr e ↦
              let ne : h ≢ key.key_hash = λ q. absurd (ground (arith, ==_iff h key.key_hash)) in
              inr (ne, ap answers same ∙ others_stay db key_id keys may.0 h ne now counters)
        ],
      )
