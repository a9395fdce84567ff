-- ===== src/Outbound/Policy.antt =====
-- What a destination that passes the policy is: public, by its name and by the addresses that it resolves to.
use mathlib.Core.Path.{subst}
use sleeper_service.Base.{
  ℕ, String, Bool, true, false, some, List, [], ◌∷◌, ◌||◌, not, ◌≡◌, ◌≢◌, ◌⊎◌, refl, sym, ap, ◌∙◌,
  arith, inl, inr,
}
use sleeper_service.Base.Tests.{Bool-cases, Option-cases}
use sleeper_service.Base.Lists.{all, All}
use sleeper_service.Base.Text.{Text}
use sleeper_service.Models.Json.{Fields}
use sleeper_service.Access.{is_empty}
use sleeper_service.Outbound.{
  Net, Address, Vetted, passed, refused, require, ◌>>=◌, ◌>>◌, address_allowed, check_host_policy,
  resolve_and_check, is_internal_host, is_http, host_of, port_of, host_allowed, allowlist_of,
  rstrip_dot, validate_callback_url, validate_callback_target, bad_scheme, credentials,
  not_allowlisted, OutboundError, resolves_to_nothing, non_public_address,
}

pub bind_passed {ℓ κ} :
    {A : Type ℓ} {B : Type κ} (m : Vetted A) (f : A → Vetted B) {b : B}
    → (m >>= f) ≡ passed b
    → (a : A) × (m ≡ passed a) × (f a ≡ passed b)
bind_passed (passed a) f h = (a, refl, h)
bind_passed (refused e) f h = absurd (cc)

pub require_passed :
    (test : Bool) (e : OutboundError) {u : Unit {0}} → require test e ≡ passed u → test ≡ true
require_passed true e h = refl
require_passed false e h = absurd (cc)

passed_both :
    (a b : Bool) (e f : OutboundError) {u : Unit {0}}
    → (require a e >> require b f) ≡ passed u
    → (a ≡ true) × (b ≡ true)
passed_both true true e f h = (refl, refl)
passed_both true false e f h = absurd (cc)
passed_both false b e f h = absurd (cc)

-- A literal address is public.
abbrev pub IsPublic : Net → Text → Type 0
IsPublic net a = (d : Address) × (net.ip_address a ≡ some d) × (d.is_global ≡ true)

abbrev pub ResolvesPublic : Net → ℕ → Text → ℕ → Type 0
ResolvesPublic net time host port_no =
    (addresses : List Text) × (net.getaddrinfo time host port_no ≡ some addresses)
    × (addresses ≢ [])
    × All (IsPublic net) addresses

allowed-IsPublic :
    (net : Net) (a : Text) → address_allowed false (net.ip_address a) ≡ true → IsPublic net a
unfolding address_allowed
allowed-IsPublic net a h = elim (Option-cases (net.ip_address a)) [
  | inl e ↦ absurd (ground arith)
  | inr (d, e) ↦ (d, e, ground arith)
]

all-IsPublic :
    (net : Net) (addresses : List Text)
    → all (λ a. address_allowed false (net.ip_address a)) addresses ≡ true
    → All (IsPublic net) addresses
all-IsPublic net [] h = tt
all-IsPublic net (a ∷ more) h =
    (allowed-IsPublic net a (ground arith), all-IsPublic net more (ground arith))

not_empty : (addresses : List Text) → not (is_empty addresses) ≡ true → addresses ≢ []
not_empty [] h = absurd (cc)
not_empty (a ∷ more) h = λ e. absurd (cc)

pub resolve_and_check-Public :
    (net : Net) (time : ℕ) (host : Text) (port_no : ℕ) {u : Unit {0}}
    → resolve_and_check net time host port_no false ≡ passed u
    → ResolvesPublic net time host port_no
unfolding resolve_and_check
resolve_and_check-Public net time host port_no h =
    elim (Option-cases (net.getaddrinfo time host port_no)) [
      | inl e ↦ absurd (ground arith)
      | inr (addresses, e) ↦
          let (some_address, public) =
            passed_both (not (is_empty addresses))
              (all (λ a. address_allowed false (net.ip_address a)) addresses) resolves_to_nothing
              non_public_address (rw (resolve_and_check, e) at h) in
          (addresses, e, not_empty addresses some_address, all-IsPublic net addresses public)
    ]

-- What the checks of a URL require that give a host and a port.
abbrev pub Vets : Net → String → Fields → Text × ℕ → Type 0
Vets net url settings (host, port_no) =
    let parsed = net.urlparse url in
    (is_http parsed.scheme ≡ true)
    × ((h : Text) × (host_of parsed ≡ passed h) × (host ≡ rstrip_dot (net.lower h)))
    × (parsed.has_credentials ≡ false)
    × (port_of parsed ≡ passed port_no)
    × (is_internal_host false host ≡ false)
    × ((a : Address) → net.ip_address host ≡ some a → a.is_global ≡ true)
    × ((allowlist_of "callback_allowlist" settings ≡ [])
        ⊎ (host_allowed net url (allowlist_of "callback_allowlist" settings) ≡ true))

pub passed_inj {ℓ} : {A : Type ℓ} {a b : A} → passed a ≡ passed b → a ≡ b
passed_inj h = cc

not-true : {b : Bool} → not b ≡ true → b ≡ false
not-true {b} h = ground arith

module _ (allowlist : List Text) {allowed : Bool} where
  allowlisted : (is_empty allowlist || allowed) ≡ true → (allowlist ≡ []) ⊎ (allowed ≡ true)
  allowlisted h = ground arith

pub policy_passed :
    (net : Net) (host : Text) {u : Unit {0}}
    → check_host_policy net host false ≡ passed u
    → (is_internal_host false host ≡ false)
      × ((a : Address) → net.ip_address host ≡ some a → a.is_global ≡ true)
unfolding check_host_policy address_allowed
policy_passed net host h = elim (Bool-cases (is_internal_host false host)) [
  | inl i ↦ absurd (ground arith)
  | inr i ↦ (i, λ a e. ground arith)
]

pub validate_callback_url-Vets :
    (net : Net) (url : String) (settings : Fields) (target : Text × ℕ)
    → validate_callback_url net url settings false false ≡ passed target
    → Vets net url settings target
unfolding validate_callback_url
validate_callback_url-Vets net url settings (host, port_no) h =
    let parsed = net.urlparse url in
    let (u, e0, h1) = bind_passed (require (is_http parsed.scheme) bad_scheme) _ h in
    let (name, e1, h2) = bind_passed (host_of parsed) _ h1 in
    let (w, e2, h3) = bind_passed (require (not parsed.has_credentials) credentials) _ h2 in
    let (n, e3, h4) = bind_passed (port_of parsed) _ h3 in
    let (x, e4, h5) =
      bind_passed (check_host_policy net (rstrip_dot (net.lower name)) false) _ h4 in
    let allowlist = allowlist_of "callback_allowlist" settings in
    let (y, e5, h6) =
      bind_passed (require (is_empty allowlist || host_allowed net url allowlist) not_allowlisted) _
        h5 in
    let same : ◌≡◌ {A = Text × ℕ} (rstrip_dot (net.lower name), n) (host, port_no) =
      passed_inj h6 in
    let same_host = ap (λ (x : Text × ℕ). x.0) same in
    let same_port = ap (λ (x : Text × ℕ). x.1) same in
    let (i, lit) = policy_passed net (rstrip_dot (net.lower name)) e4 in
    (
      require_passed (is_http parsed.scheme) bad_scheme e0,
      (name, e1, sym same_host),
      not-true (require_passed (not parsed.has_credentials) credentials e2),
      e3 ∙ ap passed same_port,
      subst (λ x. is_internal_host false x ≡ false) same_host i,
      subst (λ x. (a : Address) → net.ip_address x ≡ some a → a.is_global ≡ true) same_host lit,
      allowlisted allowlist (require_passed _ not_allowlisted e5),
    )

-- A callback target is let through only if its URL is http or https with a host and without credentials, its host is
-- no internal name and no literal address that is not public, and clears the tenant's allowlist where there is one, and
-- the host then resolves to at least one address, all of them public.
pub validate_callback_target-Public :
    (net : Net) (time : ℕ) (url : String) (settings : Fields) {u : Unit {0}}
    → validate_callback_target net time url settings false ≡ passed u
    → (target : Text × ℕ) × Vets net url settings target × ResolvesPublic net time target.0 target.1
unfolding validate_callback_target
validate_callback_target-Public net time url settings h =
    let ((host, port_no), e, r) =
      bind_passed (validate_callback_url net url settings false false) _ h in
    (
      (host, port_no),
      validate_callback_url-Vets net url settings (host, port_no) e,
      resolve_and_check-Public net time host port_no r,
    )

pub Vetted-cases {ℓ} :
    {A : Type ℓ} (v : Vetted A)
    → ((a : A) × (v ≡ passed a)) ⊎ ((e : OutboundError) × (v ≡ refused e))
Vetted-cases (passed a) = inl (a, refl)
Vetted-cases (refused e) = inr (e, refl)
