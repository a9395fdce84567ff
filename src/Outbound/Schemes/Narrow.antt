-- ===== src/Outbound/Schemes/Narrow.antt =====
-- Which notification URLs pass, and which of them without a check of their host.
use mathlib.Core.Path.{subst}
use sleeper_service.Base.{
  String, Bool, true, false, Option, none, some, List, [], ◌&&◌, ◌||◌, not, map, ◌≡◌, ◌⊎◌, refl,
  arith, inl, inr,
}
use sleeper_service.Base.Tests.{if◌then◌else◌}
use sleeper_service.Base.Text.{Text}
use sleeper_service.Models.Json.{Fields}
use sleeper_service.Access.{is_empty}
use sleeper_service.Outbound.{
  Net, Url, Address, Vetted, passed, refused, require, is_internal_host, check_host_policy,
  allowlist_of, or_blank, rstrip_dot, bad_scheme, scheme_not_permitted, invalid_port, no_hostname,
}
use sleeper_service.Outbound.Policy.{bind_passed, policy_passed, passed_inj}
use sleeper_service.Outbound.Schemes.{
  member, hosted_apprise_schemes, custom_host_apprise_schemes, permits_scheme, check_own_host,
  port_is_valid, validate_apprise_url,
}

permitted :
    (hosted custom extra : Bool) (allowlist : List Text) (listed : Bool)
    → ((hosted || (custom || extra)) && (is_empty allowlist || listed)) ≡ true
    → ((hosted ≡ true) ⊎ (custom ≡ true) ⊎ (extra ≡ true)) × ((allowlist ≡ []) ⊎ (listed ≡ true))
permitted hosted custom extra allowlist listed h = (ground arith, ground arith)

branch :
    (blank permits hosted : Bool) (rest : Vetted (Option Text)) {host : Option Text}
    → (if blank
        then refused bad_scheme
        else if not permits
        then refused scheme_not_permitted
        else if hosted
        then passed none
        else rest)
      ≡ passed host
    → (permits ≡ true) × ((hosted ≡ true) × (none ≡ host) ⊎ (rest ≡ passed host))
branch true permits hosted rest h = absurd (cc)
branch false false hosted rest h = absurd (cc)
branch false true true rest h = (refl, inl (refl, passed_inj h))
branch false true false rest h = (refl, inr h)

both : (a b : Bool) → (a && not b) ≡ true → (a ≡ true) × (b ≡ false)
both a b h = (ground arith, ground arith)

host_policy :
    (net : Net) (host : Text) (private_hosts : Bool) {u : Unit {0}}
    → (if private_hosts then passed tt else check_host_policy net host false) ≡ passed u
    → (private_hosts ≡ true)
      ⊎ (is_internal_host false host ≡ false)
        × ((a : Address) → net.ip_address host ≡ some a → a.is_global ≡ true)
host_policy net host true h = inl refl
host_policy net host false h = inr (policy_passed net host h)

module _ (net : Net) (extra : List Text) (settings : Fields) where
  -- The platform's schemes, with those of the operator.
  abbrev pub IsPlatform : Text → Type 0
  IsPlatform scheme =
      (member scheme hosted_apprise_schemes ≡ true)
      ⊎ (member scheme custom_host_apprise_schemes ≡ true)
      ⊎ (member scheme (map net.lower extra) ≡ true)

  abbrev tenant_list : List Text
  tenant_list = allowlist_of "notif_scheme_allowlist" settings

  permits_scheme_exact :
      (scheme : Text)
      → permits_scheme net extra settings scheme ≡ true
      → IsPlatform scheme
        × ((tenant_list ≡ []) ⊎ (member scheme (map net.lower tenant_list) ≡ true))
  unfolding permits_scheme
  permits_scheme_exact scheme h =
      permitted (member scheme hosted_apprise_schemes) (member scheme custom_host_apprise_schemes)
        (member scheme (map net.lower extra)) tenant_list
        (member scheme (map net.lower tenant_list)) h

  -- A host of its own is checked unless the operator allows private ones.
  abbrev pub HostChecked : Url → Bool → Option Text → Type 0
  HostChecked u private_hosts none =
      (member (net.lower u.scheme) hosted_apprise_schemes ≡ true)
      × (member (net.lower u.scheme) (map net.lower extra) ≡ false)
  HostChecked u private_hosts (some host) =
      (host ≡ rstrip_dot (net.lower (or_blank u.hostname)))
      × ((private_hosts ≡ true)
          ⊎ (is_internal_host false host ≡ false)
            × ((a : Address) → net.ip_address host ≡ some a → a.is_global ≡ true))

  -- What a notification URL is that passes, with the host that it gives.
  abbrev pub Permitted : String → Bool → Option Text → Type 0
  Permitted url private_hosts host =
      let scheme = net.lower (net.urlparse url).scheme in
      IsPlatform scheme
      × ((tenant_list ≡ []) ⊎ (member scheme (map net.lower tenant_list) ≡ true))
      × HostChecked (net.urlparse url) private_hosts host

  with_host :
      (u : Url) (private_hosts : Bool) {host : Option Text}
      → check_own_host net u private_hosts ≡ passed host
      → HostChecked u private_hosts host
  unfolding check_own_host
  with_host u private_hosts {host} h =
      let name = rstrip_dot (net.lower (or_blank u.hostname)) in
      let (x, e0, h1) = bind_passed (require (port_is_valid u.port) invalid_port) _ h in
      let (y, e1, h2) = bind_passed (require (not (is_empty name)) no_hostname) _ h1 in
      let (z, e2, h3) =
        bind_passed (if private_hosts then passed tt else check_host_policy net name false) _ h2 in
      subst (HostChecked u private_hosts) (passed_inj h3)
        (refl, host_policy net name private_hosts e2)

  -- A notification URL passes only if its scheme is one of the platform or of the operator, and one of the tenant's list
  -- where it has one, so that the tenant narrows the platform's schemes and never widens them. Without a host to check
  -- only a hosted scheme passes that the operator has not added; every other host is no internal name and no literal
  -- address that is not public, unless the operator allows private hosts.
  pub validate_apprise_url-Permitted :
      (url : String) (private_hosts : Bool) (host : Option Text)
      → validate_apprise_url net url settings extra private_hosts ≡ passed host
      → Permitted url private_hosts host
  unfolding validate_apprise_url
  validate_apprise_url-Permitted url private_hosts host h =
      let scheme = net.lower (net.urlparse url).scheme in
      let hosted =
        member scheme hosted_apprise_schemes && not (member scheme (map net.lower extra)) in
      let (p, rest) =
        branch (is_empty scheme) (permits_scheme net extra settings scheme) hosted
          (check_own_host net (net.urlparse url) private_hosts) h in
      let (platform, narrow) = permits_scheme_exact scheme p in
      (
        platform,
        narrow,
        elim rest [
          | inl (q, e) ↦
              subst (HostChecked (net.urlparse url) private_hosts) e (
                both (member scheme hosted_apprise_schemes) (member scheme (map net.lower extra)) q)
          | inr r ↦ with_host (net.urlparse url) private_hosts r
        ],
      )
