-- ===== src/Outbound/Schemes.antt =====
-- The notification URLs of runtime/outbound.py: the scheme of an Apprise URL decides which checks its host needs.
pub mod Narrow
use sleeper_service.Base.{
  ℕ, String, Bool, true, false, Option, none, some, List, [], ◌∷◌, ◌++◌, ◌&&◌, ◌||◌, not, map, ◌≡◌,
  ◌⊎◌, refl, arith, inl, inr,
}
use sleeper_service.Base.Tests.{if◌then◌else◌, Bool-cases, Option-cases}
use sleeper_service.Base.Lists.{any}
use sleeper_service.Base.Text.{Text, codes, text_eq}
use sleeper_service.Models.Json.{Fields}
use sleeper_service.Access.{is_empty}
use sleeper_service.Outbound.{
  Net, Url, Vetted, passed, refused, require, ◌>>=◌, ◌>>◌, OutboundError, no_hostname, invalid_port,
  bad_scheme, scheme_not_permitted, Port, malformed, no_port, port, check_host_policy, allowlist_of,
  or_blank, rstrip_dot, resolve_and_check,
}

abbrev pub member : Text → List Text → Bool
member s ts = any (text_eq s) ts

unfoldable pub hosted_apprise_schemes : List Text
hosted_apprise_schemes =
    codes "discord"
    ∷ codes "gchat"
    ∷ codes "ifttt"
    ∷ codes "join"
    ∷ codes "mailgun"
    ∷ codes "opsgenie"
    ∷ codes "pagerduty"
    ∷ codes "pbul"
    ∷ codes "pover"
    ∷ codes "prowl"
    ∷ codes "sendgrid"
    ∷ codes "ses"
    ∷ codes "slack"
    ∷ codes "sns"
    ∷ codes "tgram"
    ∷ codes "twilio"
    ∷ []

unfoldable pub custom_host_apprise_schemes : List Text
custom_host_apprise_schemes =
    codes "apprise"
    ∷ codes "apprises"
    ∷ codes "form"
    ∷ codes "forms"
    ∷ codes "gotify"
    ∷ codes "gotifys"
    ∷ codes "json"
    ∷ codes "jsons"
    ∷ codes "matrix"
    ∷ codes "matrixs"
    ∷ codes "mmost"
    ∷ codes "mmosts"
    ∷ codes "ntfy"
    ∷ codes "ntfys"
    ∷ codes "rocket"
    ∷ codes "rockets"
    ∷ codes "xml"
    ∷ codes "xmls"
    ∷ []

-- The schemes of the platform and of NOTIF_EXTRA_SCHEMES, narrowed by the tenant's list where it has one.
unfoldable pub permits_scheme : Net → List Text → Fields → Text → Bool
permits_scheme net extra_schemes settings scheme =
    let tenant_allowlist = allowlist_of "notif_scheme_allowlist" settings in
    (member scheme hosted_apprise_schemes
      || (member scheme custom_host_apprise_schemes || member scheme (map net.lower extra_schemes)))
    && (is_empty tenant_allowlist || member scheme (map net.lower tenant_allowlist))

-- `parsed.port`, which raises where it is malformed.
abbrev pub port_is_valid : Port → Bool
port_is_valid malformed = false
port_is_valid _ = true

-- The host of a URL whose scheme has hosts of its own.
unfoldable pub check_own_host : Net → Url → Bool → Vetted (Option Text)
check_own_host net parsed allow_private_hosts =
    let host = rstrip_dot (net.lower (or_blank parsed.hostname)) in
    do
      require (port_is_valid parsed.port) invalid_port
      require (not (is_empty host)) no_hostname
      (if allow_private_hosts then passed tt else check_host_policy net host false)
      passed (some host)

-- The host that must clear the policy before a delivery, and none where the provider fixes the endpoint.
unfoldable pub validate_apprise_url :
    Net → String → Fields → List Text → Bool → Vetted (Option Text)
unfolding permits_scheme check_own_host hosted_apprise_schemes custom_host_apprise_schemes
validate_apprise_url net url settings extra_schemes allow_private_hosts =
    let parsed = net.urlparse url in
    let scheme = net.lower parsed.scheme in
    if is_empty scheme
    then refused bad_scheme
    else if not (permits_scheme net extra_schemes settings scheme)
    then refused scheme_not_permitted
    else if member scheme hosted_apprise_schemes
        && not (member scheme (map net.lower extra_schemes))
    then passed none
    else check_own_host net parsed allow_private_hosts

abbrev pub port_number : Port → ℕ
port_number (port n) = n
port_number _ = 0

unfoldable pub validate_apprise_target :
    Net → ℕ → String → Fields → List Text → Bool → Vetted (Unit {0})
unfolding validate_apprise_url
validate_apprise_target net time url settings extra_schemes allow_private_hosts = do
  host ← validate_apprise_url net url settings extra_schemes allow_private_hosts
  elim host [
    | none ↦ passed tt
    | some h ↦
        if allow_private_hosts
        then passed tt
        else resolve_and_check net time h (port_number (net.urlparse url).port) false
  ]
