-- ===== src/Outbound.antt =====
-- runtime/outbound.py: which destinations the server connects to by itself. A refusal is told by its message's kind;
-- the label of a destination, which the messages name, is not modelled.
pub mod Links
pub mod Policy
pub mod Schemes
pub mod Fetch
mod Tests
use sleeper_service.Base.{
  ℕ, String, Bool, true, false, Option, none, some, List, [], ◌∷◌, ◌++◌, ◌&&◌, ◌||◌, not, map,
}
use sleeper_service.Base.Tests.{if◌then◌else◌, ◌==◌}
use sleeper_service.Base.Lists.{any, all}
use sleeper_service.Base.Text.{Text, codes, text_eq, ends_with}
use sleeper_service.Models.Json.{Value, text, array, Items, nil, cons, Fields, get}
use sleeper_service.Access.{is_empty}

-- What `urlparse` gives: a port that is no number from 0 to 65535 raises when it is read.
pub data Port : Type 0 where
  no_port malformed : Port
  port : ℕ → Port

pub record Url : Type 0 where
  pub scheme : Text
  pub hostname : Option Text
  pub has_credentials : Bool
  pub port : Port

-- What `ipaddress` says of an address.
pub record Address : Type 0 where
  pub is_global : Bool
  pub is_loopback : Bool

-- The parsers of URLs and addresses, the case mapping of texts, and the resolver, whose answer may be another one at
-- another time. An answer that is none is an OSError.
pub record Net : Type 0 where
  pub urlparse : String → Url
  pub urljoin : String → String → String
  pub ip_address : Text → Option Address
  pub lower : Text → Text
  pub getaddrinfo : ℕ → Text → ℕ → Option (List Text)

pub data OutboundError : Type 0 where
  bad_scheme no_hostname credentials invalid_port non_public_host non_public_address : OutboundError
  not_allowlisted unresolved resolves_to_nothing scheme_not_permitted : OutboundError

pub data Vetted {ℓ} (A : Type ℓ) : Type ℓ where
  passed : A → Vetted A
  refused : OutboundError → Vetted A

-- A refusal ends the validation.
infixl 5 ◌>>=◌
abbrev pub ◌>>=◌ {κ ℓ} : {B : Type κ} {A : Type ℓ} → Vetted B → (B → Vetted A) → Vetted A
refused error >>= next = refused error
passed value >>= next = next value

infixl 5 ◌>>◌
abbrev pub ◌>>◌ {κ ℓ} : {B : Type κ} {A : Type ℓ} → Vetted B → Vetted A → Vetted A
first >> then_this = first >>= λ value. then_this

-- `if not test: raise OutboundUrlError(e)`
abbrev pub require : Bool → OutboundError → Vetted (Unit {0})
require true e = passed tt
require false e = refused e

-- An address that does not parse raises, which is a refusal too.
unfoldable pub address_allowed : Bool → Option Address → Bool
address_allowed allow_loopback none = false
address_allowed allow_loopback (some a) = a.is_global || (allow_loopback && a.is_loopback)

abbrev pub is_loopback_host : Text → Bool
is_loopback_host host = text_eq host (codes "localhost") || ends_with (codes ".localhost") host

unfoldable pub is_internal_host : Bool → Text → Bool
is_internal_host allow_loopback host =
    (ends_with (codes ".local") host || ends_with (codes ".internal") host)
    || (is_loopback_host host && not allow_loopback)

-- A name that is no literal address is left to the resolver.
unfoldable pub check_host_policy : Net → Text → Bool → Vetted (Unit {0})
unfolding address_allowed is_internal_host
check_host_policy net host allow_loopback =
    if is_internal_host allow_loopback host
    then refused non_public_host
    else elim (net.ip_address host) [
      | none ↦ passed tt
      | some a ↦ require (address_allowed allow_loopback (some a)) non_public_address
    ]

unfoldable pub resolve_and_check : Net → ℕ → Text → ℕ → Bool → Vetted (Unit {0})
unfolding address_allowed
resolve_and_check net time host port_no allow_loopback = elim (net.getaddrinfo time host port_no) [
  | none ↦ refused unresolved
  | some addresses ↦ do
    require (not (is_empty addresses)) resolves_to_nothing
    require (all (λ a. address_allowed allow_loopback (net.ip_address a)) addresses)
        non_public_address
]

-- The texts of an allowlist, which is a list of texts.
abbrev pub texts_in : Items → List Text
texts_in nil = []
texts_in (cons (text s) vs) = codes s ∷ texts_in vs
texts_in (cons _ vs) = texts_in vs

abbrev pub allowlist_of : String → Fields → List Text
allowlist_of key settings = elim (get key settings) [
  | none ↦ []
  | some v ↦ elim v [ array vs ↦ texts_in vs | _ ↦ [] ]
]

abbrev pub or_blank : Option Text → Text
or_blank none = []
or_blank (some t) = t

-- `host == entry.lower() or host.endswith("." + entry.lower())`
abbrev pub is_under : Net → Text → Text → Bool
is_under net host entry = text_eq host (net.lower entry) || ends_with (46 ∷ net.lower entry) host

-- `host_allowed` of runtime/links.py
unfoldable pub host_allowed : Net → String → List Text → Bool
host_allowed net url allowlist =
    let host = net.lower (or_blank (net.urlparse url).hostname) in
    not (is_empty host) && any (is_under net host) allowlist

abbrev pub is_http : Text → Bool
is_http scheme = text_eq scheme (codes "http") || text_eq scheme (codes "https")

-- `parsed.port or (443 if parsed.scheme == "https" else 80)`
abbrev pub port_of : Url → Vetted ℕ
port_of u = elim u.port [
  | malformed ↦ refused invalid_port
  | no_port ↦ passed (if text_eq u.scheme (codes "https") then 443 else 80)
  | port n ↦ passed (if n == 0 then (if text_eq u.scheme (codes "https") then 443 else 80) else n)
]

-- `host.rstrip(".")`
abbrev pub keep_unless_dot : ℕ → Text → Text
keep_unless_dot c [] = if c == 46 then [] else c ∷ []
keep_unless_dot c (d ∷ ds) = c ∷ d ∷ ds

abbrev pub rstrip_dot : Text → Text
rstrip_dot [] = []
rstrip_dot (c ∷ cs) = keep_unless_dot c (rstrip_dot cs)

-- `if not parsed.hostname`
abbrev pub host_of : Url → Vetted Text
host_of u = elim u.hostname [
  | none ↦ refused no_hostname
  | some h ↦ if is_empty h then refused no_hostname else passed h
]

unfoldable pub validate_callback_url : Net → String → Fields → Bool → Bool → Vetted (Text × ℕ)
unfolding check_host_policy host_allowed
validate_callback_url net url settings allow_loopback allow_private_hosts =
    let parsed = net.urlparse url in
    let allowlist = allowlist_of "callback_allowlist" settings in
    do
      require (is_http parsed.scheme) bad_scheme
      hostname ← host_of parsed
      require (not parsed.has_credentials) credentials
      port_no ← port_of parsed
      let host = rstrip_dot (net.lower hostname)
      (if allow_private_hosts then passed tt else check_host_policy net host allow_loopback)
      require (is_empty allowlist || host_allowed net url allowlist) not_allowlisted
      passed (host, port_no)

unfoldable pub validate_callback_target : Net → ℕ → String → Fields → Bool → Vetted (Unit {0})
unfolding validate_callback_url resolve_and_check
validate_callback_target net time url settings allow_loopback = do
  target ← validate_callback_url net url settings allow_loopback false
  resolve_and_check net time target.0 target.1 allow_loopback

-- The endpoints of MCP servers.
unfoldable pub validate_mcp_url : Net → Bool → String → Vetted (Text × ℕ)
unfolding validate_callback_url
validate_mcp_url net mcp_allow_private_hosts url =
    validate_callback_url net url Fields.end false mcp_allow_private_hosts

unfoldable pub validate_mcp_target : Net → ℕ → Bool → String → Vetted (Unit {0})
unfolding validate_callback_url validate_callback_target
validate_mcp_target net time mcp_allow_private_hosts url =
    if mcp_allow_private_hosts
    then (do validate_callback_url net url Fields.end false true; passed tt)
    else validate_callback_target net time url Fields.end false
