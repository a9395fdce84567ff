-- ===== src/Outbound/Links.antt =====
-- runtime/links.py: the links of a job, checked when it is submitted and fetched when it runs.
use sleeper_service.Base.{
  ℕ, zero, suc, ◌+◌, String, Bool, false, Option, none, some, List, [], ◌∷◌, ◌||◌, not,
}
use sleeper_service.Base.Tests.{if◌then◌else◌, ◌==◌, leb, str_eq}
use sleeper_service.Base.Lists.{any, take}
use sleeper_service.Base.Text.{Text, codes, starts_with}
use sleeper_service.Models.Json.{Fields, end}
use sleeper_service.Outbound.{
  Net, passed, refused, OutboundError, is_http, host_allowed, allowlist_of,
  validate_callback_target,
}

pub data LinkError : Type 0 where
  not_http not_in_allowlist : String → LinkError

unfoldable pub check_links : Net → List Text → List String → Option LinkError
check_links net allowlist [] = none
check_links net allowlist (url ∷ urls) =
    let rest = check_links net allowlist urls in
    if not (is_http (net.urlparse url).scheme)
    then some (not_http url)
    else if not (host_allowed net url allowlist)
    then some (not_in_allowlist url)
    else rest

-- What a server answers: none is an error of the HTTP client.
pub record Response : Type 0 where
  pub status_code : ℕ
  pub location : Option String
  pub content_type : Text
  pub text : Text

pub data Fetched : Type 0 where
  disallowed_scheme host_not_allowed http_error missing_location unsupported_type
        too_many_redirects :
      Fetched
  not_public : OutboundError → Fetched
  http_status : ℕ → Fetched
  content : Text → Fetched

abbrev pub max_link_bytes : ℕ
max_link_bytes = 100000

abbrev pub max_redirects : ℕ
max_redirects = 5

abbrev pub is_redirect : ℕ → Bool
is_redirect code = any (λ c. code == c) (301 ∷ 302 ∷ 303 ∷ 307 ∷ 308 ∷ [])

-- `content_type.startswith(FETCHABLE_TYPES)`
unfoldable pub is_fetchable : Text → Bool
is_fetchable content_type =
    starts_with (codes "text/") content_type
    || (starts_with (codes "application/json") content_type
        || starts_with (codes "application/xml") content_type)

abbrev pub target_of : Response → Option String
target_of r = elim r.location [
  | none ↦ none
  | some location ↦ if str_eq location "" then none else some location
]

-- The end of an answer that is no redirect.
unfoldable pub read_answer : Response → Fetched
unfolding is_fetchable
read_answer r =
    if leb 400 r.status_code
    then http_status r.status_code
    else if not (is_fetchable r.content_type)
    then unsupported_type
    else content (take max_link_bytes r.text)

-- A URL is requested at a time only after the checks at that time.
unfoldable pub vet_link : Net → List Text → ℕ → String → Option Fetched
vet_link net allowlist time url =
    if not (is_http (net.urlparse url).scheme)
    then some disallowed_scheme
    else if not (host_allowed net url allowlist)
    then some host_not_allowed
    else elim (validate_callback_target net time url end false) [
      | refused e ↦ some (not_public e)
      | passed _ ↦ none
    ]

-- A request, by its time and its URL.
abbrev pub Request : Type 0
Request = ℕ × String

-- The loop over the hops that are left, with the requests that were made; the time counts the hops.
unfoldable pub follow :
    Net → (String → Option Response) → List Text → ℕ → ℕ → String → List Request × Fetched
unfolding vet_link read_answer
follow net get allowlist zero time url = ([], too_many_redirects)
follow net get allowlist (suc left) time url = elim (vet_link net allowlist time url) [
  | some failure ↦ ([], failure)
  | none ↦ elim (get url) [
    | none ↦ ((time, url) ∷ [], http_error)
    | some r ↦
        if is_redirect r.status_code
        then elim (target_of r) [
          | none ↦ ((time, url) ∷ [], missing_location)
          | some location ↦
              let (requests, outcome) =
                follow net get allowlist left (time + 1) (net.urljoin url location) in
              ((time, url) ∷ requests, outcome)
        ]
        else ((time, url) ∷ [], read_answer r)
  ]
]

unfoldable pub fetch_one_link :
    Net → (String → Option Response) → List Text → ℕ → String → List Request × Fetched
unfolding follow
fetch_one_link net get allowlist time url = follow net get allowlist max_redirects time url

unfoldable pub fetch_each :
    Net → (String → Option Response) → List Text → ℕ → List String → List (List Request × Fetched)
unfolding fetch_one_link
fetch_each net get allowlist time [] = []
fetch_each net get allowlist time (url ∷ urls) =
    fetch_one_link net get allowlist time url
    ∷ fetch_each net get allowlist (time + max_redirects) urls

-- The links of a job, one after the other; without an allowlist nothing is fetched.
unfoldable pub fetch_links :
    Net → (String → Option Response) → Fields → List String → List (List Request × Fetched)
unfolding fetch_each
fetch_links net get settings urls =
    fetch_each net get (allowlist_of "link_allowlist" settings) 0 urls
