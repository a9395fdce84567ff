-- ===== src/Outbound/Fetch.antt =====
-- What fetching a link requests, and when.
use mathlib.Core.Path.{subst}
use sleeper_service.Base.{
  ℕ, zero, suc, ◌+◌, ◌≤◌, String, true, false, Option, none, some, List, [], ◌≡◌, arith, inl, inr,
}
use sleeper_service.Base.Tests.{leb, Bool-cases, Option-cases}
use sleeper_service.Base.Lists.{All, length, length-take}
use sleeper_service.Base.Text.{Text}
use sleeper_service.Models.Json.{end}
use sleeper_service.Outbound.{Net, is_http, host_allowed, validate_callback_target}
use sleeper_service.Outbound.Policy.{
  Vets, ResolvesPublic, validate_callback_target-Public, Vetted-cases,
}
use sleeper_service.Outbound.Links.{
  Response, Fetched, content, Request, max_link_bytes, is_redirect, target_of, read_answer,
  vet_link, follow, is_fetchable, fetch_one_link, max_redirects,
}

-- A request that the policy covers at its time: its host is on the allowlist, and resolved to public addresses then.
abbrev pub IsVetted : Net → List Text → Request → Type 0
IsVetted net allowlist (time, url) =
    (host_allowed net url allowlist ≡ true)
    × ((target : Text × ℕ) × Vets net url end target × ResolvesPublic net time target.0 target.1)

-- A text that is passed on is cut to its most.
abbrev pub text_of : Fetched → Text
text_of (content t) = t
text_of _ = []

abbrev pub IsShort : Fetched → Type 0
IsShort outcome = length (text_of outcome) ≤ max_link_bytes

module _ (net : Net) (get : String → Option Response) (allowlist : List Text) where
  abbrev Answers : ℕ → String → Option Fetched → Type 0
  Answers time url none = IsVetted net allowlist (time, url)
  Answers time url (some failure) = IsShort failure

  -- The check of a hop passes only for a request that is vetted, and fails without content.
  vet_link-IsVetted : (time : ℕ) (url : String) → Answers time url (vet_link net allowlist time url)
  unfolding vet_link
  vet_link-IsVetted time url = elim (Bool-cases (is_http (net.urlparse url).scheme)) [
    | inr f ↦ rw (vet_link, f) (omega arith)
    | inl p ↦ elim (Bool-cases (host_allowed net url allowlist)) [
      | inr f ↦ rw (vet_link, p, f) (omega arith)
      | inl a ↦ elim (Vetted-cases (validate_callback_target net time url end false)) [
        | inr (x, e) ↦ rw (vet_link, p, a, e) (omega arith)
        | inl (u, e) ↦
            rw (vet_link, p, a, e) (a, validate_callback_target-Public net time url end e)
      ]
    ]
  ]

  read_answer-IsShort : (r : Response) → IsShort (read_answer r)
  unfolding read_answer
  read_answer-IsShort r = elim (Bool-cases (leb 400 r.status_code)) [
    | inl b ↦ rw (read_answer, b) (omega arith)
    | inr b ↦ elim (Bool-cases (is_fetchable r.content_type)) [
      | inr c ↦ rw (read_answer, b, c) (omega arith)
      | inl c ↦ rw (read_answer, b, c) (length-take max_link_bytes r.text)
    ]
  ]

  abbrev pub Safe : ℕ → List Request × Fetched → Type 0
  Safe most r = All (IsVetted net allowlist) r.0 × (length r.0 ≤ most) × IsShort r.1

  follow-Safe : (left time : ℕ) (url : String) → Safe left (follow net get allowlist left time url)
  unfolding follow
  follow-Safe zero time url = (tt, omega arith, omega arith)
  follow-Safe (suc left) time url = elim (Option-cases (vet_link net allowlist time url)) [
    | inr (failure, e) ↦
        rw (follow, e) (tt, omega arith, subst (Answers time url) e (vet_link-IsVetted time url))
    | inl e ↦
        let vetted : IsVetted net allowlist (time, url) =
          subst (Answers time url) e (vet_link-IsVetted time url) in
        elim (Option-cases (get url)) [
          | inl g ↦ rw (follow, e, g) ((vetted, tt), omega arith, omega arith)
          | inr (r, g) ↦ elim (Bool-cases (is_redirect r.status_code)) [
            | inr b ↦ rw (follow, e, g, b) ((vetted, tt), omega arith, read_answer-IsShort r)
            | inl b ↦ elim (Option-cases (target_of r)) [
              | inl t ↦ rw (follow, e, g, b, t) ((vetted, tt), omega arith, omega arith)
              | inr (location, t) ↦
                  let (all_vetted, few, short) =
                    follow-Safe left (time + 1) (net.urljoin url location) in
                  rw (follow, e, g, b, t) ((vetted, all_vetted), omega (arith, few), short)
            ]
          ]
        ]
  ]

  -- Every request that fetching a link makes is of a URL whose host is on the allowlist and which passed the whole policy
  -- at the time of that request, redirects included. It makes five at most, whatever the servers answer, and passes on
  -- at most the first MAX_LINK_BYTES characters of a text.
  pub fetch_one_link-Safe :
      (time : ℕ) (url : String) → Safe max_redirects (fetch_one_link net get allowlist time url)
  unfolding fetch_one_link
  fetch_one_link-Safe time url = follow-Safe max_redirects time url
