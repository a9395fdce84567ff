-- ===== src/Outbound/Tests.antt =====
-- A network with one public host, a link that redirects to it, and a notification service.
use sleeper_service.Base.{ℕ, String, true, false, Option, none, some, List, [], ◌∷◌, ◌≡◌, refl}
use sleeper_service.Base.Tests.{str_eq, if◌then◌else◌}
use sleeper_service.Base.Text.{Text, codes, text_eq}
use sleeper_service.Models.Json.{end}
use sleeper_service.Outbound.{Net, Url, Address, Port, no_port, passed, validate_callback_target}
use sleeper_service.Outbound.Policy.{Vets, ResolvesPublic, validate_callback_target-Public}
use sleeper_service.Outbound.Links.{Response, fetch_one_link}
use sleeper_service.Outbound.Fetch.{Safe, fetch_one_link-Safe}
use sleeper_service.Outbound.Schemes.{validate_apprise_url}
use sleeper_service.Outbound.Schemes.Narrow.{Permitted, validate_apprise_url-Permitted}

abbrev page : Url
page = record {
  scheme = codes "https";
  hostname = some (codes "docs.example");
  has_credentials = false;
  port = no_port;
}

abbrev chat : Url
chat = record {
  scheme = codes "slack";
  hostname = some (codes "token");
  has_credentials = false;
  port = no_port;
}

abbrev net : Net
net = record {
  urlparse = λ u. if str_eq u "slack://token" then chat else page;
  urljoin = λ base location. location;
  ip_address = λ a.
      if text_eq a (codes "8.8.8.8")
      then some (record { is_global = true; is_loopback = false })
      else none;
  lower = λ t. t;
  getaddrinfo = λ time host p. some (codes "8.8.8.8" ∷ []);
}

abbrev moved : String → Option Response
moved u =
    if str_eq u "https://docs.example/old"
    then some (record {
      status_code = 301;
      location = some "https://docs.example/new";
      content_type = [];
      text = [];
    })
    else some (record {
      status_code = 200;
      location = none;
      content_type = codes "text/html";
      text = codes "hello";
    })

abbrev listed : List Text
listed = codes "example" ∷ []

fetch_one_link-Safe_example :
    Safe net moved listed 5 (fetch_one_link net moved listed 0 "https://docs.example/old")
fetch_one_link-Safe_example = fetch_one_link-Safe net moved listed 0 "https://docs.example/old"

lets_through : validate_callback_target net 0 "https://docs.example/hook" end false ≡ passed tt
unfolding validate_callback_target
lets_through = refl

validate_callback_target-Public_example :
    (target : Text × ℕ) × Vets net "https://docs.example/hook" end target
    × ResolvesPublic net 0 target.0 target.1
validate_callback_target-Public_example =
    validate_callback_target-Public net 0 "https://docs.example/hook" end lets_through

needs_no_host : validate_apprise_url net "slack://token" end [] false ≡ passed none
unfolding validate_apprise_url sleeper_service.Outbound.Schemes.hosted_apprise_schemes
needs_no_host = refl

validate_apprise_url-Permitted_example : Permitted net [] end "slack://token" false none
validate_apprise_url-Permitted_example =
    validate_apprise_url-Permitted net [] end "slack://token" false none needs_no_host
