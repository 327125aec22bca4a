-- ===== src/Redirect/Referrer/Disclosure.antt =====
-- src/redirect.rs, `Referrer::apply`: what the next request tells of the page before it.
use tlsurl.Base.{Bool, Option, none, some, List, [], ◌∷◌, text_eq, if◌then◌else◌, ◌>>=◌}
use tlsurl.Http.{HttpApi, HeaderValue}
use tlsurl.Redirect.Referrer.{
  ReferrerPolicy, unset, no_referrer, no_referrer_when_downgrade, within_origin, origin,
  strict_origin, origin_when_cross_origin, strict_origin_when_cross_origin, unsafe_url, Referrer,
  strip_to_origin_url,
}

-- How much the Referrer Policy specification lets a request tell.
pub data Disclosure : Type 0 where
  nothing origin_alone whole_url : Disclosure

abbrev pub unless : Bool → Disclosure → Disclosure
unless condition d = if condition then nothing else d

-- The specification's algorithm, policy by policy.
abbrev pub allowed : ReferrerPolicy → Bool → Bool → Disclosure
allowed no_referrer same downgrade = nothing
allowed no_referrer_when_downgrade same downgrade = unless downgrade whole_url
allowed within_origin same downgrade = if same then whole_url else nothing
allowed origin same downgrade = origin_alone
allowed strict_origin same downgrade = unless downgrade origin_alone
allowed origin_when_cross_origin same downgrade = if same then whole_url else origin_alone
allowed strict_origin_when_cross_origin same downgrade =
    if same then whole_url else unless downgrade origin_alone
allowed unset same downgrade = if same then whole_url else unless downgrade origin_alone
allowed unsafe_url same downgrade = whole_url

abbrev disclosed : Bool → Bool → Disclosure
disclosed withheld stripped =
    if withheld then nothing else if stripped then origin_alone else whole_url

module _ (api : HttpApi) where
  open api use {HeaderMap, get_all, Url, as_str, url_scheme, is_header_text}

  abbrev pub url_to_send : Disclosure → Url → Option Url
  url_to_send nothing source = none
  url_to_send origin_alone source = some (strip_to_origin_url api source)
  url_to_send whole_url source = some source

  -- A text that is no header value is not sent.
  abbrev pub header_values : Bool → Option Url → List HeaderValue
  header_values sensitive none = []
  header_values sensitive (some url) =
      if is_header_text (as_str url)
      then (record { text = some (as_str url); sensitive = sensitive }) ∷ []
      else []

  sendable : Option Url → Option Url
  sendable o = o >>= λ url. if is_header_text (as_str url) then some url else none
