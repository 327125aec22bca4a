-- ===== src/Redirect/Referrer.antt =====
-- src/redirect.rs, `mod referrer`: the `Referer` header along a chain of redirects.
pub mod Disclosure
use tlsurl.Base.{
  Bool, true, false, not, ◌&&◌, Option, none, some, Text, List, [], ◌∷◌, ◌==◌, if◌then◌else◌, ltb,
  length, codes, eq_ignore_ascii_case, option_eq, nat_eq, is_some_and, ◌>>=◌, split, trim,
}
use tlsurl.Uri.{Uri, Scheme, http, https, host, port_or_default, scheme_eq}
use tlsurl.Http.{HttpApi, HeaderValue, Request, first, referer, referrer_policy}
use tlsurl.Redirect.Origin.{same_host}

-- The constructor `None` of the source is `unset`, and `SameOrigin` is `within_origin`.
pub data ReferrerPolicy : Type 0 where
  unset no_referrer no_referrer_when_downgrade within_origin origin strict_origin : ReferrerPolicy
  origin_when_cross_origin strict_origin_when_cross_origin unsafe_url : ReferrerPolicy

pub record Referrer (U : Type 0) : Type 0 where
  pub source : Option U
  pub policy : ReferrerPolicy

abbrev pub default_referrer : {U : Type 0} → Referrer U
default_referrer = record { source = none; policy = strict_origin_when_cross_origin }

abbrev pub tokens : List (Text × ReferrerPolicy)
tokens =
    (codes "no-referrer", no_referrer)
    ∷ (codes "no-referrer-when-downgrade", no_referrer_when_downgrade)
    ∷ (codes "same-origin", within_origin)
    ∷ (codes "origin", origin)
    ∷ (codes "strict-origin", strict_origin)
    ∷ (codes "origin-when-cross-origin", origin_when_cross_origin)
    ∷ (codes "strict-origin-when-cross-origin", strict_origin_when_cross_origin)
    ∷ (codes "unsafe-url", unsafe_url)
    ∷ []

abbrev pub find_token : Text → List (Text × ReferrerPolicy) → ReferrerPolicy
find_token token [] = unset
find_token token ((name, policy) ∷ rest) =
    if eq_ignore_ascii_case token name then policy else find_token token rest

unfoldable pub from_token : Text → ReferrerPolicy
from_token token = find_token token tokens

-- A recognized value replaces the one before it.
abbrev pub keep_last : ReferrerPolicy → ReferrerPolicy → ReferrerPolicy
keep_last policy unset = policy
keep_last policy parsed = parsed

unfoldable pub from_parts : ReferrerPolicy → List Text → ReferrerPolicy
from_parts policy [] = policy
from_parts policy (t ∷ ts) = from_parts (keep_last policy (from_token (trim t))) ts

-- A comma is byte 44.
unfoldable pub from_values : ReferrerPolicy → List HeaderValue → ReferrerPolicy
from_values policy [] = policy
from_values policy (v ∷ vs) = elim v.text [
  | none ↦ from_values policy vs
  | some value ↦ from_values (from_parts policy (split 44 value)) vs
]

-- The policies that send nothing, by whether the origins are the same and whether the request
-- leaves HTTPS for HTTP.
unfoldable pub withholds : ReferrerPolicy → Bool → Bool → Bool
withholds no_referrer same downgrade = true
withholds no_referrer_when_downgrade same downgrade = downgrade
withholds within_origin same downgrade = not same
withholds strict_origin same downgrade = downgrade
withholds strict_origin_when_cross_origin same downgrade = not same && downgrade
withholds unset same downgrade = not same && downgrade
withholds _ same downgrade = false

-- The policies that send the origin alone.
unfoldable pub strips : ReferrerPolicy → Bool → Bool
strips origin same = true
strips strict_origin same = true
strips origin_when_cross_origin same = not same
strips strict_origin_when_cross_origin same = not same
strips unset same = not same
strips _ same = false

module _ (api : HttpApi) where
  open api use {
    HeaderMap, get_all, remove, insert, Url, parse_url, as_str, url_scheme, host_str,
    port_or_known_default, clear_username, clear_password, clear_fragment, clear_query, clear_path,
    is_header_text,
  }

  abbrev pub from_headers : HeaderMap → ReferrerPolicy
  from_headers h = from_values unset (get_all h referrer_policy)

  unfoldable pub on_redirect : Referrer Url → HeaderMap → Referrer Url
  on_redirect r h = record r { policy = keep_last r.policy (from_headers h) }

  abbrev pub strip_to_origin_url : Url → Url
  strip_to_origin_url url = clear_fragment (clear_query (clear_path url))

  unfoldable pub parse_referrer : HeaderValue → Option Url
  parse_referrer value = value.text >>= λ text. parse_url text >>= λ parsed.
      url_scheme parsed >>= λ scheme.
      if not (scheme == http) && not (scheme == https)
      then none
      else (clear_username parsed >>= λ anonymous. clear_password anonymous >>= λ clean.
          let source = clear_fragment clean in
          some (if ltb 4096 (length (as_str source)) then strip_to_origin_url source else source))

  unfoldable pub referrer_new : HeaderMap → Referrer Url
  referrer_new h = record {
    source = first (get_all h referer) >>= parse_referrer;
    policy = strict_origin_when_cross_origin;
  }

  unfoldable pub same_origin_url : Url → Scheme → Uri → Bool
  same_origin_url source source_scheme destination =
      same_host (host_str source) (host destination)
      && (destination.scheme == some source_scheme
          && port_or_known_default source == some (port_or_default destination))

  abbrev pub is_downgrade : Scheme → Uri → Bool
  is_downgrade source_scheme destination = source_scheme == https && destination.scheme == some http

  abbrev pub without_referer : Request HeaderMap → Request HeaderMap
  without_referer req = record req { headers = remove req.headers referer }

  abbrev pub is_sensitive : Request HeaderMap → Bool
  is_sensitive req = is_some_and (first (get_all req.headers referer)) (λ v. v.sensitive)

  -- The URL that the next request names, or none where every branch takes the header out.
  unfoldable pub next_referrer : Referrer Url → Request HeaderMap → Option Url
  next_referrer r req = r.source >>= λ source. url_scheme source >>= λ scheme.
      let same = same_origin_url source scheme req.uri in
      if withholds r.policy same (is_downgrade scheme req.uri)
      then none
      else (let sent = if strips r.policy same then strip_to_origin_url source else source in
          if is_header_text (as_str sent) then some sent else none)

  -- The referrer is taken out of the state, and only a header that is sent puts it back.
  unfoldable pub apply : Referrer Url → Request HeaderMap → Referrer Url × Request HeaderMap
  apply r req = elim (next_referrer r req) [
    | none ↦ (record r { source = none }, without_referer req)
    | some sent ↦ (
      record r { source = some sent },
      record req {
        headers =
            insert req.headers referer
              (record { text = some (as_str sent); sensitive = is_sensitive req });
      },
    )
  ]
