-- ===== src/Proxy/Credentials.antt =====
-- src/proxy/matcher.rs: what `parse_env_uri` does with the credentials of a proxy's URI.
use mathlib.Core.Option
use tlsurl.Base.{
  subst, unwrap_or, ◌≡◌, sym, ap, ◌∙◌, inl, inr, Bool, true, Option, none, some, Text, ◌>>=◌,
  >>=-eq-some, Option-cases, Bool-cases, arith, text_eq,
}
use tlsurl.Uri.{Uri, Scheme, http, https, other, Authority}
use tlsurl.Uri.Userinfo.{userinfo, read_authority, rsplit_once}
use tlsurl.Uri.Userinfo.Roundtrip.{lacks, rsplit_once-lacks, rsplit_once-rest, lacks-none}
use tlsurl.Proxy.{ProxyApi, Intercept}
use tlsurl.Proxy.Carried.{Carries, IsWhole, with_port-Carries}
use tlsurl.Proxy.Matching.{
  parse_env_uri, proxy_scheme, with_port, split_auth, is_socks, intercept_of, uri_intercept,
}

-- What the builder is documented to do: the URI has the parts that it was given.
abbrev pub Keeps : ProxyApi → Type 0
Keeps api =
    (scheme : Scheme) (text : Text) (u : Uri)
    → api.build_uri scheme text ≡ some u
    → (u.scheme ≡ some scheme) × ((a : Authority) × (u.authority ≡ some a) × (a.text ≡ text))

module _ (api : ProxyApi) where
  split_auth-lacks : (socks : Bool) (text : Text) → lacks b'@' (split_auth api socks text).1 ≡ true
  split_auth-lacks socks text = elim (Option-cases (rsplit_once b'@' text)) [
    | inl absent ↦ rw (absent, split_auth) (lacks-none b'@' text absent)
    | inr ((info, host), found) ↦
        rw (found, split_auth) (rsplit_once-rest b'@' text info host found)
  ]

  -- The scheme is that of the text, or `http` if there is none.
  proxy_scheme-given :
      (given : Option Scheme) (scheme : Scheme) (socks : Bool)
      → proxy_scheme given ≡ some (scheme, socks)
      → (is_socks scheme ≡ socks) × (scheme ≡ unwrap_or given http)
  proxy_scheme-given none scheme socks e = (ground (arith, e), ground (arith, e))
  proxy_scheme-given (some http) scheme socks e = (ground (arith, e), ground (arith, e))
  proxy_scheme-given (some https) scheme socks e = (ground (arith, e), ground (arith, e))
  proxy_scheme-given (some (other s)) scheme socks e = elim (Bool-cases (is_socks (other s))) [
    | inl yes_socks ↦ (ground (arith, e, yes_socks), ground (arith, e, yes_socks))
    | inr other_scheme ↦ absurd (ground (arith, e, other_scheme))
  ]

  userinfo-lacking :
      (u : Uri) (a : Authority)
      → u.authority ≡ some a
      → lacks b'@' a.text ≡ true
      → userinfo u ≡ (none, none)
  unfolding userinfo read_authority
  userinfo-lacking u a there plain = ground (arith, there, rsplit_once-lacks b'@' a.text plain)

  -- What the code hands to the builder for a scheme, and the credentials that it splits off.
  abbrev IsBuilt : Intercept api.HeaderMap → Scheme → Bool → Text → Type 0
  IsBuilt i scheme socks text =
      (api.build_uri scheme (split_auth api socks text).1 ≡ some i.uri)
      × (i.auth ≡ (split_auth api socks text).0)

  intercept_of-IsBuilt :
      (scheme : Scheme) (socks : Bool) (authority : Authority) (i : Intercept api.HeaderMap)
      → intercept_of api scheme socks authority ≡ some i
      → IsBuilt i scheme socks authority.text
  unfolding intercept_of
  intercept_of-IsBuilt scheme socks authority i h =
      let (uri, built, same) =
        (Option.map-eq-some_iff _ (api.build_uri scheme (split_auth api socks authority.text).1)).0
          h in
      (built ∙ ap (λ i. some i.uri) same, ap (λ i. i.auth) (sym same))

  -- What is read of the URI: its authority, and the authority with its port.
  abbrev IsRead : Uri → Scheme → Bool → Intercept api.HeaderMap → Type 0
  IsRead uri scheme socks i =
      (named : Authority) × (a : Authority) × (uri.authority ≡ some named)
      × (with_port api socks named ≡ some a)
      × IsBuilt i scheme socks a.text

  uri_intercept-IsRead :
      (uri : Uri) (scheme : Scheme) (socks : Bool) (i : Intercept api.HeaderMap)
      → uri_intercept api uri (scheme, socks) ≡ some i
      → IsRead uri scheme socks i
  unfolding uri_intercept
  uri_intercept-IsRead uri scheme socks i h =
      let (named, there, ported) =
        >>=-eq-some uri.authority
          (λ named. with_port api socks named >>= intercept_of api scheme socks) i h in
      let (a, e, made) =
        >>=-eq-some (with_port api socks named) (intercept_of api scheme socks) i ported in
      (named, a, there, e, intercept_of-IsBuilt scheme socks a i made)

  parse_env_uri-IsRead :
      (val : Text) (i : Intercept api.HeaderMap)
      → parse_env_uri api val ≡ some i
      → (given : Uri) × (scheme : Scheme) × (socks : Bool) × (api.parse_uri val ≡ some given)
        × (proxy_scheme given.scheme ≡ some (scheme, socks))
        × IsRead given scheme socks i
  unfolding parse_env_uri
  parse_env_uri-IsRead val i h =
      let (given, parsed, chosen) =
        >>=-eq-some (api.parse_uri val) (λ uri. proxy_scheme uri.scheme >>= uri_intercept api uri) i
          h in
      let ((scheme, socks), at, made) =
        >>=-eq-some (proxy_scheme given.scheme) (uri_intercept api given) i chosen in
      (given, scheme, socks, parsed, at, uri_intercept-IsRead given scheme socks i made)

  -- The URI of a proxy that is taken from a text has the scheme of the text, or `http`, and no user
  -- information left. The credentials are those that stand in the authority, percent-decoded: the user
  -- and the password themselves for SOCKS, and otherwise the two as the value of a sensitive header;
  -- there are none where none stand there. The builder keeps the parts that it is given, and an authority
  -- that is made of a text has that text.
  pub parse_env_uri-credentials :
      (val : Text) (i : Intercept api.HeaderMap)
      → Keeps api
      → IsWhole api
      → parse_env_uri api val ≡ some i
      → (userinfo i.uri ≡ (none, none))
        × ((given : Uri) × (named : Authority) × (api.parse_uri val ≡ some given)
            × (given.authority ≡ some named)
            × (i.uri.scheme ≡ some (unwrap_or given.scheme http))
            × Carries api (unwrap_or given.scheme http) named.text i.auth)
  parse_env_uri-credentials val i keeps whole h =
      let (given, scheme, socks, parsed, at, (named, a, there, ported, (built, auth))) =
        parse_env_uri-IsRead val i h in
      let (kind, same) = proxy_scheme-given given.scheme scheme socks at in
      let (schemed, (b, its, plain)) = keeps scheme (split_auth api socks a.text).1 i.uri built in
      (
        userinfo-lacking i.uri b its (rw plain (split_auth-lacks socks a.text)),
        (
          given,
          named,
          parsed,
          there,
          schemed ∙ ap some same,
          subst (λ s. Carries api s named.text i.auth) same
              (rw auth (with_port-Carries api scheme socks named a whole kind ported)),
        ),
      )
