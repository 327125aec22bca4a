-- ===== src/Proxy/Bypass.antt =====
-- src/proxy/matcher.rs: which requests to named hosts bypass the proxy.
use tlsurl.Base.{
  flat_map, Elem-flat_map, Elem-of_flat_map, append-nil, append_assoc, ◌∙◌, ◌≡◌, refl, sym, ap,
  subst, ◌⊎◌, ◌↔◌, inl, inr, true, false, Option, none, some, Text, List, [], ◌∷◌, ◌++◌,
  if◌then◌else◌, Elem, any_of_Elem, Elem-of_any, is_nil, trim, split, map, arith, Option-cases,
  Bool-cases,
}
use tlsurl.Uri.{Uri, host, is_http, is_https}
use tlsurl.Proxy.{
  ProxyApi, NoProxy, Builder, Extra, Intercept, proxy, add_entry, add_entries, from_string,
  no_proxy_contains, domains_contain, domain_entry, strip_ipv6_brackets, no_proxy_empty,
}
use tlsurl.Proxy.Matching.{parse_env_uri, or_else, build, intercept, with_extra}
use tlsurl.Proxy.Domains.{Covers, domain_entry_iff}
use mathlib.Core.Option

module _ (api : ProxyApi) where
  -- An entry of the list that is read as a domain.
  pub record IsDomain (d : Text) : Type 0 where
    pub no_net : api.parse_net d ≡ none
    pub no_addr : api.parse_addr d ≡ none
    pub written : is_nil (trim d) ≡ false

  -- What an entry adds to the domains.
  domain_of : Text → List Text
  domain_of part = elim (api.parse_net part) [
    | some net ↦ []
    | none ↦ elim (api.parse_addr part) [
      | some addr ↦ []
      | none ↦ if is_nil (trim part) then [] else part ∷ []
    ]
  ]

  add_entry-domains :
      (rules : NoProxy api.IpAddr api.IpNet) (part : Text)
      → (add_entry api rules part).domains ≡ rules.domains ++ domain_of part
  unfolding add_entry domain_of
  add_entry-domains rules part = ground (arith, append-nil rules.domains)

  add_entries-domains :
      (parts : List Text) (rules : NoProxy api.IpAddr api.IpNet)
      → (add_entries api rules parts).domains ≡ rules.domains ++ flat_map domain_of parts
  add_entries-domains [] rules = sym (append-nil rules.domains)
  add_entries-domains (part ∷ parts) rules =
      add_entries-domains parts (add_entry api rules part)
      ∙ ap (λ ds. ds ++ flat_map domain_of parts) (add_entry-domains rules part)
      ∙ append_assoc rules.domains (domain_of part) (flat_map domain_of parts)

  Elem-of_domain_of : (d part : Text) → Elem d (domain_of part) → (d ≡ part) × IsDomain part
  unfolding domain_of
  Elem-of_domain_of d part m = elim (Option-cases (api.parse_net part)) [
    | inr (net, e) ↦ absurd (rw (e, domain_of) at m)
    | inl no_net ↦ elim (Option-cases (api.parse_addr part)) [
      | inr (addr, e) ↦ absurd (rw (no_net, e, domain_of) at m)
      | inl no_addr ↦ elim (Bool-cases (is_nil (trim part))) [
        | inl blank ↦ absurd (rw (no_net, no_addr, blank, domain_of) at m)
        | inr written ↦
            let k : (d ≡ part) ⊎ ⊥ = rw (no_net, no_addr, written, domain_of) at m in
            elim k [
              | inl e ↦ (e, record { no_net = no_net; no_addr = no_addr; written = written })
              | inr z ↦ absurd z
            ]
      ]
    ]
  ]

  Elem-domain_of : (d : Text) → IsDomain d → Elem d (domain_of d)
  unfolding domain_of
  Elem-domain_of d v = rw (v.no_net, v.no_addr, v.written, domain_of) (inl refl)

  domains_contain_iff :
      (list name : Text)
      → (domains_contain (from_string api list).domains name ≡ true)
        ↔ ((d : Text) × Elem d (map trim (split b',' list)) × IsDomain d × Covers d name)
  unfolding from_string
  domains_contain_iff list name =
      let parts = map trim (split b',' list) in
      let all : (add_entries api (no_proxy_empty api) parts).domains ≡ flat_map domain_of parts =
        add_entries-domains parts (no_proxy_empty api) in
      rw all (
        λ h.
            let (d, m, t) = Elem-of_any (domain_entry name) (flat_map domain_of parts) h in
            let (part, at, own) = Elem-of_flat_map domain_of d parts m in
            let (same, v) = Elem-of_domain_of d part own in
            (
              part,
              at,
              v,
              (domain_entry_iff part name).0 (subst (λ z. domain_entry name z ≡ true) same t),
            ),
        λ (d, at, v, c).
            any_of_Elem (domain_entry name) d (flat_map domain_of parts)
              (Elem-flat_map domain_of d d parts at (Elem-domain_of d v))
              ((domain_entry_iff d name).1 c),
      )

  no_proxy_contains-domain :
      (rules : NoProxy api.IpAddr api.IpNet) (name : Text)
      → api.parse_addr (strip_ipv6_brackets name) ≡ none
      → no_proxy_contains api rules name ≡ domains_contain rules.domains (strip_ipv6_brackets name)
  unfolding no_proxy_contains
  no_proxy_contains-domain rules name e = rw (e, no_proxy_contains) refl

  -- The proxy that the builder gives for the scheme of the URI.
  abbrev pub configured : Builder → Uri → Option (Intercept api.HeaderMap)
  configured b dst =
      if is_http dst
      then or_else (parse_env_uri api b.http) (parse_env_uri api b.all)
      else if is_https dst
      then or_else (parse_env_uri api b.https) (parse_env_uri api b.all)
      else none

  intercept-build :
      (b : Builder) (extra : Extra api.HeaderMap) (dst : Uri) (name : Text)
      → b.is_cgi ≡ false
      → b.unix ≡ none
      → host dst ≡ some name
      → intercept api (build api b extra) dst ≡ (
          if no_proxy_contains api (from_string api b.no_proxy) name
          then none
          else Option.map proxy (with_extra api extra (configured b dst)))
  unfolding intercept build
  intercept-build b extra dst name no_cgi no_unix named = ground (arith, no_cgi, no_unix, named)

  -- A request to a named host, for whose scheme there is a proxy, bypasses it exactly when an entry of
  -- the no-proxy list is a domain that covers the host; else it goes through the proxy of its scheme, or
  -- that for all schemes.
  pub intercept-build_iff :
      (b : Builder) (extra : Extra api.HeaderMap) (dst : Uri) (name : Text)
      (i : Intercept api.HeaderMap)
      → b.is_cgi ≡ false
      → b.unix ≡ none
      → host dst ≡ some name
      → api.parse_addr (strip_ipv6_brackets name) ≡ none
      → configured b dst ≡ some i
      → ((intercept api (build api b extra) dst ≡ none) ↔ (
          (d : Text) × Elem d (map trim (split b',' b.no_proxy))
          × IsDomain d
          × Covers d (strip_ipv6_brackets name)))
        × ((intercept api (build api b extra) dst ≡ none)
            ⊎ (intercept api (build api b extra) dst ≡ some (proxy (record i { extra = extra }))))
  intercept-build_iff b extra dst name i no_cgi no_unix named no_addr set =
      let decided : intercept api (build api b extra) dst ≡ (
          if domains_contain (from_string api b.no_proxy).domains (strip_ipv6_brackets name)
          then none
          else some (proxy (record i { extra = extra }))) =
        intercept-build b extra dst name no_cgi no_unix named
        ∙ rw (no_proxy_contains-domain (from_string api b.no_proxy) name no_addr, set) refl in
      let covered = domains_contain_iff b.no_proxy (strip_ipv6_brackets name) in
      elim (Bool-cases
        (domains_contain (from_string api b.no_proxy).domains (strip_ipv6_brackets name))) [
          | inl hit ↦
              let none_at : intercept api (build api b extra) dst ≡ none = decided ∙ rw hit refl in
              ((λ e. covered.0 hit, λ c. none_at), inl none_at)
          | inr miss ↦
              let some_at : intercept api (build api b extra) dst
                  ≡ some (proxy (record i { extra = extra })) =
                decided ∙ rw miss refl in
              ((λ e. cc (e, some_at), λ c. cc (covered.1 c, miss)), inr some_at)
        ]
