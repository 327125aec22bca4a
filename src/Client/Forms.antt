-- ===== src/Client/Forms.antt =====
-- src/client/layer/client.rs: the forms of a request's target, and the `Host` field.
use tlsurl.Base.{
  ℕ, Bool, true, false, ◌&&◌, ◌||◌, not, Option, none, some, Text, [], ◌∷◌, ◌++◌, codes, ◌==◌,
  text_eq, nat_beq, if◌then◌else◌, is_some,
}
use tlsurl.Uri.{Uri, Authority, Scheme, http, https, other, host, port}

-- `Uri::default()`.
abbrev pub root : Uri
root = record { scheme = none; authority = none; path = codes "/"; query = none }

-- `Uri::path_and_query`: an authority alone has none.
abbrev pub path_and_query : Uri → Option Text
path_and_query uri =
    if is_some uri.authority && not (is_some uri.scheme)
    then none
    else some (uri.path ++ (elim uri.query [ none ↦ [] | some q ↦ b'?' ∷ q ]))

unfoldable pub origin_form : Uri → Uri
origin_form uri = elim (path_and_query uri) [
  | none ↦ root
  | some path ↦
      if path == codes "/"
      then root
      else record { scheme = none; authority = none; path = uri.path; query = uri.query }
]

abbrev pub absolute_form : Uri → Uri
absolute_form uri = uri

-- `none` is the panic on a URI without an authority.
unfoldable pub authority_form : Uri → Option Uri
authority_form uri = elim uri.authority [
  | none ↦ none
  | some auth ↦ some (record { scheme = none; authority = some auth; path = []; query = none })
]

-- `set_scheme`
abbrev pub set_scheme : Uri → Scheme → Uri
set_scheme uri scheme = record uri { scheme = some scheme; path = codes "/"; query = none }

abbrev build_base_uri : Scheme → Authority → Uri
build_base_uri scheme authority = record {
  scheme = some scheme;
  authority = some authority;
  path = codes "/";
  query = none;
}

-- The URI to connect to, and that of the request; `none` is `UserAbsoluteUriRequired`.
unfoldable pub normalize_uri : Uri → Bool → Option (Uri × Uri)
normalize_uri uri is_http_connect = elim uri.authority [
  | none ↦ none
  | some auth ↦ elim uri.scheme [
    | some scheme ↦ some (build_base_uri scheme auth, uri)
    | none ↦
        if is_http_connect
        then (let scheme : Scheme = elim auth.port [
          | none ↦ http
          | some p ↦ if nat_beq p 443 then https else http
        ] in
            some (build_base_uri scheme auth, set_scheme uri scheme))
        else none
  ]
]

abbrev pub is_schema_secure : Uri → Bool
is_schema_secure uri = elim uri.scheme [
  | none ↦ false
  | some s ↦ elim s [ http ↦ false | https ↦ true | other t ↦ t == codes "wss" ]
]

-- `port_text` writes a port. `none` is the panic on a URI without a host.
unfoldable pub generate_host_header : (ℕ → Text) → Uri → Option Text
generate_host_header port_text uri = elim (host uri) [
  | none ↦ none
  | some hostname ↦ elim (port uri) [
    | none ↦ some hostname
    | some p ↦
        if (nat_beq p 443 && is_schema_secure uri) || (nat_beq p 80 && not (is_schema_secure uri))
        then some hostname
        else some (hostname ++ b':' ∷ port_text p)
  ]
]
