-- ===== src/Redirect/Origin.antt =====
-- src/redirect.rs: `same_origin` and `remove_sensitive_headers`.
pub mod Same
use tlsurl.Base.{
  Bool, true, false, not, ◌&&◌, Option, none, some, Text, List, [], ◌∷◌, ◌==◌, if◌then◌else◌,
  nat_beq, eq_ignore_ascii_case, option_eq,
}
use tlsurl.Uri.{Uri, host, port_or_default, scheme_eq}
use tlsurl.Http.{
  HttpApi, Request, authorization, cookie, cookie2, proxy_authorization, www_authenticate,
}

abbrev pub same_host : Option Text → Option Text → Bool
same_host (some left) (some right) = eq_ignore_ascii_case left right
same_host none none = true
same_host _ _ = false

unfoldable pub same_origin : Uri → Uri → Bool
same_origin left right =
    same_host (host left) (host right)
    && (left.scheme == right.scheme && nat_beq (port_or_default left) (port_or_default right))

-- `<[Uri]>::last`
unfoldable pub last : List Uri → Option Uri
last [] = none
last (u ∷ []) = some u
last (u ∷ v ∷ us) = last (v ∷ us)

module _ (api : HttpApi) where
  open api use {HeaderMap, remove}

  abbrev pub remove_credentials : HeaderMap → HeaderMap
  remove_credentials h =
      remove (remove (remove (remove (remove h authorization) cookie) cookie2) proxy_authorization)
        www_authenticate

  unfoldable pub remove_sensitive_headers : Request HeaderMap → List Uri → Request HeaderMap
  remove_sensitive_headers req previous = elim (last previous) [
    | none ↦ req
    | some p ↦
        if not (same_origin req.uri p)
        then record req { headers = remove_credentials req.headers }
        else req
  ]
