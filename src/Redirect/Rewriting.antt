-- ===== src/Redirect/Rewriting.antt =====
-- src/client/layer/redirect/future.rs, `poll`: the method, the body and the payload headers of the
-- request that follows a redirect.
use tlsurl.Base.{ℕ, ◌≡◌, Bool, ◌&&◌, ◌||◌, some, Text, [], nat_beq, Elem}
use tlsurl.Body
use tlsurl.Body.{Body}
use tlsurl.Http.{HttpApi, Request, Method}
use tlsurl.Redirect.Decisions.{payload_headers}
use tlsurl.Redirect.Future.{BodyRepr, take, is_post, see_other_method}

-- Whether a redirect turns the request into one without a body.
abbrev pub drops_body : ℕ → Method → Bool
drops_body status method =
    nat_beq status 303 || ((nat_beq status 301 || nat_beq status 302) && is_post method)

module _ (api : HttpApi) where
  open api use {HeaderMap, get_all}

  -- `after` is the request that follows `before` with `body`.
  abbrev pub WithoutBody : Request HeaderMap → Request HeaderMap → Body → Type 0
  WithoutBody before after body =
      (after.method ≡ see_other_method before.method)
      × (body ≡ Body.empty)
      × ((n : Text) → Elem n payload_headers → get_all after.headers n ≡ [])

  abbrev pub WithBody : BodyRepr → Request HeaderMap → Request HeaderMap → Body → Type 0
  WithBody kept_body before after body =
      (after.method ≡ before.method)
      × ((take kept_body).1 ≡ some body)
      × ((n : Text) → Elem n payload_headers → get_all after.headers n ≡ get_all before.headers n)
