-- ===== src/Routes/Serving.antt =====
-- httpadapter/http_server.go: what an HTTP request is answered with (ServeHTTP).
use iip.Prelude.{ℕ, Bool, List, [], ◌∷◌, ◌++◌, Option, none, some, ◌==◌, if◌then◌else◌}
use iip.Consts.{codes, arg_http_header}
use iip.Context.{new_default_request}
use iip.Routes.{RegExp, HttpAdapterServer, find_backend}

-- The part of a text before the first colon: strings.Split(host, ":")[0].
unfoldable pub before_colon : List ℕ → List ℕ
before_colon [] = []
before_colon (b ∷ bs) = if b == 58 then [] else b ∷ before_colon bs

-- What of an HTTP request the code uses; none is a body that cannot be read, or a header that
-- HttpHeaderToIIPArg refuses.
pub record HttpRequest : Type 0 where
  pub host : List ℕ
  pub request_uri : List ℕ
  pub has_query : Bool
  pub body : Option (List ℕ)
  pub header_arg : Option (List ℕ)

pub data HttpResponse : Type 0 where
  ok : List ℕ → HttpResponse
  not_implemented : HttpResponse
  bad_request : HttpResponse
  internal_server_error : HttpResponse

-- The uri that the request is sent on with.
unfoldable pub backend_uri : HttpRequest → List ℕ
backend_uri req = elim req.header_arg [
  | none ↦ req.request_uri
  | some arg ↦
      req.request_uri
      ++ ((if req.has_query then codes "&" else codes "?")
          ++ (arg_http_header ++ (codes "=" ++ arg)))
]

-- A backend's DoRequest: none is an error.
unfoldable pub serve_http :
    {Backend : Type 0}
    → RegExp
    → (Backend → List ℕ → List ℕ → Option (List ℕ))
    → HttpAdapterServer Backend
    → HttpRequest
    → HttpResponse
unfolding find_backend before_colon backend_uri new_default_request
serve_http r do_request m req = elim (find_backend r m (before_colon req.host) req.request_uri) [
  | none ↦ not_implemented
  | some backend ↦ elim req.body [
    | none ↦ bad_request
    | some bytes ↦ elim (do_request backend (backend_uri req) (new_default_request bytes)) [
      | none ↦ internal_server_error
      | some ret ↦ ok ret
    ]
  ]
]
