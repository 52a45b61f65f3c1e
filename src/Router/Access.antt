-- ===== src/Router/Access.antt =====
-- internal/api/router.go: which requests reach which endpoints.
use fusion_index.Prelude.{
  ◌≡◌, ◌⊎◌, inl, inr, refl, sym, ap, ◌∙◌, Bool, true, false, not, ◌&&◌, ◌||◌, Option, none, some,
  List, [], ◌∷◌, Text, arith, All, exists, Bool-cases,
}
use fusion_index.Config.{Config}
use fusion_index.Auth.{Cluster, Verdict, passed, aborted, authenticate}
use fusion_index.Auth.Decision.{Admitted, authenticate-Admitted}
use fusion_index.Router.{
  Verb, get, post, put, delete, options, other, Endpoint, open_api_spec, swagger, health_live,
  health_ready, metrics_get, Route, routes, HttpRequest, reached, ended, guarded, dispatch, serve,
}

-- The API's description, the probes and the metrics.
abbrev pub is_public : Endpoint → Bool
is_public open_api_spec = true
is_public swagger = true
is_public health_live = true
is_public health_ready = true
is_public metrics_get = true
is_public _ = false

abbrev is_get : Verb → Bool
is_get get = true
is_get _ = false

-- Guarded by the authentication, or a read of a public endpoint.
abbrev is_guarded : Route → Bool
is_guarded r = r.secured || (is_get r.verb && is_public r.endpoint)

All-of_exists :
    (p : Route → Bool) (rs : List Route)
    → exists (λ r. not (p r)) rs ≡ false
    → All (λ r. p r ≡ true) rs
unfolding exists
All-of_exists p [] h = tt
All-of_exists p (r ∷ rs) h = (ground (arith, h), All-of_exists p rs (ground (arith, h)))

routes-guarded : All (λ r. is_guarded r ≡ true) routes
unfolding routes exists
routes-guarded = All-of_exists is_guarded routes refl

-- A match is one of the routes, and has the method of the request.
abbrev pub Matches : (List Route → Verb → Text → Option Route) → Type 1
Matches match =
    (rs : List Route) (v : Verb) (path : Text) (r : Route)
    → match rs v path ≡ some r
    → ((P : Route → Type 0) → All P rs → P r) × (r.verb ≡ v)

is_get_lem : (v : Verb) → is_get v ≡ true → v ≡ get
is_get_lem get h = refl
is_get_lem post h = cc h
is_get_lem put h = cc h
is_get_lem delete h = cc h
is_get_lem options h = cc h
is_get_lem other h = cc h

reached_endpoint : {e f : Endpoint} {u v : Option Text} → reached e u ≡ reached f v → e ≡ f
reached_endpoint h = cc h

-- The request is admitted, or reads a public endpoint.
abbrev pub IsAllowed : Config → Cluster → Verb → Text → Endpoint → Option Text → Type 0
IsAllowed cfg cluster v header e user =
    ((name : Text) × (user ≡ some name) × Admitted cfg cluster header name)
    ⊎ ((v ≡ get) × (is_public e ≡ true))

module _ (match : List Route → Verb → Text → Option Route) (matches : Matches match) (cfg : Config)
    (cluster : Cluster) (on : cfg.auth_enabled ≡ true) where
  guarded-IsAllowed :
      (v : Verb) (header : Text) (at e : Endpoint) (user : Option Text) (verdict : Verdict)
      → authenticate cfg cluster header ≡ verdict
      → guarded at verdict ≡ reached e user
      → IsAllowed cfg cluster v header e user
  unfolding guarded
  guarded-IsAllowed v header at e user (passed name) decided h =
      let same : name ≡ user = cc h in
      inl ((authenticate-Admitted cfg cluster header user on).0 (decided ∙ ap passed same))
  guarded-IsAllowed v header at e user (aborted status) decided h = cc h

  dispatch-IsAllowed :
      (v : Verb) (path header : Text) (e : Endpoint) (user : Option Text) (o : Option Route)
      → match routes v path ≡ o
      → dispatch match cfg cluster o header ≡ reached e user
      → IsAllowed cfg cluster v header e user
  unfolding dispatch
  dispatch-IsAllowed v path header e user none m h = cc h
  dispatch-IsAllowed v path header e user (some r) m h =
      let (among, verb) = matches routes v path r m in
      elim (Bool-cases r.secured) [
        | inl secured ↦ guarded-IsAllowed v header r.endpoint e user _ refl (rw secured at h)
        | inr plain ↦
            let point : r.endpoint ≡ e = reached_endpoint (rw plain at h) in
            let public : (is_get r.verb && is_public r.endpoint) ≡ true =
              rw plain at (among (λ s. is_guarded s ≡ true) routes-guarded) in
            inr (
              sym verb ∙ is_get_lem r.verb (ground (arith, public)),
              ap is_public (sym point) ∙ ground (arith, public),
            )
      ]

  serve_at :
      (r : HttpRequest) (e : Endpoint) (user : Option Text) (v : Verb)
      → r.verb ≡ v
      → serve match cfg cluster r ≡ reached e user
      → IsAllowed cfg cluster v r.authorization e user
  unfolding serve
  serve_at r e user get same h =
      dispatch-IsAllowed get r.path r.authorization e user _ refl (rw same at h)
  serve_at r e user post same h =
      dispatch-IsAllowed post r.path r.authorization e user _ refl (rw same at h)
  serve_at r e user put same h =
      dispatch-IsAllowed put r.path r.authorization e user _ refl (rw same at h)
  serve_at r e user delete same h =
      dispatch-IsAllowed delete r.path r.authorization e user _ refl (rw same at h)
  serve_at r e user other same h =
      dispatch-IsAllowed other r.path r.authorization e user _ refl (rw same at h)
  serve_at r e user options same h =
      let answered : ended 204 ≡ reached e user = rw same at h in cc answered

  -- With authentication on, a request that reaches an endpoint carries the token of a permitted user of the
  -- cluster and is served under that user's name, or it reads the API's description, a probe or the metrics;
  -- where the router matches a path to a registered route of the request's method.
  pub serve-IsAllowed :
      (r : HttpRequest) (e : Endpoint) (user : Option Text)
      → serve match cfg cluster r ≡ reached e user
      → IsAllowed cfg cluster r.verb r.authorization e user
  serve-IsAllowed r e user h = serve_at r e user r.verb refl h
