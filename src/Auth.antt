-- ===== src/Auth.antt =====
-- internal/api/middleware/auth.go: whether a request may pass. The token of this pod, which
-- internal/k8sclient/incluster.go reads from a file, and the TokenReview API are parameters.
pub mod Decision
use fusion_index.Prelude.{
  ℕ, Bool, true, false, Option, none, some, List, [], ◌∷◌, ◌++◌, Text, codes, exists, text_eq,
  has_prefix, trim_prefix, split, ◌&&◌, ◌==◌, if◌then◌else◌,
}
use fusion_index.Config.{Config}

abbrev pub bearer : Text
bearer = codes "Bearer "

-- extractBearer, of the Authorization header
unfoldable pub extract_bearer : Text → Text
extract_bearer h = if has_prefix bearer h then trim_prefix bearer h else []

unfoldable pub account_of : Text → List Text → Text
account_of username (a ∷ b ∷ namespace ∷ name ∷ []) =
    if text_eq a (codes "system") && text_eq b (codes "serviceaccount")
    then namespace ++ (b'/' ∷ name)
    else username
account_of username _ = username

-- saFromUsername
unfoldable pub sa_from_username : Text → Text
unfolding account_of split
sa_from_username username = account_of username (split b':' username)

pub record TokenReviewSpec : Type 0 where
  pub token : Text
  pub audiences : List Text

pub record TokenReviewStatus : Type 0 where
  pub authenticated : Bool
  pub username : Text

-- A response of the API: its status code and its body, where that is decoded.
pub record TokenReviewResponse : Type 0 where
  pub status_code : ℕ
  pub status : Option TokenReviewStatus

-- The pod's own token, and the call with it; `none` where the file or the API is not reached.
pub record Cluster : Type 0 where
  pub own_token : Option Text
  pub call : Text → TokenReviewSpec → Option TokenReviewResponse

unfoldable pub audiences_of : Text → List Text
audiences_of [] = []
audiences_of (c ∷ s) = (c ∷ s) ∷ []

unfoldable pub username_of : Option TokenReviewResponse → Option Text
username_of none = none
username_of (some r) =
    if r.status_code == 201
    then elim r.status [ none ↦ none | some s ↦ if s.authenticated then some s.username else none ]
    else none

-- reviewToken: `none` for every error.
unfoldable pub review_token : Cluster → Text → Text → Option Text
unfolding audiences_of username_of
review_token cluster caller_token audience = elim cluster.own_token [
  | none ↦ none
  | some own ↦
      username_of
        (cluster.call own (record { token = caller_token; audiences = audiences_of audience }))
]

-- A request is answered with a status, or goes on under a name if it has been reviewed.
pub data Verdict : Type 0 where
  aborted : ℕ → Verdict
  passed : Option Text → Verdict

unfoldable pub permit : List Text → Text → Verdict
unfolding sa_from_username
permit [] username = passed (some username)
permit (sa ∷ sas) username =
    if exists (λ a. text_eq a (sa_from_username username)) (sa ∷ sas)
    then passed (some username)
    else aborted 403

unfoldable pub reviewed : List Text → Option Text → Verdict
unfolding permit
reviewed allowed none = aborted 401
reviewed allowed (some username) = permit allowed username

unfoldable pub check_token : Config → Cluster → Text → Verdict
unfolding reviewed review_token
check_token cfg cluster [] = aborted 401
check_token cfg cluster (c ∷ token) =
    reviewed cfg.auth_allowed_sas (review_token cluster (c ∷ token) cfg.auth_audience)

-- NewAuthMiddleware, once its client is built
unfoldable pub authenticate : Config → Cluster → Text → Verdict
unfolding check_token extract_bearer
authenticate cfg cluster header =
    if cfg.auth_enabled then check_token cfg cluster (extract_bearer header) else passed none
