-- ===== src/Auth/Decision.antt =====
-- Which requests internal/api/middleware/auth.go lets pass.
use fusion_index.Prelude.{
  ◌==◌, ==_iff, ℕ, ◌≡◌, ◌≢◌, ◌↔◌, ◌⊎◌, inl, inr, refl, sym, ap, ◌∙◌, Bool, true, false, Option,
  none, some, List, [], ◌∷◌, ◌++◌, Text, codes, arith, exists, text_eq, has_prefix,
  has_prefix_append, trim_prefix, join_from, Lacks, Lacks-of, split-join_from, Bool-cases,
  if◌then◌else◌,
}
use fusion_index.Config.{Config}
use fusion_index.Auth.{
  bearer, extract_bearer, account_of, sa_from_username, Cluster, review_token, audiences_of,
  username_of, TokenReviewStatus, TokenReviewResponse, aborted, passed, permit, reviewed,
  check_token, authenticate,
}

-- An empty list of accounts permits each.
abbrev pub Permitted : List Text → Text → Type 0
Permitted allowed username =
    (allowed ≡ []) ⊎ (exists (λ a. text_eq a (sa_from_username username)) allowed ≡ true)

-- The audience that a token is to be for, where one is configured.
abbrev pub IsFor : Text → List Text → Type 0
IsFor audience audiences =
    ((audience ≡ []) × (audiences ≡ [])) ⊎ ((audience ≢ []) × (audiences ≡ audience ∷ []))

-- The TokenReview API, called with the pod's own token, answers with status 201 that the token is authenticated
-- and whose it is.
pub record Vouched (cluster : Cluster) (token audience username : Text) : Type 0 where
  pub own : Text
  pub audiences : List Text
  pub response : TokenReviewResponse
  pub status : TokenReviewStatus
  pub reads : cluster.own_token ≡ some own
  pub for_audience : IsFor audience audiences
  pub answered : cluster.call own (record { token = token; audiences = audiences }) ≡ some response
  pub created : response.status_code ≡ 201
  pub given : response.status ≡ some status
  pub authenticated : status.authenticated ≡ true
  pub named : status.username ≡ username

audiences_of-IsFor : (audience : Text) → IsFor audience (audiences_of audience)
unfolding audiences_of
audiences_of-IsFor [] = inl (refl, refl)
audiences_of-IsFor (c ∷ s) = inr ((λ e. cc e), refl)

IsFor-audiences_of :
    (audience : Text) (audiences : List Text)
    → IsFor audience audiences
    → audiences_of audience ≡ audiences
unfolding audiences_of
IsFor-audiences_of [] audiences (inl (e, same)) = sym same
IsFor-audiences_of [] audiences (inr (filled, same)) = absurd (filled refl)
IsFor-audiences_of (c ∷ s) audiences (inl (e, same)) = cc e
IsFor-audiences_of (c ∷ s) audiences (inr (filled, same)) = sym same

-- What an answer says that gives a name.
abbrev Names : Option TokenReviewResponse → Text → Type 0
Names o username =
    (r : TokenReviewResponse) × (t : TokenReviewStatus) × (o ≡ some r)
    × (r.status_code ≡ 201)
    × (r.status ≡ some t)
    × (t.authenticated ≡ true)
    × (t.username ≡ username)

username_of-Names :
    (o : Option TokenReviewResponse) (username : Text)
    → username_of o ≡ some username
    → Names o username
unfolding username_of
username_of-Names none username h = cc h
username_of-Names (some r) username h = elim (Bool-cases (r.status_code == 201)) [
  | inl fine ↦ checked fine r.status refl (rw fine at h)
  | inr other ↦ cc (rw other at h)
]
  where
    checked :
        (r.status_code == 201) ≡ true
        → (s : Option TokenReviewStatus) → r.status ≡ s
        → (elim s [ none ↦ none | some t ↦ if t.authenticated then some t.username else none ])
          ≡ some username
        → Names (some r) username
    checked fine none e k = cc k
    checked fine (some t) e k = elim (Bool-cases t.authenticated) [
      | inl passes ↦
          let same : some t.username ≡ some username = rw passes at k in
          (r, t, refl, (==_iff r.status_code 201).0 fine, e, passes, cc same)
      | inr fails ↦ cc (rw fails at k)
    ]

-- An answer that gives a name is read as that name.
Names-username_of :
    (o : Option TokenReviewResponse) (r : TokenReviewResponse) (t : TokenReviewStatus)
    → o ≡ some r
    → r.status_code ≡ 201
    → r.status ≡ some t
    → t.authenticated ≡ true
    → username_of o ≡ some t.username
unfolding username_of
Names-username_of o r t answered created given authenticated =
    rw (answered, created, given, authenticated) refl

review_token-Vouched :
    (cluster : Cluster) (token audience username : Text)
    → (review_token cluster token audience ≡ some username)
      ↔ Vouched cluster token audience username
unfolding review_token
review_token-Vouched cluster token audience username = (to cluster.own_token refl, from)
  where
    to :
        (o : Option Text)
        → cluster.own_token ≡ o
        → (elim o [
          | none ↦ none
          | some own ↦
              username_of
                (cluster.call own (record { token = token; audiences = audiences_of audience }))
        ])
          ≡ some username
        → Vouched cluster token audience username
    to none e h = cc h
    to (some own) e h =
        let (r, t, answered, created, given, authenticated, named) =
          username_of-Names _ username h in
        record {
          own = own;
          audiences = audiences_of audience;
          response = r;
          status = t;
          reads = e;
          for_audience = audiences_of-IsFor audience;
          answered = answered;
          created = created;
          given = given;
          authenticated = authenticated;
          named = named;
        }

    from :
        Vouched cluster token audience username
        → review_token cluster token audience ≡ some username
    from v =
        rw (v.reads, IsFor-audiences_of audience v.audiences v.for_audience)
          (Names-username_of _ v.response v.status v.answered v.created v.given v.authenticated
            ∙ ap some v.named)

-- The header has a token, which the cluster knows to be that of a permitted user.
pub record Admitted (cfg : Config) (cluster : Cluster) (header username : Text) : Type 0 where
  pub token : Text
  pub given : header ≡ bearer ++ token
  pub filled : token ≢ []
  pub valid : Vouched cluster token cfg.auth_audience username
  pub permitted : Permitted cfg.auth_allowed_sas username

has_prefix-trim : (p s : Text) → has_prefix p s ≡ true → s ≡ p ++ trim_prefix p s
unfolding has_prefix trim_prefix
has_prefix-trim [] s h = refl
has_prefix-trim (c ∷ p) [] h = cc
has_prefix-trim (c ∷ p) (d ∷ s) h = ground (arith, has_prefix-trim p s)

trim_prefix-append : (p s : Text) → trim_prefix p (p ++ s) ≡ s
unfolding trim_prefix
trim_prefix-append [] s = refl
trim_prefix-append (c ∷ p) s = trim_prefix-append p s

aborted-ne-passed : (n : ℕ) (o : Option Text) → aborted n ≡ passed o → ⊥
aborted-ne-passed n o e = cc

gate_iff :
    (b : Bool) (u : Text) (o : Option Text)
    → ((if b then passed (some u) else aborted 403) ≡ passed o) ↔ ((o ≡ some u) × (b ≡ true))
gate_iff true u o = (λ e. (cc e, refl), λ (e, _). ap passed (sym e))
gate_iff false u o = (λ e. absurd (aborted-ne-passed 403 o e), λ (_, e). cc e)

cons-ne-nil : (sa : Text) (sas : List Text) → sa ∷ sas ≡ [] → ⊥
cons-ne-nil sa sas e = cc

permit_iff :
    (allowed : List Text) (u : Text) (o : Option Text)
    → (permit allowed u ≡ passed o) ↔ ((o ≡ some u) × Permitted allowed u)
unfolding permit
permit_iff [] u o = (λ e. (cc e, inl refl), λ (e, _). ap passed (sym e))
permit_iff (sa ∷ sas) u o =
    let gate = gate_iff (exists (λ a. text_eq a (sa_from_username u)) (sa ∷ sas)) u o in
    (
      λ e. let (same, here) = gate.0 e in (same, inr here),
      λ (same, p). elim p [
        | inl empty ↦ absurd (cons-ne-nil sa sas empty)
        | inr here ↦ gate.1 (same, here)
      ],
    )

cons-filled : (c : ℕ) (s : Text) → c ∷ s ≡ [] → ⊥
cons-filled c s e = cc

extract_bearer-given : (token : Text) → extract_bearer (bearer ++ token) ≡ token
unfolding extract_bearer
extract_bearer-given token = rw (has_prefix_append bearer token) (trim_prefix-append bearer token)

-- The token is the rest of the header, or empty.
extract_bearer-cases :
    (header : Text) → (header ≡ bearer ++ extract_bearer header) ⊎ (extract_bearer header ≡ [])
unfolding extract_bearer
extract_bearer-cases header = elim (Bool-cases (has_prefix bearer header)) [
  | inl given ↦ inl (rw given (has_prefix-trim bearer header given))
  | inr missing ↦ inr (rw missing refl)
]

enabled :
    (cfg : Config) (cluster : Cluster) (header : Text)
    → cfg.auth_enabled ≡ true
    → authenticate cfg cluster header ≡ check_token cfg cluster (extract_bearer header)
unfolding authenticate
enabled cfg cluster header on =
    ap (λ b. if b then check_token cfg cluster (extract_bearer header) else passed none) on

module _ (cfg : Config) (cluster : Cluster) (o : Option Text) where
  -- What is known of a token that passes.
  abbrev Known : Text → Type 0
  Known token =
      (u : Text) × (o ≡ some u)
      × (token ≢ [])
      × (review_token cluster token cfg.auth_audience ≡ some u)
      × Permitted cfg.auth_allowed_sas u

  reviewed_iff :
      (r : Option Text)
      → (reviewed cfg.auth_allowed_sas r ≡ passed o)
        ↔ ((u : Text) × (r ≡ some u) × (o ≡ some u) × Permitted cfg.auth_allowed_sas u)
  unfolding reviewed
  reviewed_iff none = (λ e. absurd (aborted-ne-passed 401 o e), λ (u, e, _, _). cc e)
  reviewed_iff (some v) = (
    λ e. let (same, p) = (permit_iff cfg.auth_allowed_sas v o).0 e in (v, refl, same, p),
    λ (u, e, same, p).
        let back = (permit_iff cfg.auth_allowed_sas u o).1 (same, p) in
        let w : v ≡ u = cc e in ap (permit cfg.auth_allowed_sas) w ∙ back,
  )

  check_token_iff : (token : Text) → (check_token cfg cluster token ≡ passed o) ↔ Known token
  unfolding check_token
  check_token_iff [] =
      (λ e. absurd (aborted-ne-passed 401 o e), λ (u, same, filled, _, _). absurd (filled refl))
  check_token_iff (c ∷ token) =
      let (to, from) = reviewed_iff (review_token cluster (c ∷ token) cfg.auth_audience) in
      (
        λ e. let (u, valid, same, p) = to e in (u, same, cons-filled c token, valid, p),
        λ (u, same, _, valid, p). from (u, valid, same, p),
      )

-- With authentication on, a request passes exactly if its header has a bearer token of which the TokenReview
-- API, called with the pod's own token and the configured audience, answers with status 201 that it is
-- authenticated as a permitted user, and it passes under that user's name.
pub authenticate-Admitted :
    (cfg : Config) (cluster : Cluster) (header : Text) (o : Option Text)
    → cfg.auth_enabled ≡ true
    → (authenticate cfg cluster header ≡ passed o)
      ↔ ((u : Text) × (o ≡ some u) × Admitted cfg cluster header u)
authenticate-Admitted cfg cluster header o on = (
  λ e.
      let (u, same, filled, valid, permitted) =
        (check_token_iff cfg cluster o (extract_bearer header)).0 (sym checks ∙ e) in
      (
        u,
        same,
        record {
          token = extract_bearer header;
          given = elim (extract_bearer-cases header) [
            | inl given ↦ given
            | inr missing ↦ absurd (filled missing)
          ];
          filled = filled;
          valid = (review_token-Vouched cluster _ cfg.auth_audience u).0 valid;
          permitted = permitted;
        },
      ),
  λ (u, same, a).
      let token = ap extract_bearer a.given ∙ extract_bearer-given a.token in
      checks
      ∙ ap (check_token cfg cluster) token
      ∙ (check_token_iff cfg cluster o a.token).1 (
        u,
        same,
        a.filled,
        (review_token-Vouched cluster a.token cfg.auth_audience u).1 a.valid,
        a.permitted,
      ),
)
  where
    checks : authenticate cfg cluster header ≡ check_token cfg cluster (extract_bearer header)
    checks = enabled cfg cluster header on

-- The name of a service account whose parts have no colon is its namespace and its name.
sa_from_username-account :
    (namespace name : Text)
    → Lacks b':' namespace
    → Lacks b':' name
    → sa_from_username
        (join_from b':' (codes "system") (codes "serviceaccount" ∷ namespace ∷ name ∷ []))
      ≡ namespace ++ (b'/' ∷ name)
unfolding sa_from_username account_of text_eq exists
sa_from_username-account namespace name h k =
    ap
      (account_of
        (join_from b':' (codes "system") (codes "serviceaccount" ∷ namespace ∷ name ∷ [])))
      (split-join_from b':' (codes "system") (codes "serviceaccount" ∷ namespace ∷ name ∷ []) system
        (serviceaccount, (h, (k, tt))))
    ∙ taken
  where
    system : Lacks b':' (codes "system")
    system = Lacks-of b':' (codes "system") refl

    serviceaccount : Lacks b':' (codes "serviceaccount")
    serviceaccount = Lacks-of b':' (codes "serviceaccount") refl

    taken :
        account_of
          (join_from b':' (codes "system") (codes "serviceaccount" ∷ namespace ∷ name ∷ []))
          (codes "system" ∷ codes "serviceaccount" ∷ namespace ∷ name ∷ [])
        ≡ namespace ++ (b'/' ∷ name)
    taken = refl
