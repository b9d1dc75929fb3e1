-- ===== src/Gateway/Granted.antt =====
-- Which requests are granted.
use strix.Base.{
  ◌≡◌, refl, ◌∙◌, ◌↔◌, ◌⊎◌, inl, inr, Bool, true, false, not, Option, none, some, Text, codes,
  text_eq, text_eq_iff, text_eq_sound, Bool-cases, if◌then◌else◌, Result, ok, err, reject_if, ◌>>=◌,
  >>=-eq-ok, ok-injective, ap,
}
use mathlib.Core.Option.{some-injective}
use strix.Effect.{Effect, allow, deny}
use strix.Action.{Action}
use strix.Resource.{Resource}
use strix.Iam.{IamError}
use strix.Gateway.{
  IamProvider, StrixS3Service, S3Error, is_temporary, get_username, validate_session_token,
  check_token, request_resource, request_action, request_principal, bucket_verdict, check_bucket,
  check_policies, decide, answer, check_authorization, internal, access_denied,
}

-- The bucket's policy allows the request.
abbrev AllowedByBucket : IamProvider → Text → Action → Resource → Option Text → Type 0
AllowedByBucket iam username action resource bucket =
    (b : Text) × (bucket ≡ some b)
    × (iam.is_authorized_by_bucket_policy b (request_principal username) action resource
        ≡ ok (some allow))

-- The IAM policies authorize the request, or they do not and the bucket's policy allows it.
abbrev AllowedByPolicies : Option IamProvider → Text → Text → Option Text → Option Text → Type 0
AllowedByPolicies provider username operation bucket key =
    (iam : IamProvider) × (resource : Resource) × (provider ≡ some iam)
    × (request_resource bucket key ≡ ok resource)
    × ((iam.is_authorized username (request_action operation) resource ≡ ok true)
        ⊎ ((iam.is_authorized username (request_action operation) resource ≡ ok false)
            × AllowedByBucket iam username (request_action operation) resource bucket))

-- The session token is valid, the access key belongs to a user, and that user is root or is allowed
-- by policies.
abbrev pub Granted :
    StrixS3Service → Option Text → Option Text → Text → Option Text → Option Text → Type 0
Granted s credentials token operation bucket key =
    (username : Text) × (validate_session_token s credentials token ≡ ok tt)
    × (get_username s credentials ≡ ok username)
    × ((username ≡ codes "root") ⊎ AllowedByPolicies s.iam username operation bucket key)

bucket_step :
    (r : Result IamError (Option Effect))
    → ((internal r >>= bucket_verdict) ≡ ok true) ↔ (r ≡ ok (some allow))
unfolding bucket_verdict
bucket_step (ok (some allow)) = (λ h. refl, λ h. refl)
bucket_step (ok (some deny)) = (λ h. cc, λ h. cc)
bucket_step (ok none) = (λ h. cc, λ h. cc)
bucket_step (err e) = (λ h. cc, λ h. cc)

check_bucket_iff :
    (iam : IamProvider) (u : Text) (a : Action) (r : Resource) (bucket : Option Text)
    → (check_bucket iam u a r bucket ≡ ok true) ↔ AllowedByBucket iam u a r bucket
unfolding check_bucket
check_bucket_iff iam u a r none = (λ h. cc, λ (b, e, _). cc)
check_bucket_iff iam u a r (some b) =
    let (to, back) = bucket_step (iam.is_authorized_by_bucket_policy b (request_principal u) a r) in
    (λ h. (b, refl, to h), λ (c, e, h). back (rw (some-injective _ _ e) h))

-- The IAM policies first, then `rest`.
iam_step :
    (r : Result IamError Bool) (rest : Result S3Error Bool)
    → ((internal r >>= λ authorized. if authorized then ok true else rest) ≡ ok true)
      ↔ ((r ≡ ok true) ⊎ ((r ≡ ok false) × (rest ≡ ok true)))
iam_step (ok true) rest = (λ h. inl refl, λ h. refl)
iam_step (ok false) rest = (λ h. inr (refl, h), elim [ inl e ↦ cc | inr (e, h) ↦ h ])
iam_step (err e) rest = (λ h. cc, elim [ inl e ↦ cc | inr (e, h) ↦ cc ])

policies_to :
    (provider : Option IamProvider) (u op : Text) (bucket key : Option Text)
    → check_policies provider u op bucket key ≡ ok true
    → AllowedByPolicies provider u op bucket key
unfolding check_policies
policies_to none u op bucket key h = cc
policies_to (some iam) u op bucket key h =
    let (r, found, h') = >>=-eq-ok (request_resource bucket key) _ h in
    (
      iam,
      r,
      refl,
      found,
      elim ((iam_step _ _).0 h') [
        | inl e ↦ inl e
        | inr (e, b) ↦ inr (e, (check_bucket_iff iam u (request_action op) r bucket).0 b)
      ],
    )

policies_back_at :
    (iam : IamProvider) (u op : Text) (bucket key : Option Text) (r : Resource)
    → request_resource bucket key ≡ ok r
    → (iam.is_authorized u (request_action op) r ≡ ok true)
      ⊎ ((iam.is_authorized u (request_action op) r ≡ ok false)
          × AllowedByBucket iam u (request_action op) r bucket)
    → check_policies (some iam) u op bucket key ≡ ok true
unfolding check_policies
policies_back_at iam u op bucket key r found h = rw found (
    (iam_step _ _).1 (elim h [
      | inl e ↦ inl e
      | inr (e, b) ↦ inr (e, (check_bucket_iff iam u (request_action op) r bucket).1 b)
    ]))

check_policies_iff :
    (provider : Option IamProvider) (u op : Text) (bucket key : Option Text)
    → (check_policies provider u op bucket key ≡ ok true)
      ↔ AllowedByPolicies provider u op bucket key
check_policies_iff provider u op bucket key = (
  policies_to provider u op bucket key,
  λ (iam, r, e, found, h). rw e (policies_back_at iam u op bucket key r found h),
)

-- Root, or the policies.
user_step :
    (s : StrixS3Service) (u op : Text) (bucket key : Option Text)
    → ((if text_eq u (codes "root") then ok true else check_policies s.iam u op bucket key)
        ≡ ok true)
      ↔ ((u ≡ codes "root") ⊎ AllowedByPolicies s.iam u op bucket key)
user_step s u op bucket key = elim (Bool-cases (text_eq u (codes "root"))) [
  | inl root ↦ rw root (λ _. inl (text_eq_sound u (codes "root") root), λ _. refl)
  | inr other ↦ rw other (
    λ h. inr ((check_policies_iff s.iam u op bucket key).0 h),
    elim [
      | inl e ↦ cc ((text_eq_iff u (codes "root")).1 e)
      | inr h ↦ (check_policies_iff s.iam u op bucket key).1 h
    ],
  )
]

pair_flag :
    {u v : Text} {a b : Bool}
    → ◌≡◌ {A = Result S3Error (Text × Bool)} (ok (u, a)) (ok (v, b))
    → a ≡ b
pair_flag h = ap (λ (p : Text × Bool). p.1) (ok-injective h)

answer_iff :
    (op : Text) (bucket key : Option Text) (r : Result S3Error (Text × Bool))
    → ((answer op bucket key r).0 ≡ ok tt) ↔ ((u : Text) × (r ≡ ok (u, true)))
unfolding answer
answer_iff op bucket key (ok (u, true)) = (λ h. (u, refl), λ h. refl)
answer_iff op bucket key (ok (u, false)) = (λ h. cc, λ (v, e). cc (pair_flag e))
answer_iff op bucket key (err e) = (λ h. cc, λ (v, e). cc)

decide_to :
    (s : StrixS3Service) (credentials token : Option Text) (op : Text) (bucket key : Option Text)
    (u : Text)
    → decide s credentials token op bucket key ≡ ok (u, true)
    → Granted s credentials token op bucket key
unfolding decide
decide_to s credentials token op bucket key u h =
    let (t, valid, h₁) = >>=-eq-ok (validate_session_token s credentials token) _ h in
    let (v, found, h₂) = >>=-eq-ok (get_username s credentials) _ h₁ in
    let (g, granted, h₃) =
      >>=-eq-ok (if text_eq v (codes "root") then ok true else check_policies s.iam v op bucket key)
        _ h₂ in
    (v, valid, found, (user_step s v op bucket key).0 (granted ∙ ap ok (pair_flag h₃)))

decide_back :
    (s : StrixS3Service) (credentials token : Option Text) (op : Text) (bucket key : Option Text)
    (u : Text)
    → validate_session_token s credentials token ≡ ok tt
    → get_username s credentials ≡ ok u
    → (u ≡ codes "root") ⊎ AllowedByPolicies s.iam u op bucket key
    → decide s credentials token op bucket key ≡ ok (u, true)
unfolding decide
decide_back s credentials token op bucket key u valid found h =
    rw (valid, found, (user_step s u op bucket key).1 h)

-- `check_authorization` grants a request exactly when its session token is valid, its access
-- key belongs to a user, and the user is root, or is authorized by IAM policies, or is not and
-- the bucket's policy allows the request.
pub check_authorization_iff :
    (s : StrixS3Service) (credentials token : Option Text) (op : Text) (bucket key : Option Text)
    → ((check_authorization s credentials token op bucket key).0 ≡ ok tt)
      ↔ Granted s credentials token op bucket key
unfolding check_authorization
check_authorization_iff s credentials token op bucket key =
    let (to, back) = answer_iff op bucket key (decide s credentials token op bucket key) in
    (
      λ h. let (u, e) = to h in decide_to s credentials token op bucket key u e,
      λ (u, valid, found, h).
          back (u, decide_back s credentials token op bucket key u valid found h),
    )

token_step :
    (r : Result IamError Bool)
    → (internal r >>= λ is_valid. reject_if (not is_valid) access_denied) ≡ ok tt
    → r ≡ ok true
token_step (ok true) h = refl
token_step (ok false) h = cc
token_step (err e) h = cc

token_of :
    (provider : Option IamProvider) (access_key : Text) (token : Option Text)
    → check_token provider access_key token ≡ ok tt
    → (iam : IamProvider) × (t : Text) × (provider ≡ some iam)
      × (token ≡ some t)
      × (iam.validate_session_token access_key t ≡ ok true)
unfolding check_token
token_of none access_key token h = cc
token_of (some iam) access_key none h = cc
token_of (some iam) access_key (some t) h =
    (iam, t, refl, refl, token_step (iam.validate_session_token access_key t) h)

-- A granted request with a temporary access key carries a session token that the IAM store
-- accepts for that key.
pub temporary_needs_token :
    (s : StrixS3Service) (access_key : Text) (token : Option Text) (op : Text)
    (bucket key : Option Text)
    → is_temporary access_key ≡ true
    → (check_authorization s (some access_key) token op bucket key).0 ≡ ok tt
    → (iam : IamProvider) × (t : Text) × (s.iam ≡ some iam)
      × (token ≡ some t)
      × (iam.validate_session_token access_key t ≡ ok true)
temporary_needs_token s access_key token op bucket key temporary h =
    let (u, valid, _, _) = (check_authorization_iff s (some access_key) token op bucket key).0 h in
    token_of s.iam access_key token (unfold validate_session_token in rw temporary at valid)
