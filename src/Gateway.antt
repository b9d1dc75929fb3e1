-- ===== src/Gateway.antt =====
-- Authorization of S3 requests: `get_username`, `validate_session_token` and `check_authorization`
-- of crates/strix-s3/src/service.rs.
pub mod Granted
pub mod Overridden
pub mod Ranges
pub mod IamAuth
pub mod Deactivated
use strix.Base.{
  Bool, true, false, not, List, [], ◌∷◌, Option, none, some, Text, codes, text_eq, starts_with,
  if◌then◌else◌, Result, ok, err, ok_or, reject_if, ◌>>=◌, ◌>>◌,
}
use strix.Effect.{Effect, allow, deny}
use strix.Action
use strix.Action.{Action}
use strix.Resource
use strix.Resource.{Resource}
use strix.BucketPolicy.{Principal, anonymous, user}
use strix.Iam.{IamError}

-- The operations of the trait `IamProvider` that authorization calls. The lookups of credentials
-- answer with the name of the user.
pub record IamProvider : Type 0 where
  pub get_credentials : Text → Result IamError (Option Text)
  pub get_temp_credentials : Text → Result IamError (Option Text)
  pub validate_session_token : Text → Text → Result IamError Bool
  pub is_authorized : Text → Action → Resource → Result IamError Bool
  pub is_authorized_by_bucket_policy :
      Text → Principal → Action → Resource → Result IamError (Option Effect)

pub record StrixS3Service : Type 0 where
  pub iam : Option IamProvider
  pub root_access_key : Text

pub data S3Error : Type 0 where
  access_denied internal_error invalid_argument : S3Error
  invalid_access_key_id expired_token : S3Error

-- `AuditEvent`
pub record AuditEvent : Type 0 where
  pub operation : Text
  pub bucket : Option Text
  pub key : Option Text
  pub principal : Option Text
  pub success : Bool
  pub error_message : Option Text

-- `map_err` of a failed call of the provider.
abbrev internal {ℓ} : {A : Type ℓ} → Result IamError A → Result S3Error A
internal (ok a) = ok a
internal (err e) = err internal_error

abbrev known : Option Text → Result S3Error Text
known (some u) = ok u
known none = err access_denied

-- `starts_with("ASIA")`: the key is a temporary credential.
unfoldable pub is_temporary : Text → Bool
is_temporary access_key = starts_with access_key (codes "ASIA")

lookup_user : IamProvider → Text → Result S3Error Text
lookup_user iam access_key =
    if is_temporary access_key
    then internal (iam.get_temp_credentials access_key) >>= known
    else internal (iam.get_credentials access_key) >>= known

-- The credentials of a request are its access key.
unfoldable pub get_username : StrixS3Service → Option Text → Result S3Error Text
unfolding lookup_user
get_username s none = ok (codes "anonymous")
get_username s (some access_key) =
    if text_eq access_key s.root_access_key
    then ok (codes "root")
    else elim s.iam [ none ↦ err access_denied | some iam ↦ lookup_user iam access_key ]

-- The check of a temporary key, with the value of the header `x-amz-security-token`.
check_token : Option IamProvider → Text → Option Text → Result S3Error (Unit {0})
check_token none access_key token = err access_denied
check_token (some iam) access_key none = err access_denied
check_token (some iam) access_key (some token) = do
  is_valid ← internal (iam.validate_session_token access_key token)
  reject_if (not is_valid) access_denied

unfoldable pub validate_session_token :
    StrixS3Service → Option Text → Option Text → Result S3Error (Unit {0})
unfolding check_token
validate_session_token s none token = ok tt
validate_session_token s (some access_key) token =
    if not (is_temporary access_key) then ok tt else check_token s.iam access_key token

unfoldable pub request_resource : Option Text → Option Text → Result S3Error Resource
unfolding Resource.of_object Resource.of_bucket Resource.all
request_resource (some b) (some k) = ok (Resource.of_object b k)
request_resource (some b) none = ok (Resource.of_bucket b)
request_resource none none = ok Resource.all
request_resource none (some k) = err invalid_argument

-- `Action::from_operation(action).unwrap_or(Action::All)`
unfoldable pub request_action : Text → Action
request_action operation = elim (Action.from_operation operation) [ some a ↦ a | none ↦ Action.all ]

unfoldable pub request_principal : Text → Principal
request_principal username =
    if text_eq username (codes "anonymous") then anonymous else user username

-- The verdict of the bucket policy: `ok true` grants, `ok false` falls through.
bucket_verdict : Option Effect → Result S3Error Bool
bucket_verdict (some allow) = ok true
bucket_verdict (some deny) = err access_denied
bucket_verdict none = ok false

check_bucket : IamProvider → Text → Action → Resource → Option Text → Result S3Error Bool
unfolding bucket_verdict
check_bucket iam username action resource none = ok false
check_bucket iam username action resource (some bucket) = do
  effect ←
      internal
        (iam.is_authorized_by_bucket_policy bucket (request_principal username) action resource)
  bucket_verdict effect

-- The policies of a user other than root: is the request granted?
check_policies : Option IamProvider → Text → Text → Option Text → Option Text → Result S3Error Bool
unfolding check_bucket
check_policies none username operation bucket key = err access_denied
check_policies (some iam) username operation bucket key = do
  resource ← request_resource bucket key
  let action = request_action operation
  iam_authorized ← internal (iam.is_authorized username action resource)
  if iam_authorized then ok true else check_bucket iam username action resource bucket

-- The name of the user and whether the request is granted.
decide :
    StrixS3Service
    → Option Text
    → Option Text
    → Text
    → Option Text
    → Option Text
    → Result S3Error (Text × Bool)
unfolding check_policies
decide s credentials token operation bucket key = do
  validate_session_token s credentials token
  username ← get_username s credentials
  granted ←
      if text_eq username (codes "root")
      then ok true
      else check_policies s.iam username operation bucket key
  ok (username, granted)

-- The answer to a request and the events that it writes to the audit log.
answer :
    Text
    → Option Text
    → Option Text
    → Result S3Error (Text × Bool)
    → Result S3Error (Unit {0}) × List AuditEvent
answer operation bucket key (err e) = (err e, [])
answer operation bucket key (ok (username, true)) = (ok tt, [])
answer operation bucket key (ok (username, false)) = (
  err access_denied,
  record {
    operation = operation;
    bucket = bucket;
    key = key;
    principal = some username;
    success = false;
    error_message = some (codes "Access denied");
  }
      ∷ [],
)

unfoldable pub check_authorization :
    StrixS3Service
    → Option Text
    → Option Text
    → Text
    → Option Text
    → Option Text
    → Result S3Error (Unit {0}) × List AuditEvent
unfolding decide answer
check_authorization s credentials token operation bucket key =
    answer operation bucket key (decide s credentials token operation bucket key)
