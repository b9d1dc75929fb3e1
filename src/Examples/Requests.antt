-- ===== src/Examples/Requests.antt =====
-- Requests to the S3 service.
use strix.Base.{
  ◌≡◌, refl, ◌↔◌, Bool, true, [], ◌∷◌, Option, none, some, Text, codes, text_eq, starts_with,
  Result, ok, if◌then◌else◌,
}
use strix.Action
use strix.Resource
use strix.Policy
use strix.Wildcard.{matches_wildcard}
use strix.Iam.{IamError, is_root_name, list_user_policies, list_user_groups, joined_groups}
use strix.Iam.Authorize.{is_authorized}
use strix.Iam.BucketPolicies.{PolicyJson, Table, set_bucket_policy, get_bucket_policy}
use strix.Iam.BucketPolicies.Lookup.{set, answer_after, get_bucket_policy-run}
use strix.Gateway.{
  IamProvider, StrixS3Service, get_username, validate_session_token, is_temporary,
  check_authorization, request_action, request_resource,
}
use strix.Gateway.Granted.{Granted, check_authorization_iff, temporary_needs_token}
use strix.Gateway.Overridden.{store_provider}
use strix.Examples.Policies.{externals, public_policy, closed_policy}
use strix.Examples.Accounts.{store}

abbrev pub alice : Text
alice = codes "alice"

abbrev pub photos : Text
photos = codes "photos"

-- The access keys of the tests belong to alice.
abbrev pub keys : Text → Result IamError (Option Text)
keys k = ok (some alice)

abbrev pub any_token : Text → Text → Result IamError Bool
any_token k t = ok (text_eq t (codes "token"))

-- Two texts that are policies; what is written is the first.
abbrev pub json : PolicyJson externals.Float
json = record {
  to_string = λ p. some (codes "public");
  from_str = λ text.
      if text_eq text (codes "public")
      then some public_policy
      else if text_eq text (codes "closed")
      then some closed_policy
      else none;
}

abbrev pub open_table : Table
open_table = record { bucket = photos; policy_document = codes "public" } ∷ []

abbrev pub closed_table : Table
closed_table = record { bucket = photos; policy_document = codes "closed" } ∷ []

abbrev service : StrixS3Service
service = record {
  iam = some (store_provider externals json store open_table keys keys any_token);
  root_access_key = codes "AKROOT";
}

check_authorization_iff_example :
    ((check_authorization service
        (some (codes "AKALICE"))
        none
        (codes "GetObject")
        (some photos)
        (some (codes "cat"))).0
      ≡ ok tt)
    ↔ Granted service
        (some (codes "AKALICE"))
        none
        (codes "GetObject")
        (some photos)
        (some (codes "cat"))
check_authorization_iff_example =
    check_authorization_iff service (some (codes "AKALICE")) none (codes "GetObject") (some photos)
      (some (codes "cat"))

temporary : is_temporary (codes "ASIA1") ≡ true
unfolding is_temporary starts_with
temporary = refl

granted :
    (check_authorization service
      (some (codes "ASIA1"))
      (some (codes "token"))
      (codes "GetObject")
      (some photos)
      (some (codes "cat"))).0
    ≡ ok tt
unfolding check_authorization validate_session_token get_username is_temporary starts_with text_eq
    request_action request_resource store_provider is_authorized is_root_name list_user_policies
    list_user_groups joined_groups Policy.evaluate Policy.matches matches_wildcard Action.to_text
    Resource.to_text Action.from_operation
granted = refl

temporary_needs_token_example :
    (iam : IamProvider) × (t : Text) × (service.iam ≡ some iam)
    × (◌≡◌ {A = Option Text} (some (codes "token")) (some t))
    × (iam.validate_session_token (codes "ASIA1") t ≡ ok true)
temporary_needs_token_example =
    temporary_needs_token service (codes "ASIA1") (some (codes "token")) (codes "GetObject")
      (some photos) (some (codes "cat")) temporary granted

opened : set_bucket_policy externals json closed_table photos public_policy ≡ ok open_table
unfolding set_bucket_policy text_eq
opened = refl

get_bucket_policy-run_example :
    get_bucket_policy externals json open_table photos
    ≡ answer_after externals json
        (set photos public_policy)
        photos
        (get_bucket_policy externals json closed_table photos)
get_bucket_policy-run_example =
    get_bucket_policy-run externals json closed_table open_table (set photos public_policy) photos
      opened
