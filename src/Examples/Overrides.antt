-- ===== src/Examples/Overrides.antt =====
-- Requests on which the policies of the user and of the bucket disagree.
use strix.Base.{◌≡◌, refl, true, false, [], ◌∷◌, none, some, codes, text_eq, starts_with, ok}
use strix.Effect.{allow, deny}
use strix.Action
use strix.Resource
use strix.Policy
use strix.BucketPolicy
use strix.BucketPolicy.{BucketPolicy}
use strix.Wildcard.{matches_wildcard}
use strix.Iam.{
  IamStore, is_root_name, list_user_policies, list_user_groups, joined_groups, documents, is_member,
}
use strix.Iam.Authorize.{answers}
use strix.Iam.Authorize.Rule.{some_answers, all_policies, group_policies_of}
use strix.Iam.BucketPolicies.{Table, get_bucket_policy, parse_document}
use strix.Gateway.{
  StrixS3Service, get_username, validate_session_token, is_temporary, check_authorization,
  request_action, request_principal,
}
use strix.Gateway.Overridden.{store_provider, iam_deny_overridden, bucket_deny_overridden}
use strix.Examples.Policies.{externals, dog_reader, public_policy, closed_policy}
use strix.Examples.Accounts.{store}
use strix.Examples.Requests.{json, alice, photos, keys, any_token, open_table, closed_table}

-- A policy that denies alice's reads of the photo, and one that allows them.
abbrev denied_store : IamStore
denied_store = record store {
  user_policies =
      record { owner = alice; policy_name = codes "dogs"; document = some dog_reader } ∷ [];
}

abbrev gateway : IamStore → Table → StrixS3Service
gateway s table = record {
  iam = some (store_provider externals json s table keys keys any_token);
  root_access_key = s.root_access_key;
}

no_token_needed :
    validate_session_token (gateway denied_store open_table) (some (codes "AKALICE")) none ≡ ok tt
unfolding validate_session_token is_temporary starts_with
no_token_needed = refl

found_alice : get_username (gateway denied_store open_table) (some (codes "AKALICE")) ≡ ok alice
unfolding get_username is_temporary starts_with text_eq store_provider
found_alice = refl

not_root : is_root_name denied_store alice ≡ false
unfolding is_root_name text_eq
not_root = refl

opened : get_bucket_policy externals json open_table photos ≡ ok (some public_policy)
unfolding get_bucket_policy parse_document text_eq
opened = refl

some_denies :
    some_answers
      (request_action (codes "GetObject"))
      (Resource.of_object photos (codes "cat"))
      deny
      (all_policies denied_store alice)
    ≡ true
unfolding all_policies list_user_policies list_user_groups joined_groups group_policies_of documents
    is_root_name text_eq answers Policy.evaluate Policy.matches matches_wildcard Action.to_text
    Resource.to_text Resource.of_object request_action Action.from_operation
some_denies = refl

public_allows :
    BucketPolicy.evaluate externals public_policy
      (request_principal alice)
      (request_action (codes "GetObject"))
      (Resource.of_object photos (codes "cat"))
    ≡ some allow
unfolding BucketPolicy.evaluate BucketPolicy.evaluate_with_context BucketPolicy.matches_with_context
    matches_wildcard Action.to_text Resource.to_text Resource.of_object request_action
    Action.from_operation request_principal text_eq BucketPolicy.matches_principal
    BucketPolicy.matches_action BucketPolicy.matches_resource
public_allows = refl

iam_deny_overridden_example :
    (check_authorization
      (gateway denied_store open_table)
      (some (codes "AKALICE"))
      none
      (codes "GetObject")
      (some photos)
      (some (codes "cat"))).0
    ≡ ok tt
iam_deny_overridden_example =
    iam_deny_overridden externals json denied_store open_table keys keys any_token (codes "AKALICE")
      alice photos (codes "cat") (codes "GetObject") none no_token_needed found_alice not_root
      public_policy opened some_denies public_allows

-- The bucket's policy denies what alice's policy allows.
no_token_needed_closed :
    validate_session_token (gateway store closed_table) (some (codes "AKALICE")) none ≡ ok tt
unfolding validate_session_token is_temporary starts_with
no_token_needed_closed = refl

found_alice_closed : get_username (gateway store closed_table) (some (codes "AKALICE")) ≡ ok alice
unfolding get_username is_temporary starts_with text_eq store_provider
found_alice_closed = refl

not_root_closed : is_root_name store alice ≡ false
unfolding is_root_name text_eq
not_root_closed = refl

closed : get_bucket_policy externals json closed_table photos ≡ ok (some closed_policy)
unfolding get_bucket_policy parse_document text_eq
closed = refl

-- Whether a policy of alice's answers the request with the effect.
none_denies :
    some_answers
      (request_action (codes "GetObject"))
      (Resource.of_object photos (codes "cat"))
      deny
      (all_policies store alice)
    ≡ false
unfolding all_policies list_user_policies list_user_groups joined_groups group_policies_of documents
    is_root_name text_eq answers Policy.evaluate Policy.matches matches_wildcard Action.to_text
    Resource.to_text Resource.of_object request_action Action.from_operation is_member
none_denies = refl

some_allows :
    some_answers
      (request_action (codes "GetObject"))
      (Resource.of_object photos (codes "cat"))
      allow
      (all_policies store alice)
    ≡ true
unfolding all_policies list_user_policies list_user_groups joined_groups group_policies_of documents
    is_root_name text_eq answers Policy.evaluate Policy.matches matches_wildcard Action.to_text
    Resource.to_text Resource.of_object request_action Action.from_operation is_member
some_allows = refl

closed_denies :
    BucketPolicy.evaluate externals closed_policy
      (request_principal alice)
      (request_action (codes "GetObject"))
      (Resource.of_object photos (codes "cat"))
    ≡ some deny
unfolding BucketPolicy.evaluate BucketPolicy.evaluate_with_context BucketPolicy.matches_with_context
    matches_wildcard Action.to_text Resource.to_text Resource.of_object request_action
    Action.from_operation request_principal text_eq BucketPolicy.matches_principal
    BucketPolicy.matches_action BucketPolicy.matches_resource
closed_denies = refl

bucket_deny_overridden_example :
    (check_authorization
      (gateway store closed_table)
      (some (codes "AKALICE"))
      none
      (codes "GetObject")
      (some photos)
      (some (codes "cat"))).0
    ≡ ok tt
bucket_deny_overridden_example =
    bucket_deny_overridden externals json store closed_table keys keys any_token (codes "AKALICE")
      alice photos (codes "cat") (codes "GetObject") none no_token_needed_closed found_alice_closed
      not_root_closed closed_policy closed none_denies some_allows closed_denies
