-- ===== src/Gateway/Overridden.antt =====
-- How the policies of users and the policies of buckets combine, for a service over the IAM store.
use strix.Base.{
  ◌≡◌, ap, refl, ◌∙◌, ◌⊎◌, inl, inr, Bool, true, false, Option, some, Text, arith, Result, ok,
}
use strix.Effect.{allow, deny}
use strix.Action.{Action}
use strix.Resource
use strix.Resource.{Resource}
use strix.Condition.Context.{Externals}
use strix.BucketPolicy
use strix.BucketPolicy.{BucketPolicy}
use strix.Iam.{IamStore, IamError, is_root_name}
use strix.Iam.Authorize.{is_authorized}
use strix.Iam.Authorize.Rule.{some_answers, all_policies, is_authorized_lem}
use strix.Iam.BucketPolicies.{
  PolicyJson, Table, get_bucket_policy, is_authorized_by_bucket_policy, authorized-found,
}
use strix.Gateway.{
  IamProvider, StrixS3Service, get_username, validate_session_token, request_resource,
  request_action, request_principal, check_authorization,
}
use strix.Gateway.Granted.{check_authorization_iff}

module _ (x : Externals) (json : PolicyJson x.Float) (store : IamStore) (table : Table)
    (get_credentials get_temp_credentials : Text → Result IamError (Option Text))
    (session_token : Text → Text → Result IamError Bool) where
  open x use {Float}

  -- `IamStore` as the service's provider. The lookups of keys are parameters.
  unfoldable pub store_provider : IamProvider
  store_provider = record {
    get_credentials = get_credentials;
    get_temp_credentials = get_temp_credentials;
    validate_session_token = session_token;
    is_authorized = λ u a r. ok (is_authorized store u a r);
    is_authorized_by_bucket_policy = is_authorized_by_bucket_policy x json table;
  }

  abbrev service : StrixS3Service
  service = record { iam = some store_provider; root_access_key = store.root_access_key }

  -- A request of a user for an object of a bucket, with a valid token.
  module _ (access_key u b k op : Text) (token : Option Text)
      (valid : validate_session_token service (some access_key) token ≡ ok tt)
      (found : get_username service (some access_key) ≡ ok u)
      (ordinary : is_root_name store u ≡ false) (p : BucketPolicy Float)
      (stored : get_bucket_policy x json table b ≡ ok (some p)) where
    abbrev action : Action
    action = request_action op

    abbrev object : Resource
    object = Resource.of_object b k

    -- What grants the request where no policy of the user is root's.
    granted_by :
        (is_authorized store u action object ≡ true)
          ⊎ ((is_authorized store u action object ≡ false)
              × (BucketPolicy.evaluate x p (request_principal u) action object ≡ some allow))
        → (check_authorization service (some access_key) token op (some b) (some k)).0 ≡ ok tt
    unfolding request_resource store_provider
    granted_by h =
        (check_authorization_iff service (some access_key) token op (some b) (some k)).1 (
          u,
          valid,
          found,
          inr (
            store_provider,
            object,
            refl,
            refl,
            elim h [
              | inl a ↦ inl (ap ok a)
              | inr (a, e) ↦ inr (
                ap ok a,
                (
                  b,
                  refl,
                  authorized-found x json table b (request_principal u) action object p stored
                      ∙ ap ok e,
                ),
              )
            ],
          ),
        )

    -- For an ordinary user with a valid token, an IAM policy of the user or of a group that
    -- denies a request for an object does not stop it where the bucket's policy allows it: it
    -- is granted.
    pub iam_deny_overridden :
        some_answers action object deny (all_policies store u) ≡ true
        → BucketPolicy.evaluate x p (request_principal u) action object ≡ some allow
        → (check_authorization service (some access_key) token op (some b) (some k)).0 ≡ ok tt
    iam_deny_overridden denied allowed =
        granted_by (inr (is_authorized_lem store u action object ∙ ground arith, allowed))

    -- For an ordinary user with a valid token, a bucket policy that denies a request for an
    -- object does not stop it where no IAM policy of the user denies it and one allows it: it
    -- is granted.
    pub bucket_deny_overridden :
        some_answers action object deny (all_policies store u) ≡ false
        → some_answers action object allow (all_policies store u) ≡ true
        → BucketPolicy.evaluate x p (request_principal u) action object ≡ some deny
        → (check_authorization service (some access_key) token op (some b) (some k)).0 ≡ ok tt
    bucket_deny_overridden quiet allowed denied =
        granted_by (inl (is_authorized_lem store u action object ∙ ground arith))
