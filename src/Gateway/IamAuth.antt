-- ===== src/Gateway/IamAuth.antt =====
-- The keys by which signatures are checked: `IamAuth` of crates/strix-s3/src/iam_auth.rs, over the
-- IAM store.
use strix.Base.{
  ℕ, not, Option, none, some, Text, text_eq, ltb, if◌then◌else◌, Result, ok, err, ok_or, reject_if,
  ◌>>=◌, ◌>>◌,
}
use strix.Iam.{IamStore, IamError, User}
use strix.Iam.Keys.{
  AccessKey, TemporaryCredential, is_active, is_key_active, get_credentials, get_temp_credentials,
}
use strix.Gateway.{S3Error, internal_error, invalid_access_key_id, expired_token, is_temporary}

-- The provider is the store, with the root user's keys.
unfoldable pub check_key : AccessKey × User → Result S3Error Text
check_key (key, user) = do
  reject_if (not (is_key_active key.status)) invalid_access_key_id
  reject_if (not (is_active user.status)) invalid_access_key_id
  ok_or key.secret_access_key internal_error

unfoldable pub check_temporary : ℕ → TemporaryCredential × User → Result S3Error Text
check_temporary now (cred, user) = do
  reject_if (ltb cred.expiration now) expired_token
  reject_if (not (is_active user.status)) invalid_access_key_id
  ok_or cred.secret_access_key internal_error

-- What a lookup answers, or the error where it finds nothing or fails.
abbrev pub found : {A : Type 0} → Result IamError (Option A) → Result S3Error A
found (ok (some a)) = ok a
found (ok none) = err invalid_access_key_id
found (err e) = err internal_error

unfoldable pub get_temp_secret_key : IamStore → ℕ → Text → Result S3Error Text
unfolding check_temporary
get_temp_secret_key s now access_key =
    found (get_temp_credentials s now access_key) >>= check_temporary now

unfoldable pub get_secret_key : IamStore → ℕ → Text → Result S3Error Text
unfolding check_key get_temp_secret_key is_temporary
get_secret_key s now access_key =
    if text_eq access_key s.root_access_key
    then ok s.root_secret_key
    else if is_temporary access_key
    then get_temp_secret_key s now access_key
    else (found (get_credentials s now access_key) >>= check_key)
