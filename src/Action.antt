-- ===== src/Action.antt =====
-- `Action` of crates/strix-iam/src/policy.rs: its names in policies, and the operations of the S3
-- API that it stands for.
use strix.Base.{Text, codes, List, [], ◌∷◌, Option, none, some, text_eq, if◌then◌else◌}

pub data Action : Type 0 where
  create_bucket delete_bucket list_bucket head_bucket get_bucket_location : Action
  get_bucket_versioning put_bucket_versioning get_bucket_tagging put_bucket_tagging : Action
  delete_bucket_tagging : Action
  get_object put_object delete_object head_object copy_object : Action
  list_multipart_upload_parts abort_multipart_upload : Action
  list_all_my_buckets list_bucket_multipart_uploads : Action
  all : Action

-- `Display for Action`
unfoldable pub to_text : Action → Text
to_text create_bucket = codes "s3:CreateBucket"
to_text delete_bucket = codes "s3:DeleteBucket"
to_text list_bucket = codes "s3:ListBucket"
to_text head_bucket = codes "s3:HeadBucket"
to_text get_bucket_location = codes "s3:GetBucketLocation"
to_text get_bucket_versioning = codes "s3:GetBucketVersioning"
to_text put_bucket_versioning = codes "s3:PutBucketVersioning"
to_text get_bucket_tagging = codes "s3:GetBucketTagging"
to_text put_bucket_tagging = codes "s3:PutBucketTagging"
to_text delete_bucket_tagging = codes "s3:DeleteBucketTagging"
to_text get_object = codes "s3:GetObject"
to_text put_object = codes "s3:PutObject"
to_text delete_object = codes "s3:DeleteObject"
to_text head_object = codes "s3:HeadObject"
to_text copy_object = codes "s3:CopyObject"
to_text list_multipart_upload_parts = codes "s3:ListMultipartUploadParts"
to_text abort_multipart_upload = codes "s3:AbortMultipartUpload"
to_text list_all_my_buckets = codes "s3:ListAllMyBuckets"
to_text list_bucket_multipart_uploads = codes "s3:ListBucketMultipartUploads"
to_text all = codes "s3:*"

-- The first of a list of cases whose text is the operation's.
cases : Text → List (Text × Action) → Option Action
unfolding text_eq
cases op [] = none
cases op ((name, action) ∷ rest) = if text_eq op name then some action else cases op rest

-- The arms of the `match` in `Action::from_operation`.
abbrev arms : List (Text × Action)
arms =
    (codes "CreateBucket", create_bucket)
    ∷ (codes "DeleteBucket", delete_bucket)
    ∷ (codes "ListBucket", list_bucket)
    ∷ (codes "ListObjects", list_bucket)
    ∷ (codes "ListObjectsV2", list_bucket)
    ∷ (codes "HeadBucket", head_bucket)
    ∷ (codes "GetBucketLocation", get_bucket_location)
    ∷ (codes "GetBucketVersioning", get_bucket_versioning)
    ∷ (codes "PutBucketVersioning", put_bucket_versioning)
    ∷ (codes "GetBucketTagging", get_bucket_tagging)
    ∷ (codes "PutBucketTagging", put_bucket_tagging)
    ∷ (codes "DeleteBucketTagging", delete_bucket_tagging)
    ∷ (codes "GetObject", get_object)
    ∷ (codes "PutObject", put_object)
    ∷ (codes "DeleteObject", delete_object)
    ∷ (codes "DeleteObjects", delete_object)
    ∷ (codes "HeadObject", head_object)
    ∷ (codes "CopyObject", copy_object)
    ∷ (codes "ListParts", list_multipart_upload_parts)
    ∷ (codes "AbortMultipartUpload", abort_multipart_upload)
    ∷ (codes "ListBuckets", list_all_my_buckets)
    ∷ (codes "ListMultipartUploads", list_bucket_multipart_uploads)
    ∷ (codes "*", all)
    ∷ []

unfoldable pub from_operation : Text → Option Action
unfolding cases
from_operation op = cases op arms
