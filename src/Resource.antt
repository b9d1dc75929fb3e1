-- ===== src/Resource.antt =====
-- `Resource` of crates/strix-iam/src/policy.rs.
use strix.Base.{Text, codes, ◌∷◌, ◌++◌, Option, none, some}

pub record Resource : Type 0 where
  pub bucket : Option Text
  pub key : Option Text

unfoldable pub all : Resource
all = record { bucket = none; key = none }

unfoldable pub of_bucket : Text → Resource
of_bucket name = record { bucket = some name; key = none }

unfoldable pub of_object : Text → Text → Resource
of_object name key = record { bucket = some name; key = some key }

abbrev pub arn_prefix : Text
arn_prefix = codes "arn:aws:s3:::"

-- The `match` in `Display for Resource`.
arn : Option Text → Option Text → Text
arn none _ = arn_prefix ++ codes "*"
arn (some b) none = arn_prefix ++ b
arn (some b) (some k) = arn_prefix ++ (b ++ (b'/' ∷ k))

unfoldable pub to_text : Resource → Text
unfolding arn
to_text r = arn r.bucket r.key
