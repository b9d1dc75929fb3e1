-- ===== src/Examples/Listings.antt =====
-- A bucket with two objects, listed in pages of one.
use strix.Base.{
  ◌-◌, ◌≡◌, refl, ℕ, Bool, true, [], ◌∷◌, ◌++◌, none, some, Text, codes, text_eq, length, take, map,
  arith, starts_with, ok,
}
use strix.Crypto.{format_etag, md5_hex}
use strix.Storage.Tables.{LocalFsStore, bucket_exists}
use strix.Storage.Put.{PutObjectOpts, PutObjectResponse, put_object, new_row}
use strix.Storage.Read.{object_info, or_default}
use strix.Storage.Latest.{IsLatestUnique, put_object-IsLatestUnique}
use strix.Storage.Listing.{
  ListObjectsOpts, ListObjectsResponse, prefix_pattern, text_lt, insert_by_key, order_by_key,
  list_objects,
}
use strix.Storage.Listing.Pages.{follow, listed, follow-listed, follow-start_after}
use strix.Examples.Objects.{ciphers, nonce, photos, opts, after_put}
use strix.Examples.Latest.{after_put-IsLatestUnique}

abbrev plain_opts : PutObjectOpts
plain_opts = record opts { server_side_encryption = none; sse_customer_key = none }

abbrev both : LocalFsStore
both = record after_put {
  objects =
      after_put.objects
      ++ new_row ciphers (codes "v3") (codes "v3") photos (codes "ape") 3000 (codes "hi") plain_opts
          none none
        ∷ [];
  blobs = after_put.blobs ++ record { id = codes "v3"; content = codes "hi" } ∷ [];
}

abbrev ape_answer : PutObjectResponse
ape_answer = record {
  etag = format_etag (md5_hex ciphers (codes "hi"));
  version_id = some (codes "v3");
}

ape_put :
    put_object ciphers after_put
      (codes "v3")
      nonce
      3000
      photos
      (codes "ape")
      (ok (codes "hi") ∷ [])
      plain_opts
    ≡ ok (both, ape_answer)
unfolding put_object text_eq
ape_put = refl

both-IsLatestUnique : IsLatestUnique both
both-IsLatestUnique =
    put_object-IsLatestUnique ciphers after_put both (codes "v3") nonce 3000 photos (codes "ape")
      (ok (codes "hi") ∷ []) plain_opts ape_answer ape_put after_put-IsLatestUnique

-- `LIKE` for a pattern that ends in its only `%`.
abbrev like : Text → Text → Bool
like pattern key = starts_with key (take (length pattern - 1) pattern)

abbrev by_one : ListObjectsOpts
by_one = record {
  prefix = none;
  delimiter = none;
  max_keys = some 1;
  continuation_token = none;
  start_after = none;
}

exists : bucket_exists both photos ≡ true
unfolding bucket_exists text_eq
exists = refl

two : length (listed like both photos by_one) ≡ 2
unfolding order_by_key insert_by_key text_lt text_eq prefix_pattern starts_with or_default
two = refl

one_key : ◌≡◌ {A = ℕ} (or_default 1000 (some 1)) 1
unfolding or_default
one_key = refl

follow-listed_example :
    follow like 3 both photos by_one ≡ some (map object_info (listed like both photos by_one))
follow-listed_example =
    follow-listed like both photos by_one 0 3 both-IsLatestUnique exists refl refl refl one_key
      (omega (arith, two))

abbrev behind : ListObjectsOpts
behind = record by_one { start_after = some (codes "a") }

abbrev first_page : ListObjectsResponse
first_page = record {
  objects =
      object_info (
        new_row ciphers (codes "v3") (codes "v3") photos (codes "ape") 3000 (codes "hi") plain_opts
          none none)
      ∷ [];
  common_prefixes = [];
  is_truncated = true;
  next_continuation_token = some (codes "ape");
}

first : list_objects like both photos behind ≡ ok first_page
unfolding list_objects text_eq starts_with object_info
first = refl

follow-start_after_example : follow like 100 both photos behind ≡ none
follow-start_after_example =
    follow-start_after like both photos behind (codes "a") first_page refl first refl 100
