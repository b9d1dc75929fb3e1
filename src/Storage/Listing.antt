-- ===== src/Storage/Listing.antt =====
-- `head_object`, `list_objects` and `list_parts` of crates/strix-storage/src/localfs.rs.
pub mod Ordered
pub mod After
pub mod Pages
use strix.Base.{
  ℕ, zero, suc, ◌+◌, ◌-◌, Bool, true, false, not, ◌&&◌, ◌||◌, List, [], ◌∷◌, ◌++◌, Option, none,
  some, Text, codes, text_eq, find, keep, length, take, map, ltb, ◌==◌, is_empty, byte_len,
  utf8_width, starts_with, if◌then◌else◌, Result, ok, err, ok_or, reject_if, ◌>>=◌, ◌>>◌,
}
use strix.Storage.Tables.{
  ObjectRow, PartRow, LocalFsStore, StorageError, bucket_not_found, object_not_found, is_version,
  bucket_exists, of_seconds,
}
use strix.Storage.Read.{ObjectInfo, object_info, or_default}
use strix.Storage.Multipart.{MultipartUpload, PartInfo}

unfoldable pub head_object : LocalFsStore → Text → Text → Result StorageError ObjectInfo
unfolding object_info
head_object s bucket key = do
  row ← ok_or (find (is_version bucket key none) s.objects) (object_not_found bucket key)
  reject_if row.is_delete_marker (object_not_found bucket key)
  ok (object_info row)

pub record ListObjectsOpts : Type 0 where
  pub prefix : Option Text
  pub delimiter : Option Text
  pub max_keys : Option ℕ
  pub continuation_token : Option Text
  pub start_after : Option Text

pub record ListObjectsResponse : Type 0 where
  pub objects : List ObjectInfo
  pub common_prefixes : List Text
  pub is_truncated : Bool
  pub next_continuation_token : Option Text

-- How a listing ends without an answer: with an error, or with the panic of a slice of a text that
-- does not start at a character.
pub data Failure : Type 0 where
  error : StorageError → Failure
  panicked : Failure

-- The order of texts in the database and in a `BTreeSet`, by their bytes in UTF-8.
unfoldable pub text_lt : Text → Text → Bool
text_lt s [] = false
text_lt [] (d ∷ t) = true
text_lt (c ∷ s) (d ∷ t) = ltb c d || (c == d && text_lt s t)

-- `ORDER BY key`
unfoldable pub insert_by_key : ObjectRow → List ObjectRow → List ObjectRow
unfolding text_lt
insert_by_key r [] = r ∷ []
insert_by_key r (q ∷ rows) =
    let rest = insert_by_key r rows in if text_lt r.key q.key then r ∷ q ∷ rows else q ∷ rest

unfoldable pub order_by_key : List ObjectRow → List ObjectRow
unfolding insert_by_key
order_by_key [] = []
order_by_key (r ∷ rows) = insert_by_key r (order_by_key rows)

-- `replace('%', "\\%")`, and a `%` at the end.
unfoldable pub escape_percent : Text → Text
escape_percent [] = []
escape_percent (c ∷ s) = (if c == b'%' then b'\\' ∷ b'%' ∷ [] else c ∷ []) ++ escape_percent s

unfoldable pub prefix_pattern : Text → Text
unfolding escape_percent
prefix_pattern prefix = escape_percent prefix ++ b'%' ∷ []

-- `key > ?3`, where the listing starts behind a key.
abbrev pub is_after : Option Text → ObjectRow → Bool
is_after none r = true
is_after (some start) r = text_lt start r.key

-- `&key[n..]`: none where the byte `n` is not the first of a character or lies behind the end.
unfoldable pub drop_bytes : ℕ → Text → Option Text
drop_bytes n [] = if n == 0 then some [] else none
drop_bytes n (c ∷ s) =
    let rest = drop_bytes (n - utf8_width c) s in
    if n == 0 then some (c ∷ s) else if ltb n (utf8_width c) then none else rest

-- `&suffix[..pos]` where `pos` is where the delimiter is found first.
unfoldable pub before : Text → Text → Option Text
unfolding starts_with
before delim [] = if is_empty delim then some [] else none
before delim (c ∷ s) =
    let rest = before delim s in
    if starts_with (c ∷ s) delim
    then some []
    else elim rest [ none ↦ none | some found ↦ some (c ∷ found) ]

abbrev common : Text → Text → Option Text → Result Failure (Option Text)
common prefix delim none = ok none
common prefix delim (some found) = ok (some (prefix ++ found ++ delim))

-- The common prefix that a key is listed under, if any.
unfoldable pub common_prefix : Text → Option Text → Text → Result Failure (Option Text)
unfolding drop_bytes before
common_prefix prefix none key = ok none
common_prefix prefix (some delim) key =
    if is_empty delim
    then ok none
    else (ok_or (drop_bytes (byte_len prefix) key) panicked >>= λ suffix.
        common prefix delim (before delim suffix))

-- `BTreeSet::insert`
unfoldable pub insert_text : Text → List Text → List Text
unfolding text_lt
insert_text t [] = t ∷ []
insert_text t (u ∷ texts) =
    let rest = insert_text t texts in
    if text_eq t u then u ∷ texts else if text_lt t u then t ∷ u ∷ texts else u ∷ rest

-- The loop over the rows. It stops when one more object is found than asked for.
unfoldable pub collect :
    Text
    → Option Text
    → ℕ
    → List ObjectRow
    → List ObjectInfo
    → List Text
    → Result Failure (List ObjectInfo × List Text)
unfolding common_prefix insert_text object_info
collect prefix delim max_keys [] objects prefixes = ok (objects, prefixes)
collect prefix delim max_keys (r ∷ rows) objects prefixes =
    let more = collect prefix delim max_keys rows (objects ++ object_info r ∷ []) prefixes in
    let grouped =
      λ (p : Text). collect prefix delim max_keys rows objects (insert_text p prefixes) in
    common_prefix prefix delim r.key >>= λ found. elim found [
      | some p ↦ grouped p
      | none ↦
          if ltb max_keys (length (objects ++ object_info r ∷ []))
          then ok (objects ++ object_info r ∷ [], prefixes)
          else more
    ]

unfoldable pub last : {A : Type 0} → List A → Option A
last [] = none
last (x ∷ []) = some x
last (x ∷ y ∷ xs) = last (y ∷ xs)

abbrev pub key_of : ObjectInfo → Text
key_of o = o.key

abbrev pub map_option : {A B : Type 0} → (A → B) → Option A → Option B
map_option f none = none
map_option f (some a) = some (f a)

-- The answer from what the loop collected.
unfoldable pub respond : ℕ → List ObjectInfo × List Text → ListObjectsResponse
unfolding last
respond max_keys (objects, prefixes) =
    let is_truncated = ltb max_keys (length objects) in
    let listed = if is_truncated then take max_keys objects else objects in
    record {
      objects = listed;
      common_prefixes = prefixes;
      is_truncated = is_truncated;
      next_continuation_token = if is_truncated then map_option key_of (last listed) else none;
    }

abbrev pub or_else : {A : Type 0} → Option A → Option A → Option A
or_else (some a) b = some a
or_else none b = b

-- `WHERE bucket = ?1 AND key LIKE ?2 AND is_latest = 1 AND is_delete_marker = 0`, where `like` is
-- the operator of the database.
abbrev pub is_listed : (like : Text → Text → Bool) → Text → Text → ObjectRow → Bool
is_listed like bucket prefix r =
    text_eq r.bucket bucket
    && like (prefix_pattern prefix) r.key
    && r.is_latest
    && not r.is_delete_marker

module _ (like : Text → Text → Bool) where
  -- The rows that the query gives.
  unfoldable pub query : LocalFsStore → Text → Text → Option Text → List ObjectRow
  unfolding order_by_key prefix_pattern text_lt
  query s bucket prefix start =
      order_by_key
        (keep (λ (r : ObjectRow). is_listed like bucket prefix r && is_after start r) s.objects)

  unfoldable pub list_objects :
      LocalFsStore → Text → ListObjectsOpts → Result Failure ListObjectsResponse
  unfolding bucket_exists query collect respond or_default
  list_objects s bucket opts = do
    reject_if (not (bucket_exists s bucket)) (error (bucket_not_found bucket))
    let prefix = or_default [] opts.prefix
    let max_keys = or_default 1000 opts.max_keys
    let start = or_else opts.start_after opts.continuation_token
    collected ← collect prefix opts.delimiter max_keys (query s bucket prefix start) [] []
    ok (respond max_keys collected)

-- `ORDER BY part_number`
unfoldable pub insert_part : PartRow → List PartRow → List PartRow
insert_part p [] = p ∷ []
insert_part p (q ∷ rows) =
    let rest = insert_part p rows in
    if ltb p.part_number q.part_number then p ∷ q ∷ rows else q ∷ rest

unfoldable pub order_by_number : List PartRow → List PartRow
unfolding insert_part
order_by_number [] = []
order_by_number (p ∷ rows) = insert_part p (order_by_number rows)

pub record ListPartsOpts : Type 0 where
  pub max_parts : Option ℕ
  pub part_number_marker : Option ℕ

pub record ListPartsResponse : Type 0 where
  pub parts : List PartInfo
  pub is_truncated : Bool
  pub next_part_number_marker : Option ℕ

abbrev pub part_info : PartRow → PartInfo
part_info p = record {
  part_number = p.part_number;
  etag = p.etag;
  size = p.size;
  last_modified = of_seconds p.created_at;
}

unfoldable pub list_parts : LocalFsStore → MultipartUpload → ListPartsOpts → ListPartsResponse
unfolding order_by_number or_default last
list_parts s upload opts =
    let max_parts = or_default 1000 opts.max_parts in
    let marker = or_default 0 opts.part_number_marker in
    let rows = order_by_number (
      keep (λ (p : PartRow). text_eq p.upload_id upload.upload_id && ltb marker p.part_number)
        s.parts) in
    let parts = map part_info rows in
    let is_truncated = ltb max_parts (length parts) in
    let listed = if is_truncated then take max_parts parts else parts in
    record {
      parts = listed;
      is_truncated = is_truncated;
      next_part_number_marker =
          if is_truncated then map_option (λ (p : PartInfo). p.part_number) (last listed) else none;
    }
