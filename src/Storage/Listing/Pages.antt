-- ===== src/Storage/Listing/Pages.antt =====
-- A listing that is read page by page.
use mathlib.Core.Path.{subst}
use mathlib.Core.List.{append-nil, append_assoc, map-append}
use strix.Base.{
  ℕ, zero, suc, ◌+◌, ◌<◌, ◌≡◌, refl, sym, ap, ◌∙◌, inl, inr, Bool, true, false, List, [], ◌∷◌, ◌++◌,
  Option, none, some, Text, arith, keep, take, drop, length, length-append, ltb, ltb_iff, map,
  if◌then◌else◌, Bool-cases, ok, err,
}
use strix.Storage.Tables.{ObjectRow, LocalFsStore, bucket_exists}
use strix.Storage.Read.{ObjectInfo, object_info, or_default}
use strix.Storage.Latest.{IsLatestUnique}
use strix.Storage.Listing.{
  ListObjectsOpts, ListObjectsResponse, is_after, common_prefix, collect, last, key_of, map_option,
  respond, is_listed, order_by_key, query, list_objects,
}
use strix.Storage.Listing.Ordered.{
  IsRising, IsDistinct, order-IsRising, keep-order, keep-both, keep-IsDistinct,
}
use strix.Storage.Listing.After.{
  keep-after, last-take, take-drop, length-drop, last-map, take-map-take, more_than, take-all,
}

-- A client that asks for the next page until there is none: what it has seen, or nothing where a
-- page fails or the fuel is out.
unfoldable pub follow :
    (like : Text → Text → Bool)
    → ℕ
    → LocalFsStore
    → Text
    → ListObjectsOpts
    → Option (List ObjectInfo)
follow like zero s bucket opts = none
follow like (suc fuel) s bucket opts = elim (list_objects like s bucket opts) [
  | err e ↦ none
  | ok r ↦ elim r.is_truncated [
    | false ↦ some r.objects
    | true ↦
        map_option (λ (rest : List ObjectInfo). r.objects ++ rest)
          (follow like fuel s bucket
            (record opts { continuation_token = r.next_continuation_token }))
  ]
]

follow_end :
    (like : Text → Text → Bool) (fuel : ℕ) (s : LocalFsStore) (bucket : Text)
    (opts : ListObjectsOpts) (r : ListObjectsResponse)
    → list_objects like s bucket opts ≡ ok r
    → r.is_truncated ≡ false
    → follow like (suc fuel) s bucket opts ≡ some r.objects
unfolding follow
follow_end like fuel s bucket opts r e end = rw (follow, e) (rw end refl)

follow_more :
    (like : Text → Text → Bool) (fuel : ℕ) (s : LocalFsStore) (bucket : Text)
    (opts : ListObjectsOpts) (r : ListObjectsResponse)
    → list_objects like s bucket opts ≡ ok r
    → r.is_truncated ≡ true
    → follow like (suc fuel) s bucket opts
      ≡ map_option
          (λ (rest : List ObjectInfo). r.objects ++ rest)
          (follow like fuel s bucket
            (record opts { continuation_token = r.next_continuation_token }))
unfolding follow
follow_more like fuel s bucket opts r e more = rw (follow, e) (rw more refl)

full :
    (n : ℕ) (objects : List ObjectInfo) (o : ObjectInfo)
    → length objects ≡ n
    → ltb n (length (objects ++ o ∷ [])) ≡ true
full n objects o h = ground (arith, length-append objects (o ∷ []))

room :
    (n k : ℕ) (objects : List ObjectInfo) (o : ObjectInfo)
    → length objects + suc k ≡ n
    → ltb n (length (objects ++ o ∷ [])) ≡ false
room n k objects o h = ground (arith, length-append objects (o ∷ []))

-- Without a delimiter the loop collects the rows up to one more than a page.
collect_lem :
    (prefix : Text) (rows : List ObjectRow) (max_keys k : ℕ) (objects : List ObjectInfo)
    (prefixes : List Text)
    → length objects + k ≡ max_keys
    → collect prefix none max_keys rows objects prefixes
      ≡ ok (objects ++ map object_info (take (suc k) rows), prefixes)
unfolding collect common_prefix
collect_lem prefix [] max_keys k objects prefixes h = rw (append-nil objects) refl
collect_lem prefix (r ∷ rows) max_keys zero objects prefixes h =
    rw (collect, common_prefix, full max_keys objects (object_info r) (omega (arith, h))) refl
collect_lem prefix (r ∷ rows) max_keys (suc k) objects prefixes h =
    rw (collect, common_prefix, room max_keys k objects (object_info r) h)
      (collect_lem prefix rows max_keys k (objects ++ object_info r ∷ []) prefixes
          (omega (arith, h, length-append objects (object_info r ∷ [])))
        ∙ ap (λ (t : List ObjectInfo). ok (t, prefixes))
            (append_assoc objects (object_info r ∷ []) (map object_info (take (suc k) rows))))

keep-true : {A : Type 0} (xs : List A) → keep (λ x. true) xs ≡ xs
keep-true [] = refl
keep-true (x ∷ xs) = ap (λ (t : List _). x ∷ t) (keep-true xs)

-- The answer with the first rows of a page.
abbrev page : ℕ → List ObjectRow → ListObjectsResponse
page n rows = record {
  objects = map object_info (take n rows);
  common_prefixes = [];
  is_truncated = ltb n (length rows);
  next_continuation_token =
      if ltb n (length rows)
      then map_option key_of (last (map object_info (take n rows)))
      else none;
}

respond-page :
    (n : ℕ) (rows : List ObjectRow)
    → respond n (map object_info (take (suc n) rows), []) ≡ page n rows
unfolding respond
respond-page n rows = elim (Bool-cases (ltb n (length rows))) [
  | inl more ↦
      rw (respond, more_than object_info n rows, more, take-map-take object_info n rows) refl
  | inr end ↦
      rw
        (
          respond,
          more_than object_info n rows,
          end,
          take-all (suc n) rows (ground arith),
          take-all n rows (ground arith),
        )
        refl
]

next_token :
    (n : ℕ) (rows : List ObjectRow) (r : ObjectRow)
    → ltb n (length rows) ≡ true
    → last (take n rows) ≡ some r
    → (page n rows).next_continuation_token ≡ some r.key
unfolding object_info
next_token n rows r more e = rw (more, last-map object_info n rows r e) refl

module _ (like : Text → Text → Bool) (s : LocalFsStore) (bucket : Text)
    (opts : ListObjectsOpts) where
  abbrev prefix : Text
  prefix = or_default [] opts.prefix

  abbrev pub max_keys : ℕ
  max_keys = or_default 1000 opts.max_keys

  -- The objects of the bucket whose keys have the prefix, in the order of their keys.
  abbrev pub listed : List ObjectRow
  listed = order_by_key (keep (is_listed like bucket prefix) s.objects)

  abbrev next : Option Text → ListObjectsOpts
  next token = record opts { continuation_token = token }

  list_page :
      (token : Option Text) (rows : List ObjectRow)
      → bucket_exists s bucket ≡ true
      → opts.delimiter ≡ none
      → opts.start_after ≡ none
      → query like s bucket prefix token ≡ rows
      → list_objects like s bucket (next token) ≡ ok (page max_keys rows)
  unfolding list_objects
  list_page token rows exists plain first found =
      rw
        (
          list_objects,
          exists,
          plain,
          first,
          found,
          collect_lem prefix rows max_keys max_keys [] [] (omega arith),
        )
        (ap ok (respond-page max_keys rows))

  query_first : query like s bucket prefix none ≡ listed
  unfolding query
  query_first = ap order_by_key (
      keep-both (is_listed like bucket prefix) (is_after none) s.objects
      ∙ keep-true (keep (is_listed like bucket prefix) s.objects))

  module _ (unique : IsLatestUnique s) where
    distinct : IsDistinct (keep (is_listed like bucket prefix) s.objects)
    distinct =
        keep-IsDistinct bucket s.objects (is_listed like bucket prefix) (λ r h. ground arith)
          (λ k. unique bucket k)

    query_next : (k : Text) → query like s bucket prefix (some k) ≡ keep (is_after (some k)) listed
    unfolding query
    query_next k =
        ap order_by_key (keep-both (is_listed like bucket prefix) (is_after (some k)) s.objects)
        ∙ sym (
            keep-order (is_after (some k)) (keep (is_listed like bucket prefix) s.objects) distinct)

    follow_lem :
        (n fuel : ℕ) (passed rows : List ObjectRow) (token : Option Text)
        → max_keys ≡ suc n
        → bucket_exists s bucket ≡ true
        → opts.delimiter ≡ none
        → opts.start_after ≡ none
        → listed ≡ passed ++ rows
        → query like s bucket prefix token ≡ rows
        → length rows < fuel
        → follow like fuel s bucket (next token) ≡ some (map object_info rows)
    unfolding follow
    follow_lem n zero passed rows token k exists plain first whole found h = absurd (omega arith)
    follow_lem n (suc fuel) passed rows token k exists plain first whole found h =
        elim (Bool-cases (ltb max_keys (length rows))) [
          | inr end ↦
              follow_end like fuel s bucket (next token) (page max_keys rows)
                (list_page token rows exists plain first found) end
              ∙ ap (λ (t : List ObjectRow). some (map object_info t))
                  (take-all max_keys rows (ground arith))
          | inl more ↦
              let (r, e) = last-take n rows (ground arith) in
              let ending : last (take max_keys rows) ≡ some r = rw k e in
              let k' = max_keys in
              let seen = map object_info (take k' rows) in
              let more_seen = map_option (λ (rest : List ObjectInfo). seen ++ rest) in
              let named : (page k' rows).next_continuation_token ≡ some r.key =
                next_token k' rows r more ending in
              let rising : IsRising (passed ++ rows) =
                subst IsRising whole (order-IsRising _ distinct) in
              let rest =
                follow_lem n fuel (passed ++ take k' rows) (drop k' rows) (some r.key) k exists
                  plain first
                  (whole
                    ∙ ap (λ (t : List ObjectRow). passed ++ t) (sym (take-drop k' rows))
                    ∙ sym (append_assoc passed (take k' rows) (drop k' rows)))
                  (query_next r.key
                    ∙ ap (keep (is_after (some r.key))) whole
                    ∙ keep-after passed rows k' r rising ending)
                  (omega (arith, length-drop k' rows, (ltb_iff k' (length rows)).0 more)) in
              follow_more like fuel s bucket (next token) (page k' rows)
                (list_page token rows exists plain first found) more
              ∙ ap (λ (t : Option Text). more_seen (follow like fuel s bucket (next t))) named
              ∙ ap more_seen rest
              ∙ ap some (
                  sym (map-append object_info (take k' rows) (drop k' rows))
                  ∙ ap (map object_info) (take-drop k' rows))
        ]

-- A client that lists a bucket that exists, with any prefix and a page size of at least one,
-- without a delimiter and without a start, and that follows the tokens, comes to an end and has
-- then seen, once and in the order of the keys, exactly the latest versions of the bucket that
-- are no delete markers and whose keys `LIKE` finds for the prefix's pattern. At most one row
-- of every key is the latest, and the client may ask for as many pages as there are objects and
-- one more.
pub follow-listed :
    (like : Text → Text → Bool) (s : LocalFsStore) (bucket : Text) (opts : ListObjectsOpts)
    (n fuel : ℕ)
    → IsLatestUnique s
    → bucket_exists s bucket ≡ true
    → opts.delimiter ≡ none
    → opts.start_after ≡ none
    → opts.continuation_token ≡ none
    → max_keys like s bucket opts ≡ suc n
    → length (listed like s bucket opts) < fuel
    → follow like fuel s bucket opts ≡ some (map object_info (listed like s bucket opts))
follow-listed like s bucket opts n fuel unique exists plain first fresh k h =
    ap (λ (t : Option Text). follow like fuel s bucket (record opts { continuation_token = t }))
      fresh
    ∙ follow_lem like s bucket opts unique n fuel [] (listed like s bucket opts) none k exists plain
        first refl (query_first like s bucket opts) h

-- A page that starts behind a key does not depend on the token.
first_page_again :
    (like : Text → Text → Bool) (s : LocalFsStore) (bucket : Text) (opts : ListObjectsOpts)
    (start : Text) (token : Option Text)
    → opts.start_after ≡ some start
    → list_objects like s bucket (record opts { continuation_token = token })
      ≡ list_objects like s bucket opts
unfolding list_objects
first_page_again like s bucket opts start token h = rw h refl

-- A client that lists behind a key that it names in every request, as `start_after`, and that
-- follows the tokens, never comes to an end where the first page is truncated, however many
-- pages it asks for.
pub follow-start_after :
    (like : Text → Text → Bool) (s : LocalFsStore) (bucket : Text) (opts : ListObjectsOpts)
    (start : Text) (r : ListObjectsResponse)
    → opts.start_after ≡ some start
    → list_objects like s bucket opts ≡ ok r
    → r.is_truncated ≡ true
    → (fuel : ℕ) → follow like fuel s bucket opts ≡ none
unfolding follow
follow-start_after like s bucket opts start r first e more zero = refl
follow-start_after like s bucket opts start r first e more (suc fuel) =
    let token = r.next_continuation_token in
    follow_more like fuel s bucket opts r e more
    ∙ ap (map_option (λ (rest : List ObjectInfo). r.objects ++ rest)) (
        follow-start_after like s bucket (record opts { continuation_token = token }) start r first
          (first_page_again like s bucket opts start token first ∙ e) more fuel)
