-- ===== src/Storage/Copy/Copied.antt =====
-- What a copy gives to readers.
use mathlib.Core.Path.{subst}
use mathlib.Core.Option.{some-injective}
use strix.Base.{
  ◌≡◌, refl, sym, ap, ◌∙◌, ◌⊎◌, inl, inr, [], ◌∷◌, ◌++◌, Option, none, some, Text, codes, text_eq,
  text_eq_self, find, find-append_new, length, if◌then◌else◌, Result, ok, ok_or, reject_if, ◌>>=◌,
  >>=-eq-ok, ok_or-eq-ok, ok-injective,
}
use strix.Crypto.{Bytes, Ciphers, nonce_size, decrypt_aes256_gcm}
use strix.Crypto.RoundTrip.{IsAead, decrypt-encrypt_aes256_gcm}
use strix.Storage.Tables.{
  ObjectRow, LocalFsStore, StorageError, internal, object_not_found, Instant, is_version, read_blob,
  status_of, write_blob,
}
use strix.Storage.Put.{map_err, make_room, derive_object_key}
use strix.Storage.Read.{
  GetObjectOpts, ObjectInfo, check_conditions, object_info, parse_encryption_info, client_version,
  or_default, resolve_range, slice, decrypt_body, get_object,
}
use strix.Storage.Read.Decryption.{latest_opts, version_again, map_err-eq-ok}
use strix.Storage.Read.RoundTrip.{room_has_no_latest, read-write_blob, slice-all, get_found}
use strix.Storage.Listing.{head_object}
use strix.Storage.Copy.{CopyObjectOpts, CopyObjectResponse, copied_row, copy_content, copy_object}

-- The algorithms of the column: none, the server's key, the customer's.
abbrev pub IsKnown : Option Text → Type 0
IsKnown algorithm =
    (algorithm ≡ none) ⊎ ((algorithm ≡ some (codes "AES256")) ⊎ (algorithm ≡ some (codes "SSE-C")))

module _ (c : Ciphers) where
  -- A read once its row is found and its conditions hold.
  abbrev answer :
      LocalFsStore
      → Text
      → Text
      → GetObjectOpts
      → ObjectRow
      → Result StorageError (ObjectInfo × Bytes)
  answer s bucket key opts row = do
    stored ← ok_or (read_blob row.id s.blobs) (object_not_found bucket key)
    plaintext ← decrypt_body c s bucket key (object_info row) opts stored
    bounds ← resolve_range (length plaintext) opts.range
    ok (object_info row, slice plaintext bounds)

  -- What a read of the latest version without a range found.
  read_source :
      (s : LocalFsStore) (bucket key : Text) (customer key_md5 : Option Text) (q : ObjectRow)
      (info : ObjectInfo) (content : Bytes)
      → find (is_version bucket key none) s.objects ≡ some q
      → get_object c s bucket key (latest_opts customer key_md5) ≡ ok (info, content)
      → (stored : Bytes) × (read_blob q.id s.blobs ≡ some stored)
        × (decrypt_body c s bucket key (object_info q) (latest_opts customer key_md5) stored
            ≡ ok content)
  unfolding get_object resolve_range
  read_source s bucket key customer key_md5 q info content found e =
      let opts = latest_opts customer key_md5 in
      let (row, there, e₀) =
        >>=-eq-ok (ok_or (find (is_version bucket key none) s.objects) _) _ e in
      let (_, _, e₁) = >>=-eq-ok (reject_if row.is_delete_marker _) _ e₀ in
      let (_, _, e₂) =
        >>=-eq-ok (check_conditions row opts) (λ _. answer s bucket key opts row) e₁ in
      let (stored, b, e₃) = >>=-eq-ok (ok_or (read_blob row.id s.blobs) _) _ e₂ in
      let (plaintext, d, e₄) =
        >>=-eq-ok (decrypt_body c s bucket key (object_info row) opts stored) _ e₃ in
      let same : plaintext ≡ content =
        sym (slice-all plaintext)
        ∙ ap (λ (t : ObjectInfo × Bytes). t.1)
            (ok-injective {a = (object_info row, slice plaintext (0, length plaintext))} e₄) in
      let this : q ≡ row = some-injective _ _ (sym found ∙ ok_or-eq-ok _ _ there) in
      (stored, rw this (ok_or-eq-ok _ _ b), rw this (d ∙ ap ok same))

module _ (c : Ciphers) (aead : IsAead c) where
  -- The new file decrypts to what the old one did.
  copied_decrypts :
      (s : LocalFsStore) (sb sk db dk v : Text) (nonce stored content plaintext : Bytes)
      (algorithm key_md5 : Option Text) (info info' : ObjectInfo) (opts : GetObjectOpts)
      → IsKnown algorithm
      → length nonce ≡ nonce_size
      → info.encryption ≡ parse_encryption_info algorithm key_md5
      → info'.encryption ≡ parse_encryption_info algorithm key_md5
      → info'.version_id ≡ client_version v
      → decrypt_body c s sb sk info opts stored ≡ ok plaintext
      → copy_content c s sb sk info algorithm db dk v nonce stored ≡ ok content
      → decrypt_body c s db dk info' opts content ≡ ok plaintext
  unfolding decrypt_body copy_content parse_encryption_info text_eq
  copied_decrypts s sb sk db dk v nonce stored content plaintext algorithm key_md5 info info' opts
        known n ie ie' iv d e =
      elim known [
        | inl plain ↦
            let e' = rw (plain, copy_content) at e in
            let d' = rw (decrypt_body, ie, plain, parse_encryption_info) at d in
            rw (decrypt_body, ie', plain, parse_encryption_info) (sym e' ∙ d')
        | inr (inl server) ↦
            let e' = rw (server, copy_content, text_eq) at e in
            let d' = rw (decrypt_body, ie, server, parse_encryption_info, text_eq) at d in
            let (opened, h, e₁) =
              >>=-eq-ok
                (map_err internal (
                  decrypt_aes256_gcm c
                    (derive_object_key c s sb sk (or_default (codes "null") info.version_id))
                    stored))
                _ e' in
            let same : opened ≡ plaintext = ok-injective (sym h ∙ d') in
            rw
              (
                decrypt_body,
                ie',
                server,
                parse_encryption_info,
                text_eq,
                iv,
                version_again v,
                decrypt-encrypt_aes256_gcm c aead nonce (derive_object_key c s db dk v) opened
                    content n (map_err-eq-ok internal _ e₁),
              )
              (ap ok same)
        | inr (inr customer) ↦
            let e' = rw (customer, copy_content, text_eq) at e in
            let d' = rw (decrypt_body, ie, customer, parse_encryption_info, text_eq) at d in
            rw (decrypt_body, ie', customer, parse_encryption_info, text_eq, ← ok-injective e') d'
      ]

  decrypts_same :
      (s : LocalFsStore) (bucket key : Text) (opts : GetObjectOpts) (i j : ObjectInfo)
      (x y content : Bytes)
      → i ≡ j
      → y ≡ x
      → decrypt_body c s bucket key j opts y ≡ ok content
      → decrypt_body c s bucket key i opts x ≡ ok content
  decrypts_same s bucket key opts i j x y content same_info same h = rw (same_info, ← same) h

  head_found :
      (s : LocalFsStore) (bucket key : Text) (q : ObjectRow) (info : ObjectInfo)
      → find (is_version bucket key none) s.objects ≡ some q
      → head_object s bucket key ≡ ok info
      → info ≡ object_info q
  unfolding head_object
  head_found s bucket key q info found e =
      let (row, there, e₀) =
        >>=-eq-ok (ok_or (find (is_version bucket key none) s.objects) _) _ e in
      let (_, _, e₁) =
        >>=-eq-ok (reject_if row.is_delete_marker _) (λ _. ok (object_info row)) e₀ in
      sym (ok-injective e₁)
      ∙ ap object_info (some-injective _ _ (sym (ok_or-eq-ok _ _ there) ∙ found))

  -- After a copy that succeeds, a read of the copy's latest version, without a range and
  -- conditions, gives what such a read of the source gave with the same customer key, whatever
  -- the source's encryption of the three: none, the server's key, the customer's key. The nonce
  -- has 12 bytes, and AES-256-GCM opens what it sealed and makes it 16 bytes longer.
  pub get-copy_object :
      (s s' : LocalFsStore) (object_id : Text) (nonce : Bytes) (now : Instant) (sb sk db dk : Text)
      (opts : CopyObjectOpts) (r : CopyObjectResponse) (customer key_md5 : Option Text)
      (q : ObjectRow) (info : ObjectInfo) (content : Bytes)
      → length nonce ≡ nonce_size
      → find (is_version sb sk none) s.objects ≡ some q
      → IsKnown q.encryption_algorithm
      → get_object c s sb sk (latest_opts customer key_md5) ≡ ok (info, content)
      → copy_object c s object_id nonce now sb sk db dk opts ≡ ok (s', r)
      → (info' : ObjectInfo) × (get_object c s' db dk (latest_opts customer key_md5)
          ≡ ok (info', content))
  unfolding copy_object object_info decrypt_body derive_object_key
  get-copy_object s s' object_id nonce now sb sk db dk opts r customer key_md5 q info content n
        found known got e =
      let (info₀, head, e₀) = >>=-eq-ok (head_object s sb sk) _ e in
      let (src, there, e₁) = >>=-eq-ok (ok_or (find (is_version sb sk none) s.objects) _) _ e₀ in
      let (status, _, e₂) = >>=-eq-ok (status_of s db) _ e₁ in
      let (read, b, e₃) = >>=-eq-ok (ok_or (read_blob src.id s.blobs) _) _ e₂ in
      let is_versioned = text_eq status (codes "Enabled") in
      let v = if is_versioned then object_id else codes "null" in
      let (written, w, e₄) =
        >>=-eq-ok (copy_content c s sb sk info₀ src.encryption_algorithm db dk v nonce read) _ e₃ in
      let here = ok_or-eq-ok _ _ there in
      let this : q ≡ src = some-injective _ _ (sym found ∙ here) in
      let named : info₀ ≡ object_info src = head_found s sb sk src info₀ here head in
      let (stored, b', d) = read_source c s sb sk customer key_md5 src info content here got in
      let same : stored ≡ read = some-injective _ _ (sym b' ∙ ok_or-eq-ok _ _ b) in
      let decrypts : decrypt_body c s sb sk info₀ (latest_opts customer key_md5) read ≡ ok content =
        decrypts_same s sb sk (latest_opts customer key_md5) info₀ (object_info src) read stored
          content named same d in
      let row = copied_row info₀ src object_id v db dk now opts in
      let room = make_room is_versioned db dk s.objects in
      let after = record s {
        objects = room ++ row ∷ [];
        blobs = write_blob object_id written s.blobs;
      } in
      let result : after ≡ s' =
        ap (λ (t : LocalFsStore × CopyObjectResponse). t.0) (ok-injective e₄) in
      (
        object_info row,
        subst
            (λ (t : LocalFsStore).
              get_object c t db dk (latest_opts customer key_md5) ≡ ok (object_info row, content))
            result
            (get_found c aead after db dk customer key_md5 row written content
              (find-append_new (λ (t : ObjectRow). t) (is_version db dk none) room row
                (room_has_no_latest is_versioned db dk s.objects)
                (rw (text_eq_self db, text_eq_self dk) refl))
              refl (read-write_blob object_id written s.blobs)
              (copied_decrypts s sb sk db dk v nonce read written content src.encryption_algorithm
                src.encryption_key_md5 info₀ (object_info row) (latest_opts customer key_md5)
                (subst (λ (t : ObjectRow). IsKnown t.encryption_algorithm) this known) n
                (ap (λ (t : ObjectInfo). t.encryption) named) refl refl decrypts w)),
      )
