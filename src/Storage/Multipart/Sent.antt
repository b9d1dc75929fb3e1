-- ===== src/Storage/Multipart/Sent.antt =====
-- What the files of an upload's parts hold.
use strix.Base.{
  ℕ, ◌≡◌, refl, sym, ap, ◌∙◌, ◌⊎◌, inl, inr, true, false, ◌&&◌, List, [], ◌∷◌, ◌++◌, Option, none,
  some, Text, text_eq, text_eq_iff, text_eq_self, arith, read, find, read-found, ◌==◌,
  if◌then◌else◌, Bool-cases, Result, ok, ok_or, >>=-eq-ok, ok_or-eq-ok, ok-injective,
}
use strix.Crypto.{Bytes, Ciphers}
use strix.Storage.Tables.{PartFile, LocalFsStore, StorageError, Instant}
use strix.Storage.Put.{PutObjectOpts, PutObjectResponse, put_object}
use strix.Storage.Put.Inversion.{put_object_inv}
use strix.Storage.Multipart.{
  MultipartUpload, PartInfo, CompletePart, is_part_file, write_part_file, write_chunks, record_part,
  store_part, upload_part, read_parts,
}

abbrev pub content_of : PartFile → Bytes
content_of f = f.content

-- The content of a part's file.
abbrev pub file : Text → ℕ → LocalFsStore → Option Bytes
file id n s = read content_of (is_part_file id n) s.part_files

-- The part that was sent last under a number, where the log has the newest first.
unfoldable pub latest : ℕ → List (ℕ × Bytes) → Option Bytes
latest n [] = none
latest n ((m, content) ∷ log) = if m == n then some content else latest n log

-- The parts of a list, one after the other, if all were sent.
unfoldable pub assemble : List (ℕ × Bytes) → List CompletePart → Option Bytes
unfolding latest
assemble log [] = some []
assemble log (p ∷ parts) = elim (latest p.part_number log) [
  | none ↦ none
  | some content ↦ elim (assemble log parts) [ none ↦ none | some rest ↦ some (content ++ rest) ]
]

-- Uploads of an upload's parts that succeeded, among puts and uploads of other parts.
pub data Sends (c : Ciphers) (id : Text) (s : LocalFsStore)
    : List (ℕ × Bytes) → LocalFsStore → Type 0 where
  start : Sends c id s [] s
  sent :
      {log : List (ℕ × Bytes)} {t t' : LocalFsStore}
      → Sends c id s log t
      → (upload : MultipartUpload) (blob_id : Text) (now : Instant) (n : ℕ)
        (body : List (Result StorageError Bytes)) (info : PartInfo)
      → upload.upload_id ≡ id
      → upload_part c t upload blob_id now n body ≡ (t', ok info)
      → Sends c id s ((n, (write_chunks body).0) ∷ log) t'
  other_part :
      {log : List (ℕ × Bytes)} {t t' : LocalFsStore}
      → Sends c id s log t
      → (upload : MultipartUpload) (blob_id : Text) (now : Instant) (n : ℕ)
        (body : List (Result StorageError Bytes)) (answer : Result StorageError PartInfo)
      → text_eq upload.upload_id id ≡ false
      → upload_part c t upload blob_id now n body ≡ (t', answer)
      → Sends c id s log t'
  object_put :
      {log : List (ℕ × Bytes)} {t t' : LocalFsStore}
      → Sends c id s log t
      → (object_id : Text) (nonce : Bytes) (now : Instant) (bucket key : Text)
        (body : List (Result StorageError Bytes)) (opts : PutObjectOpts) (r : PutObjectResponse)
      → put_object c t object_id nonce now bucket key body opts ≡ ok (t', r)
      → Sends c id s log t'

same_number : (m n : ℕ) → m == n ≡ true → m ≡ n
same_number m n h = ground arith

-- A file that is written holds what was written.
pub written :
    (id : Text) (n : ℕ) (x : Bytes) (files : List PartFile)
    → read content_of (is_part_file id n) (write_part_file id n x files) ≡ some x
unfolding write_part_file
written id n x [] = rw (text_eq_self id) (ground arith)
written id n x (f ∷ files) = ground (arith, written id n x files)

-- The other files are as before.
not_written :
    (id id' : Text) (n m : ℕ) (x : Bytes) (files : List PartFile)
    → text_eq id' id && m == n ≡ false
    → read content_of (is_part_file id n) (write_part_file id' m x files)
      ≡ read content_of (is_part_file id n) files
unfolding write_part_file
not_written id id' n m x [] h = rw h refl
not_written id id' n m x (f ∷ files) h = ground (
  arith,
  text_eq_iff f.upload_id id,
  text_eq_iff f.upload_id id',
  text_eq_iff id' id,
  not_written id id' n m x files h,
)

module _ (c : Ciphers) where
  -- The files after an upload of a part that succeeded.
  part_files_sent :
      (t t' : LocalFsStore) (upload : MultipartUpload) (blob_id : Text) (now : Instant) (n : ℕ)
      (body : List (Result StorageError Bytes)) (info : PartInfo)
      → upload_part c t upload blob_id now n body ≡ (t', ok info)
      → t'.part_files ≡ write_part_file upload.upload_id n (write_chunks body).0 t.part_files
  unfolding upload_part store_part record_part
  part_files_sent t t' upload blob_id now n body info e = ground arith

  -- The files after any upload of a part.
  part_files_after :
      (t t' : LocalFsStore) (upload : MultipartUpload) (blob_id : Text) (now : Instant) (n : ℕ)
      (body : List (Result StorageError Bytes)) (answer : Result StorageError PartInfo)
      → upload_part c t upload blob_id now n body ≡ (t', answer)
      → (t'.part_files ≡ t.part_files)
        ⊎ (t'.part_files ≡ write_part_file upload.upload_id n (write_chunks body).0 t.part_files)
  unfolding upload_part store_part record_part
  part_files_after t t' upload blob_id now n body answer e = ground arith

  -- The files hold what was sent last.
  pub file-latest :
      {id : Text} {s t : LocalFsStore} {log : List (ℕ × Bytes)}
      → Sends c id s log t
      → (n : ℕ) → file id n s ≡ none
      → file id n t ≡ latest n log
  unfolding latest
  file-latest start n h = h
  file-latest {id} (sent {log} {t} {t'} before upload blob_id now m body info same e) n h =
      rw (part_files_sent t t' upload blob_id now m body info e, same)
        (elim (Bool-cases (m == n)) [
          | inl here ↦ rw here (rw (same_number m n here) (written id n _ t.part_files))
          | inr there ↦ rw there (
              not_written id id n m _ t.part_files (rw (there) (ground arith))
              ∙ file-latest before n h)
        ])
  file-latest {id} (other_part {log} {t} {t'} before upload blob_id now m body answer other e) n h =
      elim (part_files_after t t' upload blob_id now m body answer e) [
        | inl kept ↦ rw kept (file-latest before n h)
        | inr written ↦ rw written (
            not_written id upload.upload_id n m _ t.part_files (rw other refl)
            ∙ file-latest before n h)
      ]
  file-latest {id} (object_put {log} {t} {t'} before object_id nonce now bucket key body opts r e) n
        h =
      let p = put_object_inv c t object_id nonce now bucket key body opts e in
      rw (← ap (λ (q : LocalFsStore). q.part_files) p.result) (file-latest before n h)

  -- What is read of the parts is what was sent last of each.
  pub read_parts-assemble :
      {id : Text} {s t : LocalFsStore} {log : List (ℕ × Bytes)}
      → Sends c id s log t
      → ((n : ℕ) → file id n s ≡ none)
      → (parts : List CompletePart) {content : Bytes}
      → read_parts t.part_files id parts ≡ ok content
      → assemble log parts ≡ some content
  unfolding read_parts assemble
  read_parts-assemble before fresh [] e = ap some (ok-injective e)
  read_parts-assemble {id} {t} before fresh (p ∷ parts) e =
      let n = p.part_number in
      let (f, found, e₁) = >>=-eq-ok (ok_or (find (is_part_file id n) t.part_files) _) _ e in
      let (rest, others, e₂) = >>=-eq-ok (read_parts t.part_files id parts) _ e₁ in
      let here : latest n _ ≡ some f.content =
        sym (file-latest before n (fresh n))
        ∙ read-found content_of (is_part_file id n) t.part_files f (ok_or-eq-ok _ _ found) in
      rw (assemble, here, read_parts-assemble before fresh parts others) (ap some (ok-injective e₂))
