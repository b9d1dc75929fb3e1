-- ===== src/Examples/Latest.antt =====
-- The latest versions of the photo.
use strix.Base.{◌≤◌, Bool, [], ◌∷◌, none, codes, arith}
use strix.Storage.Tables.{ObjectRow, is_version}
use strix.Storage.Latest.{count, IsLatestUnique, put_object-IsLatestUnique}
use strix.Storage.Latest.Reachable.{here, next, object_put, object_deleted, Reach-IsLatestUnique}
use strix.Examples.Objects.{
  ciphers, nonce, photos, cat, opts, store, body, after_put, answer, put, newest, after_delete,
  deleted,
}

count_one : (test : ObjectRow → Bool) (r : ObjectRow) → count test (r ∷ []) ≤ 1
unfolding count
count_one test r = ground arith

store-IsLatestUnique : IsLatestUnique store
store-IsLatestUnique b k = count_one (is_version b k none) _

pub after_put-IsLatestUnique : IsLatestUnique after_put
after_put-IsLatestUnique =
    put_object-IsLatestUnique ciphers store after_put (codes "v2") nonce 2000 photos cat body opts
      answer put store-IsLatestUnique

Reach-IsLatestUnique_example : IsLatestUnique after_delete
Reach-IsLatestUnique_example =
    Reach-IsLatestUnique ciphers newest
      (next (next here (object_put (codes "v2") nonce 2000 photos cat body opts answer put))
        (object_deleted (codes "v3") 3000 photos cat deleted))
      store-IsLatestUnique
