-- ===== src/Examples/Keys.antt =====
-- Alice has an access key and temporary credentials, and is deactivated.
use strix.Base.{◌≡◌, ◌≢◌, ◌≤◌, refl, false, [], ◌∷◌, some, Text, codes, text_eq, starts_with, ok}
use strix.Iam.{active, inactive, IamStore, is_root_name}
use strix.Iam.Admin.{create_user}
use strix.Iam.Admin.References.Reachable.{new_store}
use strix.Iam.Keys.{new_key, of_row, new_temporary, update_user_status, create_access_key}
use strix.Iam.Keys.Bounds
use strix.Iam.Keys.Bounds.{key_count, Reach-at_most_two}
use strix.Gateway.{is_temporary}
use strix.Gateway.IamAuth.{get_secret_key}
use strix.Gateway.Deactivated.{key_owner, get_secret_key-deactivated}

abbrev alice : Text
alice = codes "alice"

abbrev empty : IamStore
empty = new_store (codes "AKROOT") (codes "root's secret")

abbrev with_alice : IamStore
with_alice = record empty {
  users = record { username = alice; status = active; is_root = false } ∷ [];
}

abbrev with_key : IamStore
with_key = record with_alice {
  access_keys = new_key 1000 (codes "AKALICE") (codes "secret") alice ∷ [];
}

alice-created : create_user empty alice ≡ ok with_alice
unfolding create_user is_root_name text_eq
alice-created = refl

key_created :
    create_access_key with_alice 1000 (codes "AKALICE") (codes "secret") alice
    ≡ ok (
      with_key,
      of_row (some (codes "secret")) (new_key 1000 (codes "AKALICE") (codes "secret") alice),
    )
unfolding create_access_key text_eq
key_created = refl

Reach-at_most_two_example : key_count alice with_key ≤ 2
Reach-at_most_two_example =
    Reach-at_most_two (λ t. t) (codes "AKROOT") (codes "root's secret") alice
      (Bounds.next (Bounds.next Bounds.here (Bounds.user_created alice alice-created)) (
        Bounds.key_created 1000 (codes "AKALICE") (codes "secret") alice
          (of_row (some (codes "secret")) (new_key 1000 (codes "AKALICE") (codes "secret") alice))
          key_created))

abbrev with_session : IamStore
with_session = record with_key {
  temporary_credentials =
      new_temporary (codes "ASIAALICE") (codes "passing") (codes "token") alice 9000 ∷ [];
}

abbrev deactivated : IamStore
deactivated = record with_session {
  users = record { username = alice; status = inactive; is_root = false } ∷ [];
}

alice-deactivated : update_user_status with_session alice inactive ≡ ok deactivated
unfolding update_user_status is_root_name text_eq
alice-deactivated = refl

no_root_key : text_eq (codes "ASIAALICE") (codes "AKROOT") ≡ false
unfolding text_eq
no_root_key = refl

alice_owns : key_owner deactivated 2000 (codes "ASIAALICE") ≡ some alice
unfolding key_owner is_temporary starts_with text_eq
alice_owns = refl

get_secret_key-deactivated_example :
    get_secret_key deactivated 2000 (codes "ASIAALICE") ≢ ok (codes "passing")
get_secret_key-deactivated_example =
    get_secret_key-deactivated with_session deactivated alice (codes "ASIAALICE") (codes "passing")
      2000 alice-deactivated no_root_key alice_owns
