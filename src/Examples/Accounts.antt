-- ===== src/Examples/Accounts.antt =====
-- Users, groups and their policies.
use strix.Base.{◌≡◌, refl, ◌≢◌, ◌&&◌, ◌||◌, false, not, [], ◌∷◌, some, Text, codes, text_eq, ok}
use strix.Effect.{allow, deny}
use strix.Action
use strix.Iam.{IamStore, active, is_root_name}
use strix.Iam.Authorize.{is_authorized, is_authorized_detailed}
use strix.Iam.Authorize.Rule.{some_answers, all_policies, is_authorized_lem}
use strix.Iam.Authorize.Same.{deciding_effect, is_authorized_detailed_lem}
use strix.Iam.Admin.{create_user, delete_user, attach_user_policy, has_user, get_user}
use strix.Iam.Admin.Deleted.{delete_user-denied, recreated_user-denied}
use strix.Iam.Admin.Attached.{attach_user_policy-deny, attach_user_policy-other}
use strix.Iam.Admin.References.Reachable
use strix.Iam.Admin.References.{IsConsistent}
use strix.Iam.Admin.References.Reachable.{new_store, Reach-IsConsistent}
use strix.Examples.Policies.{photo, reader, dog_reader, dog_reader_denies}

abbrev alice : Text
alice = codes "alice"

abbrev pub store : IamStore
store = record (new_store (codes "AKROOT") (codes "secret")) {
  users = record { username = alice; status = active; is_root = false } ∷ [];
  user_policies =
      record { owner = alice; policy_name = codes "reader"; document = some reader } ∷ [];
  groups = codes "staff" ∷ [];
}

is_authorized_lem_example : is_authorized store alice Action.get_object photo ≡ (
    is_root_name store alice
    || (not (some_answers Action.get_object photo deny (all_policies store alice))
        && some_answers Action.get_object photo allow (all_policies store alice)))
is_authorized_lem_example = is_authorized_lem store alice Action.get_object photo

is_authorized_detailed_lem_example :
    ((is_authorized_detailed store alice Action.get_object photo).allowed
      ≡ is_authorized store alice Action.get_object photo)
    × ((is_authorized_detailed store alice Action.get_object photo).effect
        ≡ deciding_effect
            (is_root_name store alice)
            (some_answers Action.get_object photo deny (all_policies store alice))
            (some_answers Action.get_object photo allow (all_policies store alice)))
is_authorized_detailed_lem_example = is_authorized_detailed_lem store alice Action.get_object photo

abbrev without_alice : IamStore
without_alice = record store { users = []; user_policies = [] }

alice_deleted : delete_user store alice ≡ ok without_alice
unfolding delete_user has_user is_root_name text_eq
alice_deleted = refl

delete_user-denied_example : is_authorized without_alice alice Action.get_object photo ≡ false
delete_user-denied_example =
    delete_user-denied store without_alice alice Action.get_object photo alice_deleted

abbrev alice_again : IamStore
alice_again = record without_alice {
  users = record { username = alice; status = active; is_root = false } ∷ [];
}

alice_created : create_user without_alice alice ≡ ok alice_again
unfolding create_user has_user is_root_name text_eq
alice_created = refl

recreated_user-denied_example : is_authorized alice_again alice Action.get_object photo ≡ false
recreated_user-denied_example =
    recreated_user-denied store without_alice alice_again alice Action.get_object photo
      alice_deleted alice_created

abbrev with_dogs : IamStore
with_dogs = record store {
  user_policies =
      record { owner = alice; policy_name = codes "reader"; document = some reader }
      ∷ record { owner = alice; policy_name = codes "dogs"; document = some dog_reader }
      ∷ [];
}

dogs_attached : attach_user_policy store alice dog_reader ≡ ok with_dogs
unfolding attach_user_policy is_root_name get_user text_eq
dogs_attached = refl

ordinary : is_root_name store alice ≡ false
unfolding is_root_name text_eq
ordinary = refl

attach_user_policy-deny_example : is_authorized with_dogs alice Action.get_object photo ≡ false
attach_user_policy-deny_example =
    attach_user_policy-deny store with_dogs alice dog_reader Action.get_object photo ordinary
      dogs_attached dog_reader_denies

bob_is_not_alice : codes "bob" ≢ alice
bob_is_not_alice e = cc

attach_user_policy-other_example :
    is_authorized with_dogs (codes "bob") Action.get_object photo
    ≡ is_authorized store (codes "bob") Action.get_object photo
attach_user_policy-other_example =
    attach_user_policy-other store with_dogs alice (codes "bob") dog_reader Action.get_object photo
      bob_is_not_alice dogs_attached

abbrev one_user : IamStore
one_user = record (new_store (codes "AKROOT") (codes "secret")) {
  users = record { username = alice; status = active; is_root = false } ∷ [];
}

abbrev one_reader : IamStore
one_reader = record one_user {
  user_policies =
      record { owner = alice; policy_name = codes "reader"; document = some reader } ∷ [];
}

first_user : create_user (new_store (codes "AKROOT") (codes "secret")) alice ≡ ok one_user
unfolding create_user has_user is_root_name text_eq
first_user = refl

first_policy : attach_user_policy one_user alice reader ≡ ok one_reader
unfolding attach_user_policy is_root_name get_user text_eq
first_policy = refl

Reach-IsConsistent_example : IsConsistent one_reader
Reach-IsConsistent_example = Reach-IsConsistent (codes "AKROOT") (codes "secret") (
    Reachable.next (Reachable.next Reachable.here (Reachable.user_created alice first_user))
      (Reachable.policy_attached alice reader first_policy))
