-- ===== src/Examples/Managed.antt =====
-- A policy without an owner is written over and another is deleted.
use strix.Base.{◌≡◌, refl, [], ◌∷◌, none, some, codes, text_eq, ok}
use strix.Policy.{Policy, new, admin_policy, read_only_policy}
use strix.Iam.{IamStore}
use strix.Iam.Admin.References.Reachable.{new_store}
use strix.Iam.Managed.{managed_row, delete_policy, get_policy}
use strix.Iam.Managed.Lookup.{delete, answer_after, get_policy-run}

abbrev reader : Policy
reader = read_only_policy

abbrev both : IamStore
both = record (new_store (codes "AKROOT") (codes "root's secret")) {
  policies = managed_row admin_policy none ∷ managed_row reader (some (codes "reads")) ∷ [];
}

abbrev one : IamStore
one = record both { policies = managed_row reader (some (codes "reads")) ∷ [] }

deleting : delete_policy both admin_policy.name ≡ ok one
unfolding delete_policy text_eq admin_policy read_only_policy new
deleting = refl

get_policy-run_example :
    get_policy one reader.name
    ≡ answer_after (delete admin_policy.name) reader.name (get_policy both reader.name)
get_policy-run_example = get_policy-run both one (delete admin_policy.name) reader.name deleting
