-- ===== src/Iam/Managed.antt =====
-- The policies that have no owner: crates/strix-iam/src/store.rs.
pub mod Lookup
use strix.Base.{
  Bool, not, List, [], ◌∷◌, ◌++◌, Option, none, some, Text, codes, text_eq, any, find, update,
  remove, if◌then◌else◌, Result, ok, err, reject_if, ◌>>◌, ◌>>=◌,
}
use strix.Policy.{Policy}
use strix.Iam.{ManagedRow, IamStore, IamError, policy_not_found, database, text_leb}

abbrev pub is_managed : Text → ManagedRow → Bool
is_managed name row = text_eq row.name name

abbrev pub managed_row : Policy → Option Text → ManagedRow
managed_row p description = record { name = p.name; description = description; document = some p }

-- `ON CONFLICT(name) DO UPDATE SET`
abbrev pub rewrite : Policy → Option Text → ManagedRow → ManagedRow
rewrite p description row = record row { description = description; document = some p }

unfoldable pub create_policy : IamStore → Policy → Option Text → IamStore
create_policy s p description = record s {
  policies =
      if any (is_managed p.name) s.policies
      then update (is_managed p.name) (rewrite p description) s.policies
      else s.policies ++ managed_row p description ∷ [];
}

unfoldable pub delete_policy : IamStore → Text → Result IamError IamStore
delete_policy s policy_name = do
  reject_if (not (any (is_managed policy_name) s.policies)) (policy_not_found policy_name)
  ok (record s { policies = remove (is_managed policy_name) s.policies })

-- What a lookup answers with a row.
abbrev pub document_of : Option ManagedRow → Result IamError Policy
document_of none = err (policy_not_found (codes "unknown"))
document_of (some row) = elim row.document [ none ↦ err database | some p ↦ ok p ]

unfoldable pub get_policy : IamStore → Text → Result IamError Policy
get_policy s policy_name = document_of (find (is_managed policy_name) s.policies)

-- `ORDER BY name`
unfoldable pub insert_row : ManagedRow → List ManagedRow → List ManagedRow
unfolding text_leb
insert_row row [] = row ∷ []
insert_row row (next ∷ rows) =
    let rest = insert_row row rows in
    if text_leb row.name next.name then row ∷ next ∷ rows else next ∷ rest

unfoldable pub order_rows : List ManagedRow → List ManagedRow
unfolding insert_row
order_rows [] = []
order_rows (row ∷ rows) = insert_row row (order_rows rows)

-- The documents that are no policies are left out.
unfoldable pub readable : List ManagedRow → List (Policy × Option Text)
readable [] = []
readable (row ∷ rows) =
    let rest = readable rows in
    elim row.document [ none ↦ rest | some p ↦ (p, row.description) ∷ rest ]

unfoldable pub list_policies : IamStore → List (Policy × Option Text)
unfolding order_rows readable
list_policies s = readable (order_rows s.policies)
