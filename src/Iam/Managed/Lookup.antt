-- ===== src/Iam/Managed/Lookup.antt =====
-- What lookups of policies without an owner answer after they are created and deleted.
use strix.Base.{
  ◌≡◌, refl, sym, ◌∙◌, ap, inl, inr, true, false, not, List, [], ◌∷◌, ◌++◌, Option, Text, codes,
  text_eq, text_eq_iff, text_eq_self, any, find, update, remove, arith, Bool-cases, if◌then◌else◌,
  Result, ok, err, reject_if, >>=-eq-ok, ok-injective,
}
use strix.Policy.{Policy}
use strix.Iam.{ManagedRow, IamStore, IamError, policy_not_found}
use strix.Iam.Managed.{
  is_managed, managed_row, rewrite, document_of, create_policy, delete_policy, get_policy,
}

-- A policy is created, with a description or none, or one is deleted by its name.
pub data Operation : Type 0 where
  create : Policy → Option Text → Operation
  delete : Text → Operation

abbrev pub run : IamStore → Operation → Result IamError IamStore
run s (create p description) = ok (create_policy s p description)
run s (delete policy_name) = delete_policy s policy_name

-- What a name leads to after an operation, from what it led to before.
abbrev pub answer_after : Operation → Text → Result IamError Policy → Result IamError Policy
answer_after (create p _) name before = if text_eq p.name name then ok p else before
answer_after (delete gone) name before =
    if text_eq gone name then err (policy_not_found (codes "unknown")) else before

text_eq_like : (a b t : Text) → text_eq a b ≡ true → text_eq a t ≡ text_eq b t
text_eq_like a b t h = ap (λ u. text_eq u t) ((text_eq_iff a b).0 h)

find-update_other :
    (p : Policy) (description : Option Text) (name : Text) (rows : List ManagedRow)
    → text_eq p.name name ≡ false
    → find (is_managed name) (update (is_managed p.name) (rewrite p description) rows)
      ≡ find (is_managed name) rows
find-update_other p description name [] h = refl
find-update_other p description name (row ∷ rows) h =
    ground (arith, text_eq_like row.name p.name name, find-update_other p description name rows)

find-update_same :
    (p : Policy) (description : Option Text) (name : Text) (rows : List ManagedRow)
    → text_eq p.name name ≡ true
    → any (is_managed p.name) rows ≡ true
    → document_of (find (is_managed name) (update (is_managed p.name) (rewrite p description) rows))
      ≡ ok p
find-update_same p description name [] h k = cc
find-update_same p description name (row ∷ rows) h k =
    let like = (text_eq_iff p.name name).0 h in
    elim (Bool-cases (text_eq row.name p.name)) [
      | inl same ↦ rw (same, text_eq_like row.name p.name name same ∙ h) refl
      | inr other ↦
          let rest : any (is_managed p.name) rows ≡ true = ground arith in
          let unnamed : text_eq row.name name ≡ false = rw (← like) other in
          rw (other, unnamed) (find-update_same p description name rows h rest)
    ]

find-update :
    (p : Policy) (description : Option Text) (name : Text) (rows : List ManagedRow)
    → any (is_managed p.name) rows ≡ true
    → document_of (find (is_managed name) (update (is_managed p.name) (rewrite p description) rows))
      ≡ (if text_eq p.name name then ok p else document_of (find (is_managed name) rows))
find-update p description name rows h = elim (Bool-cases (text_eq p.name name)) [
  | inl same ↦ rw same (find-update_same p description name rows same h)
  | inr other ↦ rw (other, find-update_other p description name rows other) refl
]

find-append :
    (p : Policy) (description : Option Text) (name : Text) (rows : List ManagedRow)
    → any (is_managed p.name) rows ≡ false
    → document_of (find (is_managed name) (rows ++ managed_row p description ∷ []))
      ≡ (if text_eq p.name name then ok p else document_of (find (is_managed name) rows))
find-append p description name [] h = ground arith
find-append p description name (row ∷ rows) h =
    let other : text_eq row.name p.name ≡ false = ground arith in
    let rest : any (is_managed p.name) rows ≡ false = ground arith in
    let ih = find-append p description name rows rest in
    elim (Bool-cases (text_eq row.name name)) [
      | inl named ↦ elim (Bool-cases (text_eq p.name name)) [
        | inl same ↦
            let both : row.name ≡ p.name =
              (text_eq_iff row.name name).0 named ∙ sym ((text_eq_iff p.name name).0 same) in
            absurd (
              ground (
                arith,
                other,
                text_eq_like row.name name p.name named,
                text_eq_self p.name,
                (text_eq_iff p.name name).0 same,
                both,
              ))
        | inr unlike ↦ rw (named, unlike) refl
      ]
      | inr unnamed ↦ rw unnamed ih
    ]

find-remove :
    (gone name : Text) (rows : List ManagedRow)
    → document_of (find (is_managed name) (remove (is_managed gone) rows)) ≡ (
        if text_eq gone name
        then err (policy_not_found (codes "unknown"))
        else document_of (find (is_managed name) rows))
find-remove gone name [] = ground arith
find-remove gone name (row ∷ rows) =
    let ih = find-remove gone name rows in
    elim (Bool-cases (text_eq row.name gone)) [
      | inl same ↦
          let like = text_eq_like row.name gone name same in
          rw (same, like)
            (elim (Bool-cases (text_eq gone name)) [
              | inl t ↦ rw t (ih ∙ rw t refl)
              | inr t ↦ rw t (ih ∙ rw t refl)
            ])
      | inr other ↦ elim (Bool-cases (text_eq row.name name)) [
        | inl named ↦
            let unlike : text_eq gone name ≡ false = elim (Bool-cases (text_eq gone name)) [
              | inl t ↦
                  let like : text_eq row.name gone ≡ text_eq row.name name =
                    ap (text_eq row.name) ((text_eq_iff gone name).0 t) in
                  absurd (ground arith)
              | inr t ↦ t
            ] in
            rw (other, named, unlike) refl
        | inr unnamed ↦ rw (other, unnamed) ih
      ]
    ]

-- After a policy without an owner is created, its name leads to it, whatever the name led to
-- before; after one is deleted with success, its name leads to none; and both leave alone what
-- every other name leads to.
pub get_policy-run :
    (s s' : IamStore) (operation : Operation) (name : Text)
    → run s operation ≡ ok s'
    → get_policy s' name ≡ answer_after operation name (get_policy s name)
unfolding get_policy create_policy delete_policy
get_policy-run s s' (create p description) name e =
    rw (← ok-injective e) (elim (Bool-cases (any (is_managed p.name) s.policies)) [
      | inl there ↦ rw there (find-update p description name s.policies there)
      | inr fresh ↦ rw fresh (find-append p description name s.policies fresh)
    ])
get_policy-run s s' (delete gone) name e =
    let (_, _, e₁) = >>=-eq-ok (reject_if (not (any (is_managed gone) s.policies)) _) _ e in
    rw (← ok-injective e₁) (find-remove gone name s.policies)
