-- ===== src/Policy/Evaluate.antt =====
-- What the evaluation of a policy answers, by the patterns of its statements.
use mathlib.Core.List.{Memᴰ}
use strix.Base.{
  ◌≡◌, refl, sym, ◌↔◌, inl, inr, Bool, true, false, ◌||◌, List, Text, codes, any, text_eq,
  text_eq_sound, or_iff, and_iff,
}
use strix.Wildcard.{matches_wildcard}
use strix.Wildcard.Glob.{Glob}
use strix.Wildcard.Correct.{matches_wildcard_iff}
use strix.Effect.Verdict.{Verdict, evaluate_loop-Verdict, Verdict-unique, any_sound, any_complete}
use strix.Action
use strix.Action.{Action}
use strix.Resource
use strix.Resource.{Resource}
use strix.Policy.{PolicyStatement, Policy, matches, matches_action, matches_resource, evaluate}

-- One of the patterns matches the text.
abbrev pub Covers : List Text → Text → Type 0
Covers patterns text = (p : Text) × Memᴰ p patterns × Glob p text

-- The statement has a pattern for the action and one for the resource.
abbrev pub Applies : PolicyStatement → Action → Resource → Type 0
Applies s action resource =
    Covers s.actions (Action.to_text action) × Covers s.resources (Resource.to_text resource)

-- A test of a pattern that accepts only what the pattern matches, and all of it.
pub any-Covers :
    (test : Text → Bool) (text : Text) (patterns : List Text)
    → ((p : Text) → (test p ≡ true) ↔ Glob p text)
    → (any test patterns ≡ true) ↔ Covers patterns text
any-Covers test text patterns h = (
  λ t. let (p, m, e) = any_sound test patterns t in (p, m, (h p).0 e),
  λ (p, m, g). any_complete test m ((h p).1 g),
)

lone_star : (v : Text) → matches_wildcard (codes "*") v ≡ true
unfolding matches_wildcard
lone_star v = refl

s3_star : (action : Action) → matches_wildcard (codes "s3:*") (Action.to_text action) ≡ true
unfolding matches_wildcard Action.to_text
s3_star Action.create_bucket = refl
s3_star _ = refl

-- The two tests before the table are shortcuts: the table gives the same answer.
or_redundant : (t m : Bool) → (t ≡ true → m ≡ true) → (t || m) ≡ m
or_redundant true m h = sym (h refl)
or_redundant false m h = refl

pub action_pattern_iff :
    (action : Action) (p : Text)
    → ((text_eq p (codes "*")
          || text_eq p (codes "s3:*")
          || matches_wildcard p (Action.to_text action))
        ≡ true)
      ↔ Glob p (Action.to_text action)
action_pattern_iff action p =
    let text = Action.to_text action in
    rw
      (or_redundant (text_eq p (codes "*") || text_eq p (codes "s3:*")) (matches_wildcard p text)
        (λ h. elim ((or_iff _ _).0 h) [
          | inl e ↦ rw (text_eq_sound p (codes "*") e) (lone_star text)
          | inr e ↦ rw (text_eq_sound p (codes "s3:*") e) (s3_star action)
        ]))
      (matches_wildcard_iff p text)

pub resource_pattern_iff :
    (text : Text) (p : Text)
    → ((text_eq p (codes "*") || matches_wildcard p text) ≡ true) ↔ Glob p text
resource_pattern_iff text p =
    rw
      (or_redundant (text_eq p (codes "*")) (matches_wildcard p text)
        (λ e. rw (text_eq_sound p (codes "*") e) (lone_star text)))
      (matches_wildcard_iff p text)

matches_iff :
    (s : PolicyStatement) (action : Action) (resource : Resource)
    → (matches s action resource ≡ true) ↔ Applies s action resource
unfolding matches
matches_iff s action resource =
    let (a₁, a₂) = any-Covers _ _ s.actions (action_pattern_iff action) in
    let (r₁, r₂) = any-Covers _ _ s.resources (resource_pattern_iff (Resource.to_text resource)) in
    let (both, back) = and_iff (matches_action s action) (matches_resource s resource) in
    (λ h. (a₁ (both h).0, r₁ (both h).1), λ (a, r). back (a₂ a, r₂ r))

-- `Policy::evaluate` answers `Deny` exactly when a statement that denies applies, `Allow`
-- exactly when none denies and one that allows applies, and nothing exactly when no statement
-- applies; a statement applies when a pattern of its actions and one of its resources match.
pub evaluate-Verdict :
    (p : Policy) (action : Action) (resource : Resource)
    → Verdict
        (λ s. Applies s action resource)
        (λ (s : PolicyStatement). s.effect)
        p.statements
        (evaluate p action resource)
unfolding evaluate
evaluate-Verdict p action resource =
    evaluate_loop-Verdict (λ s. matches s action resource) (λ (s : PolicyStatement). s.effect) _
      (λ s. matches_iff s action resource) p.statements

-- Two policies with the same statements, in whatever order and however often each stands there,
-- answer alike.
pub evaluate_order :
    (p q : Policy) (action : Action) (resource : Resource)
    → ((s : PolicyStatement) → Memᴰ s p.statements ↔ Memᴰ s q.statements)
    → evaluate p action resource ≡ evaluate q action resource
evaluate_order p q action resource same =
    Verdict-unique p.statements q.statements same (evaluate-Verdict p action resource)
      (evaluate-Verdict q action resource)
