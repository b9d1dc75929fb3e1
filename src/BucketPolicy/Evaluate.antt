-- ===== src/BucketPolicy/Evaluate.antt =====
-- What the evaluation of a bucket policy answers.
use strix.Base.{◌≡◌, ◌↔◌, Bool, true, ◌&&◌, arith}
use strix.Effect.Verdict.{Verdict, evaluate_loop-Verdict}
use strix.Action
use strix.Action.{Action}
use strix.Resource
use strix.Resource.{Resource, arn_prefix}
use strix.Policy.Evaluate.{Covers, any-Covers, action_pattern_iff, resource_pattern_iff}
use strix.Condition.Context.{ConditionContext, Externals}
use strix.BucketPolicy

module _ (x : Externals) (principal : BucketPolicy.Principal) (action : Action)
    (resource : Resource) (context : ConditionContext) where
  open x use {Float}

  -- The statement is for the principal, has a pattern for the action and one for the resource, and
  -- its condition holds.
  abbrev pub Applies : BucketPolicy.BucketPolicyStatement Float → Type 0
  Applies s =
      (BucketPolicy.matches_principal s.principal principal ≡ true)
      × Covers (BucketPolicy.action_list s.actions) (Action.to_text action)
      × Covers (BucketPolicy.resource_list s.resources) (Resource.to_text resource)
      × (BucketPolicy.matches_condition x s.condition context ≡ true)

  and₄_iff :
      (a b c d : Bool)
      → ((a && b && c && d) ≡ true) ↔ ((a ≡ true) × (b ≡ true) × (c ≡ true) × (d ≡ true))
  and₄_iff a b c d = ground arith

  matches_with_context_iff :
      (s : BucketPolicy.BucketPolicyStatement Float)
      → (BucketPolicy.matches_with_context x s principal action resource context ≡ true) ↔ Applies s
  unfolding BucketPolicy.matches_with_context BucketPolicy.matches_action
      BucketPolicy.matches_resource
  matches_with_context_iff s =
      let (a₁, a₂) =
        any-Covers _ _ (BucketPolicy.action_list s.actions) (action_pattern_iff action) in
      let (r₁, r₂) =
        any-Covers _ _ (BucketPolicy.resource_list s.resources)
          (resource_pattern_iff (Resource.to_text resource)) in
      let (all, back) = and₄_iff _ _ _ _ in
      (λ h. let (p, a, r, c) = all h in (p, a₁ a, r₁ r, c), λ (p, a, r, c). back (p, a₂ a, r₂ r, c))

  -- `BucketPolicy::evaluate_with_context` answers `Deny` exactly when a statement that denies
  -- applies, `Allow` exactly when none denies and one that allows applies, and nothing exactly
  -- when no statement applies.
  pub evaluate_with_context-Verdict :
      (p : BucketPolicy.BucketPolicy Float)
      → Verdict Applies
          (λ (s : BucketPolicy.BucketPolicyStatement Float). s.effect)
          p.statements
          (BucketPolicy.evaluate_with_context x p principal action resource context)
  unfolding BucketPolicy.evaluate_with_context
  evaluate_with_context-Verdict p =
      evaluate_loop-Verdict _ (λ (s : BucketPolicy.BucketPolicyStatement Float). s.effect) Applies
        matches_with_context_iff p.statements
