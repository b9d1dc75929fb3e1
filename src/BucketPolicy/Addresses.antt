-- ===== src/BucketPolicy/Addresses.antt =====
-- Statements with a condition on the address of a request.
use mathlib.Core.List.{Memᴰ}
use strix.Base.{
  ◌≡◌, refl, Bool, false, ◌&&◌, List, [], ◌∷◌, Option, none, some, Text, codes, text_eq, arith,
}
use strix.Effect.{Effect, evaluate_loop}
use strix.Action.{Action}
use strix.Resource.{Resource}
use strix.Condition.{evaluate_condition, matches_operator}
use strix.Condition.Context.{Externals, default_context}
use strix.Condition.Value.{Json, end, field, object, text, as_str}
use strix.BucketPolicy

-- `{"IpAddress": {key: cidr}}`
abbrev pub address_condition : {F : Type 0} → Text → Text → Json F
address_condition key cidr =
    object (field (codes "IpAddress") (object (field key (text cidr) end)) end)

-- No statement that matches leaves the loop's result as it is.
loop_unmatched {ℓ} :
    {S : Type ℓ} (matches : S → Bool) (effect : S → Effect) (ss : List S) (result : Option Effect)
    → ((s : S) → Memᴰ s ss → matches s ≡ false)
    → evaluate_loop matches effect ss result ≡ result
unfolding evaluate_loop
loop_unmatched matches effect [] result h = refl
loop_unmatched matches effect (s ∷ ss) result h =
    rw (evaluate_loop, h s (Memᴰ.head refl))
      (loop_unmatched matches effect ss result (λ t m. h t (Memᴰ.tail m)))

and_false : (a b c : Bool) → (a && b && c && false) ≡ false
and_false a b c = ground arith

module _ (x : Externals) where
  open x use {Float}

  unaddressed :
      (key cidr : Text) → evaluate_condition x (address_condition key cidr) default_context ≡ false
  unfolding evaluate_condition matches_operator text_eq as_str
  unaddressed key cidr = refl

  -- A bucket policy all of whose statements have as their condition an `IpAddress` operator
  -- with one key and a text never answers in `BucketPolicy::evaluate`, whatever their effects
  -- and whoever asks.
  pub evaluate-unaddressed :
      (p : BucketPolicy.BucketPolicy Float) (principal : BucketPolicy.Principal) (action : Action)
      (resource : Resource)
      → ((s : BucketPolicy.BucketPolicyStatement Float)
          → Memᴰ s p.statements
          → (key : Text) × (cidr : Text) × (s.condition ≡ some (address_condition key cidr)))
      → BucketPolicy.evaluate x p principal action resource ≡ none
  unfolding BucketPolicy.evaluate BucketPolicy.evaluate_with_context
      BucketPolicy.matches_with_context
  evaluate-unaddressed p principal action resource h =
      loop_unmatched _ (λ (s : BucketPolicy.BucketPolicyStatement Float). s.effect) p.statements
        none
        (λ s m.
          let (key, cidr, e) = h s m in
          rw (e, unaddressed key cidr)
            (and_false (BucketPolicy.matches_principal s.principal principal)
              (BucketPolicy.matches_action s.actions action)
              (BucketPolicy.matches_resource s.resources resource)))
