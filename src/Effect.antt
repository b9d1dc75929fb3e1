-- ===== src/Effect.antt =====
-- Effects of policy statements, and the evaluation loop that `Policy::evaluate` and
-- `BucketPolicy::evaluate_with_context` of crates/strix-iam/src/policy.rs share.
pub mod Verdict
use strix.Base.{Bool, true, false, List, [], ◌∷◌, Option, none, some}

pub data Effect : Type 0 where
  allow deny : Effect

-- `for stmt in &self.statements`, with `result` as the loop's variable. A matching `Deny` returns.
unfoldable pub evaluate_loop {ℓ} :
    {S : Type ℓ} → (S → Bool) → (S → Effect) → List S → Option Effect → Option Effect
evaluate_loop matches effect [] result = result
evaluate_loop matches effect (stmt ∷ rest) result = elim (matches stmt) [
  | true ↦ elim (effect stmt) [
    | deny ↦ some deny
    | allow ↦ evaluate_loop matches effect rest (some allow)
  ]
  | false ↦ evaluate_loop matches effect rest result
]
