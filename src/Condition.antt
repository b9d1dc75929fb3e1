-- ===== src/Condition.antt =====
-- The conditions of bucket policies in crates/strix-iam/src/policy.rs: `ConditionContext`,
-- `evaluate_condition` and `ip_matches_cidr`.
pub mod Context
pub mod Cidr
pub mod Value
use mathlib.Core.Option
use strix.Base.{
  ℕ, Bool, true, false, not, List, [], ◌∷◌, Option, none, some, Text, codes, text_eq, opt_text_eq,
  if◌then◌else◌, ◌||◌,
}
use strix.Wildcard.{matches_wildcard}
use strix.Condition.Context.{ConditionContext, Externals, get, bool_to_text}
use strix.Condition.Cidr.{ip_matches_cidr}
use strix.Condition.Value.{Json, Fields, end, field, as_object, as_str, as_bool, as_f64}

-- `if let (Some(a), Some(b)) = …` with the value for the other case.
abbrev both {ℓ κ} : {A : Type ℓ} {B : Type κ} → Bool → (A → B → Bool) → Option A → Option B → Bool
both other test (some a) (some b) = test a b
both other test _ _ = other

abbrev first_of_two {ℓ} : {A : Type ℓ} → Option A → Option A → Option A
first_of_two (some a) o = some a
first_of_two none o = o

is_none {ℓ} : {A : Type ℓ} → Option A → Bool
is_none none = true
is_none (some a) = false

bool_eq : Bool → Bool → Bool
bool_eq true b = b
bool_eq false b = not b

module _ (x : Externals) where
  open x use {Float, parse_float, near, less}

  -- The number that a condition expects, as a text or as a number.
  expected_number : Json Float → Option Float
  unfolding as_str as_f64
  expected_number expected =
      first_of_two (Option.bind (as_str expected) parse_float) (as_f64 expected)

  -- The operator "Bool": the texts "true" and "false" are compared with the context's value.
  bool_matches : Option Text → Option Text → Option Bool → Bool
  unfolding bool_to_text
  bool_matches actual (some s) _ = opt_text_eq actual (some s)
  bool_matches actual none (some b) = opt_text_eq actual (some (bool_to_text b))
  bool_matches actual none none = false

  -- One key of one operator, the `match operator.as_str()`. An unknown operator does not match.
  unfoldable pub matches_operator : Text → ConditionContext → Text → Json Float → Bool
  unfolding as_str as_bool expected_number bool_matches is_none bool_eq
  matches_operator operator context key expected =
      let actual = get x context key in
      let number = Option.bind actual parse_float in
      if text_eq operator (codes "StringEquals")
      then opt_text_eq actual (as_str expected)
      else if text_eq operator (codes "StringNotEquals")
      then not (opt_text_eq actual (as_str expected))
      else if text_eq operator (codes "StringLike")
      then both false (λ a pattern. matches_wildcard pattern a) actual (as_str expected)
      else if text_eq operator (codes "StringNotLike")
      then both true (λ a pattern. not (matches_wildcard pattern a)) actual (as_str expected)
      else if text_eq operator (codes "IpAddress")
      then both false (ip_matches_cidr x) context.source_ip (as_str expected)
      else if text_eq operator (codes "NotIpAddress")
      then both true (λ ip cidr. not (ip_matches_cidr x ip cidr)) context.source_ip
          (as_str expected)
      else if text_eq operator (codes "Bool")
      then bool_matches actual (as_str expected) (as_bool expected)
      else if text_eq operator (codes "NumericEquals")
      then both false near number (expected_number expected)
      else if text_eq operator (codes "NumericLessThan")
      then both false less number (expected_number expected)
      else if text_eq operator (codes "NumericGreaterThan")
      then both false (λ a b. less b a) number (expected_number expected)
      else if text_eq operator (codes "Null")
      then bool_eq (is_none actual) (
          opt_text_eq (as_str expected) (some (codes "true"))
          || elim (as_bool expected) [ some b ↦ b | none ↦ false ])
      else false

  -- The inner loop: every key of an operator has to match.
  matches_keys : Text → ConditionContext → Fields Float → Bool
  matches_keys operator context end = true
  matches_keys operator context (field key expected rest) =
      if matches_operator operator context key expected
      then matches_keys operator context rest
      else false

  -- The outer loop: an operator whose conditions are no object is skipped.
  matches_operators : ConditionContext → Fields Float → Bool
  unfolding matches_keys as_object
  matches_operators context end = true
  matches_operators context (field operator conditions rest) =
      let others = matches_operators context rest in
      elim (as_object conditions) [
        | none ↦ others
        | some keys ↦ if matches_keys operator context keys then others else false
      ]

  unfoldable pub evaluate_condition : Json Float → ConditionContext → Bool
  unfolding matches_operators as_object
  evaluate_condition condition context = elim (as_object condition) [
    | none ↦ true
    | some obj ↦ matches_operators context obj
  ]
