-- ===== src/Examples/Policies.antt =====
-- Patterns, policies and bucket policies.
use mathlib.Core.List.{Memᴰ}
use strix.Base.{
  ap, Text, ℕ, ◌≡◌, refl, ◌↔◌, true, [], ◌∷◌, none, some, codes, parse_uint, ltb, ◌==◌,
}
use strix.Wildcard.{matches_wildcard}
use strix.Wildcard.Glob.{Glob}
use strix.Wildcard.Correct.{matches_wildcard_iff}
use strix.Effect.{allow, deny}
use strix.Effect.Verdict.{Verdict}
use strix.Action
use strix.Resource
use strix.Resource.{Resource}
use strix.Policy
use strix.Policy.{PolicyStatement, Policy}
use strix.Policy.Evaluate.{Applies, evaluate-Verdict, evaluate_order}
use strix.Condition.Context.{Externals, default_context}
use strix.BucketPolicy
use strix.BucketPolicy.{BucketPolicy, BucketPolicyStatement}
use strix.BucketPolicy.Evaluate
use strix.BucketPolicy.Addresses.{address_condition, evaluate-unaddressed}
use strix.BucketPolicy.Evaluate.{evaluate_with_context-Verdict}

-- Whole numbers stand in for floats, and no text is an address.
abbrev pub externals : Externals
externals = record {
  Float = ℕ;
  parse_float = parse_uint 1000;
  near = λ a b. a == b;
  less = ltb;
  parse_ip = λ s. none;
  ip_to_text = λ ip. [];
  number_to_text = λ n. [];
}

abbrev pub photo : Resource
photo = record { bucket = some (codes "photos"); key = some (codes "cat") }

abbrev reads : PolicyStatement
reads = record {
  effect = allow;
  actions = codes "s3:Get*" ∷ [];
  resources = codes "arn:aws:s3:::photos/*" ∷ [];
}

abbrev no_cats : PolicyStatement
no_cats = record {
  effect = deny;
  actions = codes "*" ∷ [];
  resources = codes "arn:aws:s3:::photos/c?t" ∷ [];
}

abbrev pub reader : Policy
reader = record { name = codes "reader"; version = codes "2012-10-17"; statements = reads ∷ [] }

abbrev pub dog_reader : Policy
dog_reader = record {
  name = codes "dogs";
  version = codes "2012-10-17";
  statements = reads ∷ no_cats ∷ [];
}

abbrev swapped : Policy
swapped = record {
  name = codes "swapped";
  version = codes "2012-10-17";
  statements = no_cats ∷ reads ∷ [];
}

-- A test of the two policies on one request.
pub reader_allows : Policy.evaluate reader Action.get_object photo ≡ some allow
unfolding Policy.evaluate Action.to_text Resource.to_text matches_wildcard Policy.matches
reader_allows = refl

pub dog_reader_denies : Policy.evaluate dog_reader Action.get_object photo ≡ some deny
unfolding Policy.evaluate Action.to_text Resource.to_text matches_wildcard Policy.matches
dog_reader_denies = refl

matches_wildcard_iff_example :
    (matches_wildcard (codes "s3:Get*") (codes "s3:GetObject") ≡ true)
    ↔ Glob (codes "s3:Get*") (codes "s3:GetObject")
matches_wildcard_iff_example = matches_wildcard_iff (codes "s3:Get*") (codes "s3:GetObject")

evaluate-Verdict_example :
    Verdict
      (λ s. Applies s Action.get_object photo)
      (λ (s : PolicyStatement). s.effect)
      dog_reader.statements
      (Policy.evaluate dog_reader Action.get_object photo)
evaluate-Verdict_example = evaluate-Verdict dog_reader Action.get_object photo

swap : {A : Type 0} {a b s : A} → Memᴰ s (a ∷ b ∷ []) → Memᴰ s (b ∷ a ∷ [])
swap (Memᴰ.head e) = Memᴰ.tail (Memᴰ.head e)
swap (Memᴰ.tail (Memᴰ.head e)) = Memᴰ.head e
swap (Memᴰ.tail (Memᴰ.tail m)) = elim m [ ]

evaluate_order_example :
    Policy.evaluate dog_reader Action.get_object photo
    ≡ Policy.evaluate swapped Action.get_object photo
evaluate_order_example =
    evaluate_order dog_reader swapped Action.get_object photo (λ s. (λ m. swap m, λ m. swap m))

abbrev public_statement : BucketPolicyStatement ℕ
public_statement = record {
  sid = none;
  effect = allow;
  principal = BucketPolicy.wildcard;
  actions = BucketPolicy.ActionSpec.single (codes "s3:GetObject");
  resources = BucketPolicy.ResourceSpec.single (codes "arn:aws:s3:::photos/*");
  condition = none;
}

abbrev pub public_policy : BucketPolicy ℕ
public_policy = record {
  version = codes "2012-10-17";
  id = none;
  statements = public_statement ∷ [];
}

abbrev pub closed_policy : BucketPolicy ℕ
closed_policy = record {
  version = codes "2012-10-17";
  id = none;
  statements = record public_statement { effect = deny } ∷ [];
}

evaluate_with_context-Verdict_example :
    Verdict
      (BucketPolicy.Evaluate.Applies externals BucketPolicy.anonymous Action.get_object photo
        default_context)
      (λ (s : BucketPolicyStatement ℕ). s.effect)
      public_policy.statements
      (BucketPolicy.evaluate_with_context externals public_policy BucketPolicy.anonymous
        Action.get_object photo default_context)
evaluate_with_context-Verdict_example =
    evaluate_with_context-Verdict externals BucketPolicy.anonymous Action.get_object photo
      default_context public_policy

abbrev office_statement : BucketPolicyStatement ℕ
office_statement = record public_statement {
  effect = deny;
  condition = some (address_condition (codes "aws:SourceIp") (codes "10.0.0.0/8"));
}

abbrev office_policy : BucketPolicy ℕ
office_policy = record {
  version = codes "2012-10-17";
  id = none;
  statements = office_statement ∷ [];
}

of_the_office :
    (s : BucketPolicyStatement ℕ)
    → Memᴰ s office_policy.statements
    → (key : Text) × (cidr : Text) × (s.condition ≡ some (address_condition key cidr))
of_the_office s (Memᴰ.head e) =
    (codes "aws:SourceIp", codes "10.0.0.0/8", ap (λ (t : BucketPolicyStatement ℕ). t.condition) e)
of_the_office s (Memᴰ.tail m) = elim m [ ]

evaluate-unaddressed_example :
    BucketPolicy.evaluate externals office_policy BucketPolicy.anonymous Action.get_object photo
    ≡ none
evaluate-unaddressed_example =
    evaluate-unaddressed externals office_policy BucketPolicy.anonymous Action.get_object photo
      of_the_office
