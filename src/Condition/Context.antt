-- ===== src/Condition/Context.antt =====
-- `ConditionContext`, and the parts of Rust's standard library that conditions call.
use strix.Base.{
  ℕ, Bool, true, false, List, [], ◌∷◌, Option, none, some, Text, codes, text_eq, starts_with,
  if◌then◌else◌, ◌||◌,
}
use mathlib.Core.Option

-- An address with its bits.
pub data IpAddr : Type 0 where
  v4 : ℕ → IpAddr
  v6 : ℕ → IpAddr

-- Floats and the texts of addresses and numbers, as the standard library reads and writes them.
pub record Externals : Type 1 where
  pub Float : Type 0
  pub parse_float : Text → Option Float
  -- `(a - b).abs() < f64::EPSILON`
  pub near : Float → Float → Bool
  pub less : Float → Float → Bool
  pub parse_ip : Text → Option IpAddr
  pub ip_to_text : IpAddr → Text
  pub number_to_text : ℕ → Text

pub record ConditionContext : Type 0 where
  pub source_ip : Option IpAddr
  pub current_time : Option Text
  pub secure_transport : Bool
  pub headers : List (Text × Text)
  pub prefix : Option Text
  pub delimiter : Option Text
  pub max_keys : Option ℕ
  pub custom : List (Text × Text)

-- `ConditionContext::default()`, also `new`.
abbrev pub default_context : ConditionContext
default_context = record {
  source_ip = none;
  current_time = none;
  secure_transport = false;
  headers = [];
  prefix = none;
  delimiter = none;
  max_keys = none;
  custom = [];
}

unfoldable pub with_source_ip : ConditionContext → IpAddr → ConditionContext
with_source_ip c ip = record c { source_ip = some ip }

unfoldable pub with_secure_transport : ConditionContext → Bool → ConditionContext
with_secure_transport c secure = record c { secure_transport = secure }

unfoldable pub bool_to_text : Bool → Text
bool_to_text true = codes "true"
bool_to_text false = codes "false"

map_get : Text → List (Text × Text) → Option Text
map_get k [] = none
map_get k ((j, v) ∷ rest) = if text_eq j k then some v else map_get k rest

module _ (x : Externals) where
  -- `ConditionContext::get`
  unfoldable pub get : ConditionContext → Text → Option Text
  unfolding map_get bool_to_text
  get c key =
      if text_eq key (codes "aws:SourceIp")
      then Option.map x.ip_to_text c.source_ip
      else if text_eq key (codes "aws:CurrentTime")
      then c.current_time
      else if text_eq key (codes "aws:SecureTransport")
      then some (bool_to_text c.secure_transport)
      else if text_eq key (codes "s3:prefix")
      then c.prefix
      else if text_eq key (codes "s3:delimiter")
      then c.delimiter
      else if text_eq key (codes "s3:max-keys")
      then Option.map x.number_to_text c.max_keys
      else if starts_with key (codes "aws:") || starts_with key (codes "s3:")
      then map_get key c.custom
      else none
