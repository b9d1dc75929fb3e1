-- ===== src/Condition/Cidr.antt =====
-- `ip_matches_cidr` of crates/strix-iam/src/policy.rs.
use Prim.Native.Nat.{bit_and}
use strix.Base.{
  ℕ, ◌-◌, ◌*◌, ◌^◌, ◌%◌, Bool, false, Option, none, some, Text, split_once, parse_uint, text_eq,
  ltb, ◌==◌, if◌then◌else◌,
}
use strix.Condition.Context.{IpAddr, v4, v6, Externals}

-- `MAX << (width - prefix_len)`, and 0 for an empty prefix, where the shift would overflow.
unfoldable pub mask : ℕ → ℕ → ℕ
mask width prefix_len =
    if prefix_len == 0 then 0 else ((2 ^ width - 1) * 2 ^ (width - prefix_len)) % 2 ^ width

unfoldable pub same_network : ℕ → ℕ → ℕ → ℕ → Bool
unfolding mask
same_network width prefix_len ip network =
    if ltb width prefix_len
    then false
    else bit_and ip (mask width prefix_len) == bit_and network (mask width prefix_len)

-- The `match` on the two addresses.
in_network : ℕ → IpAddr → Option IpAddr → Bool
unfolding same_network
in_network prefix_len (v4 ip) (some (v4 network)) = same_network 32 prefix_len ip network
in_network prefix_len (v6 ip) (some (v6 network)) = same_network 128 prefix_len ip network
in_network _ _ _ = false

module _ (x : Externals) where
  unfoldable pub ip_matches_cidr : IpAddr → Text → Bool
  unfolding in_network
  ip_matches_cidr ip cidr = elim (split_once b'/' cidr) [
    | some (network, prefix_len) ↦ elim (parse_uint 255 prefix_len) [
      | some len ↦ in_network len ip (x.parse_ip network)
      | none ↦ false
    ]
    | none ↦ text_eq (x.ip_to_text ip) cidr
  ]
