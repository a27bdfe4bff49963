-- ===== src/Network/IpFilter.antt =====
-- crates/icebreaker-proxy/src/network/ip_filter.rs: which addresses the proxy connects to.
pub mod Ranges
pub mod Laws
use icebreaker.Common.{
  Text, codes, text_eq, any, all, ℕ, ◌+◌, ◌*◌, ◌/◌, Bool, true, false, ◌&&◌, ◌||◌, Option, none,
  some, is_none, List, [], ◌∷◌, ◌++◌, leb, ◌==◌, if◌then◌else◌,
}
use icebreaker.Errors.{Result, ok, err, config_error, blocked_address, host_not_allowed, ◌>>=◌}
use icebreaker.Network.Address.{
  Ipv4Addr, Ipv6Addr, IpAddr, v4, v6, addr, is_zero, middle, to_ipv4_mapped, is_loopback_v4,
  is_multicast_v4, is_loopback_v6, is_unspecified, is_multicast_v6, parsed, malformed, IpnetCrate,
  StdText,
}

pub data BlockReason : Type 0 where
  private_network loopback link_local blocked_cidr reserved : BlockReason

-- `Display` of the reason
unfoldable pub reason_text : BlockReason → Text
reason_text private_network = codes "private network"
reason_text loopback = codes "loopback address"
reason_text link_local = codes "link-local address"
reason_text blocked_cidr = codes "blocked CIDR"
reason_text reserved = codes "reserved address"

-- `NetworkProtectionConfig` of crates/icebreaker-common/src/config.rs
pub record NetworkProtectionConfig : Type 0 where
  pub block_private : Bool
  pub block_loopback : Bool
  pub block_link_local : Bool
  pub blocked_cidrs : List Text
  pub blocked_hostnames : List Text
  pub allowed_cidrs : List Text

abbrev pub default_config : NetworkProtectionConfig
default_config = record {
  block_private = true;
  block_loopback = true;
  block_link_local = true;
  blocked_cidrs = [];
  blocked_hostnames = [];
  allowed_cidrs = [];
}

-- `extract_nat64_ipv4`: `64:ff9b::a.b.c.d`
unfoldable pub extract_nat64_ipv4 : Ipv6Addr → Option Ipv4Addr
extract_nat64_ipv4 a =
    if a.s0 == 0x00
      && a.s1 == 0x64
      && a.s2 == 0xff
      && a.s3 == 0x9b
      && all is_zero (middle a)
      && is_zero a.s10
      && is_zero a.s11
    then some a.last
    else none

unfoldable pub is_loopback : IpAddr → Bool
is_loopback (v4 a) = is_loopback_v4 a
is_loopback (v6 a) = is_loopback_v6 a

-- Unique local addresses: `octets[0] & 0xfe` clears the lowest bit of the octet.
unfoldable pub is_private_v6 : Ipv6Addr → Bool
is_private_v6 a = a.s0 / 2 * 2 == 0xfc

-- `octets[1] & 0xc0` clears the six lowest bits of the octet.
unfoldable pub is_link_local_v6 : Ipv6Addr → Bool
is_link_local_v6 a = a.s0 == 0xfe && a.s1 / 64 * 64 == 0x80

unfoldable pub is_reserved_v6 : Ipv6Addr → Bool
is_reserved_v6 a =
    if is_unspecified a
    then true
    else if is_multicast_v6 a
    then true
    else if a.s0 == 0x20 && a.s1 == 0x01 && a.s2 == 0x0d && a.s3 == 0xb8
    then true
    else if a.s0 == 0x01 && a.s1 == 0x00
    then true
    else false

module _ ⦃n : IpnetCrate⦄ where
  -- A hard-coded network of `reserved_cidrs` contains the address.
  unfoldable pub in_net : Ipv4Addr → ℕ → Ipv4Addr → Bool
  in_net net prefix a = n.contains_v4 (n.new_v4 net prefix) a

  unfoldable pub is_private_v4 : Ipv4Addr → Bool
  unfolding in_net
  is_private_v4 a =
      in_net (addr 10 0 0 0) 8 a || in_net (addr 172 16 0 0) 12 a || in_net (addr 192 168 0 0) 16 a

  unfoldable pub is_link_local_v4 : Ipv4Addr → Bool
  unfolding in_net
  is_link_local_v4 a = in_net (addr 169 254 0 0) 16 a

  unfoldable pub is_reserved_v4 : Ipv4Addr → Bool
  unfolding in_net
  is_reserved_v4 a =
      if a.o0 == 0
      then true
      else if is_multicast_v4 a
      then true
      else if leb 240 a.o0
      then true
      else in_net (addr 100 64 0 0) 10 a
        || in_net (addr 192 0 0 0) 24 a
        || in_net (addr 192 0 2 0) 24 a
        || in_net (addr 198 51 100 0) 24 a
        || in_net (addr 203 0 113 0) 24 a

  unfoldable pub is_private : IpAddr → Bool
  is_private (v4 a) = is_private_v4 a
  is_private (v6 a) = is_private_v6 a

  unfoldable pub is_link_local : IpAddr → Bool
  is_link_local (v4 a) = is_link_local_v4 a
  is_link_local (v6 a) = is_link_local_v6 a

  unfoldable pub is_reserved : IpAddr → Bool
  is_reserved (v4 a) = is_reserved_v4 a
  is_reserved (v6 a) = is_reserved_v6 a

  pub record IpFilter : Type 0 where
    pub block_private : Bool
    pub block_loopback : Bool
    pub block_link_local : Bool
    pub blocked_cidrs : List n.IpNet
    pub allowed_cidrs : List n.IpNet
    pub blocked_hostnames : List Text

  -- `collect` of the parsed networks: the first that is malformed is the error.
  unfoldable pub parse_all : Text → List Text → Result (List n.IpNet)
  parse_all what [] = ok []
  parse_all what (s ∷ ss) =
      let rest = parse_all what ss in
      elim (n.parse s) [
        | malformed message ↦ err (config_error (what ++ message))
        | parsed net ↦ (do nets ← rest; ok (net ∷ nets))
      ]

  unfoldable pub new : NetworkProtectionConfig → Result IpFilter
  unfolding parse_all
  new config = do
    blocked ← parse_all (codes "invalid blocked CIDR: ") config.blocked_cidrs
    allowed ← parse_all (codes "invalid allowed CIDR: ") config.allowed_cidrs
    ok (record {
      block_private = config.block_private;
      block_loopback = config.block_loopback;
      block_link_local = config.block_link_local;
      blocked_cidrs = blocked;
      allowed_cidrs = allowed;
      blocked_hostnames = config.blocked_hostnames;
    })

  unfoldable pub permissive : IpFilter
  permissive = record {
    block_private = false;
    block_loopback = false;
    block_link_local = false;
    blocked_cidrs = [];
    allowed_cidrs = [];
    blocked_hostnames = [];
  }

  -- `check_ip` past the extraction of embedded addresses
  unfoldable pub check_rules : IpFilter → IpAddr → Option BlockReason
  check_rules f ip =
      if any (λ net. n.contains net ip) f.allowed_cidrs
      then none
      else if f.block_loopback && is_loopback ip
      then some loopback
      else if f.block_private && is_private ip
      then some private_network
      else if f.block_link_local && is_link_local ip
      then some link_local
      else if any (λ net. n.contains net ip) f.blocked_cidrs
      then some blocked_cidr
      else if is_reserved ip
      then some reserved
      else none

  -- The call of `check_ip` on an embedded address is one on an IPv4 address.
  unfoldable pub check_ip : IpFilter → IpAddr → Option BlockReason
  unfolding extract_nat64_ipv4
  check_ip f (v4 a) = check_rules f (v4 a)
  check_ip f (v6 a) = elim (to_ipv4_mapped a) [
    | some mapped ↦ check_rules f (v4 mapped)
    | none ↦ elim (extract_nat64_ipv4 a) [
      | some embedded ↦ check_rules f (v4 embedded)
      | none ↦ check_rules f (v6 a)
    ]
  ]

  unfoldable pub is_allowed : IpFilter → IpAddr → Bool
  unfolding check_ip
  is_allowed f ip = is_none (check_ip f ip)

  module _ ⦃s : StdText⦄ where
    unfoldable pub validate_ip : IpFilter → IpAddr → Result (Unit {0})
    unfolding check_ip reason_text
    validate_ip f ip = elim (check_ip f ip) [
      | some reason ↦ err (blocked_address (s.ip_to_string ip) (reason_text reason))
      | none ↦ ok tt
    ]

    unfoldable pub is_hostname_blocked : IpFilter → Text → Bool
    is_hostname_blocked f hostname =
        any (λ h. text_eq (s.to_lowercase hostname) (s.to_lowercase h)) f.blocked_hostnames

    unfoldable pub validate_hostname : IpFilter → Text → Result (Unit {0})
    unfolding is_hostname_blocked
    validate_hostname f hostname =
        if is_hostname_blocked f hostname then err (host_not_allowed hostname) else ok tt
