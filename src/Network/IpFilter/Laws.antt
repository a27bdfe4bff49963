-- ===== src/Network/IpFilter/Laws.antt =====
-- Which addresses a filter lets through.
use icebreaker.Common.{
  any, ◌≡◌, refl, ap, Bool, true, not, ◌&&◌, ◌||◌, none, is_none, leb, ◌==◌, arith,
}
use icebreaker.Network.Address.{
  Ipv4Addr, Ipv6Addr, IpAddr, v4, v6, addr, Octets, IpnetCrate, to_ipv4_mapped, is_loopback_v6,
  is_unspecified,
}
use icebreaker.Network.IpFilter.{
  IpFilter, check_rules, check_ip, is_allowed, is_loopback, is_private, is_link_local, is_reserved,
  is_link_local_v4, extract_nat64_ipv4,
}
use icebreaker.Network.IpFilter.Ranges.{
  in_range, private_nets, reserved_nets, special_nets, unique_local, link_local_v6, reserved_v6,
  reorder, reorder_v6, net_16, loopback_range, private_ranges, reserved_ranges,
}

-- `::ffff:a.b.c.d`
abbrev pub mapped : Ipv4Addr → Ipv6Addr
mapped a = record {
  s0 = 0;
  s1 = 0;
  s2 = 0;
  s3 = 0;
  s4 = 0;
  s5 = 0;
  s6 = 0;
  s7 = 0;
  s8 = 0;
  s9 = 0;
  s10 = 0xff;
  s11 = 0xff;
  last = a;
}

-- `64:ff9b::a.b.c.d`
abbrev pub nat64 : Ipv4Addr → Ipv6Addr
nat64 a = record {
  s0 = 0;
  s1 = 0x64;
  s2 = 0xff;
  s3 = 0x9b;
  s4 = 0;
  s5 = 0;
  s6 = 0;
  s7 = 0;
  s8 = 0;
  s9 = 0;
  s10 = 0;
  s11 = 0;
  last = a;
}

module _ ⦃n : IpnetCrate⦄ where
  -- An address is let through exactly if it is in an allowed network, or none of the rules that are
  -- switched on applies to it.
  is_allowed_rules :
      (f : IpFilter) (ip : IpAddr)
      → is_none (check_rules f ip) ≡ (
          any (λ net. n.contains net ip) f.allowed_cidrs
          || not (
              f.block_loopback && is_loopback ip
              || f.block_private && is_private ip
              || f.block_link_local && is_link_local ip
              || any (λ net. n.contains net ip) f.blocked_cidrs
              || is_reserved ip))
  unfolding check_rules
  is_allowed_rules f ip = ground arith

  -- With all three rules switched on, an IPv4 address is let through exactly if an allowed network
  -- has it, or neither a blocked network nor one of the special ranges (loopback, link-local,
  -- private, reserved) does.
  pub is_allowed-v4 :
      (f : IpFilter) (a : Ipv4Addr)
      → f.block_loopback ≡ true
      → f.block_private ≡ true
      → f.block_link_local ≡ true
      → Octets a
      → is_allowed f (v4 a) ≡ (
          any (λ net. n.contains net (v4 a)) f.allowed_cidrs
          || not
              (any (λ net. n.contains net (v4 a)) f.blocked_cidrs || any (in_range a) special_nets))
  unfolding is_allowed check_ip is_loopback is_private is_link_local is_reserved is_link_local_v4
  is_allowed-v4 f a e1 e2 e3 h =
      rw
        (
          is_allowed_rules f (v4 a),
          e1,
          e2,
          e3,
          loopback_range a h,
          net_16 169 254 a h,
          private_ranges a h,
          reserved_ranges a h,
        )
        (ap (λ (b : Bool). any (λ net. n.contains net (v4 a)) f.allowed_cidrs || not b)
          (reorder (in_range a (addr 127 0 0 0, addr 127 255 255 255))
            (in_range a (addr 169 254 0 0, addr 169 254 255 255))
            (any (λ net. n.contains net (v4 a)) f.blocked_cidrs) (in_range a) private_nets
            reserved_nets))

  -- An IPv4 address written as an IPv4-mapped or as a NAT64 IPv6 address is answered as the IPv4
  -- address itself, by every filter.
  pub check_ip-embedded :
      (f : IpFilter) (a : Ipv4Addr)
      → (check_ip f (v6 (mapped a)) ≡ check_ip f (v4 a))
        × (check_ip f (v6 (nat64 a)) ≡ check_ip f (v4 a))
  unfolding check_ip extract_nat64_ipv4
  check_ip-embedded f a = (refl, refl)

  native_rules :
      (f : IpFilter) (a : Ipv6Addr)
      → to_ipv4_mapped a ≡ none
      → extract_nat64_ipv4 a ≡ none
      → check_ip f (v6 a) ≡ check_rules f (v6 a)
  unfolding check_ip
  native_rules f a e4 e5 = ground (arith, e4, e5)

  -- With all three rules switched on, an IPv6 address that embeds no IPv4 address is let through
  -- exactly if an allowed network has it, or no blocked one does and it is neither `::` nor `::1`,
  -- nor begins with fc00::/7, fe80::/10, ff00::/8, 2001:db8::/32 or 0100::/16.
  pub is_allowed-v6 :
      (f : IpFilter) (a : Ipv6Addr)
      → f.block_loopback ≡ true
      → f.block_private ≡ true
      → f.block_link_local ≡ true
      → to_ipv4_mapped a ≡ none
      → extract_nat64_ipv4 a ≡ none
      → is_allowed f (v6 a) ≡ (
          any (λ net. n.contains net (v6 a)) f.allowed_cidrs
          || not (
              any (λ net. n.contains net (v6 a)) f.blocked_cidrs
              || is_unspecified a
              || is_loopback_v6 a
              || (leb 0xfc a.s0 && leb a.s0 0xfd)
              || (a.s0 == 0xfe && leb 0x80 a.s1 && leb a.s1 0xbf)
              || a.s0 == 0xff
              || (a.s0 == 0x20 && a.s1 == 0x01 && a.s2 == 0x0d && a.s3 == 0xb8)
              || (a.s0 == 0x01 && a.s1 == 0x00)))
  unfolding is_allowed is_loopback is_private is_link_local is_reserved
  is_allowed-v6 f a e1 e2 e3 e4 e5 =
      rw
        (
          native_rules f a e4 e5,
          is_allowed_rules f (v6 a),
          e1,
          e2,
          e3,
          unique_local a,
          link_local_v6 a,
          reserved_v6 a,
        )
        (ap (λ (b : Bool). any (λ net. n.contains net (v6 a)) f.allowed_cidrs || not b)
          (reorder_v6 (is_loopback_v6 a) (leb 0xfc a.s0 && leb a.s0 0xfd)
            (a.s0 == 0xfe && leb 0x80 a.s1 && leb a.s1 0xbf)
            (any (λ net. n.contains net (v6 a)) f.blocked_cidrs) (is_unspecified a) (a.s0 == 0xff)
            (a.s0 == 0x20 && a.s1 == 0x01 && a.s2 == 0x0d && a.s3 == 0xb8)
            (a.s0 == 0x01 && a.s1 == 0x00)))
