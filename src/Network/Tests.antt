-- ===== src/Network/Tests.antt =====
-- Runs of the address filter and the connector, and the theorems about them at concrete inputs.
use icebreaker.Common.{
  codes, text_eq, any, not, ℕ, ◌-◌, ◌/◌, ◌^◌, ◌≡◌, ◌↔◌, refl, Bool, true, false, ◌||◌, none, some,
  [], ◌∷◌, ◌==◌, arith,
}
use icebreaker.Errors.{ok}
use icebreaker.Network.Address.{
  Ipv4Addr, Ipv6Addr, IpAddr, v4, v6, addr, word, IpnetCrate, StdText, malformed,
}
use icebreaker.Network.IpFilter.{
  IpFilter, private_network, loopback, link_local, blocked_cidr, reserved, check_ip, is_allowed,
  check_rules, is_loopback, is_private, is_link_local, is_reserved, is_private_v4, is_link_local_v4,
  is_reserved_v4, is_private_v6, is_link_local_v6, is_reserved_v6, in_net, extract_nat64_ipv4,
  is_hostname_blocked,
}
use icebreaker.Network.IpFilter.Ranges.{in_range, special_nets}
use icebreaker.Network.IpFilter.Laws.{
  mapped, nat64, is_allowed-v4, is_allowed-v6, check_ip-embedded,
}
use icebreaker.Network.Connector.{
  Answer, addresses, Resolver, Uri, done, resolve_and_validate, call,
}
use icebreaker.Network.Connector.Laws.{FirstOfAllowed, resolve_and_validate_iff, call_iff}

abbrev same_prefix : Ipv4Addr × ℕ → Ipv4Addr → Bool
same_prefix (net, prefix) a = word a / 2 ^ (32 - prefix) == word net / 2 ^ (32 - prefix)

abbrev same_prefix_ip : Ipv4Addr × ℕ → IpAddr → Bool
same_prefix_ip net (v4 a) = same_prefix net a
same_prefix_ip net (v6 a) = false

-- A stand-in for the crate, with IPv4 networks.
instance abbrev ipv4_nets : IpnetCrate
ipv4_nets = record {
  IpNet = Ipv4Addr × ℕ;
  parse = λ s. malformed s;
  contains = same_prefix_ip;
  Ipv4Net = Ipv4Addr × ℕ;
  new_v4 = λ net prefix. (net, prefix);
  contains_v4 = same_prefix;
  contains_v4-new_v4 = λ net prefix a h. refl;
}

instance abbrev plain_text : StdText
plain_text = record { ip_to_string = λ ip. []; to_lowercase = λ s. s }

abbrev all_rules : IpFilter
all_rules = record {
  block_private = true;
  block_loopback = true;
  block_link_local = true;
  blocked_cidrs = (addr 8 8 0 0, 16) ∷ [];
  allowed_cidrs = (addr 10 1 2 0, 24) ∷ [];
  blocked_hostnames = codes "self" ∷ [];
}

abbrev answer : Answer
answer = addresses (record { ip = v4 (addr 1 1 1 1); port = 443 } ∷ [])

instance abbrev one_answer : Resolver
one_answer = record { resolve = λ host port. answer }

abbrev uri : Uri
uri = record { scheme = some (codes "https"); host = some (codes "one.one"); port = none }

abbrev documentation : Ipv6Addr
documentation = record (mapped (addr 0 0 0 1)) { s0 = 0x20; s1 = 1; s2 = 0x0d; s3 = 0xb8 }

network : Unit {0}
unfolding check_ip is_allowed check_rules is_loopback is_private is_link_local is_reserved
    is_private_v4 is_link_local_v4 is_reserved_v4 is_private_v6 is_link_local_v6 is_reserved_v6
    in_net extract_nat64_ipv4 is_hostname_blocked text_eq
network = tt

filter_tests :
    (check_ip all_rules (v4 (addr 1 1 1 1)) ≡ none)
    × (check_ip all_rules (v4 (addr 127 0 0 1)) ≡ some loopback)
    × (check_ip all_rules (v4 (addr 172 31 0 1)) ≡ some private_network)
    × (check_ip all_rules (v4 (addr 172 32 0 1)) ≡ none)
    × (check_ip all_rules (v4 (addr 10 1 2 3)) ≡ none)
    × (check_ip all_rules (v4 (addr 8 8 8 8)) ≡ some blocked_cidr)
    × (check_ip all_rules (v6 (mapped (addr 10 0 0 1))) ≡ some private_network)
    × (check_ip all_rules (v6 (nat64 (addr 169 254 0 1))) ≡ some link_local)
    × (check_ip all_rules (v6 documentation) ≡ some reserved)
unfolding network
filter_tests = (refl, refl, refl, refl, refl, refl, refl, refl, refl)

is_allowed-v4_example : is_allowed all_rules (v4 (addr 10 1 2 3)) ≡ (
    any (λ net. same_prefix_ip net (v4 (addr 10 1 2 3))) all_rules.allowed_cidrs
    || not (
        any (λ net. same_prefix_ip net (v4 (addr 10 1 2 3))) all_rules.blocked_cidrs
        || any (in_range (addr 10 1 2 3)) special_nets))
is_allowed-v4_example =
    is_allowed-v4 all_rules (addr 10 1 2 3) refl refl refl
      (omega arith, omega arith, omega arith, omega arith)

check_ip-embedded_example :
    (check_ip all_rules (v6 (mapped (addr 10 0 0 1))) ≡ check_ip all_rules (v4 (addr 10 0 0 1)))
    × (check_ip all_rules (v6 (nat64 (addr 10 0 0 1))) ≡ check_ip all_rules (v4 (addr 10 0 0 1)))
check_ip-embedded_example = check_ip-embedded all_rules (addr 10 0 0 1)

is_allowed-v6_example : is_allowed all_rules (v6 documentation) ≡ false
unfolding network
is_allowed-v6_example = is_allowed-v6 all_rules documentation refl refl refl refl refl

resolve_and_validate_iff_example :
    (resolve_and_validate all_rules (codes "one.one") 443
      ≡ ok (record { ip = v4 (addr 1 1 1 1); port = 443 }))
    ↔ FirstOfAllowed all_rules answer (record { ip = v4 (addr 1 1 1 1); port = 443 })
resolve_and_validate_iff_example =
    resolve_and_validate_iff all_rules (codes "one.one") 443
      (record { ip = v4 (addr 1 1 1 1); port = 443 })

call_iff_example : (call all_rules uri ≡ done (record { ip = v4 (addr 1 1 1 1); port = 443 })) ↔ (
    (is_hostname_blocked all_rules (codes "one.one") ≡ false)
    × FirstOfAllowed all_rules answer (record { ip = v4 (addr 1 1 1 1); port = 443 }))
call_iff_example =
    call_iff all_rules uri (codes "one.one") (record { ip = v4 (addr 1 1 1 1); port = 443 }) refl
