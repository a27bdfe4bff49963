-- ===== src/Network/Address.antt =====
-- The addresses of `std::net`, by octets, and the crate `ipnet` as far as the proxy calls it.
use icebreaker.Common.{
  Text, ℕ, ◌+◌, ◌-◌, ◌*◌, ◌/◌, ◌^◌, ◌≤◌, ◌<◌, ◌≡◌, Bool, ◌&&◌, Option, none, some, List, [], ◌∷◌,
  all, leb, ◌==◌, if◌then◌else◌,
}

pub record Ipv4Addr : Type 0 where
  pub o0 : ℕ
  pub o1 : ℕ
  pub o2 : ℕ
  pub o3 : ℕ

-- The first twelve octets, and the last four.
pub record Ipv6Addr : Type 0 where
  pub s0 : ℕ
  pub s1 : ℕ
  pub s2 : ℕ
  pub s3 : ℕ
  pub s4 : ℕ
  pub s5 : ℕ
  pub s6 : ℕ
  pub s7 : ℕ
  pub s8 : ℕ
  pub s9 : ℕ
  pub s10 : ℕ
  pub s11 : ℕ
  pub last : Ipv4Addr

pub data IpAddr : Type 0 where
  v4 : Ipv4Addr → IpAddr
  v6 : Ipv6Addr → IpAddr

-- Every octet of the address is a byte.
abbrev pub Octets : Ipv4Addr → Type 0
Octets a = (a.o0 < 256) × (a.o1 < 256) × (a.o2 < 256) × (a.o3 < 256)

-- The address as one 32-bit number.
abbrev pub word : Ipv4Addr → ℕ
word a = ((a.o0 * 256 + a.o1) * 256 + a.o2) * 256 + a.o3

abbrev pub addr : ℕ → ℕ → ℕ → ℕ → Ipv4Addr
addr a b c d = record { o0 = a; o1 = b; o2 = c; o3 = d }

abbrev pub is_zero : ℕ → Bool
is_zero n = n == 0

-- `octets[4..10]`
abbrev pub middle : Ipv6Addr → List ℕ
middle a = a.s4 ∷ a.s5 ∷ a.s6 ∷ a.s7 ∷ a.s8 ∷ a.s9 ∷ []

-- `Ipv6Addr::to_ipv4_mapped`: `::ffff:a.b.c.d`
abbrev pub to_ipv4_mapped : Ipv6Addr → Option Ipv4Addr
to_ipv4_mapped a =
    if all is_zero (a.s0 ∷ a.s1 ∷ a.s2 ∷ a.s3 ∷ middle a) && a.s10 == 0xff && a.s11 == 0xff
    then some a.last
    else none

-- `Ipv4Addr::is_loopback` and `is_multicast`
abbrev pub is_loopback_v4 : Ipv4Addr → Bool
is_loopback_v4 a = a.o0 == 127

abbrev pub is_multicast_v4 : Ipv4Addr → Bool
is_multicast_v4 a = leb 224 a.o0 && leb a.o0 239

abbrev first_12_zero : Ipv6Addr → Bool
first_12_zero a =
    all is_zero (a.s0 ∷ a.s1 ∷ a.s2 ∷ a.s3 ∷ middle a) && is_zero a.s10 && is_zero a.s11

abbrev first_15_zero : Ipv6Addr → Bool
first_15_zero a = first_12_zero a && is_zero a.last.o0 && is_zero a.last.o1 && is_zero a.last.o2

-- `Ipv6Addr::is_loopback`, `is_unspecified` and `is_multicast`
abbrev pub is_loopback_v6 : Ipv6Addr → Bool
is_loopback_v6 a = first_15_zero a && a.last.o3 == 1

abbrev pub is_unspecified : Ipv6Addr → Bool
is_unspecified a = first_15_zero a && a.last.o3 == 0

abbrev pub is_multicast_v6 : Ipv6Addr → Bool
is_multicast_v6 a = a.s0 == 0xff

-- What `str::parse::<IpNet>` returns.
pub data Parsed (N : Type 0) : Type 0 where
  parsed : N → Parsed N
  malformed : (message : Text) → Parsed N

-- The crate `ipnet`, with what its documentation says of `Ipv4Net::contains`: an address is in a
-- network exactly if the leading `prefix` bits of both agree.
pub record IpnetCrate : Type 1 where
  pub IpNet : Type 0
  pub parse : Text → Parsed IpNet
  pub contains : IpNet → IpAddr → Bool
  pub Ipv4Net : Type 0
  pub new_v4 : Ipv4Addr → ℕ → Ipv4Net
  pub contains_v4 : Ipv4Net → Ipv4Addr → Bool
  pub contains_v4-new_v4 :
      (net : Ipv4Addr) (prefix : ℕ) (a : Ipv4Addr)
      → prefix ≤ 32
      → contains_v4 (new_v4 net prefix) a
        ≡ (word a / 2 ^ (32 - prefix) == word net / 2 ^ (32 - prefix))

-- The parts of the standard library's text handling that the filter calls.
pub record StdText : Type 0 where
  pub ip_to_string : IpAddr → Text
  pub to_lowercase : Text → Text
