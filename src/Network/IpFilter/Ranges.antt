-- ===== src/Network/IpFilter/Ranges.antt =====
-- The special addresses as ranges, and the networks of the filter as those ranges.
use icebreaker.Common.{any, ℕ, ◌≡◌, refl, Bool, ◌&&◌, ◌||◌, List, [], ◌∷◌, ◌++◌, leb, ◌==◌, arith}
use icebreaker.Network.Address.{
  Ipv4Addr, Ipv6Addr, addr, word, Octets, IpnetCrate, is_loopback_v4, is_unspecified,
}
use icebreaker.Network.IpFilter.{
  in_net, is_private_v4, is_reserved_v4, is_private_v6, is_link_local_v6, is_reserved_v6,
}

-- The addresses from the first to the last, both included.
abbrev pub in_range : Ipv4Addr → Ipv4Addr × Ipv4Addr → Bool
in_range a (first, final) = leb (word first) (word a) && leb (word a) (word final)

abbrev pub Range : Type 0
Range = Ipv4Addr × Ipv4Addr

abbrev pub private_nets : List Range
private_nets =
    (addr 10 0 0 0, addr 10 255 255 255)
    ∷ (addr 172 16 0 0, addr 172 31 255 255)
    ∷ (addr 192 168 0 0, addr 192 168 255 255)
    ∷ []

abbrev pub reserved_nets : List Range
reserved_nets =
    (addr 0 0 0 0, addr 0 255 255 255)
    ∷ (addr 224 0 0 0, addr 255 255 255 255)
    ∷ (addr 100 64 0 0, addr 100 127 255 255)
    ∷ (addr 192 0 0 0, addr 192 0 0 255)
    ∷ (addr 192 0 2 0, addr 192 0 2 255)
    ∷ (addr 198 51 100 0, addr 198 51 100 255)
    ∷ (addr 203 0 113 0, addr 203 0 113 255)
    ∷ []

-- The addresses that no client is meant to reach.
abbrev pub special_nets : List Range
special_nets =
    (addr 127 0 0 0, addr 127 255 255 255) ∷ (addr 169 254 0 0, addr 169 254 255 255) ∷ private_nets
    ++ reserved_nets

pub unique_local : (a : Ipv6Addr) → is_private_v6 a ≡ (leb 0xfc a.s0 && leb a.s0 0xfd)
unfolding is_private_v6
unique_local a = ground arith

pub link_local_v6 :
    (a : Ipv6Addr) → is_link_local_v6 a ≡ (a.s0 == 0xfe && leb 0x80 a.s1 && leb a.s1 0xbf)
unfolding is_link_local_v6
link_local_v6 a = ground arith

pub reserved_v6 :
    (a : Ipv6Addr)
    → is_reserved_v6 a ≡ (
        is_unspecified a
        || a.s0 == 0xff
        || (a.s0 == 0x20 && a.s1 == 0x01 && a.s2 == 0x0d && a.s3 == 0xb8)
        || (a.s0 == 0x01 && a.s1 == 0x00))
unfolding is_reserved_v6
reserved_v6 a = ground arith

pub any_append : (p : Range → Bool) (xs ys : List Range) → any p (xs ++ ys) ≡ (any p xs || any p ys)
any_append p [] ys = refl
any_append p (x ∷ xs) ys = rw (any_append p xs ys) (ground arith)

pub reorder :
    (lo ll bl : Bool) (p : Range → Bool) (xs ys : List Range)
    → (lo || any p xs || ll || bl || any p ys) ≡ (bl || (lo || (ll || any p (xs ++ ys))))
reorder lo ll bl p xs ys = rw (any_append p xs ys) (ground arith)

pub reorder_v6 :
    (lo pr ll bl un mu doc di : Bool)
    → (lo || pr || ll || bl || (un || mu || doc || di))
      ≡ (bl || un || lo || pr || ll || mu || doc || di)
reorder_v6 lo pr ll bl un mu doc di = ground arith

module _ ⦃n : IpnetCrate⦄ where
  pub net_8 :
      (p : ℕ) (a : Ipv4Addr)
      → Octets a
      → in_net (addr p 0 0 0) 8 a ≡ in_range a (addr p 0 0 0, addr p 255 255 255)
  unfolding in_net
  net_8 p a h = rw (n.contains_v4-new_v4 (addr p 0 0 0) 8 a (omega arith)) (ground arith)

  pub net_16 :
      (p q : ℕ) (a : Ipv4Addr)
      → Octets a
      → in_net (addr p q 0 0) 16 a ≡ in_range a (addr p q 0 0, addr p q 255 255)
  unfolding in_net
  net_16 p q a h = rw (n.contains_v4-new_v4 (addr p q 0 0) 16 a (omega arith)) (ground arith)

  pub net_24 :
      (p q r : ℕ) (a : Ipv4Addr)
      → Octets a
      → in_net (addr p q r 0) 24 a ≡ in_range a (addr p q r 0, addr p q r 255)
  unfolding in_net
  net_24 p q r a h = rw (n.contains_v4-new_v4 (addr p q r 0) 24 a (omega arith)) (ground arith)

  pub net_12 :
      (a : Ipv4Addr)
      → Octets a
      → in_net (addr 172 16 0 0) 12 a ≡ in_range a (addr 172 16 0 0, addr 172 31 255 255)
  unfolding in_net
  net_12 a h = rw (n.contains_v4-new_v4 (addr 172 16 0 0) 12 a (omega arith)) (ground arith)

  pub net_10 :
      (a : Ipv4Addr)
      → Octets a
      → in_net (addr 100 64 0 0) 10 a ≡ in_range a (addr 100 64 0 0, addr 100 127 255 255)
  unfolding in_net
  net_10 a h = rw (n.contains_v4-new_v4 (addr 100 64 0 0) 10 a (omega arith)) (ground arith)

  pub loopback_range :
      (a : Ipv4Addr)
      → Octets a
      → is_loopback_v4 a ≡ in_range a (addr 127 0 0 0, addr 127 255 255 255)
  loopback_range a h = ground arith

  pub private_ranges : (a : Ipv4Addr) → Octets a → is_private_v4 a ≡ any (in_range a) private_nets
  unfolding is_private_v4
  private_ranges a h = rw (net_8 10 a h, net_12 a h, net_16 192 168 a h) (ground arith)

  pub reserved_ranges :
      (a : Ipv4Addr) → Octets a → is_reserved_v4 a ≡ any (in_range a) reserved_nets
  unfolding is_reserved_v4
  reserved_ranges a h =
      rw
        (
          net_10 a h,
          net_24 192 0 0 a h,
          net_24 192 0 2 a h,
          net_24 198 51 100 a h,
          net_24 203 0 113 a h,
        )
        (ground arith)
