-- ===== src/Cimd/Addresses.antt =====
-- pkg/cimd/resolver.go: the addresses that are not dialled. An address is its number, as the prefixes and
-- predicates of package netip read it; a `net.IP` is the list of its bytes.
pub mod Ranges
use mcp_oauth_gateway.Base.{
  ℕ, ◌+◌, ◌*◌, ◌-◌, ◌/◌, ◌%◌, ◌^◌, Bool, true, false, ◌&&◌, ◌||◌, Option, none, some, List, [], ◌∷◌,
  ◌++◌, any, length, ◌==◌, nat_eq, if◌then◌else◌,
}

pub data Addr : Type 0 where
  v4 : ℕ → Addr
  v6 : ℕ → Addr

abbrev pub big_endian : ℕ → List ℕ → ℕ
big_endian n [] = n
big_endian n (byte ∷ bytes) = big_endian (n * 256 + byte) bytes

-- `netip.AddrFromSlice`
unfoldable pub addr_from_slice : List ℕ → Option Addr
addr_from_slice ip =
    if length ip == 4
    then some (v4 (big_endian 0 ip))
    else if length ip == 16
    then some (v6 (big_endian 0 ip))
    else none

-- `Addr.Unmap`: the address within `::ffff:0:0/96`, any other as it is.
unfoldable pub unmap : Addr → Addr
unmap (v4 a) = v4 a
unmap (v6 a) = if a / 2 ^ 32 == 0xffff then v4 (a % 2 ^ 32) else v6 a

unfoldable pub is_loopback : Addr → Bool
is_loopback (v4 a) = a / 2 ^ 24 == 127
is_loopback (v6 a) = a == 1

unfoldable pub is_private : Addr → Bool
is_private (v4 a) =
    a / 2 ^ 24 == 10 || (a / 2 ^ 20 == 172 * 16 + 1 || a / 2 ^ 16 == 192 * 256 + 168)
is_private (v6 a) = a / 2 ^ 121 == 0x7e

unfoldable pub is_link_local_unicast : Addr → Bool
is_link_local_unicast (v4 a) = a / 2 ^ 16 == 169 * 256 + 254
is_link_local_unicast (v6 a) = a / 2 ^ 118 == 0x3fa

-- Of IPv6 addresses, the first byte and the low half of the second are read.
unfoldable pub is_link_local_multicast : Addr → Bool
is_link_local_multicast (v4 a) = a / 2 ^ 8 == 224 * 65536
is_link_local_multicast (v6 a) = a / 2 ^ 120 == 0xff && a / 2 ^ 112 % 16 == 2

unfoldable pub is_interface_local_multicast : Addr → Bool
is_interface_local_multicast (v4 a) = false
is_interface_local_multicast (v6 a) = a / 2 ^ 120 == 0xff && a / 2 ^ 112 % 16 == 1

unfoldable pub is_multicast : Addr → Bool
is_multicast (v4 a) = a / 2 ^ 28 == 14
is_multicast (v6 a) = a / 2 ^ 120 == 0xff

unfoldable pub is_unspecified : Addr → Bool
is_unspecified (v4 a) = a == 0
is_unspecified (v6 a) = a == 0

-- `netip.Prefix`
pub record Prefix : Type 0 where
  pub addr : Addr
  pub bits : ℕ

-- `Prefix.Contains`: the same leading bits, of an address of the same length.
unfoldable pub contains : Addr → ℕ → Addr → Bool
contains (v4 p) bits (v4 a) = a / 2 ^ (32 - bits) == p / 2 ^ (32 - bits)
contains (v6 p) bits (v6 a) = a / 2 ^ (128 - bits) == p / 2 ^ (128 - bits)
contains (v4 p) bits (v6 a) = false
contains (v6 p) bits (v4 a) = false

-- `192.0.2.0/24` and, by its first three groups, `64:ff9b:1::/48`.
abbrev pub prefix4 : ℕ → ℕ → ℕ → ℕ → ℕ → Prefix
prefix4 a b c d bits = record { addr = v4 (big_endian 0 (a ∷ b ∷ c ∷ d ∷ [])); bits = bits }

abbrev pub prefix6 : ℕ → ℕ → ℕ → ℕ → Prefix
prefix6 a b c bits = record { addr = v6 (((a * 2 ^ 16 + b) * 2 ^ 16 + c) * 2 ^ 80); bits = bits }

abbrev pub disallowed_prefixes_v4 : List Prefix
disallowed_prefixes_v4 =
    prefix4 100 64 0 0 10
    ∷ prefix4 192 0 0 0 24
    ∷ prefix4 192 0 2 0 24
    ∷ prefix4 198 18 0 0 15
    ∷ prefix4 198 51 100 0 24
    ∷ prefix4 203 0 113 0 24
    ∷ prefix4 240 0 0 0 4
    ∷ []

abbrev pub disallowed_prefixes_v6 : List Prefix
disallowed_prefixes_v6 =
    prefix6 0x2001 0xdb8 0 32
    ∷ prefix6 0x64 0xff9b 0 96
    ∷ prefix6 0x64 0xff9b 1 48
    ∷ prefix6 0x100 0 0 64
    ∷ []

abbrev pub disallowed_prefixes : List Prefix
disallowed_prefixes = disallowed_prefixes_v4 ++ disallowed_prefixes_v6

-- An address without a value does not occur, so that `IsValid` holds.
unfoldable pub is_non_public : Addr → Bool
unfolding is_loopback is_private is_link_local_unicast is_link_local_multicast
    is_interface_local_multicast is_multicast is_unspecified contains
is_non_public addr =
    is_loopback addr
    || (is_private addr
        || (is_link_local_unicast addr
            || (is_link_local_multicast addr
                || (is_interface_local_multicast addr
                    || (is_multicast addr
                        || (is_unspecified addr
                            || any (λ prefix. contains prefix.addr prefix.bits addr)
                                disallowed_prefixes))))))

unfoldable pub is_disallowed_addr : Option Addr → Bool
unfolding is_non_public unmap
is_disallowed_addr none = true
is_disallowed_addr (some addr) = is_non_public (unmap addr)

unfoldable pub is_disallowed_ip : List ℕ → Bool
unfolding is_disallowed_addr addr_from_slice
is_disallowed_ip ip = is_disallowed_addr (addr_from_slice ip)
