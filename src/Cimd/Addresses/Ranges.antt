-- ===== src/Cimd/Addresses/Ranges.antt =====
-- resolver.go: the addresses that are not dialled, as ranges of numbers.
use mcp_oauth_gateway.Base.{
  ℕ, ◌+◌, ◌-◌, ◌*◌, ◌/◌, ◌%◌, ◌^◌, ◌<◌, Bool, false, ◌&&◌, ◌||◌, List, [], ◌∷◌, length, map, any,
  ◌≡◌, refl, ◌∙◌, ap, ap₂, arith, ◌==◌, nat_eq, leb,
}
use mcp_oauth_gateway.Cimd.Addresses.{
  v4, v6, contains, disallowed_prefixes_v4, disallowed_prefixes_v6, big_endian, is_non_public,
  is_disallowed_ip, unmap,
}

-- Whether a number lies in a range, the ends included.
abbrev pub between : ℕ × ℕ → ℕ → Bool
between r a = leb r.0 a && leb a r.1

abbrev pub dotted : ℕ → ℕ → ℕ → ℕ → ℕ
dotted a b c d = big_endian 0 (a ∷ b ∷ c ∷ d ∷ [])

abbrev pub non_public_v4 : List (ℕ × ℕ)
non_public_v4 =
    (dotted 127 0 0 0, dotted 127 255 255 255)
    ∷ (dotted 10 0 0 0, dotted 10 255 255 255)
    ∷ (dotted 172 16 0 0, dotted 172 31 255 255)
    ∷ (dotted 192 168 0 0, dotted 192 168 255 255)
    ∷ (dotted 169 254 0 0, dotted 169 254 255 255)
    ∷ (dotted 224 0 0 0, dotted 239 255 255 255)
    ∷ (dotted 0 0 0 0, dotted 0 0 0 0)
    ∷ (dotted 100 64 0 0, dotted 100 127 255 255)
    ∷ (dotted 192 0 0 0, dotted 192 0 0 255)
    ∷ (dotted 192 0 2 0, dotted 192 0 2 255)
    ∷ (dotted 198 18 0 0, dotted 198 19 255 255)
    ∷ (dotted 198 51 100 0, dotted 198 51 100 255)
    ∷ (dotted 203 0 113 0, dotted 203 0 113 255)
    ∷ (dotted 240 0 0 0, dotted 255 255 255 255)
    ∷ []

-- The range of `n` and then so many free bits.
abbrev pub block : ℕ → ℕ → ℕ × ℕ
block n free = (n * 2 ^ free, n * 2 ^ free + (2 ^ free - 1))

abbrev pub non_public_v6 : List (ℕ × ℕ)
non_public_v6 =
    (1, 1)
    ∷ block 0x7e 121
    ∷ block 0x3fa 118
    ∷ block 0xff 120
    ∷ (0, 0)
    ∷ block 0x20010db8 96
    ∷ block 0x64ff9b0000000000000000 32
    ∷ block 0x64ff9b0001 80
    ∷ block 0x100000000000000 64
    ∷ []

-- The tests of the code, in the order of the ranges.
abbrev tests_v4 : ℕ → List Bool
tests_v4 a =
    (a / 2 ^ 24 == 127)
    ∷ (a / 2 ^ 24 == 10)
    ∷ (a / 2 ^ 20 == 172 * 16 + 1)
    ∷ (a / 2 ^ 16 == 192 * 256 + 168)
    ∷ (a / 2 ^ 16 == 169 * 256 + 254)
    ∷ ((a / 2 ^ 8 == 224 * 65536) || (a / 2 ^ 28 == 14))
    ∷ (a == 0)
    ∷ map (λ prefix. contains prefix.addr prefix.bits (v4 a)) disallowed_prefixes_v4

abbrev tests_v6 : ℕ → List Bool
tests_v6 a =
    (a == 1)
    ∷ (a / 2 ^ 121 == 0x7e)
    ∷ (a / 2 ^ 118 == 0x3fa)
    ∷ (a / 2 ^ 120 == 0xff)
    ∷ (a == 0)
    ∷ map (λ prefix. contains prefix.addr prefix.bits (v6 a)) disallowed_prefixes_v6

abbrev some_true : List Bool → Bool
some_true = any (λ b. b)

regroup_v4 :
    (l p q r u m i s : Bool) (rest : List Bool)
    → (l || ((p || (q || r)) || (u || (m || (false || (i || (s || some_true rest)))))))
      ≡ some_true (l ∷ p ∷ q ∷ r ∷ u ∷ (m || i) ∷ s ∷ rest)
regroup_v4 l p q r u m i s rest = ground arith

-- Both multicast tests with a scope are within the test for multicast.
regroup_v6 :
    (l p u m x y s : Bool) (rest : List Bool)
    → (l || (p || (u || ((m && x) || ((m && y) || (m || (s || some_true rest)))))))
      ≡ some_true (l ∷ p ∷ u ∷ m ∷ s ∷ rest)
regroup_v6 l p u m x y s rest = ground arith

infixr 67 ◌next◌
abbrev ◌next◌ : {a b : Bool} {l m : List Bool} → a ≡ b → l ≡ m → (a ∷ l) ≡ (b ∷ m)
e next f = ap₂ (λ x l. x ∷ l) e f

tests_v4-ranges : (a : ℕ) → a < 2 ^ 32 → tests_v4 a ≡ map (λ r. between r a) non_public_v4
unfolding contains
tests_v4-ranges a h =
    ground arith
    next ground arith
    next ground arith
    next ground arith
    next ground arith
    next ground arith
    next ground arith
    next ground arith
    next ground arith
    next ground arith
    next ground arith
    next ground arith
    next ground arith
    next ground arith
    next refl

tests_v6-ranges : (a : ℕ) → tests_v6 a ≡ map (λ r. between r a) non_public_v6
unfolding contains
tests_v6-ranges a =
    ground arith
    next ground arith
    next ground arith
    next ground arith
    next ground arith
    next ground arith
    next ground arith
    next ground arith
    next ground arith
    next refl

some_true-map :
    (l : List (ℕ × ℕ)) (a : ℕ) → some_true (map (λ r. between r a) l) ≡ any (λ r. between r a) l
some_true-map [] a = refl
some_true-map (r ∷ l) a = rw (some_true-map l a) refl

is_non_public_v4 :
    (a : ℕ) → a < 2 ^ 32 → is_non_public (v4 a) ≡ any (λ r. between r a) non_public_v4
unfolding is_non_public contains
is_non_public_v4 a h =
    regroup_v4 (a / 2 ^ 24 == 127) (a / 2 ^ 24 == 10) (a / 2 ^ 20 == 172 * 16 + 1)
      (a / 2 ^ 16 == 192 * 256 + 168) (a / 2 ^ 16 == 169 * 256 + 254) (a / 2 ^ 8 == 224 * 65536)
      (a / 2 ^ 28 == 14) (a == 0)
      (map (λ prefix. contains prefix.addr prefix.bits (v4 a)) disallowed_prefixes_v4)
    ∙ ap some_true (tests_v4-ranges a h)
    ∙ some_true-map non_public_v4 a

is_non_public_v6 : (a : ℕ) → is_non_public (v6 a) ≡ any (λ r. between r a) non_public_v6
unfolding is_non_public contains
is_non_public_v6 a =
    regroup_v6 (a == 1) (a / 2 ^ 121 == 0x7e) (a / 2 ^ 118 == 0x3fa) (a / 2 ^ 120 == 0xff)
      (a / 2 ^ 112 % 16 == 2) (a / 2 ^ 112 % 16 == 1) (a == 0)
      (map (λ prefix. contains prefix.addr prefix.bits (v6 a)) disallowed_prefixes_v6)
    ∙ ap some_true (tests_v6-ranges a)
    ∙ some_true-map non_public_v6 a

-- The bytes of an IPv4 address as an IPv4-mapped IPv6 address.
abbrev pub mapped : List ℕ → List ℕ
mapped ip = 0 ∷ 0 ∷ 0 ∷ 0 ∷ 0 ∷ 0 ∷ 0 ∷ 0 ∷ 0 ∷ 0 ∷ 0xff ∷ 0xff ∷ ip

unmap-mapped : (n : ℕ) → n < 2 ^ 32 → unmap (v6 (0xffff * 2 ^ 32 + n)) ≡ v4 n
unfolding unmap
unmap-mapped n h = ground arith

unmap_v6 : (n : ℕ) → (n / 2 ^ 32 == 0xffff) ≡ false → unmap (v6 n) ≡ v6 n
unfolding unmap
unmap_v6 n h = rw h refl

big_endian-mapped :
    (a b c d : ℕ) → big_endian 0 (mapped (a ∷ b ∷ c ∷ d ∷ [])) ≡ 0xffff * 2 ^ 32 + dotted a b c d
big_endian-mapped a b c d = omega arith

long_address :
    (ip : List ℕ)
    → length ip ≡ 16
    → is_disallowed_ip ip ≡ is_non_public (unmap (v6 (big_endian 0 ip)))
unfolding is_disallowed_ip
long_address ip long = rw long refl

-- An IPv4 address, in both forms, is refused exactly if its number is in one of fourteen ranges; an
-- IPv6 address that stands for no IPv4 address, exactly if its number is in one of nine.
pub is_disallowed_ip-between :
    (a b c d : ℕ) (ip : List ℕ)
    → dotted a b c d < 2 ^ 32
    → length ip ≡ 16
    → (big_endian 0 ip / 2 ^ 32 == 0xffff) ≡ false
    → (is_disallowed_ip (a ∷ b ∷ c ∷ d ∷ []) ≡ any (λ r. between r (dotted a b c d)) non_public_v4)
      × (is_disallowed_ip (mapped (a ∷ b ∷ c ∷ d ∷ []))
          ≡ any (λ r. between r (dotted a b c d)) non_public_v4)
      × (is_disallowed_ip ip ≡ any (λ r. between r (big_endian 0 ip)) non_public_v6)
unfolding is_disallowed_ip
is_disallowed_ip-between a b c d ip h long other = (
  is_non_public_v4 (dotted a b c d) h,
  ap (λ n. is_non_public (unmap (v6 n))) (big_endian-mapped a b c d)
      ∙ ap is_non_public (unmap-mapped (dotted a b c d) h)
      ∙ is_non_public_v4 (dotted a b c d) h,
  long_address ip long
      ∙ ap is_non_public (unmap_v6 (big_endian 0 ip) other)
      ∙ is_non_public_v6 (big_endian 0 ip),
)
