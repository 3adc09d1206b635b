-- ===== src/Base/Order.antt =====
-- The order of Go strings, which is that of the bytes: lexicographic.
use mathlib.Core.Path.{◌≡◌, refl}
use mathlib.Core.Bool.{Bool, true, false, ◌&&◌, ◌||◌}
use mathlib.Core.List.{[], ◌∷◌}
use native.Mathlib.Omega.{arith}
use mcp_oauth_gateway.Base.Tests.{ltb, nat_eqb}
use mcp_oauth_gateway.Base.Strings.{Str, str_eqb, has_prefix}

unfoldable pub str_ltb : Str → Str → Bool
str_ltb [] [] = false
str_ltb [] (b ∷ t) = true
str_ltb (a ∷ s) [] = false
str_ltb (a ∷ s) (b ∷ t) = ltb a b || (nat_eqb a b && str_ltb s t)

-- Between a prefix and a string that has it, every string has it.
pub has_prefix-between :
    (p s t : Str)
    → str_ltb s p ≡ false
    → str_ltb s t ≡ true
    → has_prefix t p ≡ true
    → has_prefix s p ≡ true
unfolding str_ltb has_prefix
has_prefix-between [] s t h k l = refl
has_prefix-between (a ∷ p) [] t h k l = ground arith
has_prefix-between (a ∷ p) (b ∷ s) [] h k l = ground arith
has_prefix-between (a ∷ p) (b ∷ s) (c ∷ t) h k l = ground (arith, has_prefix-between p s t)

pub str_ltb_irrefl : (s : Str) → str_ltb s s ≡ false
unfolding str_ltb
str_ltb_irrefl [] = refl
str_ltb_irrefl (a ∷ s) = ground (arith, str_ltb_irrefl s)

-- A string is not before its prefix.
pub has_prefix-le : (p s : Str) → has_prefix s p ≡ true → str_ltb s p ≡ false
unfolding str_ltb has_prefix
has_prefix-le [] [] h = refl
has_prefix-le [] (b ∷ s) h = refl
has_prefix-le (a ∷ p) [] h = ground arith
has_prefix-le (a ∷ p) (b ∷ s) h = ground (arith, has_prefix-le p s)

pub str_ltb_trans : (s t u : Str) → str_ltb s t ≡ true → str_ltb t u ≡ true → str_ltb s u ≡ true
unfolding str_ltb
str_ltb_trans [] [] u h k = ground arith
str_ltb_trans [] (b ∷ t) [] h k = ground arith
str_ltb_trans [] (b ∷ t) (c ∷ u) h k = refl
str_ltb_trans (a ∷ s) [] u h k = ground arith
str_ltb_trans (a ∷ s) (b ∷ t) [] h k = ground arith
str_ltb_trans (a ∷ s) (b ∷ t) (c ∷ u) h k = ground (arith, str_ltb_trans s t u)

pub str_ltb_total : (s t : Str) → str_ltb s t ≡ false → str_eqb s t ≡ false → str_ltb t s ≡ true
unfolding str_ltb str_eqb
str_ltb_total [] [] h k = ground (arith, k)
str_ltb_total [] (b ∷ t) h k = ground arith
str_ltb_total (a ∷ s) [] h k = refl
str_ltb_total (a ∷ s) (b ∷ t) h k = ground (arith, str_ltb_total s t)
