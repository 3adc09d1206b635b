-- ===== src/Base/Strings.antt =====
-- A Go string, as the list of its code points. Strings are taken to be valid UTF-8, for which
-- equality, prefixes and the order of the bytes agree with those of the code points.
use Prim.Native.Char.{code}
use Prim.Native.String.{String}
use Prim.Native.Nat.{ℕ}
use mathlib.Core.Path.{◌≡◌, refl}
use mathlib.Core.Logic.{◌↔◌}
use mathlib.Core.Bool.{Bool, true, false, ◌&&◌}
use mathlib.Core.List.{List, [], ◌∷◌, ◌++◌}
use native.Mathlib.Omega.{arith}
use mcp_oauth_gateway.Base.Tests.{nat_eqb, Eq}

abbrev pub Str : Type 0
Str = List ℕ

-- A literal of the source.
abbrev pub lit : String → Str
lit String.[] = []
lit (String.◌∷◌ c s) = code c ∷ lit s

unfoldable pub str_eqb : Str → Str → Bool
str_eqb [] [] = true
str_eqb (a ∷ s) (b ∷ t) = nat_eqb a b && str_eqb s t
str_eqb _ _ = false

pub eq_refl : (s : Str) → str_eqb s s ≡ true
unfolding str_eqb
eq_refl [] = refl
eq_refl (a ∷ s) = ground (arith, eq_refl s)

eq_sound : (s t : Str) → str_eqb s t ≡ true → s ≡ t
unfolding str_eqb
eq_sound [] [] h = refl
eq_sound [] (b ∷ t) h = ground arith
eq_sound (a ∷ s) [] h = ground arith
eq_sound (a ∷ s) (b ∷ t) h = ground (arith, eq_sound s t)

pub eq_iff : (s t : Str) → (str_eqb s t ≡ true) ↔ (s ≡ t)
eq_iff s t = (eq_sound s t, λ e. ground (arith, e, eq_refl s))

instance abbrev pub str_eq : Eq Str
str_eq = record { same = str_eqb; same_iff = eq_iff }

-- `strings.HasPrefix s p`.
unfoldable pub has_prefix : Str → Str → Bool
has_prefix s [] = true
has_prefix [] (_ ∷ _) = false
has_prefix (a ∷ s) (b ∷ p) = nat_eqb a b && has_prefix s p

pub has_prefix-append : (p s : Str) → has_prefix (p ++ s) p ≡ true
unfolding has_prefix
has_prefix-append [] s = refl
has_prefix-append (a ∷ p) s = ground (arith, has_prefix-append p s)
