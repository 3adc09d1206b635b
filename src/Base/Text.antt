-- ===== src/Base/Text.antt =====
-- What the code uses of package strings, on code points.
use Prim.Native.Nat.{ℕ, ◌+◌}
use mathlib.Core.Bool.{Bool, ◌&&◌, ◌||◌}
use mathlib.Core.List.{List, [], ◌∷◌, ◌++◌}
use mcp_oauth_gateway.Base.Tests.{leb, nat_eqb, if◌then◌else◌}
use mcp_oauth_gateway.Base.Strings.{Str}

-- `strings.Split s sep` for a separator of one letter.
unfoldable pub split : ℕ → Str → List Str
split sep [] = [] ∷ []
split sep (c ∷ s) = elim (split sep s) [
  | [] ↦ []
  | part ∷ rest ↦ if nat_eqb c sep then [] ∷ part ∷ rest else (c ∷ part) ∷ rest
]

-- `strings.TrimPrefix s p` of a string that has the prefix.
unfoldable pub drop_prefix : Str → Str → Str
drop_prefix s [] = s
drop_prefix [] (_ ∷ p) = []
drop_prefix (_ ∷ s) (_ ∷ p) = drop_prefix s p

-- `unicode.IsSpace`
unfoldable pub is_space : ℕ → Bool
is_space c =
    leb 9 c && leb c 13
    || nat_eqb c b' '
    || nat_eqb c 0x85
    || nat_eqb c 0xa0
    || nat_eqb c 0x1680
    || leb 0x2000 c && leb c 0x200a
    || nat_eqb c 0x2028
    || nat_eqb c 0x2029
    || nat_eqb c 0x202f
    || nat_eqb c 0x205f
    || nat_eqb c 0x3000

unfoldable pub trim_left : Str → Str
unfolding is_space
trim_left [] = []
trim_left (c ∷ s) = let rest = trim_left s in if is_space c then rest else c ∷ s

-- Trailing spaces.
unfoldable pub trim_right : Str → Str
unfolding is_space
trim_right [] = []
trim_right (c ∷ s) = elim (trim_right s) [
  | [] ↦ if is_space c then [] else c ∷ []
  | d ∷ rest ↦ c ∷ d ∷ rest
]

unfoldable pub trim_space : Str → Str
unfolding trim_left trim_right
trim_space s = trim_right (trim_left s)

-- `unicode.ToLower`, as far as the result is ASCII: two letters beyond ASCII have an ASCII lower case,
-- U+0130 and U+212A. Any other goes to a letter beyond ASCII, for which it stands itself.
unfoldable pub to_lower : ℕ → ℕ
to_lower c =
    if leb b'A' c && leb c b'Z'
    then c + 32
    else if nat_eqb c 0x130
    then b'i'
    else if nat_eqb c 0x212a
    then b'k'
    else c

-- What is before the first occurrence of a letter, all if there is none.
unfoldable pub before : ℕ → Str → Str
before sep [] = []
before sep (c ∷ s) = let rest = before sep s in if nat_eqb c sep then [] else c ∷ rest

-- `strings.Join parts ","`
unfoldable pub join_commas : List Str → Str
join_commas [] = []
join_commas (part ∷ []) = part
join_commas (part ∷ (more ∷ rest)) = part ++ b',' ∷ join_commas (more ∷ rest)

-- `strings.Fields`: the parts between white space; `word` is the part that is being read.
unfoldable pub fields_from : Str → Str → List Str
unfolding is_space
fields_from [] [] = []
fields_from (d ∷ word) [] = (d ∷ word) ∷ []
fields_from [] (c ∷ s) = fields_from (if is_space c then [] else c ∷ []) s
fields_from (d ∷ word) (c ∷ s) =
    let ended = (d ∷ word) ∷ fields_from [] s in
    let longer = fields_from (d ∷ word ++ c ∷ []) s in if is_space c then ended else longer

unfoldable pub fields : Str → List Str
unfolding fields_from
fields s = fields_from [] s
