-- ===== src/Settings.antt =====
-- parse.go: the settings that are lists. An error is `none`; its text is left out. A map is the list of
-- its entries in the order of their first appearance, which no reader observes.
pub mod Escapes
pub mod AllowLists
mod Tests
use mcp_oauth_gateway.Base.{
  ℕ, zero, suc, Str, lit, Bool, true, false, not, ◌&&◌, ◌||◌, Option, none, some, List, [], ◌∷◌,
  ◌++◌, map, length, if◌then◌else◌, ◌==◌, nat_eq, str_eq, has_prefix, split, trim_space,
}

infixl 5 ◌>>=◌
unfoldable pub ◌>>=◌ {ℓ κ} : {A : Type ℓ} {B : Type κ} → Option A → (A → Option B) → Option B
none >>= f = none
some a >>= f = f a

unfoldable pub split_csv : Str → List Str
unfolding split trim_space
split_csv [] = []
split_csv (c ∷ s) = map trim_space (split b',' (c ∷ s))

-- After a backslash, or with so many letters of a delimiter still to skip.
pub data Mark : Type 0 where
  escaped : Mark
  skipping : ℕ → Mark

-- One turn of the loop, before the rest `s`: the mark, the current part, the parts that are finished.
unfoldable pub take_letter : ℕ → Str → ℕ → Str → Str → Mark × (Str × List Str)
unfolding trim_space has_prefix
take_letter d ds c s current =
    if c == b'\\' && not (s == [])
    then if has_prefix s (d ∷ ds)
      then (escaped, (current, []))
      else (skipping 0, (current ++ c ∷ [], []))
    else if has_prefix (c ∷ s) (d ∷ ds)
    then (skipping (length ds), ([], trim_space current ∷ []))
    else (skipping 0, (current ++ c ∷ [], []))

unfoldable pub split_step : ℕ → Str → Mark → Str → ℕ → Str → Mark × (Str × List Str)
unfolding take_letter
split_step d ds escaped current c s = (skipping 0, (current ++ c ∷ [], []))
split_step d ds (skipping (suc n)) current c s = (skipping n, (current, []))
split_step d ds (skipping zero) current c s = take_letter d ds c s current

unfoldable pub split_from : ℕ → Str → Mark → Str → Str → List Str
unfolding split_step trim_space
split_from d ds mark current [] = trim_space current ∷ []
split_from d ds mark current (c ∷ s) =
    let (next, (grown, finished)) = split_step d ds mark current c s in
    finished ++ split_from d ds next grown s

-- The delimiter is `d` and then `ds`: an empty one would not end.
unfoldable pub split_with_escapes : Str → ℕ → Str → List Str
unfolding split_from
split_with_escapes [] d ds = []
split_with_escapes (c ∷ s) d ds = split_from d ds (skipping 0) [] (c ∷ s)

unfoldable pub split_escaped_csv : Str → List Str
unfolding split_with_escapes
split_escaped_csv s = split_with_escapes s b',' []

-- The entries that are not blank.
unfoldable pub nonblank : List Str → List Str
unfolding trim_space
nonblank [] = []
nonblank (entry ∷ rest) =
    let more = nonblank rest in if trim_space entry == [] then more else trim_space entry ∷ more

unfoldable pub unless_empty {ℓ} : {A : Type ℓ} → List A → Option (List A)
unless_empty [] = none
unless_empty (a ∷ l) = some (a ∷ l)

unfoldable pub parse_allow_list : Str → (Str → List Str) → Option (List Str)
unfolding nonblank unless_empty
parse_allow_list [] split_raw = some []
parse_allow_list (c ∷ s) split_raw = unless_empty (nonblank (split_raw (c ∷ s)))

-- `strings.Cut s "="`, `none` if there is no such letter.
unfoldable pub cut : ℕ → Str → Option (Str × Str)
cut sep [] = none
cut sep (c ∷ s) =
    let later = cut sep s in
    if c == sep then some ([], s) else elim later [ none ↦ none | some p ↦ some (c ∷ p.0, p.1) ]

-- The same at the last such letter.
unfoldable pub cut_last : ℕ → Str → Option (Str × Str)
cut_last sep [] = none
cut_last sep (c ∷ s) = elim (cut_last sep s) [
  | some p ↦ some (c ∷ p.0, p.1)
  | none ↦ if c == sep then some ([], s) else none
]

abbrev pub Attributes : Type 0
Attributes = List (Str × List Str)

-- `result[key] = append(result[key], value)`
unfoldable pub add_value : Str → Str → Attributes → Attributes
add_value key value [] = (key, value ∷ []) ∷ []
add_value key value ((k, values) ∷ rest) =
    let later = add_value key value rest in
    if k == key then (k, values ++ value ∷ []) ∷ rest else (k, values) ∷ later

unfoldable pub parse_attribute : Option (Str × Str) → Option (Str × Str)
unfolding trim_space has_prefix
parse_attribute none = none
parse_attribute (some (key, value)) =
    if not (has_prefix (trim_space key) (lit "/"))
    then none
    else if trim_space value == []
    then none
    else some (trim_space key, trim_space value)

-- The loop over the parts, with the map so far.
unfoldable pub add_attributes : List Str → Attributes → Option Attributes
unfolding trim_space cut parse_attribute add_value ◌>>=◌
add_attributes [] result = some result
add_attributes (part ∷ rest) result =
    if trim_space part == []
    then add_attributes rest result
    else parse_attribute (cut b'=' (trim_space part)) >>= λ p.
        add_attributes rest (add_value p.0 p.1 result)

unfoldable pub parse_attribute_map : Str → Option Attributes
unfolding split_with_escapes add_attributes unless_empty ◌>>=◌
parse_attribute_map [] = some []
parse_attribute_map (c ∷ s) =
    add_attributes (split_with_escapes (c ∷ s) b',' []) [] >>= unless_empty

pub record OidcAllowListSettings : Type 0 where
  pub users : Str
  pub users_glob : Str
  pub attributes : Str
  pub attributes_glob : Str

pub record OidcAllowLists : Type 0 where
  pub users : List Str
  pub users_glob : List Str
  pub attributes : Attributes
  pub attributes_glob : Attributes

unfoldable pub parse : OidcAllowListSettings → Option OidcAllowLists
unfolding parse_allow_list parse_attribute_map ◌>>=◌
parse s = parse_allow_list s.users split_csv >>= λ users.
    parse_allow_list s.users_glob split_escaped_csv >>= λ users_glob.
    parse_attribute_map s.attributes >>= λ attributes.
    parse_attribute_map s.attributes_glob >>= λ attributes_glob. some (record {
      users = users;
      users_glob = users_glob;
      attributes = attributes;
      attributes_glob = attributes_glob;
    })

-- `result[pointer] = header`
unfoldable pub set_header : Str → Str → List (Str × Str) → List (Str × Str)
set_header pointer header [] = (pointer, header) ∷ []
set_header pointer header ((p, h) ∷ rest) =
    let later = set_header pointer header rest in
    if p == pointer then (p, header) ∷ rest else (p, h) ∷ later

unfoldable pub add_mapping : Option (Str × Str) → List (Str × Str) → List (Str × Str)
unfolding trim_space set_header
add_mapping none result = result
add_mapping (some (pointer, header)) result =
    if trim_space pointer == [] || trim_space header == []
    then result
    else set_header (trim_space pointer) (trim_space header) result

-- A blank part has no colon.
unfoldable pub add_mappings : List Str → List (Str × Str) → List (Str × Str)
unfolding add_mapping cut_last trim_space
add_mappings [] result = result
add_mappings (part ∷ rest) result =
    add_mappings rest (add_mapping (cut_last b':' (trim_space part)) result)

unfoldable pub parse_header_mapping : Str → List (Str × Str)
unfolding split_with_escapes add_mappings
parse_header_mapping s = add_mappings (split_with_escapes s b',' []) []
