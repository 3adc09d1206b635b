-- ===== src/Proxy/Headers.antt =====
-- `http.Header` as pkg/proxy/proxy.go uses it: a map from canonical names to values.
use mcp_oauth_gateway.Base.{
  ℕ, ◌+◌, ◌-◌, Str, Bool, true, false, ◌&&◌, ◌||◌, Option, none, some, List, [], ◌∷◌, ◌++◌, all,
  leb, if◌then◌else◌, ◌==◌, nat_eq, str_eq, Map, insert, delete,
}

abbrev pub Header : Type 0
Header = Map (List Str)

-- The letters of a header name: `!#$%&'*+-.^_`|~`, digits and letters.
unfoldable pub is_token : ℕ → Bool
is_token c =
    leb b'a' c && leb c b'z'
    || leb b'A' c && leb c b'Z'
    || leb b'0' c && leb c b'9'
    || c == 33
    || leb 35 c && leb c 39
    || c == 42
    || c == 43
    || c == 45
    || c == 46
    || c == 94
    || c == 95
    || c == 96
    || c == 124
    || c == 126

unfoldable pub recased : Bool → ℕ → ℕ
recased true c = if leb b'a' c && leb c b'z' then c - 32 else c
recased false c = if leb b'A' c && leb c b'Z' then c + 32 else c

-- Upper case at the start and after a dash.
unfoldable pub recase : Bool → Str → Str
unfolding recased
recase upper [] = []
recase upper (c ∷ s) = recased upper c ∷ recase (c == 45) s

-- `textproto.CanonicalMIMEHeaderKey`: a name with another letter is left as it is.
unfoldable pub canonical : Str → Str
unfolding is_token recase
canonical name = if all is_token name then recase true name else name

unfoldable pub header_get : Str → Header → Str
unfolding canonical
header_get name h = elim (h (canonical name)) [
  | none ↦ []
  | some values ↦ elim values [ [] ↦ [] | v ∷ _ ↦ v ]
]

unfoldable pub header_del : Str → Header → Header
unfolding canonical
header_del name h = delete (canonical name) h

unfoldable pub header_set : Str → Str → Header → Header
unfolding canonical
header_set name value h = insert (canonical name) (value ∷ []) h

unfoldable pub added : Str → Option (List Str) → List Str
added value none = value ∷ []
added value (some values) = values ++ value ∷ []

unfoldable pub header_add : Str → Str → Header → Header
unfolding canonical added
header_add name value h = insert (canonical name) (added value (h (canonical name))) h
