-- ===== src/Settings/AllowLists.antt =====
-- parse.go: a setting that is set never becomes an allow list without a rule.
use mcp_oauth_gateway.Base.{
  Str, lit, true, Option, none, some, List, [], ◌∷◌, ◌++◌, ◌≡◌, ◌≢◌, refl, sym, ◌∙◌, ap, ◌⊎◌, inl,
  inr, All, ◌==◌, nat_eq, str_eq, eq_iff, trim_space, has_prefix, Bool-cases,
}
use mcp_oauth_gateway.Settings.{
  ◌>>=◌, split_csv, split_escaped_csv, nonblank, unless_empty, parse_allow_list, Attributes,
  add_value, parse_attribute, add_attributes, parse_attribute_map, OidcAllowListSettings,
  OidcAllowLists, parse, cut, split_with_escapes,
}

bind-some :
    {A B : Type 0} (m : Option A) (f : A → Option B) (x : B)
    → (m >>= f) ≡ some x
    → (a : A) × (m ≡ some a) × (f a ≡ some x)
unfolding ◌>>=◌
bind-some none f x e = cc e
bind-some (some a) f x e = (a, refl, e)

-- The list has an entry, each of which is not blank.
abbrev pub HasEntries : List Str → Type 0
HasEntries l = (l ≢ []) × All (λ entry. entry ≢ []) l

nonblank-All : (l : List Str) → All (λ entry. entry ≢ []) (nonblank l)
unfolding nonblank
nonblank-All [] = tt
nonblank-All (entry ∷ rest) = elim (Bool-cases (trim_space entry == [])) [
  | inl blank ↦ rw blank (nonblank-All rest)
  | inr filled ↦
      rw filled ((λ e. cc (sym filled ∙ (eq_iff (trim_space entry) []).1 e)), nonblank-All rest)
]

unless_empty-some : {A : Type 0} (l m : List A) → unless_empty l ≡ some m → (m ≢ []) × (l ≡ m)
unfolding unless_empty
unless_empty-some [] m e = cc e
unless_empty-some (a ∷ l) m e =
    let same : (a ∷ l) ≡ m = cc e in ((λ blank. cc (same ∙ blank)), same)

-- An unset setting gives no rule, and one that is set gives rules.
abbrev pub Reads : {A : Type 0} → (List A → Type 0) → Str → List A → Type 0
Reads rules raw entries = ((raw ≡ []) × (entries ≡ [])) ⊎ ((raw ≢ []) × rules entries)

parse_allow_list-HasEntries :
    (raw : Str) (split_raw : Str → List Str) (entries : List Str)
    → parse_allow_list raw split_raw ≡ some entries
    → Reads HasEntries raw entries
unfolding parse_allow_list
parse_allow_list-HasEntries [] split_raw entries e = inl (refl, cc e)
parse_allow_list-HasEntries (c ∷ raw) split_raw entries e =
    let (filled, same) = unless_empty-some (nonblank (split_raw (c ∷ raw))) entries e in
    inr ((λ blank. cc blank), (filled, rw same at (nonblank-All (split_raw (c ∷ raw)))))

-- A rule: a JSON pointer with values.
abbrev pub IsRule : Str × List Str → Type 0
IsRule a = (has_prefix a.0 (lit "/") ≡ true) × HasEntries a.1

abbrev pub HasRules : Attributes → Type 0
HasRules l = (l ≢ []) × All IsRule l

append_one-HasEntries :
    (values : List Str) (value : Str)
    → All (λ v. v ≢ []) values
    → value ≢ []
    → HasEntries (values ++ value ∷ [])
append_one-HasEntries [] value h v = ((λ e. cc e), (v, tt))
append_one-HasEntries (w ∷ values) value (x, h) v =
    ((λ e. cc e), (x, (append_one-HasEntries values value h v).1))

add_value-All :
    (key value : Str) (l : Attributes)
    → has_prefix key (lit "/") ≡ true
    → value ≢ []
    → All IsRule l
    → All IsRule (add_value key value l)
unfolding add_value
add_value-All key value [] k v h = ((k, append_one-HasEntries [] value tt v), tt)
add_value-All key value ((j, values) ∷ l) k v (rule, h) = elim (Bool-cases (j == key)) [
  | inl same ↦ rw same ((rule.0, append_one-HasEntries values value rule.1.1 v), h)
  | inr other ↦ rw other (rule, add_value-All key value l k v h)
]

parse_attribute-some :
    (o : Option (Str × Str)) (p : Str × Str)
    → parse_attribute o ≡ some p
    → (has_prefix p.0 (lit "/") ≡ true) × (p.1 ≢ [])
unfolding parse_attribute
parse_attribute-some none p e = cc e
parse_attribute-some (some (key, value)) p e =
    elim (Bool-cases (has_prefix (trim_space key) (lit "/"))) [
      | inr other ↦ cc (rw other at e)
      | inl pointer ↦ elim (Bool-cases (trim_space value == [])) [
        | inl blank ↦ cc (rw (pointer, blank) at e)
        | inr filled ↦
            let same : (trim_space key, trim_space value) ≡ p = cc (rw (pointer, filled) at e) in
            rw (sym same) (pointer, (λ b. cc (sym filled ∙ (eq_iff (trim_space value) []).1 b)))
      ]
    ]

add_attributes-All :
    (parts : List Str) (l m : Attributes)
    → add_attributes parts l ≡ some m
    → All IsRule l
    → All IsRule m
unfolding add_attributes
add_attributes-All [] l m e h = let same : l ≡ m = cc e in rw (sym same) h
add_attributes-All (part ∷ rest) l m e h = elim (Bool-cases (trim_space part == [])) [
  | inl blank ↦ add_attributes-All rest l m (rw blank at e) h
  | inr filled ↦
      let (p, parsed, e') =
        bind-some (parse_attribute (cut b'=' (trim_space part)))
          (λ p. add_attributes rest (add_value p.0 p.1 l)) m (rw filled at e) in
      let (pointer, valued) = parse_attribute-some (cut b'=' (trim_space part)) p parsed in
      add_attributes-All rest (add_value p.0 p.1 l) m e' (add_value-All p.0 p.1 l pointer valued h)
]

parse_attribute_map-HasRules :
    (raw : Str) (l : Attributes) → parse_attribute_map raw ≡ some l → Reads HasRules raw l
unfolding parse_attribute_map
parse_attribute_map-HasRules [] l e = inl (refl, cc e)
parse_attribute_map-HasRules (c ∷ raw) l e =
    let (m, added, e') =
      bind-some (add_attributes (split_with_escapes (c ∷ raw) b',' []) []) unless_empty l e in
    let (filled, same) = unless_empty-some m l e' in
    inr (
      (λ blank. cc blank),
      (
        filled,
        rw same at (add_attributes-All (split_with_escapes (c ∷ raw) b',' []) [] m added tt),
      ),
    )

all_read :
    (u g : Option (List Str)) (a b : Option Attributes) (l : OidcAllowLists)
    → (u >>= λ users. g >>= λ users_glob. a >>= λ attributes. b >>= λ attributes_glob.
        some (record {
          users = users;
          users_glob = users_glob;
          attributes = attributes;
          attributes_glob = attributes_glob;
        }))
      ≡ some l
    → (u ≡ some l.users)
      × (g ≡ some l.users_glob)
      × (a ≡ some l.attributes)
      × (b ≡ some l.attributes_glob)
unfolding ◌>>=◌
all_read none g a b l e = cc e
all_read (some u) none a b l e = cc e
all_read (some u) (some g) none b l e = cc e
all_read (some u) (some g) (some a) none l e = cc e
all_read (some u) (some g) (some a) (some b) l e =
    let same : record { users = u; users_glob = g; attributes = a; attributes_glob = b } ≡ l =
      cc e in
    (
      ap (λ x. some x.users) same,
      ap (λ x. some x.users_glob) same,
      ap (λ x. some x.attributes) same,
      ap (λ x. some x.attributes_glob) same,
    )

-- If the four settings are accepted, each that is not set gives no rule, and each that is set gives at
-- least one, with no blank entry and only JSON pointers as keys.
pub parse-Reads :
    (s : OidcAllowListSettings) (l : OidcAllowLists)
    → parse s ≡ some l
    → Reads HasEntries s.users l.users
      × Reads HasEntries s.users_glob l.users_glob
      × Reads HasRules s.attributes l.attributes
      × Reads HasRules s.attributes_glob l.attributes_glob
unfolding parse
parse-Reads s l e =
    let (users, users_glob, attributes, attributes_glob) =
      all_read (parse_allow_list s.users split_csv)
        (parse_allow_list s.users_glob split_escaped_csv) (parse_attribute_map s.attributes)
        (parse_attribute_map s.attributes_glob) l e in
    (
      parse_allow_list-HasEntries s.users split_csv l.users users,
      parse_allow_list-HasEntries s.users_glob split_escaped_csv l.users_glob users_glob,
      parse_attribute_map-HasRules s.attributes l.attributes attributes,
      parse_attribute_map-HasRules s.attributes_glob l.attributes_glob attributes_glob,
    )
