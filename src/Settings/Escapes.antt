-- ===== src/Settings/Escapes.antt =====
-- parse.go: an escaped list is read back.
use mcp_oauth_gateway.Base.{
  ℕ, Str, Bool, true, false, not, ◌&&◌, List, [], ◌∷◌, ◌++◌, ◌≡◌, ◌≢◌, refl, sym, ◌∙◌, ap, inl, inr,
  arith, All, append_assoc, append_nil, str_eqb, if◌then◌else◌, ◌==◌, nat_eq, str_eq, has_prefix,
  trim_space, Bool-cases,
}
use mcp_oauth_gateway.Settings.{
  skipping, take_letter, split_step, split_from, split_with_escapes, split_escaped_csv,
}

-- A backslash before each comma.
abbrev pub escape : Str → Str
escape [] = []
escape (c ∷ s) = if c == b',' then b'\\' ∷ c ∷ escape s else c ∷ escape s

abbrev pub join_escaped : List Str → Str
join_escaped [] = []
join_escaped (part ∷ []) = escape part
join_escaped (part ∷ (more ∷ rest)) = escape part ++ b',' ∷ join_escaped (more ∷ rest)

-- The part does not end in a backslash.
abbrev pub ends_plain : Str → Bool
ends_plain [] = true
ends_plain (c ∷ []) = not (c == b'\\')
ends_plain (c ∷ (d ∷ s)) = ends_plain (d ∷ s)

plain_letter :
    (c : ℕ) (s current : Str)
    → (c == b',') ≡ false
    → (c == b'\\' && has_prefix s (b',' ∷ [])) ≡ false
    → take_letter b',' [] c s current ≡ (skipping 0, (current ++ c ∷ [], []))
unfolding take_letter has_prefix
plain_letter c s current h k = elim (Bool-cases (c == b'\\')) [
  | inl slash ↦ ground (arith, h, k, slash)
  | inr other ↦ rw (other, h) refl
]

split_from-plain :
    (c : ℕ) (s current : Str)
    → (c == b',') ≡ false
    → (c == b'\\' && has_prefix s (b',' ∷ [])) ≡ false
    → split_from b',' [] (skipping 0) current (c ∷ s)
      ≡ split_from b',' [] (skipping 0) (current ++ c ∷ []) s
unfolding split_from split_step
split_from-plain c s current h k = rw (plain_letter c s current h k) refl

split_from-comma :
    (c : ℕ) (s current : Str)
    → (c == b',') ≡ true
    → split_from b',' [] (skipping 0) current (b'\\' ∷ c ∷ s)
      ≡ split_from b',' [] (skipping 0) (current ++ c ∷ []) s
unfolding split_from split_step take_letter has_prefix str_eqb
split_from-comma c s current h = rw h refl

-- What follows a letter of an escaped part is no comma, if something of the part follows.
escape_head : (d : ℕ) (p rest : Str) → has_prefix (escape (d ∷ p) ++ rest) (b',' ∷ []) ≡ false
unfolding has_prefix
escape_head d p rest = ground arith

split_from-escape :
    (p current rest : Str)
    → ends_plain p ≡ true
    → split_from b',' [] (skipping 0) current (escape p ++ rest)
      ≡ split_from b',' [] (skipping 0) (current ++ p) rest
split_from-escape [] current rest h = rw (append_nil current) refl
split_from-escape (c ∷ p) current rest h = elim (Bool-cases (c == b',')) [
  | inl comma ↦ rw comma (
      split_from-comma c (escape p ++ rest) current comma
      ∙ split_from-escape p (current ++ c ∷ []) rest (ends_plain-tail c p h)
      ∙ ap (λ x. split_from b',' [] (skipping 0) x rest) (append_assoc current (c ∷ []) p))
  | inr plain ↦ rw plain (
      split_from-plain c (escape p ++ rest) current plain (no_comma c p h)
      ∙ split_from-escape p (current ++ c ∷ []) rest (ends_plain-tail c p h)
      ∙ ap (λ x. split_from b',' [] (skipping 0) x rest) (append_assoc current (c ∷ []) p))
]
  where
    ends_plain-tail : (c : ℕ) (p : Str) → ends_plain (c ∷ p) ≡ true → ends_plain p ≡ true
    ends_plain-tail c [] h = refl
    ends_plain-tail c (d ∷ p) h = h

    no_comma :
        (c : ℕ) (p : Str)
        → ends_plain (c ∷ p) ≡ true
        → (c == b'\\' && has_prefix (escape p ++ rest) (b',' ∷ [])) ≡ false
    no_comma c [] h = ground arith
    no_comma c (d ∷ p) h = rw (escape_head d p rest) (ground arith)

split_from-delimiter :
    (s current : Str)
    → split_from b',' [] (skipping 0) current (b',' ∷ s)
      ≡ trim_space current ∷ split_from b',' [] (skipping 0) [] s
unfolding split_from split_step take_letter has_prefix
split_from-delimiter s current = refl

split_from-end :
    (part : Str) → trim_space part ≡ part → split_from b',' [] (skipping 0) part [] ≡ part ∷ []
unfolding split_from
split_from-end part trimmed = rw trimmed refl

split_from-join_escaped :
    (part : Str) (rest : List Str)
    → All (λ p. (ends_plain p ≡ true) × (trim_space p ≡ p)) (part ∷ rest)
    → split_from b',' [] (skipping 0) [] (join_escaped (part ∷ rest)) ≡ part ∷ rest
split_from-join_escaped part [] ((plain, trimmed), _) =
    ap (split_from b',' [] (skipping 0) []) (sym (append_nil (escape part)))
    ∙ split_from-escape part [] [] plain
    ∙ split_from-end part trimmed
split_from-join_escaped part (more ∷ rest) ((plain, trimmed), h) =
    split_from-escape part [] (b',' ∷ join_escaped (more ∷ rest)) plain
    ∙ split_from-delimiter (join_escaped (more ∷ rest)) part
    ∙ rw (trimmed, split_from-join_escaped more rest h) refl

-- A list of parts that are trimmed and do not end in a backslash, joined by commas with a backslash
-- before each comma of a part, is split into the same parts, unless it is the empty string.
pub split_escaped_csv-join_escaped :
    (part : Str) (rest : List Str)
    → All (λ p. (ends_plain p ≡ true) × (trim_space p ≡ p)) (part ∷ rest)
    → join_escaped (part ∷ rest) ≢ []
    → split_escaped_csv (join_escaped (part ∷ rest)) ≡ part ∷ rest
unfolding split_escaped_csv split_with_escapes
split_escaped_csv-join_escaped part rest h filled =
    split_nonempty (join_escaped (part ∷ rest)) filled ∙ split_from-join_escaped part rest h
  where
    split_nonempty :
        (s : Str) → s ≢ [] → split_with_escapes s b',' [] ≡ split_from b',' [] (skipping 0) [] s
    split_nonempty [] filled = elim (filled refl) [ ]
    split_nonempty (c ∷ s) filled = refl
