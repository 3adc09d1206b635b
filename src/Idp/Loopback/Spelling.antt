-- ===== src/Idp/Loopback/Spelling.antt =====
-- loopback.go: the spellings of localhost, which are those that `strings.EqualFold` takes for it.
use mcp_oauth_gateway.Base.{
  ℕ, ◌+◌, Str, lit, Bool, true, not, ◌&&◌, [], ◌∷◌, map, all, ◌≡◌, ◌↔◌, ◌⊎◌, refl, ap₂, arith, leb,
  ◌==◌, nat_eq, str_eq, eq_iff, to_lower,
}
use mcp_oauth_gateway.Idp.Loopback.{fold, is_loopback_host}

-- A character that reads as a lower-case letter: itself, its capital, or U+017F for `s`.
abbrev pub ReadsAs : ℕ → ℕ → Type 0
ReadsAs letter c = (c ≡ letter) ⊎ (c + 32 ≡ letter) ⊎ ((c ≡ 0x17f) × (letter ≡ b's'))

-- A host that reads as a word.
abbrev pub Spells : Str → Str → Type 0
Spells [] [] = Unit
Spells [] (c ∷ s) = ⊥
Spells (letter ∷ w) [] = ⊥
Spells (letter ∷ w) (c ∷ s) = ReadsAs letter c × Spells w s

-- A lower-case letter that no letter outside ASCII folds to, but U+017F.
abbrev is_plain : ℕ → Bool
is_plain c = leb b'a' c && leb c b'z' && not (c == b'i') && not (c == b'k')

fold-ReadsAs : (letter c : ℕ) → is_plain letter ≡ true → (fold c ≡ letter) ↔ ReadsAs letter c
unfolding fold to_lower
fold-ReadsAs letter c p = ((λ e. ground (arith, e, p)), λ r. ground (arith, r, p))

map-fold-Spells : (w s : Str) → all is_plain w ≡ true → (map fold s ≡ w) ↔ Spells w s
map-fold-Spells [] [] p = ((λ e. tt), λ h. refl)
map-fold-Spells [] (c ∷ s) p = ((λ e. cc e), λ h. elim h [ ])
map-fold-Spells (letter ∷ w) [] p = ((λ e. cc e), λ h. elim h [ ])
map-fold-Spells (letter ∷ w) (c ∷ s) p =
    let first = fold-ReadsAs letter c (ground (arith, p)) in
    let rest = map-fold-Spells w s (ground (arith, p)) in
    ((λ e. (first.0 (cc e), rest.0 (cc e))), λ (r, h). ap₂ ◌∷◌ (first.1 r) (rest.1 h))

pub is_loopback_host-Spells :
    (host : Str) → (is_loopback_host host ≡ true) ↔ Spells (lit "localhost") host
unfolding is_loopback_host
is_loopback_host-Spells host =
    let same = eq_iff (map fold host) (lit "localhost") in
    let spelt = map-fold-Spells (lit "localhost") host refl in
    ((λ e. spelt.0 (same.0 e)), λ h. same.1 (spelt.1 h))
