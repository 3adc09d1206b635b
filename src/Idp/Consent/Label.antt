-- ===== src/Idp/Consent/Label.antt =====
-- consent.go: what the label of a connection keeps of the name that the operator enters.
use mcp_oauth_gateway.Base.{
  ℕ, zero, suc, true, ◌<◌, ◌≤◌, Str, false, ◌&&◌, ◌||◌, [], ◌∷◌, length, take, All, ltb, leb,
  if◌then◌else◌, ◌≡◌, ◌⊎◌, refl, ◌∙◌, ap, inl, inr, arith, is_space, trim_left, trim_right,
  trim_space, Bool-cases,
}
use mcp_oauth_gateway.Idp.Session.{
  is_control, drop_control, max_label_length, capped, sanitize_label,
}

-- No control character: neither below a space, nor from 0x7f up to 0x9f.
abbrev pub Printable : Str → Type 0
Printable s = All (λ c. (0x20 ≤ c) × ((c < 0x7f) ⊎ (0xa0 ≤ c))) s

-- The characters of a name that are no control characters.
abbrev pub visible : Str → Str
visible [] = []
visible (c ∷ s) =
    let rest = visible s in if leb 0x20 c && leb c 0x7e || leb 0xa0 c then c ∷ rest else rest

-- What a label is of a name: its visible characters, trimmed, and cut after 64 and trimmed again if there
-- are more.
pub record Labels (name label : Str) : Type 0 where
  pub whole : length (trim_space (visible name)) ≤ 64 → label ≡ trim_space (visible name)
  pub cut :
      64 < length (trim_space (visible name))
      → label ≡ trim_space (take 64 (trim_space (visible name)))
  pub printable : Printable label
  pub short : length label ≤ 64
  pub kept : Printable name → trim_space name ≡ name → length name ≤ 64 → label ≡ name

drop_control-visible : (s : Str) → drop_control s ≡ visible s
unfolding drop_control is_control
drop_control-visible [] = refl
drop_control-visible (c ∷ s) = ground (arith, drop_control-visible s)

drop_control-Printable : (s : Str) → Printable (drop_control s)
unfolding drop_control is_control
drop_control-Printable [] = tt
drop_control-Printable (c ∷ s) = elim (Bool-cases (ltb c 0x20 || (leb 0x7f c && ltb c 0xa0))) [
  | inl control ↦ rw control (drop_control-Printable s)
  | inr other ↦
      rw other
        ((ground (arith, other), outside c (ground (arith, other))), drop_control-Printable s)
]
  where
    outside : (c : ℕ) → (leb 0x7f c && ltb c 0xa0) ≡ false → (c < 0x7f) ⊎ (0xa0 ≤ c)
    outside c h = elim (Bool-cases (leb 0x7f c)) [
      | inl above ↦ inr (ground (arith, h, above))
      | inr under ↦ inl (ground (arith, under))
    ]

drop_control-same : (s : Str) → Printable s → drop_control s ≡ s
unfolding drop_control is_control
drop_control-same [] p = refl
drop_control-same (c ∷ s) ((low, inl under), p) = ground (arith, low, under, drop_control-same s p)
drop_control-same (c ∷ s) ((low, inr above), p) = ground (arith, low, above, drop_control-same s p)

module _ (P : ℕ → Type 0) where
  All-trim_left : (s : Str) → All P s → All P (trim_left s)
  unfolding trim_left
  All-trim_left [] p = tt
  All-trim_left (c ∷ s) (q, p) = elim (Bool-cases (is_space c)) [
    | inl space ↦ rw space (All-trim_left s p)
    | inr other ↦ rw other (q, p)
  ]

  All-trim_right : (s : Str) → All P s → All P (trim_right s)
  unfolding trim_right
  All-trim_right [] p = tt
  All-trim_right (c ∷ s) (q, p) = by_rest (trim_right s) (All-trim_right s p)
    where
      by_rest :
          (t : Str)
          → All P t
          → All P (elim t [ [] ↦ if is_space c then [] else c ∷ [] | d ∷ rest ↦ c ∷ d ∷ rest ])
      by_rest [] a = elim (Bool-cases (is_space c)) [
        | inl space ↦ rw space tt
        | inr other ↦ rw other (q, tt)
      ]
      by_rest (d ∷ rest) a = (q, a)

  All-trim_space : (s : Str) → All P s → All P (trim_space s)
  unfolding trim_space
  All-trim_space s p = All-trim_right (trim_left s) (All-trim_left s p)

  All-take : (n : ℕ) (s : Str) → All P s → All P (take n s)
  All-take zero s p = tt
  All-take (suc n) [] p = tt
  All-take (suc n) (c ∷ s) (q, p) = (q, All-take n s p)

length-trim_left : (s : Str) → length (trim_left s) ≤ length s
unfolding trim_left
length-trim_left [] = omega arith
length-trim_left (c ∷ s) = ground (arith, length-trim_left s)

length-trim_right : (s : Str) → length (trim_right s) ≤ length s
unfolding trim_right
length-trim_right [] = omega arith
length-trim_right (c ∷ s) = ground (arith, length-trim_right s)

length-trim_space : (s : Str) → length (trim_space s) ≤ length s
unfolding trim_space
length-trim_space s = omega (arith, length-trim_left s, length-trim_right (trim_left s))

length-take : (n : ℕ) (s : Str) → length (take n s) ≤ n
length-take zero s = omega arith
length-take (suc n) [] = omega arith
length-take (suc n) (c ∷ s) = omega (arith, length-take n s)

capped-Printable : (s : Str) → Printable s → Printable (capped s)
capped-Printable s p = elim (Bool-cases (ltb max_label_length (length s))) [
  | inl long ↦
      rw long (All-trim_space _ (take max_label_length s) (All-take _ max_label_length s p))
  | inr fits ↦ rw fits p
]

length-capped : (s : Str) → length (capped s) ≤ 64
length-capped s = elim (Bool-cases (ltb max_label_length (length s))) [
  | inl long ↦
      rw long
        (omega (arith, length-trim_space (take max_label_length s), length-take max_label_length s))
  | inr fits ↦ rw fits (ground (arith, fits))
]

ltb-above : (n : ℕ) → 64 < n → ltb max_label_length n ≡ true
ltb-above n h = ground (arith, h)

capped-long : (s : Str) → 64 < length s → capped s ≡ trim_space (take 64 s)
capped-long s h = rw (ltb-above (length s) h) refl

capped-same : (s : Str) → length s ≤ 64 → capped s ≡ s
capped-same s h = ground (arith, h)

pub sanitize_label-Labels : (name : Str) → Labels name (sanitize_label name)
unfolding sanitize_label
sanitize_label-Labels name = record {
  whole = λ h. rw (drop_control-visible name) (capped-same (trim_space (visible name)) h);
  cut = λ h. rw (drop_control-visible name) (capped-long (trim_space (visible name)) h);
  printable =
      capped-Printable (trim_space (drop_control name))
        (All-trim_space _ (drop_control name) (drop_control-Printable name));
  short = length-capped (trim_space (drop_control name));
  kept = λ p t h.
      let same : trim_space (drop_control name) ≡ name =
        ap trim_space (drop_control-same name p) ∙ t in
      ap capped same ∙ capped-same name h;
}
