-- ===== src/Auth/Oidc/Compiled.antt =====
-- oidc.go: the patterns of the settings, compiled.
use mcp_oauth_gateway.Base.{
  Str, true, some, List, [], ◌∷◌, any, ◌==◌, str_eq, eq_iff, ◌≡◌, ◌≢◌, ◌⊎◌, refl, sym, ◌∙◌, ap,
  subst, inl, inr, Bool-cases, Option-cases, In, here, there, any-true, any-In, In-cons, In-nil,
}
use mcp_oauth_gateway.Settings.{Attributes}
use mcp_oauth_gateway.Auth.Oidc.{
  Libraries, Result, ok, error, ◌>>=◌, compile_globs, add_compiled, compile_attributes,
}

pub bind-ok :
    {A B : Type 0} (m : Result A) (f : A → Result B) (b : B)
    → (m >>= f) ≡ ok b
    → (a : A) × (m ≡ ok a) × (f a ≡ ok b)
bind-ok (ok a) f b h = (a, refl, h)
bind-ok (error e) f b h = cc h

module _ (lib : Libraries) where
  open lib use {Pattern, compile, match, Json, pointer}

  -- A pattern that is set and matches a string.
  pub record Matches (patterns : List Str) (s : Str) : Type 0 where
    pub pattern : Str
    pub set : In pattern patterns
    pub filled : pattern ≢ []
    pub glob : Pattern
    pub compiled : compile pattern ≡ some glob
    pub matched : match glob s ≡ true

  -- What a step of the loop over the patterns adds.
  abbrev Adds : Str → List Str → List Pattern → Type 0
  Adds pattern l globs =
      ((pattern ≡ []) × (compile_globs lib l ≡ ok globs))
      ⊎ ((g : Pattern) × (rest : List Pattern) × (pattern ≢ [])
          × (compile pattern ≡ some g)
          × (compile_globs lib l ≡ ok rest)
          × (globs ≡ g ∷ rest))

  compile_globs-Adds :
      (pattern : Str) (l : List Str) (globs : List Pattern)
      → compile_globs lib (pattern ∷ l) ≡ ok globs
      → Adds pattern l globs
  unfolding compile_globs
  compile_globs-Adds pattern l globs h = elim (Bool-cases (pattern == [])) [
    | inl blank ↦ inl ((eq_iff pattern []).0 blank, rw blank at h)
    | inr filled ↦ elim (Option-cases (compile pattern)) [
      | inl fails ↦ cc (rw (filled, fails) at h)
      | inr (g, compiled) ↦
          let (rest, e, f) =
            bind-ok (compile_globs lib l) (λ c. ok (g ∷ c)) globs (rw (filled, compiled) at h) in
          inr (g, rest, (λ b. cc (sym filled ∙ (eq_iff pattern []).1 b)), compiled, e, sym (cc f))
    ]
  ]

  compile_globs-nil : (globs : List Pattern) → compile_globs lib [] ≡ ok globs → globs ≡ []
  unfolding compile_globs
  compile_globs-nil globs h = cc h

  -- The compiled patterns are those that are set, and no other.
  compile_globs-In :
      (l : List Str) (globs : List Pattern)
      → compile_globs lib l ≡ ok globs
      → (g : Pattern) → In g globs
      → (pattern : Str) × In pattern l × (pattern ≢ []) × (compile pattern ≡ some g)
  compile_globs-In [] globs h g p =
      absurd (In-nil (subst (λ x. In g x) (compile_globs-nil globs h) p))
  compile_globs-In (pattern ∷ l) globs h g p = elim (compile_globs-Adds pattern l globs h) [
    | inl (blank, e) ↦
        let (q, place, filled, compiled) = compile_globs-In l globs e g p in
        (q, there place, filled, compiled)
    | inr (g', rest, filled, compiled, e, same) ↦
        elim (In-cons g g' rest (subst (λ x. In g x) same p)) [
          | inl first ↦
              (pattern, here, filled, subst (λ x. compile pattern ≡ some x) first compiled)
          | inr later ↦
              let (q, place, filled', compiled') = compile_globs-In l rest e g later in
              (q, there place, filled', compiled')
        ]
  ]

  In-compile_globs :
      (l : List Str) (globs : List Pattern)
      → compile_globs lib l ≡ ok globs
      → (pattern : Str) (g : Pattern) → In pattern l
      → pattern ≢ []
      → compile pattern ≡ some g
      → In g globs
  In-compile_globs [] globs h pattern g p filled compiled = elim p [ ]
  In-compile_globs (q ∷ l) globs h pattern g p filled compiled =
      elim (compile_globs-Adds q l globs h) [
        | inl (blank, e) ↦ elim (In-cons pattern q l p) [
          | inl first ↦ absurd (filled (sym first ∙ blank))
          | inr later ↦ In-compile_globs l globs e pattern g later filled compiled
        ]
        | inr (g', rest, filled', compiled', e, same) ↦ elim (In-cons pattern q l p) [
          | inl first ↦
              let equal : g' ≡ g = cc (sym compiled' ∙ ap compile first ∙ compiled) in
              rw (same, equal) here
          | inr later ↦ rw same (there (In-compile_globs l rest e pattern g later filled compiled))
        ]
      ]

  pub compile_globs-Matches :
      (l : List Str) (globs : List Pattern) (s : Str)
      → compile_globs lib l ≡ ok globs
      → any (λ g. match g s) globs ≡ true
      → Matches l s
  compile_globs-Matches l globs s h e =
      let (g, p, matched) = any-true (λ g. match g s) globs e in
      let (pattern, place, filled, compiled) = compile_globs-In l globs h g p in
      record {
        pattern = pattern;
        set = place;
        filled = filled;
        glob = g;
        compiled = compiled;
        matched = matched;
      }

  pub Matches-compile_globs :
      (l : List Str) (globs : List Pattern) (s : Str)
      → compile_globs lib l ≡ ok globs
      → Matches l s
      → any (λ g. match g s) globs ≡ true
  Matches-compile_globs l globs s h m =
      any-In (λ g. match g s) globs m.glob
        (In-compile_globs l globs h m.pattern m.glob m.set m.filled m.compiled) m.matched

  -- The same for the map of attributes, a key of which is kept if it has a pattern.
  In-add_compiled :
      (key : Str) (globs : List Pattern) (rest : List (Str × List Pattern))
      (rule : Str × List Pattern)
      → In rule (add_compiled lib key globs rest)
      → ((key, globs) ≡ rule) ⊎ In rule rest
  unfolding add_compiled
  In-add_compiled key [] rest rule p = inr p
  In-add_compiled key (g ∷ globs) rest rule p = In-cons rule (key, g ∷ globs) rest p

  add_compiled-In :
      (key : Str) (globs : List Pattern) (rest : List (Str × List Pattern))
      (rule : Str × List Pattern)
      → In rule rest
      → In rule (add_compiled lib key globs rest)
  unfolding add_compiled
  add_compiled-In key [] rest rule p = p
  add_compiled-In key (g ∷ globs) rest rule p = there p

  add_compiled-here :
      (key : Str) (globs : List Pattern) (rest : List (Str × List Pattern)) (g : Pattern)
      → In g globs
      → In (key, globs) (add_compiled lib key globs rest)
  unfolding add_compiled
  add_compiled-here key [] rest g p = elim p [ ]
  add_compiled-here key (g' ∷ globs) rest g p = here

  abbrev pub CompiledFrom : Attributes → Str × List Pattern → Type 0
  CompiledFrom l rule =
      (patterns : List Str) × In (rule.0, patterns) l × (compile_globs lib patterns ≡ ok rule.1)

  pub compile_attributes-In :
      (l : Attributes) (compiled : List (Str × List Pattern)) (rule : Str × List Pattern)
      → compile_attributes lib l ≡ ok compiled
      → In rule compiled
      → CompiledFrom l rule
  unfolding compile_attributes
  compile_attributes-In [] compiled rule h p =
      let blank : compiled ≡ [] = cc h in absurd (In-nil (subst (λ x. In rule x) blank p))
  compile_attributes-In ((key, patterns) ∷ l) compiled rule h p =
      let (globs, e, h2) = bind-ok (compile_globs lib patterns) _ compiled h in
      let (later, f, h3) =
        bind-ok (compile_attributes lib l) (λ later. ok (add_compiled lib key globs later)) compiled
          h2 in
      let same : compiled ≡ add_compiled lib key globs later = sym (cc h3) in
      elim (In-add_compiled key globs later rule (subst (λ x. In rule x) same p)) [
        | inl first ↦ subst (CompiledFrom ((key, patterns) ∷ l)) first (patterns, here, e)
        | inr rest ↦
            let (q, place, g) = compile_attributes-In l later rule f rest in (q, there place, g)
      ]

  pub In-compile_attributes :
      (l : Attributes) (compiled : List (Str × List Pattern)) (key : Str) (patterns : List Str)
      (s : Str)
      → compile_attributes lib l ≡ ok compiled
      → In (key, patterns) l
      → Matches patterns s
      → (globs : List Pattern) × In (key, globs) compiled × (any (λ g. match g s) globs ≡ true)
  unfolding compile_attributes
  In-compile_attributes [] compiled key patterns s h p m = elim p [ ]
  In-compile_attributes ((k, ps) ∷ l) compiled key patterns s h p m =
      let (globs, e, h2) = bind-ok (compile_globs lib ps) _ compiled h in
      let (later, f, h3) =
        bind-ok (compile_attributes lib l) (λ later. ok (add_compiled lib k globs later)) compiled
          h2 in
      let same : compiled ≡ add_compiled lib k globs later = sym (cc h3) in
      elim (In-cons (key, patterns) (k, ps) l p) [
        | inl first ↦
            let name : k ≡ key = ap (λ x. x.0) first in
            let set : In m.pattern ps =
              subst (λ x. In m.pattern x) (sym (ap (λ x. x.1) first)) m.set in
            let place = In-compile_globs ps globs e m.pattern m.glob set m.filled m.compiled in
            (
              globs,
              subst (λ x. In (x, globs) compiled) name
                  (subst (λ x. In (k, globs) x) (sym same)
                    (add_compiled-here k globs later m.glob place)),
              any-In (λ g. match g s) globs m.glob place m.matched,
            )
        | inr rest ↦
            let (gs, place, matched) = In-compile_attributes l later key patterns s f rest m in
            (
              gs,
              subst (λ x. In (key, gs) x) (sym same)
                  (add_compiled-In k globs later (key, gs) place),
              matched,
            )
      ]
