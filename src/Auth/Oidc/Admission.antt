-- ===== src/Auth/Oidc/Admission.antt =====
-- oidc.go: who is let in, by the settings.
use mcp_oauth_gateway.Base.{
  Str, Bool, true, Option, none, some, List, any, ◌==◌, str_eq, eq_iff, ◌≡◌, ◌↔◌, refl, sym, ◌∙◌,
  subst, inl, inr, arith, Bool-cases, In, any-true, any-In,
}
use mcp_oauth_gateway.Settings.{Attributes, OidcAllowLists}
use mcp_oauth_gateway.Auth.Oidc.{
  Attribute, text, items, other, Libraries, ok, contains, OidcProvider, Discovery, no_answer,
  document, compile_globs, compile_attributes, require_allow_rule, candidate, has_allow_rule,
  read_discovery, new_oidc_provider, match_item, match_attribute, match_attribute_value,
  match_attribute_glob, at_pointer, is_allowed,
}
use mcp_oauth_gateway.Auth.Oidc.Compiled.{
  bind-ok, Matches, compile_globs-Matches, Matches-compile_globs, compile_attributes-In,
  In-compile_attributes,
}

-- The strings of an attribute: the value itself, or those of an array.
abbrev pub Holds : Attribute → Str → Type 0
Holds (text t) s = s ≡ t
Holds (items l) s = In (some s) l
Holds other s = ⊥

contains-In : (l : List Str) (x : Str) → contains l x ≡ true → In x l
contains-In l x h =
    let (y, p, e) = any-true (λ y. y == x) l h in subst (λ z. In z l) ((eq_iff y x).0 e) p

In-contains : (l : List Str) (x : Str) → In x l → contains l x ≡ true
In-contains l x p = any-In (λ y. y == x) l x p ((eq_iff x x).1 refl)

match_attribute-true :
    (test : Str → Bool) (a : Attribute)
    → match_attribute test a ≡ true
    → (s : Str) × Holds a s × (test s ≡ true)
match_attribute-true test (text s) h = (s, refl, h)
match_attribute-true test (items l) h =
    let (o, p, e) = any-true (match_item test) l h in string_of o p e
  where
    string_of :
        (o : Option Str)
        → In o l
        → match_item test o ≡ true
        → (s : Str) × Holds (items l) s × (test s ≡ true)
    string_of none p e = cc e
    string_of (some s) p e = (s, p, e)
match_attribute-true test other h = cc h

match_attribute-Holds :
    (test : Str → Bool) (a : Attribute) (s : Str)
    → Holds a s
    → test s ≡ true
    → match_attribute test a ≡ true
match_attribute-Holds test (text t) s h e = rw h at e
match_attribute-Holds test (items l) s h e = any-In (match_item test) l (some s) h e
match_attribute-Holds test other s h e = absurd h

module _ (lib : Libraries) where
  open lib use {Pattern, compile, match, Json, pointer}

  -- What the settings let in: a user by name or pattern, or one with an attribute by value or pattern.
  pub data Admits (lists : OidcAllowLists) (user_info : Json) (user_id : Str) : Type 0 where
    by_name : In user_id lists.users → Admits lists user_info user_id
    by_pattern : Matches lib lists.users_glob user_id → Admits lists user_info user_id
    by_value :
        (key : Str) (values : List Str) (a : Attribute) (s : Str)
        → In (key, values) lists.attributes
        → pointer user_info key ≡ some a
        → Holds a s
        → In s values
        → Admits lists user_info user_id
    by_value_pattern :
        (key : Str) (patterns : List Str) (a : Attribute) (s : Str)
        → In (key, patterns) lists.attributes_glob
        → pointer user_info key ≡ some a
        → Holds a s
        → Matches lib patterns s
        → Admits lists user_info user_id

  at_pointer-true :
      (test : Attribute → Bool) (o : Option Attribute)
      → at_pointer test o ≡ true
      → (a : Attribute) × (o ≡ some a) × (test a ≡ true)
  at_pointer-true test none h = cc h
  at_pointer-true test (some a) h = (a, refl, h)

  -- A provider that was made of the settings.
  pub record MadeOf (lists : OidcAllowLists) (p : OidcProvider lib) : Type 0 where
    pub users : p.allowed_users ≡ lists.users
    pub users_glob : compile_globs lib lists.users_glob ≡ ok p.allowed_users_glob
    pub attributes : p.allowed_attributes ≡ lists.attributes
    pub attributes_glob :
        compile_attributes lib lists.attributes_glob ≡ ok p.allowed_attributes_glob
    pub guarded : has_allow_rule lib p ≡ true

  read_discovery-ok :
      (d : Discovery lib) (joins : Bool) (p q : OidcProvider lib)
      → read_discovery lib d joins p ≡ ok q
      → p ≡ q
  unfolding read_discovery
  read_discovery-ok no_answer joins p q h = cc h
  read_discovery-ok (document status decodes) joins p q h = ground (arith, h)

  require_allow_rule-ok :
      (p q : OidcProvider lib)
      → require_allow_rule lib p ≡ ok q
      → (p ≡ q) × (has_allow_rule lib p ≡ true)
  unfolding require_allow_rule
  require_allow_rule-ok p q h = elim (Bool-cases (has_allow_rule lib p)) [
    | inl guarded ↦ (cc (rw guarded at h), guarded)
    | inr open' ↦ cc (rw open' at h)
  ]

  new_oidc_provider-MadeOf :
      (field : Str) (lists : OidcAllowLists) (d : Discovery lib) (joins : Bool)
      (p : OidcProvider lib)
      → new_oidc_provider lib field lists d joins ≡ ok p
      → MadeOf lists p
  unfolding new_oidc_provider
  new_oidc_provider-MadeOf field lists d joins p h =
      let (globs, e, h2) = bind-ok (compile_globs lib lists.users_glob) _ p h in
      let (attributes, f, h3) = bind-ok (compile_attributes lib lists.attributes_glob) _ p h2 in
      let (q, g, h4) =
        bind-ok (require_allow_rule lib (candidate lib field lists globs attributes))
          (λ p. read_discovery lib d joins p) p h3 in
      let (made, guarded) =
        require_allow_rule-ok (candidate lib field lists globs attributes) q g in
      subst (MadeOf lists) (made ∙ read_discovery-ok d joins q p h4) (record {
        users = refl;
        users_glob = e;
        attributes = refl;
        attributes_glob = f;
        guarded = guarded;
      })

  value_rule :
      (info : Json) (l : Attributes)
      → any (λ rule. at_pointer (λ a. match_attribute_value a rule.1) (pointer info rule.0)) l
        ≡ true
      → (rule : Str × List Str) × In rule l
        × ((a : Attribute) × (s : Str) × (pointer info rule.0 ≡ some a) × Holds a s × In s rule.1)
  unfolding match_attribute_value
  value_rule info l h =
      let (rule, place, e) =
        any-true (λ rule. at_pointer (λ a. match_attribute_value a rule.1) (pointer info rule.0)) l
          h in
      let (a, found, f) =
        at_pointer-true (λ a. match_attribute_value a rule.1) (pointer info rule.0) e in
      let (s, held, listed) = match_attribute-true (contains rule.1) a f in
      (rule, place, (a, s, found, held, contains-In rule.1 s listed))

  is_allowed-Admits :
      (lists : OidcAllowLists) (p : OidcProvider lib) (info : Json) (id : Str)
      → MadeOf lists p
      → is_allowed lib p info id ≡ true
      → Admits lists info id
  unfolding is_allowed match_attribute_glob
  is_allowed-Admits lists p info id made h = elim (Bool-cases (contains p.allowed_users id)) [
    | inl named ↦ by_name (subst (λ l. In id l) made.users (contains-In p.allowed_users id named))
    | inr unnamed ↦ elim (Bool-cases (any (λ g. match g id) p.allowed_users_glob)) [
      | inl globbed ↦ by_pattern (
          compile_globs-Matches lib lists.users_glob p.allowed_users_glob id made.users_glob
            globbed)
      | inr unglobbed ↦
          elim (Bool-cases (
            any (λ rule. at_pointer (λ a. match_attribute_value a rule.1) (pointer info rule.0))
              p.allowed_attributes)) [
                | inl valued ↦
                    let (rule, place, (a, s, found, held, listed)) =
                      value_rule info p.allowed_attributes valued in
                    by_value rule.0 rule.1 a s (subst (λ l. In rule l) made.attributes place) found
                      held listed
                | inr unvalued ↦
                    let (rule, place, e) =
                      any-true
                        (λ rule.
                          at_pointer (λ a. match_attribute_glob lib a rule.1) (pointer info rule.0))
                        p.allowed_attributes_glob (rw (unnamed, unglobbed, unvalued) at h) in
                    let (a, found, f) =
                      at_pointer-true (λ a. match_attribute_glob lib a rule.1) (pointer info rule.0)
                        e in
                    let (s, held, matched) =
                      match_attribute-true (λ s. any (λ g. match g s) rule.1) a f in
                    let (patterns, place', compiled) =
                      compile_attributes-In lib lists.attributes_glob p.allowed_attributes_glob rule
                        made.attributes_glob place in
                    by_value_pattern rule.0 patterns a s place' found held
                      (compile_globs-Matches lib patterns rule.1 s compiled matched)
              ]
    ]
  ]

  at_pointer-some :
      (test : Attribute → Bool) (o : Option Attribute) (a : Attribute)
      → o ≡ some a
      → test a ≡ true
      → at_pointer test o ≡ true
  at_pointer-some test o a e h = rw e h

  Admits-is_allowed :
      (lists : OidcAllowLists) (p : OidcProvider lib) (info : Json) (id : Str)
      → MadeOf lists p
      → Admits lists info id
      → is_allowed lib p info id ≡ true
  unfolding is_allowed match_attribute_value match_attribute_glob
  Admits-is_allowed lists p info id made (by_name place) =
      rw (In-contains p.allowed_users id (subst (λ l. In id l) (sym made.users) place)) refl
  Admits-is_allowed lists p info id made (by_pattern m) =
      rw (Matches-compile_globs lib lists.users_glob p.allowed_users_glob id made.users_glob m)
        (ground arith)
  Admits-is_allowed lists p info id made (by_value key values a s place found held listed) =
      rw
        (any-In (λ rule. at_pointer (λ a. match_attribute_value a rule.1) (pointer info rule.0))
          p.allowed_attributes (key, values)
          (subst (λ l. In (key, values) l) (sym made.attributes) place)
          (at_pointer-some (λ a. match_attribute_value a values) (pointer info key) a found
            (match_attribute-Holds (contains values) a s held (In-contains values s listed))))
        (ground arith)
  Admits-is_allowed lists p info id made (by_value_pattern key patterns a s place found held m) =
      let (globs, place', matched) =
        In-compile_attributes lib lists.attributes_glob p.allowed_attributes_glob key patterns s
          made.attributes_glob place m in
      rw
        (any-In (λ rule. at_pointer (λ a. match_attribute_glob lib a rule.1) (pointer info rule.0))
          p.allowed_attributes_glob (key, globs) place'
          (at_pointer-some (λ a. match_attribute_glob lib a globs) (pointer info key) a found
            (match_attribute-Holds (λ s. any (λ g. match g s) globs) a s held matched)))
        (ground arith)

  -- A provider that is made of the settings has a rule, and lets in exactly those that the settings let
  -- in: by name, by a pattern, by the value of an attribute or of one of its items, or by a pattern for
  -- these, where blank patterns count for nothing.
  pub is_allowed-new_oidc_provider :
      (field : Str) (lists : OidcAllowLists) (d : Discovery lib) (joins : Bool)
      (p : OidcProvider lib)
      → new_oidc_provider lib field lists d joins ≡ ok p
      → (has_allow_rule lib p ≡ true)
        × ((info : Json) (id : Str) → (is_allowed lib p info id ≡ true) ↔ Admits lists info id)
  is_allowed-new_oidc_provider field lists d joins p h =
      let made = new_oidc_provider-MadeOf field lists d joins p h in
      (
        made.guarded,
        (λ info id.
            (is_allowed-Admits lists p info id made, Admits-is_allowed lists p info id made)),
      )
