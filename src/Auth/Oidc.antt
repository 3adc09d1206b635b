-- ===== src/Auth/Oidc.antt =====
-- pkg/auth/oidc.go: who may log in through an OpenID provider. The libraries for globs and JSON pointers
-- are parameters; a map of allow lists is the list of its entries, as parse.go makes it.
pub mod Compiled
pub mod Admission
mod Tests
use mcp_oauth_gateway.Base.{
  ℕ, Str, lit, Bool, true, false, not, ◌&&◌, ◌||◌, Option, none, some, List, [], ◌∷◌, any, length,
  ltb, leb, if◌then◌else◌, ◌==◌, str_eq, nat_eq,
}
use mcp_oauth_gateway.Settings.{Attributes, OidcAllowLists}

-- What a type switch tells of a JSON value: a string, an array with its strings, or neither.
pub data Attribute : Type 0 where
  text : Str → Attribute
  items : List (Option Str) → Attribute
  other : Attribute

-- `glob.Compile` and `Match`; `jsonpointer.Get`, none for an error; whether a value is a JSON object.
pub record Libraries : Type 1 where
  pub Pattern : Type 0
  pub compile : Str → Option Pattern
  pub match : Pattern → Str → Bool
  pub Json : Type 0
  pub pointer : Json → Str → Option Attribute
  pub is_object : Json → Bool

pub data Refusal : Type 0 where
  invalid_glob_pattern no_allow_list unreachable bad_status bad_document bad_url : Refusal

pub data Result {ℓ} (A : Type ℓ) : Type ℓ where
  ok : A → Result A
  error : Refusal → Result A

infixl 5 ◌>>=◌
abbrev pub ◌>>=◌ {ℓ κ} : {A : Type ℓ} {B : Type κ} → Result A → (A → Result B) → Result B
ok a >>= f = f a
error e >>= f = error e

abbrev pub contains : List Str → Str → Bool
contains l x = any (λ y. y == x) l

abbrev pub match_item : (Str → Bool) → Option Str → Bool
match_item test none = false
match_item test (some s) = test s

abbrev pub match_attribute : (Str → Bool) → Attribute → Bool
match_attribute test (text s) = test s
match_attribute test (items l) = any (match_item test) l
match_attribute test other = false

unfoldable pub match_attribute_value : Attribute → List Str → Bool
match_attribute_value a allowed_values = match_attribute (contains allowed_values) a

-- A pointer that finds nothing matches nothing.
abbrev pub at_pointer : (Attribute → Bool) → Option Attribute → Bool
at_pointer test none = false
at_pointer test (some a) = test a

module _ (lib : Libraries) where
  open lib use {Pattern, compile, match, Json, pointer, is_object}

  pub record OidcProvider : Type 0 where
    pub user_id_field : Str
    pub allowed_users : List Str
    pub allowed_users_glob : List Pattern
    pub allowed_attributes : Attributes
    pub allowed_attributes_glob : List (Str × List Pattern)

  -- A blank pattern is skipped, one that does not compile is an error.
  unfoldable pub compile_globs : List Str → Result (List Pattern)
  compile_globs [] = ok []
  compile_globs (pattern ∷ patterns) =
      let rest = compile_globs patterns in
      if pattern == [] then rest else elim (compile pattern) [
        | none ↦ error invalid_glob_pattern
        | some g ↦ rest >>= λ compiled. ok (g ∷ compiled)
      ]

  unfoldable pub add_compiled :
      Str → List Pattern → List (Str × List Pattern) → List (Str × List Pattern)
  add_compiled key [] rest = rest
  add_compiled key (g ∷ globs) rest = (key, g ∷ globs) ∷ rest

  unfoldable pub compile_attributes : Attributes → Result (List (Str × List Pattern))
  unfolding compile_globs add_compiled
  compile_attributes [] = ok []
  compile_attributes ((key, patterns) ∷ rest) = compile_globs patterns >>= λ compiled.
      compile_attributes rest >>= λ later. ok (add_compiled key compiled later)

  unfoldable pub has_allow_rule : OidcProvider → Bool
  has_allow_rule p =
      ltb 0 (length p.allowed_users)
      || (ltb 0 (length p.allowed_users_glob)
          || (ltb 0 (length p.allowed_attributes_glob)
              || any (λ a. ltb 0 (length a.1)) p.allowed_attributes))

  -- What the discovery document answers: nothing, a status with a document that decodes or does not.
  pub data Discovery : Type 0 where
    no_answer : Discovery
    document : ℕ → Bool → Discovery

  unfoldable pub read_discovery : Discovery → Bool → OidcProvider → Result OidcProvider
  read_discovery no_answer joins p = error unreachable
  read_discovery (document status decodes) joins p =
      if ltb status 200 || leb 300 status
      then error bad_status
      else if not decodes
      then error bad_document
      else if not joins
      then error bad_url
      else ok p

  unfoldable pub require_allow_rule : OidcProvider → Result OidcProvider
  unfolding has_allow_rule
  require_allow_rule p = if has_allow_rule p then ok p else error no_allow_list

  abbrev pub candidate :
      Str → OidcAllowLists → List Pattern → List (Str × List Pattern) → OidcProvider
  candidate user_id_field lists users_glob attributes_glob = record {
    user_id_field = user_id_field;
    allowed_users = lists.users;
    allowed_users_glob = users_glob;
    allowed_attributes = lists.attributes;
    allowed_attributes_glob = attributes_glob;
  }

  -- `joins` tells whether the callback URL can be built.
  unfoldable pub new_oidc_provider : Str → OidcAllowLists → Discovery → Bool → Result OidcProvider
  unfolding compile_globs compile_attributes require_allow_rule read_discovery
  new_oidc_provider user_id_field lists discovery joins =
      compile_globs lists.users_glob >>= λ users_glob.
      compile_attributes lists.attributes_glob >>= λ attributes_glob.
      require_allow_rule (candidate user_id_field lists users_glob attributes_glob) >>= λ p.
      read_discovery discovery joins p

  unfoldable pub match_attribute_glob : Attribute → List Pattern → Bool
  match_attribute_glob a globs = match_attribute (λ s. any (λ g. match g s) globs) a

  unfoldable pub is_allowed : OidcProvider → Json → Str → Bool
  unfolding match_attribute_value match_attribute_glob
  is_allowed p user_info user_id =
      contains p.allowed_users user_id
      || (any (λ g. match g user_id) p.allowed_users_glob
          || (any
                (λ rule.
                  at_pointer (λ a. match_attribute_value a rule.1) (pointer user_info rule.0))
                p.allowed_attributes
              || any
                  (λ rule.
                    at_pointer (λ a. match_attribute_glob a rule.1) (pointer user_info rule.0))
                  p.allowed_attributes_glob))

  unfoldable pub identify : OidcProvider → Json → Option Attribute → Option (Bool × Str)
  unfolding is_allowed
  identify p user_info (some (text user_id)) = some (is_allowed p user_info user_id, user_id)
  identify p user_info _ = none

  -- The answer of the userinfo endpoint: none, or a status and the JSON value, if it decodes.
  unfoldable pub authorization : OidcProvider → Option (ℕ × Option Json) → Option (Bool × Str)
  unfolding identify
  authorization p none = none
  authorization p (some (status, none)) = none
  authorization p (some (status, some obj)) =
      if ltb status 200 || leb 300 status
      then none
      else if not (is_object obj)
      then none
      else identify p obj (pointer obj p.user_id_field)
