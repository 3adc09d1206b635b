-- ===== src/Auth/Oidc/Tests.antt =====
-- A provider with one pattern, over globs in which `*` stands for any string.
use mcp_oauth_gateway.Base.{
  Str, lit, true, false, ◌||◌, none, some, [], ◌∷◌, ◌≡◌, ◌↔◌, refl, ◌==◌, str_eq, str_eqb,
  if◌then◌else◌,
}
use mcp_oauth_gateway.Settings.{OidcAllowLists}
use mcp_oauth_gateway.Auth.Oidc.{
  Libraries, items, OidcProvider, document, ok, error, no_allow_list, candidate, new_oidc_provider,
  compile_globs, compile_attributes, has_allow_rule, is_allowed,
}
use mcp_oauth_gateway.Auth.Oidc.Admission.{Admits, is_allowed-new_oidc_provider}

-- A userinfo response is the list of groups of the user.
abbrev toy : Libraries
toy = record {
  Pattern = Str;
  compile = λ p. some p;
  match = λ p s. p == lit "*" || p == s;
  Json = Str;
  pointer = λ info key. if key == lit "/groups" then some (items (some info ∷ none ∷ [])) else none;
  is_object = λ info. true;
}

abbrev lists : OidcAllowLists
lists = record {
  users = lit "ann" ∷ [];
  users_glob = [] ∷ [];
  attributes = [];
  attributes_glob = (lit "/groups", lit "ops" ∷ []) ∷ [];
}

abbrev provider : OidcProvider toy
provider = candidate toy (lit "/sub") lists [] ((lit "/groups", lit "ops" ∷ []) ∷ [])

provider_made : new_oidc_provider toy (lit "/sub") lists (document 200 true) true ≡ ok provider
unfolding new_oidc_provider compile_globs compile_attributes str_eqb
provider_made = refl

is_allowed-new_oidc_provider_example :
    (has_allow_rule toy provider ≡ true)
    × ((info id : Str) → (is_allowed toy provider info id ≡ true) ↔ Admits toy lists info id)
is_allowed-new_oidc_provider_example =
    is_allowed-new_oidc_provider toy (lit "/sub") lists (document 200 true) true provider
      provider_made

let_in_by_group : is_allowed toy provider (lit "ops") (lit "bob") ≡ true
unfolding is_allowed str_eqb
let_in_by_group = refl

refused_without_group : is_allowed toy provider (lit "dev") (lit "bob") ≡ false
unfolding is_allowed str_eqb
refused_without_group = refl

refused_without_rule :
    new_oidc_provider toy
      (lit "/sub")
      (record { users = []; users_glob = [] ∷ []; attributes = []; attributes_glob = [] })
      (document 200 true)
      true
    ≡ error no_allow_list
unfolding new_oidc_provider compile_globs str_eqb
refused_without_rule = refl
