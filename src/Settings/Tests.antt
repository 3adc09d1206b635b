-- ===== src/Settings/Tests.antt =====
-- The readers of the settings at work.
use mcp_oauth_gateway.Base.{
  lit, [], ◌∷◌, some, ◌≡◌, refl, trim_space, trim_left, trim_right, is_space, split, str_eqb,
  has_prefix,
}
use mcp_oauth_gateway.Settings.{
  OidcAllowListSettings, OidcAllowLists, parse, parse_allow_list, parse_attribute_map, split_csv,
  split_escaped_csv, split_with_escapes, split_from, split_step, take_letter, nonblank,
  unless_empty, add_attributes, add_value, parse_attribute, cut, ◌>>=◌,
}
use mcp_oauth_gateway.Settings.Escapes.{split_escaped_csv-join_escaped}
use mcp_oauth_gateway.Settings.AllowLists.{Reads, HasEntries, HasRules, parse-Reads}

trimmed : trim_space (lit "{a,b}@c") ≡ lit "{a,b}@c"
unfolding trim_space trim_left trim_right is_space
trimmed = refl

trimmed_glob : trim_space (lit "x*") ≡ lit "x*"
unfolding trim_space trim_left trim_right is_space
trimmed_glob = refl

split_escaped_csv-join_escaped_example :
    split_escaped_csv (lit "{a\\,b}@c,x*") ≡ lit "{a,b}@c" ∷ lit "x*" ∷ []
split_escaped_csv-join_escaped_example =
    split_escaped_csv-join_escaped (lit "{a,b}@c") (lit "x*" ∷ [])
      ((refl, trimmed), ((refl, trimmed_glob), tt)) (λ e. cc e)

abbrev settings : OidcAllowListSettings
settings = record {
  users = lit "ann, bob,";
  users_glob = [];
  attributes = lit "/org=a";
  attributes_glob = [];
}

abbrev lists : OidcAllowLists
lists = record {
  users = lit "ann" ∷ lit "bob" ∷ [];
  users_glob = [];
  attributes = (lit "/org", lit "a" ∷ []) ∷ [];
  attributes_glob = [];
}

accepted : parse settings ≡ some lists
unfolding parse parse_allow_list parse_attribute_map split_csv split_with_escapes split_from
    split_step take_letter nonblank unless_empty add_attributes add_value parse_attribute cut ◌>>=◌
    trim_space trim_left trim_right is_space split str_eqb has_prefix
accepted = refl

parse-Reads_example :
    Reads HasEntries (lit "ann, bob,") (lit "ann" ∷ lit "bob" ∷ [])
    × Reads HasEntries [] []
    × Reads HasRules (lit "/org=a") ((lit "/org", lit "a" ∷ []) ∷ [])
    × Reads HasRules [] []
parse-Reads_example = parse-Reads settings lists accepted
