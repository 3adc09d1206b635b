-- ===== src/Ratelimit/Limits/Tests.antt =====
-- Limits as the documentation writes them, and some that are refused.
use mcp_oauth_gateway.Base.{◌*◌, ◌^◌, lit, none, some, str_eqb, trim_space, ◌≡◌, refl}
use mcp_oauth_gateway.Settings.{cut}
use mcp_oauth_gateway.Ratelimit.Limits.{disabled, parse_limit}

per_minute : parse_limit (lit " 10/m") ≡ some (record { events = 10; window = 60 * 10 ^ 9 })
unfolding parse_limit str_eqb trim_space cut
per_minute = refl

turned_off : parse_limit (lit "0") ≡ some disabled
unfolding parse_limit str_eqb trim_space
turned_off = refl

no_events : parse_limit (lit "0/s") ≡ none
unfolding parse_limit str_eqb trim_space cut
no_events = refl

unknown_unit : parse_limit (lit "10/d") ≡ none
unfolding parse_limit str_eqb trim_space cut
unknown_unit = refl
