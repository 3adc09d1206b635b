-- ===== src/Ratelimit/Limits.antt =====
-- pkg/ratelimit/ratelimit.go: a limit as it is written in the configuration, with newLimiters and parseLimit of
-- pkg/mcp-proxy, which read it.
mod Tests
use mcp_oauth_gateway.Base.{
  ℕ, ◌+◌, ◌*◌, ◌-◌, ◌^◌, Str, lit, Bool, true, false, not, ◌&&◌, ◌||◌, Option, none, some, List, [],
  ◌∷◌, ltb, leb, if◌then◌else◌, ◌==◌, nat_eq, str_eq, trim_space, ◌≡◌, refl, str_eqb,
}
use mcp_oauth_gateway.Settings.{cut}
use mcp_oauth_gateway.Ratelimit.Limiter.{Limit}

-- `windowUnits`, in nanoseconds.
unfoldable pub window_unit : Str → Option ℕ
window_unit unit =
    if unit == lit "s"
    then some (10 ^ 9)
    else if unit == lit "m"
    then some (60 * 10 ^ 9)
    else if unit == lit "h"
    then some (3600 * 10 ^ 9)
    else none

-- The value of digits after those that were read; any other letter is an error.
unfoldable pub digits : ℕ → Str → Option ℕ
digits n [] = some n
digits n (c ∷ s) =
    let rest = digits (n * 10 + (c - b'0')) s in if leb b'0' c && leb c b'9' then rest else none

-- What is at most zero or does not fit into an `int` is refused alike.
abbrev pub in_range : Option ℕ → Option ℕ
in_range none = none
in_range (some n) = if ltb 0 n && ltb n (2 ^ 63) then some n else none

abbrev pub unsigned : Str → Option ℕ
unsigned [] = none
unsigned (c ∷ s) = in_range (digits 0 (c ∷ s))

-- `strconv.Atoi`, with the test that the count is positive.
unfoldable pub positive_count : Str → Option ℕ
unfolding digits
positive_count [] = none
positive_count (c ∷ s) = if c == b'+' then unsigned s else unsigned (c ∷ s)

abbrev pub limit_with : Option ℕ → Option ℕ → Option Limit
limit_with none window = none
limit_with (some count) none = none
limit_with (some count) (some window) = some (record { events = count; window = window })

abbrev pub limit_of : Option (Str × Str) → Option Limit
limit_of none = none
limit_of (some (events, unit)) = limit_with (positive_count events) (window_unit unit)

abbrev pub disabled : Limit
disabled = record { events = 0; window = 0 }

unfoldable pub parse_limit : Str → Option Limit
unfolding positive_count window_unit trim_space cut
parse_limit s =
    let trimmed = trim_space s in
    if trimmed == lit "0" then some disabled else limit_of (cut b'/' trimmed)

-- `parseLimit` of main.go: an empty text disables the limit, and an invalid one was refused before.
unfoldable pub parsed_limit : Str → Limit
unfolding parse_limit
parsed_limit value =
    if value == []
    then disabled
    else elim (parse_limit value) [ none ↦ disabled | some limit ↦ limit ]
