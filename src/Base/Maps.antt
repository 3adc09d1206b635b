-- ===== src/Base/Maps.antt =====
-- A Go map from strings, as the function that a lookup computes. Its size and the order of a
-- `range` over it are not observed by the code that uses this view.
use mathlib.Core.Bool.{Bool}
use mathlib.Core.Option.{Option, none, some}
use mcp_oauth_gateway.Base.Tests.{if◌then◌else◌, ◌==◌}
use mcp_oauth_gateway.Base.Strings.{Str, str_eq}

abbrev pub Map {ℓ} : Type ℓ → Type ℓ
Map V = Str → Option V

module _ {ℓ} {V : Type ℓ} where
  abbrev pub empty : Map V
  empty k = none

  abbrev pub insert : Str → V → Map V → Map V
  insert k v m j = if k == j then some v else m j

  abbrev pub delete : Str → Map V → Map V
  delete k m j = if k == j then none else m j

  abbrev pub keep_unless : (V → Bool) → Option V → Option V
  keep_unless drop none = none
  keep_unless drop (some v) = if drop v then none else some v

  -- `for k, v := range m { if drop(v) { delete(m, k) } }`
  abbrev pub delete_if : (V → Bool) → Map V → Map V
  delete_if drop m j = keep_unless drop (m j)
