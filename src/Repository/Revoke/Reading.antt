-- ===== src/Repository/Revoke/Reading.antt =====
-- kvs_inventory.go: a scan answers only if every record under its prefix decodes.
use mcp_oauth_gateway.Base.{
  Str, Bool, true, false, Option, none, some, List, [], ◌∷◌, ◌++◌, any, ◌≡◌, refl, sym, ◌∙◌, ap,
  inl, inr, arith, ◌==◌, str_eq, has_prefix, Bool-cases, Option-cases,
}
use mcp_oauth_gateway.Repository.SortedMap.{find}
use mcp_oauth_gateway.Repository.Bolt.{
  Bolt, Laws, Reply, ok, failed, not_found, cap_reached, panicked, Codec, ◌>>=◌, walk,
}
use mcp_oauth_gateway.Repository.Bolt.Deletion.{find-walk}
use mcp_oauth_gateway.Repository.Models.{Json, Request}
use mcp_oauth_gateway.Repository.Revoke.{scan_stale, scan_sessions}

pub bind-ok :
    {A B : Type 0} (m : Reply A) (f : A → Reply B) (x : B)
    → (m >>= f) ≡ ok x
    → (a : A) × (m ≡ ok a) × (f a ≡ ok x)
unfolding ◌>>=◌
bind-ok (ok a) f x e = (a, refl, e)
bind-ok not_found f x e = ground (arith, e)
bind-ok cap_reached f x e = ground (arith, e)
bind-ok failed f x e = ground (arith, e)
bind-ok panicked f x e = ground (arith, e)

pub ok-injective : {A : Type 0} (a b : A) → ok a ≡ ok b → a ≡ b
ok-injective a b e = ground (arith, e)

-- A record decodes, if there is one.
abbrev pub reads : {A : Type 0} → Codec A → Option Str → Bool
reads codec none = true
reads codec (some v) = elim (codec.unmarshal v) [ none ↦ false | some _ ↦ true ]

module _ (bolt : Bolt) (json : Json) where
  open bolt use {Bucket, get}

  scan_stale-reads :
      {A : Type 0} (codec : Codec A) (match : A → Bool) (l : List (Str × Str)) (ks : List Str)
      → scan_stale bolt json codec match l ≡ ok ks
      → (k : Str) → reads codec (find k l) ≡ true
  unfolding scan_stale find
  scan_stale-reads codec match [] ks e k = refl
  scan_stale-reads codec match ((j, v) ∷ l) ks e k = elim (Option-cases (codec.unmarshal v)) [
    | inl bad ↦ cc (rw (bad, scan_stale) at e)
    | inr (a, m) ↦
        let (more, scanned, _) =
          bind-ok (scan_stale bolt json codec match l) _ ks (rw (m, scan_stale) at e) in
        elim (Bool-cases (j == k)) [
          | inl first ↦ rw (first, reads, m) refl
          | inr later ↦ rw later (scan_stale-reads codec match l more scanned k)
        ]
  ]

  module _ (laws : Laws bolt) where
    pub scan-reads :
        {A : Type 0} (codec : Codec A) (match : A → Bool) (p : Str) (b : Bucket) (ks : List Str)
        → scan_stale bolt json codec match (walk bolt p b) ≡ ok ks
        → (k : Str) → has_prefix k p ≡ true
        → reads codec (get k b) ≡ true
    scan-reads codec match p b ks e k h =
        let its : find k (walk bolt p b) ≡ get k b = find-walk bolt laws k p b ∙ rw h refl in
        sym (ap (reads codec) its) ∙ scan_stale-reads codec match (walk bolt p b) ks e k

    pub scan_sessions-reads :
        (match : Request → Bool) (ps : List Str) (b : Bucket) (ks : List Str)
        → scan_sessions bolt json match ps b ≡ ok ks
        → (k : Str) → any (has_prefix k) ps ≡ true
        → reads json.request (get k b) ≡ true
    unfolding scan_sessions
    scan_sessions-reads match [] b ks e k h = cc h
    scan_sessions-reads match (p ∷ ps) b ks e k h =
        let (keys, scanned, e') =
          bind-ok (scan_stale bolt json json.request match (walk bolt p b))
            (λ keys. scan_sessions bolt json match ps b >>= λ more. ok (keys ++ more)) ks e in
        let (more, rest, _) =
          bind-ok (scan_sessions bolt json match ps b) (λ more. ok (keys ++ more)) ks e' in
        elim (Bool-cases (has_prefix k p)) [
          | inl here ↦ scan-reads json.request match p b keys scanned k here
          | inr later ↦ scan_sessions-reads match ps b more rest k (rw later at h)
        ]
