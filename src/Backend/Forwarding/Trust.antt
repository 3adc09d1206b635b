-- ===== src/Backend/Forwarding/Trust.antt =====
-- transparent.go: whom the settings trust.
use mcp_oauth_gateway.Base.{
  Str, true, ◌||◌, Option, none, some, List, [], ◌∷◌, any, In, In-nil, In-cons, here, there, ◌==◌,
  nat_eq, str_eq, ◌≡◌, refl, sym, ◌∙◌, ap, subst, ◌↔◌, inl, inr, arith, Bool-cases, Option-cases,
}
use mcp_oauth_gateway.Cimd.Addresses.{Addr, v4, v6, Prefix, unmap, contains}
use mcp_oauth_gateway.Backend.Forwarding.{
  Net, bit_len, single_host, or_single_host, put, is_4in6, in_prefixes, host_or,
  parse_trusted_proxies, is_trusted,
}

-- An entry is a range, which contains the address, or is the address.
module _ (net : Net) where
  open net use {parse_prefix, parse_addr, split_host_port}

  pub data Names (entry : Str) (addr : Addr) : Type 0 where
    by_range :
        (p : Prefix)
        → parse_prefix entry ≡ some p
        → contains p.addr p.bits addr ≡ true
        → Names entry addr
    by_address :
        (a : Addr) (zone : Str)
        → parse_prefix entry ≡ none
        → parse_addr entry ≡ some (a, zone)
        → unmap a ≡ addr
        → Names entry addr

  -- A peer with an address that an entry names; an address has no zone, unless it is a mapped one.
  pub record Trusted (entries : List Str) (hostport : Str) : Type 0 where
    pub addr : Addr
    pub zone : Str
    pub parsed : parse_addr (host_or hostport (split_host_port hostport)) ≡ some (addr, zone)
    pub unzoned : (is_4in6 addr || zone == []) ≡ true
    pub entry : Str
    pub listed : In entry entries
    pub named : Names entry (unmap addr)

  contains_itself : (a b : Addr) → (contains a (bit_len a) b ≡ true) ↔ (a ≡ b)
  unfolding contains
  contains_itself (v4 a) (v4 b) =
      ((λ h. ap v4 (ground (arith, h))), (λ h. let same : a ≡ b = cc h in ground (arith, same)))
  contains_itself (v6 a) (v6 b) =
      ((λ h. ap v6 (ground (arith, h))), (λ h. let same : a ≡ b = cc h in ground (arith, same)))
  contains_itself (v4 a) (v6 b) = ((λ h. cc h), λ h. cc h)
  contains_itself (v6 a) (v4 b) = ((λ h. cc h), λ h. cc h)

  -- The prefix of an entry contains what the entry names.
  prefix-Names :
      (entry : Str) (p : Prefix) (addr : Addr) (range : Option Prefix) (one : Option (Addr × Str))
      → parse_prefix entry ≡ range
      → parse_addr entry ≡ one
      → or_single_host range one ≡ some p
      → (contains p.addr p.bits addr ≡ true) ↔ Names entry addr
  unfolding or_single_host single_host
  prefix-Names entry p addr (some q) one is_range is_addr h =
      let same : q ≡ p = cc h in
      (
        (λ inside. by_range p (is_range ∙ h) inside),
        (λ named. elim named [
          | by_range r parsed inside ↦
              let other : r ≡ p = cc (sym parsed ∙ is_range ∙ h) in
              subst (λ x. contains x.addr x.bits addr ≡ true) other inside
          | by_address a zone missing parsed same' ↦ cc (sym missing ∙ is_range)
        ]),
      )
  prefix-Names entry p addr none none is_range is_addr h = cc h
  prefix-Names entry p addr none (some (a, zone)) is_range is_addr h =
      let same : record { addr = unmap a; bits = bit_len (unmap a) } ≡ p = cc h in
      (
        (λ inside. by_address a zone is_range is_addr (
            (contains_itself (unmap a) addr).0
              (subst (λ x. contains x.addr x.bits addr ≡ true) (sym same) inside))),
        (λ named. elim named [
          | by_range r parsed inside ↦ cc (sym is_range ∙ parsed)
          | by_address b zone' missing parsed same' ↦
              let other : b ≡ a = cc (sym parsed ∙ is_addr) in
              subst (λ x. contains x.addr x.bits addr ≡ true) same
                ((contains_itself (unmap a) addr).1 (ap unmap (sym other) ∙ same'))
        ]),
      )

  put-some :
      (o : Option Prefix) (rest : Option (List Prefix)) (l : List Prefix)
      → put o rest ≡ some l
      → (p : Prefix) × (ps : List Prefix) × (o ≡ some p) × (rest ≡ some ps) × (p ∷ ps ≡ l)
  put-some none rest l h = cc h
  put-some (some p) none l h = cc h
  put-some (some p) (some ps) l h = (p, ps, refl, refl, cc h)

  Named : List Str → Addr → Type 0
  Named entries addr = (entry : Str) × In entry entries × Names entry addr

  any-Named :
      (entries : List Str) (trusted : List Prefix) (addr : Addr)
      → parse_trusted_proxies net entries ≡ some trusted
      → (any (λ p. contains p.addr p.bits addr) trusted ≡ true) ↔ Named entries addr
  unfolding parse_trusted_proxies Named
  any-Named [] trusted addr h =
      let nobody : [] ≡ trusted = cc h in
      subst (λ l. (any (λ p. contains p.addr p.bits addr) l ≡ true) ↔ Named [] addr) nobody
        ((λ e. cc e), (λ named. absurd (In-nil named.1)))
  any-Named (entry ∷ entries) trusted addr h =
      let (p, ps, first, later, all_of) = put-some _ _ trusted h in
      let one = prefix-Names entry p addr (parse_prefix entry) (parse_addr entry) refl refl first in
      let rest = any-Named entries ps addr later in
      subst (λ l. (any (λ p. contains p.addr p.bits addr) l ≡ true) ↔ Named (entry ∷ entries) addr)
        all_of
        (
          (λ e. elim (Bool-cases (contains p.addr p.bits addr)) [
            | inl inside ↦ (entry, here, one.0 inside)
            | inr outside ↦
                let (other, listed, named) = rest.0 (rw outside at e) in
                (other, there listed, named)
          ]),
          (λ (other, listed, named). elim (In-cons other entry entries listed) [
            | inl same ↦ rw (one.1 (subst (λ x. Names x addr) (sym same) named)) refl
            | inr further ↦ ground (arith, rest.1 (other, further, named))
          ]),
        )

  -- Whom the settings trust: exactly the peers that an entry names.
  pub is_trusted-Trusted :
      (entries : List Str) (trusted : List Prefix) (hostport : Str)
      → parse_trusted_proxies net entries ≡ some trusted
      → (is_trusted net trusted hostport ≡ true) ↔ Trusted entries hostport
  unfolding is_trusted in_prefixes Named
  is_trusted-Trusted entries trusted hostport h = (
    (λ e. elim (Option-cases (parse_addr (host_or hostport (split_host_port hostport)))) [
      | inl bad ↦ cc (rw bad at e)
      | inr ((addr, zone), good) ↦ elim (Bool-cases (is_4in6 addr || zone == [])) [
        | inr zoned ↦ cc (rw (good, zoned) at e)
        | inl unzoned ↦
            let (entry, listed, named) =
              (any-Named entries trusted (unmap addr) h).0 (rw (good, unzoned) at e) in
            record {
              addr = addr;
              zone = zone;
              parsed = good;
              unzoned = unzoned;
              entry = entry;
              listed = listed;
              named = named;
            }
      ]
    ]),
    (λ t.
        rw (t.parsed, t.unzoned)
          ((any-Named entries trusted (unmap t.addr) h).1 (t.entry, t.listed, t.named))),
  )
