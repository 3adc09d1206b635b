-- ===== src/Proxy/Guard/Asked.antt =====
-- proxy.go: what a request asks for, read from its header, and the key that its token asks for.
use mcp_oauth_gateway.Base.{
  Str, lit, Bool, true, Option, none, some, [], ◌∷◌, ◌++◌, map, any, In, any-true, any-In, ◌≡◌, ◌↔◌,
  refl, sym, fun_ext, inl, inr, arith, ◌==◌, str_eq, str_eqb, eq_iff, has_prefix, split,
  drop_prefix, trim_space, to_lower, before, Bool-cases, Option-cases,
}
use mcp_oauth_gateway.Proxy.Headers.{header_get}
use mcp_oauth_gateway.Proxy.Guard.{
  Libraries, Config, Request, media_type, is_sse_get_request, key_for,
}

-- A GET that lists an event stream among the media types that it accepts, in any case, with any
-- parameters.
pub record AsksForStream (r : Request) : Type 0 where
  pub value : Str
  pub get : r.method ≡ lit "GET"
  pub listed : In value (split b',' (header_get (lit "Accept") r.header))
  pub streamed :
      trim_space (before b';' (trim_space (map to_lower value))) ≡ lit "text/event-stream"

pub is_sse_get_request-AsksForStream : (r : Request) → is_sse_get_request r ≡ true → AsksForStream r
unfolding is_sse_get_request media_type
is_sse_get_request-AsksForStream r e =
    let accept = header_get (lit "Accept") r.header in
    let wants : Str → Bool = λ value. media_type value == lit "text/event-stream" in
    elim (Bool-cases (r.method == lit "GET")) [
      | inr other ↦ cc (rw other at e)
      | inl get ↦ elim (Bool-cases (any wants (split b',' accept))) [
        | inl hit ↦
            let (value, listed, streamed) = any-true wants (split b',' accept) hit in
            record {
              value = value;
              get = (eq_iff r.method (lit "GET")).0 get;
              listed = listed;
              streamed = (eq_iff _ _).0 streamed;
            }
        | inr miss ↦ elim (Bool-cases (accept == [])) [
          | inl blank ↦ cc (rw (get, blank) at e)
          | inr filled ↦ cc (rw (get, filled, miss) at e)
        ]
      ]
    ]

pub AsksForStream-is_sse_get_request : (r : Request) → AsksForStream r → is_sse_get_request r ≡ true
unfolding is_sse_get_request media_type str_eqb
AsksForStream-is_sse_get_request r a =
    let accept = header_get (lit "Accept") r.header in
    let wants : Str → Bool = λ value. media_type value == lit "text/event-stream" in
    let hit = any-In wants (split b',' accept) a.value a.listed ((eq_iff _ _).1 a.streamed) in
    elim (Bool-cases (accept == [])) [
      | inl blank ↦ cc (rw ((eq_iff accept []).0 blank) at hit)
      | inr filled ↦ rw ((eq_iff r.method (lit "GET")).1 a.get, filled, hit) refl
    ]

-- A string with a prefix.
pub split_prefix : (s p : Str) → has_prefix s p ≡ true → s ≡ p ++ drop_prefix s p
unfolding has_prefix drop_prefix
split_prefix s [] h = refl
split_prefix [] (a ∷ p) h = ground (arith, h)
split_prefix (c ∷ s) (a ∷ p) h = ground (arith, h, split_prefix s p)

pub has_prefix-append : (p s : Str) → has_prefix (p ++ s) p ≡ true
unfolding has_prefix
has_prefix-append [] s = refl
has_prefix-append (a ∷ p) s = ground (arith, has_prefix-append p s)

pub drop_prefix-append : (p s : Str) → drop_prefix (p ++ s) p ≡ s
unfolding drop_prefix
drop_prefix-append [] s = refl
drop_prefix-append (a ∷ p) s = drop_prefix-append p s

Option-ext : {A : Type 0} (o p : Option A) → ((a : A) → (o ≡ some a) ↔ (p ≡ some a)) → o ≡ p
Option-ext none none h = refl
Option-ext none (some b) h = (h b).1 refl
Option-ext (some a) p h = sym ((h a).0 refl)

module _ (lib : Libraries) (cfg : Config lib) where
  open lib use {Public}

  -- A function that answers a token's key: the one with its kid, for the algorithm of that key only.
  abbrev pub AnswersKeys : (Str → Str → Option Public) → Type 0
  AnswersKeys keys =
      (kid alg : Str) (key : Public)
      → (keys kid alg ≡ some key) ↔ (cfg.verification_key kid ≡ some (key, alg))

  pub AnswersKeys-key_for : AnswersKeys (key_for lib cfg)
  unfolding key_for
  AnswersKeys-key_for kid alg key = elim (Option-cases (cfg.verification_key kid)) [
    | inl missing ↦ rw (missing, key_for) ((λ e. cc e), λ e. cc e)
    | inr ((found, its), present) ↦
        rw (present, key_for)
          (elim (Bool-cases (alg == its)) [
            | inl same ↦ rw (same, (eq_iff alg its).0 same) ((λ e. cc e), λ e. cc e)
            | inr other ↦ rw other ((λ e. cc e), λ e. ground (arith, e, other, eq_iff alg its))
          ])
  ]

  pub AnswersKeys-unique :
      (keys : Str → Str → Option Public) → AnswersKeys keys → keys ≡ key_for lib cfg
  AnswersKeys-unique keys h = fun_ext λ kid. fun_ext λ alg.
      Option-ext (keys kid alg) (key_for lib cfg kid alg) λ key. (
        (λ e. (AnswersKeys-key_for kid alg key).1 ((h kid alg key).0 e)),
        λ e. (h kid alg key).1 ((AnswersKeys-key_for kid alg key).0 e),
      )
