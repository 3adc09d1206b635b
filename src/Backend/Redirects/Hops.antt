-- ===== src/Backend/Redirects/Hops.antt =====
-- transparent.go: the requests that following redirects sends.
use mcp_oauth_gateway.Base.{
  ℕ, zero, suc, ◌≤◌, Str, not, ◌&&◌, Option, none, some, List, [], ◌∷◌, ◌++◌, length, ◌==◌, str_eq,
  nat_eq, eq_iff, ◌≡◌, refl, sym, ◌∙◌, ap, subst, ◌⊎◌, inl, inr, All, In, here, there, append_assoc,
  append_nil, arith, Bool-cases, Option-cases,
}
use mcp_oauth_gateway.Backend.Redirects.{
  Urls, Body, Response, Request, RoundTripper, whole, on_host, redirect_target, next_request,
  after_answer, follow,
}
use mcp_oauth_gateway.Backend.Redirects.Bodies.{bytes_of}

module _ (urls : Urls) where
  open urls use {Url, host}

  abbrev pub Exchange : Type 0
  Exchange = Request urls × Option Response

  -- A transport that also notes what it sent, and what the answers were.
  abbrev pub recording :
      {World : Type 0} → RoundTripper urls World → RoundTripper urls (World × List Exchange)
  recording base req (w, sent) =
      let (answer, v) = base req w in (answer, (v, sent ++ (req, answer) ∷ []))

  abbrev pub body_of : Option Str → Option Body
  body_of none = none
  body_of (some bytes) = some (whole bytes)

  next-url :
      (kept : Option Str) (req : Request urls) (url : Url)
      → (next_request urls kept req url).url ≡ url
  unfolding next_request
  next-url none req url = refl
  next-url (some bytes) req url = refl

  next-header :
      (kept : Option Str) (req : Request urls) (url : Url)
      → (next_request urls kept req url).header ≡ req.header
  unfolding next_request
  next-header none req url = refl
  next-header (some bytes) req url = refl

  next-body :
      (kept : Option Str) (req : Request urls) (url : Url)
      → req.body ≡ body_of kept
      → (next_request urls kept req url).body ≡ body_of kept
  unfolding next_request
  next-body none req url h = h
  next-body (some bytes) req url h = refl

  module _ (target_host : Str) where
    abbrev pub OnTarget : Url → Url → Type 0
    OnTarget start url = (url ≡ start) ⊎ (host url ≡ target_host) ⊎ (host url ≡ [])

    on_host-OnTarget :
        (start : Url) (o : Option Url) (url : Url)
        → on_host urls target_host o ≡ some url
        → OnTarget start url
    unfolding on_host
    on_host-OnTarget start none url h = cc h
    on_host-OnTarget start (some other) url h = elim (Bool-cases (host other == [])) [
      | inl blank ↦
          let same : other ≡ url = cc (rw blank at h) in
          inr (inr (subst (λ u. host u ≡ []) same ((eq_iff (host other) []).0 blank)))
      | inr named ↦ elim (Bool-cases (host other == target_host)) [
        | inl here' ↦
            let same : other ≡ url = cc (rw (named, here') at h) in
            inr (
              inl (
                subst (λ u. host u ≡ target_host) same ((eq_iff (host other) target_host).0 here')))
        | inr away ↦ cc (rw (named, away) at h)
      ]
    ]

    redirect_target-OnTarget :
        (start here' : Url) (resp : Response) (url : Url)
        → redirect_target urls target_host here' resp ≡ some url
        → OnTarget start url
    unfolding redirect_target
    redirect_target-OnTarget start here' resp url h =
        elim (Bool-cases (not (resp.status == 307) && not (resp.status == 308))) [
          | inl final ↦ cc (rw final at h)
          | inr redirect ↦ elim (Bool-cases (resp.location == [])) [
            | inl blank ↦ cc (rw (redirect, blank) at h)
            | inr named ↦
                on_host-OnTarget start (urls.parse_from here' resp.location) url
                  (rw (redirect, named) at h)
          ]
        ]

    -- One exchange of a request that began at `start` with this header and this body.
    pub record Hop (start : Url) (header : Str) (bytes : Option Str) (x : Exchange) : Type 0 where
      pub on_target : OnTarget start (x.0).url
      pub same_header : (x.0).header ≡ header
      pub same_bytes : bytes_of (x.0).body ≡ bytes

    -- An exchange whose answer leads to a further request.
    abbrev pub LedOn : Exchange → Type 0
    LedOn x =
        (resp : Response) × (url : Url) × (x.1 ≡ some resp)
        × (redirect_target urls target_host (x.0).url resp ≡ some url)

    -- What answers to a client may come from.
    pub record Hops (n : ℕ) (start : Url) (header : Str) (bytes : Option Str) (hops : List Exchange)
        (answer : Option Response) : Type 0 where
      pub few : length hops ≤ n
      pub each : All (Hop start header bytes) hops
      pub answered :
          (resp : Response)
          → answer ≡ some resp
          → (r : Request urls) × In (r, some resp) hops
            × (redirect_target urls target_host r.url resp ≡ none)
      pub refused :
          answer ≡ none
          → ((length hops ≡ n) × All LedOn hops) ⊎ (r : Request urls) × In (r, none) hops

    Hops-cons :
        (n : ℕ) (start : Url) (header : Str) (bytes : Option Str) (x : Exchange)
        (hops : List Exchange) (answer : Option Response)
        → Hop start header bytes x
        → LedOn x
        → Hops n start header bytes hops answer
        → Hops (suc n) start header bytes (x ∷ hops) answer
    Hops-cons n start header bytes x hops answer one led more = record {
      few = omega (arith, more.few);
      each = (one, more.each);
      answered = λ resp e. let (r, p, final) = more.answered resp e in (r, there p, final);
      refused = λ e. elim (more.refused e) [
        | inl (full, all_led) ↦ inl (ap suc full, (led, all_led))
        | inr (r, p) ↦ inr (r, there p)
      ];
    }

    module _ {World : Type 0} (base : RoundTripper urls World) where
      abbrev pub Followed :
          ℕ
          → Url
          → Str
          → Option Str
          → List Exchange
          → Option Response × (World × List Exchange)
          → Type 0
      Followed n start header bytes sent result =
          (hops : List Exchange) × ((result.1).1 ≡ sent ++ hops)
          × Hops n start header bytes hops result.0

      pub follow-Hops :
          (n : ℕ) (start : Url) (header : Str) (bytes : Option Str) (req : Request urls) (w : World)
          (sent : List Exchange)
          → OnTarget start req.url
          → req.header ≡ header
          → bytes_of req.body ≡ bytes
          → (kept : Option Str) → req.body ≡ body_of kept
          → Followed n start header bytes sent
              (follow urls (recording base) target_host n kept req (w, sent))
      unfolding follow after_answer
      follow-Hops zero start header bytes req w sent on alike same kept body = (
        [],
        sym (append_nil sent),
        record {
          few = omega arith;
          each = tt;
          answered = λ resp e. cc e;
          refused = λ e. inl (refl, tt);
        },
      )
      follow-Hops (suc n) start header bytes req w sent on alike same kept body =
          elim (Option-cases (base req w).0) [
            | inl bad ↦ rw bad (
              (req, none) ∷ [],
              refl,
              record {
                few = omega arith;
                each = (record { on_target = on; same_header = alike; same_bytes = same }, tt);
                answered = λ resp e. cc e;
                refused = λ e. inr (req, here);
              },
            )
            | inr (resp, good) ↦
                elim (Option-cases (redirect_target urls target_host req.url resp)) [
                  | inl final ↦
                      rw (good, after_answer, final)
                        (
                          (req, some resp) ∷ [],
                          refl,
                          record {
                            few = omega arith;
                            each = (
                              record { on_target = on; same_header = alike; same_bytes = same },
                              tt,
                            );
                            answered = λ other e.
                                let same : resp ≡ other = cc e in
                                (
                                  req,
                                  subst
                                      (λ r. In {A = Exchange} (req, some r) ((req, some resp) ∷ []))
                                      same here,
                                  ap (redirect_target urls target_host req.url) (sym same) ∙ final,
                                );
                            refused = λ e. cc e;
                          },
                        )
                  | inr (url, onward) ↦
                      rw (good, after_answer, onward)
                        (let (hops, logged, more) =
                            follow-Hops n start header bytes (next_request urls kept req url)
                              (base req w).1 (sent ++ (req, some resp) ∷ [])
                              (subst (OnTarget start) (sym (next-url kept req url))
                                (redirect_target-OnTarget start req.url resp url onward))
                              (next-header kept req url ∙ alike)
                              (ap bytes_of (next-body kept req url body ∙ sym body) ∙ same) kept
                              (next-body kept req url body) in
                          (
                            (req, some resp) ∷ hops,
                            logged ∙ append_assoc sent ((req, some resp) ∷ []) hops,
                            Hops-cons n start header bytes (req, some resp) hops _
                                (record { on_target = on; same_header = alike; same_bytes = same })
                                (resp, url, refl, onward) more,
                          ))
                ]
          ]
