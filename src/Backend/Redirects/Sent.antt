-- ===== src/Backend/Redirects/Sent.antt =====
-- transparent.go: what is sent to a backend, whatever it answers.
use mcp_oauth_gateway.Base.{
  ◌+◌, ◌≤◌, ◌<◌, Str, true, Option, none, some, List, [], ◌∷◌, ◌++◌, length, ltb, str_eq, nat_eq,
  ◌≡◌, refl, sym, ◌∙◌, ap, subst, ◌⊎◌, inl, inr, All, In, here, arith, Bool-cases,
}
use mcp_oauth_gateway.Backend.Redirects.{
  Urls, Body, Response, Request, RoundTripper, max_backend_redirects, max_redirect_replay_body,
  read_limited, whole, stitched_body, redirect_target, follow, with_buffered, round_trip_body,
  round_trip,
}
use mcp_oauth_gateway.Backend.Redirects.Bodies.{
  bytes_of, taken-large, taken-fits, read_limited-none, read_limited-some, TooLarge, Broken,
}
use mcp_oauth_gateway.Backend.Redirects.Hops.{
  Exchange, recording, Hop, LedOn, Followed, follow-Hops,
}

module _ (urls : Urls) (target_host : Str) {World : Type 0} (base : RoundTripper urls World) where
  pub record Sent (req : Request urls) (sent : List (Exchange urls)) (answer : Option Response)
      : Type 0 where
    pub few : length sent ≤ max_backend_redirects + 1
    pub each : All (Hop urls target_host req.url req.header (bytes_of req.body)) sent
    pub answered :
        (resp : Response)
        → answer ≡ some resp
        → (r : Request urls) × In (r, some resp) sent
          × ((redirect_target urls target_host r.url resp ≡ none) ⊎ TooLarge req.body)
    pub refused :
        answer ≡ none
        → Broken req.body
          ⊎ ((length sent ≡ max_backend_redirects + 1) × All (LedOn urls target_host) sent)
          ⊎ (r : Request urls) × In (r, none) sent

  Reported : Request urls → Option Response × (World × List (Exchange urls)) → Type 0
  Reported req result = Sent req (result.1).1 result.0

  Hops-Sent :
      (req : Request urls) (result : Option Response × (World × List (Exchange urls)))
      → Followed urls target_host base
          (max_backend_redirects + 1)
          req.url
          req.header
          (bytes_of req.body)
          []
          result
      → Reported req result
  unfolding Reported
  Hops-Sent req result (hops, logged, found) =
      let sent : Sent req hops result.0 = record {
        few = found.few;
        each = found.each;
        answered = λ resp e. let (r, p, final) = found.answered resp e in (r, p, inl final);
        refused = λ e. inr (found.refused e);
      } in
      subst (λ l. Sent req l result.0) (sym logged) sent

  -- A body that is not too large is replayed from memory.
  follow-Sent :
      (req : Request urls) (body : Body) (buffered : Str) (w : World)
      → req.body ≡ some body
      → buffered ≡ body.bytes
      → Reported req (
          follow urls
            (recording urls base)
            target_host
            (max_backend_redirects + 1)
            (some buffered)
            (record req { body = some (whole buffered) })
            (w, []))
  follow-Sent req body buffered w given all_of = Hops-Sent req _ (
      follow-Hops urls target_host base (max_backend_redirects + 1) req.url req.header
        (bytes_of req.body) (record req { body = some (whole buffered) }) w [] (inl refl) refl
        (ap some all_of ∙ sym (ap bytes_of given)) (some buffered) refl)

  broken-Sent :
      (req : Request urls) (body : Body) (w : World)
      → req.body ≡ some body
      → body.breaks ≡ true
      → Reported req (none, (w, []))
  unfolding Reported
  broken-Sent req body w given broken = record {
    few = omega arith;
    each = tt;
    answered = λ resp e. cc e;
    refused = λ e. inl (body, given, broken);
  }

  -- A body that is too large is passed on once.
  base-Sent :
      (req : Request urls) (body remainder : Body) (buffered : Str) (w : World)
      → req.body ≡ some body
      → buffered ++ remainder.bytes ≡ body.bytes
      → max_redirect_replay_body < length body.bytes
      → Reported req (
          recording urls base
            (record req { body = some (stitched_body buffered remainder) })
            (w, []))
  unfolding Reported
  base-Sent req body remainder buffered w given all_of large =
      let passed : Request urls = record req { body = some (stitched_body buffered remainder) } in
      record {
        few = omega arith;
        each = (
          record {
            on_target = inl refl;
            same_header = refl;
            same_bytes = ap some all_of ∙ sym (ap bytes_of given);
          },
          tt,
        );
        answered = λ resp e. (
          passed,
          subst (λ o. In {A = Exchange urls} (passed, o) ((passed, (base passed w).0) ∷ [])) e here,
          inr (body, given, large),
        );
        refused = λ e. inr (
            inr (
              passed,
              subst (λ o. In {A = Exchange urls} (passed, o) ((passed, (base passed w).0) ∷ [])) e
                  here,
            ));
      }

  with_buffered-Sent :
      (req : Request urls) (body : Body) (w : World) (o : Option (Str × Body))
      → req.body ≡ some body
      → read_limited (max_redirect_replay_body + 1) body ≡ o
      → Reported req (with_buffered urls (recording urls base) target_host req o (w, []))
  unfolding with_buffered
  with_buffered-Sent req body w none given h =
      broken-Sent req body w given (read_limited-none (max_redirect_replay_body + 1) body h)
  with_buffered-Sent req body w (some (buffered, remainder)) given h =
      let (front, all_of) =
        read_limited-some (max_redirect_replay_body + 1) body buffered remainder h in
      elim (Bool-cases (ltb max_redirect_replay_body (length buffered))) [
        | inl large ↦ rw large (
            base-Sent req body remainder buffered w given all_of
              (taken-large max_redirect_replay_body body.bytes buffered front large))
        | inr fits ↦ rw fits (
            follow-Sent req body buffered w given
              (taken-fits max_redirect_replay_body body.bytes buffered front fits))
      ]

  round_trip_body-Sent :
      (req : Request urls) (w : World) (o : Option Body)
      → req.body ≡ o
      → Reported req (round_trip_body urls (recording urls base) target_host req o (w, []))
  unfolding round_trip_body
  round_trip_body-Sent req w none none_given = Hops-Sent req _ (
      follow-Hops urls target_host base (max_backend_redirects + 1) req.url req.header
        (bytes_of req.body) req w [] (inl refl) refl refl none none_given)
  round_trip_body-Sent req w (some body) given = with_buffered-Sent req body w _ given refl

  -- Whatever a backend answers, a request is sent at most eleven times, with the same method, header
  -- fields and body, to the URL it came with or to one with the host of the backend or with none; a
  -- client gets an answer that leads nowhere further, or one to a body too large to replay, and an error
  -- only if the body broke, the transport failed, or all eleven answers led on.
  pub round_trip-Sent :
      (req : Request urls) (w v : World) (sent : List (Exchange urls)) (answer : Option Response)
      → round_trip urls (recording urls base) target_host req (w, []) ≡ (answer, (v, sent))
      → Sent req sent answer
  unfolding round_trip Reported
  round_trip-Sent req w v sent answer h =
      subst (Reported req) h (round_trip_body-Sent req w req.body refl)
