-- ===== src/Repository/Tokens/Rotation.antt =====
-- kvs.go: the rotation of a refresh token, which only marks its record.
use mcp_oauth_gateway.Base.{
  ℕ, Str, ◌++◌, Option, ◌≡◌, refl, sym, ◌∙◌, ap, inl, inr, ◌==◌, str_eq, eq_iff, Bool-cases,
}
use mcp_oauth_gateway.Repository.Bolt.{
  Bolt, Laws, Reply, ok, failed, not_found, cap_reached, panicked, RoundTrips, ◌>>=◌, or_panicked,
  read, overwrite, then_step,
}
use mcp_oauth_gateway.Repository.Bolt.Writing.{Writes, overwrite-Writes, read-Written}
use mcp_oauth_gateway.Repository.Models.{Json, Sessions, Request, FositeRequest, to_fosite_req}
use mcp_oauth_gateway.Repository.Tokens.{
  refresh_token_prefix, get_session, rotate_refresh_token, get_refresh_token_session,
  restore_session,
}

module _ (bolt : Bolt) (json : Json) (lib : Sessions) where
  open bolt use {Bucket}
  open lib use {Session}

  -- What becomes of the record that was read.
  abbrev answer : Option Session → Reply Request → Reply (FositeRequest lib)
  answer sess q = q >>= λ req. or_panicked (to_fosite_req lib req) >>= λ r.
      restore_session bolt json lib r req.session_data sess

  get_session-answer :
      (key : Str) (sess : Option Session) (b : Bucket)
      → get_session bolt json lib key sess b ≡ answer sess (read bolt json.request key b)
  unfolding get_session
  get_session-answer key sess b = refl

  answer-rotated :
      (sess : Option Session) (req : Request) (now : ℕ)
      → answer sess (ok (record req { rotated_at = now })) ≡ answer sess (ok req)
  unfolding ◌>>=◌ to_fosite_req
  answer-rotated sess req now = refl

  module _ (laws : Laws bolt) (round : RoundTrips json.request) (now : ℕ) (key : Str) where
    answer-Writes :
        (req : Request) (other : Str) (sess : Option Session) (b c : Bucket) (o : Reply (Unit {0}))
        → read bolt json.request key b ≡ ok req
        → Writes bolt laws json.request key (record req { rotated_at = now }) b o c
        → answer sess (read bolt json.request other c)
          ≡ answer sess (read bolt json.request other b)
    answer-Writes req other sess b c (ok _) e w =
        rw (read-Written bolt laws json.request key _ b c other round w)
          (elim (Bool-cases (key == other)) [
            | inl same ↦ rw same (
                answer-rotated sess req now
                ∙ ap (answer sess) (sym (rw ((eq_iff key other).0 same) at e)))
            | inr differs ↦ rw differs refl
          ])
    answer-Writes req other sess b c not_found e w = rw w refl
    answer-Writes req other sess b c cap_reached e w = rw w refl
    answer-Writes req other sess b c failed e w = rw w refl
    answer-Writes req other sess b c panicked e w = rw w refl

    answer-then_step :
        (other : Str) (sess : Option Session) (b : Bucket) (q : Reply Request)
        → read bolt json.request key b ≡ q
        → answer sess (
            read bolt json.request other
              (then_step bolt {B = Unit {0}}
                (q, b)
                λ req. overwrite bolt json.request key (record req { rotated_at = now })).1)
          ≡ answer sess (read bolt json.request other b)
    unfolding then_step
    answer-then_step other sess b (ok req) e =
        answer-Writes req other sess b _ _ e (overwrite-Writes bolt laws json.request key _ b)
    answer-then_step other sess b not_found e = refl
    answer-then_step other sess b cap_reached e = refl
    answer-then_step other sess b failed e = refl
    answer-then_step other sess b panicked e = refl

  -- Rotating a refresh token, whatever the outcome, changes no answer about a refresh token: the
  -- rotated one is found as before.
  pub get_refresh_token_session-rotate :
      Laws bolt
      → RoundTrips json.request
      → (now : ℕ) (request_id signature other : Str) (sess : Option Session) (b : Bucket)
      → get_refresh_token_session bolt json lib other sess
          (rotate_refresh_token bolt json lib now request_id signature b).1
        ≡ get_refresh_token_session bolt json lib other sess b
  unfolding get_refresh_token_session get_session rotate_refresh_token
  get_refresh_token_session-rotate laws round now request_id signature other sess b =
      answer-then_step laws round now (refresh_token_prefix ++ signature)
        (refresh_token_prefix ++ other) sess b _ refl
