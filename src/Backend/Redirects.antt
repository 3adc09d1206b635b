-- ===== src/Backend/Redirects.antt =====
-- transparent.go: redirectFollowingTransport. The parser of URLs and the transport below are parameters; the
-- transport has a state of its own.
pub mod Bodies
pub mod Hops
pub mod Sent
use mcp_oauth_gateway.Base.{
  ℕ, zero, suc, ◌+◌, ◌*◌, ◌^◌, Str, Bool, true, false, not, ◌&&◌, Option, none, some, List, [], ◌∷◌,
  ◌++◌, length, take, ltb, if◌then◌else◌, ◌==◌, nat_eq, str_eq,
}

-- `req.URL.Parse` and the field Host.
pub record Urls : Type 1 where
  pub Url : Type 0
  pub parse_from : Url → Str → Option Url
  pub host : Url → Str

-- What a stream gives, up to its end or to an error.
pub record Body : Type 0 where
  pub bytes : Str
  pub breaks : Bool

-- `Location` is the empty string if there is none.
pub record Response : Type 0 where
  pub status : ℕ
  pub location : Str
  pub payload : Str

abbrev pub max_backend_redirects : ℕ
max_backend_redirects = 10

abbrev pub max_redirect_replay_body : ℕ
max_redirect_replay_body = 4 * 2 ^ 20

abbrev pub drop : ℕ → Str → Str
drop zero s = s
drop (suc n) [] = []
drop (suc n) (_ ∷ s) = drop n s

-- `io.ReadAll` of the first bytes, with what is left in the stream, or an error.
unfoldable pub read_limited : ℕ → Body → Option (Str × Body)
read_limited limit body =
    if ltb (length body.bytes) limit && body.breaks
    then none
    else some (take limit body.bytes, record body { bytes = drop limit body.bytes })

abbrev pub whole : Str → Body
whole buffered = record { bytes = buffered; breaks = false }

-- `io.MultiReader` of the buffered bytes and the remainder.
abbrev pub stitched_body : Str → Body → Body
stitched_body buffered remainder = record remainder { bytes = buffered ++ remainder.bytes }

module _ (urls : Urls) where
  open urls use {Url, parse_from, host}

  -- `header` is the method and the header fields, which a redirect does not change; an unknown length is none.
  pub record Request : Type 0 where
    pub url : Url
    pub host : Str
    pub header : Str
    pub body : Option Body
    pub content_length : Option ℕ

  abbrev pub RoundTripper : Type 0 → Type 0
  RoundTripper World = Request → World → Option Response × World

  unfoldable pub on_host : Str → Option Url → Option Url
  on_host target_host none = none
  on_host target_host (some url) =
      if not (host url == []) && not (host url == target_host) then none else some url

  -- Where a response leads, if it is followed.
  unfoldable pub redirect_target : Str → Url → Response → Option Url
  unfolding on_host
  redirect_target target_host url resp =
      if not (resp.status == 307) && not (resp.status == 308)
      then none
      else if resp.location == []
      then none
      else on_host target_host (parse_from url resp.location)

  abbrev pub replayed : Option Str → Request → Request
  replayed none req = req
  replayed (some bytes) req = record req {
    body = some (whole bytes);
    content_length = some (length bytes);
  }

  -- A clone for the next hop.
  unfoldable pub next_request : Option Str → Request → Url → Request
  next_request body_bytes req url = replayed body_bytes (record req { url = url; host = host url })

  module _ {World : Type 0} (base : RoundTripper World) (target_host : Str) where
    -- What is done with an answer: it is returned, or `hop` goes on.
    unfoldable pub after_answer :
        Url
        → (Url → World → Option Response × World)
        → Option Response × World
        → Option Response × World
    after_answer url hop (none, w) = (none, w)
    after_answer url hop (some resp, w) = elim (redirect_target target_host url resp) [
      | none ↦ (some resp, w)
      | some target ↦ hop target w
    ]

    -- At most as many requests are sent as the first argument says.
    unfoldable pub follow : ℕ → Option Str → Request → World → Option Response × World
    unfolding after_answer
    follow zero body_bytes req w = (none, w)
    follow (suc n) body_bytes req w =
        after_answer req.url (λ url v. follow n body_bytes (next_request body_bytes req url) v)
          (base req w)

    unfoldable pub with_buffered : Request → Option (Str × Body) → World → Option Response × World
    unfolding follow
    with_buffered req none w = (none, w)
    with_buffered req (some (buffered, remainder)) w =
        if ltb max_redirect_replay_body (length buffered)
        then base (record req { body = some (stitched_body buffered remainder) }) w
        else follow (max_backend_redirects + 1) (some buffered)
            (record req { body = some (whole buffered) }) w

    unfoldable pub round_trip_body : Request → Option Body → World → Option Response × World
    unfolding read_limited with_buffered
    round_trip_body req none w = follow (max_backend_redirects + 1) none req w
    round_trip_body req (some body) w =
        with_buffered req (read_limited (max_redirect_replay_body + 1) body) w

    unfoldable pub round_trip : Request → World → Option Response × World
    unfolding round_trip_body
    round_trip req w = round_trip_body req req.body w
