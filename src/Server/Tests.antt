-- ===== src/Server/Tests.antt =====
-- A token that is issued at 100, and a pass at 120 that rotates its key out.
use mcp_oauth_gateway.Base.{
  ℕ, Str, lit, true, false, Option, none, some, [], ◌∷◌, str_eqb, ◌≡◌, refl, arith,
}
use mcp_oauth_gateway.Repository.Bolt.{ok, create}
use mcp_oauth_gateway.Repository.Models.{
  FositeRequest, from_fosite_req, from_fosite_client, session_data_of, label_of, to_fosite_req,
  to_fosite_client,
}
use mcp_oauth_gateway.Repository.Tokens.Creation.{access_token, get_of}
use mcp_oauth_gateway.Repository.Tokens.{create_access_token_session, get_access_token_session}
use mcp_oauth_gateway.Repository.Format.Records.{toy_json}
use mcp_oauth_gateway.Repository.Toy.{toy_bolt, toy_bolt-Laws, toy_sessions, no_entries}
use mcp_oauth_gateway.Keys.Types.{SigningKey, rs256, rsa_key, generate_private_key, key_id}
use mcp_oauth_gateway.Repository.SortedMap.{find, insert_sorted}
use mcp_oauth_gateway.Keys.Disk.{
  ◌>>=◌, lift, write_file, call, call_at, on_error, touch_nothing, rename_manifest, pure,
}
use mcp_oauth_gateway.Keys.Directory.{
  save_private_key, write_manifest, manifest_of, replace_manifest,
}
use mcp_oauth_gateway.Keys.Manager.{
  World, verification_key, maintain, rotate_locked, on_disk, set_keys, rotated, sweep_locked,
  expired,
}
use mcp_oauth_gateway.Keys.Manager.Lifetime.{Elsewhere}
use mcp_oauth_gateway.Keys.Toy.{toy}
use mcp_oauth_gateway.Ratelimit.Limiter.{Rate}
use mcp_oauth_gateway.Server.Sweeper.{Lifetimes, keys_config, Gateway, sweep}
use mcp_oauth_gateway.Server.Sweeper.Live.{none_yet, then_swept, still_accepted}

abbrev no_rate : Rate
no_rate = record {
  Bucket = Unit {0};
  new_bucket = λ interval burst. tt;
  allow_at = λ now b. (true, tt);
}

abbrev rc : Lifetimes
rc = record { access_token_ttl = 50; refresh_token_ttl = 0; auth_code_ttl = 10; clock_skew = 5 }

abbrev kid_of : ℕ → Str
kid_of n = b'k' ∷ n ∷ []

abbrev toy_key : ℕ → SigningKey toy
toy_key n = record { kid = kid_of n; alg = rs256; key = (rsa_key 2048, n) }

abbrev request : FositeRequest toy_sessions
request = record {
  id = lit "r";
  requested_at = 100;
  client = record {
    id = lit "c";
    secret = [];
    rotated_secrets = [];
    redirect_uris = [];
    grant_types = [];
    response_types = [];
    scopes = [];
    audience = [];
    public = true;
  };
  requested_scope = [];
  granted_scope = [];
  form = [];
  requested_audience = [];
  granted_audience = [];
  session = none;
}

abbrev keys : World toy
keys = record {
  manager = record {
    cfg = keys_config rc rs256 false 50;
    keys = record { active = toy_key 5; since = 10; retiring = [] };
    static = false;
  };
  disk = record { files = λ f. none; events = [] };
}

abbrev start : Gateway toy_bolt toy_json toy_sessions toy no_rate rc
start = record {
  bucket =
      (create_access_token_session toy_bolt toy_json toy_sessions (lit "sig") request no_entries).1;
  keys = keys;
  limiters = record {
    register = none;
    token = none;
    login = none;
    authorize = none;
    lockout = none;
  };
}

abbrev or_start :
    Option (Gateway toy_bolt toy_json toy_sessions toy no_rate rc)
    → Gateway toy_bolt toy_json toy_sessions toy no_rate rc
or_start none = start
or_start (some g) = g

abbrev later : Gateway toy_bolt toy_json toy_sessions toy no_rate rc
later = or_start (sweep toy_bolt toy_json toy_sessions toy no_rate rc 120 9 start)

swept :
    (sweep toy_bolt toy_json toy_sessions toy no_rate rc 120 9 start ≡ some later)
    × (later.keys.manager.keys.active.kid ≡ kid_of 9)
unfolding sweep maintain ◌>>=◌ rotate_locked lift generate_private_key str_eqb key_id on_disk
    save_private_key write_file call call_at set_keys on_error write_manifest manifest_of rotated
    replace_manifest touch_nothing rename_manifest sweep_locked expired pure
swept = (refl, refl)

stored :
    get_of toy_bolt toy_json toy_sessions access_token (lit "sig") none start.bucket ≡ ok request
unfolding create_access_token_session get_access_token_session find create insert_sorted str_eqb
    from_fosite_req from_fosite_client session_data_of label_of to_fosite_req to_fosite_client
stored = refl

elsewhere : Elsewhere toy (keys_config rc rs256 false 50) 9 (kid_of 5)
unfolding generate_private_key key_id str_eqb
elsewhere key new made named h =
    let made' : generate_private_key toy rs256 9 ≡ some key = made in
    let same : kid_of 9 ≡ new = cc (made', named) in ground (arith, h, same)

still_accepted_example :
    (get_of toy_bolt toy_json toy_sessions access_token (lit "sig") none later.bucket ≡ ok request)
    × (verification_key toy (kid_of 5) later.keys.manager ≡ some ((rsa_key 2048, 5), rs256))
still_accepted_example =
    still_accepted toy_bolt toy_bolt-Laws toy_json toy_sessions toy no_rate rc rs256 false 50
      (lit "sig") (toy_key 5) request start later stored refl
      (record { active = refl; unique = tt }) (λ e. cc e)
      (then_swept 120 9 (omega arith) (omega arith) elsewhere (none_yet start) swept.0)
