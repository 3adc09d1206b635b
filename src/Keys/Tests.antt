-- ===== src/Keys/Tests.antt =====
-- The key manager over the libraries of `Keys/Toy`.
use mcp_oauth_gateway.Base.{ℕ, none, some, List, [], ◌∷◌, Str, lit, ◌≡◌, refl, false, arith}
use mcp_oauth_gateway.Base.{str_eqb, ◌⊎◌, inr}
use mcp_oauth_gateway.Keys.Types.{
  SigningKey, rs256, rsa_key, generate_private_key, key_id, parse_private_key_pem, alg_for_key,
  parse_alg,
}
use mcp_oauth_gateway.Keys.Disk.{
  manifest_file, manifest_tmp, legacy_file, key_file, Event, done, stops_after,
}
use mcp_oauth_gateway.Keys.Disk.Triple.{After, Files}
use mcp_oauth_gateway.Keys.Directory.{Config, KeySet, manifest_of}
use mcp_oauth_gateway.Keys.Directory.Reload.{Stored, InStep}
use mcp_oauth_gateway.Keys.Manager.{
  Manager, World, rotate_locked, sweep_locked, rotated, verification_key, expired, unexpired,
}
use mcp_oauth_gateway.Keys.Manager.NewKey.{Fresh}
use mcp_oauth_gateway.Keys.Manager.Rotation.{LoadsEither, Loads, Rotated, rotate_locked-Loads}
use mcp_oauth_gateway.Keys.Manager.Window.{
  none_yet, then_swept, swept_keys, verification_key-Steps, verification_key-swept_keys,
}
use mcp_oauth_gateway.Keys.Manager.Sweep.{sweep_locked-Loads}
use mcp_oauth_gateway.Keys.Toy.{toy, toy-Laws}

parses_lower_case : parse_alg (lit "rs256") ≡ some rs256
unfolding parse_alg str_eqb
parses_lower_case = refl

abbrev kid_of : ℕ → Str
kid_of n = b'k' ∷ n ∷ []

abbrev toy_key : ℕ → SigningKey toy
toy_key n = record { kid = kid_of n; alg = rs256; key = (rsa_key 2048, n) }

abbrev cfg : Config
cfg = record { alg = rs256; has_legacy_path = false; rotation_interval = 1000; retire_window = 60 }

-- Key 5 is active, key 3 verifies until time 70.
abbrev two_keys : KeySet toy
two_keys = record {
  active = toy_key 5;
  since = 10;
  retiring = record { signing_key = toy_key 3; not_after = 70 } ∷ [];
}

abbrev two_files : Files
two_files manifest_file = some (b'k' ∷ 5 ∷ 10 ∷ b'k' ∷ 3 ∷ 70 ∷ [])
two_files manifest_tmp = none
two_files legacy_file = none
two_files (key_file kid) = elim kid [ (k ∷ n ∷ []) ↦ some (0 ∷ 2048 ∷ n ∷ []) | _ ↦ none ]

abbrev world : List Event → World toy
world events = record {
  manager = record { cfg = cfg; keys = two_keys; static = false };
  disk = record { files = two_files; events = events };
}

toy_key-Stored : (n : ℕ) → Stored toy (λ j. two_files (key_file j)) (toy_key n)
unfolding parse_private_key_pem alg_for_key key_id
toy_key-Stored n = record {
  pem = 0 ∷ 2048 ∷ n ∷ [];
  content = refl;
  parsed = refl;
  alg = refl;
  id = refl;
  named = λ e. cc e;
}

two_files-InStep : InStep toy two_files two_keys
unfolding manifest_of
two_files-InStep = record {
  text = b'k' ∷ 5 ∷ 10 ∷ b'k' ∷ 3 ∷ 70 ∷ [];
  marshalled = refl;
  manifest = refl;
  active = toy_key-Stored 5;
  retiring = (toy_key-Stored 3, tt);
  aged = omega arith;
}

-- The process stops just after the rename of the new manifest.
abbrev stop_at_rename : List Event
stop_at_rename = done ∷ done ∷ done ∷ done ∷ done ∷ stops_after ∷ []

new_kid-Fresh :
    (key : toy.Key) (kid : Str)
    → generate_private_key toy rs256 9 ≡ some key
    → key_id toy key ≡ some kid
    → Fresh toy toy-Laws kid two_keys
unfolding generate_private_key key_id str_eqb
new_kid-Fresh key kid g i =
    let same : kid_of 9 ≡ kid = cc (g, i) in
    (λ p. ground (arith, p, same), (λ p. ground (arith, p, same), tt))

rotate_locked-Loads_example :
    After
      (λ _ w'.
        Rotated toy toy-Laws (world stop_at_rename).manager 100 9 two_files w'
        × Loads toy toy-Laws w'.disk w'.manager.keys)
      (λ w'. (w'.manager ≡ (world stop_at_rename).manager) × Loads toy toy-Laws w'.disk two_keys)
      (λ w'. LoadsEither toy toy-Laws (world stop_at_rename).manager 100 9 w'.disk)
      (rotate_locked toy 100 9 (world stop_at_rename)).0
      (rotate_locked toy 100 9 (world stop_at_rename)).1
rotate_locked-Loads_example =
    rotate_locked-Loads toy toy-Laws (world stop_at_rename) 100 9 new_kid-Fresh (omega arith)
      two_files-InStep

abbrev swept : KeySet toy
swept = swept_keys toy cfg 80 two_keys

sweep_locked-Loads_example :
    After
      (λ _ w'.
        (w'.manager ≡ record (world []).manager { keys = swept })
        × Loads toy toy-Laws w'.disk swept)
      (λ w'. (w'.manager ≡ (world []).manager) × Loads toy toy-Laws w'.disk two_keys)
      (λ w'. Loads toy toy-Laws w'.disk two_keys ⊎ Loads toy toy-Laws w'.disk swept)
      (sweep_locked toy 80 (world [])).0
      (sweep_locked toy 80 (world [])).1
unfolding expired unexpired
sweep_locked-Loads_example =
    sweep_locked-Loads toy toy-Laws (world []) 80 (((λ p. cc p), tt), tt) two_files-InStep

-- Key 5 is rotated out at 100; a sweep at 150 comes before 160.
abbrev later_keys : KeySet toy
later_keys = swept_keys toy cfg 150 (rotated toy cfg (kid_of 9) (rsa_key 2048, 9) 100 two_keys)

abbrev later_manager : Manager toy
later_manager = record { cfg = cfg; keys = later_keys; static = false }

verification_key-Steps_example :
    verification_key toy (kid_of 5) later_manager ≡ some ((rsa_key 2048, 5), rs256)
verification_key-Steps_example =
    verification_key-Steps toy cfg two_keys later_manager (kid_of 9) (rsa_key 2048, 9) 100
      (λ p. cc p) (λ p. ground (arith, p)) (((λ p. ground (arith, p)), tt))
      (then_swept 150 (omega arith) (none_yet _))

verification_key-swept_keys_example :
    verification_key toy (kid_of 3) (record { cfg = cfg; keys = swept; static = false }) ≡ none
verification_key-swept_keys_example =
    verification_key-swept_keys toy cfg (world []).manager (kid_of 3) 80 (λ p. ground (arith, p))
      (inr (omega arith), tt)
