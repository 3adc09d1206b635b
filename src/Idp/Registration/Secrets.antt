-- ===== src/Idp/Registration/Secrets.antt =====
-- register.go: what the answer to a registration tells, and the secret that it gives.
use mcp_oauth_gateway.Base.{
  ℕ, zero, suc, ◌+◌, ◌-◌, ◌/◌, ◌<◌, Str, lit, some, List, [], ◌∷◌, if◌then◌else◌, ◌==◌, str_eq,
  str_eqb, eq_iff, nat_eq, arith, ◌≡◌, ◌≢◌, refl, sym, ◌∙◌, ap, inl, inr, Bool-cases, Option-cases,
}
use mcp_oauth_gateway.Cimd.Documents.{or_default}
use mcp_oauth_gateway.Idp.Registration.{Env, unix, auth_method_or_default, expires_at, secret_for}

some-injective : {A : Type 0} (a b : A) → some a ≡ some b → a ≡ b
some-injective a b e = cc e

-- A list or a text with what stands for an empty one.
abbrev pub filled : List Str → Str → List Str
filled [] x = x ∷ []
filled (y ∷ l) x = y ∷ l

abbrev pub filled_text : Str → Str → Str
filled_text [] x = x
filled_text (c ∷ s) x = c ∷ s

-- The Unix seconds of a time, zero for none.
abbrev pub seconds : ℕ → ℕ
seconds zero = 0
seconds (suc t) = suc t / 1000000000 - 62135596800

-- A public client gets no secret, any other the generated one, whose hash is stored.
pub record Secrets (env : Env) (method secret hashed : Str) : Type 0 where
  pub none_given : method ≡ lit "none" → (secret ≡ []) × (hashed ≡ [])
  pub generated :
      method ≢ lit "none" → (env.client_secret ≡ some secret) × (env.hash secret ≡ some hashed)

pub or_default-filled : (l : List Str) (x : Str) → or_default l x ≡ filled l x
unfolding or_default
or_default-filled [] x = refl
or_default-filled (y ∷ l) x = refl

pub auth_method_or_default-filled_text :
    (m : Str) → auth_method_or_default m ≡ filled_text m (lit "client_secret_basic")
unfolding str_eqb
auth_method_or_default-filled_text [] = refl
auth_method_or_default-filled_text (c ∷ m) = refl

pub unix-seconds : (t : ℕ) → (if t == 0 then 0 else unix t) ≡ seconds t
unfolding unix
unix-seconds zero = refl
unix-seconds (suc t) = ground arith

pub expires_at-positive :
    (env : Env) → 0 < env.dcr_client_ttl → expires_at env ≡ env.expiry_from + env.dcr_client_ttl
expires_at-positive env h = ground (arith, h)

pub secret_for-Secrets :
    (env : Env) (method secret hashed : Str)
    → secret_for env (method == lit "none") ≡ some (secret, hashed)
    → Secrets env method secret hashed
unfolding secret_for
secret_for-Secrets env method secret hashed e = elim (Bool-cases (method == lit "none")) [
  | inl public' ↦
      let same = rw (public', secret_for) at e in
      record {
        none_given = λ _. (
          ap (λ p. p.0) (some-injective _ _ (sym same)),
          ap (λ p. p.1) (some-injective _ _ (sym same)),
        );
        generated = λ n. elim (n ((eq_iff method (lit "none")).0 public')) [ ];
      }
  | inr confidential ↦ elim (Option-cases env.client_secret) [
    | inl bad ↦ cc (rw (confidential, secret_for, bad) at e)
    | inr (text, given) ↦ elim (Option-cases (env.hash text)) [
      | inl bad ↦ cc (rw (confidential, secret_for, given, bad) at e)
      | inr (hash', made) ↦
          let same = some-injective _ _ (rw (confidential, secret_for, given, made) at e) in
          let its : text ≡ secret = ap (λ p. p.0) same in
          let its_hash : hash' ≡ hashed = ap (λ p. p.1) same in
          record {
            none_given = λ m. cc (sym confidential ∙ (eq_iff method (lit "none")).1 m);
            generated = λ n. (given ∙ ap some its, rw its at made ∙ ap some its_hash);
          }
    ]
  ]
]
