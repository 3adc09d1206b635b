-- ===== src/Repository/Users/Passkeys.antt =====
-- kvs.go: the list of a user's passkeys holds those in the store, in the order of their creation.
use mcp_oauth_gateway.Base.{
  ◌≤◌, Str, Bool, true, ◌||◌, some, List, [], ◌∷◌, ◌++◌, ◌≡◌, refl, sym, ◌∙◌, ap, inl, inr, arith,
  All, any, if◌then◌else◌, ◌==◌, str_eq, eq_iff, ltb, has_prefix-append, Bool-cases, Option-cases,
}
use mcp_oauth_gateway.Repository.SortedMap.{find}
use mcp_oauth_gateway.Repository.Bolt.{Bolt, Laws, ok, walk}
use mcp_oauth_gateway.Repository.Bolt.Deletion.{find-walk}
use mcp_oauth_gateway.Repository.Models.{Json, WebAuthnCredential}
use mcp_oauth_gateway.Repository.Revoke.Reading.{bind-ok, ok-injective}
use mcp_oauth_gateway.Repository.Users.{
  insert_credential, sort_credentials, credentials_of, list_webauthn_credentials,
  webauthn_credential_prefix,
}

-- No credential is older than one before it.
abbrev pub OldestFirst : List WebAuthnCredential → Type 0
OldestFirst [] = Unit
OldestFirst (c ∷ l) = All (λ d. c.created_at ≤ d.created_at) l × OldestFirst l

All-insert_credential :
    (P : WebAuthnCredential → Type 0) (c : WebAuthnCredential) (l : List WebAuthnCredential)
    → P c
    → All P l
    → All P (insert_credential c l)
unfolding insert_credential
All-insert_credential P c [] p h = (p, tt)
All-insert_credential P c (d ∷ l) p (q, h) = elim (Bool-cases (ltb d.created_at c.created_at)) [
  | inl older ↦ rw older (q, All-insert_credential P c l p h)
  | inr newer ↦ rw newer (p, (q, h))
]

All-weaken :
    (P Q : WebAuthnCredential → Type 0) (l : List WebAuthnCredential)
    → ((c : WebAuthnCredential) → P c → Q c)
    → All P l
    → All Q l
All-weaken P Q [] f h = tt
All-weaken P Q (c ∷ l) f (p, h) = (f c p, All-weaken P Q l f h)

insert_credential-OldestFirst :
    (c : WebAuthnCredential) (l : List WebAuthnCredential)
    → OldestFirst l
    → OldestFirst (insert_credential c l)
unfolding insert_credential
insert_credential-OldestFirst c [] s = (tt, tt)
insert_credential-OldestFirst c (d ∷ l) (a, s) = elim (Bool-cases (ltb d.created_at c.created_at)) [
  | inl older ↦ rw older (
    All-insert_credential (λ e. d.created_at ≤ e.created_at) c l (ground (arith, older)) a,
    insert_credential-OldestFirst c l s,
  )
  | inr newer ↦
      rw newer
        ((ground (arith, newer), All-weaken _ _ l (λ e h. ground (arith, newer, h)) a), (a, s))
]

sort_credentials-OldestFirst : (l : List WebAuthnCredential) → OldestFirst (sort_credentials l)
unfolding sort_credentials
sort_credentials-OldestFirst [] = tt
sort_credentials-OldestFirst (c ∷ l) =
    insert_credential-OldestFirst c (sort_credentials l) (sort_credentials-OldestFirst l)

All-sort_credentials :
    (P : WebAuthnCredential → Type 0) (l : List WebAuthnCredential)
    → All P l
    → All P (sort_credentials l)
unfolding sort_credentials
All-sort_credentials P [] h = tt
All-sort_credentials P (c ∷ l) (p, h) =
    All-insert_credential P c (sort_credentials l) p (All-sort_credentials P l h)

any-insert_credential :
    (test : WebAuthnCredential → Bool) (c : WebAuthnCredential) (l : List WebAuthnCredential)
    → any test (insert_credential c l) ≡ test c || any test l
unfolding insert_credential
any-insert_credential test c [] = refl
any-insert_credential test c (d ∷ l) = ground (arith, any-insert_credential test c l)

any-sort_credentials :
    (test : WebAuthnCredential → Bool) (l : List WebAuthnCredential)
    → any test (sort_credentials l) ≡ any test l
unfolding sort_credentials
any-sort_credentials test [] = refl
any-sort_credentials test (c ∷ l) =
    any-insert_credential test c (sort_credentials l) ∙ rw (any-sort_credentials test l) refl

module _ (bolt : Bolt) (json : Json) where
  open bolt use {Bucket, get}

  -- What the walk adds for one record that decodes.
  credentials_of-cons :
      (user_id k v : Str) (rest : List (Str × Str)) (m : List WebAuthnCredential)
      → credentials_of bolt json user_id ((k, v) ∷ rest) ≡ ok m
      → (c : WebAuthnCredential) × ((more : List WebAuthnCredential) × ((json.credential.unmarshal v
              ≡ some c)
            × ((credentials_of bolt json user_id rest ≡ ok more)
                × ((if c.user_id == user_id then c ∷ more else more) ≡ m))))
  unfolding credentials_of
  credentials_of-cons user_id k v rest m e = elim (Option-cases (json.credential.unmarshal v)) [
    | inl bad ↦ cc (rw (bad, credentials_of) at e)
    | inr (c, decoded) ↦
        let (more, scanned, last) =
          bind-ok (credentials_of bolt json user_id rest)
            (λ more. ok (if c.user_id == user_id then c ∷ more else more)) m
            (rw (decoded, credentials_of) at e) in
        (
          c,
          (
            more,
            (
              decoded,
              (scanned, ok-injective (if c.user_id == user_id then c ∷ more else more) m last),
            ),
          ),
        )
  ]

  credentials_of-All :
      (user_id : Str) (l : List (Str × Str)) (m : List WebAuthnCredential)
      → credentials_of bolt json user_id l ≡ ok m
      → All (λ c. c.user_id ≡ user_id) m
  unfolding credentials_of
  credentials_of-All user_id [] m e = rw (sym (ok-injective [] m e)) tt
  credentials_of-All user_id ((k, v) ∷ rest) m e =
      let (c, (more, (decoded, (scanned, same)))) = credentials_of-cons user_id k v rest m e in
      rw (sym same) (elim (Bool-cases (c.user_id == user_id)) [
        | inl own ↦
            rw own ((eq_iff c.user_id user_id).0 own, credentials_of-All user_id rest more scanned)
        | inr other ↦ rw other (credentials_of-All user_id rest more scanned)
      ])

  credentials_of-any :
      (user_id : Str) (test : WebAuthnCredential → Bool) (k v : Str) (c : WebAuthnCredential)
      → json.credential.unmarshal v ≡ some c
      → c.user_id ≡ user_id
      → test c ≡ true
      → (l : List (Str × Str)) (m : List WebAuthnCredential) → find k l ≡ some v
      → credentials_of bolt json user_id l ≡ ok m
      → any test m ≡ true
  unfolding find
  credentials_of-any user_id test k v c decoded own passed [] m found e = cc found
  credentials_of-any user_id test k v c decoded own passed ((j, w) ∷ rest) m found e =
      let (d, (more, (decoded', (scanned, same)))) = credentials_of-cons user_id j w rest m e in
      rw (sym same) (elim (Bool-cases (j == k)) [
        | inl here ↦
            let value : w ≡ v = cc (rw here at found) in
            let known : d ≡ c = cc (sym decoded' ∙ ap json.credential.unmarshal value ∙ decoded) in
            let mine : (c.user_id == user_id) ≡ true = (eq_iff c.user_id user_id).1 own in
            rw (known, mine, passed) refl
        | inr later ↦
            let listed =
              credentials_of-any user_id test k v c decoded own passed rest more (rw later at found)
                scanned in
            elim (Bool-cases (d.user_id == user_id)) [
              | inl mine ↦ rw (mine, listed) (ground arith)
              | inr other ↦ rw (other, listed) refl
            ]
      ])

  -- A list of passkeys that is answered is in the order of creation and holds the user's only, and a
  -- stored passkey of the user is among them: what a test says of it, it says of one in the list.
  pub list_webauthn_credentials-OldestFirst :
      Laws bolt
      → (user_id : Str) (b : Bucket) (l : List WebAuthnCredential)
      → (id v : Str) (c : WebAuthnCredential) (test : WebAuthnCredential → Bool)
      → list_webauthn_credentials bolt json user_id b ≡ ok l
      → get (webauthn_credential_prefix ++ id) b ≡ some v
      → json.credential.unmarshal v ≡ some c
      → c.user_id ≡ user_id
      → test c ≡ true
      → OldestFirst l × (All (λ d. d.user_id ≡ user_id) l × (any test l ≡ true))
  unfolding list_webauthn_credentials
  list_webauthn_credentials-OldestFirst laws user_id b l id v c test e stored decoded own passed =
      let (found, scanned, last) =
        bind-ok (credentials_of bolt json user_id (walk bolt webauthn_credential_prefix b))
          (λ found. ok (sort_credentials found)) l e in
      let same = ok-injective (sort_credentials found) l last in
      let walked : find (webauthn_credential_prefix ++ id) (walk bolt webauthn_credential_prefix b)
          ≡ some v =
        find-walk bolt laws (webauthn_credential_prefix ++ id) webauthn_credential_prefix b
        ∙ rw (has_prefix-append webauthn_credential_prefix id) stored in
      (
        rw same at (sort_credentials-OldestFirst found),
        (
          rw same at (
              All-sort_credentials (λ d. d.user_id ≡ user_id) found
                (credentials_of-All user_id (walk bolt webauthn_credential_prefix b) found
                  scanned)),
          ap (any test) (sym same)
              ∙ any-sort_credentials test found
              ∙ credentials_of-any user_id test (webauthn_credential_prefix ++ id) v c decoded own
                  passed (walk bolt webauthn_credential_prefix b) found walked scanned,
        ),
      )
