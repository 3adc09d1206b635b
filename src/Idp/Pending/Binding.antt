-- ===== src/Idp/Pending/Binding.antt =====
-- authorize.go: the ids of pending requests in a browser's session.
use mcp_oauth_gateway.Base.{
  Str, not, ◌&&◌, ◌||◌, some, List, [], ◌∷◌, ◌++◌, any, ◌==◌, str_eq, eq_iff, ◌≡◌, ◌≢◌, refl, sym,
  ◌∙◌, ap, inl, inr, arith, Bool-cases,
}
use mcp_oauth_gateway.Repository.Bolt.{Codec}
use mcp_oauth_gateway.Auth.Session.{Session, nonempty}
use mcp_oauth_gateway.Idp.Pending.{
  ids_of, authorize_request_ids, has_authorize_request_id, written, add_authorize_request_id,
  remaining, keep_ids, remove_authorize_request_id,
}

-- `encoding/json` writes every list of strings, as a text that is not empty, and reads it back.
pub record Writes (strings : Codec (List Str)) : Type 0 where
  pub text : List Str → Str
  pub marshals : (ids : List Str) → strings.marshal ids ≡ some (text ids)
  pub filled : (ids : List Str) → text ids ≢ []
  pub reads : (ids : List Str) → strings.unmarshal (text ids) ≡ some ids

module _ (strings : Codec (List Str)) (laws : Writes strings) where
  written-text : (ids : List Str) → written strings ids ≡ laws.text ids
  unfolding written
  written-text ids = rw (written, laws.marshals ids) refl

  nonempty-some : (value : Str) → value ≢ [] → nonempty (some value) ≡ some value
  unfolding nonempty
  nonempty-some value filled = elim (Bool-cases (value == [])) [
    | inl blank ↦ absurd (filled ((eq_iff value []).0 blank))
    | inr other ↦ rw other refl
  ]

  ids_of-text : (ids : List Str) → ids_of strings (some (laws.text ids)) ≡ ids
  unfolding ids_of
  ids_of-text ids = rw (ids_of, laws.reads ids) refl

  ids_of-written : (ids : List Str) → ids_of strings (nonempty (some (written strings ids))) ≡ ids
  ids_of-written ids =
      ap (λ v. ids_of strings (nonempty (some v))) (written-text ids)
      ∙ ap (ids_of strings) (nonempty-some (laws.text ids) (laws.filled ids))
      ∙ ids_of-text ids

  any-append_one :
      (id x : Str) (l : List Str)
      → any (λ i. i == id) (l ++ x ∷ []) ≡ any (λ i. i == id) l || x == id
  any-append_one id x [] = ground arith
  any-append_one id x (y ∷ l) = ground (arith, any-append_one id x l)

  any-remaining :
      (id gone : Str) (l : List Str)
      → any (λ i. i == id) (remaining gone l) ≡ not (gone == id) && any (λ i. i == id) l
  unfolding remaining
  any-remaining id gone [] = ground arith
  any-remaining id gone (x ∷ l) =
      ground (arith, any-remaining id gone l, eq_iff x gone, eq_iff x id, eq_iff gone id)

  -- A session knows the request that is added to it, and those that it knew.
  pub has-add_authorize_request_id :
      (s : Session) (new id : Str)
      → has_authorize_request_id strings (add_authorize_request_id strings s new) id
        ≡ (new == id || has_authorize_request_id strings s id)
  unfolding has_authorize_request_id add_authorize_request_id authorize_request_ids
  has-add_authorize_request_id s new id =
      elim (Bool-cases (has_authorize_request_id strings s new)) [
        | inl known ↦ rw known (elim (Bool-cases (new == id)) [
          | inl same ↦ rw (same, sym ((eq_iff new id).0 same)) known
          | inr other ↦ rw other refl
        ])
        | inr unknown ↦
            rw (unknown, ids_of-written (authorize_request_ids strings s ++ new ∷ []))
              (any-append_one id new (authorize_request_ids strings s) ∙ ground arith)
      ]

  ids-keep_ids :
      (ids : List Str) (s : Session) → authorize_request_ids strings (keep_ids strings ids s) ≡ ids
  unfolding authorize_request_ids keep_ids
  ids-keep_ids [] s = refl
  ids-keep_ids (x ∷ ids) s = ids_of-written (x ∷ ids)

  -- A session no longer knows the request that is removed from it, and knows all others that it knew.
  pub has-remove_authorize_request_id :
      (s : Session) (gone id : Str)
      → has_authorize_request_id strings (remove_authorize_request_id strings s gone) id
        ≡ (not (gone == id) && has_authorize_request_id strings s id)
  unfolding has_authorize_request_id remove_authorize_request_id
  has-remove_authorize_request_id s gone id =
      ap (any (λ i. i == id)) (ids-keep_ids (remaining gone (authorize_request_ids strings s)) s)
      ∙ any-remaining id gone (authorize_request_ids strings s)
