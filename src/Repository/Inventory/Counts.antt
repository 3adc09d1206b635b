-- ===== src/Repository/Inventory/Counts.antt =====
-- inventory.go: the token counts of a row, against the records that they come from.
use mcp_oauth_gateway.Base.{
  ℕ, ◌+◌, Str, Bool, true, false, not, ◌&&◌, Option, none, some, List, [], ◌∷◌, ◌≡◌, ◌∙◌, ap, inl,
  inr, arith, if◌then◌else◌, ◌==◌, str_eq, eq_iff, Bool-cases,
}
use mcp_oauth_gateway.Repository.SortedMap.{find, find-insert_sorted}
use mcp_oauth_gateway.Repository.Models.{Client, Request}
use mcp_oauth_gateway.Repository.Inventory.{
  TokenKind, access_token_kind, refresh_token_kind, ClientAccumulator, Inventory, take_snapshot,
  count_row, active_row, fold_token, or_new, new_accumulator, add_token_of, add_token,
}

-- The number of a row's tokens of a kind; no row is none.
abbrev pub tokens_of : TokenKind → Option ClientAccumulator → ℕ
tokens_of kind none = 0
tokens_of access_token_kind (some acc) = acc.row.access_tokens
tokens_of refresh_token_kind (some acc) = acc.row.refresh_tokens

abbrev pub same_token_kind : TokenKind → TokenKind → Bool
same_token_kind access_token_kind access_token_kind = true
same_token_kind refresh_token_kind refresh_token_kind = true
same_token_kind _ _ = false

abbrev pub is_of : Str → Option Client → Bool
is_of id none = false
is_of id (some client) = not (client.id == []) && client.id == id

-- The records of a kind that are a client's.
abbrev pub count_records : TokenKind → Str → List (TokenKind × Request) → ℕ
count_records kind id [] = 0
count_records kind id ((k, req) ∷ rest) =
    (if same_token_kind k kind && is_of id req.client then 1 else 0) + count_records kind id rest

abbrev pub add_tokens : List (TokenKind × Request) → Inventory → Inventory
add_tokens [] inv = inv
add_tokens ((k, req) ∷ rest) inv = add_tokens rest (add_token k req inv)

tokens_of-fold_token :
    (kind k : TokenKind) (client : Client) (req : Request) (o : Option ClientAccumulator)
    → tokens_of kind (some (fold_token k client req (or_new client.id o)))
      ≡ (if same_token_kind k kind then 1 else 0) + tokens_of kind o
unfolding fold_token take_snapshot count_row active_row or_new new_accumulator
tokens_of-fold_token access_token_kind access_token_kind client req none = ground arith
tokens_of-fold_token access_token_kind refresh_token_kind client req none = ground arith
tokens_of-fold_token refresh_token_kind access_token_kind client req none = ground arith
tokens_of-fold_token refresh_token_kind refresh_token_kind client req none = ground arith
tokens_of-fold_token access_token_kind access_token_kind client req (some acc) = ground arith
tokens_of-fold_token access_token_kind refresh_token_kind client req (some acc) = ground arith
tokens_of-fold_token refresh_token_kind access_token_kind client req (some acc) = ground arith
tokens_of-fold_token refresh_token_kind refresh_token_kind client req (some acc) = ground arith

tokens_of-add_token_of :
    (kind k : TokenKind) (id : Str) (o : Option Client) (req : Request) (inv : Inventory)
    → tokens_of kind (find id (add_token_of k o req inv))
      ≡ (if same_token_kind k kind && is_of id o then 1 else 0) + tokens_of kind (find id inv)
unfolding add_token_of
tokens_of-add_token_of kind k id none req inv = ground arith
tokens_of-add_token_of kind k id (some client) req inv = elim (Bool-cases (client.id == [])) [
  | inl blank ↦ rw blank (ground arith)
  | inr known ↦ rw known (
      rw
        (find-insert_sorted id client.id
          (fold_token k client req (or_new client.id (find client.id inv))) inv)
        (elim (Bool-cases (client.id == id)) [
          | inl same ↦ rw same (
              tokens_of-fold_token kind k client req (find client.id inv)
              ∙ ap (λ i. (if same_token_kind k kind then 1 else 0) + tokens_of kind (find i inv))
                  ((eq_iff client.id id).0 same)
              ∙ ground arith)
          | inr other ↦ rw other (ground arith)
        ]))
]

add_tokens-from :
    (kind : TokenKind) (id : Str) (l : List (TokenKind × Request)) (inv : Inventory)
    → tokens_of kind (find id (add_tokens l inv))
      ≡ count_records kind id l + tokens_of kind (find id inv)
unfolding add_token
add_tokens-from kind id [] inv = ground arith
add_tokens-from kind id ((k, req) ∷ rest) inv =
    add_tokens-from kind id rest (add_token k req inv)
    ∙ ground (arith, tokens_of-add_token_of kind k id req.client req inv)

-- After any token records, in any order, the row of a client counts those of each kind that name it;
-- a record without a client, or with an unnamed one, is counted for none.
pub tokens_of-add_tokens :
    (kind : TokenKind) (id : Str) (l : List (TokenKind × Request))
    → tokens_of kind (find id (add_tokens l [])) ≡ count_records kind id l
unfolding find
tokens_of-add_tokens kind id l = add_tokens-from kind id l [] ∙ ground arith
