-- ===== src/Repository/Format.antt =====
-- A concrete encoding of the stored records, to run the model with: fields in order, a list after its
-- length.
pub mod Records
use mcp_oauth_gateway.Base.{
  append_assoc, append_nil, ℕ, zero, suc, Str, Bool, true, false, Option, none, some, List, [], ◌∷◌,
  ◌++◌, length, ◌≡◌, refl, sym, ◌∙◌, ap,
}
use mcp_oauth_gateway.Repository.Bolt.{Codec, RoundTrips}
use mcp_oauth_gateway.Repository.Models.{
  Json, Client, Request, AuthorizeRequest, User, WebAuthnCredential,
}

-- A decoder takes what it needs from the front.
pub record Format (A : Type 0) : Type 0 where
  pub encode : A → Str
  pub decode : Str → Option (A × Str)
  pub decode-encode : (a : A) (rest : Str) → decode (encode a ++ rest) ≡ some (a, rest)

module _ {A B : Type 0} where
  abbrev pub then_decode : Option (A × Str) → (A → Str → Option (B × Str)) → Option (B × Str)
  then_decode none f = none
  then_decode (some (a, rest)) f = f a rest

  abbrev pub paired : Option (B × Str) → A → Option ((A × B) × Str)
  paired none a = none
  paired (some (b, rest)) a = some ((a, b), rest)

  abbrev pub mapped : (A → B) → Option (A × Str) → Option (B × Str)
  mapped f none = none
  mapped f (some (a, rest)) = some (f a, rest)

  -- A type in one-to-one correspondence.
  abbrev pub along : Format A → (to : A → B) (back : B → A) → ((b : B) → to (back b) ≡ b) → Format B
  along x to back h = record {
    encode = λ b. x.encode (back b);
    decode = λ s. mapped to (x.decode s);
    decode-encode =
        λ b rest. ap (mapped to) (x.decode-encode (back b) rest) ∙ ap (λ c. some (c, rest)) (h b);
  }

abbrev pub nat_format : Format ℕ
nat_format = record {
  encode = λ n. n ∷ [];
  decode = λ s. elim s [ [] ↦ none | n ∷ rest ↦ some (n, rest) ];
  decode-encode = λ n rest. refl;
}

module _ {A B : Type 0} (x : Format A) (y : Format B) where
  abbrev pub decode_pair : Str → Option ((A × B) × Str)
  decode_pair s = then_decode (x.decode s) (λ a rest. paired (y.decode rest) a)

infixr 4 ◌⊗◌
abbrev pub ◌⊗◌ : {A B : Type 0} → Format A → Format B → Format (A × B)
x ⊗ y = record {
  encode = λ p. x.encode p.0 ++ y.encode p.1;
  decode = decode_pair x y;
  decode-encode = λ p rest.
      ap (decode_pair x y) (append_assoc (x.encode p.0) (y.encode p.1) rest)
      ∙ ap (λ o. then_decode o (λ a rest. paired (y.decode rest) a))
          (x.decode-encode p.0 (y.encode p.1 ++ rest))
      ∙ ap (λ o. paired o p.0) (y.decode-encode p.1 rest);
}

module _ {A : Type 0} (x : Format A) where
  abbrev pub encode_all : List A → Str
  encode_all [] = []
  encode_all (a ∷ l) = x.encode a ++ encode_all l

  abbrev pub consed : Option (List A × Str) → A → Option (List A × Str)
  consed none a = none
  consed (some (l, rest)) a = some (a ∷ l, rest)

  abbrev pub decode_many : ℕ → Str → Option (List A × Str)
  decode_many zero s = some ([], s)
  decode_many (suc n) s = then_decode (x.decode s) (λ a rest. consed (decode_many n rest) a)

  pub decode_many-encode_all :
      (l : List A) (rest : Str) → decode_many (length l) (encode_all l ++ rest) ≡ some (l, rest)
  decode_many-encode_all [] rest = refl
  decode_many-encode_all (a ∷ l) rest =
      ap (λ s. then_decode (x.decode s) (λ b r. consed (decode_many (length l) r) b))
        (append_assoc (x.encode a) (encode_all l) rest)
      ∙ ap (λ o. then_decode o (λ b r. consed (decode_many (length l) r) b))
          (x.decode-encode a (encode_all l ++ rest))
      ∙ ap (λ o. consed o a) (decode_many-encode_all l rest)

  abbrev pub decode_counted : Str → Option (List A × Str)
  decode_counted [] = none
  decode_counted (n ∷ s) = decode_many n s

  abbrev pub list_format : Format (List A)
  list_format = record {
    encode = λ l. length l ∷ encode_all l;
    decode = decode_counted;
    decode-encode = decode_many-encode_all;
  }

abbrev pub bit : Bool → ℕ
bit true = 1
bit false = 0

abbrev pub is_one : ℕ → Bool
is_one zero = false
is_one (suc n) = true

pub is_one-bit : (b : Bool) → is_one (bit b) ≡ b
is_one-bit true = refl
is_one-bit false = refl

abbrev pub bool_format : Format Bool
bool_format = along nat_format is_one bit is_one-bit

abbrev pub head_of : {A : Type 0} → List A → Option A
head_of [] = none
head_of (a ∷ l) = some a

abbrev pub as_list : {A : Type 0} → Option A → List A
as_list none = []
as_list (some a) = a ∷ []

pub head_of-as_list : {A : Type 0} (o : Option A) → head_of (as_list o) ≡ o
head_of-as_list none = refl
head_of-as_list (some a) = refl

abbrev pub option_format : {A : Type 0} → Format A → Format (Option A)
option_format x = along (list_format x) head_of as_list head_of-as_list

abbrev pub str_format : Format Str
str_format = list_format nat_format

abbrev pub strs_format : Format (List Str)
strs_format = list_format str_format

-- The whole string has to be used up.
abbrev pub used_up : {A : Type 0} → Option (A × Str) → Option A
used_up none = none
used_up (some (a, [])) = some a
used_up (some (a, _ ∷ _)) = none

abbrev pub codec : {A : Type 0} → Format A → Codec A
codec x = record { marshal = λ a. some (x.encode a); unmarshal = λ s. used_up (x.decode s) }

pub codec-RoundTrips : {A : Type 0} (x : Format A) → RoundTrips (codec x)
codec-RoundTrips x a s e =
    let written : x.encode a ≡ s = cc e in
    rw (sym written, sym (append_nil (x.encode a))) (ap used_up (x.decode-encode a []))
