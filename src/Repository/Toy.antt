-- ===== src/Repository/Toy.antt =====
-- A bucket to run the model with: a list of entries in the order of keys.
use mcp_oauth_gateway.Base.{
  Str, true, Option, none, some, List, [], ◌∷◌, ◌≡◌, refl, sym, ap, inl, inr, ltb, ◌==◌, str_eq,
  eq_iff, str_ltb, str_ltb_total, length, Bool-cases,
}
use mcp_oauth_gateway.Repository.SortedMap.{
  find, insert_sorted, remove, from, Above, Ascending, Above-trans,
}
use mcp_oauth_gateway.Repository.Bolt.{Bolt, Laws}
use mcp_oauth_gateway.Repository.Models.{Sessions}

module _ {V : Type 0} where
  Above-insert_sorted :
      (i k : Str) (v : V) (l : List (Str × V))
      → str_ltb i k ≡ true
      → Above i l
      → Above i (insert_sorted k v l)
  unfolding insert_sorted
  Above-insert_sorted i k v [] h a = (h, tt)
  Above-insert_sorted i k v ((j, w) ∷ l) h (b, a) = elim (Bool-cases (str_ltb k j)) [
    | inl before ↦ rw before (h, (b, a))
    | inr late ↦ elim (Bool-cases (k == j)) [
      | inl same ↦ rw (late, same) (h, a)
      | inr other ↦ rw (late, other) (b, Above-insert_sorted i k v l h a)
    ]
  ]

  pub Ascending-insert_sorted :
      (k : Str) (v : V) (l : List (Str × V)) → Ascending l → Ascending (insert_sorted k v l)
  unfolding insert_sorted
  Ascending-insert_sorted k v [] s = (tt, tt)
  Ascending-insert_sorted k v ((j, w) ∷ l) (a, s) = elim (Bool-cases (str_ltb k j)) [
    | inl before ↦ rw before ((before, Above-trans k j l before a), (a, s))
    | inr late ↦ elim (Bool-cases (k == j)) [
      | inl same ↦ rw (late, same) (rw ((eq_iff k j).0 same) a, s)
      | inr other ↦
          rw (late, other)
            (
              Above-insert_sorted j k v l (str_ltb_total k j late other) a,
              Ascending-insert_sorted k v l s,
            )
    ]
  ]

  Above-remove : (i k : Str) (l : List (Str × V)) → Above i l → Above i (remove k l)
  unfolding remove
  Above-remove i k [] a = tt
  Above-remove i k ((j, w) ∷ l) (b, a) = elim (Bool-cases (j == k)) [
    | inl same ↦ rw same a
    | inr other ↦ rw other (b, Above-remove i k l a)
  ]

  pub Ascending-remove : (k : Str) (l : List (Str × V)) → Ascending l → Ascending (remove k l)
  unfolding remove
  Ascending-remove k [] s = tt
  Ascending-remove k ((j, w) ∷ l) (a, s) = elim (Bool-cases (j == k)) [
    | inl same ↦ rw same s
    | inr other ↦ rw other (Above-remove j k l a, Ascending-remove k l s)
  ]

pub record Sorted : Type 0 where
  pub entries : List (Str × Str)
  pub ascending : Ascending entries

-- A commit fails when there are more than a hundred entries.
abbrev pub toy_bolt : Bolt
toy_bolt = record {
  Bucket = Sorted;
  get = λ k b. find k b.entries;
  put = λ k v b. some (record {
    entries = insert_sorted k v b.entries;
    ascending = Ascending-insert_sorted k v b.entries b.ascending;
  });
  delete = λ k b. some (record {
    entries = remove k b.entries;
    ascending = Ascending-remove k b.entries b.ascending;
  });
  seek = λ k b. from k b.entries;
  commits = λ b. ltb (length b.entries) 101;
}

entries_of : Option Sorted → List (Str × Str)
entries_of none = []
entries_of (some b) = b.entries

pub toy_bolt-Laws : Laws toy_bolt
unfolding entries_of
toy_bolt-Laws = record {
  entries = λ b. b.entries;
  ascending = λ b. b.ascending;
  get_entries = λ k b. refl;
  seek_entries = λ k b. refl;
  put_entries = λ k v b c e. ap entries_of (sym e);
  delete_entries = λ k b c e. ap entries_of (sym e);
}

abbrev pub no_entries : toy_bolt.Bucket
no_entries = record { entries = []; ascending = tt }

-- A session is a string, marked in its stored form; its label is the string.
abbrev read_marked : Str → Option Str
read_marked [] = none
read_marked (_ ∷ s) = some s

abbrev pub toy_sessions : Sessions
toy_sessions = record {
  Session = Str;
  marshal_session = λ s. some (b'{' ∷ s);
  unmarshal_session = λ s old. read_marked s;
  label = λ s. some s;
  Url = Str;
  parse_url = λ s. some s;
  url_string = λ s. s;
}
