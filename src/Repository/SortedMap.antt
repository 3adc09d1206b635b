-- ===== src/Repository/SortedMap.antt =====
-- The sorted key-value map that a bbolt bucket is, as the list of its entries in the order of keys.
use mcp_oauth_gateway.Base.{
  Str, true, false, Option, none, some, List, [], ◌∷◌, ◌≡◌, refl, inl, inr, arith, All,
  if◌then◌else◌, ◌==◌, str_eq, str_eqb, eq_iff, eq_refl, has_prefix, str_ltb, str_ltb_irrefl,
  str_ltb_trans, has_prefix-between, has_prefix-le, Bool-cases,
}

ltb-not_eq : (k j : Str) → str_ltb k j ≡ true → str_eqb j k ≡ false
ltb-not_eq k j h = ground (arith, h, eq_iff j k, str_ltb_irrefl k)

module _ {V : Type 0} where
  unfoldable pub find : Str → List (Str × V) → Option V
  find k [] = none
  find k ((j, w) ∷ l) = let later = find k l in if j == k then some w else later

  unfoldable pub insert_sorted : Str → V → List (Str × V) → List (Str × V)
  insert_sorted k v [] = (k, v) ∷ []
  insert_sorted k v ((j, w) ∷ l) =
      let later = insert_sorted k v l in
      if str_ltb k j then (k, v) ∷ (j, w) ∷ l else if k == j then (k, v) ∷ l else (j, w) ∷ later

  unfoldable pub remove : Str → List (Str × V) → List (Str × V)
  remove k [] = []
  remove k ((j, w) ∷ l) = let later = remove k l in if j == k then l else (j, w) ∷ later

  -- The entries from a key on.
  unfoldable pub from : Str → List (Str × V) → List (Str × V)
  from p [] = []
  from p ((j, w) ∷ l) = let later = from p l in if str_ltb j p then later else (j, w) ∷ l

  -- The entries up to the first one without the prefix.
  unfoldable pub take_under : Str → List (Str × V) → List (Str × V)
  take_under p [] = []
  take_under p ((j, w) ∷ l) =
      let later = take_under p l in if has_prefix j p then (j, w) ∷ later else []

  abbrev pub Above : Str → List (Str × V) → Type 0
  Above k l = All (λ e. str_ltb k e.0 ≡ true) l

  abbrev pub Ascending : List (Str × V) → Type 0
  Ascending [] = Unit
  Ascending ((k, v) ∷ l) = Above k l × Ascending l

  pub Above-trans : (j k : Str) (l : List (Str × V)) → str_ltb j k ≡ true → Above k l → Above j l
  Above-trans j k [] h a = tt
  Above-trans j k ((i, w) ∷ l) h (b, a) = (str_ltb_trans j k i h b, Above-trans j k l h a)

  pub find-Above : (k : Str) (l : List (Str × V)) → Above k l → find k l ≡ none
  unfolding find
  find-Above k [] a = refl
  find-Above k ((j, w) ∷ l) (b, a) = rw (ltb-not_eq k j b) (find-Above k l a)

  pub find-insert_sorted :
      (j k : Str) (v : V) (l : List (Str × V))
      → find j (insert_sorted k v l) ≡ (if k == j then some v else find j l)
  unfolding find insert_sorted
  find-insert_sorted j k v [] = refl
  find-insert_sorted j k v ((i, w) ∷ l) =
      ground (arith, find-insert_sorted j k v l, eq_iff k j, eq_iff k i, eq_iff i j, eq_refl k)

  pub find-remove :
      (j k : Str) (l : List (Str × V))
      → Ascending l
      → find j (remove k l) ≡ (if k == j then none else find j l)
  unfolding find remove
  find-remove j k [] s = ground arith
  find-remove j k ((i, w) ∷ l) (a, s) =
      ground (
        arith,
        find-remove j k l s,
        find-Above i l a,
        eq_iff k j,
        eq_iff i k,
        eq_iff i j,
        eq_refl k,
      )

  pub Ascending-from : (p : Str) (l : List (Str × V)) → Ascending l → Ascending (from p l)
  unfolding from
  Ascending-from p [] s = tt
  Ascending-from p ((j, w) ∷ l) (a, s) = elim (Bool-cases (str_ltb j p)) [
    | inl before ↦ rw before (Ascending-from p l s)
    | inr not_before ↦ rw not_before (a, s)
  ]

  Above-take_under : (k p : Str) (l : List (Str × V)) → Above k l → Above k (take_under p l)
  unfolding take_under
  Above-take_under k p [] a = tt
  Above-take_under k p ((j, w) ∷ l) (b, a) = elim (Bool-cases (has_prefix j p)) [
    | inl under ↦ rw under (b, Above-take_under k p l a)
    | inr other ↦ rw other tt
  ]

  Ascending-take_under : (p : Str) (l : List (Str × V)) → Ascending l → Ascending (take_under p l)
  unfolding take_under
  Ascending-take_under p [] s = tt
  Ascending-take_under p ((j, w) ∷ l) (a, s) = elim (Bool-cases (has_prefix j p)) [
    | inl under ↦ rw under (Above-take_under j p l a, Ascending-take_under p l s)
    | inr other ↦ rw other tt
  ]

  find-from : (k p : Str) (l : List (Str × V)) → str_ltb k p ≡ false → find k (from p l) ≡ find k l
  unfolding find from
  find-from k p [] h = refl
  find-from k p ((j, w) ∷ l) h = ground (arith, h, find-from k p l h, eq_iff j k)

  abbrev pub NotBefore : Str → List (Str × V) → Type 0
  NotBefore p l = All (λ e. str_ltb e.0 p ≡ false) l

  Above-NotBefore :
      (p j : Str) (l : List (Str × V)) → str_ltb j p ≡ false → Above j l → NotBefore p l
  Above-NotBefore p j [] h a = tt
  Above-NotBefore p j ((i, w) ∷ l) h (b, a) =
      (ground (arith, h, b, str_ltb_trans j i p b), Above-NotBefore p j l h a)

  pub NotBefore-from : (p : Str) (l : List (Str × V)) → Ascending l → NotBefore p (from p l)
  unfolding from
  NotBefore-from p [] s = tt
  NotBefore-from p ((j, w) ∷ l) (a, s) = elim (Bool-cases (str_ltb j p)) [
    | inl before ↦ rw before (NotBefore-from p l s)
    | inr not_before ↦ rw not_before (not_before, Above-NotBefore p j l not_before a)
  ]

  find-past : (j k : Str) (l : List (Str × V)) → Above j l → str_ltb j k ≡ false → find k l ≡ none
  unfolding find
  find-past j k [] a h = refl
  find-past j k ((i, w) ∷ l) (b, a) h = ground (arith, b, h, find-past j k l a h, eq_iff i k)

  find-take_under :
      (k p : Str) (l : List (Str × V))
      → Ascending l
      → NotBefore p l
      → find k (take_under p l) ≡ (if has_prefix k p then find k l else none)
  unfolding find take_under
  find-take_under k p [] s n = ground arith
  find-take_under k p ((j, w) ∷ l) (a, s) (b, n) =
      ground (
        arith,
        find-take_under k p l s n,
        eq_iff j k,
        find-past j k l a,
        has_prefix-between p j k b,
      )

  -- The cursor's walk under a prefix meets the entries whose key has it, and no other.
  unfoldable pub under : Str → List (Str × V) → List (Str × V)
  under p l = take_under p (from p l)

  pub find-under :
      (k p : Str) (l : List (Str × V))
      → Ascending l
      → find k (under p l) ≡ (if has_prefix k p then find k l else none)
  unfolding under
  find-under k p l s = ground (
    arith,
    find-take_under k p (from p l) (Ascending-from p l s) (NotBefore-from p l s),
    find-from k p l,
    has_prefix-le p k,
  )

  pub Ascending-under : (p : Str) (l : List (Str × V)) → Ascending l → Ascending (under p l)
  unfolding under
  Ascending-under p l s = Ascending-take_under p (from p l) (Ascending-from p l s)
