-- ===== src/Keys/Disk/Triple.antt =====
-- Rules for actions on the disk: what holds after an action that returns, fails or stops.
use mcp_oauth_gateway.Base.{Option, none, some, [], Str, ◌≡◌, refl}
use mcp_oauth_gateway.Keys.Disk.{
  FileName, Event, done, fails, stops, stops_after, Disk, Outcome, ok, err, crashed, Exec, continue,
  ◌>>=◌, pure, raise, lift, gets, on_error, then_cleanup, ignoring_error, call_at, call, next_event,
  read_file,
}

module _ {ℓ} {S : Type 0} {A : Type ℓ} where
  -- `Q` of the result, `E` after an error, `C` after a crash.
  abbrev pub After : (A → S → Type 0) → (S → Type 0) → (S → Type 0) → Outcome A → S → Type 0
  After Q E C (ok a) s = Q a s
  After Q E C err s = E s
  After Q E C crashed s = C s

  pub record Triple (P : S → Type 0) (m : Exec S A) (Q : A → S → Type 0) (E C : S → Type 0)
      : Type 0 where
    pub at : (s : S) → P s → After Q E C (m s).0 (m s).1

-- The same by the outcome.
module _ {ℓ} {S : Type 0} {A : Type ℓ} (Q : A → S → Type 0) (E C : S → Type 0) where
  After-weaken :
      (P : A → S → Type 0) (F D : S → Type 0) (r : Outcome A) (s : S)
      → ((a : A) (s : S) → P a s → Q a s)
      → ((s : S) → F s → E s)
      → ((s : S) → D s → C s)
      → After P F D r s
      → After Q E C r s
  After-weaken P F D (ok a) s f g k h = f a s h
  After-weaken P F D err s f g k h = g s h
  After-weaken P F D crashed s f g k h = k s h

  After-failed :
      (r : Outcome (Unit {0})) (s : S)
      → After (λ _. E) E C r s
      → After Q E C (elim r [ crashed ↦ crashed | _ ↦ err ]) s
  After-failed (ok a) s k = k
  After-failed err s k = k
  After-failed crashed s k = k

  After-cleanup :
      (F : S → Type 0) (r : Outcome A) (s : S) (cleanup : Exec S (Unit {0}))
      → Triple F cleanup (λ _. E) E C
      → After Q F C r s
      → After Q E C (then_cleanup r cleanup s).0 (then_cleanup r cleanup s).1
  After-cleanup F (ok a) s cleanup t h = h
  After-cleanup F crashed s cleanup t h = h
  After-cleanup F err s cleanup t h = After-failed (cleanup s).0 (cleanup s).1 (t.at s h)

  After-continue {κ} :
      {B : Type κ} (R : B → S → Type 0) (r : Outcome A) (s : S) (f : A → Exec S B)
      → ((a : A) → Triple (Q a) (f a) R E C)
      → After Q E C r s
      → After R E C (continue r f s).0 (continue r f s).1
  After-continue R (ok a) s f t h = (t a).at s h
  After-continue R err s f t h = h
  After-continue R crashed s f t h = h

After-ignored :
    {S : Type 0} (Q E C : S → Type 0) (r : Outcome (Unit {0})) (s : S)
    → After {0} (λ _. Q) Q C r s
    → After {0} (λ _. Q) E C (elim r [ crashed ↦ crashed | _ ↦ ok tt ]) s
After-ignored Q E C (ok a) s h = h
After-ignored Q E C err s h = h
After-ignored Q E C crashed s h = h

module _ {ℓ} {S : Type 0} {A : Type ℓ} {Q : A → S → Type 0} {E C : S → Type 0} where
  pub Triple-pure : (a : A) → Triple (Q a) (pure a) Q E C
  unfolding pure
  Triple-pure a = record { at = λ s h. h }

  pub Triple-raise : Triple E (raise {A = A}) Q E C
  unfolding raise
  Triple-raise = record { at = λ s h. h }

  -- the rest may use that the value was there
  pub Triple-lift :
      {P : S → Type 0} (o : Option A)
      → ((s : S) → P s → E s)
      → ((a : A) → o ≡ some a → (s : S) → P s → Q a s)
      → Triple P (lift o) Q E C
  unfolding lift
  Triple-lift none f g = record { at = f }
  Triple-lift (some a) f g = record { at = g a refl }

  pub Triple-weaken :
      {P O : S → Type 0} {R : A → S → Type 0} {F D : S → Type 0} {m : Exec S A}
      → ((s : S) → P s → O s)
      → ((a : A) (s : S) → R a s → Q a s)
      → ((s : S) → F s → E s)
      → ((s : S) → D s → C s)
      → Triple O m R F D
      → Triple P m Q E C
  Triple-weaken {R} {F} {D} {m} e f g k t = record {
    at = λ s h. After-weaken Q E C R F D (m s).0 (m s).1 f g k (t.at s (e s h));
  }

  -- the conditions may speak of the state before the action
  pub Triple-each :
      {P : S → Type 0} {m : Exec S A}
      → ((s : S) → P s → Triple (λ t. t ≡ s) m Q E C)
      → Triple P m Q E C
  Triple-each f = record { at = λ s h. (f s h).at s refl }

  pub Triple-on_error :
      {P F : S → Type 0} {m : Exec S A} {cleanup : Exec S (Unit {0})}
      → Triple P m Q F C
      → Triple F cleanup (λ _. E) E C
      → Triple P (on_error m cleanup) Q E C
  unfolding on_error
  Triple-on_error {F} {m} {cleanup} t u = record {
    at = λ s h. After-cleanup Q E C F (m s).0 (m s).1 cleanup u (t.at s h);
  }

module _ {S : Type 0} {P Q E C : S → Type 0} where
  pub Triple-ignoring :
      {m : Exec S (Unit {0})} → Triple P m (λ _. Q) Q C → Triple P (ignoring_error m) (λ _. Q) E C
  unfolding ignoring_error
  Triple-ignoring {m} t = record { at = λ s h. After-ignored Q E C (m s).0 (m s).1 (t.at s h) }

module _ {ℓ κ} {S : Type 0} {A : Type ℓ} {B : Type κ} {P : S → Type 0} {Q : A → S → Type 0} where
  pub Triple-bind :
      {R : B → S → Type 0} {E C : S → Type 0} {m : Exec S A} {f : A → Exec S B}
      → Triple P m Q E C
      → ((a : A) → Triple (Q a) (f a) R E C)
      → Triple P (m >>= f) R E C
  unfolding ◌>>=◌
  Triple-bind {R} {E} {C} {m} {f} t u = record {
    at = λ s h. After-continue Q E C R (m s).0 (m s).1 f u (t.at s h);
  }

-- Calls of `os`, for conditions on the files.
abbrev pub Files : Type 0
Files = FileName → Option Str

abbrev pub On : (Files → Type 0) → Disk → Type 0
On F d = F d.files

module _ {F : Files → Type 0} (Q E C : Files → Type 0) (effect : Files → Files)
    (partial : Option Str → Files → Files) where
  pub Triple-call :
      ((files : Files) → F files → Q (effect files))
      → ((junk : Option Str) (files : Files) → F files → E (partial junk files))
      → ((junk : Option Str) (files : Files) → F files → C (partial junk files))
      → ((files : Files) → F files → C (effect files))
      → Triple (On F) (call effect partial) (λ _. On Q) (On E) (On C)
  unfolding call call_at
  Triple-call f g k l = record { at = λ d h. at_event d h (next_event d.events) }
    where
      at_event :
          (d : Disk)
          → F d.files
          → (e : Event)
          → After
              (λ _. On Q)
              (On E)
              (On C)
              (call_at effect partial e d).0
              (call_at effect partial e d).1
      at_event d h done = f d.files h
      at_event d h (fails junk) = g junk d.files h
      at_event d h (stops junk) = k junk d.files h
      at_event d h stops_after = l d.files h

-- A read after the last event returns the file.
pub read_file_lem :
    (files : Files) (f : FileName)
    → read_file f (record { files = files; events = [] })
      ≡ (ok (files f), record { files = files; events = [] })
unfolding read_file ◌>>=◌ gets call call_at
read_file_lem files f = refl
