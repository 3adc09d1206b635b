-- ===== src/Keys/Disk.antt =====
-- The key directory as the code uses it, one call of `os` at a time. Each call takes the next event:
-- it is done, it fails, or the process stops there, before the call is complete or just after. A write
-- that does not complete leaves what it may in the file; a rename is atomic. After the last event every call is done.
pub mod Triple
use mcp_oauth_gateway.Base.{Option, none, some, List, [], ◌∷◌, Str, ◌==◌, str_eq, Bool, false, true}
use mcp_oauth_gateway.Base.{if◌then◌else◌}

-- The files: keys/manifest.json, its temporary file, keys/<kid>.pem, and the legacy key.
pub data FileName : Type 0 where
  manifest_file manifest_tmp legacy_file : FileName
  key_file : Str → FileName

abbrev pub same_file : FileName → FileName → Bool
same_file manifest_file manifest_file = true
same_file manifest_tmp manifest_tmp = true
same_file legacy_file legacy_file = true
same_file (key_file a) (key_file b) = a == b
same_file _ _ = false

-- What becomes of a call; the argument is what an interrupted write leaves in its file.
pub data Event : Type 0 where
  done : Event
  fails : Option Str → Event
  stops : Option Str → Event
  stops_after : Event

pub record Disk : Type 0 where
  pub files : FileName → Option Str
  pub events : List Event

pub data Outcome {ℓ} (A : Type ℓ) : Type ℓ where
  ok : A → Outcome A
  err : Outcome A
  crashed : Outcome A

-- Actions over a state of which the disk is a part.
abbrev pub Exec {ℓ} : Type 0 → Type ℓ → Type ℓ
Exec S A = S → Outcome A × S

module _ {ℓ κ} {S : Type 0} {A : Type ℓ} {B : Type κ} where
  abbrev pub continue : Outcome A → (A → Exec S B) → Exec S B
  continue (ok a) f s = f a s
  continue err f s = (err, s)
  continue crashed f s = (crashed, s)

  infixl 5 ◌>>=◌ ◌>>◌
  unfoldable pub ◌>>=◌ : Exec S A → (A → Exec S B) → Exec S B
  ◌>>=◌ m f s = let (o, t) = m s in continue o f t

  abbrev pub ◌>>◌ : Exec S A → Exec S B → Exec S B
  m >> n = m >>= λ _. n

module _ {ℓ} {S : Type 0} {A : Type ℓ} where
  unfoldable pub pure : A → Exec S A
  pure a s = (ok a, s)

  unfoldable pub raise : Exec S A
  raise s = (err, s)

  unfoldable pub lift : Option A → Exec S A
  lift none s = (err, s)
  lift (some a) s = (ok a, s)

  unfoldable pub gets : (S → A) → Exec S A
  gets f s = (ok (f s), s)

unfoldable pub modify : {S : Type 0} → (S → S) → Exec S (Unit {0})
modify f s = (ok tt, f s)

-- `if err := m(); err != nil { cleanup; return err }`: an error of the cleanup is ignored.
abbrev pub then_cleanup {ℓ} : {S : Type 0} {A : Type ℓ} → Outcome A → Exec S (Unit {0}) → Exec S A
then_cleanup (ok a) cleanup s = (ok a, s)
then_cleanup crashed cleanup s = (crashed, s)
then_cleanup err cleanup s = let (r, s') = cleanup s in (elim r [ crashed ↦ crashed | _ ↦ err ], s')

unfoldable pub on_error {ℓ} : {S : Type 0} {A : Type ℓ} → Exec S A → Exec S (Unit {0}) → Exec S A
on_error m cleanup s = let (r, s') = m s in then_cleanup r cleanup s'

-- `_ = m()`
unfoldable pub ignoring_error : {S : Type 0} → Exec S (Unit {0}) → Exec S (Unit {0})
ignoring_error m s = let (r, s') = m s in (elim r [ crashed ↦ crashed | _ ↦ ok tt ], s')

-- Calls of `os`, on the disk alone.

abbrev pub store : FileName → Option Str → (FileName → Option Str) → FileName → Option Str
store f c files g = if same_file f g then c else files g

abbrev pub next_event : List Event → Event
next_event [] = done
next_event (e ∷ _) = e

abbrev pub later_events : List Event → List Event
later_events [] = []
later_events (_ ∷ es) = es

-- A call with an effect on the files when it is done and another when it is interrupted.
unfoldable pub call_at :
    ((FileName → Option Str) → FileName → Option Str)
    → (Option Str → (FileName → Option Str) → FileName → Option Str)
    → Event
    → Exec Disk (Unit {0})
call_at effect partial done d =
    (ok tt, record { files = effect d.files; events = later_events d.events })
call_at effect partial (fails junk) d =
    (err, record { files = partial junk d.files; events = later_events d.events })
call_at effect partial (stops junk) d =
    (crashed, record { files = partial junk d.files; events = later_events d.events })
call_at effect partial stops_after d =
    (crashed, record { files = effect d.files; events = later_events d.events })

unfoldable pub call :
    ((FileName → Option Str) → FileName → Option Str)
    → (Option Str → (FileName → Option Str) → FileName → Option Str)
    → Exec Disk (Unit {0})
unfolding call_at
call effect partial d = call_at effect partial (next_event d.events) d

-- `os.WriteFile`, and a write to an open file.
unfoldable pub write_file : FileName → Str → Exec Disk (Unit {0})
write_file f c = call (store f (some c)) (store f)

-- `os.Remove`; a missing file is an error that every caller ignores.
unfoldable pub remove_file : FileName → Exec Disk (Unit {0})
remove_file f = call (store f none) (λ junk files. files)

-- `os.Rename` of the temporary manifest over the manifest.
unfoldable pub rename_manifest : Exec Disk (Unit {0})
rename_manifest =
    call (λ files. store manifest_tmp none (store manifest_file (files manifest_tmp) files))
      (λ junk files. files)

-- A call that changes no file: `os.MkdirAll`, `Sync`, `Close`.
unfoldable pub touch_nothing : Exec Disk (Unit {0})
touch_nothing = call (λ files. files) (λ junk files. files)

-- `os.ReadFile` and `os.Stat`: the content, `none` if there is no such file.
unfoldable pub read_file : FileName → Exec Disk (Option Str)
unfolding touch_nothing
read_file f = touch_nothing >> gets (λ d. d.files f)
