-- ===== src/Keys/Directory/Replace.antt =====
-- manifest.go: replacing the manifest is atomic, whatever fails and wherever the process stops.
use mcp_oauth_gateway.Base.{Option, some, [], Str, ◌≡◌, refl, ◌⊎◌, inl, inr}
use mcp_oauth_gateway.Keys.Disk.{
  manifest_file, manifest_tmp, key_file, ◌>>◌, touch_nothing, write_file, remove_file,
  rename_manifest, ignoring_error,
}
use mcp_oauth_gateway.Keys.Disk.Triple.{
  Triple, On, Files, Triple-bind, Triple-call, Triple-on_error, Triple-ignoring, Triple-weaken,
}
use mcp_oauth_gateway.Keys.Directory.{replace_manifest}

-- The manifest and the key files.
pub record Holds (text : Option Str) (keys : Str → Option Str) (files : Files) : Type 0 where
  pub manifest : files manifest_file ≡ text
  pub key : (kid : Str) → files (key_file kid) ≡ keys kid

record Prepared (text : Option Str) (keys : Str → Option Str) (tmp : Str) (files : Files)
    : Type 0 where
  manifest : files manifest_file ≡ text
  key : (kid : Str) → files (key_file kid) ≡ keys kid
  temporary : files manifest_tmp ≡ some tmp

module _ (text : Option Str) (keys : Str → Option Str) (new : Str) where
  abbrev Old : Files → Type 0
  Old = Holds text keys

  -- The old manifest or the new one.
  abbrev pub Either : Files → Type 0
  Either files = Old files ⊎ Holds (some new) keys files

  write_tmp :
      (c : Str)
      → Triple
          (On Old)
          (write_file manifest_tmp c)
          (λ _. On (Prepared text keys c))
          (On Old)
          (On Old)
  unfolding write_file
  write_tmp c =
      Triple-call (Prepared text keys c) Old Old _ _
        (λ files h. record { manifest = h.manifest; key = h.key; temporary = refl })
        (λ junk files h. record { manifest = h.manifest; key = h.key })
        (λ junk files h. record { manifest = h.manifest; key = h.key })
        (λ files h. record { manifest = h.manifest; key = h.key })

  remove_tmp : Triple (On Old) (remove_file manifest_tmp) (λ _. On Old) (On Old) (On Old)
  unfolding remove_file
  remove_tmp =
      Triple-call Old Old Old _ _ (λ files h. record { manifest = h.manifest; key = h.key })
        (λ junk files h. h) (λ junk files h. h)
        (λ files h. record { manifest = h.manifest; key = h.key })

  -- a call that changes no file keeps any condition
  keep : (F : Files → Type 0) → Triple (On F) touch_nothing (λ _. On F) (On F) (On F)
  unfolding touch_nothing
  keep F =
      Triple-call F F F _ _ (λ files h. h) (λ junk files h. h) (λ junk files h. h) (λ files h. h)

  rename_tmp :
      Triple
        (On (Prepared text keys new))
        rename_manifest
        (λ _. On (Holds (some new) keys))
        (On Old)
        (On Either)
  unfolding rename_manifest
  rename_tmp =
      Triple-call (Holds (some new) keys) Old Either _ _
        (λ files h. record { manifest = h.temporary; key = h.key })
        (λ junk files h. record { manifest = h.manifest; key = h.key })
        (λ junk files h. inl (record { manifest = h.manifest; key = h.key }))
        (λ files h. inr (record { manifest = h.temporary; key = h.key }))

  forget : (c : Str) (files : Files) → Prepared text keys c files → Old files
  forget c files h = record { manifest = h.manifest; key = h.key }

  create_tmp : Triple (On Old) (write_file manifest_tmp []) (λ _. On Old) (On Old) (On Old)
  create_tmp =
      Triple-weaken (λ d h. h) (λ _ d. forget [] d.files) (λ d h. h) (λ d h. h) (write_tmp [])

  keep-Prepared :
      Triple
        (On (Prepared text keys new))
        touch_nothing
        (λ _. On (Prepared text keys new))
        (On Old)
        (On Old)
  keep-Prepared =
      Triple-weaken (λ d h. h) (λ _ d h. h) (λ d. forget new d.files) (λ d. forget new d.files)
        (keep (Prepared text keys new))

  close_and_remove :
      Triple
        (On Old)
        (ignoring_error touch_nothing >> remove_file manifest_tmp)
        (λ _. On Old)
        (On Old)
        (On Old)
  close_and_remove = Triple-bind (Triple-ignoring (keep Old)) (λ _. remove_tmp)

  -- After `writeManifest` returns, the new text is the manifest; after an error it is the old one, and
  -- after a crash one of the two. The key files are as they were.
  pub replace_manifest-Triple :
      Triple (On Old) (replace_manifest new) (λ _. On (Holds (some new) keys)) (On Old) (On Either)
  unfolding replace_manifest
  replace_manifest-Triple =
      Triple-bind
        (Triple-weaken (λ d h. h) (λ _ d h. h) (λ d h. h) (λ d h. inl h)
          (Triple-bind
            (Triple-bind
              (Triple-bind create_tmp (λ _. Triple-on_error (write_tmp new) close_and_remove))
              (λ _. Triple-on_error keep-Prepared close_and_remove))
            (λ _. Triple-on_error keep-Prepared remove_tmp)))
        (λ _.
          Triple-on_error rename_tmp
            (Triple-weaken (λ d h. h) (λ _ d h. h) (λ d h. h) (λ d h. inl h) remove_tmp))
