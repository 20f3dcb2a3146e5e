-- ===== src/GlobalSettings/Restart.antt =====
-- GlobalSettings::Init: what one start stores, the next one reads.
use mkw_sp.Base.{ℕ, List, Option, none, some, true, ◌≡◌, ◌∙◌, refl, ap, arith, ◌<◌, ◌^◌}
use mkw_sp.Settings.{undefined, unfinished, done, reset}
use mkw_sp.Settings.Legal.{AllLegal, Ended, read_ini-Ended}
use mkw_sp.Settings.Small.{read_ini-AllWords}
use mkw_sp.Settings.Sound.{Numbers}
use mkw_sp.Settings.Text.{AllWords, group_text}
use mkw_sp.Settings.Stored.{write_ini-fits, reset-AllLegal, reset-AllWords}
use mkw_sp.Settings.Roundtrip.{read_ini-group_text}
use mkw_sp.Storage.{Drivers, System, read_file, write_file}
use mkw_sp.GlobalSettings.{
  global_group, global_entries, settings_path, buffer_size, read_stored, write_back, init, restore,
  Reading, undefined,
}

module _ {strtoul : ℕ → List ℕ → Option ℕ} {dec hex8 : ℕ → List ℕ} (n : Numbers strtoul dec hex8)
    (v : Drivers) where
  write_back-text :
      (values : List ℕ) (s : System v)
      → AllLegal global_entries values
      → AllWords values
      → write_back v strtoul dec hex8 values s ≡ (
        some values,
        (write_file v settings_path (group_text dec hex8 global_group values) true s).1,
      )
  unfolding write_back
  write_back-text values s l w =
      let q = write_ini-fits n global_group values buffer_size refl l w (omega arith) in
      rw (write_back, q) refl

  init-stored :
      (file : Option (List ℕ)) (values : List ℕ) (s s' : System v)
      → read_file v settings_path buffer_size s ≡ (file, s')
      → read_stored v strtoul dec hex8 file ≡ done values
      → init v strtoul dec hex8 s ≡ write_back v strtoul dec hex8 values s'
  unfolding init restore
  init-stored file values s s' e r = ap (restore v strtoul dec hex8) e ∙ rw (restore, r) refl

  -- Let strtoul and the formats of numbers be as documented, and let `values` be legal 32-bit ones.
  -- If there is no file, Init leaves the default values and gives their text to WriteFile. If the
  -- file is the text of `values`, which a start with these values gives to WriteFile, Init leaves
  -- exactly these values and gives WriteFile the same text again.
  pub init-again :
      (values : List ℕ) (s s' t t' : System v)
      → AllLegal global_entries values
      → AllWords values
      → read_file v settings_path buffer_size s ≡ (none, s')
      → read_file v settings_path buffer_size t
        ≡ (some (group_text dec hex8 global_group values), t')
      → (init v strtoul dec hex8 s ≡ (
        some (reset global_entries),
        (write_file v settings_path
            (group_text dec hex8 global_group (reset global_entries))
            true
            s').1,
      ))
        × (init v strtoul dec hex8 t ≡ (
          some values,
          (write_file v settings_path (group_text dec hex8 global_group values) true t').1,
        ))
  unfolding read_stored reset
  init-again values s s' t t' l w e f = (
    init-stored none (reset global_entries) s s' e refl
        ∙ write_back-text (reset global_entries) s' (reset-AllLegal global_entries refl)
            (reset-AllWords global_entries refl),
    init-stored _ values t t' f
          (read_ini-group_text n global_group values (reset global_entries) refl l w refl)
        ∙ write_back-text values t' l w,
  )

  -- What Init leaves after ReadFile: legal values, whose text it gives to WriteFile, or nothing if
  -- the reading of the file is undefined.
  pub data Left (read : Option (List ℕ) × System v) (r : Option (List ℕ) × System v) : Type 0 where
    stored :
        (values : List ℕ)
        → AllLegal global_entries values
        → AllWords values
        → r ≡ (
          some values,
          (write_file v settings_path (group_text dec hex8 global_group values) true read.1).1,
        )
        → Left read r
    stopped : read_stored v strtoul dec hex8 read.0 ≡ undefined → r ≡ (none, read.1) → Left read r

  restore-Left :
      (file : Option (List ℕ)) (s : System v)
      → Ended strtoul (AllLegal global_entries) (read_stored v strtoul dec hex8 file)
      → Ended strtoul AllWords (read_stored v strtoul dec hex8 file)
      → Left (file, s) (restore v strtoul dec hex8 (file, s))
  unfolding restore
  restore-Left file s l w = go (read_stored v strtoul dec hex8 file) l w refl
    where
      go :
          (r : Reading strtoul)
          → Ended strtoul (AllLegal global_entries) r
          → Ended strtoul AllWords r
          → read_stored v strtoul dec hex8 file ≡ r
          → Left (file, s) (restore v strtoul dec hex8 (file, s))
      go (done values) l w e =
          Left.stored values l w (rw (restore, e) (write_back-text values s l w))
      go undefined l w e = Left.stopped e (rw (restore, e) refl)
      go unfinished l w e = absurd l

  -- Let strtoul and the formats of numbers be as documented, and let strtoul give 32-bit numbers.
  -- Whatever the disk holds, Init leaves legal values of 32 bits and gives their whole text to
  -- WriteFile; or readIni is undefined on the file that ReadFile gives, and nothing is written.
  pub init-Left :
      (small : (base x : ℕ) (text : List ℕ) → strtoul base text ≡ some x → x < 2 ^ 32)
      (s : System v)
      → Left (read_file v settings_path buffer_size s) (init v strtoul dec hex8 s)
  unfolding init read_stored
  init-Left small s = go (read_file v settings_path buffer_size s)
    where
      defaults : AllLegal global_entries (reset global_entries)
      defaults = reset-AllLegal global_entries refl

      words : AllWords (reset global_entries)
      words = reset-AllWords global_entries refl

      go : (r : Option (List ℕ) × System v) → Left r (restore v strtoul dec hex8 r)
      go (none, t) = restore-Left none t defaults words
      go (some ini, t) =
          restore-Left (some ini) t (read_ini-Ended strtoul global_group ini _ defaults)
            (read_ini-AllWords strtoul small global_group ini _ refl words)
