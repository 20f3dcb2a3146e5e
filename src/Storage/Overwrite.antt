-- ===== src/Storage/Overwrite.antt =====
-- Storage.cc: WriteFile with `overwrite` at no moment loses the file that it replaces.
use mkw_sp.Base.{ℕ, ◌≤◌, ◌≡◌, ◌⊎◌, List, [], Option, some, Bool, true, length}
use mkw_sp.Storage.{Drivers, FilePath, new_path, old_path}
use mkw_sp.Storage.Contents.{Contents}

module _ (v : Drivers) (laws : Contents v) (path : FilePath) (short : length path ≤ 251)
    (old new : List ℕ) where
  open v use {Disk, Handle}
  open laws use {content, path_of}

  -- No close of the new file fails.
  abbrev pub Closes : Type 0
  Closes = (h : Handle) (d : Disk) → path_of h ≡ new_path path → (v.close h d).0 ≡ true

  abbrev Old : Disk → Type 0
  Old d = content d path ≡ some old

  abbrev Written : Disk → Type 0
  Written d = content d (new_path path) ≡ some new

  abbrev Kept : Disk → Type 0
  Kept d = Old d ⊎ (content d (old_path path) ≡ some old)

  abbrev Done : Disk → Type 0
  Done d = content d path ≡ some new

  -- The old contents are at the path or at that of the old file, or the new contents at the path.
  abbrev pub Safe : Disk → Type 0
  Safe d = Kept d ⊎ Done d

  -- What is known when the new file was opened.
  abbrev Opened : Option Handle → Disk → Type 0
  Opened r d =
      Old d
      × ((h : Handle)
          → r ≡ some h
          → (path_of h ≡ new_path path) × (content d (new_path path) ≡ some []))

  abbrev WrittenIf : Bool → Disk → Type 0
  WrittenIf b d = Old d × (b ≡ true → Written d)

  -- The part that renames.
  abbrev Ready : Disk → Type 0
  Ready d = Old d × Written d

  abbrev Moved : Disk → Type 0
  Moved d = Kept d × Written d

  abbrev Replaced : Bool → Disk → Type 0
  Replaced b d = Safe d × (b ≡ true → Done d)
