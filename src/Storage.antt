-- ===== src/Storage.antt =====
-- payload/sp/storage/Storage.cc: the four storages behind one set of paths, and ReadFile and
-- WriteFile over them.
pub mod Dispatch
pub mod Contents
pub mod Overwrite
mod Tests
use mkw_sp.Base.{
  ℕ, ◌+◌, min, List, [], ◌∷◌, ◌++◌, Option, none, some, Bool, true, false, not, length, take,
  if◌then◌else◌,
}
use mkw_sp.Base.Words.{u32}

pub data StorageType : Type 0 where
  net fat nand_archive dvd : StorageType

pub data Mode : Type 0 where
  r w wx : Mode

-- A wide string.
abbrev pub FilePath : Type 0
FilePath = List ℕ

-- IStorage, IFile and their drivers: one function for each method, by the type of the storage, over
-- the state of all of them.
pub record Drivers : Type 1 where
  pub Disk : Type 0
  pub Handle : Type 0
  pub open_file : StorageType → FilePath → Mode → Disk → Option Handle × Disk
  pub create_dir : StorageType → FilePath → Bool → Disk → Bool × Disk
  pub rename : StorageType → FilePath → FilePath → Disk → Bool × Disk
  pub remove : StorageType → FilePath → Bool → Disk → Bool × Disk
  -- The bytes and their offset.
  pub write : Handle → List ℕ → ℕ → Disk → Bool × Disk
  -- The size and the offset; none is false.
  pub read : Handle → ℕ → ℕ → Disk → Option (List ℕ) × Disk
  pub size : Handle → Disk → ℕ × Disk
  -- The destructor of FileHandle ignores the result.
  pub close : Handle → Disk → Bool × Disk

-- swprintf into a buffer of 256 characters.
abbrev pub with_suffix : FilePath → FilePath → FilePath
with_suffix path suffix = take 255 (path ++ suffix)

-- L"%ls.new" and L"%ls.old"
abbrev pub new_path : FilePath → FilePath
new_path path = with_suffix path (0x2e ∷ 0x6e ∷ 0x65 ∷ 0x77 ∷ [])

abbrev pub old_path : FilePath → FilePath
old_path path = with_suffix path (0x2e ∷ 0x6f ∷ 0x6c ∷ 0x64 ∷ [])

abbrev pub is_some : {A : Type 0} → Option A → Bool
is_some none = false
is_some (some _) = true

module _ (v : Drivers) where
  open v use {Disk, Handle}

  -- The disk, and the states it had before each call of a driver, the last one first.
  pub record System : Type 0 where
    pub now : Disk
    pub past : List Disk

  abbrev pub M : Type 0 → Type 0
  M A = System → A × System

  infixl 5 ◌>>=◌ ◌>>◌
  abbrev pub ◌>>=◌ : {A B : Type 0} → M A → (A → M B) → M B
  ◌>>=◌ m f s = f (m s).0 (m s).1

  abbrev pub ◌>>◌ : {A B : Type 0} → M A → M B → M B
  ◌>>◌ m k s = k (m s).1

  abbrev pub pure : {A : Type 0} → A → M A
  pure a s = (a, s)

  abbrev pub call : {A : Type 0} → (Disk → A × Disk) → M A
  call f s = ((f s.now).0, record { now = (f s.now).1; past = s.now ∷ s.past })

  -- Dispatch: the first result that converts to true, or that of the last storage.
  unfoldable pub dispatch : {A : Type 0} → (A → Bool) → (StorageType → Disk → A × Disk) → M A
  dispatch test f = do
    a ← call (f StorageType.net)
    if test a then pure a else (do
      b ← call (f StorageType.fat)
      if test b then pure b else (do
        c ← call (f StorageType.nand_archive)
        if test c then pure c else call (f StorageType.dvd)))

  unfoldable pub open_path : FilePath → Mode → M (Option Handle)
  open_path path mode = dispatch is_some (λ t. v.open_file t path mode)

  pub create_dir_path : FilePath → Bool → M Bool
  create_dir_path path allow_nop = dispatch (λ b. b) (λ t. v.create_dir t path allow_nop)

  pub rename_path : FilePath → FilePath → M Bool
  rename_path src dst = dispatch (λ b. b) (λ t. v.rename t src dst)

  pub remove_path : FilePath → Bool → M Bool
  remove_path path allow_nop = dispatch (λ b. b) (λ t. v.remove t path allow_nop)

  -- ReadFile: the bytes that were read.
  unfoldable pub read_file : FilePath → ℕ → M (Option (List ℕ))
  read_file path size = do
    file ← open_path path Mode.r
    elim file [
      | none ↦ pure none
      | some h ↦ do
        full ← call (v.size h)
        bytes ← call (v.read h (u32 (min size full)) 0)
        call (v.close h)
        pure bytes
    ]

  -- The rest of a block that opens a file to write; the handle is closed at its end.
  pub write_opened : List ℕ → Option Handle → M Bool
  write_opened src none = pure false
  write_opened src (some h) = do done ← call (v.write h src 0); call (v.close h); pure done

  pub write_new : FilePath → List ℕ → Mode → M Bool
  write_new path src mode = open_path path mode >>= write_opened src

  -- The removal at the end may fail.
  pub clean_up : FilePath → M Bool
  clean_up path = do remove_path (old_path path) true; pure true

  pub move_new : FilePath → M Bool
  move_new path = do
    renamed ← rename_path (new_path path) path
    if not renamed then pure false else clean_up path

  -- The renaming of the old file, which may fail, and of the new one.
  pub replace : FilePath → M Bool
  replace path = do
    removed ← remove_path (old_path path) true
    if not removed then pure false else (do rename_path path (old_path path); move_new path)

  pub write_file : FilePath → List ℕ → Bool → M Bool
  write_file path src overwrite =
      if overwrite
      then (do
        written ← write_new (new_path path) src Mode.w
        if not written then pure false else replace path)
      else write_new path src Mode.wx
