-- ===== src/Storage/Contents.antt =====
-- What WriteFile relies on of the drivers, and that the paths it uses differ.
use mkw_sp.Base.{
  ℕ, zero, suc, ◌+◌, ◌≤◌, ◌≡◌, ◌≢◌, List, [], ◌∷◌, ◌++◌, Option, some, Bool, true, false, length,
  length-append, take, drop, drop-length-append, arith, refl, sym, ap, ◌∙◌, get_or,
}
use mkw_sp.Storage.{Drivers, StorageType, Mode, FilePath, new_path, old_path, with_suffix}

-- What the drivers do to the contents of the files, as Open finds them by their paths.
pub record Contents (v : Drivers) : Type 0 where
  pub content : v.Disk → FilePath → Option (List ℕ)
  -- The path that a handle was opened with.
  pub path_of : v.Handle → FilePath
  pub open_others :
      (t : StorageType) (p : FilePath) (m : Mode) (d : v.Disk) (q : FilePath)
      → q ≢ p
      → content (v.open_file t p m d).1 q ≡ content d q
  pub open_truncates :
      (t : StorageType) (p : FilePath) (d : v.Disk) (h : v.Handle)
      → (v.open_file t p Mode.w d).0 ≡ some h
      → (path_of h ≡ p) × (content (v.open_file t p Mode.w d).1 p ≡ some [])
  pub write_others :
      (h : v.Handle) (b : List ℕ) (o : ℕ) (d : v.Disk) (q : FilePath)
      → q ≢ path_of h
      → content (v.write h b o d).1 q ≡ content d q
  pub write_fills :
      (h : v.Handle) (b : List ℕ) (d : v.Disk)
      → content d (path_of h) ≡ some []
      → (v.write h b 0 d).0 ≡ true
      → content (v.write h b 0 d).1 (path_of h) ≡ some b
  pub close_others :
      (h : v.Handle) (d : v.Disk) (q : FilePath)
      → q ≢ path_of h
      → content (v.close h d).1 q ≡ content d q
  -- A close that fails may lose what was written.
  pub close_keeps :
      (h : v.Handle) (d : v.Disk)
      → (v.close h d).0 ≡ true
      → content (v.close h d).1 (path_of h) ≡ content d (path_of h)
  pub rename_moves :
      (t : StorageType) (a b : FilePath) (d : v.Disk)
      → (v.rename t a b d).0 ≡ true
      → content (v.rename t a b d).1 b ≡ content d a
  pub rename_others :
      (t : StorageType) (a b : FilePath) (d : v.Disk) (q : FilePath)
      → q ≢ a
      → q ≢ b
      → content (v.rename t a b d).1 q ≡ content d q
  pub rename_refused :
      (t : StorageType) (a b : FilePath) (d : v.Disk) (q : FilePath)
      → (v.rename t a b d).0 ≡ false
      → content (v.rename t a b d).1 q ≡ content d q
  pub remove_others :
      (t : StorageType) (p : FilePath) (n : Bool) (d : v.Disk) (q : FilePath)
      → q ≢ p
      → content (v.remove t p n d).1 q ≡ content d q

pub suffixed :
    (path suffix : FilePath)
    → length path + length suffix ≤ 255
    → with_suffix path suffix ≡ path ++ suffix
suffixed path suffix l = whole 255 (path ++ suffix) (omega (arith, length-append path suffix))
  where
    whole : (n : ℕ) (xs : FilePath) → length xs ≤ n → take n xs ≡ xs
    whole zero [] h = refl
    whole zero (x ∷ xs) h = elim h [ ]
    whole (suc n) [] h = refl
    whole (suc n) (x ∷ xs) h = ap (◌∷◌ x) (whole n xs (omega arith))

pub longer_ne : (path suffix : FilePath) → 1 ≤ length suffix → path ++ suffix ≢ path
longer_ne path suffix l e = absurd (omega (arith, ap length e, length-append path suffix))

pub new-ne-path : (path : FilePath) → length path ≤ 251 → path ≢ new_path path
new-ne-path path l e = longer_ne path _ (omega arith) (sym (e ∙ suffixed path _ (omega arith)))

pub old-ne-path : (path : FilePath) → length path ≤ 251 → path ≢ old_path path
old-ne-path path l e = longer_ne path _ (omega arith) (sym (e ∙ suffixed path _ (omega arith)))

pub new-ne-old : (path : FilePath) → length path ≤ 251 → new_path path ≢ old_path path
new-ne-old path l e =
    let e' = sym (suffixed path _ (omega arith)) ∙ e ∙ suffixed path _ (omega arith) in
    let same =
      sym (drop-length-append (length path) path _ refl)
      ∙ ap (drop (length path)) e'
      ∙ drop-length-append (length path) path _ refl in
    let letter : ◌≡◌ {A = ℕ} 0x6e 0x6f = ap (λ k. get_or k 1 0) same in
    absurd (omega (arith, letter))
