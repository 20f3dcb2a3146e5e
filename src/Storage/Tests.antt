-- ===== src/Storage/Tests.antt =====
-- Storage.cc on a disk that is a function from paths, which the FAT storage alone serves.
use mkw_sp.Base.{
  ℕ, ◌≡◌, ◌≢◌, List, [], ◌∷◌, Option, none, some, Bool, true, false, length, arith, refl, ◌==◌,
  ◌&&◌, Bool-cases, inl, inr, ◌∙◌, if◌then◌else◌,
}
use mkw_sp.Storage.{
  Drivers, StorageType, Mode, FilePath, System, write_file, read_file, write_new, write_opened,
  replace, move_new, clean_up, open_path, rename_path, remove_path, dispatch,
}
use mkw_sp.Storage.Contents.{Contents}

abbrev Files : Type 0
Files = FilePath → Option (List ℕ)

abbrev same : FilePath → FilePath → Bool
same [] [] = true
same (x ∷ p) (y ∷ q) = (x == y) && same p q
same [] (y ∷ q) = false
same (x ∷ p) [] = false

same_self : (p : FilePath) → same p p ≡ true
same_self [] = refl
same_self (x ∷ p) = ground (arith, same_self p)

same_eq : (p q : FilePath) → same p q ≡ true → p ≡ q
same_eq [] [] e = refl
same_eq [] (y ∷ q) e = cc
same_eq (x ∷ p) [] e = cc
same_eq (x ∷ p) (y ∷ q) e = ground (arith, same_eq p q)

abbrev put : FilePath → Option (List ℕ) → Files → Files
put p c d q = if same q p then c else d q

put_self : (p : FilePath) (c : Option (List ℕ)) (d : Files) → put p c d p ≡ c
put_self p c d = rw (same_self p)

put_other :
    (p : FilePath) (c : Option (List ℕ)) (d : Files) (q : FilePath) → q ≢ p → put p c d q ≡ d q
put_other p c d q n = elim (Bool-cases (same q p)) [
  | inl y ↦ absurd (n (same_eq q p y))
  | inr z ↦ rw z
]

abbrev open_fat : StorageType → FilePath → Mode → Files → Option FilePath × Files
open_fat StorageType.fat p Mode.r d = (some p, d)
open_fat StorageType.fat p Mode.w d = (some p, put p (some []) d)
open_fat StorageType.fat p Mode.wx d = (some p, put p (some []) d)
open_fat StorageType.net p m d = (none, d)
open_fat StorageType.nand_archive p m d = (none, d)
open_fat StorageType.dvd p m d = (none, d)

abbrev rename_fat : StorageType → FilePath → FilePath → Files → Bool × Files
rename_fat StorageType.fat a b d = (true, put b (d a) (put a none d))
rename_fat StorageType.net a b d = (false, d)
rename_fat StorageType.nand_archive a b d = (false, d)
rename_fat StorageType.dvd a b d = (false, d)

abbrev remove_fat : StorageType → FilePath → Bool → Files → Bool × Files
remove_fat StorageType.fat p n d = (true, put p none d)
remove_fat StorageType.net p n d = (false, d)
remove_fat StorageType.nand_archive p n d = (false, d)
remove_fat StorageType.dvd p n d = (false, d)

abbrev size_of : Option (List ℕ) → ℕ
size_of none = 0
size_of (some bytes) = length bytes

abbrev card : Drivers
card = record {
  Disk = Files;
  Handle = FilePath;
  open_file = open_fat;
  create_dir = λ t p n d. (false, d);
  rename = rename_fat;
  remove = remove_fat;
  write = λ h b o d. (true, put h (some b) d);
  read = λ h n o d. (d h, d);
  size = λ h d. (size_of (d h), d);
  close = λ h d. (true, d);
}

open_others_lem :
    (t : StorageType) (p : FilePath) (m : Mode) (d : Files) (q : FilePath)
    → q ≢ p
    → (open_fat t p m d).1 q ≡ d q
open_others_lem StorageType.fat p Mode.r d q n = refl
open_others_lem StorageType.fat p Mode.w d q n = put_other p (some []) d q n
open_others_lem StorageType.fat p Mode.wx d q n = put_other p (some []) d q n
open_others_lem StorageType.net p m d q n = refl
open_others_lem StorageType.nand_archive p m d q n = refl
open_others_lem StorageType.dvd p m d q n = refl

open_truncates_lem :
    (t : StorageType) (p : FilePath) (d : Files) (h : FilePath)
    → (open_fat t p Mode.w d).0 ≡ some h
    → (h ≡ p) × ((open_fat t p Mode.w d).1 p ≡ some [])
open_truncates_lem StorageType.fat p d h e = (cc, put_self p (some []) d)
open_truncates_lem StorageType.net p d h e = cc
open_truncates_lem StorageType.nand_archive p d h e = cc
open_truncates_lem StorageType.dvd p d h e = cc

rename_moves_lem :
    (t : StorageType) (a b : FilePath) (d : Files)
    → (rename_fat t a b d).0 ≡ true
    → (rename_fat t a b d).1 b ≡ d a
rename_moves_lem StorageType.fat a b d e = put_self b (d a) (put a none d)
rename_moves_lem StorageType.net a b d e = cc
rename_moves_lem StorageType.nand_archive a b d e = cc
rename_moves_lem StorageType.dvd a b d e = cc

rename_others_lem :
    (t : StorageType) (a b : FilePath) (d : Files) (q : FilePath)
    → q ≢ a
    → q ≢ b
    → (rename_fat t a b d).1 q ≡ d q
rename_others_lem StorageType.fat a b d q n m =
    put_other b (d a) (put a none d) q m ∙ put_other a none d q n
rename_others_lem StorageType.net a b d q n m = refl
rename_others_lem StorageType.nand_archive a b d q n m = refl
rename_others_lem StorageType.dvd a b d q n m = refl

rename_refused_lem :
    (t : StorageType) (a b : FilePath) (d : Files) (q : FilePath)
    → (rename_fat t a b d).0 ≡ false
    → (rename_fat t a b d).1 q ≡ d q
rename_refused_lem StorageType.fat a b d q e = cc
rename_refused_lem StorageType.net a b d q e = refl
rename_refused_lem StorageType.nand_archive a b d q e = refl
rename_refused_lem StorageType.dvd a b d q e = refl

remove_others_lem :
    (t : StorageType) (p : FilePath) (n : Bool) (d : Files) (q : FilePath)
    → q ≢ p
    → (remove_fat t p n d).1 q ≡ d q
remove_others_lem StorageType.fat p n d q m = put_other p none d q m
remove_others_lem StorageType.net p n d q m = refl
remove_others_lem StorageType.nand_archive p n d q m = refl
remove_others_lem StorageType.dvd p n d q m = refl

abbrev card_contents : Contents card
card_contents = record {
  content = λ d p. d p;
  path_of = λ h. h;
  open_others = open_others_lem;
  open_truncates = open_truncates_lem;
  write_others = λ h b o d q n. put_other h (some b) d q n;
  write_fills = λ h b d e f. put_self h (some b) d;
  close_others = λ h d q n. refl;
  close_keeps = λ h d e. refl;
  rename_moves = rename_moves_lem;
  rename_others = rename_others_lem;
  rename_refused = rename_refused_lem;
  remove_others = remove_others_lem;
}

abbrev save_path : FilePath
save_path = 0x2f ∷ 0x73 ∷ []

abbrev before : System card
before = record { now = put save_path (some (1 ∷ 2 ∷ [])) (λ p. none); past = [] }

saved : (write_file card save_path (3 ∷ []) true before).1.now save_path ≡ some (3 ∷ [])
unfolding write_file write_new write_opened replace move_new clean_up open_path rename_path
    remove_path dispatch
saved = refl

read_back : (read_file card save_path 8 before).0 ≡ some (1 ∷ 2 ∷ [])
unfolding read_file open_path dispatch
read_back = refl
