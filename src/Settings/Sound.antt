-- ===== src/Settings/Sound.antt =====
-- Settings.hh: which tables of settings can be read back, and what is relied on of the numbers.
use mkw_sp.Base.{
  ℕ, zero, suc, ◌+◌, ◌≤◌, ◌<◌, ◌^◌, ◌≡◌, List, [], ◌∷◌, ◌++◌, Option, none, some, Bool, true, false,
  not, ltb, leb, ◌==◌, ◌&&◌, length, get_elem?, arith, refl, if◌then◌else◌,
}
use mkw_sp.IniReader.{Kind, kind}
use mkw_sp.IniReader.Line.{IsWord}
use mkw_sp.IniReader.Line.Spaced.{IsName}
use mkw_sp.Settings.{Entry, Group, fits, text_eq}
use Prim.Native.Nat.{max}

-- What is documented of strtoul and of the formats %u and %08X, on 32-bit numbers.
pub record Numbers (strtoul : ℕ → List ℕ → Option ℕ) (dec hex8 : ℕ → List ℕ) : Type 0 where
  pub dec_back : (v : ℕ) → v < 2 ^ 32 → strtoul 10 (dec v) ≡ some v
  pub hex8_back : (v : ℕ) → v < 2 ^ 32 → strtoul 16 (hex8 v) ≡ some v
  pub dec_size : (v : ℕ) → v < 10 ^ 8 → length (dec v) ≤ 8
  pub hex8_size : (v : ℕ) → v < 2 ^ 32 → length (hex8 v) ≡ 8
  pub dec_name : (v : ℕ) → IsName (dec v)
  pub hex8_name : (v : ℕ) → IsName (hex8 v)

abbrev pub all {ℓ} : {A : Type ℓ} → (A → Bool) → List A → Bool
all f [] = true
all f (x ∷ xs) = f x && all f xs

pub all-mid {ℓ} :
    {A : Type ℓ} (f : A → Bool) (xs : List A) (y : A) (ys : List A)
    → all f (xs ++ y ∷ ys) ≡ true
    → f y ≡ true
all-mid f [] y ys h = ground arith
all-mid f (x ∷ xs) y ys h = all-mid f xs y ys (ground arith)

pub all-get_elem? {ℓ} :
    {A : Type ℓ} (f : A → Bool) (xs : List A) (i : ℕ) (x : A)
    → all f xs ≡ true
    → get_elem? xs i ≡ some x
    → f x ≡ true
all-get_elem? f [] i x h e = cc
all-get_elem? f (y ∷ xs) zero x h e = let same : y ≡ x = cc in rw (← same) ground arith
all-get_elem? f (y ∷ xs) (suc i) x h e = all-get_elem? f xs i x (ground arith) e

abbrev pub is_other : Kind → Bool
is_other Kind.other = true
is_other _ = false

abbrev pub is_word : List ℕ → Bool
is_word w = all (λ c. is_other (kind c)) w

abbrev pub is_name : List ℕ → Bool
is_name [] = false
is_name (c ∷ cs) = is_word (c ∷ cs)

is_other-other : (k : Kind) → is_other k ≡ true → k ≡ Kind.other
is_other-other Kind.other h = refl
is_other-other Kind.space h = cc
is_other-other Kind.open_bracket h = cc
is_other-other Kind.close_bracket h = cc
is_other-other Kind.newline h = cc
is_other-other Kind.comment h = cc
is_other-other Kind.delim h = cc

is_word-IsWord : (w : List ℕ) → is_word w ≡ true → IsWord w
is_word-IsWord [] h = tt
is_word-IsWord (c ∷ cs) h =
    (is_other-other (kind c) (ground arith), is_word-IsWord cs (ground arith))

pub is_name-IsName : (w : List ℕ) → is_name w ≡ true → IsName w
is_name-IsName [] h = cc
is_name-IsName (c ∷ cs) h = is_word-IsWord (c ∷ cs) h

-- No two names are equal.
abbrev pub are_different : List (List ℕ) → Bool
are_different [] = true
are_different (x ∷ xs) = all (λ y. not (text_eq x y)) xs && are_different xs

-- An entry is sound if its name is a word, its category exists, and its values can be told apart:
-- numbers have at most 8 digits, and there are as many names as values, all words and different.
abbrev pub is_entry : Group → Entry → Bool
is_entry g e =
    let told : Bool = elim e.value_names [
      | none ↦ leb (e.value_offset + e.value_count) (10 ^ 8)
      | some names ↦ leb e.value_count (length names) && all is_name names && are_different names
    ] in
    is_name e.name
    && ltb e.category (length g.category_names)
    && (if e.value_count == 0 then true else told)

-- The name of a category.
abbrev pub section_at : Group → ℕ → List ℕ
section_at g c = elim (get_elem? g.category_names c) [ none ↦ [] | some name ↦ name ]

abbrev pub section_of : Group → Entry → List ℕ
section_of g e = section_at g e.category

-- No two entries of a category have the same name.
abbrev pub are_apart : Group → List Entry → Bool
are_apart g [] = true
are_apart g (d ∷ entries) =
    all (λ e. not (fits g (some (section_of g e)) e.name d)) entries && are_apart g entries

-- A group is sound if its entries are, and no two of a category have the same name.
abbrev pub is_group : Group → Bool
is_group g =
    all (λ c. not (c == 10)) g.name
    && all is_name g.category_names
    && all (is_entry g) g.entries
    && are_apart g g.entries

abbrev pub most : List (List ℕ) → ℕ
most [] = 0
most (x ∷ xs) = max (length x) (most xs)

-- The most characters that the text of a value has.
abbrev pub value_size : Entry → ℕ
value_size e =
    let told : ℕ = elim e.value_names [ none ↦ 8 | some names ↦ most names ] in
    if e.value_count == 0 then 8 else told
