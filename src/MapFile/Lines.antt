-- ===== src/MapFile/Lines.antt =====
-- MapFile.cc: GetNextSymbol on the lines of a map file.
use mkw_sp.Base.{
  ℕ, ◌+◌, ◌-◌, ◌*◌, ◌/◌, ◌%◌, ◌^◌, ◌≤◌, ◌<◌, ◌≡◌, ◌≢◌, List, [], ◌∷◌, ◌++◌, none, some, false, ltb,
  ◌==◌, length, take, drop, if◌then◌else◌, arith, refl, sym, ap, ◌∙◌, length-drop, drop_add,
  drop-length-append, take-length-append, ◌⊎◌, inl, inr,
}
use mkw_sp.MapFile.{
  Symbol, xdigit, hex_value, get_symbol_address, newlines, line_end, symbol_named, parse_line,
  get_next_symbol,
}

-- A hexadecimal digit, in upper case.
unfoldable pub digit : ℕ → ℕ
digit d = if ltb d 10 then d + b'0' else d - 10 + b'A'

-- The digits of an address as generate_symbol_map.py writes it, where it has eight.
abbrev pub digits : ℕ → List ℕ
digits v =
    digit (v / 2 ^ 28 % 16)
    ∷ digit (v / 2 ^ 24 % 16)
    ∷ digit (v / 2 ^ 20 % 16)
    ∷ digit (v / 2 ^ 16 % 16)
    ∷ digit (v / 2 ^ 12 % 16)
    ∷ digit (v / 2 ^ 8 % 16)
    ∷ digit (v / 2 ^ 4 % 16)
    ∷ digit (v % 16)
    ∷ []

-- A line without its newline.
abbrev pub line_of : Symbol → List ℕ
line_of s = b'0' ∷ b'x' ∷ digits s.address ++ b' ' ∷ s.name

-- A map file.
unfoldable pub print : List Symbol → List ℕ
print [] = []
print (s ∷ symbols) = line_of s ++ 10 ∷ print symbols

abbrev pub HasNoNewline : List ℕ → Type 0
HasNoNewline [] = Unit
HasNoNewline (c ∷ cs) = (c ≢ 10) × HasNoNewline cs

-- What the lines can hold.
pub record IsSymbol (s : Symbol) : Type 0 where
  pub small : s.address < 2 ^ 32
  pub named : 1 ≤ length s.name
  pub one_line : HasNoNewline s.name

xdigit-digit : (d : ℕ) → d < 16 → xdigit (digit d) ≡ some d
unfolding xdigit digit
xdigit-digit d h = ground arith

digit-ne-newline : (d : ℕ) → digit d ≢ 10
unfolding digit
digit-ne-newline d e = absurd (ground (arith, e))

hex_value-digit :
    (value d : ℕ) (rest : List ℕ)
    → d < 16
    → hex_value value (digit d ∷ rest) ≡ hex_value (value * 16 + d) rest
unfolding hex_value
hex_value-digit value d rest h = rw (hex_value, xdigit-digit d h) refl

hex_value-nil : (value : ℕ) → hex_value value [] ≡ some value
unfolding hex_value
hex_value-nil value = refl

hex_value-digits : (v : ℕ) → v < 2 ^ 32 → hex_value 0 (digits v) ≡ some v
hex_value-digits v h =
    let whole : (((((((0 * 16 + v / 2 ^ 28 % 16) * 16 + v / 2 ^ 24 % 16) * 16 + v / 2 ^ 20 % 16)
                            * 16
                          + v / 2 ^ 16 % 16)
                        * 16
                      + v / 2 ^ 12 % 16)
                    * 16
                  + v / 2 ^ 8 % 16)
                * 16
              + v / 2 ^ 4 % 16)
            * 16
          + v % 16
        ≡ v =
      omega arith in
    hex_value-digit _ (v / 2 ^ 28 % 16) _ (omega arith)
    ∙ hex_value-digit _ (v / 2 ^ 24 % 16) _ (omega arith)
    ∙ hex_value-digit _ (v / 2 ^ 20 % 16) _ (omega arith)
    ∙ hex_value-digit _ (v / 2 ^ 16 % 16) _ (omega arith)
    ∙ hex_value-digit _ (v / 2 ^ 12 % 16) _ (omega arith)
    ∙ hex_value-digit _ (v / 2 ^ 8 % 16) _ (omega arith)
    ∙ hex_value-digit _ (v / 2 ^ 4 % 16) _ (omega arith)
    ∙ hex_value-digit _ (v % 16) _ (omega arith)
    ∙ hex_value-nil _
    ∙ ap some whole

get_symbol_address-line :
    (s : Symbol) → s.address < 2 ^ 32 → get_symbol_address (line_of s) ≡ some s.address
unfolding get_symbol_address
get_symbol_address-line s h =
    let l : ltb (length (digits s.address ++ b' ' ∷ s.name)) 8 ≡ false = ground arith in
    rw l (hex_value-digits s.address h)

named-lem :
    (address : ℕ) (name : List ℕ)
    → 1 ≤ length name
    → symbol_named address (b' ' ∷ name) ≡ some (record { address = address; name = name })
unfolding symbol_named
named-lem address [] h = absurd (omega arith)
named-lem address (x ∷ name) h = refl

parse_line-line : (s : Symbol) → IsSymbol s → parse_line (line_of s) ≡ some s
unfolding parse_line
parse_line-line s v =
    rw (parse_line, get_symbol_address-line s v.small) (named-lem s.address s.name v.named)

parse_line-nil : parse_line [] ≡ none
unfolding parse_line get_symbol_address
parse_line-nil = refl

line_end-append :
    (line rest : List ℕ) → HasNoNewline line → line_end (line ++ 10 ∷ rest) ≡ length line
unfolding line_end
line_end-append [] rest h = refl
line_end-append (c ∷ line) rest h = ground (arith, h.0, line_end-append line rest h.1)

line_of-HasNoNewline : (s : Symbol) → IsSymbol s → HasNoNewline (line_of s)
line_of-HasNoNewline s v = (
  (λ e. absurd (omega (arith, e))),
  (
    (λ e. absurd (omega (arith, e))),
    (
      digit-ne-newline _,
      (
        digit-ne-newline _,
        (
          digit-ne-newline _,
          (
            digit-ne-newline _,
            (
              digit-ne-newline _,
              (
                digit-ne-newline _,
                (
                  digit-ne-newline _,
                  (digit-ne-newline _, ((λ e. absurd (omega (arith, e))), v.one_line)),
                ),
              ),
            ),
          ),
        ),
      ),
    ),
  ),
)

newlines-line : (s : Symbol) (rest : List ℕ) → newlines (line_of s ++ rest) ≡ 0
unfolding newlines
newlines-line s rest = refl

newlines-next : (s : Symbol) (rest : List ℕ) → newlines (10 ∷ line_of s ++ rest) ≡ 1
unfolding newlines
newlines-next s rest = refl

pos_inside :
    (text rest : List ℕ) (pos c : ℕ) → drop pos text ≡ c ∷ rest → (pos == length text) ≡ false
pos_inside text rest pos c e = ground (arith, ap length e, length-drop pos text)

-- At a line, with or without the newline before it, GetNextSymbol gives its symbol and goes to the
-- newline behind it.
pub get_next_symbol-line :
    (text rest gap : List ℕ) (pos : ℕ) (s : Symbol)
    → IsSymbol s
    → (gap ≡ []) ⊎ (gap ≡ 10 ∷ [])
    → drop pos text ≡ gap ++ (line_of s ++ 10 ∷ rest)
    → get_next_symbol text pos ≡ (some s, pos + length gap + length (line_of s))
unfolding get_next_symbol
get_next_symbol-line text rest gap pos s v g e =
    let inside : (pos == length text) ≡ false = elim g [
      | inl y ↦ pos_inside text _ pos _ (rw y at e)
      | inr y ↦ pos_inside text _ pos _ (rw y at e)
    ] in
    let skip : newlines (drop pos text) ≡ length gap = elim g [
      | inl y ↦ ap newlines (rw y at e) ∙ newlines-line s _ ∙ sym (ap length y)
      | inr y ↦ ap newlines (rw y at e) ∙ newlines-next s _ ∙ sym (ap length y)
    ] in
    let at : drop (pos + length gap) text ≡ line_of s ++ 10 ∷ rest =
      drop_add pos (length gap) text
      ∙ ap (drop (length gap)) e
      ∙ drop-length-append (length gap) gap _ refl in
    let size : line_end (drop (pos + length gap) text) ≡ length (line_of s) =
      ap line_end at ∙ line_end-append (line_of s) rest (line_of-HasNoNewline s v) in
    let line : take (length (line_of s)) (drop (pos + length gap) text) ≡ line_of s =
      ap (take (length (line_of s))) at
      ∙ take-length-append (length (line_of s)) (line_of s) _ refl in
    rw (inside, skip, size, line, parse_line-line s v) refl

-- Behind the last line there is no symbol.
pub get_next_symbol-end :
    (text : List ℕ) (pos : ℕ) → drop pos text ≡ 10 ∷ [] → (get_next_symbol text pos).0 ≡ none
unfolding get_next_symbol parse_line get_symbol_address line_end newlines
get_next_symbol-end text pos e =
    let at : drop (pos + 1) text ≡ [] = drop_add pos 1 text ∙ ap (drop 1) e in
    rw (pos_inside text [] pos 10 e, e, at) parse_line-nil
