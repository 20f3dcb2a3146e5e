-- ===== src/MapFile.antt =====
-- payload/sp/MapFile.cc: the symbol that an address belongs to, found in the text of the map file.
pub mod Lines
pub mod Found
mod Tests
use mkw_sp.Base.{
  ℕ, zero, suc, ◌+◌, ◌-◌, ◌*◌, List, [], ◌∷◌, Option, none, some, Bool, true, false, not, ◌&&◌, ltb,
  leb, ◌==◌, length, take, drop, if◌then◌else◌,
}

pub record Symbol : Type 0 where
  pub address : ℕ
  pub name : List ℕ

-- isxdigit, and the value that std::from_chars gives a digit.
unfoldable pub xdigit : ℕ → Option ℕ
xdigit c =
    if leb b'0' c && leb c b'9'
    then some (c - b'0')
    else if leb b'a' c && leb c b'f'
    then some (c - b'a' + 10)
    else if leb b'A' c && leb c b'F'
    then some (c - b'A' + 10)
    else none

-- The loop over the digits and std::from_chars; eight digits fit in 32 bits.
pub hex_value : ℕ → List ℕ → Option ℕ
hex_value value [] = some value
hex_value value (c ∷ digits) = elim (xdigit c) [
  | none ↦ none
  | some d ↦ hex_value (value * 16 + d) digits
]

-- GetSymbolAddress
pub get_symbol_address : List ℕ → Option ℕ
get_symbol_address (x ∷ y ∷ digits) =
    if ltb (length digits) 8
    then none
    else if not (x == b'0' && y == b'x')
    then none
    else hex_value 0 (take 8 digits)
get_symbol_address _ = none

-- line.find_first_not_of('\n'), or the size of the line
pub newlines : List ℕ → ℕ
newlines [] = 0
newlines (c ∷ line) = if c == 10 then suc (newlines line) else 0

-- line.find('\n'), or the size of the line
pub line_end : List ℕ → ℕ
line_end [] = 0
line_end (c ∷ line) = if c == 10 then 0 else suc (line_end line)

-- What follows the address: a space and a name that is not empty.
pub symbol_named : ℕ → List ℕ → Option Symbol
symbol_named address [] = none
symbol_named address (c ∷ []) = none
symbol_named address (c ∷ x ∷ name) =
    if not (c == b' ') then none else some (record { address = address; name = x ∷ name })

-- The end of GetNextSymbol, on a line without its newline.
pub parse_line : List ℕ → Option Symbol
parse_line line = elim (get_symbol_address line) [
  | none ↦ none
  | some address ↦ symbol_named address (drop 10 line)
]

-- GetNextSymbol: the symbol, and the new position.
pub get_next_symbol : List ℕ → ℕ → Option Symbol × ℕ
get_next_symbol text pos =
    if pos == length text
    then (none, pos)
    else let start = pos + newlines (drop pos text) in
      let size = line_end (drop start text) in
      (parse_line (take size (drop start text)), start + size)

-- The loop of SymbolLowerBound, with fuel.
pub search_loop : ℕ → List ℕ → ℕ → Symbol → ℕ → Option Symbol
search_loop zero text address prev pos = none
search_loop (suc fuel) text address prev pos = elim (get_next_symbol text pos).0 [
  | none ↦ some prev
  | some next ↦
      let rest = search_loop fuel text address next (get_next_symbol text pos).1 in
      if leb address next.address then some prev else rest
]

-- SymbolLowerBound on a file that is loaded; none is a loop that does not end.
pub symbol_lower_bound : List ℕ → ℕ → Option (Option Symbol)
symbol_lower_bound text address = elim (get_next_symbol text 0).0 [
  | none ↦ some none
  | some first ↦
      elim (search_loop (length text + 1) text address first (get_next_symbol text 0).1) [
        | none ↦ none
        | some s ↦ some (some s)
      ]
]
