-- ===== src/MapFile/Tests.antt =====
-- MapFile.cc on a file of two symbols.
use mkw_sp.Base.{◌≡◌, [], ◌∷◌, some, arith, refl}
use mkw_sp.MapFile.{
  Symbol, xdigit, hex_value, get_symbol_address, newlines, line_end, symbol_named, parse_line,
  get_next_symbol, search_loop, symbol_lower_bound,
}
use mkw_sp.MapFile.Lines.{print, digit, IsSymbol}
use mkw_sp.MapFile.Found.{IsLast, symbol_lower_bound-IsLast}

abbrev start : Symbol
start = record { address = 0x80004000; name = b'a' ∷ [] }

abbrev main : Symbol
main = record { address = 0x800060a4; name = b'b' ∷ b'c' ∷ [] }

main_found : symbol_lower_bound (print (start ∷ main ∷ [])) 0x800060a8 ≡ some (some main)
unfolding symbol_lower_bound search_loop get_next_symbol parse_line symbol_named line_end newlines
    get_symbol_address hex_value xdigit print digit
main_found = refl

-- The first instruction of a function is taken for one of the function before.
main_missed : symbol_lower_bound (print (start ∷ main ∷ [])) 0x800060a4 ≡ some (some start)
unfolding symbol_lower_bound search_loop get_next_symbol parse_line symbol_named line_end newlines
    get_symbol_address hex_value xdigit print digit
main_missed = refl

start-IsSymbol : IsSymbol start
start-IsSymbol = record {
  small = omega arith;
  named = omega arith;
  one_line = ((λ e. absurd (omega (arith, e))), tt);
}

main-IsSymbol : IsSymbol main
main-IsSymbol = record {
  small = omega arith;
  named = omega arith;
  one_line = ((λ e. absurd (omega (arith, e))), ((λ e. absurd (omega (arith, e))), tt));
}

symbol_lower_bound-IsLast_example :
    (s : Symbol) × (symbol_lower_bound (print (start ∷ main ∷ [])) 0x800060a4 ≡ some (some s))
    × IsLast 0x800060a4 (start ∷ main ∷ []) s
symbol_lower_bound-IsLast_example =
    symbol_lower_bound-IsLast 0x800060a4 start (main ∷ []) (start-IsSymbol, (main-IsSymbol, tt))
      (omega arith, tt) (omega arith)
