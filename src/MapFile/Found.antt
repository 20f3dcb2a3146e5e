-- ===== src/MapFile/Found.antt =====
-- MapFile.cc: SymbolLowerBound on a map file.
use mkw_sp.Base.{
  ℕ, zero, suc, ◌+◌, ◌≤◌, ◌<◌, ◌≡◌, ◌⊎◌, inl, inr, List, [], ◌∷◌, ◌++◌, some, leb, Bool-cases,
  length, drop, if◌then◌else◌, arith, refl, sym, ap, subst, ◌∙◌, length-append, drop_add,
  drop-length-append,
}
use mkw_sp.MapFile.{Symbol, get_next_symbol, search_loop, symbol_lower_bound}
use mkw_sp.MapFile.Lines.{print, line_of, IsSymbol, get_next_symbol-line, get_next_symbol-end}

abbrev pub All : (Symbol → Type 0) → List Symbol → Type 0
All P [] = Unit
All P (s ∷ symbols) = P s × All P symbols

-- The addresses do not fall.
abbrev pub Ascends : ℕ → List Symbol → Type 0
Ascends a [] = Unit
Ascends a (s ∷ symbols) = (a ≤ s.address) × Ascends s.address symbols

-- The last symbol before the first one that starts at an address or later.
before : ℕ → Symbol → List Symbol → Symbol
before address prev [] = prev
before address prev (s ∷ symbols) =
    let rest = before address s symbols in if leb address s.address then prev else rest

length-print : (s : Symbol) (symbols : List Symbol) → length symbols < length (print (s ∷ symbols))
unfolding print
length-print s [] = omega (arith, length-append (line_of s) (10 ∷ []))
length-print s (x ∷ symbols) =
    omega (arith, length-append (line_of s) (10 ∷ print (x ∷ symbols)), length-print x symbols)

-- Where a line ends.
behind_line :
    (text gap rest : List ℕ) (pos : ℕ) (s : Symbol)
    → drop pos text ≡ gap ++ (line_of s ++ 10 ∷ rest)
    → drop (pos + length gap + length (line_of s)) text ≡ 10 ∷ rest
behind_line text gap rest pos s e =
    drop_add (pos + length gap) (length (line_of s)) text
    ∙ ap (drop (length (line_of s))) (
        drop_add pos (length gap) text
        ∙ ap (drop (length gap)) e
        ∙ drop-length-append (length gap) gap _ refl)
    ∙ drop-length-append (length (line_of s)) (line_of s) _ refl

search_loop-print :
    (fuel : ℕ) (text : List ℕ) (address : ℕ) (prev : Symbol) (symbols : List Symbol) (pos : ℕ)
    → All IsSymbol symbols
    → drop pos text ≡ 10 ∷ print symbols
    → length symbols < fuel
    → search_loop fuel text address prev pos ≡ some (before address prev symbols)
unfolding search_loop before print
search_loop-print zero text address prev symbols pos v e l = absurd (omega arith)
search_loop-print (suc fuel) text address prev [] pos v e l =
    rw (search_loop, get_next_symbol-end text pos e) refl
search_loop-print (suc fuel) text address prev (s ∷ symbols) pos v e l =
    let next = get_next_symbol-line text (print symbols) (10 ∷ []) pos s v.0 (inr refl) e in
    let behind =
      subst (λ k. drop k text ≡ 10 ∷ print symbols) (sym (ap (λ x. x.1) next))
        (behind_line text (10 ∷ []) (print symbols) pos s e) in
    let rest =
      search_loop-print fuel text address s symbols (get_next_symbol text pos).1 v.1 behind
        (omega arith) in
    rw (search_loop, ap (λ x. x.0) next, rest)
      (elim (Bool-cases (leb address s.address)) [ inl y ↦ rw y | inr n ↦ rw n ])

abbrev pub Among : Symbol → List Symbol → Type 0
Among s [] = ⊥
Among s (t ∷ symbols) = (s ≡ t) ⊎ Among s symbols

-- A symbol that starts below an address, and the last one that does.
pub record IsLast (address : ℕ) (symbols : List Symbol) (s : Symbol) : Type 0 where
  pub among : Among s symbols
  pub below : s.address < address
  pub last : All (λ t. t.address < address → t.address ≤ s.address) symbols

all_above :
    (address low : ℕ) (s : Symbol) (symbols : List Symbol)
    → Ascends low symbols
    → address ≤ low
    → All (λ t. t.address < address → t.address ≤ s.address) symbols
all_above address low s [] a l = tt
all_above address low s (t ∷ symbols) a l = (
  (λ k. absurd (omega (arith, a.0))),
  all_above address t.address s symbols a.1 (omega (arith, a.0)),
)

before-IsLast :
    (address : ℕ) (prev : Symbol) (symbols : List Symbol)
    → Ascends prev.address symbols
    → prev.address < address
    → IsLast address (prev ∷ symbols) (before address prev symbols)
      × (prev.address ≤ (before address prev symbols).address)
unfolding before
before-IsLast address prev [] a l =
    (record { among = inl refl; below = l; last = ((λ k. omega arith), tt) }, omega arith)
before-IsLast address prev (s ∷ symbols) a l = elim (Bool-cases (leb address s.address)) [
  | inl y ↦ rw y (
    record {
      among = inl refl;
      below = l;
      last = (
        (λ k. omega arith),
        all_above address s.address prev (s ∷ symbols) (omega arith, a.1) (ground (arith, y)),
      );
    },
    omega arith,
  )
  | inr n ↦
      let (r, up) = before-IsLast address s symbols a.1 (ground (arith, n)) in
      rw n (
        record {
          among = inr r.among;
          below = r.below;
          last = ((λ k. omega (arith, up, a.0)), r.last);
        },
        omega (arith, up, a.0),
      )
]

-- In a map file whose symbols ascend, with an address above the first one, SymbolLowerBound comes
-- to an end and gives the last symbol that starts below the address, never one that starts at it.
pub symbol_lower_bound-IsLast :
    (address : ℕ) (first : Symbol) (symbols : List Symbol)
    → All IsSymbol (first ∷ symbols)
    → Ascends first.address symbols
    → first.address < address
    → (s : Symbol) × (symbol_lower_bound (print (first ∷ symbols)) address ≡ some (some s))
      × IsLast address (first ∷ symbols) s
unfolding symbol_lower_bound print
symbol_lower_bound-IsLast address first symbols v a l =
    let text = print (first ∷ symbols) in
    let next = get_next_symbol-line text (print symbols) [] 0 first v.0 (inl refl) refl in
    let behind =
      subst (λ k. drop k text ≡ 10 ∷ print symbols) (sym (ap (λ x. x.1) next))
        (behind_line text [] (print symbols) 0 first refl) in
    let rest =
      search_loop-print (length text + 1) text address first symbols (get_next_symbol text 0).1 v.1
        behind (omega (arith, length-print first symbols)) in
    (
      before address first symbols,
      rw (symbol_lower_bound, ap (λ x. x.0) next, rest) refl,
      (before-IsLast address first symbols a l).0,
    )
