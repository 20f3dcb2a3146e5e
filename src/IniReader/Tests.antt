-- ===== src/IniReader/Tests.antt =====
-- Runs of IniReader.cc.
use mkw_sp.Base.{ℕ, ◌≡◌, List, [], ◌∷◌, refl, arith, none, some}
use mkw_sp.IniReader.{
  State, IniReader, Out, next, scan, round, on_kind, identifier, on_newline, end_key, close_section,
  finish,
}
use mkw_sp.IniReader.Line.{next-empty_value}
use mkw_sp.IniReader.Next.{Ends, next-Ends}

abbrev reader : List ℕ → IniReader
reader view = record { view = view; pos = 0; section = none; state = State.start }

-- "[s]\nk = v \n"
abbrev one_property : List ℕ
one_property = 91 ∷ 115 ∷ 93 ∷ 10 ∷ 107 ∷ 32 ∷ 61 ∷ 32 ∷ 118 ∷ 32 ∷ 10 ∷ []

next-one_property :
    next (reader one_property)
    ≡ Out.property
        (record { section = some (115 ∷ []); key = 107 ∷ []; value = 118 ∷ [] })
        (record {
          view = one_property;
          pos = 11;
          section = some (115 ∷ []);
          state = State.post_want_value;
        })
unfolding next scan round on_kind identifier on_newline end_key close_section finish
next-one_property = refl

-- "=": the label Identifier is reached in the first state.
next-stray :
    next (reader (61 ∷ []))
    ≡ Out.undefined
        (record { reader = reader (61 ∷ []); token = none; last_non_space = none; key = [] })
unfolding next scan round on_kind identifier
next-stray = refl

next-Ends_example : Ends 0 one_property (next (reader one_property))
next-Ends_example = next-Ends (reader one_property) (omega arith) refl

-- "k=v\n" behind a property that ended at 2
abbrev second_line : IniReader
second_line = record {
  view = 120 ∷ 10 ∷ 107 ∷ 61 ∷ 118 ∷ 10 ∷ [];
  pos = 2;
  section = some (115 ∷ []);
  state = State.post_want_value;
}

next-empty_value_example :
    next (reader (107 ∷ 61 ∷ 10 ∷ []))
    ≡ Out.property
        (record { section = none; key = 107 ∷ []; value = 107 ∷ [] })
        (record {
          view = 107 ∷ 61 ∷ 10 ∷ [];
          pos = 3;
          section = none;
          state = State.post_want_value;
        })
next-empty_value_example =
    next-empty_value (reader (107 ∷ 61 ∷ 10 ∷ [])) 107 [] [] refl refl (refl, tt)
