-- ===== src/Settings/Text.antt =====
-- Settings::writeIni: the text that it writes, and when it fits.
use mkw_sp.Base.{
  ℕ, ◌+◌, ◌-◌, ◌<◌, ◌^◌, ◌≡◌, ◌∙◌, List, [], ◌∷◌, ◌++◌, Option, none, some, true, ◌==◌, length,
  arith, refl, sym, ap, Bool-cases, inl, inr, if◌then◌else◌, append_assoc, append-nil,
  length-append, get_or, get_elem?-eq-get_or, subst,
}
use mkw_sp.Settings.{Entry, Group}
use mkw_sp.Settings.Legal.{AllLegal}
use mkw_sp.Settings.Write.{
  Output, print, print_section, print_line, value_text, write_loop, write_ini, section_text,
  line_text, title_text,
}
use mkw_sp.Settings.Sound.{Numbers, all, is_entry, is_group, section_at, section_of}
use mkw_sp.Settings.Known.{legal-Told}

-- The values that the program keeps: legal ones of 32 bits.
abbrev pub AllWords : List ℕ → Type 0
AllWords [] = Unit {0}
AllWords (v ∷ values) = (v < 2 ^ 32) × AllWords values

-- The section that is printed in front of an entry.
abbrev pub lead_text : Group → ℕ → Entry → List ℕ
lead_text g last e = if last == e.category then [] else section_text (section_of g e)

print-some :
    (text : List ℕ) (o : Output)
    → length text < o.room
    → print text o ≡ some (record { written = o.written ++ text; room = o.room - length text })
unfolding print
print-some text o h = ground (arith, h)

module _ (dec hex8 : ℕ → List ℕ) where
  abbrev pub text_of : Entry → ℕ → List ℕ
  text_of e v = elim (value_text dec hex8 e v) [ none ↦ [] | some text ↦ text ]

  -- The text of the entries behind one of the category `last`.
  abbrev pub body : Group → ℕ → List Entry → List ℕ → List ℕ
  body g last [] values = []
  body g last (e ∷ entries) [] = []
  body g last (e ∷ entries) (v ∷ values) =
      lead_text g last e ++ (line_text e.name (text_of e v) ++ body g e.category entries values)

  -- The text of a group.
  abbrev pub group_text : Group → List ℕ → List ℕ
  group_text g values = title_text g.name ++ body g (length g.category_names) g.entries values

  print_section-lead :
      (g : Group) (last : ℕ) (e : Entry) (o : Output)
      → is_entry g e ≡ true
      → length (lead_text g last e) < o.room
      → print_section g last e o
        ≡ some (record {
          written = o.written ++ lead_text g last e;
          room = o.room - length (lead_text g last e);
        })
  unfolding print_section
  print_section-lead g last e o ok room = elim (Bool-cases (last == e.category)) [
    | inl same ↦ rw same (
        ap (λ l. some (record { written = l; room = o.room })) (sym (append-nil o.written))
        ∙ ap (λ n. some (record { written = o.written ++ []; room = n })) (omega arith))
    | inr other ↦
        let inside : e.category < length g.category_names = ground (arith, ok) in
        let q = get_elem?-eq-get_or g.category_names e.category [] inside in
        let fits : length (section_text (get_or g.category_names e.category [])) < o.room =
          ground (arith, other, q, room) in
        let p = print-some (section_text (get_or g.category_names e.category [])) o fits in
        rw (lead_text, section_at, other, q) p
  ]

module _ (dec hex8 : ℕ → List ℕ) where
  print_line-some :
      (e : Entry) (v : ℕ) (o o' : Output) (text : List ℕ)
      → value_text dec hex8 e v ≡ some text
      → print (line_text e.name text) o ≡ some o'
      → print_line dec hex8 e v o ≡ some o'
  unfolding print_line
  print_line-some e v o o' text q p = rw (print_line, q, p) refl

  write_loop-step :
      (g : Group) (last : ℕ) (e : Entry) (entries : List Entry) (v : ℕ) (values : List ℕ)
      (o o' o'' : Output)
      → print_section g last e o ≡ some o'
      → print_line dec hex8 e v o' ≡ some o''
      → write_loop dec hex8 g last (e ∷ entries) (v ∷ values) o
        ≡ write_loop dec hex8 g e.category entries values o''
  unfolding write_loop
  write_loop-step g last e entries v values o o' o'' p q = rw (write_loop, p, q) refl

-- What is written after three more texts.
three_texts :
    (o : Output) (a b c : List ℕ)
    → ◌≡◌ {A = Option Output}
        (some (record {
          written = ((o.written ++ a) ++ b) ++ c;
          room = o.room - length a - length b - length c;
        }))
        (some (record {
          written = o.written ++ (a ++ (b ++ c));
          room = o.room - length (a ++ (b ++ c));
        }))
three_texts o a b c =
    ap (λ l. some (record { written = l; room = o.room - length a - length b - length c }))
      (append_assoc (o.written ++ a) b c ∙ append_assoc o.written a (b ++ c))
    ∙ ap (λ k. some (record { written = o.written ++ (a ++ (b ++ c)); room = k }))
        (omega (arith, length-append a (b ++ c), length-append b c))

module _ {strtoul : ℕ → List ℕ → Option ℕ} {dec hex8 : ℕ → List ℕ}
    (n : Numbers strtoul dec hex8) where
  write_loop-body :
      (g : Group) (last : ℕ) (entries : List Entry) (values : List ℕ) (o : Output)
      → all (is_entry g) entries ≡ true
      → AllLegal entries values
      → AllWords values
      → length (body dec hex8 g last entries values) < o.room
      → write_loop dec hex8 g last entries values o
        ≡ some (record {
          written = o.written ++ body dec hex8 g last entries values;
          room = o.room - length (body dec hex8 g last entries values);
        })
  unfolding write_loop print_line
  write_loop-body g last [] values o ok legal small room =
      ap (λ l. some (record { written = l; room = o.room })) (sym (append-nil o.written))
      ∙ ap (λ n. some (record { written = o.written ++ []; room = n })) (omega arith)
  write_loop-body g last (e ∷ entries) [] o ok legal small room = absurd legal
  write_loop-body g last (e ∷ entries) (v ∷ values) o ok legal small room =
      let entry : is_entry g e ≡ true = ground (arith, ok) in
      let t = legal-Told n g e v entry legal.0 small.0 in
      let lead = lead_text g last e in
      let line = line_text e.name t.text in
      let rest = body dec hex8 g e.category entries values in
      let text : text_of dec hex8 e v ≡ t.text = rw (text_of, t.printed) refl in
      let room' : length (lead ++ (line ++ rest)) < o.room =
        subst (λ l. length (lead ++ (line_text e.name l ++ rest)) < o.room) text room in
      let size : length (lead ++ (line ++ rest)) ≡ length lead + (length line + length rest) =
        length-append lead (line ++ rest) ∙ ap (λ k. length lead + k) (length-append line rest) in
      let p = print_section-lead dec hex8 g last e o entry (omega (arith, size, room')) in
      let o' : Output = record { written = o.written ++ lead; room = o.room - length lead } in
      let q : print line o'
          ≡ some (record { written = o'.written ++ line; room = o'.room - length line }) =
        print-some line o' (omega (arith, size, room')) in
      let o'' : Output = record { written = o'.written ++ line; room = o'.room - length line } in
      let r =
        write_loop-body g e.category entries values o'' (ground (arith, ok)) legal.1 small.1
          (omega (arith, size, room')) in
      write_loop-step dec hex8 g last e entries v values o o' o'' p
        (print_line-some dec hex8 e v o' o'' t.text t.printed q)
      ∙ r
      ∙ three_texts o lead line rest
      ∙ ap
          (λ l. some (record {
            written = o.written ++ (lead ++ (line_text e.name l ++ rest));
            room = o.room - length (lead ++ (line_text e.name l ++ rest));
          }))
          (sym text)

  -- If the text of a sound group with legal values is shorter than the buffer, it is what is written.
  pub write_ini-group_text :
      (g : Group) (values : List ℕ) (size : ℕ)
      → is_group g ≡ true
      → AllLegal g.entries values
      → AllWords values
      → length (group_text dec hex8 g values) < size
      → write_ini dec hex8 g values size ≡ some (group_text dec hex8 g values)
  unfolding write_ini
  write_ini-group_text g values size ok legal small room =
      let title = title_text g.name in
      let rest = body dec hex8 g (length g.category_names) g.entries values in
      let len = length-append title rest in
      let p = print-some title (record { written = []; room = size }) (omega (arith, len, room)) in
      let o : Output = record { written = title; room = size - length title } in
      let q =
        write_loop-body g (length g.category_names) g.entries values o (ground (arith, ok)) legal
          small (omega (arith, len, room)) in
      rw (write_ini, p, q) refl
