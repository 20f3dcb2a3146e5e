-- ===== src/Settings/Lines.antt =====
-- IniReader::next on the text that Settings::writeIni writes for an entry.
use mkw_sp.Base.{
  ℕ, ◌+◌, ◌≤◌, ◌<◌, ◌≡◌, ◌∙◌, List, [], ◌∷◌, ◌++◌, none, some, true, false, ◌==◌, ==→eq, length,
  drop, arith, refl, sym, ap, Bool-cases, inl, inr, append_assoc, length-append, drop_add,
  drop-length-append, get_elem?-eq-get_or, not, ◌≢◌,
}
use mkw_sp.IniReader.{State, IniReader, Scan, Out, wake, scan, next, at_end, kind, Kind}
use mkw_sp.IniReader.Line.Sections.{scan-section, IsLine, opened}
use mkw_sp.IniReader.Line.Spaced.{IsName, behind, scan-line_name}
use mkw_sp.Settings.{Entry, Group}
use mkw_sp.Settings.Legal.{AllLegal}
use mkw_sp.Settings.Write.{line_text, section_text}
use mkw_sp.Settings.Sound.{
  all, is_entry, is_name, is_name-IsName, section_at, section_of, all-get_elem?,
}
use mkw_sp.Settings.Text.{lead_text, body, text_of}

-- A reader that stands in a category of the group.
abbrev pub InSection : Group → ℕ → IniReader → Type 0
InSection g last r = last < length g.category_names → r.section ≡ some (section_at g last)

pub at_end-stop :
    (state : State) (s : Scan) → wake state ≡ State.start → at_end state s ≡ Out.stop s.reader
unfolding at_end
at_end-stop State.start s e = refl
at_end-stop State.post_want_value s e = refl
at_end-stop State.in_comment s e = cc
at_end-stop State.want_section s e = cc
at_end-stop State.want_section_end s e = cc
at_end-stop State.want_delim s e = cc
at_end-stop State.want_value s e = cc
at_end-stop State.want_value_end s e = cc
at_end-stop State.in_comment_want_value s e = cc

-- A scan that goes on with `rest`, between two lines.
pub record Between (s : Scan) (rest : List ℕ) : Type 0 where
  pub awake : wake s.reader.state ≡ State.start
  pub at_rest : drop s.reader.pos s.reader.view ≡ rest

pub drop-append :
    (xs rest view : List ℕ) (pos k : ℕ)
    → drop pos view ≡ xs ++ rest
    → length xs ≡ k
    → drop (pos + k) view ≡ rest
drop-append xs rest view pos k e h =
    drop_add pos k view ∙ ap (drop k) e ∙ drop-length-append k xs rest h

-- What precedes an entry leaves its section open.
record Led (g : Group) (e : Entry) (s : Scan) (text rest : List ℕ) : Type 0 where
  after : Scan
  scans : scan text s ≡ scan rest after
  between : Between after rest
  section : after.reader.section ≡ some (section_of g e)

section_of-IsName :
    (g : Group) (e : Entry)
    → all is_name g.category_names ≡ true
    → e.category < length g.category_names
    → IsName (section_of g e)
section_of-IsName g e names inside =
    let q = get_elem?-eq-get_or g.category_names e.category [] inside in
    rw (section_at, q)
      (is_name-IsName _ (all-get_elem? is_name g.category_names e.category _ names q))

lead-Led :
    (g : Group) (last : ℕ) (e : Entry) (s : Scan) (rest : List ℕ)
    → all is_name g.category_names ≡ true
    → e.category < length g.category_names
    → InSection g last s.reader
    → Between s (lead_text g last e ++ rest)
    → Led g e s (lead_text g last e ++ rest) rest
lead-Led g last e s rest names inside open_ b = elim (Bool-cases (last == e.category)) [
  | inl same ↦
      let nothing : lead_text g last e ≡ [] = rw (lead_text, same) refl in
      let eq : last ≡ e.category = ==→eq last e.category same in
      record {
        after = s;
        scans = ap (λ l. scan (l ++ rest) s) nothing;
        between = record { awake = b.awake; at_rest = b.at_rest ∙ ap (λ l. l ++ rest) nothing };
        section = open_ (omega (arith, eq)) ∙ ap (λ c. some (section_at g c)) eq;
      }
  | inr other ↦
      let header : lead_text g last e ≡ section_text (section_of g e) =
        rw (lead_text, other) refl in
      let shape : lead_text g last e ++ rest ≡ 10 ∷ 91 ∷ (section_of g e ++ (93 ∷ 10 ∷ rest)) =
        ap (λ l. l ++ rest) header
        ∙ ap (λ l. 10 ∷ 91 ∷ l) (append_assoc (section_of g e) (93 ∷ 10 ∷ []) rest) in
      opens (section_of g e) refl (section_of-IsName g e names inside) shape
]
  where
    opens :
        (name : List ℕ)
        → section_of g e ≡ name
        → IsName name
        → lead_text g last e ++ rest ≡ 10 ∷ 91 ∷ (name ++ (93 ∷ 10 ∷ rest))
        → Led g e s (lead_text g last e ++ rest) rest
    opens [] q w shape = absurd w
    opens (c ∷ cs) q w shape =
        let p = scan-section s c cs rest b.awake (b.at_rest ∙ shape) w in
        record {
          after =
              opened s.reader (c ∷ cs) (s.reader.pos + length cs + 5) (s.reader.pos + 2)
                (s.reader.pos + length cs + 2) s.key;
          scans = ap (λ l. scan l s) shape ∙ p;
          between = record {
            awake = refl;
            at_rest =
                ap (λ n. drop n s.reader.view) (omega arith)
                ∙ drop-append (section_text (c ∷ cs)) rest s.reader.view s.reader.pos
                    (length cs + 5)
                    (b.at_rest
                      ∙ shape
                      ∙ sym (ap (λ l. 10 ∷ 91 ∷ l) (append_assoc (c ∷ cs) (93 ∷ 10 ∷ []) rest)))
                    (omega (arith, length-append cs (93 ∷ 10 ∷ [])));
          };
          section = ap some (sym q);
        }

line_text-append :
    (key value rest : List ℕ)
    → line_text key value ++ rest ≡ key ++ (32 ∷ 61 ∷ 32 ∷ (value ++ (10 ∷ rest)))
line_text-append key value rest =
    append_assoc key (32 ∷ 61 ∷ 32 ∷ (value ++ (10 ∷ []))) rest
    ∙ ap (λ l. key ++ (32 ∷ 61 ∷ 32 ∷ l)) (append_assoc value (10 ∷ []) rest)

pub length-line_text :
    (key value : List ℕ) → length (line_text key value) ≡ length key + length value + 4
length-line_text key value =
    omega (
      arith,
      length-append key (32 ∷ 61 ∷ 32 ∷ (value ++ (10 ∷ []))),
      length-append value (10 ∷ []),
    )

-- The variables of `next` at its start.
abbrev pub fresh : IniReader → Scan
fresh r = record { reader = r; token = none; last_non_space = none; key = [] }

pub next-fresh :
    (r : IniReader) (rest : List ℕ) → drop r.pos r.view ≡ rest → next r ≡ scan rest (fresh r)
unfolding next
next-fresh r rest e = ap (λ l. scan l (fresh r)) e

pub length-body :
    (dec hex8 : ℕ → List ℕ) (g : Group) (last : ℕ) (entries : List Entry) (values : List ℕ)
    → AllLegal entries values
    → length entries ≤ length (body dec hex8 g last entries values)
length-body dec hex8 g last [] values l = omega arith
length-body dec hex8 g last (e ∷ entries) [] l = absurd l
length-body dec hex8 g last (e ∷ entries) (v ∷ values) l =
    let lead = lead_text g last e in
    let line = line_text e.name (text_of dec hex8 e v) in
    let rest = body dec hex8 g e.category entries values in
    omega (
      arith,
      length-append lead (line ++ rest),
      length-append line rest,
      length-line_text e.name (text_of dec hex8 e v),
      length-body dec hex8 g e.category entries values l.1,
    )

not_newline : (c : ℕ) → c == 10 ≡ false → kind c ≢ Kind.newline
not_newline c h e = ground (arith, h, e)

pub all-IsLine : (w : List ℕ) → all (λ c. not (c == 10)) w ≡ true → IsLine w
all-IsLine [] h = tt
all-IsLine (c ∷ cs) h =
    let other : c == 10 ≡ false = ground (arith, h) in
    (not_newline c other, all-IsLine cs (ground (arith, h)))

-- What a call of `next` has done for an entry: it gives the property and leaves `rest`.
pub record EntryRead (g : Group) (e : Entry) (text rest : List ℕ) (out : Out) : Type 0 where
  pub after : IniReader
  pub gives :
      out
      ≡ Out.property (record { section = some (section_of g e); key = e.name; value = text }) after
  pub there : drop after.pos after.view ≡ rest
  pub awake : wake after.state ≡ State.start
  pub section : after.section ≡ some (section_of g e)

pub scan-EntryRead :
    (g : Group) (last : ℕ) (e : Entry) (s : Scan) (text rest : List ℕ)
    → all is_name g.category_names ≡ true
    → is_entry g e ≡ true
    → IsName text
    → InSection g last s.reader
    → Between s (lead_text g last e ++ (line_text e.name text ++ rest))
    → EntryRead g e text rest (scan (lead_text g last e ++ (line_text e.name text ++ rest)) s)
scan-EntryRead g last e s text rest names entry word i b =
    let led =
      lead-Led g last e s (line_text e.name text ++ rest) names (ground (arith, entry)) i b in
    let r = led.after.reader in
    let shape = line_text-append e.name text rest in
    let line =
      scan-line_name led.after e.name text rest led.between.awake (led.between.at_rest ∙ shape)
        (is_name-IsName e.name (ground (arith, entry))) word in
    let pos = r.pos + (length e.name + length text + 4) in
    record {
      after = behind r pos;
      gives =
          led.scans
          ∙ ap (λ l. scan l led.after) shape
          ∙ line
          ∙ ap
              (λ k.
                Out.property (record { section = r.section; key = e.name; value = text })
                  (behind r k))
              (omega arith)
          ∙ ap
              (λ c.
                Out.property (record { section = c; key = e.name; value = text }) (behind r pos))
              led.section;
      there =
          drop-append (line_text e.name text) rest r.view r.pos (length e.name + length text + 4)
            led.between.at_rest (length-line_text e.name text);
      awake = refl;
      section = led.section;
    }
