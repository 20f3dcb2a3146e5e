-- ===== src/Settings/Stored.antt =====
-- Settings.hh: the values of a group that writeIni stores are those that readIni gives back.
use mkw_sp.Base.{
  ℕ, ◌+◌, ◌≤◌, ◌<◌, ◌≡◌, List, [], ◌∷◌, ◌++◌, Option, some, true, length, arith, length-append,
  refl, ltb, ◌^◌,
}
use mkw_sp.Settings.{Entry, Group, read_ini, done, reset}
use mkw_sp.Settings.Legal.{AllLegal, is_legal}
use mkw_sp.Settings.Write.{write_ini, title_text, line_text}
use mkw_sp.Settings.Sound.{Numbers, all, is_entry, is_group, value_size}
use mkw_sp.Settings.Known.{legal-Told}
use mkw_sp.Settings.Text.{AllWords, lead_text, body, group_text, text_of, write_ini-group_text}
use mkw_sp.Settings.Roundtrip.{read_ini-group_text}
use mkw_sp.Settings.Lines.{length-line_text}

abbrev body_size : Group → ℕ → List Entry → ℕ
body_size g last [] = 0
body_size g last (e ∷ entries) =
    length (lead_text g last e)
    + (length e.name + value_size e + 4)
    + body_size g e.category entries

-- The most characters of the text of a group.
abbrev pub group_size : Group → ℕ
group_size g = length (title_text g.name) + body_size g (length g.category_names) g.entries

module _ {strtoul : ℕ → List ℕ → Option ℕ} {dec hex8 : ℕ → List ℕ}
    (n : Numbers strtoul dec hex8) where
  length-body-size :
      (g : Group) (last : ℕ) (entries : List Entry) (values : List ℕ)
      → all (is_entry g) entries ≡ true
      → AllLegal entries values
      → AllWords values
      → length (body dec hex8 g last entries values) ≤ body_size g last entries
  length-body-size g last [] values ok l w = omega arith
  length-body-size g last (e ∷ entries) [] ok l w = absurd l
  length-body-size g last (e ∷ entries) (v ∷ values) ok l w =
      let t = legal-Told n g e v (ground (arith, ok)) l.0 w.0 in
      let text : text_of dec hex8 e v ≡ t.text = rw (text_of, t.printed) refl in
      let short : length (text_of dec hex8 e v) ≤ value_size e = rw text t.short in
      let rest = length-body-size g e.category entries values (ground (arith, ok)) l.1 w.1 in
      let lead = lead_text g last e in
      let line = line_text e.name (text_of dec hex8 e v) in
      let tail = body dec hex8 g e.category entries values in
      omega (
        arith,
        short,
        rest,
        length-append lead (line ++ tail),
        length-append line tail,
        length-line_text e.name (text_of dec hex8 e v),
      )

  pub write_ini-fits :
      (g : Group) (values : List ℕ) (size : ℕ)
      → is_group g ≡ true
      → AllLegal g.entries values
      → AllWords values
      → group_size g < size
      → write_ini dec hex8 g values size ≡ some (group_text dec hex8 g values)
  write_ini-fits g values size ok l w room =
      let few =
        length-body-size g (length g.category_names) g.entries values (ground (arith, ok)) l w in
      let whole =
        length-append (title_text g.name)
          (body dec hex8 g (length g.category_names) g.entries values) in
      write_ini-group_text n g values size ok l w (omega (arith, few, whole, room))

  -- Let strtoul and the formats of numbers be as documented, the group sound, and its values legal
  -- ones of 32 bits. If the buffer is longer than the longest text of the group, then writeIni
  -- writes a text, and readIni on it gives each value back, whatever the values were before.
  pub read_ini-write_ini :
      (g : Group) (values olds : List ℕ) (size : ℕ)
      → is_group g ≡ true
      → AllLegal g.entries values
      → AllWords values
      → length olds ≡ length g.entries
      → group_size g < size
      → (ini : List ℕ) × (write_ini dec hex8 g values size ≡ some ini)
        × (read_ini strtoul g ini olds ≡ done values)
  read_ini-write_ini g values olds size ok l w same room = (
    group_text dec hex8 g values,
    write_ini-fits g values size ok l w room,
    read_ini-group_text n g values olds ok l w same,
  )

-- The values after `reset` are legal if each default value is.
pub reset-AllLegal :
    (entries : List Entry)
    → all (λ e. is_legal e e.default_value) entries ≡ true
    → AllLegal entries (reset entries)
unfolding reset
reset-AllLegal [] h = tt
reset-AllLegal (e ∷ entries) h = (ground (arith, h), reset-AllLegal entries (ground (arith, h)))

pub reset-AllWords :
    (entries : List Entry)
    → all (λ e. ltb e.default_value (2 ^ 32)) entries ≡ true
    → AllWords (reset entries)
unfolding reset
reset-AllWords [] h = tt
reset-AllWords (e ∷ entries) h = (ground (arith, h), reset-AllWords entries (ground (arith, h)))
