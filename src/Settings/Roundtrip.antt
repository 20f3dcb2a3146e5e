-- ===== src/Settings/Roundtrip.antt =====
-- Settings.hh: readIni on what writeIni writes.
use mkw_sp.Base.{
  ℕ, zero, suc, ◌+◌, ◌<◌, ◌≡◌, ◌∙◌, List, [], ◌∷◌, ◌++◌, Option, none, true, length, drop, set,
  arith, refl, sym, ap, append_assoc, length-append, ◌≢◌,
}
use mkw_sp.IniReader.{State, Kind, kind, IniReader, Scan, Out, wake, scan, next, Property}
use mkw_sp.IniReader.Line.Sections.{scan-comment, in_state}
use mkw_sp.Settings.{Entry, Group, done, set_text, read_loop, read_ini}
use mkw_sp.Settings.Legal.{AllLegal}
use mkw_sp.Settings.Write.{line_text, title_text}
use mkw_sp.Settings.Sound.{Numbers, all, is_entry, is_group, all-mid}
use mkw_sp.Settings.Known.{legal-Told, set_text-Told}
use mkw_sp.Settings.Lines.{
  InSection, Between, at_end-stop, fresh, next-fresh, length-body, all-IsLine, drop-append,
  scan-EntryRead,
}
use mkw_sp.Settings.Text.{AllWords, lead_text, body, group_text, text_of}

module _ {strtoul : ℕ → List ℕ → Option ℕ} {dec hex8 : ℕ → List ℕ}
    (n : Numbers strtoul dec hex8) where
  read_loop-property :
      (g : Group) (fuel : ℕ) (r r' : IniReader) (p : Property) (values : List ℕ)
      → next r ≡ Out.property p r'
      → read_loop strtoul g (suc fuel) r values
        ≡ read_loop strtoul g fuel r' (set_text strtoul g p.section p.key p.value values)
  unfolding read_loop
  read_loop-property g fuel r r' p values e = rw (read_loop, e) refl

  read_loop-stop :
      (g : Group) (fuel : ℕ) (r r' : IniReader) (values : List ℕ)
      → next r ≡ Out.stop r'
      → read_loop strtoul g (suc fuel) r values ≡ done values
  unfolding read_loop
  read_loop-stop g fuel r r' values e = rw (read_loop, e) refl

  scan-stop : (s : Scan) → wake s.reader.state ≡ State.start → scan [] s ≡ Out.stop s.reader
  unfolding scan
  scan-stop s awake = at_end-stop s.reader.state s awake

  set_append :
      (ws : List ℕ) (x v : ℕ) (olds : List ℕ)
      → set (ws ++ x ∷ olds) (length ws) v ≡ (ws ++ v ∷ []) ++ olds
  set_append [] x v olds = refl
  set_append (w ∷ ws) x v olds = ap (◌∷◌ w) (set_append ws x v olds)

  -- From between two lines on, with the values of the entries before already read.
  read_loop-body :
      (g : Group) (before entries : List Entry) (ws values olds : List ℕ) (last fuel : ℕ)
      (r : IniReader) (s : Scan)
      → is_group g ≡ true
      → g.entries ≡ before ++ entries
      → length ws ≡ length before
      → length olds ≡ length entries
      → AllLegal entries values
      → AllWords values
      → next r ≡ scan (body dec hex8 g last entries values) s
      → Between s (body dec hex8 g last entries values)
      → InSection g last s.reader
      → length entries < fuel
      → read_loop strtoul g fuel r (ws ++ olds) ≡ done (ws ++ values)
  read_loop-body g before entries ws values olds last zero r s ok q a b l w e bt i h =
      absurd (omega arith)
  read_loop-body g before [] ws [] [] last (suc fuel) r s ok q a b l w e bt i h =
      read_loop-stop g fuel r s.reader (ws ++ []) (e ∙ scan-stop s bt.awake)
  read_loop-body g before [] ws [] (x ∷ olds) last (suc fuel) r s ok q a b l w e bt i h =
      absurd (omega arith)
  read_loop-body g before [] ws (v ∷ values) olds last (suc fuel) r s ok q a b l w e bt i h =
      absurd l
  read_loop-body g before (f ∷ entries) ws [] olds last (suc fuel) r s ok q a b l w e bt i h =
      absurd l
  read_loop-body g before (f ∷ entries) ws (v ∷ values) [] last (suc fuel) r s ok q a b l w e bt i
        h =
      absurd (omega arith)
  read_loop-body g before (f ∷ entries) ws (v ∷ values) (x ∷ olds) last (suc fuel) r s ok q a b l w
        e bt i h =
      let sound : all (is_entry g) (before ++ f ∷ entries) ≡ true =
        ap (all (is_entry g)) (sym q) ∙ ground (arith, ok) in
      let entry : is_entry g f ≡ true = all-mid (is_entry g) before f entries sound in
      let t = legal-Told n g f v entry l.0 w.0 in
      let rest = body dec hex8 g f.category entries values in
      let text : text_of dec hex8 f v ≡ t.text = rw (text_of, t.printed) refl in
      let shape = ap (λ l. lead_text g last f ++ (line_text f.name l ++ rest)) text in
      let d =
        scan-EntryRead g last f s t.text rest (ground (arith, ok)) entry t.name i
          (record { awake = bt.awake; at_rest = bt.at_rest ∙ shape }) in
      read_loop-property g fuel r d.after _ (ws ++ x ∷ olds)
        (e ∙ ap (λ l. scan l s) shape ∙ d.gives)
      ∙ ap (read_loop strtoul g fuel d.after) (
          set_text-Told n g before f entries v (ws ++ x ∷ olds) q ok entry t
          ∙ ap (λ k. set (ws ++ x ∷ olds) k v) (sym a)
          ∙ set_append ws x v olds)
      ∙ read_loop-body g (before ++ f ∷ []) entries (ws ++ v ∷ []) values olds f.category fuel
          d.after (fresh d.after) ok (q ∙ sym (append_assoc before (f ∷ []) entries))
          (omega (arith, length-append ws (v ∷ []), length-append before (f ∷ []))) (omega arith)
          l.1 w.1 (next-fresh d.after rest d.there) (record { awake = d.awake; at_rest = d.there })
          (λ h. d.section) (omega arith)
      ∙ ap done (append_assoc ws (v ∷ []) values)

  pub read_ini-group_text :
      (g : Group) (values olds : List ℕ)
      → is_group g ≡ true
      → AllLegal g.entries values
      → AllWords values
      → length olds ≡ length g.entries
      → read_ini strtoul g (group_text dec hex8 g values) olds ≡ done values
  unfolding read_ini
  read_ini-group_text g values olds ok l w size =
      let text = group_text dec hex8 g values in
      let rest = body dec hex8 g (length g.category_names) g.entries values in
      let r : IniReader = record { view = text; pos = 0; section = none; state = State.start } in
      let shape : text ≡ 35 ∷ 32 ∷ (g.name ++ (10 ∷ rest)) =
        ap (λ l. 35 ∷ 32 ∷ l) (append_assoc g.name (10 ∷ []) rest) in
      let blank : kind 32 ≢ Kind.newline = λ e. cc in
      let title =
        scan-comment (fresh r) (32 ∷ g.name) rest refl
          (blank, all-IsLine g.name (ground (arith, ok))) in
      let s = in_state (fresh r) State.start (0 + length {A = ℕ} (32 ∷ g.name) + 2) in
      let there : drop (0 + length {A = ℕ} (32 ∷ g.name) + 2) text ≡ rest =
        ap (λ k. drop k text) {y = 0 + (length g.name + 3)} (omega arith)
        ∙ drop-append (title_text g.name) rest text 0 (length g.name + 3) refl
            (omega (arith, length-append g.name (10 ∷ []))) in
      read_loop-body g [] g.entries [] values olds (length g.category_names) (suc (length text)) r s
        ok refl refl size l w (next-fresh r _ shape ∙ title)
        (record { awake = refl; at_rest = there }) (λ h. absurd (omega arith))
        (omega (
          arith,
          length-body dec hex8 g (length g.category_names) g.entries values l,
          length-append (title_text g.name) rest,
        ))
