-- ===== src/Settings/Small.antt =====
-- Settings.hh: the values stay numbers of 32 bits.
use mkw_sp.Base.{
  ℕ, zero, suc, ◌<◌, ◌^◌, ◌≡◌, inl, inr, List, [], ◌∷◌, Option, some, Bool, true, ltb, ◌==◌, set,
  take, arith, subst, sym, Option-cases, Bool-cases, ◌∙◌,
}
use mkw_sp.Settings.{Entry, Group, value_of, find_value, read_ini}
use mkw_sp.Settings.Legal.{find_value-lt, set_text-cases, Ended, read_ini-keeps}
use mkw_sp.Settings.Sound.{all, all-get_elem?}
use mkw_sp.Settings.Text.{AllWords}

set-AllWords :
    (values : List ℕ) (i v : ℕ) → AllWords values → v < 2 ^ 32 → AllWords (set values i v)
set-AllWords [] i v w h = tt
set-AllWords (x ∷ values) zero v w h = (h, w.1)
set-AllWords (x ∷ values) (suc i) v w h = (w.0, set-AllWords values i v w.1 h)

-- No entry counts more values than 32 bits can.
abbrev pub is_counted : Entry → Bool
is_counted e = ltb e.value_count (2 ^ 32)

module _ (strtoul : ℕ → List ℕ → Option ℕ)
    (small : (base v : ℕ) (text : List ℕ) → strtoul base text ≡ some v → v < 2 ^ 32) where
  value_of-small :
      (e : Entry) (value : List ℕ) (v : ℕ)
      → is_counted e ≡ true
      → value_of strtoul e value ≡ some v
      → v < 2 ^ 32
  unfolding value_of
  value_of-small e value v few q = elim (Bool-cases (e.value_count == 0)) [
    | inl free ↦ small 16 v (take 8 value) (ground (arith, q, free))
    | inr counted ↦ elim (Option-cases e.value_names) [
      | inl n ↦ small 10 v (take 8 value) (elim (Option-cases (strtoul 10 (take 8 value))) [
        | inl m ↦ absurd (ground (arith, q, counted, n, m))
        | inr (u, m) ↦ m ∙ ground (arith, q, counted, n, m)
      ])
      | inr (names, n) ↦
          let found : find_value e.value_count 0 names value ≡ some v =
            ground (arith, q, counted, n) in
          let below = find_value-lt e.value_count 0 v names value found in
          ground (arith, few, below)
    ]
  ]

  -- If strtoul gives numbers of 32 bits, so do the values that readIni leaves.
  pub read_ini-AllWords :
      (g : Group) (ini values : List ℕ)
      → all is_counted g.entries ≡ true
      → AllWords values
      → Ended strtoul AllWords (read_ini strtoul g ini values)
  read_ini-AllWords g ini values few w =
      read_ini-keeps strtoul g AllWords
        (λ section key value values' w'. elim (set_text-cases strtoul g section key value values') [
          | inl same ↦ subst AllWords (sym same) w'
          | inr s ↦ subst AllWords (sym s.changed) (
              set-AllWords values' s.index s.number w' (
                value_of-small s.entry value s.number
                  (all-get_elem? is_counted g.entries s.index s.entry few s.there) s.meant))
        ])
        ini values w
