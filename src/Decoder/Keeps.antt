-- ===== src/Decoder/Keeps.antt =====
-- What the loop of `decode` keeps, for any machine.
use mathlib.Core.Option.{some-injective}
use mkw_sp.Base.{
  ℕ, zero, suc, ◌≡◌, List, Option, some, Bool, true, false, not, ◌&&◌, if◌then◌else◌, Bool-cases,
  Option-cases, inl, inr, subst, arith,
}
use mkw_sp.Decoder.{Machine, is_nil, decode_loop, decode}

module _ (m : Machine) (P : m.State → Type 0) where
  open m use {State, full, at_group, hungry, is_ok, fail, process}

  kept : (b : Bool) (t : State) (r : Bool × State) → some (b, t) ≡ some r → P t → P r.1
  kept b t r e h = subst (λ x. P x.1) (some-injective (b, t) r e) h

  kept_after :
      (go_on : Bool) (o : Option (Bool × State)) (t : State) (r : Bool × State)
      → (if go_on then o else some (false, fail t)) ≡ some r
      → (o ≡ some r → P r.1)
      → P (fail t)
      → P r.1
  kept_after true o t r e h k = h e
  kept_after false o t r e h k = kept false (fail t) r e k

  -- What each step and a failure keep is kept by the loop.
  decode_loop-keeps :
      ((s : State) (src : List ℕ) (g : Bool) (t : State) (rest : List ℕ)
        → process s src ≡ some (g, t, rest)
        → P s
        → P t)
      → ((s : State) → P s → P (fail s))
      → (fuel : ℕ) (s : State) (src : List ℕ) (r : Bool × State) → decode_loop m fuel s src ≡ some r
      → P s
      → P r.1
  unfolding decode_loop
  decode_loop-keeps step failed zero s src r e h = cc
  decode_loop-keeps step failed (suc fuel) s src r e h = elim (Bool-cases (full s)) [
    | inl f ↦ elim (Bool-cases (at_group s)) [
      | inl g ↦ kept true s r (rw (decode_loop, f, g) at e) h
      | inr g ↦ kept false (fail s) r (rw (decode_loop, f, g) at e) (failed s h)
    ]
    | inr f ↦ elim (Bool-cases (is_nil src && hungry s)) [
      | inl w ↦ kept true s r (rw (decode_loop, f, w) at e) h
      | inr w ↦ elim (Option-cases (process s src)) [
        | inl n ↦ cc (rw (decode_loop, f, w, n) at e)
        | inr ((go_on, t, rest), y) ↦
            let h' = step s src go_on t rest y h in
            kept_after go_on (decode_loop m fuel t rest) t r (ground (arith, f, w, y, e))
              (λ e'. decode_loop-keeps step failed fuel t rest r e' h') (failed t h')
      ]
    ]
  ]

  pub decode-keeps :
      ((s : State) (src : List ℕ) (g : Bool) (t : State) (rest : List ℕ)
        → process s src ≡ some (g, t, rest)
        → P s
        → P t)
      → ((s : State) → P s → P (fail s))
      → (s : State) (src : List ℕ) (r : Bool × State) → decode m s src ≡ some r
      → P s
      → P r.1
  unfolding decode
  decode-keeps step failed s src r e h = elim (Bool-cases (is_ok s && not (full s))) [
    | inl y ↦ decode_loop-keeps step failed _ s src r (rw (decode, y) at e) h
    | inr n ↦ cc (rw (decode, n) at e)
  ]
