-- ===== src/Decoder/Runs.antt =====
-- Decoder.hh: the steps that the loop of `decode` makes on a source, up to its last byte.
use mkw_sp.Base.{ℕ, zero, suc, ◌≡◌, ◌<◌, ◌+◌, List, [], ◌++◌, some, true, false, arith, ◌&&◌, ◌∙◌}
use mkw_sp.Decoder.{Machine, is_nil, decode_loop, decode, work}
use mkw_sp.Decoder.Laws.{Laws, decode_loop-full, decode_loop-steps, decode_loop_enough, nil-append}

-- From a state, the loop takes all of a source and comes to `t`.
pub data Runs (m : Machine) (t : m.State) : m.State → List ℕ → Type 0 where
  here : Runs m t t []
  next :
      (s s' : m.State) (src src' : List ℕ)
      → m.full s ≡ false
      → (is_nil src && m.hungry s) ≡ false
      → m.process s src ≡ some (true, s', src')
      → Runs m t s' src'
      → Runs m t s src

module _ {m : Machine} (l : Laws m) where
  open m use {State, full, at_group, is_ok}

  pub Runs-append :
      {t u : State} (b : List ℕ) {s : State} {a : List ℕ}
      → Runs m t s a
      → Runs m u t b
      → Runs m u s (a ++ b)
  Runs-append b here r = r
  Runs-append b (next s s' a a' f w p q) r =
      next s s' (a ++ b) (a' ++ b) f (nil-append l a b (m.hungry s) w) (l.append s a b true s' a' p)
        (Runs-append b q r)

  loop-Runs :
      {t s : State} {src : List ℕ}
      → Runs m t s src
      → full t ≡ true
      → at_group t ≡ true
      → (k : ℕ) × ((fuel : ℕ) → k < fuel → decode_loop m fuel s src ≡ some (true, t))
  loop-Runs {t = t} here f g = (0, go)
    where
      go : (fuel : ℕ) → 0 < fuel → decode_loop m fuel t [] ≡ some (true, t)
      go zero h = elim h [ ]
      go (suc fuel) h = decode_loop-full l fuel t [] f ∙ rw g
  loop-Runs {t = t} (next s s' src src' n w p q) f g =
      let (k, h) = loop-Runs q f g in (suc k, go k h)
    where
      go :
          (k : ℕ)
          → ((fuel : ℕ) → k < fuel → decode_loop m fuel s' src' ≡ some (true, t))
          → (fuel : ℕ) → suc k < fuel
          → decode_loop m fuel s src ≡ some (true, t)
      go k h zero e = elim e [ ]
      go k h (suc fuel) e = decode_loop-steps l fuel s s' src src' true n w p ∙ h fuel (omega arith)

  -- A run to a full output between two groups is a call of `decode` that accepts.
  pub decode-Runs :
      (s t : State) (src : List ℕ)
      → l.Valid s
      → is_ok s ≡ true
      → full s ≡ false
      → Runs m t s src
      → full t ≡ true
      → at_group t ≡ true
      → decode m s src ≡ some (true, t)
  unfolding decode
  decode-Runs s t src v o n r f g =
      let (k, h) = loop-Runs r f g in
      let fuel = suc (k + work m s src) in
      rw (o, n)
        (decode_loop_enough l (suc (work m s src)) fuel s src (omega arith) (omega arith) v
          ∙ h fuel (omega arith))
