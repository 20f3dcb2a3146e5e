-- ===== src/Decoder/Laws.antt =====
-- The loop of YAZDecoder::decode and LZ77Decoder::decode, for any machine with these laws.
use mkw_sp.Base.{
  if◌then◌else◌, ◌∙◌, length-append, sym, subst, ℕ, zero, suc, ◌≡◌, ◌⊎◌, ◌<◌, List, [], ◌∷◌, ◌++◌,
  some, none, true, false, Bool, arith, Bool-cases, inl, inr, ◌&&◌, ◌∙◌, refl,
}
use mkw_sp.Base.{Option}
use mkw_sp.Decoder.{Machine, is_nil, decode_loop, decode, work}

-- What a step of a machine in a good state does when the loop makes it: it stays in bounds, keeps
-- the invariant, and lowers the work left.
pub record Steps (m : Machine) (Valid : m.State → Type 0) (s : m.State) (src : List ℕ)
    : Type 0 where
  pub go_on : Bool
  pub next : m.State
  pub rest : List ℕ
  pub runs : m.process s src ≡ some (go_on, next, rest)
  pub keeps : go_on ≡ true → Valid next
  pub lowers : work m next rest < work m s src
  pub same_ok : m.is_ok next ≡ m.is_ok s

pub record Laws (m : Machine) : Type 1 where
  pub Valid : m.State → Type 0
  pub step :
      (s : m.State) (src : List ℕ)
      → Valid s
      → m.full s ≡ false
      → (is_nil src && m.hungry s) ≡ false
      → Steps m Valid s src
  -- More source behind does not change a step.
  pub append :
      (s : m.State) (src more : List ℕ) (go_on : Bool) (next : m.State) (rest : List ℕ)
      → m.process s src ≡ some (go_on, next, rest)
      → m.process s (src ++ more) ≡ some (go_on, next, rest ++ more)
  pub fail_not_ok : (s : m.State) → m.is_ok (m.fail s) ≡ false

module _ {m : Machine} (l : Laws m) where
  open m use {State, full, at_group, hungry, is_ok, fail, process}
  open l use {Valid, step, append, fail_not_ok}

  pub decode_loop-full :
      (fuel : ℕ) (s : State) (src : List ℕ)
      → full s ≡ true
      → decode_loop m (suc fuel) s src
        ≡ (if at_group s then some (true, s) else some (false, fail s))
  unfolding decode_loop
  decode_loop-full fuel s src f = rw f

  decode_loop-waits :
      (fuel : ℕ) (s : State) (src : List ℕ)
      → full s ≡ false
      → (is_nil src && hungry s) ≡ true
      → decode_loop m (suc fuel) s src ≡ some (true, s)
  unfolding decode_loop
  decode_loop-waits fuel s src f w = rw (f, w)

  pub decode_loop-steps :
      (fuel : ℕ) (s next : State) (src rest : List ℕ) (go_on : Bool)
      → full s ≡ false
      → (is_nil src && hungry s) ≡ false
      → process s src ≡ some (go_on, next, rest)
      → decode_loop m (suc fuel) s src
        ≡ (if go_on then decode_loop m fuel next rest else some (false, fail next))
  unfolding decode_loop
  decode_loop-steps fuel s next src rest true f w e = rw (f, w) (ground (arith, e))
  decode_loop-steps fuel s next src rest false f w e = rw (f, w) (ground (arith, e))

  decode_loop-zero : (s : State) (src : List ℕ) → decode_loop m zero s src ≡ none
  unfolding decode_loop
  decode_loop-zero s src = refl

  same_of_accepted :
      (g : Bool) (s x t : State)
      → ◌≡◌ {A = Option (Bool × State)}
          (if g then some (true, s) else some (false, x))
          (some (true, t))
      → s ≡ t
  same_of_accepted true s x t e = cc
  same_of_accepted false s x t e = cc

  full_stays : (s t : State) → full s ≡ true → full t ≡ false → s ≡ t → ⊥
  full_stays s t y n e = cc

  refused_not_accepted :
      (x t : State) → ◌≡◌ {A = Option (Bool × State)} (some (false, x)) (some (true, t)) → ⊥
  refused_not_accepted x t e = cc

  -- How the loop may end.
  pub record Ended (r : Bool × State) : Type 0 where
    pub valid : r.0 ≡ true → Valid r.1
    pub accepted :
        r.0 ≡ true
        → (is_ok r.1 ≡ true)
          × (((full r.1 ≡ true) × (at_group r.1 ≡ true))
              ⊎ ((full r.1 ≡ false) × (hungry r.1 ≡ true)))
    pub refused : r.0 ≡ false → is_ok r.1 ≡ false

  Ended-fail : (s : State) → Ended (false, fail s)
  Ended-fail s = record { valid = λ e. cc; accepted = λ e. cc; refused = λ e. fail_not_ok s }

  and-right : (a b : Bool) → (a && b) ≡ true → b ≡ true
  and-right true b h = h
  and-right false b h = cc

  ok_of_accepted :
      (r : Bool × State) (t : State) → some r ≡ some (true, t) → Ended r → is_ok t ≡ true
  ok_of_accepted (true, s) t e d = let same : s ≡ t = cc in rw (← same) ((d.accepted refl).0)
  ok_of_accepted (false, s) t e d = cc

  decode_loop_total :
      (fuel : ℕ) (s : State) (src : List ℕ)
      → work m s src < fuel
      → Valid s
      → is_ok s ≡ true
      → (r : Bool × State) × (decode_loop m fuel s src ≡ some r) × Ended r
  decode_loop_total zero s src h v o = elim h [ ]
  decode_loop_total (suc fuel) s src h v o = elim (Bool-cases (full s)) [
    | inl f ↦ rw (decode_loop-full fuel s src f) (elim (Bool-cases (at_group s)) [
      | inl g ↦ rw g (
        (true, s),
        refl,
        record { valid = λ e. v; accepted = λ e. (o, inl (f, g)); refused = λ e. cc },
      )
      | inr g ↦ rw g ((false, fail s), refl, Ended-fail s)
    ])
    | inr f ↦ elim (Bool-cases (is_nil src && hungry s)) [
      | inl w ↦ (
        (true, s),
        decode_loop-waits fuel s src f w,
        record { valid = λ e. v; accepted = λ e. (o, inr (f, and-right _ _ w)); refused = λ e. cc },
      )
      | inr w ↦
          let st = step s src v f w in
          rw (decode_loop-steps fuel s st.next src st.rest st.go_on f w st.runs)
            (elim (Bool-cases st.go_on) [
              | inl g ↦ rw g (
                  decode_loop_total fuel st.next st.rest (omega (arith, st.lowers)) (st.keeps g)
                    (st.same_ok ∙ o))
              | inr g ↦ rw g ((false, fail st.next), refl, Ended-fail st.next)
            ])
    ]
  ]

  -- A call of `decode` that its assertion admits stays inside both buffers and returns: true with
  -- the output full between two groups, or with room left and a byte of the source wanted; or
  -- false, and then the decoder is no longer ok.
  pub decode_total :
      (s : State) (src : List ℕ)
      → Valid s
      → is_ok s ≡ true
      → full s ≡ false
      → (r : Bool × State) × (decode m s src ≡ some r) × Ended r
  unfolding decode
  decode_total s src v o f = rw (o, f) (decode_loop_total _ s src (omega arith) v o)

  -- More fuel than work changes nothing.
  pub decode_loop_enough :
      (f g : ℕ) (s : State) (src : List ℕ)
      → work m s src < f
      → work m s src < g
      → Valid s
      → decode_loop m f s src ≡ decode_loop m g s src
  decode_loop_enough zero g s src hf hg v = elim hf [ ]
  decode_loop_enough (suc f) zero s src hf hg v = elim hg [ ]
  decode_loop_enough (suc f) (suc g) s src hf hg v = elim (Bool-cases (full s)) [
    | inl e ↦ rw (decode_loop-full f s src e, decode_loop-full g s src e)
    | inr e ↦ elim (Bool-cases (is_nil src && hungry s)) [
      | inl w ↦ rw (decode_loop-waits f s src e w, decode_loop-waits g s src e w)
      | inr w ↦
          let st = step s src v e w in
          rw
            (
              decode_loop-steps f s st.next src st.rest st.go_on e w st.runs,
              decode_loop-steps g s st.next src st.rest st.go_on e w st.runs,
            )
            (elim (Bool-cases st.go_on) [
              | inl y ↦ rw y (
                  decode_loop_enough f g st.next st.rest (omega (arith, st.lowers))
                    (omega (arith, st.lowers)) (st.keeps y))
              | inr y ↦ rw y
            ])
    ]
  ]

  pub nil-append :
      (a b : List ℕ) (h : Bool) → (is_nil a && h) ≡ false → (is_nil (a ++ b) && h) ≡ false
  nil-append [] [] h e = e
  nil-append [] (y ∷ b) h e = refl
  nil-append (x ∷ a) b h e = refl

  nil_of_waits : (a : List ℕ) (h : Bool) → (is_nil a && h) ≡ true → a ≡ []
  nil_of_waits [] h e = refl
  nil_of_waits (x ∷ a) h e = cc

  decode_loop-append :
      (f g k : ℕ) (s t : State) (a b : List ℕ)
      → Valid s
      → decode_loop m f s a ≡ some (true, t)
      → full t ≡ false
      → work m s (a ++ b) < g
      → work m t b < k
      → decode_loop m g s (a ++ b) ≡ decode_loop m k t b
  decode_loop-append zero g k s t a b v e ft hg hk = cc (decode_loop-zero s a)
  decode_loop-append (suc f) zero k s t a b v e ft hg hk = elim hg [ ]
  decode_loop-append (suc f) (suc g) k s t a b v e ft hg hk = elim (Bool-cases (full s)) [
    | inl y ↦ absurd (
        full_stays s t y ft
          (same_of_accepted (at_group s) s (fail s) t (sym (decode_loop-full f s a y) ∙ e)))
    | inr n ↦ elim (Bool-cases (is_nil a && hungry s)) [
      | inl w ↦
          let ea : a ≡ [] = nil_of_waits a (hungry s) w in
          let et : s ≡ t = same_of_accepted true s s t (sym (decode_loop-waits f s a n w) ∙ e) in
          let hg' : work m t b < suc g = subst (λ x. work m x b < suc g) et (rw ea at hg) in
          rw (ea, et) (decode_loop_enough (suc g) k t b hg' hk (subst Valid et v))
      | inr w ↦
          let st = step s a v n w in
          let e' = sym (decode_loop-steps f s st.next a st.rest st.go_on n w st.runs) ∙ e in
          rw
            (decode_loop-steps g s st.next (a ++ b) (st.rest ++ b) st.go_on n
              (nil-append a b (hungry s) w) (append s a b st.go_on st.next st.rest st.runs))
            (elim (Bool-cases st.go_on) [
              | inl y ↦ rw y (
                  decode_loop-append f g k st.next t st.rest b (st.keeps y) (rw y at e') ft
                    (omega (arith, st.lowers, length-append a b, length-append st.rest b)) hk)
              | inr y ↦ absurd (refused_not_accepted (fail st.next) t (rw y at e'))
            ])
    ]
  ]

  -- Feeding the source in two parts is feeding it at once: a decoder that has taken the first part
  -- and still has room goes on with the second as if it had been given both.
  pub decode-append :
      (s t : State) (a b : List ℕ)
      → Valid s
      → is_ok s ≡ true
      → full s ≡ false
      → decode m s a ≡ some (true, t)
      → full t ≡ false
      → decode m s (a ++ b) ≡ decode m t b
  unfolding decode
  decode-append s t a b v o f e ft =
      let e' : decode_loop m (suc (work m s a)) s a ≡ some (true, t) = rw (o, f) at e in
      let out = decode_loop_total (suc (work m s a)) s a (omega arith) v o in
      let ok_t : is_ok t ≡ true = ok_of_accepted out.0 t (sym out.1 ∙ e') out.2 in
      rw (o, f, ok_t, ft) (decode_loop-append _ _ _ s t a b v e' ft (omega arith) (omega arith))
