-- ===== src/DecompLoader/Loop.antt =====
-- DecompLoader.cc: the loop of Load over all that the reading thread offers.
use mathlib.Core.Option.{some-injective}
use mkw_sp.Base.{
  ℕ, ◌≡◌, List, [], ◌∷◌, ◌++◌, append-nil, Option, none, some, Bool, true, false, not, ◌&&◌, refl,
  sym, ap, ◌∙◌, arith, if◌then◌else◌, Bool-cases, inl, inr,
}
use mkw_sp.Decoder.{Machine, decode}
use mkw_sp.Decoder.Laws.{Laws, Ended, decode_total, decode-append}
use mkw_sp.DecompLoader.{Update, failed, chunk, end, methods_of, load_loop}

-- The updates of a reading thread that come to an end, and the bytes that they carry; none if
-- reading fails.
pub data Offers : Option (List ℕ) → List Update → Type 0 where
  ends : Offers (some []) (Update.end ∷ [])
  fails : Offers none (Update.failed ∷ [])
  carries :
      {xs src : List ℕ} {updates : List Update}
      → Offers (some xs) updates
      → Offers (some (src ++ xs)) (Update.chunk src ∷ updates)
  carries_part :
      {src : List ℕ} {updates : List Update}
      → Offers none updates
      → Offers none (Update.chunk src ∷ updates)

module _ {m : Machine} (l : Laws m) where
  open l use {Valid}

  -- The result of the loop: if it succeeds, the source ahead and all that is offered decode at once.
  pub record Loaded (s : m.State) (src : List ℕ) (o : Option (List ℕ)) (r : Option m.State)
      : Type 0 where
    pub room : (t : m.State) → r ≡ some t → (m.is_ok s ≡ true) × (m.full s ≡ false)
    pub whole :
        (t : m.State)
        → r ≡ some t
        → (xs : List ℕ) × (o ≡ some xs)
          × (decode m s (src ++ xs) ≡ some (true, t))
          × (m.full t ≡ true)

  abbrev pub Loads : m.State → List ℕ → Option (List ℕ) → Option (Option m.State) → Type 0
  Loads s src o q = (r : Option m.State) × (q ≡ some r) × Loaded s src o r

  Loaded-none : (s : m.State) (src : List ℕ) (o : Option (List ℕ)) → Loaded s src o none
  Loaded-none s src o = record { room = λ t e. cc; whole = λ t e. cc }

  module _ (s t : m.State) (src : List ℕ) (v : Valid s) (k : m.is_ok s ≡ true)
      (n : m.full s ≡ false) (d : decode m s src ≡ some (true, t)) where
    Loaded-end : (b : Bool) → m.full t ≡ b → Loaded s src (some []) (if b then some t else none)
    Loaded-end true f = record {
      room = λ t' e. (k, n);
      whole = λ t' e. (
        [],
        refl,
        ap (decode m s) (append-nil src) ∙ d ∙ ap (λ x. some (true, x)) (some-injective _ _ e),
        ap m.full (sym (some-injective _ _ e)) ∙ f,
      );
    }
    Loaded-end false f = Loaded-none s src (some [])

    Loaded-chunk :
        (src' xs : List ℕ) (r : Option m.State)
        → Loaded t src' (some xs) r
        → Loaded s src (some (src' ++ xs)) r
    Loaded-chunk src' xs r ld = record {
      room = λ t' e. (k, n);
      whole = λ t' e.
          let (ys, same, dec, f) = ld.whole t' e in
          (
            src' ++ xs,
            refl,
            decode-append l s t src (src' ++ xs) v k n d ((ld.room t' e).1)
                ∙ ap (λ x. decode m t (src' ++ x)) (some-injective _ _ same)
                ∙ dec,
            f,
          );
    }

    Loaded-part : (src' : List ℕ) (r : Option m.State) → Loaded t src' none r → Loaded s src none r
    Loaded-part src' r ld = record {
      room = λ t' e. (k, n);
      whole = λ t' e. let (ys, same, dec, f) = ld.whole t' e in cc same;
    }

    Loads-update :
        (o : Option (List ℕ)) (u : Update) (updates : List Update)
        → Offers o (u ∷ updates)
        → ((src' : List ℕ) (o' : Option (List ℕ))
            → Offers o' updates
            → Loads t src' o' (load_loop (methods_of m) t src' updates))
        → Loads s src o (elim u [
          | failed ↦ some none
          | end ↦ some (if m.full t then some t else none)
          | chunk src' ↦ load_loop (methods_of m) t src' updates
        ])
    Loads-update o u updates Offers.ends h = (_, refl, Loaded-end (m.full t) refl)
    Loads-update o u updates Offers.fails h = (none, refl, Loaded-none s src none)
    Loads-update o u updates (Offers.carries {xs = xs} {src = src'} q) h =
        let (r, e, ld) = h src' (some xs) q in (r, e, Loaded-chunk src' xs r ld)
    Loads-update o u updates (Offers.carries_part {src = src'} q) h =
        let (r, e, ld) = h src' none q in (r, e, Loaded-part src' r ld)

  load_loop-closed :
      (s : m.State) (src : List ℕ) (u : Update) (updates : List Update)
      → (m.is_ok s && not (m.full s)) ≡ false
      → load_loop (methods_of m) s src (u ∷ updates) ≡ some none
  unfolding load_loop
  load_loop-closed s src u updates n = rw (load_loop, n) refl

  load_loop-refused :
      (s t : m.State) (src : List ℕ) (u : Update) (updates : List Update)
      → decode m s src ≡ some (false, t)
      → load_loop (methods_of m) s src (u ∷ updates) ≡ some none
  unfolding load_loop
  load_loop-refused s t src u updates e = elim (Bool-cases (m.is_ok s && not (m.full s))) [
    | inl y ↦ rw (load_loop, y, e) refl
    | inr n ↦ load_loop-closed s src u updates n
  ]

  Loads-after :
      (s : m.State) (src : List ℕ) (o : Option (List ℕ)) (u : Update) (updates : List Update)
      → Offers o (u ∷ updates)
      → Valid s
      → m.is_ok s ≡ true
      → m.full s ≡ false
      → (x : Bool × m.State) → decode m s src ≡ some x
      → Ended l x
      → ((t : m.State) (src' : List ℕ) (o' : Option (List ℕ))
          → Offers o' updates
          → Valid t
          → Loads t src' o' (load_loop (methods_of m) t src' updates))
      → Loads s src o (load_loop (methods_of m) s src (u ∷ updates))
  unfolding load_loop
  Loads-after s src o u updates q v k f (true, t) e d h =
      rw (load_loop, k, f, e)
        (Loads-update s t src v k f e o u updates q (λ src' o' q'. h t src' o' q' (d.valid refl)))
  Loads-after s src o u updates q v k f (false, t) e d h =
      (none, load_loop-refused s t src u updates e, Loaded-none s src o)

  -- The loop of Load over the updates of a thread that comes to an end returns.
  pub load_loop-Loads :
      (s : m.State) (src : List ℕ) (o : Option (List ℕ)) (updates : List Update)
      → Offers o updates
      → Valid s
      → Loads s src o (load_loop (methods_of m) s src updates)
  load_loop-Loads s src o [] h v = elim h [ ]
  load_loop-Loads s src o (u ∷ updates) h v = elim (Bool-cases (m.is_ok s && not (m.full s))) [
    | inr n ↦ (none, load_loop-closed s src u updates n, Loaded-none s src o)
    | inl y ↦
        let k : m.is_ok s ≡ true = ground (arith, y) in
        let f : m.full s ≡ false = ground (arith, y) in
        let (x, e, d) = decode_total l s src v k f in
        Loads-after s src o u updates h v k f x e d
          (λ t src' o' q w. load_loop-Loads t src' o' updates q w)
  ]
