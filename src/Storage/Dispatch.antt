-- ===== src/Storage/Dispatch.antt =====
-- Storage.cc: Dispatch, and what its calls leave behind.
use mkw_sp.Base.{List, [], ◌∷◌, ◌≡◌, Bool, true, false, Bool-cases, inl, inr, if◌then◌else◌}
use mkw_sp.Storage.{Drivers, StorageType, System, M, ◌>>=◌, pure, call, dispatch}

abbrev pub All : {A : Type 0} → (A → Type 0) → List A → Type 0
All P [] = Unit
All P (x ∷ xs) = P x × All P xs

module _ (v : Drivers) (Safe : v.Disk → Type 0) where
  open v use {Disk}

  -- All states before the present one were safe, and a result fits the present one.
  abbrev pub Ends : {A : Type 0} → (A → Disk → Type 0) → A × System v → Type 0
  Ends Q r = All Safe r.1.past × Q r.0 r.1.now

  abbrev pub Good : (Disk → Type 0) → System v → Type 0
  Good P s = All Safe s.past × P s.now

  module _ {A : Type 0} (P : Disk → Type 0) (Q : A → Disk → Type 0)
      (safe : (d : Disk) → P d → Safe d) where
    pub call-Ends :
        (f : Disk → A × Disk) (s : System v)
        → Good P s
        → ((d : Disk) → P d → Q (f d).0 (f d).1)
        → Ends Q (call v f s)
    call-Ends f s g h = ((safe s.now g.1, g.0), h s.now g.1)

    try-Ends :
        (test : A → Bool) (f : Disk → A × Disk) (m : M v A) (s : System v)
        → Good P s
        → ((d : Disk) → P d → test (f d).0 ≡ true → Q (f d).0 (f d).1)
        → ((d : Disk) → P d → test (f d).0 ≡ false → P (f d).1)
        → ((s' : System v) → Good P s' → Ends Q (m s'))
        → Ends Q (◌>>=◌ v (call v f) (λ a. if test a then pure v a else m) s)
    try-Ends test f m s g done refused next = elim (Bool-cases (test (f s.now).0)) [
      | inl y ↦ rw y ((safe s.now g.1, g.0), done s.now g.1 y)
      | inr n ↦ rw n (next (call v f s).1 ((safe s.now g.1, g.0), refused s.now g.1 n))
    ]

    pub dispatch-Ends :
        (test : A → Bool) (f : StorageType → Disk → A × Disk) (s : System v)
        → Good P s
        → ((t : StorageType) (d : Disk) → P d → Q (f t d).0 (f t d).1)
        → ((t : StorageType) (d : Disk) → P d → test (f t d).0 ≡ false → P (f t d).1)
        → Ends Q (dispatch v test f s)
    unfolding dispatch
    dispatch-Ends test f s g done refused =
        let step =
          λ (t : StorageType) (d : Disk) (p : P d) (_ : test (f t d).0 ≡ true). done t d p in
        try-Ends test (f StorageType.net) _ s g (step StorageType.net) (refused StorageType.net)
          (λ s1 g1.
            try-Ends test (f StorageType.fat) _ s1 g1 (step StorageType.fat)
              (refused StorageType.fat)
              (λ s2 g2.
                try-Ends test (f StorageType.nand_archive) _ s2 g2 (step StorageType.nand_archive)
                  (refused StorageType.nand_archive)
                  (λ s3 g3. call-Ends (f StorageType.dvd) s3 g3 (done StorageType.dvd))))
