-- ===== src/Ghost/Loaded.antt =====
-- SaveManager::initGhost and loadGhost stay inside their buffers, and what they keep is valid.
use mathlib.Core.Option.{some-injective}
use mkw_sp.Base.{
  ℕ, ◌+◌, ◌-◌, ◌^◌, ◌≤◌, ◌<◌, ◌≡◌, List, [], ◌∷◌, ◌++◌, Option, none, some, true, false, not, ltb,
  leb, ◌==◌, ◌&&◌, length, take, arith, refl, Bool-cases, inl, inr, sym, ap, ◌∙◌, subst,
  if◌then◌else◌,
}
use mkw_sp.Base.Words.{u32, add32}
use mkw_sp.Bytes.{read32}
use mkw_sp.Ghost.Header.{Platform, header_size, is_compressed_at}
use mkw_sp.Ghost.Raw.{
  bind, slice, load32, main_size, footer_footer, ctgp_magic, sp_magic, is_sp_footer_valid,
  is_footer_valid, is_end_valid, is_valid, decompress,
}
use mkw_sp.Ghost.Footer.{GhostFooter, ghost_footer}
use mkw_sp.Ghost.Save.{Ghost, init_ghost, load_ghost, max_ghost_count}
use mkw_sp.Ghost.Steps.{
  Returns, bind_total, and_then-true, if_total, slice_total, length-slice, slice_lem, load32_total,
  load32_lem,
}
use mkw_sp.Ghost.Bounds.{is_size_valid-fits, is_valid_total}
use mkw_sp.Ghost.Accepted.{is_valid-Accepted, Unwrapped}
use mkw_sp.Ghost.Unpack.{Unpacked, bind-Unpacked, decompress_total, is_compressed_at-slice}

is_sp_footer_valid-fits :
    (p : Platform) (raw : List ℕ) (size main footer_size : ℕ)
    → is_sp_footer_valid p raw size main footer_size ≡ some true
    → size ≡ u32 (main + footer_size + 8 + 4)
unfolding is_sp_footer_valid
is_sp_footer_valid-fits p raw size main footer_size e = ground (arith, e)

-- The footer that an accepted file announces is inside it.
footer-fits :
    (p : Platform) (raw : List ℕ) (size main fs magic : ℕ)
    → is_footer_valid p raw size main ≡ some true
    → ltb size (add32 main 8) ≡ false
    → load32 raw (footer_footer size) ≡ some fs
    → load32 raw (footer_footer size + 4) ≡ some magic
    → ((magic == ctgp_magic && fs == 0xd0) ≡ true → size ≡ u32 (main + 0xd0 + 4))
      × ((magic == ctgp_magic && fs == 0xd0) ≡ false
          → (magic == sp_magic && leb 0x48 fs) ≡ true
          → size ≡ u32 (main + fs + 8 + 4))
unfolding is_footer_valid
footer-fits p raw size main fs magic e room ef em = (
  λ c. ground (arith, rw (is_footer_valid, room, ef, em, c) at e),
  λ c s. is_sp_footer_valid-fits p raw size main fs (rw (is_footer_valid, room, ef, em, c, s) at e),
)

end-footer :
    (p : Platform) (raw : List ℕ) (size n : ℕ)
    → is_end_valid p raw size true ≡ some true
    → load32 raw header_size ≡ some n
    → is_footer_valid p raw size (main_size n) ≡ some true
unfolding is_end_valid
end-footer p raw size n e en = (and_then-true _ _ (rw (is_end_valid, en) at e)).1

-- The sum of the sizes in the 32-bit test of an SP footer does not wrap.
abbrev pub FooterUnwrapped : List ℕ → ℕ → Type 0
FooterUnwrapped raw size =
    read32 raw (size - 8) ≡ sp_magic
    → main_size (read32 raw header_size) + read32 raw (size - 12) + 12 < 2 ^ 32

-- An SP footer of an accepted file has its 0x48 bytes inside the file.
sp-fits :
    (raw : List ℕ) (size main fs magic : ℕ)
    → ((magic == sp_magic && leb 0x48 fs) ≡ true → size ≡ u32 (main + fs + 8 + 4))
    → (magic == sp_magic && leb 0x48 fs) ≡ true
    → (magic ≡ sp_magic → main + fs + 12 < 2 ^ 32)
    → main + 0x48 ≤ size
sp-fits raw size main fs magic fits y u =
    let m : magic ≡ sp_magic = ground (arith, y) in
    let wraps = u m in let sized = fits y in ground (arith, y, wraps, sized)

-- The constructor of GhostFooter reads inside the `size` bytes of a file of at most 0x2800 bytes
-- that IsValid accepts, if the sizes in it do not wrap.
pub ghost_footer_total :
    (p : Platform) (raw : List ℕ) (size : ℕ)
    → size ≤ length raw
    → size ≤ 0x2800
    → (is_compressed_at raw ≡ true → read32 raw header_size + 0x90 < 2 ^ 32)
    → (is_compressed_at raw ≡ true → FooterUnwrapped raw size)
    → is_valid p raw size ≡ some true
    → (footer : GhostFooter) × (ghost_footer raw size ≡ some footer)
unfolding ghost_footer
ghost_footer_total p raw size l small u fu v =
    let a = is_valid-Accepted p raw size v in
    elim (Bool-cases (is_compressed_at raw)) [
      | inr c ↦ (GhostFooter.no_footer, ground (arith, c))
      | inl c ↦
          rw (ghost_footer, c)
            (let fits = is_size_valid-fits raw size (u c) (rw c at a.sized) in
              bind_total _ _ (load32_total raw header_size (omega (arith, fits.1))) (λ n en.
                let en' = (load32_lem raw header_size n en).0 in
                let main = main_size n in
                if_total (ltb size (add32 main 8)) _ _ (λ _. (GhostFooter.no_footer, refl))
                  (λ room.
                    bind_total _ _ (load32_total raw (footer_footer size) (omega (arith, fits.1)))
                      (λ fs ef.
                        bind_total _ _
                          (load32_total raw (footer_footer size + 4) (omega (arith, fits.1)))
                          (λ magic em.
                            let h =
                              footer-fits p raw size main fs magic
                                (end-footer p raw size n (rw c at a.end) en) room ef em in
                            let em' : magic ≡ read32 raw (size - 8) =
                              (load32_lem raw (footer_footer size + 4) magic em).0
                              ∙ ap (read32 raw) (omega (arith, fits.1)) in
                            let fs' : fs ≡ read32 raw (size - 12) =
                              (load32_lem raw (footer_footer size) fs ef).0
                              ∙ ap (read32 raw) (omega (arith, fits.1)) in
                            if_total (magic == ctgp_magic && fs == 0xd0) _ _
                              (λ y.
                                bind_total _ _
                                  (slice_total raw main 0xd0 (omega (arith, h.0 y, fits.1, en')))
                                  (λ bytes _. (GhostFooter.ctgp bytes, refl)))
                              (λ no_ctgp.
                                if_total (magic == sp_magic && leb 0x48 fs) _ _
                                  (λ y.
                                    bind_total _ _
                                      (slice_total raw main 0x48 (
                                        omega (
                                          arith,
                                          l,
                                          sp-fits raw size main fs magic (h.1 no_ctgp) y
                                              (λ m. rw (fs', en') (fu c (sym em' ∙ m))),
                                        )))
                                      (λ bytes _. (GhostFooter.sp bytes, refl)))
                                  (λ _. (GhostFooter.no_footer, refl))))))))
    ]

-- A ghost as the race is given it.
pub record Playable (p : Platform) (ghost : List ℕ) : Type 0 where
  pub long : length ghost ≡ 0x2800
  pub plain : is_compressed_at ghost ≡ false
  pub valid : is_valid p ghost 0x2800 ≡ some true

abbrev Loads : Platform → Option (Option (List ℕ)) → Type 0
Loads p o =
    (r : Option (List ℕ)) × (o ≡ some r) × ((ghost : List ℕ) → r ≡ some ghost → Playable p ghost)

bind-Loads :
    {A : Type 0} (p : Platform) (o : Option A) (k : A → Option (Option (List ℕ)))
    → Returns o
    → ((a : A) → o ≡ some a → Loads p (k a))
    → Loads p (bind o k)
bind-Loads p none k (a, e) h = cc
bind-Loads p (some a) k r h = h a refl

unpack_file :
    (p : Platform) (raw : List ℕ) (size : ℕ)
    → length raw ≡ 0x2800
    → size ≤ 0x2800
    → (is_compressed_at raw ≡ true → Unwrapped raw)
    → Unpacked (
        if is_compressed_at raw
        then bind (is_valid p raw size) (λ valid. if not valid then some none else decompress p raw)
        else bind (slice raw 0 0x2800) (λ bytes. some (some bytes)))
unpack_file p raw size l small u = elim (Bool-cases (is_compressed_at raw)) [
  | inl c ↦ rw c (
      bind-Unpacked (is_valid p raw size) _
        (is_valid_total p raw size (omega (arith, l)) (omega arith) (λ y. (u y).source))
        (λ valid e. elim (Bool-cases valid) [
          | inl y ↦ rw y (decompress_total p raw size (omega (arith, l)) (u c) (e ∙ ap some y))
          | inr n ↦ rw n (none, refl, λ dst f. cc)
        ]))
  | inr c ↦ rw c (
      bind-Unpacked (slice raw 0 0x2800) _ (slice_total raw 0 0x2800 (omega (arith, l))) (λ bytes e.
        (
          some bytes,
          refl,
          λ dst d.
              subst (λ x. (length x ≡ 0x2800) × (is_compressed_at x ≡ false)) (some-injective _ _ d)
                (
                  length-slice raw bytes 0 0x2800 e,
                  is_compressed_at-slice raw bytes 0x2800 e (omega arith) ∙ c,
                ),
        )))
]

play :
    (p : Platform) (r : Option (List ℕ))
    → ((dst : List ℕ) → r ≡ some dst → (length dst ≡ 0x2800) × (is_compressed_at dst ≡ false))
    → Loads p (elim r [
      | none ↦ some none
      | some ghost ↦
          bind (is_valid p ghost 0x2800) (λ valid. some (if valid then some ghost else none))
    ])
play p none h = (none, refl, λ ghost e. cc)
play p (some ghost) h =
    let (l, plain) = h ghost refl in
    bind-Loads p (is_valid p ghost 0x2800) _
      (is_valid_total p ghost 0x2800 (omega (arith, l)) (omega arith) (λ y. cc))
      (λ valid e. elim (Bool-cases valid) [
        | inl y ↦ rw y (
          some ghost,
          refl,
          λ g d.
              subst (Playable p) (some-injective _ _ d)
                (record { long = l; plain = plain; valid = e ∙ ap some y }),
        )
        | inr n ↦ rw n (none, refl, λ g d. cc)
      ])

-- loadGhost stays inside its buffers, for any contents of the buffer of 0x2800 bytes in which the
-- sizes do not wrap, and gives the race only a ghost that is not compressed and passes IsValid.
pub load_ghost_total :
    (p : Platform) (raw : List ℕ) (size : ℕ)
    → length raw ≡ 0x2800
    → size ≤ 0x2800
    → (is_compressed_at raw ≡ true → Unwrapped raw)
    → (r : Option (List ℕ)) × (load_ghost p (some (raw, size)) ≡ some r)
      × ((ghost : List ℕ) → r ≡ some ghost → Playable p ghost)
unfolding load_ghost
load_ghost_total p raw size l small u =
    let (r, e, h) = unpack_file p raw size l small u in
    bind-Loads p _ _ (r, e)
      (λ r' e'. play p r' (
        subst
          (λ x.
            (dst : List ℕ) → x ≡ some dst → (length dst ≡ 0x2800) × (is_compressed_at dst ≡ false))
          (some-injective _ _ (sym e ∙ e')) h))

-- How initGhost leaves the list of ghosts.
pub data Kept (p : Platform) (id : ℕ) (raw : List ℕ) (size : ℕ) (ghosts : List Ghost)
    : List Ghost → Type 0 where
  same : Kept p id raw size ghosts ghosts
  added :
      (footer : GhostFooter)
      → is_valid p raw size ≡ some true
      → ghost_footer raw size ≡ some footer
      → length ghosts < max_ghost_count
      → Kept p id raw size ghosts
          (ghosts ++ (record { header = take header_size raw; footer = footer; id = id } ∷ []))

-- initGhost stays inside its buffers, for any contents of the buffer of 0x2800 bytes in which the
-- sums of sizes do not wrap: if the file is compressed, 0x90 and the size of its stream, and where
-- it also has the magic of an SP footer before its last 4 bytes, the size of what is before the
-- footer, that of the footer and 12. It leaves the ghosts as they are, or it adds one with the
-- header and the footer of the file, if the file passes IsValid and there are less than 4096 ghosts.
pub init_ghost_total :
    (p : Platform) (id : ℕ) (raw : List ℕ) (size : ℕ) (ghosts : List Ghost)
    → length raw ≡ 0x2800
    → size ≤ 0x2800
    → (is_compressed_at raw ≡ true → read32 raw header_size + 0x90 < 2 ^ 32)
    → (is_compressed_at raw ≡ true → FooterUnwrapped raw size)
    → (r : List Ghost) × (init_ghost p id (some (raw, size)) ghosts ≡ some r)
      × Kept p id raw size ghosts r
unfolding init_ghost
init_ghost_total p id raw size ghosts l small u fu =
    elim (Bool-cases (leb max_ghost_count (length ghosts))) [
      | inl y ↦ (ghosts, ground (arith, y), Kept.same)
      | inr room ↦
          let (valid, e) = is_valid_total p raw size (omega (arith, l)) (omega arith) u in
          elim (Bool-cases valid) [
            | inr n ↦ (ghosts, ground (arith, room, e, n), Kept.same)
            | inl y ↦
                let (header, eh) = slice_total raw 0 header_size (omega (arith, l)) in
                let (footer, ef) =
                  ghost_footer_total p raw size (omega (arith, l)) small u fu (e ∙ ap some y) in
                (
                  ghosts
                      ++ (record { header = take header_size raw; footer = footer; id = id } ∷ []),
                  ground (arith, room, e, y, ef, eh, (slice_lem raw 0 header_size header eh).0),
                  Kept.added footer (e ∙ ap some y) ef (ground (arith, room)),
                )
          ]
    ]
