-- ===== src/Ghost/Save.antt =====
-- SaveManager.cc: initGhost and loadGhost, over GhostFile.cc.
use mkw_sp.Base.{ℕ, List, [], ◌∷◌, ◌++◌, Option, none, some, not, leb, length, if◌then◌else◌}
use mkw_sp.Ghost.Header.{Platform, header_size, is_compressed_at}
use mkw_sp.Ghost.Raw.{bind, slice, is_valid, decompress}
use mkw_sp.Ghost.Footer.{GhostFooter, ghost_footer}

-- One ghost of m_rawGhostHeaders, m_ghostFooters and m_ghostIds.
pub record Ghost : Type 0 where
  pub header : List ℕ
  pub footer : GhostFooter
  pub id : ℕ

abbrev pub max_ghost_count : ℕ
max_ghost_count = 4096

-- initGhost on the first m_ghostCount ghosts. The file is what FastReadFile leaves in the buffer
-- of 0x2800 bytes, with its size, or none.
unfoldable pub init_ghost : Platform → ℕ → Option (List ℕ × ℕ) → List Ghost → Option (List Ghost)
init_ghost p id file ghosts =
    if leb max_ghost_count (length ghosts) then some ghosts else elim file [
      | none ↦ some ghosts
      | some (raw, size) ↦ bind (is_valid p raw size) (λ valid.
          if not valid
          then some ghosts
          else bind (slice raw 0 header_size) (λ header. bind (ghost_footer raw size) (λ footer.
            some (ghosts ++ (record { header = header; footer = footer; id = id } ∷ [])))))
    ]

-- loadGhost: the ghost that the race is given, or none inside where it returns false.
unfoldable pub load_ghost : Platform → Option (List ℕ × ℕ) → Option (Option (List ℕ))
load_ghost p none = some none
load_ghost p (some (raw, size)) =
    let unpacked : Option (Option (List ℕ)) =
      if is_compressed_at raw
      then bind (is_valid p raw size) (λ valid. if not valid then some none else decompress p raw)
      else bind (slice raw 0 0x2800) (λ bytes. some (some bytes)) in
    bind unpacked (λ r. elim r [
      | none ↦ some none
      | some ghost ↦
          bind (is_valid p ghost 0x2800) (λ valid. some (if valid then some ghost else none))
    ])
