-- ===== src/Ghost/Footer.antt =====
-- SPFooter and GhostFooter of GhostFile.cc and GhostFile.hh.
use mkw_sp.Base.{
  ℕ, ◌+◌, ◌/◌, ◌%◌, ◌^◌, List, Option, none, some, Bool, not, ltb, leb, ◌==◌, ◌&&◌, take, drop,
  if◌then◌else◌,
}
use mkw_sp.Base.Words.{add32}
use mkw_sp.Bytes.{byte_at}
use mkw_sp.Ghost.Header.{header_size, is_compressed_at}
use mkw_sp.Ghost.Raw.{bind, slice, load32, main_size, footer_footer, ctgp_magic, sp_magic}

-- m_magic with the member of the union that it selects, by its bytes.
pub data GhostFooter : Type 0 where
  no_footer : GhostFooter
  ctgp : List ℕ → GhostFooter
  sp : List ℕ → GhostFooter

-- The constructor.
unfoldable pub ghost_footer : List ℕ → ℕ → Option GhostFooter
ghost_footer raw size =
    if not (is_compressed_at raw)
    then some GhostFooter.no_footer
    else bind (load32 raw header_size) (λ n.
      let main = main_size n in
      if ltb size (add32 main 8)
      then some GhostFooter.no_footer
      else bind (load32 raw (footer_footer size)) (λ footer_size.
        bind (load32 raw (footer_footer size + 4)) (λ magic.
          if magic == ctgp_magic && footer_size == 0xd0
          then bind (slice raw main 0xd0) (λ bytes. some (GhostFooter.ctgp bytes))
          else if magic == sp_magic && leb 0x48 footer_size
          then bind (slice raw main 0x48) (λ bytes. some (GhostFooter.sp bytes))
          else some GhostFooter.no_footer)))

pub course_sha1 : GhostFooter → Option (List ℕ)
course_sha1 GhostFooter.no_footer = none
course_sha1 (GhostFooter.ctgp bytes) = some (take 20 (drop 0x48 bytes))
course_sha1 (GhostFooter.sp bytes) = some (take 20 (drop 4 bytes))

pub has_speed_mod : GhostFooter → Option Bool
has_speed_mod GhostFooter.no_footer = none
has_speed_mod (GhostFooter.ctgp bytes) = some (leb 4 (byte_at bytes 0xc6))
has_speed_mod (GhostFooter.sp bytes) = some (byte_at bytes 0x44 / 2 ^ 7 % 2 == 1)
