-- ===== src/Ghost/Write.antt =====
-- GhostFile::write of GhostFile.cc, over Yaz_encode.
use mkw_sp.Base.{
  ℕ, ◌+◌, ◌-◌, ◌*◌, ◌/◌, ◌%◌, ◌^◌, List, ◌++◌, Option, none, some, length, take, drop, set,
  replicate, leb, if◌then◌else◌,
}
use mkw_sp.Base.Words.{u16, u32}
use mkw_sp.Bytes.{byte_at, write16}
use mkw_sp.YazEncoder.{bind, store32, encode}
use mkw_sp.Ghost.Header.{Platform, header_size}
use mkw_sp.Ghost.Raw.{sp_magic}

-- What `write` takes from the ghost and the game: writeHeader on the header's bytes, m_inputs with
-- its size, and the bytes of SPFooter::s_instance.
pub record Source : Type 0 where
  pub write_header : List ℕ → List ℕ
  pub inputs : List ℕ
  pub inputs_size : ℕ
  pub footer : List ℕ

abbrev pub expert_staff : ℕ
expert_staff = 0x26

-- header->type, header->inputsSize and header->isCompressed.
unfoldable pub set_members : ℕ → ℕ → List ℕ → List ℕ
set_members ghost_type inputs_size header =
    let high = byte_at header 0x0c in
    let low = byte_at header 0x0d in
    write16
      (set
        (set header 0x0c (high / 2 ^ 4 * 2 ^ 4 + 2 ^ 3 + high / 2 % 2 ^ 2 * 2 + ghost_type / 2 ^ 6))
        0x0d (ghost_type % 2 ^ 6 * 2 ^ 2 + low % 2 ^ 2))
      0x0e (u16 inputs_size)

-- The bytes at an offset are replaced.
unfoldable pub blit : List ℕ → ℕ → List ℕ → Option (List ℕ)
blit raw offset bytes =
    if leb (offset + length bytes) (length raw)
    then some (take offset raw ++ bytes ++ drop (offset + length bytes) raw)
    else none

abbrev pub inputs_room : ℕ
inputs_room = 0x2800 - (header_size + 3 * 4 + 0x48 + 8)

-- The checksum of the bytes before an offset is stored there.
unfoldable pub store_crc : Platform → List ℕ → ℕ → Option (List ℕ)
store_crc p raw offset = store32 raw offset (p.crc32 (take offset raw))

-- `write` from the encoded inputs on: the size, and the file in its buffer.
unfoldable pub finish_file : Platform → List ℕ → List ℕ → ℕ → Option (ℕ × List ℕ)
finish_file p footer raw n =
    let aligned = u32 (n + 3) / 4 * 4 in
    let main = header_size + 4 + aligned + 4 in
    let size = main + 0x48 + 8 + 4 in
    bind (store32 raw header_size aligned) (λ raw1. bind (store_crc p raw1 (main - 4)) (λ raw2.
      bind (blit raw2 main footer) (λ raw3. bind (store32 raw3 (main + 0x48) 0x48) (λ raw4.
        bind (store32 raw4 (main + 0x48 + 4) sp_magic)
          (λ raw5. bind (store_crc p raw5 (size - 4)) (λ raw6. some (size, raw6)))))))

-- `write`; none inside is the size 0.
unfoldable pub write : Platform → Source → Option (Option (ℕ × List ℕ))
write p s =
    let header =
      set_members expert_staff s.inputs_size (s.write_header (replicate header_size 0)) in
    let raw = header ++ replicate (0x2800 - header_size) 0 in
    bind (encode s.inputs s.inputs_size inputs_room (drop (header_size + 4) raw)) (λ r. elim r [
      | none ↦ some none
      | some (n, area) ↦
          bind (finish_file p s.footer (take (header_size + 4) raw ++ area) n)
            (λ out. some (some out))
    ])
