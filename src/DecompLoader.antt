-- ===== src/DecompLoader.antt =====
-- payload/sp/storage/DecompLoader.cc: one thread reads a file in chunks and offers them over an
-- Exchange, the other one decodes them. The values of the exchange are a list, in order.
pub mod Instances
pub mod Loop
pub mod Whole
pub mod Ranges
pub mod Reader
mod Tests
use mkw_sp.Base.{
  ℕ, zero, suc, ◌-◌, ◌+◌, min, List, [], ◌∷◌, Option, none, some, Bool, true, false, not, ltb, ◌&&◌,
  length, drop, if◌then◌else◌,
}
use mkw_sp.Base.Words.{u32, add32}
use mkw_sp.Bytes.{read32, read32_le}
use mkw_sp.Decoder.{Machine, decode}
use mkw_sp.Decoder.Yaz
use mkw_sp.Decoder.Lz77

-- What the reading thread passes to `updateExchange.right`: -1, the size of the chunk that it has
-- read into a buffer, or 0.
pub data Update : Type 0 where
  failed : Update
  chunk : List ℕ → Update
  end : Update

-- An open file. `read` gives the bytes of a size at an offset, or false.
pub record File : Type 0 where
  pub size : ℕ
  pub read : ℕ → ℕ → Option (List ℕ)

abbrev pub buffer_size : ℕ
buffer_size = 0x20000

-- The loop of Read, with fuel.
unfoldable pub read_loop : ℕ → File → ℕ → ℕ → Option (List Update)
read_loop zero file size offset = none
read_loop (suc fuel) file size offset =
    if not (ltb offset size)
    then some (Update.end ∷ [])
    else elim (file.read (min (size - offset) buffer_size) offset) [
      | none ↦ some (Update.failed ∷ [])
      | some bytes ↦ elim (read_loop fuel file size (add32 offset buffer_size)) [
        | none ↦ none
        | some updates ↦ some (Update.chunk bytes ∷ updates)
      ]
    ]

-- Read, with the file that Open gives. The fuel is one more than the chunks.
unfoldable pub read_file : ℕ → Option File → ℕ → ℕ → Option (List Update)
read_file fuel none max_size offset = some (Update.failed ∷ [])
read_file fuel (some file) max_size offset =
    if ltb file.size offset
    then some (Update.failed ∷ [])
    else read_loop fuel file (min file.size (offset + max_size)) (u32 offset)

-- The virtual methods of Decoder that the loop of Load calls; `decode` gives none where its reads
-- or writes leave their buffers.
pub record Methods : Type 1 where
  pub State : Type 0
  pub is_ok : State → Bool
  pub is_done : State → Bool
  pub decode : State → List ℕ → Option (Bool × State)

-- A subclass of Decoder with its constructor, headerSize and release; what release gives is the
-- output buffer.
pub record Codec : Type 1 where
  pub methods : Methods
  pub construct : List ℕ → methods.State
  pub header_size : methods.State → ℕ
  pub release : methods.State → List ℕ

-- YAZDecoder and LZ77Decoder, whose `decode` is the loop of Decoder over a machine.
pub record MachineCodec : Type 1 where
  pub machine : Machine
  pub construct : List ℕ → machine.State
  pub header_size : machine.State → ℕ
  pub release : machine.State → List ℕ

abbrev pub methods_of : Machine → Methods
methods_of m = record { State = m.State; is_ok = m.is_ok; is_done = m.full; decode = decode m }

abbrev pub codec_of : MachineCodec → Codec
codec_of c = record {
  methods = methods_of c.machine;
  construct = c.construct;
  header_size = c.header_size;
  release = c.release;
}

-- The loop of Load, from its test on. `none` also stands for a thread that waits for an update that
-- does not come; an empty result is a return of false.
unfoldable pub load_loop : (m : Methods) → m.State → List ℕ → List Update → Option (Option m.State)
load_loop m s src [] = none
load_loop m s src (u ∷ updates) =
    if m.is_ok s && not (m.is_done s)
    then elim (m.decode s src) [
      | none ↦ none
      | some (go_on, t) ↦ elim go_on [
        | false ↦ some none
        | true ↦ elim u [
          | failed ↦ some none
          | end ↦ some (if m.is_done t then some t else none)
          | chunk src' ↦ load_loop m t src' updates
        ]
      ]
    ]
    else some none

-- Load with the chosen decoder, from its construction on. A header that is longer than the chunk
-- makes srcSize negative; a decoder that takes it as a size then reads behind the buffer: none.
unfoldable pub load_codec : Codec → List ℕ → List Update → Option (Option (List ℕ))
load_codec c src updates =
    let s = c.construct src in
    if ltb (length src) (c.header_size s) && (c.methods.is_ok s && not (c.methods.is_done s))
    then none
    else elim (load_loop c.methods s (drop (c.header_size s) src) updates) [
      | none ↦ none
      | some none ↦ some none
      | some (some t) ↦ some (some (c.release t))
    ]

-- The four decoders. WBZDecoder and LZMADecoder are any subclasses.
pub record Codecs : Type 1 where
  pub yaz : MachineCodec
  pub lz77 : MachineCodec
  pub wbz : Codec
  pub lzma : Codec
  -- WBZDecoder::CheckMagic on the first 8 bytes.
  pub is_wbz : List ℕ → Bool

-- The decoder that the magic of the first chunk asks for.
pub choose : Codecs → List ℕ → Codec
choose c src =
    if Yaz.check_magic (read32 src 0)
    then codec_of c.yaz
    else if Lz77.check_magic (read32_le src 0)
    then codec_of c.lz77
    else if c.is_wbz src
    then c.wbz
    else c.lzma

-- Load.
pub load : Codecs → List Update → Option (Option (List ℕ))
unfolding choose
load c [] = none
load c (Update.failed ∷ updates) = some none
load c (Update.end ∷ updates) = some none
load c (Update.chunk src ∷ updates) =
    if ltb (length src) 4 then some none else load_codec (choose c src) src updates
