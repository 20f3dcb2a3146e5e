-- ===== src/DecompLoader/Tests.antt =====
-- The theorem about DecompLoader.cc at a file of eight literals.
use mkw_sp.Base.{ℕ, List, Option, some, false, [], Bool, take, drop, replicate, true}
use mkw_sp.Decoder.Yaz.Tests.{literals}
use mkw_sp.DecompLoader.{File, Codec, Codecs}
use mkw_sp.DecompLoader.Instances.{yaz_codec, lz77_codec}

abbrev test_alloc : ℕ → List ℕ
test_alloc n = replicate n 0

-- In place of the other two decoders one that accepts nothing, with a header of 16 bytes.
abbrev refuses : Codec
refuses = record {
  methods = record {
    State = Bool;
    is_ok = λ s. s;
    is_done = λ s. false;
    decode = λ s src. some (false, s);
  };
  construct = λ src. true;
  header_size = λ s. 16;
  release = λ s. [];
}

abbrev test_codecs : Codecs
test_codecs = record {
  yaz = yaz_codec test_alloc;
  lz77 = lz77_codec test_alloc;
  wbz = refuses;
  lzma = refuses;
  is_wbz = λ src. false;
}

abbrev test_file : File
test_file = record { size = 25; read = λ n offset. some (take n (drop offset literals)) }
