-- ===== src/YazEncoder/Tests.antt =====
-- Yaz_encode at five equal bytes: a literal and one reference.
use mkw_sp.Base.{
  zero, suc, ℕ, ◌≡◌, List, [], ◌∷◌, ◌++◌, Option, some, replicate, arith, refl, get_or, take, ◌<◌,
  suc,
}
use mkw_sp.Bytes.{write16, write32}
use mkw_sp.YazEncoder.{
  store, store16, store32, match_from, find_from, find_best, open_group, emit_literal, emit_ref,
  encode_step, encode_loop, encode,
}
use mkw_sp.Decoder.Yaz.{decode_static}
use mkw_sp.YazEncoder.Roundtrip.{decode-encode_total}
use mkw_sp.YazEncoder.Total.{Encoded, encode_total}

abbrev five_bytes : List ℕ
five_bytes = replicate 5 7

abbrev five_encoded : List ℕ
five_encoded =
    (0x59 ∷ 0x61 ∷ 0x7a ∷ 0x31 ∷ 0 ∷ 0 ∷ 0 ∷ 5 ∷ [])
    ++ replicate 8 0
    ++ (0x80 ∷ 7 ∷ 0x20 ∷ 0 ∷ [])
    ++ replicate 20 0

five_bytes-small : (j : ℕ) → get_or five_bytes j 0 < 256
five_bytes-small zero = omega arith
five_bytes-small (suc zero) = omega arith
five_bytes-small (suc (suc zero)) = omega arith
five_bytes-small (suc (suc (suc zero))) = omega arith
five_bytes-small (suc (suc (suc (suc zero)))) = omega arith
five_bytes-small (suc (suc (suc (suc (suc j))))) = omega arith

encode-five_bytes : encode five_bytes 5 40 (replicate 40 0) ≡ some (some (20, five_encoded))
unfolding encode encode_loop encode_step open_group find_best find_from match_from emit_literal
    emit_ref store store16 store32 write16 write32
encode-five_bytes = refl

encode_total_example :
    (r : Option (ℕ × List ℕ)) × (encode five_bytes 5 40 (replicate 40 0) ≡ some r) × Encoded 40 40 r
encode_total_example =
    encode_total five_bytes (replicate 40 0) 5 40 (omega arith) (omega arith) (omega arith)
      (omega arith)

decode-encode_total_example :
    (n : ℕ) × (encoded : List ℕ) × (out : List ℕ) × (encode five_bytes 5 40 (replicate 40 0)
      ≡ some (some (n, encoded)))
    × (decode_static (take n encoded) (replicate 6 0) 6 ≡ some (some (5, out)))
    × (take 5 out ≡ take 5 five_bytes)
decode-encode_total_example =
    decode-encode_total five_bytes (replicate 40 0) (replicate 6 0) 5 40 6 (omega arith)
      (omega arith) (omega arith) (omega arith) (omega arith) five_bytes-small (omega arith)
      (omega arith) (omega arith)
