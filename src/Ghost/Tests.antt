-- ===== src/Ghost/Tests.antt =====
-- The theorems about ghosts at a small compressed file with a footer.
use mkw_sp.Base.{
  ℕ, ◌+◌, ◌≤◌, ◌≡◌, ◌↔◌, List, [], ◌∷◌, ◌++◌, Option, none, some, Bool, true, length, replicate,
  arith, refl, length-append, length-replicate, ◌∙◌, ap,
}
use mkw_sp.Bytes.{read16, read32}
use mkw_sp.Decoder.Yaz.{get_decoded_size, decode_static}
use mkw_sp.Decoder.Yaz.Tests.{literals, sized-literals, decoded-literals}
use mkw_sp.Ghost.Header.{
  is_header_valid, header_of, is_time_valid, time_at, is_race_course, is_combination_valid,
  is_controller_valid, are_times_valid, are_laps_valid, is_mii_valid, Platform, date_is_valid,
}
use mkw_sp.Ghost.Raw.{
  are_inputs_valid, decode_inputs_header, load32, slice, are_counts_valid, load_header,
  is_end_valid, is_crc_valid, is_footer_valid, is_sp_footer_valid, check_size, is_valid,
  is_size_valid, inputs_header, decompress,
}
use mkw_sp.Ghost.Footer.{GhostFooter, ghost_footer}
use mkw_sp.Ghost.Save.{Ghost, init_ghost, load_ghost}
use mkw_sp.Ghost.Bounds.{is_valid_total}
use mkw_sp.Ghost.Accepted.{Unwrapped}
use mkw_sp.Ghost.Unpack.{Unpacked, decompress_total}
use mkw_sp.Ghost.Loaded.{Playable, Kept, ghost_footer_total, load_ghost_total, init_ghost_total}
use mkw_sp.Ghost.Dates.{days_in_month, date_is_valid_iff}
use mkw_sp.Ghost.Write.{Source, write}
use mkw_sp.Ghost.Written.{Writes, write_total}
use mkw_sp.Ghost.Wraps.{is_size_valid_wraps}

abbrev test_platform : Platform
test_platform = record {
  crc32 = λ bytes. 0;
  mii_crc = λ bytes. 0;
  has_character = λ c. true;
  has_vehicle = λ v. true;
  character_weight_class = λ c. 1;
  vehicle_weight_class = λ v. 1;
}

-- A file of 253 bytes.
abbrev test_file : List ℕ
test_file =
    (82 ∷ 75 ∷ 71 ∷ 68 ∷ 2 ∷ 8 ∷ 3 ∷ 32 ∷ 4 ∷ 33 ∷ 37 ∷ 192 ∷ 8 ∷ 0 ∷ 0 ∷ 0 ∷ 3 ∷ [])
    ++ replicate 122 0
    ++ (25 ∷ 89 ∷ 97 ∷ 122 ∷ 49 ∷ 0 ∷ 0 ∷ 0 ∷ 8 ∷ [])
    ++ replicate 8 0
    ++ (255 ∷ 0 ∷ 1 ∷ 0 ∷ 2 ∷ 0 ∷ 3 ∷ [])
    ++ replicate 9 0
    ++ (5 ∷ [])
    ++ replicate 71 0
    ++ (72 ∷ 83 ∷ 80 ∷ 71 ∷ 68 ∷ 0 ∷ 0 ∷ 0 ∷ 0 ∷ [])

abbrev test_buffer : List ℕ
test_buffer = test_file ++ replicate 9987 0

file-Unwrapped : Unwrapped test_file
unfolding read32
file-Unwrapped = record { source = omega arith; decoded = omega arith }

inputs-decoded :
    (src bytes : List ℕ)
    → get_decoded_size src ≡ some 8
    → decode_static src (replicate 8 0) 8 ≡ some (some (8, bytes))
    → decode_inputs_header src ≡ some (some bytes)
unfolding decode_inputs_header
inputs-decoded src bytes a b = rw (decode_inputs_header, a, b) refl

file-inputs_header : inputs_header test_file true ≡ some (some (0 ∷ 1 ∷ 0 ∷ 2 ∷ 0 ∷ 3 ∷ 0 ∷ 0 ∷ []))
unfolding inputs_header load32 slice read32
file-inputs_header = inputs-decoded literals _ sized-literals decoded-literals

file-inputs : are_inputs_valid test_file true ≡ some true
unfolding are_inputs_valid are_counts_valid read16
file-inputs = rw (are_inputs_valid, file-inputs_header) refl

file-accepted : is_valid test_platform test_file 253 ≡ some true
unfolding is_valid load_header is_header_valid header_of read32 is_time_valid time_at is_race_course
    is_combination_valid date_is_valid is_controller_valid is_size_valid load32 are_laps_valid
    are_times_valid is_mii_valid read16 is_end_valid is_crc_valid slice is_footer_valid
    is_sp_footer_valid check_size
file-accepted = rw (is_valid, file-inputs) refl

buffer-length : length test_buffer ≡ 0x2800
buffer-length =
    length-append test_file (replicate 9987 0) ∙ ap (λ n. 253 + n) (length-replicate {A = ℕ} 9987 0)

buffer-Unwrapped : Unwrapped test_buffer
unfolding read32
buffer-Unwrapped = record { source = omega arith; decoded = omega arith }

is_valid_total_example : (b : Bool) × (is_valid test_platform test_file 253 ≡ some b)
unfolding read32
is_valid_total_example =
    is_valid_total test_platform test_file 253 (omega arith) (omega arith) (λ _. omega arith)

decompress_total_example : Unpacked (decompress test_platform test_file)
decompress_total_example =
    decompress_total test_platform test_file 253 (omega arith) file-Unwrapped file-accepted

ghost_footer_total_example : (footer : GhostFooter) × (ghost_footer test_file 253 ≡ some footer)
unfolding read32
ghost_footer_total_example =
    ghost_footer_total test_platform test_file 253 (omega arith) (omega arith)
      (λ _. file-Unwrapped.source) (λ _ m. omega arith) file-accepted

load_ghost_total_example :
    (r : Option (List ℕ)) × (load_ghost test_platform (some (test_buffer, 253)) ≡ some r)
    × ((ghost : List ℕ) → r ≡ some ghost → Playable test_platform ghost)
load_ghost_total_example =
    load_ghost_total test_platform test_buffer 253 buffer-length (omega arith)
      (λ _. buffer-Unwrapped)

init_ghost_total_example :
    (r : List Ghost) × (init_ghost test_platform 7 (some (test_buffer, 253)) [] ≡ some r)
    × Kept test_platform 7 test_buffer 253 [] r
unfolding read32
init_ghost_total_example =
    init_ghost_total test_platform 7 test_buffer 253 [] buffer-length (omega arith)
      (λ _. buffer-Unwrapped.source) (λ _ m. omega arith)

date_is_valid_iff_example :
    (date_is_valid 4 2 29 ≡ true)
    ↔ ((4 ≤ 99) × (1 ≤ 2) × (2 ≤ 12) × (1 ≤ 29) × (29 ≤ days_in_month 4 2))
date_is_valid_iff_example = date_is_valid_iff 4 2 29

-- A header with a stream of 0xffffff80 bytes.
abbrev wrapped_file : List ℕ
wrapped_file = replicate 0x88 0 ++ (0xff ∷ 0xff ∷ 0xff ∷ 0x80 ∷ []) ++ replicate 8 0

is_size_valid_wraps_example :
    (is_size_valid wrapped_file 0x94 true ≡ some true) × (inputs_header wrapped_file true ≡ none)
unfolding read32
is_size_valid_wraps_example =
    is_size_valid_wraps wrapped_file 0x94 (omega arith) (omega arith) (omega arith) (omega arith)

abbrev test_source : Source
test_source = record {
  write_header = λ header. header;
  inputs = 0 ∷ 1 ∷ 0 ∷ 2 ∷ 0 ∷ 3 ∷ 0 ∷ 0 ∷ [];
  inputs_size = 8;
  footer = 0 ∷ 0 ∷ 0 ∷ 5 ∷ replicate 0x44 0;
}

write_total_example : Writes (write test_platform test_source)
write_total_example =
    write_total test_platform test_source (λ header. refl) (omega arith) (omega arith) (omega arith)
