-- ===== src/Ghost/Header.antt =====
-- RawGhostHeader and RawTime of GhostFile.hh, and the tests of Registry.cc on their values.
use mkw_sp.Base.{
  ℕ, ◌+◌, ◌*◌, ◌/◌, ◌%◌, ◌^◌, List, [], ◌∷◌, Bool, true, false, not, ltb, leb, ◌==◌, ◌&&◌, ◌||◌,
  take, drop, if◌then◌else◌, ◌++◌,
}
use mkw_sp.Bytes.{byte_at, read16, read32}

-- What the code calls of the game and of the console: checksums of a range of bytes, the values
-- that magic_enum finds in an enumeration, and the weight classes.
pub record Platform : Type 0 where
  pub crc32 : List ℕ → ℕ
  pub mii_crc : List ℕ → ℕ
  pub has_character : ℕ → Bool
  pub has_vehicle : ℕ → Bool
  pub character_weight_class : ℕ → ℕ
  pub vehicle_weight_class : ℕ → ℕ

-- The three bytes of a RawTime, the fields from the highest bit down.
pub record RawTime : Type 0 where
  pub minutes : ℕ
  pub seconds : ℕ
  pub milliseconds : ℕ

unfoldable pub is_time_valid : RawTime → Bool
is_time_valid t =
    if ltb 99 t.minutes
    then false
    else if ltb 59 t.seconds
    then false
    else not (ltb 999 t.milliseconds)

unfoldable pub to_milliseconds : RawTime → ℕ
to_milliseconds t = (t.minutes * 60 + t.seconds) * 1000 + t.milliseconds

unfoldable pub time_at : List ℕ → ℕ → RawTime
time_at raw offset =
    let bits =
      byte_at raw offset * 2 ^ 16 + byte_at raw (offset + 1) * 2 ^ 8 + byte_at raw (offset + 2) in
    record {
      minutes = bits / 2 ^ 17;
      seconds = bits / 2 ^ 10 % 2 ^ 7;
      milliseconds = bits % 2 ^ 10;
    }

-- The members that the code reads. The enumerations are read as unsigned bit fields: the tests
-- accept only values whose sign bit is 0.
pub record RawGhostHeader : Type 0 where
  pub magic : ℕ
  pub race_time : RawTime
  pub course_id : ℕ
  pub vehicle_id : ℕ
  pub character_id : ℕ
  pub year : ℕ
  pub month : ℕ
  pub day : ℕ
  pub controller_id : ℕ
  pub is_compressed : Bool
  pub lap_count : ℕ
  pub lap_times : List RawTime
  pub mii : List ℕ

abbrev pub header_size : ℕ
header_size = 0x88

unfoldable pub is_compressed_at : List ℕ → Bool
is_compressed_at raw = byte_at raw 0x0c / 2 ^ 3 % 2 == 1

unfoldable pub header_of : List ℕ → RawGhostHeader
unfolding is_compressed_at
header_of raw = record {
  magic = read32 raw 0;
  race_time = time_at raw 4;
  course_id = byte_at raw 7 / 2 ^ 2;
  vehicle_id = read32 raw 8 / 2 ^ 26;
  character_id = read32 raw 8 / 2 ^ 20 % 2 ^ 6;
  year = read32 raw 8 / 2 ^ 13 % 2 ^ 7;
  month = read32 raw 8 / 2 ^ 9 % 2 ^ 4;
  day = read32 raw 8 / 2 ^ 4 % 2 ^ 5;
  controller_id = read32 raw 8 % 2 ^ 4;
  is_compressed = is_compressed_at raw;
  lap_count = byte_at raw 0x10;
  lap_times =
      time_at raw 0x11
      ∷ time_at raw 0x14
      ∷ time_at raw 0x17
      ∷ time_at raw 0x1a
      ∷ time_at raw 0x1d
      ∷ [];
  mii = take 0x4c (drop 0x3c raw);
}

abbrev is_between : ℕ → ℕ → ℕ → Bool
is_between low high n = leb low n && leb n high

unfoldable pub is_character_valid : ℕ → Bool
is_character_valid c =
    is_between 0x00 0x1b c
    || is_between 0x1e 0x21 c
    || is_between 0x24 0x27 c
    || is_between 0x2a 0x2c c

unfoldable pub is_vehicle_valid : ℕ → Bool
is_vehicle_valid v = is_between 0x00 0x23 v

unfoldable pub is_controller_valid : ℕ → Bool
is_controller_valid c = is_between 0x0 0x3 c

unfoldable pub is_race_course : ℕ → Bool
is_race_course c = is_between 0x00 0x1f c

unfoldable pub is_combination_valid : Platform → ℕ → ℕ → Bool
unfolding is_character_valid is_vehicle_valid
is_combination_valid p character vehicle =
    if not (is_character_valid character)
    then false
    else if not (is_vehicle_valid vehicle)
    then false
    else p.character_weight_class character == p.vehicle_weight_class vehicle

unfoldable pub date_is_valid : ℕ → ℕ → ℕ → Bool
date_is_valid year month day =
    if ltb 99 year
    then false
    else if ltb month 1 || ltb 12 month
    then false
    else if ltb day 1 || ltb 31 day
    then false
    else if day == 29
    then if not (month == 2) then true else year % 4 == 0
    else if day == 30
    then not (month == 2)
    else if day == 31
    then not (month == 2 || month == 4 || month == 6 || month == 9 || month == 11)
    else true

abbrev pub header_magic : ℕ
header_magic = 0x524b4744

-- The tests of IsValid from the magic to the controller.
unfoldable pub is_header_valid : Platform → RawGhostHeader → Bool
is_header_valid p h =
    h.magic == header_magic
    && is_time_valid h.race_time
    && is_race_course h.course_id
    && p.has_character h.character_id
    && p.has_vehicle h.vehicle_id
    && is_combination_valid p h.character_id h.vehicle_id
    && date_is_valid h.year h.month h.day
    && is_controller_valid h.controller_id

unfoldable pub are_times_valid : List RawTime → Bool
are_times_valid [] = true
are_times_valid (t ∷ times) = is_time_valid t && are_times_valid times

-- The tests on the laps and on the checksum of the Mii, whose last two bytes count as 0.
unfoldable pub are_laps_valid : RawGhostHeader → Bool
are_laps_valid h = h.lap_count == 3 && are_times_valid (take 3 h.lap_times)

unfoldable pub is_mii_valid : Platform → RawGhostHeader → Bool
is_mii_valid p h = p.mii_crc (take 0x4a h.mii ++ (0 ∷ 0 ∷ [])) == read16 h.mii 0x4a
