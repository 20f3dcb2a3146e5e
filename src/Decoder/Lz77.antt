-- ===== src/Decoder/Lz77.antt =====
-- payload/sp/LZ77Decoder.cc and LZ77Decoder.hh.
pub mod Bounds
pub mod Stream
mod Tests
use mkw_sp.Base.{
  ℕ, ◌+◌, ◌-◌, ◌*◌, ◌/◌, ◌%◌, ◌^◌, min, List, [], ◌∷◌, Option, none, some, Bool, true, false, ltb,
  ◌==◌, ◌&&◌, ◌||◌, not, length, get_elem?, set, drop, if◌then◌else◌, ◌<◌,
}
use mkw_sp.Base.Words.{u8, u16, add32, sub32}
use mkw_sp.Bytes.{read32_le}
use mkw_sp.Decoder.{Machine, decode}

pub data State : Type 0 where
  group_header copy ref_header0 ref_header1 ref_copy : State

-- The member variables of LZ77Decoder; the length of `dst` is that of the allocation.
pub record Lz77Decoder : Type 0 where
  pub header_size : ℕ
  pub dst : List ℕ
  pub dst_size : ℕ
  pub dst_offset : ℕ
  pub state : State
  pub group_header_index : ℕ
  pub group_header : ℕ
  pub ref_size : ℕ
  pub ref_offset : ℕ
  pub is_ok : Bool

-- The initial values of the members, over a buffer of `dst_size` bytes.
pub start : List ℕ → ℕ → ℕ → Lz77Decoder
start dst dst_size header_size = record {
  header_size = header_size;
  dst = dst;
  dst_size = dst_size;
  dst_offset = 0;
  state = State.group_header;
  group_header_index = 7;
  group_header = 0;
  ref_size = 0;
  ref_offset = 0;
  is_ok = true;
}

-- The constructor; `alloc` is the heap's new[], whose bytes may be anything. The size is 24 bits
-- long, or is the next word where these are 0.
pub construct : (ℕ → List ℕ) → List ℕ → Lz77Decoder
unfolding start
construct alloc src =
    let bad = record (start [] 0 0) { is_ok = false } in
    let short = read32_le src 0 / 2 ^ 8 in
    if ltb (length src) 4
    then bad
    else if short == 0
    then if ltb (length src) 8 then bad else start (alloc (read32_le src 4)) (read32_le src 4) 8
    else start (alloc short) short 4

-- m_dst[m_dstOffset++] = val
store : Lz77Decoder → ℕ → Option Lz77Decoder
store d val =
    if ltb d.dst_offset (length d.dst)
    then some (record d { dst = set d.dst d.dst_offset val; dst_offset = add32 d.dst_offset 1 })
    else none

abbrev Step : Type 0
Step = Option (Bool × Lz77Decoder × List ℕ)

-- The bit of the group header for the current index.
abbrev header_bit : ℕ → ℕ → ℕ
header_bit header index = header / 2 ^ (7 - index) % 2

select : Lz77Decoder → Lz77Decoder
select d = record d {
  state =
      if header_bit d.group_header d.group_header_index == 1 then State.ref_header0 else State.copy;
}

on_group_header : Lz77Decoder → List ℕ → Step
unfolding select
on_group_header d src =
    let index = u8 (d.group_header_index + 1) in
    if index == 8
    then elim src [
      | [] ↦ none
      | b ∷ rest ↦
          some (true, select (record d { group_header = u8 b; group_header_index = 0 }), rest)
    ]
    else some (true, select (record d { group_header_index = index }), src)

on_copy : Lz77Decoder → List ℕ → Step
unfolding store
on_copy d [] = none
on_copy d (b ∷ rest) = elim (store d (u8 b)) [
  | none ↦ none
  | some d' ↦ some (true, record d' { state = State.group_header }, rest)
]

-- val << 8 & 0xf00 keeps the low four bits of the byte.
on_ref_header0 : Lz77Decoder → List ℕ → Step
on_ref_header0 d [] = none
on_ref_header0 d (b ∷ rest) = some (
  true,
  record d {
    ref_offset = u16 (u8 b % 16 * 2 ^ 8);
    ref_size = u16 (u8 b / 16 + 3);
    state = State.ref_header1;
  },
  rest,
)

on_ref_header1 : Lz77Decoder → List ℕ → Step
on_ref_header1 d [] = none
on_ref_header1 d (b ∷ rest) =
    let d' = record d { ref_offset = u16 (d.ref_offset + (u8 b + 1)) } in
    if ltb d.dst_offset d'.ref_offset
    then some (false, d', rest)
    else some (true, record d' { state = State.ref_copy }, rest)

on_ref_copy : Lz77Decoder → List ℕ → Step
unfolding store
on_ref_copy d src = elim (get_elem? d.dst (sub32 d.dst_offset d.ref_offset)) [
  | none ↦ none
  | some val ↦ elim (store d val) [
    | none ↦ none
    | some d' ↦
        let size = u16 (d.ref_size + 2 ^ 16 - 1) in
        some (
          true,
          record d' { ref_size = size; state = if size == 0 then State.group_header else d.state },
          src,
        )
  ]
]

-- The switch of `process`.
pub process_in : State → Lz77Decoder → List ℕ → Step
unfolding on_group_header on_copy on_ref_header0 on_ref_header1 on_ref_copy
process_in State.group_header d src = on_group_header d src
process_in State.copy d src = on_copy d src
process_in State.ref_header0 d src = on_ref_header0 d src
process_in State.ref_header1 d src = on_ref_header1 d src
process_in State.ref_copy d src = on_ref_copy d src

pub process : Lz77Decoder → List ℕ → Step
unfolding process_in
process d src = process_in d.state d src

abbrev pub is_group : State → Bool
is_group State.group_header = true
is_group _ = false

abbrev is_ref_copy : State → Bool
is_ref_copy State.ref_copy = true
is_ref_copy _ = false

abbrev pub done : Lz77Decoder → Bool
done d = d.dst_offset == d.dst_size

-- The part of the loop's second test that does not look at the source.
abbrev pub hungry : Lz77Decoder → Bool
hungry d = (not (is_group d.state) || d.group_header_index == 7) && not (is_ref_copy d.state)

abbrev pub rank : Lz77Decoder → ℕ
rank d = 2 * (d.dst_size - d.dst_offset) + (if is_group d.state then 1 else 0)

abbrev pub lz77 : Machine
lz77 = record {
  State = Lz77Decoder;
  full = done;
  at_group = λ d. is_group d.state;
  hungry = hungry;
  is_ok = λ d. d.is_ok;
  fail = λ d. record d { is_ok = false };
  process = process;
  rank = rank;
}

unfoldable pub check_magic : ℕ → Bool
check_magic magic = magic % 2 ^ 8 == 0x10
