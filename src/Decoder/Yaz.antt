-- ===== src/Decoder/Yaz.antt =====
-- payload/sp/YAZDecoder.cc and YAZDecoder.hh.
pub mod Bounds
pub mod Stream
pub mod Static
pub mod Items
pub mod Refs
pub mod Tests
use mkw_sp.Base.{
  ℕ, ◌+◌, ◌-◌, ◌*◌, ◌/◌, ◌%◌, ◌^◌, min, List, [], ◌∷◌, Option, none, some, Bool, true, false, ltb,
  ◌==◌, ◌&&◌, ◌||◌, not, length, get_elem?, set, drop, if◌then◌else◌,
}
use mkw_sp.Base.Words.{u8, u16, add32, sub32}
use mkw_sp.Bytes.{read32}
use mkw_sp.Decoder.{Machine, decode}

pub data State : Type 0 where
  group_header copy ref_header0 ref_header1 ref_header2 ref_copy : State

-- The member variables of YAZDecoder but m_owning; the length of `dst` is that of the allocation.
pub record YazDecoder : Type 0 where
  pub dst : List ℕ
  pub dst_size : ℕ
  pub dst_offset : ℕ
  pub state : State
  pub group_header_index : ℕ
  pub group_header : ℕ
  pub ref_size : ℕ
  pub ref_offset : ℕ
  pub is_ok : Bool

abbrev pub header_size : ℕ
header_size = 16

-- The initial values of the members, over a buffer of `dst_size` bytes.
pub start : List ℕ → ℕ → YazDecoder
start dst dst_size = record {
  dst = dst;
  dst_size = dst_size;
  dst_offset = 0;
  state = State.group_header;
  group_header_index = 7;
  group_header = 0;
  ref_size = 0;
  ref_offset = 0;
  is_ok = true;
}

-- The constructor; `alloc` is the heap's new[], whose bytes may be anything.
pub construct : (ℕ → List ℕ) → List ℕ → YazDecoder
unfolding start
construct alloc src =
    if ltb (length src) header_size
    then record (start [] 0) { is_ok = false }
    else start (alloc (read32 src 4)) (read32 src 4)

-- m_dst[m_dstOffset++] = val
store : YazDecoder → ℕ → Option YazDecoder
store d val =
    if ltb d.dst_offset (length d.dst)
    then some (record d { dst = set d.dst d.dst_offset val; dst_offset = add32 d.dst_offset 1 })
    else none

abbrev Step : Type 0
Step = Option (Bool × YazDecoder × List ℕ)

-- The bit of the group header for the current index.
abbrev header_bit : ℕ → ℕ → ℕ
header_bit header index = header / 2 ^ (7 - index) % 2

select : YazDecoder → YazDecoder
select d = record d {
  state =
      if header_bit d.group_header d.group_header_index == 1 then State.copy else State.ref_header0;
}

on_group_header : YazDecoder → List ℕ → Step
unfolding select
on_group_header d src =
    let index = u8 (d.group_header_index + 1) in
    if index == 8
    then elim src [
      | [] ↦ none
      | b ∷ rest ↦
          some (true, select (record d { group_header = u8 b; group_header_index = 0 }), rest)
    ]
    else some (true, select (record d { group_header_index = index }), src)

on_copy : YazDecoder → List ℕ → Step
unfolding store
on_copy d [] = none
on_copy d (b ∷ rest) = elim (store d (u8 b)) [
  | none ↦ none
  | some d' ↦ some (true, record d' { state = State.group_header }, rest)
]

-- val << 8 & 0xf00 keeps the low four bits of the byte.
on_ref_header0 : YazDecoder → List ℕ → Step
on_ref_header0 d [] = none
on_ref_header0 d (b ∷ rest) = some (
  true,
  record d {
    ref_offset = u16 (u8 b % 16 * 2 ^ 8);
    ref_size = u16 (u8 b / 16 + 2);
    state = State.ref_header1;
  },
  rest,
)

on_ref_header1 : YazDecoder → List ℕ → Step
on_ref_header1 d [] = none
on_ref_header1 d (b ∷ rest) =
    let d' = record d { ref_offset = u16 (d.ref_offset + (u8 b + 1)) } in
    if ltb d.dst_offset d'.ref_offset
    then some (false, d', rest)
    else some (
      true,
      record d' { state = if d.ref_size == 2 then State.ref_header2 else State.ref_copy },
      rest,
    )

on_ref_header2 : YazDecoder → List ℕ → Step
on_ref_header2 d [] = none
on_ref_header2 d (b ∷ rest) =
    some (true, record d { ref_size = u16 (u8 b + 0x12); state = State.ref_copy }, rest)

on_ref_copy : YazDecoder → List ℕ → Step
unfolding store
on_ref_copy d src = elim (get_elem? d.dst (sub32 d.dst_offset d.ref_offset)) [
  | none ↦ none
  | some val ↦ elim (store d val) [
    | none ↦ none
    | some d' ↦
        let size = u16 (d.ref_size + 2 ^ 16 - 1) in
        some (
          true,
          record d' { ref_size = size; state = if size == 0 then State.group_header else d.state },
          src,
        )
  ]
]

-- The switch of `process`.
pub process_in : State → YazDecoder → List ℕ → Step
unfolding on_group_header on_copy on_ref_header0 on_ref_header1 on_ref_header2 on_ref_copy
process_in State.group_header d src = on_group_header d src
process_in State.copy d src = on_copy d src
process_in State.ref_header0 d src = on_ref_header0 d src
process_in State.ref_header1 d src = on_ref_header1 d src
process_in State.ref_header2 d src = on_ref_header2 d src
process_in State.ref_copy d src = on_ref_copy d src

pub process : YazDecoder → List ℕ → Step
unfolding process_in
process d src = process_in d.state d src

abbrev pub is_group : State → Bool
is_group State.group_header = true
is_group _ = false

abbrev is_ref_copy : State → Bool
is_ref_copy State.ref_copy = true
is_ref_copy _ = false

abbrev pub done : YazDecoder → Bool
done d = d.dst_offset == d.dst_size

-- The part of the loop's second test that does not look at the source.
abbrev pub hungry : YazDecoder → Bool
hungry d = (not (is_group d.state) || d.group_header_index == 7) && not (is_ref_copy d.state)

abbrev pub rank : YazDecoder → ℕ
rank d = 2 * (d.dst_size - d.dst_offset) + (if is_group d.state then 1 else 0)

abbrev pub yaz : Machine
yaz = record {
  State = YazDecoder;
  full = done;
  at_group = λ d. is_group d.state;
  hungry = hungry;
  is_ok = λ d. d.is_ok;
  fail = λ d. record d { is_ok = false };
  process = process;
  rank = rank;
}

unfoldable pub check_magic : ℕ → Bool
check_magic magic = magic == 0x59617a30 || magic == 0x59617a31

pub get_decoded_size : List ℕ → Option ℕ
unfolding check_magic
get_decoded_size src =
    if ltb (length src) header_size
    then none
    else if not (check_magic (read32 src 0))
    then none
    else some (read32 src 4)

-- The static Decode: the bytes of `dst` after it, and how many of them are meant. `none` inside
-- is the empty optional; `none` outside a panic or a fault.
pub decode_static : List ℕ → List ℕ → ℕ → Option (Option (ℕ × List ℕ))
unfolding get_decoded_size start
decode_static src dst dst_size = elim (get_decoded_size src) [
  | none ↦ some none
  | some size ↦
      let dst_size' = min dst_size size in
      elim (decode yaz (start dst dst_size') (drop header_size src)) [
        | none ↦ none
        | some (ok, d) ↦ some (if ok && done d then some (dst_size', d.dst) else none)
      ]
]
