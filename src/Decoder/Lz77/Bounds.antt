-- ===== src/Decoder/Lz77/Bounds.antt =====
-- LZ77Decoder.cc: every step of `process` that the loop makes stays inside both buffers.
use mkw_sp.Base.{
  ℕ, List, ◌≡◌, ◌+◌, ◌^◌, ◌≤◌, ◌<◌, ◌∷◌, [], true, false, some, refl, arith, ◌&&◌, ◌++◌, length,
  set, ◌≢◌, get_or, ◌%◌, length-set, ◌*◌, ◌-◌, ◌/◌, Bool-cases, Bool, ltb, inl, inr, if◌then◌else◌,
  ◌==◌, get_elem?-eq-get_or,
}
use mkw_sp.Base.Words.{u8, u16, add32}
use mkw_sp.Decoder.{is_nil}
use mkw_sp.Decoder.Laws.{Steps, Laws}
use mkw_sp.Decoder.Lz77.{Lz77Decoder, State, process, lz77, done, hungry, select, process_in}
use native.Mathlib.Decide.{ℕ_discrete}

-- The invariant of the members; the fields of a back reference are in range where they are used.
pub record IsValid (d : Lz77Decoder) : Type 0 where
  pub storage : d.dst_size ≤ length d.dst
  pub small : d.dst_size < 2 ^ 32
  pub offset_in : d.dst_offset ≤ d.dst_size
  pub index_in : d.group_header_index ≤ 7
  pub at_header1 :
      d.state ≡ State.ref_header1 → (d.ref_offset ≤ 0xf00) × (3 ≤ d.ref_size) × (d.ref_size ≤ 0x12)
  pub at_copy :
      d.state ≡ State.ref_copy
      → (1 ≤ d.ref_offset)
        × (d.ref_offset ≤ d.dst_offset)
        × (d.ref_offset ≤ 0x1000)
        × (1 ≤ d.ref_size)
        × (d.ref_size ≤ 0x12)

module _ (d : Lz77Decoder) (v : IsValid d) (room : done d ≡ false) where
  step_copy : (b : ℕ) (rest : List ℕ) → d.state ≡ State.copy → Steps lz77 IsValid d (b ∷ rest)
  unfolding process
  step_copy b rest e = record {
    go_on = true;
    next = record d {
      dst = set d.dst d.dst_offset (u8 b);
      dst_offset = add32 d.dst_offset 1;
      state = State.group_header;
    };
    rest = rest;
    runs = ground arith;
    keeps = λ _. ground (arith, length-set d.dst d.dst_offset (u8 b));
    lowers = ground arith;
    same_ok = refl;
  }

  step_group_read :
      (b : ℕ) (rest : List ℕ)
      → d.state ≡ State.group_header
      → d.group_header_index ≡ 7
      → Steps lz77 IsValid d (b ∷ rest)
  unfolding process
  step_group_read b rest e i = record {
    go_on = true;
    next = select (record d { group_header = u8 b; group_header_index = 0 });
    rest = rest;
    runs = ground arith;
    keeps = λ _. ground arith;
    lowers = ground arith;
    same_ok = refl;
  }

  step_group_next :
      (src : List ℕ)
      → d.state ≡ State.group_header
      → d.group_header_index ≢ 7
      → Steps lz77 IsValid d src
  unfolding process
  step_group_next src e i = record {
    go_on = true;
    next = select (record d { group_header_index = u8 (d.group_header_index + 1) });
    rest = src;
    runs = ground arith;
    keeps = λ _. ground arith;
    lowers = ground arith;
    same_ok = refl;
  }

  step_ref_header0 :
      (b : ℕ) (rest : List ℕ) → d.state ≡ State.ref_header0 → Steps lz77 IsValid d (b ∷ rest)
  unfolding process
  step_ref_header0 b rest e = record {
    go_on = true;
    next = record d {
      ref_offset = u16 (u8 b % 16 * 2 ^ 8);
      ref_size = u16 (u8 b / 16 + 3);
      state = State.ref_header1;
    };
    rest = rest;
    runs = ground arith;
    keeps = λ _. ground arith;
    lowers = ground arith;
    same_ok = refl;
  }

  step_ref_header1 :
      (b : ℕ) (rest : List ℕ) → d.state ≡ State.ref_header1 → Steps lz77 IsValid d (b ∷ rest)
  unfolding process
  step_ref_header1 b rest e =
      let offset = u16 (d.ref_offset + (u8 b + 1)) in
      elim (Bool-cases (ltb d.dst_offset offset)) [
        | inl bad ↦ record {
          go_on = false;
          next = record d { ref_offset = offset };
          rest = rest;
          runs = ground arith;
          keeps = λ q. cc;
          lowers = ground arith;
          same_ok = refl;
        }
        | inr good ↦ record {
          go_on = true;
          next = record d { ref_offset = offset; state = State.ref_copy };
          rest = rest;
          runs = ground arith;
          keeps = λ _. ground arith;
          lowers = ground arith;
          same_ok = refl;
        }
      ]

  step_ref_copy : (src : List ℕ) → d.state ≡ State.ref_copy → Steps lz77 IsValid d src
  unfolding process
  step_ref_copy src e =
      let val = get_or d.dst (d.dst_offset - d.ref_offset) 0 in
      let size = u16 (d.ref_size + 2 ^ 16 - 1) in
      record {
        go_on = true;
        next = record d {
          dst = set d.dst d.dst_offset val;
          dst_offset = add32 d.dst_offset 1;
          ref_size = size;
          state = if size == 0 then State.group_header else d.state;
        };
        rest = src;
        runs = ground (arith, get_elem?-eq-get_or d.dst (d.dst_offset - d.ref_offset) 0);
        keeps = λ _. ground (arith, length-set d.dst d.dst_offset val);
        lowers = ground arith;
        same_ok = refl;
      }

  pub step_in :
      (k : State) (src : List ℕ)
      → d.state ≡ k
      → (is_nil src && hungry d) ≡ false
      → Steps lz77 IsValid d src
  step_in State.copy [] e w = absurd (ground arith)
  step_in State.copy (b ∷ rest) e w = step_copy b rest e
  step_in State.ref_header0 [] e w = absurd (ground arith)
  step_in State.ref_header0 (b ∷ rest) e w = step_ref_header0 b rest e
  step_in State.ref_header1 [] e w = absurd (ground arith)
  step_in State.ref_header1 (b ∷ rest) e w = step_ref_header1 b rest e
  step_in State.ref_copy src e w = step_ref_copy src e
  step_in State.group_header src e w = elim (ℕ_discrete d.group_header_index 7) [
    | yes i ↦ step_group src i e w
    | no i ↦ step_group_next src e i
  ]
    where
      step_group :
          (src : List ℕ)
          → d.group_header_index ≡ 7
          → d.state ≡ State.group_header
          → (is_nil src && hungry d) ≡ false
          → Steps lz77 IsValid d src
      step_group [] i e w = absurd (ground arith)
      step_group (b ∷ rest) i e w = step_group_read b rest e i

append_in :
    (k : State) (d : Lz77Decoder) (src more : List ℕ) (go_on : Bool) (next : Lz77Decoder)
    (rest : List ℕ)
    → process_in k d src ≡ some (go_on, next, rest)
    → process_in k d (src ++ more) ≡ some (go_on, next, rest ++ more)
unfolding process_in
append_in State.group_header d [] more go_on next rest e = ground arith
append_in State.group_header d (b ∷ src) more go_on next rest e = ground arith
append_in State.copy d [] more go_on next rest e = ground arith
append_in State.copy d (b ∷ src) more go_on next rest e = ground arith
append_in State.ref_header0 d [] more go_on next rest e = ground arith
append_in State.ref_header0 d (b ∷ src) more go_on next rest e = ground arith
append_in State.ref_header1 d [] more go_on next rest e = ground arith
append_in State.ref_header1 d (b ∷ src) more go_on next rest e = ground arith
append_in State.ref_copy d src more go_on next rest e = ground arith

pub process-append :
    (d : Lz77Decoder) (src more : List ℕ) (go_on : Bool) (next : Lz77Decoder) (rest : List ℕ)
    → process d src ≡ some (go_on, next, rest)
    → process d (src ++ more) ≡ some (go_on, next, rest ++ more)
unfolding process
process-append d src more go_on next rest e = append_in d.state d src more go_on next rest e

abbrev pub lz77_laws : Laws lz77
lz77_laws = record {
  Valid = IsValid;
  step = λ d src v f w. step_in d v f d.state src refl w;
  append = process-append;
  fail_not_ok = λ d. refl;
}
