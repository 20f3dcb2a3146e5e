-- ===== src/Decoder/Yaz/Items.antt =====
-- YAZDecoder.cc: what the decoder does with the group headers, the literals and the references of
-- a stream, where its output is to be a given array.
use mkw_sp.Base.{
  ℕ, List, ◌≡◌, ◌≢◌, ◌+◌, ◌-◌, ◌^◌, ◌%◌, ◌/◌, ◌≤◌, ◌<◌, ◌∷◌, [], true, false, refl, arith, length,
  set, get_or, length-set, get_or-set_self, get_or-set_ne, if◌then◌else◌, ◌==◌, ◌∙◌, ap, sym,
}
use mkw_sp.Base.Words.{u8, add32}
use mkw_sp.Decoder.Yaz.Bounds.{IsValid}
use mkw_sp.Decoder.Runs.{Runs, next, here}
use mkw_sp.Decoder.Yaz.{YazDecoder, State, process, yaz, done, select, header_bit, start}
use native.Mathlib.Decide.{ℕ_discrete}

-- A new decoder may be fed, if it is to give at least a byte.
pub start-room :
    (dst : List ℕ) (n : ℕ) → 0 < n → ((start dst n).is_ok ≡ true) × (done (start dst n) ≡ false)
unfolding start
start-room dst n h = (refl, ground arith)

module _ (src : List ℕ) (src_size : ℕ) (small : src_size < 2 ^ 31) where
  -- The output is the first `s` bytes of the array, with room for the rest of `src_size`.
  pub record Holds (s : ℕ) (d : YazDecoder) : Type 0 where
    pub size : d.dst_size ≡ src_size
    pub storage : src_size ≤ length d.dst
    pub offset : d.dst_offset ≡ s
    pub same : (j : ℕ) → j < s → get_or d.dst j 0 ≡ get_or src j 0

  -- Between two items; `i` is the number of items in the group, from 0 to 7.
  pub record Between (s i header : ℕ) (d : YazDecoder) : Type 0 where
    pub holds : Holds s d
    pub state : d.state ≡ State.group_header
    pub index : d.group_header_index ≡ (i + 7) % 8
    pub group : i ≢ 0 → d.group_header ≡ header

  -- At the start of item `i` of a group.
  pub record Selected (s i header : ℕ) (d : YazDecoder) : Type 0 where
    pub holds : Holds s d
    pub state : d.state ≡ (if header_bit header i == 1 then State.copy else State.ref_header0)
    pub index : d.group_header_index ≡ i
    pub group : d.group_header ≡ header

  -- Bytes that the decoder takes for item `i` of a group, whose bit in the header is `b`, and that
  -- lead from `s` bytes of the output to `s'`.
  abbrev pub IsItem : ℕ → ℕ → ℕ → ℕ → List ℕ → Type 0
  IsItem s s' i b p =
      (h : ℕ) (d : YazDecoder)
      → Selected s i h d
      → h / 2 ^ (7 - i) % 2 ≡ b
      → (d' : YazDecoder) × Runs yaz d' d p × Between s' ((i + 1) % 8) h d'

  -- A new decoder over an array that has the bytes.
  pub start-Between :
      (dst : List ℕ) → src_size ≤ length dst → (h : ℕ) → Between 0 0 h (start dst src_size)
  unfolding start
  start-Between dst l h = record {
    holds = record { size = refl; storage = l; offset = refl; same = λ j k. absurd (omega arith) };
    state = refl;
    index = refl;
    group = λ n. absurd (n refl);
  }

  pub start-IsValid : (dst : List ℕ) → src_size ≤ length dst → IsValid (start dst src_size)
  unfolding start
  start-IsValid dst l = ground arith

  pub Between-done : {i h : ℕ} (d : YazDecoder) → Between src_size i h d → done d ≡ true
  Between-done d b = ground (arith, b.holds.size, b.holds.offset)

  pub Holds-room : {s : ℕ} (d : YazDecoder) → Holds s d → s < src_size → done d ≡ false
  Holds-room d h l = ground arith

  pub Holds-push :
      (s val : ℕ) (d d' : YazDecoder)
      → Holds s d
      → s < src_size
      → val ≡ get_or src s 0
      → d'.dst ≡ set d.dst d.dst_offset val
      → d'.dst_offset ≡ add32 d.dst_offset 1
      → d'.dst_size ≡ d.dst_size
      → Holds (s + 1) d'
  Holds-push s val d d' h l v e o z = record {
    size = z ∙ h.size;
    storage = omega (arith, h.storage, ap length e, length-set d.dst d.dst_offset val);
    offset = omega (arith, o, h.offset);
    same = λ j k. elim (ℕ_discrete j s) [
      | yes y ↦ rw (e, h.offset, y) (get_or-set_self d.dst s val 0 (omega (arith, h.storage)) ∙ v)
      | no n ↦
          rw (e, h.offset)
            (get_or-set_ne d.dst s j val 0 (λ q. n (sym q)) ∙ h.same j (omega (arith, k, n)))
    ];
  }

  pub open_first :
      (s old h : ℕ) (d : YazDecoder)
      → Between s 0 old d
      → s < src_size
      → h < 256
      → (d' : YazDecoder) × Runs yaz d' d (h ∷ []) × Selected s 0 h d'
  unfolding process select
  open_first s old h d b l k =
      let d' = select (record d { group_header = u8 h; group_header_index = 0 }) in
      let e : u8 h ≡ h = omega arith in
      (
        d',
        next d d' (h ∷ []) [] (Holds-room d b.holds l) refl (ground (arith, b.state, b.index)) here,
        record {
          holds = record {
            size = b.holds.size;
            storage = b.holds.storage;
            offset = b.holds.offset;
            same = b.holds.same;
          };
          state = rw e refl;
          index = refl;
          group = e;
        },
      )

  pub open_next :
      (s i h : ℕ) (d : YazDecoder)
      → Between s i h d
      → s < src_size
      → i ≢ 0
      → i < 8
      → (d' : YazDecoder) × Runs yaz d' d [] × Selected s i h d'
  unfolding process select
  open_next s i h d b l n k =
      let j = u8 (d.group_header_index + 1) in
      let d' = select (record d { group_header_index = j }) in
      let e : j ≡ i = omega (arith, b.index, n) in
      (
        d',
        next d d' [] [] (Holds-room d b.holds l) (ground (arith, b.state, b.index, n))
            (ground (arith, b.state, e, n)) here,
        record {
          holds = record {
            size = b.holds.size;
            storage = b.holds.storage;
            offset = b.holds.offset;
            same = b.holds.same;
          };
          state = rw (e, b.group n) refl;
          index = e;
          group = b.group n;
        },
      )

  pub literal :
      (s i h : ℕ) (d : YazDecoder)
      → Selected s i h d
      → s < src_size
      → i < 8
      → header_bit h i ≡ 1
      → get_or src s 0 < 256
      → (d' : YazDecoder) × Runs yaz d' d (get_or src s 0 ∷ []) × Between (s + 1) ((i + 1) % 8) h d'
  unfolding process
  literal s i h d b l k bit byte =
      let val = get_or src s 0 in
      let d' = record d {
        dst = set d.dst d.dst_offset (u8 val);
        dst_offset = add32 d.dst_offset 1;
        state = State.group_header;
      } in
      let copy : d.state ≡ State.copy = b.state ∙ rw bit refl in
      (
        d',
        next d d' (val ∷ []) [] (Holds-room d b.holds l) refl
            (ground (arith, copy, b.holds.storage, b.holds.offset)) here,
        record {
          holds = Holds-push s (u8 val) d d' b.holds l (omega arith) refl refl refl;
          state = refl;
          index = omega (arith, b.index);
          group = λ _. b.group;
        },
      )
