-- ===== src/Bytes.antt =====
-- common/Bytes.hh: integers in byte arrays.
use mkw_sp.Base.{
  ℕ, ◌+◌, ◌*◌, ◌/◌, ◌^◌, List, set, get_or, ◌<◌, arith, length, ◌≡◌, length-set, get_or-set_ne,
  get_or-set_self, ◌∙◌, ◌++◌, ◌≤◌, get_or-append_left, subst,
}
use mkw_sp.Base.Words.{u8}

-- The bytes of an array; what lies beyond its end is read as 0, and the callers check bounds first.
abbrev pub byte_at : List ℕ → ℕ → ℕ
byte_at src i = u8 (get_or src i 0)

-- Read<u16>, Read<u32> for std::endian::big. The shifted bytes do not overlap, so `|` is `+`.
unfoldable pub read16 : List ℕ → ℕ → ℕ
read16 src offset = byte_at src offset * 2 ^ 8 + byte_at src (offset + 1)

unfoldable pub read32 : List ℕ → ℕ → ℕ
read32 src offset =
    byte_at src offset * 2 ^ 24
    + byte_at src (offset + 1) * 2 ^ 16
    + byte_at src (offset + 2) * 2 ^ 8
    + byte_at src (offset + 3)

-- Read<u32> for std::endian::little.
unfoldable pub read32_le : List ℕ → ℕ → ℕ
read32_le src offset =
    byte_at src offset
    + byte_at src (offset + 1) * 2 ^ 8
    + byte_at src (offset + 2) * 2 ^ 16
    + byte_at src (offset + 3) * 2 ^ 24

-- Write<u16>, Write<u32> for std::endian::big.
unfoldable pub write16 : List ℕ → ℕ → ℕ → List ℕ
write16 dst offset val = set (set dst offset (u8 (val / 2 ^ 8))) (offset + 1) (u8 val)

unfoldable pub write32 : List ℕ → ℕ → ℕ → List ℕ
write32 dst offset val =
    set
      (set (set (set dst offset (u8 (val / 2 ^ 24))) (offset + 1) (u8 (val / 2 ^ 16))) (offset + 2)
        (u8 (val / 2 ^ 8)))
      (offset + 3) (u8 val)

pub read32-lt : (src : List ℕ) (offset : ℕ) → read32 src offset < 2 ^ 32
unfolding read32
read32-lt src offset = omega arith

pub read32_le-lt : (src : List ℕ) (offset : ℕ) → read32_le src offset < 2 ^ 32
unfolding read32_le
read32_le-lt src offset = omega arith

pub read16-lt : (src : List ℕ) (offset : ℕ) → read16 src offset < 2 ^ 16
unfolding read16
read16-lt src offset = omega arith

pub length-write32 : (dst : List ℕ) (offset val : ℕ) → length (write32 dst offset val) ≡ length dst
unfolding write32
length-write32 dst offset val =
    length-set _ (offset + 3) _
    ∙ length-set _ (offset + 2) _
    ∙ length-set _ (offset + 1) _
    ∙ length-set dst offset _

-- A word leaves the bytes before it.
pub get_or-write32 :
    (dst : List ℕ) (offset val i : ℕ)
    → i < offset
    → get_or (write32 dst offset val) i 0 ≡ get_or dst i 0
unfolding write32
get_or-write32 dst offset val i l =
    get_or-set_ne _ (offset + 3) i _ 0 (omega arith)
    ∙ get_or-set_ne _ (offset + 2) i _ 0 (omega arith)
    ∙ get_or-set_ne _ (offset + 1) i _ 0 (omega arith)
    ∙ get_or-set_ne dst offset i _ 0 (omega arith)

pub get_or-write16 :
    (dst : List ℕ) (offset val i : ℕ)
    → i < offset
    → get_or (write16 dst offset val) i 0 ≡ get_or dst i 0
unfolding write16
get_or-write16 dst offset val i l =
    get_or-set_ne _ (offset + 1) i _ 0 (omega arith) ∙ get_or-set_ne dst offset i _ 0 (omega arith)

pub length-write16 : (dst : List ℕ) (offset val : ℕ) → length (write16 dst offset val) ≡ length dst
unfolding write16
length-write16 dst offset val = length-set _ (offset + 1) _ ∙ length-set dst offset _

-- A written word is read back.
pub read16-write16 :
    (dst : List ℕ) (offset val : ℕ)
    → offset + 1 < length dst
    → val < 2 ^ 16
    → read16 (write16 dst offset val) offset ≡ val
unfolding read16 write16
read16-write16 dst offset val h lt = omega (
  arith,
  length-set dst offset (u8 (val / 2 ^ 8)),
  get_or-set_ne (set dst offset (u8 (val / 2 ^ 8))) (offset + 1) offset (u8 val) 0 (omega arith),
  get_or-set_self dst offset (u8 (val / 2 ^ 8)) 0 (omega arith),
  get_or-set_self (set dst offset (u8 (val / 2 ^ 8))) (offset + 1) (u8 val) 0
      (omega (arith, length-set dst offset (u8 (val / 2 ^ 8)))),
)

-- More bytes behind do not change a word.
byte-append :
    (src more : List ℕ) (i : ℕ) → i < length src → get_or (src ++ more) i 0 ≡ get_or src i 0
byte-append src more i h = get_or-append_left src more i 0 h

pub read32-append :
    (src more : List ℕ) (offset : ℕ)
    → offset + 4 ≤ length src
    → read32 (src ++ more) offset ≡ read32 src offset
unfolding read32
read32-append src more offset h = omega (
  arith,
  byte-append src more offset (omega arith),
  byte-append src more (offset + 1) (omega arith),
  byte-append src more (offset + 2) (omega arith),
  byte-append src more (offset + 3) (omega arith),
)

pub read32_le-append :
    (src more : List ℕ) (offset : ℕ)
    → offset + 4 ≤ length src
    → read32_le (src ++ more) offset ≡ read32_le src offset
unfolding read32_le
read32_le-append src more offset h = omega (
  arith,
  byte-append src more offset (omega arith),
  byte-append src more (offset + 1) (omega arith),
  byte-append src more (offset + 2) (omega arith),
  byte-append src more (offset + 3) (omega arith),
)

-- A word depends on its four bytes.
pub read32_ext :
    (a b : List ℕ) (offset : ℕ)
    → ((i : ℕ) → i < 4 → get_or a (offset + i) 0 ≡ get_or b (offset + i) 0)
    → read32 a offset ≡ read32 b offset
unfolding read32
read32_ext a b offset h =
    let first : get_or a offset 0 ≡ get_or b offset 0 =
      subst (λ i. get_or a i 0 ≡ get_or b i 0) (omega arith) (h 0 (omega arith)) in
    omega (arith, first, h 1 (omega arith), h 2 (omega arith), h 3 (omega arith))

-- The bytes of a written word.
get_or-write32_first :
    (dst : List ℕ) (offset val : ℕ)
    → offset < length dst
    → get_or (write32 dst offset val) offset 0 ≡ u8 (val / 2 ^ 24)
unfolding write32
get_or-write32_first dst offset val l =
    get_or-set_ne _ (offset + 3) offset _ 0 (omega arith)
    ∙ get_or-set_ne _ (offset + 2) offset _ 0 (omega arith)
    ∙ get_or-set_ne _ (offset + 1) offset _ 0 (omega arith)
    ∙ get_or-set_self dst offset _ 0 l

get_or-write32_rest :
    (dst : List ℕ) (offset val : ℕ)
    → offset + 3 < length dst
    → (get_or (write32 dst offset val) (offset + 1) 0 ≡ u8 (val / 2 ^ 16))
      × (get_or (write32 dst offset val) (offset + 2) 0 ≡ u8 (val / 2 ^ 8))
      × (get_or (write32 dst offset val) (offset + 3) 0 ≡ u8 val)
unfolding write32
get_or-write32_rest dst offset val l = (
  get_or-set_ne _ (offset + 3) (offset + 1) _ 0 (omega arith)
      ∙ get_or-set_ne _ (offset + 2) (offset + 1) _ 0 (omega arith)
      ∙ get_or-set_self (set dst offset _) (offset + 1) _ 0
          (omega (arith, length-set dst offset (u8 (val / 2 ^ 24)))),
  get_or-set_ne _ (offset + 3) (offset + 2) _ 0 (omega arith)
      ∙ get_or-set_self (set (set dst offset _) (offset + 1) _) (offset + 2) _ 0 (
          omega (
            arith,
            length-set (set dst offset (u8 (val / 2 ^ 24))) (offset + 1) (u8 (val / 2 ^ 16)),
            length-set dst offset (u8 (val / 2 ^ 24)),
          )),
  get_or-set_self _ (offset + 3) _ 0 (
      omega (
        arith,
        length-set (set (set dst offset (u8 (val / 2 ^ 24))) (offset + 1) (u8 (val / 2 ^ 16)))
            (offset + 2) (u8 (val / 2 ^ 8)),
        length-set (set dst offset (u8 (val / 2 ^ 24))) (offset + 1) (u8 (val / 2 ^ 16)),
        length-set dst offset (u8 (val / 2 ^ 24)),
      )),
)

pub read32-write32 :
    (dst : List ℕ) (offset val : ℕ)
    → offset + 3 < length dst
    → val < 2 ^ 32
    → read32 (write32 dst offset val) offset ≡ val
unfolding read32
read32-write32 dst offset val l h =
    omega (
      arith,
      get_or-write32_first dst offset val (omega arith),
      get_or-write32_rest dst offset val l,
    )

-- Words written behind it leave a word.
pub read32-write32_later :
    (dst : List ℕ) (offset later val : ℕ)
    → offset + 4 ≤ later
    → read32 (write32 dst later val) offset ≡ read32 dst offset
read32-write32_later dst offset later val l =
    read32_ext _ dst offset (λ i k. get_or-write32 dst later val (offset + i) (omega arith))

-- The first byte of a word that was written.
pub get_or-write32_byte :
    (dst : List ℕ) (offset val : ℕ)
    → offset < length dst
    → get_or (write32 dst offset val) offset 0 < 256
get_or-write32_byte dst offset val l = omega (arith, get_or-write32_first dst offset val l)
