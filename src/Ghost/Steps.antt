-- ===== src/Ghost/Steps.antt =====
-- The steps of GhostFile.cc that may fault: sequences, tests and accesses.
use mkw_sp.Base.{
  ℕ, ◌+◌, ◌≤◌, ◌<◌, ◌≡◌, List, Option, none, some, Bool, true, false, length, take, drop, arith,
  refl, length-take, length-drop, get_or, get_or-take, get_or-drop, if◌then◌else◌, ap, ◌∙◌,
}
use mkw_sp.Bytes.{read32}
use mkw_sp.Ghost.Raw.{bind, and_then, slice, load32}

-- The step does not fault.
abbrev pub Returns : {A : Type 0} → Option A → Type 0
Returns {A = A} o = (a : A) × (o ≡ some a)

pub bind_total :
    {A B : Type 0} (o : Option A) (k : A → Option B)
    → Returns o
    → ((a : A) → o ≡ some a → Returns (k a))
    → Returns (bind o k)
bind_total none k (a, e) h = cc
bind_total (some a) k r h = h a refl

pub and_then_total :
    (o p : Option Bool) → Returns o → (o ≡ some true → Returns p) → Returns (and_then o p)
and_then_total none p (a, e) h = cc
and_then_total (some false) p r h = (false, refl)
and_then_total (some true) p r h = h refl

pub tested_total : (b : Bool) (o : Option Bool) → Returns o → Returns (and_then (some b) o)
tested_total true o r = r
tested_total false o r = (false, refl)

pub and_then-true :
    (o p : Option Bool) → and_then o p ≡ some true → (o ≡ some true) × (p ≡ some true)
and_then-true none p e = cc
and_then-true (some false) p e = cc
and_then-true (some true) p e = (refl, e)

pub bind-some :
    {A B : Type 0} (o : Option A) (k : A → Option B) (b : B)
    → bind o k ≡ some b
    → (a : A) × (o ≡ some a) × (k a ≡ some b)
bind-some none k b e = cc
bind-some (some a) k b e = (a, refl, e)

pub if_total :
    {A : Type 0} (b : Bool) (o p : Option A)
    → (b ≡ true → Returns o)
    → (b ≡ false → Returns p)
    → Returns (if b then o else p)
if_total true o p x y = x refl
if_total false o p x y = y refl

pub slice_total :
    (raw : List ℕ) (offset n : ℕ) → offset + n ≤ length raw → Returns (slice raw offset n)
unfolding slice
slice_total raw offset n h = (take n (drop offset raw), ground arith)

pub slice_lem :
    (raw : List ℕ) (offset n : ℕ) (bytes : List ℕ)
    → slice raw offset n ≡ some bytes
    → (bytes ≡ take n (drop offset raw)) × (offset + n ≤ length raw)
unfolding slice
slice_lem raw offset n bytes e = (ground (arith, e), ground (arith, e))

-- The bytes of a slice stand at the offset.
pub get_or-slice :
    (raw bytes : List ℕ) (offset n i j : ℕ)
    → slice raw offset n ≡ some bytes
    → i < n
    → offset + i ≡ j
    → get_or bytes i 0 ≡ get_or raw j 0
get_or-slice raw bytes offset n i j e l same =
    ap (λ b. get_or b i 0) ((slice_lem raw offset n bytes e).0)
    ∙ get_or-take n (drop offset raw) i 0 l
    ∙ get_or-drop offset raw i 0
    ∙ ap (λ k. get_or raw k 0) same

pub length-slice :
    (raw bytes : List ℕ) (offset n : ℕ) → slice raw offset n ≡ some bytes → length bytes ≡ n
length-slice raw bytes offset n e =
    let (same, l) = slice_lem raw offset n bytes e in
    ap length same ∙ length-take n (drop offset raw) ∙ omega (arith, length-drop offset raw)

pub load32_total :
    (raw : List ℕ) (offset : ℕ) → offset + 4 ≤ length raw → Returns (load32 raw offset)
unfolding load32
load32_total raw offset h = (read32 raw offset, ground arith)

pub load32_lem :
    (raw : List ℕ) (offset n : ℕ)
    → load32 raw offset ≡ some n
    → (n ≡ read32 raw offset) × (offset + 4 ≤ length raw)
unfolding load32
load32_lem raw offset n e = (ground (arith, e), ground (arith, e))
