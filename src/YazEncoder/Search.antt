-- ===== src/YazEncoder/Search.antt =====
-- The stores of Yaz_encode, and its search for a reference, stay inside their buffers.
use mathlib.Core.Option.{some-injective}
use mkw_sp.Base.{
  ℕ, zero, suc, ◌+◌, ◌/◌, ◌^◌, ◌≤◌, ◌<◌, ◌≡◌, ◌⊎◌, inr, List, Option, none, some, Bool, true, false,
  not, ltb, ◌==◌, length, set, get_elem?, get_or, refl, arith, length-set, get_elem?-eq-get_or, sym,
  ◌∙◌, subst, if◌then◌else◌, ==→eq,
}
use native.Mathlib.Decide.{ℕ_discrete}
use mkw_sp.Base.Words.{u8}
use mkw_sp.Bytes.{write16, write32, length-write32}
use mkw_sp.YazEncoder.{bind, store, store16, store32, Best, match_from, find_from}

-- A step that does not fault, with a property of its value.
abbrev pub Gives : {A : Type 0} → (A → Type 0) → Option A → Type 0
Gives {A = A} P o = (a : A) × (o ≡ some a) × P a

pub bind-Gives :
    {A B : Type 0} {P : A → Type 0} {Q : B → Type 0} (o : Option A) (k : A → Option B)
    → Gives P o
    → ((a : A) → P a → Gives Q (k a))
    → Gives Q (bind o k)
bind-Gives none k (a, e, p) h = cc
bind-Gives {P = P} (some a) k (b, e, p) h = h a (subst P (sym (some-injective _ _ e)) p)

pub if-Gives :
    {A : Type 0} {P : A → Type 0} (b : Bool) (o p : Option A)
    → (b ≡ true → Gives P o)
    → (b ≡ false → Gives P p)
    → Gives P (if b then o else p)
if-Gives true o p x y = x refl
if-Gives false o p x y = y refl

pub store-Gives :
    (dst : List ℕ) (offset val : ℕ)
    → offset < length dst
    → Gives (λ d. length d ≡ length dst) (store dst offset val)
unfolding store
store-Gives dst offset val h =
    (set dst offset (u8 val), ground arith, length-set dst offset (u8 val))

pub store16-Gives :
    (dst : List ℕ) (offset val : ℕ)
    → offset + 1 < length dst
    → Gives (λ d. length d ≡ length dst) (store16 dst offset val)
unfolding store16 write16
store16-Gives dst offset val h = (
  write16 dst offset val,
  ground arith,
  length-set _ (offset + 1) (u8 val) ∙ length-set dst offset (u8 (val / 2 ^ 8)),
)

pub store32-Gives :
    (dst : List ℕ) (offset val : ℕ)
    → offset + 3 < length dst
    → Gives (λ d. length d ≡ length dst) (store32 dst offset val)
unfolding store32
store32-Gives dst offset val h =
    (write32 dst offset val, ground arith, length-write32 dst offset val)

pub byte-Gives :
    (src : List ℕ) (i : ℕ) → i < length src → Gives (λ a. a ≡ get_or src i 0) (get_elem? src i)
byte-Gives src i h = (get_or src i 0, get_elem?-eq-get_or src i 0 h, refl)

-- The bytes at two offsets of the source are the same.
abbrev pub Same : List ℕ → ℕ → ℕ → ℕ → Type 0
Same src s r n = (j : ℕ) → j < n → get_or src (s + j) 0 ≡ get_or src (r + j) 0

Same-next :
    (src : List ℕ) (s r k : ℕ)
    → Same src s r k
    → get_or src (s + k) 0 ≡ get_or src (r + k) 0
    → Same src s r (k + 1)
Same-next src s r k h e j l = elim (ℕ_discrete j k) [
  | yes y ↦ rw y e
  | no n ↦ h j (omega (arith, n))
]

match_from-Gives :
    (src : List ℕ) (rounds s r k : ℕ)
    → s + k + rounds ≤ length src
    → r + k + rounds ≤ length src
    → Same src s r k
    → Gives (λ n. (n ≤ k + rounds) × Same src s r n) (match_from src rounds s r k)
unfolding match_from
match_from-Gives src zero s r k a b h = (k, refl, (omega arith, h))
match_from-Gives src (suc rounds) s r k a b h =
    bind-Gives _ _ (byte-Gives src (s + k) (omega arith)) (λ x p.
      bind-Gives _ _ (byte-Gives src (r + k) (omega arith)) (λ y q.
        if-Gives (x == y) _ _
          (λ e.
            let (n, f, (l, m)) =
              match_from-Gives src rounds s r (k + 1) (omega arith) (omega arith)
                (Same-next src s r k h (sym p ∙ ==→eq x y e ∙ q)) in
            (n, f, (omega (arith, l), m)))
          (λ _. (k, refl, (omega arith, h)))))

-- A reference that is long enough is inside the source, at most 0x1000 bytes back, and stands for
-- the bytes that come next.
abbrev pub IsRef : List ℕ → ℕ → ℕ → Best → Type 0
IsRef src max s b =
    (b.size ≤ 1)
    ⊎ ((b.size ≤ max) × (b.offset < s) × (s ≤ b.offset + 0x1000) × Same src s b.offset b.size)

pub find_from-Gives :
    (src : List ℕ) (max rounds s r : ℕ) (best : Best)
    → max ≤ 0x111
    → s + max ≤ length src
    → r + rounds ≤ s
    → s ≤ r + 0x1000
    → IsRef src max s best
    → Gives (IsRef src max s) (find_from src max rounds s r best)
unfolding find_from
find_from-Gives src max zero s r best a b c d h = (best, refl, h)
find_from-Gives src max (suc rounds) s r best a b c d h =
    let again : (best' : Best)
        → IsRef src max s best'
        → Gives (IsRef src max s) (find_from src max rounds s (r + 1) best') =
      λ best' h'.
        find_from-Gives src max rounds s (r + 1) best' a b (omega arith) (omega arith) h' in
    if-Gives (ltb best.size max) _ _
      (λ y. bind-Gives _ _ (byte-Gives src (s + best.size) (ground arith)) (λ x _.
        bind-Gives _ _ (byte-Gives src (r + best.size) (ground arith)) (λ x' _.
          if-Gives (not (x == x')) _ _ (λ _. again best h)
            (λ _.
              bind-Gives _ _
                (match_from-Gives src max s r 0 (omega arith) (omega arith)
                  (λ j l. absurd (omega arith)))
                (λ size (l, same).
                  if-Gives (ltb best.size size) _ _
                    (λ _.
                      if-Gives (size == 0x111) _ _
                        (λ _. (_, refl, inr (omega (arith, l), omega arith, omega arith, same)))
                        (λ _. again _ (inr (omega (arith, l), omega arith, omega arith, same))))
                    (λ _. again best h))))))
      (λ _. (best, refl, h))
