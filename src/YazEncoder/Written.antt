-- ===== src/YazEncoder/Written.antt =====
-- Yaz.c: the bytes behind the header that Yaz_encode has written, with any byte for the header of
-- the group that is open.
use mkw_sp.Base.{
  ℕ, zero, suc, ◌+◌, ◌-◌, ◌*◌, ◌/◌, ◌%◌, ◌^◌, ◌≤◌, ◌<◌, ◌≡◌, List, [], ◌∷◌, ◌++◌, length, set, take,
  drop, get_or, arith, refl, ap, sym, ◌∙◌, length-set, length-take, drop-append_left, take-set_next,
  set-set_self, set-set_comm, append_assoc, set-get_or,
}
use mkw_sp.Base.Words.{u8}
use mkw_sp.Bytes.{write16}

pub written : List ℕ → ℕ → ℕ → ℕ → List ℕ
written dst g d h = drop 16 (take d (set dst g h))

pub written-set_header :
    (dst : List ℕ) (g d x h : ℕ) → written (set dst g x) g d h ≡ written dst g d h
unfolding written
written-set_header dst g d x h = rw (set-set_self dst g x h)

pub written-push :
    (dst : List ℕ) (g d v h : ℕ)
    → g < d
    → d < length dst
    → 16 ≤ d
    → written (set dst d v) g (d + 1) h ≡ written dst g d h ++ v ∷ []
unfolding written
written-push dst g d v h a b c =
    let l : d < length (set dst g h) = omega (arith, length-set dst g h) in
    ap (λ k. drop 16 (take (d + 1) k)) (set-set_comm dst d g v h (λ e. absurd (omega arith)))
    ∙ ap (λ k. drop 16 (take k (set (set dst g h) d v))) {y = suc d} (omega arith)
    ∙ ap (drop 16) (take-set_next (set dst g h) d v l)
    ∙ drop-append_left 16 (take d (set dst g h)) (v ∷ [])
        (omega (arith, length-take d (set dst g h)))

pub written-push16 :
    (dst : List ℕ) (g d val h : ℕ)
    → g < d
    → d + 1 < length dst
    → 16 ≤ d
    → written (write16 dst d val) g (d + 2) h ≡ written dst g d h ++ u8 (val / 2 ^ 8) ∷ u8 val ∷ []
unfolding write16
written-push16 dst g d val h a b c =
    let x = u8 (val / 2 ^ 8) in
    ap (λ k. written (set (set dst d x) (d + 1) (u8 val)) g k h) {y = d + 1 + 1} (omega arith)
    ∙ written-push (set dst d x) g (d + 1) (u8 val) h (omega arith)
        (omega (arith, length-set dst d x)) (omega arith)
    ∙ ap (λ k. k ++ u8 val ∷ []) (written-push dst g d x h a (omega arith) c)
    ∙ append_assoc (written dst g d h) (x ∷ []) (u8 val ∷ [])

-- A new group: its header is the next byte.
pub written-open :
    (dst : List ℕ) (g d old h : ℕ)
    → d < length dst
    → 16 ≤ d
    → set dst g old ≡ dst
    → written (set dst d 0) d (d + 1) h ≡ written dst g d old ++ h ∷ []
unfolding written
written-open dst g d old h b c e =
    ap (λ k. drop 16 (take (d + 1) k)) (set-set_self dst d 0 h)
    ∙ ap (λ k. drop 16 (take k (set dst d h))) {y = suc d} (omega arith)
    ∙ ap (drop 16) (take-set_next dst d h b)
    ∙ drop-append_left 16 (take d dst) (h ∷ []) (omega (arith, length-take d dst))
    ∙ ap (λ k. drop 16 (take d k) ++ h ∷ []) (sym e)

pub written-all : (dst : List ℕ) (g d : ℕ) → written dst g d (get_or dst g 0) ≡ drop 16 (take d dst)
unfolding written
written-all dst g d = rw (set-get_or dst g 0)

pub written-nil : (dst : List ℕ) (g h : ℕ) → written dst g 16 h ≡ []
unfolding written
written-nil dst g h = drop_take 16 (set dst g h)
  where
    drop_take : (n : ℕ) (xs : List ℕ) → drop n (take n xs) ≡ []
    drop_take zero xs = refl
    drop_take (suc n) [] = refl
    drop_take (suc n) (x ∷ xs) = drop_take n xs

-- The bits of a group header that later items may still set.
abbrev pub left : ℕ → ℕ
left i = (8 - i) % 8

-- The header of a group after item `i`, whose bit is `b`.
abbrev pub marked : ℕ → ℕ → ℕ → ℕ
marked old i b = old + b * 2 ^ (7 - i)

-- The bits of the later items are still 0.
pub marked-clear :
    (i old b : ℕ)
    → i < 8
    → b < 2
    → old < 256
    → old % 2 ^ (8 - i) ≡ 0
    → (marked old i b < 256) × (marked old i b % 2 ^ left ((i + 1) % 8) ≡ 0)
marked-clear zero old b l m c e = (omega arith, omega arith)
marked-clear (suc zero) old b l m c e = (omega arith, omega arith)
marked-clear (suc (suc zero)) old b l m c e = (omega arith, omega arith)
marked-clear (suc (suc (suc zero))) old b l m c e = (omega arith, omega arith)
marked-clear (suc (suc (suc (suc zero)))) old b l m c e = (omega arith, omega arith)
marked-clear (suc (suc (suc (suc (suc zero))))) old b l m c e = (omega arith, omega arith)
marked-clear (suc (suc (suc (suc (suc (suc zero)))))) old b l m c e = (omega arith, omega arith)
marked-clear (suc (suc (suc (suc (suc (suc (suc zero))))))) old b l m c e =
    (omega arith, omega arith)
marked-clear (suc (suc (suc (suc (suc (suc (suc (suc i)))))))) old b l m c e = absurd (omega arith)

-- A header that agrees with it has this bit, and agrees with the old one on the bits before.
pub marked-agrees :
    (i h old b : ℕ)
    → i < 8
    → b < 2
    → old % 2 ^ (8 - i) ≡ 0
    → h / 2 ^ left ((i + 1) % 8) ≡ marked old i b / 2 ^ left ((i + 1) % 8)
    → (h / 2 ^ (8 - i) ≡ old / 2 ^ (8 - i)) × (h / 2 ^ (7 - i) % 2 ≡ b)
marked-agrees zero h old b l m c e = (omega arith, omega arith)
marked-agrees (suc zero) h old b l m c e = (omega arith, omega arith)
marked-agrees (suc (suc zero)) h old b l m c e = (omega arith, omega arith)
marked-agrees (suc (suc (suc zero))) h old b l m c e = (omega arith, omega arith)
marked-agrees (suc (suc (suc (suc zero)))) h old b l m c e = (omega arith, omega arith)
marked-agrees (suc (suc (suc (suc (suc zero))))) h old b l m c e = (omega arith, omega arith)
marked-agrees (suc (suc (suc (suc (suc (suc zero)))))) h old b l m c e = (omega arith, omega arith)
marked-agrees (suc (suc (suc (suc (suc (suc (suc zero))))))) h old b l m c e =
    (omega arith, omega arith)
marked-agrees (suc (suc (suc (suc (suc (suc (suc (suc i)))))))) h old b l m c e =
    absurd (omega arith)
