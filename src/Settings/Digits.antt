-- ===== src/Settings/Digits.antt =====
-- Numbers in digits: a strtoul and formats for the tests, which are as Settings.Known.Numbers asks.
use mkw_sp.Base.{
  ℕ, zero, suc, ◌+◌, ◌*◌, ◌/◌, ◌%◌, ◌-◌, ◌≤◌, ◌<◌, ◌≡◌, ◌∙◌, List, [], ◌∷◌, ◌++◌, Option, none,
  some, true, ltb, leb, ◌&&◌, length, arith, refl, ap, if◌then◌else◌, length-append, Bool-cases,
  inl, inr, ◌^◌,
}
use mkw_sp.IniReader.{Kind, kind}
use mkw_sp.IniReader.Line.{IsWord}
use mkw_sp.IniReader.Line.Spaced.{IsName}
use mkw_sp.Settings.Sound.{Numbers}

unfoldable pub digit : ℕ → ℕ
digit d = if ltb d 10 then 48 + d else 55 + d

unfoldable pub digit_value : ℕ → Option ℕ
digit_value c =
    if leb 48 c && ltb c 58
    then some (c - 48)
    else if leb 65 c && ltb c 71
    then some (c - 55)
    else none

unfoldable pub push : ℕ → Option ℕ → ℕ → Option ℕ
push base none c = none
push base (some n) c = elim (digit_value c) [
  | none ↦ none
  | some d ↦ if ltb d base then some (n * base + d) else none
]

unfoldable pub parse : ℕ → Option ℕ → List ℕ → Option ℕ
parse base n [] = n
parse base n (c ∷ cs) = parse base (push base n c) cs

-- Numbers of more than 32 bits are ULONG_MAX.
abbrev pub clamp : Option ℕ → Option ℕ
clamp none = none
clamp (some v) = if ltb v (2 ^ 32) then some v else some (2 ^ 32 - 1)

abbrev pub strtoul : ℕ → List ℕ → Option ℕ
strtoul base text = clamp (parse base (some 0) text)

-- The last k + 1 digits, and as many as a number has of them.
unfoldable pub fixed : ℕ → ℕ → ℕ → List ℕ
fixed base zero v = digit (v % base) ∷ []
fixed base (suc k) v = fixed base k (v / base) ++ digit (v % base) ∷ []

unfoldable pub shortest : ℕ → ℕ → List ℕ
shortest zero v = digit (v % 10) ∷ []
shortest (suc k) v =
    let front = shortest k (v / 10) in
    if ltb v 10 then digit v ∷ [] else front ++ digit (v % 10) ∷ []

abbrev pub dec : ℕ → List ℕ
dec v = shortest 9 v

abbrev pub hex8 : ℕ → List ℕ
hex8 v = fixed 16 7 v

-- base ^ (k + 1)
abbrev limit : ℕ → ℕ → ℕ
limit base zero = base
limit base (suc k) = base * limit base k

digit_value-digit : (d : ℕ) → d < 16 → digit_value (digit d) ≡ some d
unfolding digit_value digit
digit_value-digit d h = ground arith

kind-digit : (d : ℕ) → d < 16 → kind (digit d) ≡ Kind.other
unfolding digit
kind-digit d h = ground arith

parse-append :
    (base : ℕ) (n : Option ℕ) (xs : List ℕ) (c : ℕ)
    → parse base n (xs ++ c ∷ []) ≡ push base (parse base n xs) c
unfolding parse
parse-append base n [] c = refl
parse-append base n (x ∷ xs) c = parse-append base (push base n x) xs c

push-digit :
    (base n d : ℕ) → d < base → base ≤ 16 → push base (some n) (digit d) ≡ some (n * base + d)
unfolding push
push-digit base n d h s = ground (arith, digit_value-digit d (omega arith), h)

IsWord-append : (xs : List ℕ) (c : ℕ) → IsWord xs → kind c ≡ Kind.other → IsWord (xs ++ c ∷ [])
IsWord-append [] c w h = (h, tt)
IsWord-append (x ∷ xs) c w h = (w.0, IsWord-append xs c w.1 h)

IsName-append : (xs : List ℕ) (c : ℕ) → IsWord xs → kind c ≡ Kind.other → IsName (xs ++ c ∷ [])
IsName-append [] c w h = (h, tt)
IsName-append (x ∷ xs) c w h = (w.0, IsWord-append xs c w.1 h)

IsName-IsWord : (xs : List ℕ) → IsName xs → IsWord xs
IsName-IsWord [] w = tt
IsName-IsWord (x ∷ xs) w = w

fixed-IsName : (k v : ℕ) → IsName (fixed 16 k v)
unfolding fixed
fixed-IsName zero v = (kind-digit (v % 16) (omega arith), tt)
fixed-IsName (suc k) v =
    IsName-append (fixed 16 k (v / 16)) (digit (v % 16)) (IsName-IsWord _ (fixed-IsName k (v / 16)))
      (kind-digit (v % 16) (omega arith))

length-fixed : (k v : ℕ) → length (fixed 16 k v) ≡ suc k
unfolding fixed
length-fixed zero v = refl
length-fixed (suc k) v =
    omega
      (arith, length-append (fixed 16 k (v / 16)) (digit (v % 16) ∷ []), length-fixed k (v / 16))

parse-fixed : (k v : ℕ) → v < limit 16 k → parse 16 (some 0) (fixed 16 k v) ≡ some v
unfolding fixed parse
parse-fixed zero v h = push-digit 16 0 (v % 16) (omega arith) (omega arith) ∙ ap some (omega arith)
parse-fixed (suc k) v h =
    parse-append 16 (some 0) (fixed 16 k (v / 16)) (digit (v % 16))
    ∙ ap (λ n. push 16 n (digit (v % 16))) (parse-fixed k (v / 16) (omega (arith, h)))
    ∙ push-digit 16 (v / 16) (v % 16) (omega arith) (omega arith)
    ∙ ap some (omega arith)

shortest-IsName : (k v : ℕ) → IsName (shortest k v)
unfolding shortest
shortest-IsName zero v = (kind-digit (v % 10) (omega arith), tt)
shortest-IsName (suc k) v = elim (Bool-cases (ltb v 10)) [
  | inl small ↦ rw small (kind-digit v (ground (arith, small)), tt)
  | inr large ↦ rw large (
      IsName-append (shortest k (v / 10)) (digit (v % 10))
        (IsName-IsWord _ (shortest-IsName k (v / 10))) (kind-digit (v % 10) (omega arith)))
]

length-shortest : (k m v : ℕ) → v < limit 10 m → length (shortest k v) ≤ suc m
unfolding shortest
length-shortest zero m v h = omega arith
length-shortest (suc k) zero v h =
    let small : ltb v 10 ≡ true = ground (arith, h) in rw small (omega arith)
length-shortest (suc k) (suc m) v h = elim (Bool-cases (ltb v 10)) [
  | inl small ↦ rw small (omega arith)
  | inr large ↦ rw large (
      omega (
        arith,
        length-append (shortest k (v / 10)) (digit (v % 10) ∷ []),
        length-shortest k m (v / 10) (omega (arith, h)),
      ))
]

parse-shortest : (k v : ℕ) → v < limit 10 k → parse 10 (some 0) (shortest k v) ≡ some v
unfolding shortest parse
parse-shortest zero v h =
    push-digit 10 0 (v % 10) (omega arith) (omega arith) ∙ ap some (omega arith)
parse-shortest (suc k) v h = elim (Bool-cases (ltb v 10)) [
  | inl small ↦
      rw small (push-digit 10 0 v (ground (arith, small)) (omega arith) ∙ ap some (omega arith))
  | inr large ↦ rw large (
      parse-append 10 (some 0) (shortest k (v / 10)) (digit (v % 10))
      ∙ ap (λ n. push 10 n (digit (v % 10))) (parse-shortest k (v / 10) (omega (arith, h)))
      ∙ push-digit 10 (v / 10) (v % 10) (omega arith) (omega arith)
      ∙ ap some (omega arith))
]

strtoul-parse :
    (base v : ℕ) (text : List ℕ)
    → parse base (some 0) text ≡ some v
    → v < 2 ^ 32
    → strtoul base text ≡ some v
strtoul-parse base v text e h = rw e ground (arith, h)

clamp-lt : (n : Option ℕ) (v : ℕ) → clamp n ≡ some v → v < 2 ^ 32
clamp-lt none v e = cc
clamp-lt (some x) v e = ground (arith, e)

pub strtoul-lt : (base v : ℕ) (text : List ℕ) → strtoul base text ≡ some v → v < 2 ^ 32
strtoul-lt base v text e = clamp-lt (parse base (some 0) text) v e

pub digits-Numbers : Numbers strtoul dec hex8
digits-Numbers = record {
  dec_back = λ v h. strtoul-parse 10 v (dec v) (parse-shortest 9 v (omega arith)) h;
  hex8_back = λ v h. strtoul-parse 16 v (hex8 v) (parse-fixed 7 v (omega arith)) h;
  dec_size = λ v h. length-shortest 9 7 v (omega arith);
  hex8_size = λ v h. length-fixed 7 v;
  dec_name = shortest-IsName 9;
  hex8_name = fixed-IsName 7;
}
