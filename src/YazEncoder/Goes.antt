-- ===== src/YazEncoder/Goes.antt =====
-- Yaz_encode: steps that fault, stop with 0, or go on.
use mathlib.Core.Option.{some-injective}
use mkw_sp.Base.{◌≡◌, Option, none, some, Bool, true, false, refl, sym, subst, if◌then◌else◌}
use mkw_sp.YazEncoder.{bind, Encoder}
use mkw_sp.YazEncoder.Search.{Gives}

-- A step that goes on gives a state with a property.
abbrev pub Goes : (Encoder → Type 0) → Option (Option Encoder) → Type 0
Goes P o = (r : Option Encoder) × (o ≡ some r) × ((e : Encoder) → r ≡ some e → P e)

pub continues : (P : Encoder → Type 0) (e : Encoder) → P e → Goes P (some (some e))
continues P e p = (some e, refl, λ e' f. subst P (some-injective _ _ f) p)

pub stops : (P : Encoder → Type 0) → Goes P (some none)
stops P = (none, refl, λ e f. cc)

pub bind-Goes :
    {A : Type 0} {Q : A → Type 0} (P : Encoder → Type 0) (o : Option A)
    (k : A → Option (Option Encoder))
    → Gives Q o
    → ((a : A) → Q a → Goes P (k a))
    → Goes P (bind o k)
bind-Goes P none k (a, e, q) h = cc
bind-Goes {Q = Q} P (some a) k (b, e, q) h = h a (subst Q (sym (some-injective _ _ e)) q)

pub if-Goes :
    (P : Encoder → Type 0) (b : Bool) (o p : Option (Option Encoder))
    → (b ≡ true → Goes P o)
    → (b ≡ false → Goes P p)
    → Goes P (if b then o else p)
if-Goes P true o p x y = x refl
if-Goes P false o p x y = y refl
