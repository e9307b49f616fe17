-- ===== src/Common/Fault.antt =====
-- `none` is a fault: an access out of range, or a cast to the wrong class, which C++ leaves
-- undefined.
use mathlib.Core.Path.{◌≡◌, refl}
use mathlib.Core.Logic.{◌⊎◌, inl, inr}
use mathlib.Core.Option.{Option, none, some}

infixl 5 ◌>>=◌
abbrev pub ◌>>=◌ {ℓ κ} : {A : Type ℓ} {B : Type κ} → Option A → (A → Option B) → Option B
none >>= k = none
some a >>= k = k a

pub Option-cases {ℓ} : {A : Type ℓ} (o : Option A) → (o ≡ none) ⊎ ((a : A) × (o ≡ some a))
Option-cases none = inl refl
Option-cases (some a) = inr (a, refl)

-- Binding in two stages, where the second stage is known for each result of the first.
pub >>=-regroup {ℓ κ ι} :
    {A : Type ℓ} {B : Type κ} {C : Type ι} (o : Option A) (f : A → Option B) (g : B → Option C)
    (h : A → Option C)
    → ((a : A) → h a ≡ (f a >>= g))
    → (o >>= h) ≡ (o >>= f >>= g)
>>=-regroup none f g h e = refl
>>=-regroup (some a) f g h e = e a
